-- ===== src/Web/State.antt =====
-- src/aptly_gui/web/state.py: the cached read of aptly. Times are seconds of the clock.
use aptly_gui.Prelude.{
  ℕ, ◌+◌, ◌<◌, arith, ◌≡◌, refl, ◌⊎◌, inl, inr, Bool, true, false, ◌&&◌, not, Option, none, some,
  List, [], ◌∷◌, ◌++◌, map, filter, ltb, if◌then◌else◌,
}
use aptly_gui.Text.{Text, mem}
use aptly_gui.Exec.{
  Exc, Exec, Outcome, returned, threw, stuck, exc_text, exc_class, ◌>>=◌, pure, gets,
}
use aptly_gui.Aptly.Models.{Mirror, Published, PublishedSource, Snapshot, Storage}
use aptly_gui.Aptly.Client.{Outside, Moment}
use aptly_gui.Aptly.Client.Requests.{version, storage, list_mirrors, list_snapshots, list_published}

pub record AptlyState : Type 0 where
  pub fetched_at : Moment
  pub version : Text
  pub storage : Option Storage
  pub mirrors : List Mirror
  pub snapshots : List Snapshot
  pub published : List Published

source_names : List PublishedSource → List Text
source_names [] = []
source_names (s ∷ rest) = s.name ∷ source_names rest

-- The elements of the set, in the order of aptly's list.
unfoldable pub published_names : List Published → List Text
unfolding source_names
published_names [] = []
published_names (p ∷ ps) = source_names p.sources ++ published_names ps

unfoldable pub published_snapshot_names : AptlyState → List Text
published_snapshot_names s = published_names s.published

unfoldable pub snapshot_names : AptlyState → List Text
snapshot_names s = map (λ x. x.name) s.snapshots

unfoldable pub mirror_names : AptlyState → List Text
mirror_names s = map (λ m. m.name) s.mirrors

unfoldable pub unpublished_snapshots : AptlyState → List Snapshot
unpublished_snapshots s = filter (λ x. not (mem x.name (published_snapshot_names s))) s.snapshots

missing_of : List Text → Published → List PublishedSource → List (Published × Text)
missing_of known p [] = []
missing_of known p (s ∷ rest) =
    let more = missing_of known p rest in if mem s.name known then more else (p, s.name) ∷ more

missing_in : List Text → List Published → List (Published × Text)
unfolding missing_of
missing_in known [] = []
missing_in known (p ∷ ps) = missing_of known p p.sources ++ missing_in known ps

unfoldable pub missing_snapshots : AptlyState → List (Published × Text)
unfolding missing_in
missing_snapshots s = missing_in (snapshot_names s) s.published

pub record CachedState : Type 0 where
  pub state : AptlyState
  pub stale : Bool
  pub error : Option Text

-- AptlyState(fetched_at=now)
abbrev pub empty_state : Moment → AptlyState
empty_state now = record {
  fetched_at = now;
  version = [];
  storage = none;
  mirrors = [];
  snapshots = [];
  published = [];
}

-- `fresh_enough`: `now - fetched_at` is below `refresh`
unfoldable pub fresh_enough : ℕ → Moment → Option CachedState → Bool
fresh_enough refresh now none = false
fresh_enough refresh now (some c) =
    not c.stale && ltb now.epoch (c.state.fetched_at.epoch + refresh)

-- str(exc) or exc.__class__.__name__
abbrev pub failure_text : Exc → Text
failure_text e = or_class (exc_text e)
  where
    or_class : Text → Text
    or_class [] = exc_class e
    or_class (c ∷ t) = c ∷ t

-- What the cache holds after a read.
unfoldable pub after_read : Option CachedState → Moment → Outcome AptlyState → CachedState
after_read cached now (returned state) = record { state = state; stale = false; error = none }
after_read none now (threw e) = record {
  state = empty_state now;
  stale = true;
  error = some (failure_text e);
}
after_read (some c) now (threw e) = record {
  state = c.state;
  stale = true;
  error = some (failure_text e);
}
after_read none now stuck = record { state = empty_state now; stale = true; error = none }
after_read (some c) now stuck = record { state = c.state; stale = true; error = none }

module _ (o : Outside) where
  -- _read; the five requests that asyncio.gather sends are sent one after another here
  unfoldable pub read : Exec o.State AptlyState
  read = do
    v ← version o
    room ← storage o
    mirrors ← list_mirrors o
    snapshots ← list_snapshots o
    published ← list_published o
    now ← gets (λ w. o.now w)
    pure (record {
      fetched_at = now;
      version = v;
      storage = some room;
      mirrors = mirrors;
      snapshots = snapshots;
      published = published;
    })

  refreshed : Option CachedState → o.State → CachedState × o.State
  refreshed cached w = let (r, w') = read w in (after_read cached (o.now w') r, w')

  keep_or_refresh : Option CachedState → Bool → o.State → CachedState × o.State
  unfolding refreshed
  keep_or_refresh none keep w = refreshed none w
  keep_or_refresh (some c) true w = (c, w)
  keep_or_refresh (some c) false w = refreshed (some c) w

  -- StateCache.get: what it returns is also what the cache then holds.
  unfoldable pub get : ℕ → Bool → Option CachedState → o.State → CachedState × o.State
  unfolding keep_or_refresh
  get refresh force cached w =
      keep_or_refresh cached (not force && fresh_enough refresh (o.now w) cached) w

-- How an answer of the cache relates to what it held and to a read of aptly from `w`: it is what the
-- cache held, where that is unmarked and younger than the refresh and nothing else was asked for; or a
-- read that has just succeeded; or, where the read failed, the state that it held, marked.
abbrev pub Honest : (o : Outside) → ℕ → Bool → CachedState → o.State → CachedState → Type 0
Honest o refresh force c w x =
    ((x ≡ c)
      × (force ≡ false)
      × (c.stale ≡ false)
      × ((o.now w).epoch < c.state.fetched_at.epoch + refresh))
    ⊎ (((read o w).0 ≡ returned x.state) × (x.stale ≡ false) × (x.error ≡ none))
    ⊎ ((e : Exc) × ((read o w).0 ≡ threw e)
        × (x.state ≡ c.state)
        × (x.stale ≡ true)
        × (x.error ≡ some (failure_text e)))
    ⊎ (((read o w).0 ≡ stuck) × (x.state ≡ c.state) × (x.stale ≡ true))

module _ (o : Outside) (refresh : ℕ) (force : Bool) (c : CachedState) (w : o.State) where
  by_outcome :
      (r : Outcome AptlyState) (now : Moment)
      → (read o w).0 ≡ r
      → Honest o refresh force c w (after_read (some c) now r)
  unfolding after_read
  by_outcome (returned state) now e = inr (inl (e, refl, refl))
  by_outcome (threw x) now e = inr (inr (inl (x, e, refl, refl, refl)))
  by_outcome stuck now e = inr (inr (inr (e, refl, refl)))

  by_keep :
      (keep : Bool)
      → (not force && fresh_enough refresh (o.now w) (some c)) ≡ keep
      → Honest o refresh force c w (keep_or_refresh o (some c) keep w).0
  unfolding keep_or_refresh refreshed fresh_enough
  by_keep true k = inl (refl, ground (arith, k), ground (arith, k), ground (arith, k))
  by_keep false k = by_outcome (read o w).0 _ refl

-- Once the cache holds a read, an outage never blanks a page and never passes for a good read: whatever
-- aptly answers, the cache gives what it held only where no refresh is forced and that is unmarked and
-- younger than the refresh interval; else it gives a read of aptly that has just succeeded, unmarked and
-- with no error, or, where the read raised, the state that it held, marked as stale and with the text
-- of the failure, and the same without a text where a read would not come back.
pub get-Honest :
    (o : Outside) (refresh : ℕ) (force : Bool) (c : CachedState) (w : o.State)
    → Honest o refresh force c w (get o refresh force (some c) w).0
unfolding get
get-Honest o refresh force c w =
    by_keep o refresh force c w (not force && fresh_enough refresh (o.now w) (some c)) refl
