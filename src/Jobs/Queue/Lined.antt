-- ===== src/Jobs/Queue/Lined.antt =====
-- The queue lists waiting jobs, each once: what keeps this, and what an added job does to it.
use mathlib.Core.Path.{subst}
use aptly_gui.Prelude.{
  ℕ, ◌≡◌, sym, ap, ◌∙◌, ◌⊎◌, inl, inr, Bool, true, false, Option, none, some, List, [], ◌∷◌, ◌++◌,
  arith, ◌==◌, ==_iff, Bool-cases, if◌then◌else◌, All, All-append,
}
use aptly_gui.Db.Models.{Job, Tables}
use aptly_gui.Jobs.State.{Local, get_job}
use aptly_gui.Jobs.Steps.{positions}
use aptly_gui.Jobs.Run.Alone.{Alone}
use aptly_gui.Jobs.Queue.Turn.{Waiting, Waiting-Alone, Done}
use aptly_gui.Jobs.Queue.{Owned}

-- `id` is none of the entries.
abbrev pub Absent : ℕ → List ℕ → Type 0
Absent id queue = All (λ i. (i == id) ≡ false) queue

-- The entries are waiting jobs, each once.
abbrev pub Lined : List ℕ → Tables → Type 0
Lined [] t = Unit
Lined (id ∷ queue) t = Waiting id t × Absent id queue × Lined queue t

pub record Ready (l : Local) : Type 0 where
  pub owned : Owned l.live
  pub lined : Lined l.queue l.live
  pub idle : l.current_job_id ≡ none

pub Lined-Alone :
    {job : ℕ} {l m : Local} (queue : List ℕ)
    → Alone job l m
    → Absent job queue
    → Lined queue l.live
    → Lined queue m.live
Lined-Alone [] a e h = tt
Lined-Alone {job} (id ∷ queue) a e h = (Waiting-Alone a e.0 h.0, h.1, Lined-Alone queue a e.1 h.2)

pub Owned-Alone :
    {job : ℕ} {l m : Local}
    → Alone job l m
    → (row : Job) × (get_job job m.live.jobs ≡ some row)
    → Owned l.live
    → Owned m.live
Owned-Alone {job} {l} {m} a found h id e = elim (Bool-cases (id == job)) [
  | inl same ↦
      let is_job : id ≡ job = (==_iff id job).0 same in
      absurd (none-ne-some (sym e ∙ ap (λ (i : ℕ). get_job i m.live.jobs) is_job ∙ found.1))
  | inr other ↦ a.steps id other ∙ h id (sym (a.jobs id other) ∙ e)
]
  where
    none-ne-some : {row : Job} → none ≡ some row → ⊥
    none-ne-some p = cc

pub Done-row : {id : ℕ} (t : Tables) → Done id t → (row : Job) × (get_job id t.jobs ≡ some row)
Done-row t (inl h) = (h.row, h.found)
Done-row t (inr h) = (h.row, h.found)

-- What holds of a table's jobs and steps holds when the other tables change.
pub Waiting-same :
    {id : ℕ} (t u : Tables) → u.jobs ≡ t.jobs → u.steps ≡ t.steps → Waiting id t → Waiting id u
Waiting-same {id} t u j s w = record {
  row = w.row;
  found = ap (get_job id) j ∙ w.found;
  state = w.state;
  new = ap (positions id) s ∙ w.new;
}

pub Lined-same :
    (t u : Tables) (queue : List ℕ)
    → u.jobs ≡ t.jobs
    → u.steps ≡ t.steps
    → Lined queue t
    → Lined queue u
Lined-same t u [] j s h = tt
Lined-same t u (id ∷ queue) j s h = (Waiting-same t u j s h.0, h.1, Lined-same t u queue j s h.2)

pub Owned-same : (t u : Tables) → u.jobs ≡ t.jobs → u.steps ≡ t.steps → Owned t → Owned u
Owned-same t u j s h id e = ap (positions id) s ∙ h id (sym (ap (get_job id) j) ∙ e)

pub Ready-writes :
    {l m : Local}
    → m.queue ≡ l.queue
    → m.current_job_id ≡ l.current_job_id
    → m.live.jobs ≡ l.live.jobs
    → m.live.steps ≡ l.live.steps
    → Ready l
    → Ready m
Ready-writes {l} {m} q c j s h = record {
  owned = Owned-same l.live m.live j s h.owned;
  lined =
      subst (λ queue. Lined queue m.live) (sym q) (Lined-same l.live m.live l.queue j s h.lined);
  idle = c ∙ h.idle;
}

-- A waiting job is not the one that is being added.
pub Absent-new :
    (new : ℕ) (t : Tables) (queue : List ℕ)
    → get_job new t.jobs ≡ none
    → Lined queue t
    → Absent new queue
Absent-new new t [] e h = tt
Absent-new new t (id ∷ queue) e h =
    (other (Bool-cases (id == new)) h.0, Absent-new new t queue e h.2)
  where
    other : ((id == new) ≡ true) ⊎ ((id == new) ≡ false) → Waiting id t → (id == new) ≡ false
    other (inr no_) w = no_
    other (inl same) w =
        let is_new : id ≡ new = (==_iff id new).0 same in
        let found : get_job new t.jobs ≡ some w.row =
          ap (λ (i : ℕ). get_job i t.jobs) (sym is_new) ∙ w.found in
        cc

-- What an added job does to the others.
pub Waiting-enqueued :
    (id new : ℕ) (row : Job) (t u : Tables)
    → (id == new) ≡ false
    → get_job id u.jobs ≡ (if id == new then some row else get_job id t.jobs)
    → u.steps ≡ t.steps
    → Waiting id t
    → Waiting id u
Waiting-enqueued id new row t u e f s w = record {
  row = w.row;
  found = f ∙ rw e w.found;
  state = w.state;
  new = ap (positions id) s ∙ w.new;
}

pub Lined-enqueued :
    (new : ℕ) (row : Job) (t u : Tables) (queue : List ℕ)
    → ((id : ℕ) → get_job id u.jobs ≡ (if id == new then some row else get_job id t.jobs))
    → u.steps ≡ t.steps
    → Waiting new u
    → get_job new t.jobs ≡ none
    → Lined queue t
    → Lined (queue ++ new ∷ []) u
Lined-enqueued new row t u [] f s w e h = (w, tt, tt)
Lined-enqueued new row t u (id ∷ queue) f s w e h =
    let absent : Absent new (id ∷ queue) = Absent-new new t (id ∷ queue) e h in
    (
      Waiting-enqueued id new row t u absent.0 (f id) s h.0,
      All-append (λ i. (i == id) ≡ false) queue (new ∷ []) h.1 (ground (arith, absent.0), tt),
      Lined-enqueued new row t u queue f s w e h.2,
    )

pub not_there :
    (row : Job) (found earlier : Option Job) (b : Bool)
    → found ≡ (if b then some row else earlier)
    → found ≡ none
    → earlier ≡ none
not_there row found earlier true e f = absurd (some-ne-none (sym e ∙ f))
  where
    some-ne-none : {row : Job} → some row ≡ none → ⊥
    some-ne-none p = cc
not_there row found earlier false e f = sym e ∙ f
