-- ===== src/Web/Views.antt =====
-- What the pages of web/app.py that only show compute from the database and the cached state of
-- aptly: _load_sets, the filter of the snapshots, the mirrors that a set misses, the confirmations of
-- a deletion, the lists of jobs and the health check.
use aptly_gui.Prelude.{
  ℕ, Bool, false, not, Option, none, some, List, [], ◌∷◌, ◌++◌, filter, take, length, leb, ◌==◌,
  if◌then◌else◌,
}
use aptly_gui.Text.{truthy, Text, codes, same, mem, text_leb}
use aptly_gui.Text.Sort.{sort_texts}
use aptly_gui.Dict.{values}
use aptly_gui.Aptly.Models.{Snapshot, Mirror}
use aptly_gui.Aptly.Client.{Moment}
use aptly_gui.Db.Models.{Job, MirrorSet, SnapshotSet, User, Tables, expected_mirrors}
use aptly_gui.Services.Adoption.{Proposal, propose_sets}
use aptly_gui.Jobs.State.{get_snapshot_set, get_mirror_set, get_job}
use aptly_gui.Web.State.{AptlyState, CachedState, published_snapshot_names, mirror_names}
use aptly_gui.Web.Deletions.{
  Entry, Blocked, snapshot_context, managed, present_mirrors, snapshots_of,
}

-- A stable insertion sort; `first a b` says that `a` may stand before `b`.
module _ {A : Type 0} (first : A → A → Bool) where
  unfoldable pub place : A → List A → List A
  place a [] = a ∷ []
  place a (b ∷ bs) = let rest = place a bs in if first a b then a ∷ b ∷ bs else b ∷ rest

  unfoldable pub sort_by : List A → List A
  unfolding place
  sort_by [] = []
  sort_by (a ∷ as_) = place a (sort_by as_)

-- _load_sets: in the order of their names
unfoldable pub load_sets : List MirrorSet → List MirrorSet
load_sets sets = sort_by (λ a b. text_leb a.name b.name) sets

-- users_index: in the order of their names
unfoldable pub listed_users : List User → List User
listed_users users = sort_by (λ a b. text_leb a.username b.username) users

pub data Shown : Type 0 where
  all_shown published_shown unpublished_shown : Shown

-- The parameter `state` of the page of snapshots.
unfoldable pub shown_by : Option Text → Shown
shown_by none = all_shown
shown_by (some state) =
    if same state (codes "unpublished")
    then unpublished_shown
    else if same state (codes "published")
    then published_shown
    else all_shown

unfoldable pub shown_snapshots : Shown → AptlyState → List Snapshot
shown_snapshots shown state =
    let sorted = sort_by (λ (a b : Snapshot). text_leb a.name b.name) state.snapshots in
    let published = published_snapshot_names state in
    elim shown [
      | all_shown ↦ sorted
      | unpublished_shown ↦ filter (λ x. not (mem x.name published)) sorted
      | published_shown ↦ filter (λ x. mem x.name published) sorted
    ]

-- snapshots
unfoldable pub snapshots_page : Option Text → AptlyState → List Snapshot
snapshots_page state cached = shown_snapshots (shown_by state) cached

-- What discard_set_confirm shows: the names, and those of them that are published.
pub record DiscardView : Type 0 where
  pub names : List Text
  pub published : List Text

discard_view : AptlyState → Option SnapshotSet → Option MirrorSet → Option DiscardView
discard_view state (some x) (some set) =
    let names = sort_texts (values x.snapshots) in
    some (record {
      names = names;
      published = filter (λ name. mem name (published_snapshot_names state)) names;
    })
discard_view state _ _ = none

-- discard_set_confirm; none is the page that says "not found"
unfoldable pub discard_set_confirm : ℕ → ℕ → AptlyState → Tables → Option DiscardView
unfolding discard_view
discard_set_confirm set_id id state t =
    discard_view state (get_snapshot_set id t.snapshot_sets) (get_mirror_set set_id t.mirror_sets)

-- What set_delete_confirm shows.
pub record DeleteView : Type 0 where
  pub present : List Text
  pub snapshot_sets : ℕ
  pub blocking : List Text

delete_view : AptlyState → List SnapshotSet → Option MirrorSet → Option DeleteView
delete_view state rows none = none
delete_view state rows (some set) = some (record {
  present = present_mirrors state set;
  snapshot_sets = length (filter (λ x. x.mirror_set_id == set.id) rows);
  blocking = snapshots_of state (present_mirrors state set);
})

unfoldable pub set_delete_confirm : ℕ → AptlyState → Tables → Option DeleteView
unfolding delete_view
set_delete_confirm id state t = delete_view state t.snapshot_sets (get_mirror_set id t.mirror_sets)

-- What discard_confirm shows of a snapshot: its entry, where aptly has it, and why it is blocked.
blocked_of : Option Entry → Option Blocked
blocked_of none = none
blocked_of (some entry) = entry.blocked

unfoldable pub discard_confirm : AptlyState → Tables → Text → Option Entry × Option Blocked
unfolding blocked_of
discard_confirm state t name =
    let entry = snapshot_context (load_sets t.mirror_sets) t.snapshot_sets state name in
    (entry, blocked_of entry)

-- What mirror_delete_confirm shows of a mirror.
pub record MirrorView : Type 0 where
  pub exists : Bool
  pub owner : Option Text
  pub blocking : List Text

unfoldable pub mirror_delete_confirm : AptlyState → Tables → Text → MirrorView
mirror_delete_confirm state t name = record {
  exists = mem name (mirror_names state);
  owner = managed (load_sets t.mirror_sets) name;
  blocking = snapshots_of state (name ∷ []);
}

-- The names of the mirrors that sets expect: the keys of _managed_map.
unfoldable pub managed_names : List MirrorSet → List Text
managed_names [] = []
managed_names (set ∷ sets) = expected_mirrors set ++ managed_names sets

-- adopt_form
unfoldable pub adopt_form : AptlyState → Tables → List Proposal × List Mirror
unfolding managed_names
adopt_form state t =
    propose_sets (managed_names (load_sets t.mirror_sets)) state.mirrors state.published

-- The jobs of a table, the latest first, and at most a number of them.
unfoldable pub latest_jobs : ℕ → List Job → List Job
latest_jobs limit jobs = take limit (sort_by (λ a b. leb b.id a.id) jobs)

-- jobs_index
unfoldable pub jobs_index : List Job → List Job
unfolding latest_jobs
jobs_index jobs = latest_jobs 50 jobs

abbrev is_of : ℕ → Option ℕ → Bool
is_of id none = false
is_of id (some i) = i == id

-- What set_detail shows of a set.
pub record DetailView : Type 0 where
  pub snapshot_sets : List SnapshotSet
  pub jobs : List Job
  pub missing_mirrors : List Text

detail_view : AptlyState → Tables → Option MirrorSet → Option DetailView
unfolding latest_jobs
detail_view state t none = none
detail_view state t (some set) = some (record {
  snapshot_sets =
      sort_by (λ a b. leb b.taken_at.epoch a.taken_at.epoch)
        (filter (λ x. x.mirror_set_id == set.id) t.snapshot_sets);
  jobs = latest_jobs 5 (filter (λ j. is_of set.id j.mirror_set_id) t.jobs);
  missing_mirrors = filter (λ name. not (mem name (mirror_names state))) (expected_mirrors set);
})

unfoldable pub set_detail : ℕ → AptlyState → Tables → Option DetailView
unfolding detail_view
set_detail id state t = detail_view state t (get_mirror_set id t.mirror_sets)

-- job_detail; none is the page that says "not found"
unfoldable pub job_detail : ℕ → Tables → Option Job
job_detail id t = get_job id t.jobs

-- healthz: the answer, and its status
pub record Health : Type 0 where
  pub aptly_reachable : Bool
  pub aptly_version : Text
  pub last_read : Moment
  pub error : Option Text
  pub status_code : ℕ

unfoldable pub healthz : CachedState → Health
healthz cached = record {
  aptly_reachable = not cached.stale;
  aptly_version = cached.state.version;
  last_read = cached.state.fetched_at;
  error = cached.error;
  status_code = if cached.stale then 503 else 200;
}

-- login_form: where a visitor who is signed in goes instead of to the form
unfoldable pub login_form : Option User → Option Text
login_form none = none
login_form (some user) = some (codes "/")

-- `settings.aptly_socket or settings.aptly_url` of settings_form
unfoldable pub aptly_target : Option Text → Text → Text
aptly_target none url = url
aptly_target (some socket) url = if truthy socket then socket else url
