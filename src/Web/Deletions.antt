-- ===== src/Web/Deletions.antt =====
-- The pages that start a deletion (discard_submit, discard_set_submit, set_delete and mirror_delete of
-- web/app.py): each decides on the cached state of aptly and the database, and enqueues a job or
-- turns the request down.
pub mod Safe
use aptly_gui.Prelude.{
  ℕ, ◌≡◌, refl, Bool, true, false, ◌||◌, ◌&&◌, not, Option, none, some, List, [], ◌∷◌, ◌++◌, map,
  filter, any, find, ◌==◌, if◌then◌else◌,
}
use aptly_gui.Text.{Text, codes, same, mem, starts_with, truthy, text_leb}
use aptly_gui.Dict.{Dict, values}
use aptly_gui.Aptly.Models.{Snapshot, Published, PublishedSource}
use aptly_gui.Aptly.Client.{Moment}
use aptly_gui.Db.Models.{
  MirrorSet, SnapshotSet, Params, JobType, discard, remove, expected_mirrors, AuditEntry, Tables,
}
use aptly_gui.Text.Sort.{sort_texts}
use aptly_gui.Jobs.State.{get_snapshot_set, get_mirror_set}
use aptly_gui.Web.State.{AptlyState, published_snapshot_names, snapshot_names, mirror_names}

pub data Blocked : Type 0 where
  published in_set : Blocked

-- The set and the snapshot set that a snapshot belongs to.
pub record Owner : Type 0 where
  pub mirror_set_id : ℕ
  pub mirror_set : Text
  pub snapshot_set_id : ℕ
  pub taken_at : Moment

pub record Entry : Type 0 where
  pub owner : Option Owner
  pub blocked : Option Blocked

-- An assignment to a key that a later one may replace.
unfoldable pub later_or : {A : Type 0} → Option A → Option A → Option A
later_or (some a) here = some a
later_or none here = here

unfoldable pub when : {A : Type 0} → Bool → A → Option A
when true a = some a
when false a = none

abbrev pub holds : MirrorSet → Text → SnapshotSet → Bool
holds set name x = x.mirror_set_id == set.id && mem name (values x.snapshots)

-- The loop over a set's snapshot sets: the last one that names the snapshot.
unfoldable pub owner_in : MirrorSet → List SnapshotSet → Text → Option Owner
unfolding when later_or
owner_in set [] name = none
owner_in set (x ∷ xs) name = later_or (owner_in set xs name) (
    when (holds set name x) (record {
      mirror_set_id = set.id;
      mirror_set = set.name;
      snapshot_set_id = x.id;
      taken_at = x.taken_at;
    }))

unfoldable pub owner_of : List MirrorSet → List SnapshotSet → Text → Option Owner
unfolding later_or
owner_of [] rows name = none
owner_of (set ∷ sets) rows name = later_or (owner_of sets rows name) (owner_in set rows name)

abbrev pub blocked_by : Bool → Option Owner → Option Blocked
blocked_by true owner = some published
blocked_by false (some o) = some in_set
blocked_by false none = none

-- _snapshot_context(...).get(name), without what the pages only show
unfoldable pub snapshot_context :
    List MirrorSet → List SnapshotSet → AptlyState → Text → Option Entry
unfolding when
snapshot_context sets rows state name =
    let owner = owner_of sets rows name in
    when (mem name (snapshot_names state)) (record {
      owner = owner;
      blocked = blocked_by (mem name (published_snapshot_names state)) owner;
    })

-- A job to enqueue: its mirror set and its parameters.
pub record Enqueued : Type 0 where
  pub type : JobType
  pub mirror_set_id : Option ℕ
  pub params : Params

abbrev owner_set : Option Owner → Option ℕ
owner_set none = none
owner_set (some o) = some o.mirror_set_id

abbrev pub discarding : Option ℕ → List Text → Option ℕ → Enqueued
discarding set names snapshot_set = record {
  type = discard;
  mirror_set_id = set;
  params = record {
    snapshots = names;
    mirrors = [];
    snapshot_set_id = snapshot_set;
    mirror_set_id = none;
  };
}

abbrev pub removing : Option ℕ → List Text → Enqueued
removing set names = record {
  type = remove;
  mirror_set_id = set;
  params = record { snapshots = []; mirrors = names; snapshot_set_id = none; mirror_set_id = set };
}

discard_unless : Text → Option Owner → Option Blocked → Option Enqueued
discard_unless name owner (some b) = none
discard_unless name owner none = some (discarding (owner_set owner) (name ∷ []) none)

discard_entry : Text → Option Entry → Option Enqueued
unfolding discard_unless
discard_entry name none = none
discard_entry name (some entry) = discard_unless name entry.owner entry.blocked

unfoldable pub discard_submit :
    List MirrorSet → List SnapshotSet → AptlyState → Text → Option Enqueued
unfolding discard_entry
discard_submit sets rows state name = discard_entry name (snapshot_context sets rows state name)

discard_row : ℕ → ℕ → AptlyState → Option SnapshotSet → Option Enqueued
discard_row set_id id state none = none
discard_row set_id id state (some x) =
    let names = sort_texts (values x.snapshots) in
    if not (x.mirror_set_id == set_id)
    then none
    else if any (λ name. mem name (published_snapshot_names state)) names
    then none
    else some (discarding (some set_id) names (some id))

unfoldable pub discard_set_submit : ℕ → ℕ → List SnapshotSet → AptlyState → Option Enqueued
unfolding discard_row
discard_set_submit set_id id rows state = discard_row set_id id state (get_snapshot_set id rows)

-- The names of snapshots that begin with a mirror's name and a dash.
abbrev pub made_from : List Text → Text → Bool
made_from mirrors name = any (λ mirror. starts_with name (mirror ++ codes "-")) mirrors

-- sorted(set(...)), of which the pages that delete use only whether it is empty
unfoldable pub snapshots_of : AptlyState → List Text → List Text
snapshots_of state mirrors = sort_texts (filter (made_from mirrors) (snapshot_names state))

abbrev pub is_nil : List Text → Bool
is_nil [] = true
is_nil (t ∷ ts) = false

-- `_managed_map(sets).get(name)`: the last set that expects a mirror of the name
unfoldable pub managed : List MirrorSet → Text → Option Text
unfolding later_or when
managed [] name = none
managed (set ∷ sets) name =
    later_or (managed sets name) (when (mem name (expected_mirrors set)) set.name)

abbrev pub names_a_set : Option Text → Bool
names_a_set none = false
names_a_set (some name) = truthy name

unfoldable pub mirror_delete : List MirrorSet → AptlyState → Text → Option Enqueued
mirror_delete sets state name =
    if not (mem name (mirror_names state))
      || (names_a_set (managed sets name) || not (is_nil (snapshots_of state (name ∷ []))))
    then none
    else some (removing none (name ∷ []))

-- The branch of set_delete that deletes the mirrors too.
unfoldable pub present_mirrors : AptlyState → MirrorSet → List Text
present_mirrors state set = filter (λ name. mem name (mirror_names state)) (expected_mirrors set)

unfoldable pub set_delete_mirrors : AptlyState → MirrorSet → Option Enqueued
set_delete_mirrors state set =
    if is_nil (snapshots_of state (present_mirrors state set))
    then some (removing (some set.id) (present_mirrors state set))
    else none
