-- ===== src/Db/Models.antt =====
-- src/aptly_gui/db/models.py: the rows, and the properties computed from one row.
-- `created_at`, `updated_at` and `revision`, which the program writes by default and never reads
-- for a decision, are left out; so are the two indexes of users by id and name.
use aptly_gui.Prelude.{
  ℕ, Bool, true, false, ◌&&◌, Option, none, some, List, [], ◌∷◌, ◌++◌, leb, if◌then◌else◌,
}
use aptly_gui.Text.{Text, codes, truthy}
use aptly_gui.Dict.{Dict, lookup}
use aptly_gui.Aptly.Client.{Moment}
use aptly_gui.Services.Naming.{Pattern}
use aptly_gui.Services.Naming

pub data JobState : Type 0 where
  queued running succeeded failed interrupted : JobState

pub data JobType : Type 0 where
  create update switch discard remove cleanup : JobType

pub data StepState : Type 0 where
  pending running succeeded failed skipped : StepState

pub data SnapshotSetState : Type 0 where
  complete incomplete : SnapshotSetState

pub data UserRole : Type 0 where
  viewer operator admin : UserRole

abbrev pub is_running : StepState → Bool
is_running StepState.running = true
is_running _ = false

-- JobState.finished
abbrev pub finished : JobState → Bool
finished JobState.succeeded = true
finished JobState.failed = true
finished _ = false

abbrev pub is_complete : SnapshotSetState → Bool
is_complete complete = true
is_complete incomplete = false

abbrev pub rank : UserRole → ℕ
rank viewer = 0
rank operator = 1
rank admin = 2

-- UserRole.can
unfoldable pub role_can : UserRole → UserRole → Bool
role_can role required = leb (rank required) (rank role)

pub data Source : Type 0 where
  local oidc : Source

pub record User : Type 0 where
  pub id : ℕ
  pub username : Text
  pub password_hash : Option Text
  pub role : UserRole
  pub active : Bool
  pub source : Source
  pub last_login : Option Moment

-- User.is_local
abbrev pub is_local : User → Bool
is_local user = elim user.source [ local ↦ true | oidc ↦ false ]

-- User.can
unfoldable pub user_can : User → UserRole → Bool
unfolding role_can
user_can user required = user.active && role_can user.role required

pub record AppSetting : Type 0 where
  pub key : Text
  pub value : Text

pub record MirrorSet : Type 0 where
  pub id : ℕ
  pub name : Text
  pub archive_url : Text
  pub suites : List Text
  pub components : List Text
  pub architectures : List Text
  pub keyrings : List Text
  pub filter : Option Text
  pub publish_prefix : Text
  pub publish_endpoint : Option Text
  pub public_url : Option Text
  pub mirror_pattern : Pattern
  pub signing_key : Option Text
  pub adopted : Bool

-- MirrorSet.mirror_name
unfoldable pub mirror_name : MirrorSet → Text → Text → Text
mirror_name s suite component = Naming.mirror_name s.mirror_pattern s.name suite component

target_at : Text → Option Text → Text
target_at prefix none = prefix
target_at prefix (some endpoint) =
    if truthy endpoint then codes "filesystem:" ++ (endpoint ++ (codes ":" ++ prefix)) else prefix

-- MirrorSet.publish_target
unfoldable pub publish_target : MirrorSet → Text
unfolding target_at
publish_target s = target_at s.publish_prefix s.publish_endpoint

-- The two loops over suites and components, in the order of the source.
unfoldable pub names_of_suite : MirrorSet → Text → List Text → List Text
names_of_suite s suite [] = []
names_of_suite s suite (c ∷ components) = mirror_name s suite c ∷ names_of_suite s suite components

unfoldable pub names_of_suites : MirrorSet → List Text → List Text
unfolding names_of_suite
names_of_suites s [] = []
names_of_suites s (suite ∷ suites) = names_of_suite s suite s.components ++ names_of_suites s suites

-- MirrorSet.expected_mirrors
unfoldable pub expected_mirrors : MirrorSet → List Text
unfolding names_of_suites
expected_mirrors s = names_of_suites s s.suites

pub record SnapshotSet : Type 0 where
  pub id : ℕ
  pub mirror_set_id : ℕ
  pub taken_at : Moment
  pub snapshots : Dict Text
  pub state : SnapshotSetState
  pub job_id : Option ℕ

-- SnapshotSet.snapshot_for, which builds the name by the default pattern
unfoldable pub snapshot_for : SnapshotSet → Text → Text → Text → Option Text
snapshot_for x suite component set_name =
    lookup (set_name ++ (codes "-" ++ (suite ++ (codes "-" ++ component)))) x.snapshots

-- The keys that the program puts into a job's `params`.
pub record Params : Type 0 where
  pub snapshots : List Text
  pub mirrors : List Text
  pub snapshot_set_id : Option ℕ
  pub mirror_set_id : Option ℕ

pub record Job : Type 0 where
  pub id : ℕ
  pub type : JobType
  pub mirror_set_id : Option ℕ
  pub state : JobState
  pub author : Text
  pub started_at : Option Moment
  pub finished_at : Option Moment
  pub error : Option Text
  pub params : Params
  pub expected_steps : Option ℕ

pub record JobStep : Type 0 where
  pub id : ℕ
  pub job_id : ℕ
  pub position : ℕ
  pub description : Text
  pub state : StepState
  pub aptly_task_id : Option ℕ
  pub output_tail : Option Text
  pub started_at : Option Moment
  pub finished_at : Option Moment
  pub total_bytes : Option ℕ
  pub remaining_bytes : Option ℕ
  pub total_packages : Option ℕ
  pub remaining_packages : Option ℕ

pub record AuditEntry : Type 0 where
  pub actor : Text
  pub action : Text
  pub target : Text
  pub result : Text
  pub detail : Option Text

-- The database. A row's place in its list is the order of insertion.
pub record Tables : Type 0 where
  pub jobs : List Job
  pub steps : List JobStep
  pub mirror_sets : List MirrorSet
  pub snapshot_sets : List SnapshotSet
  pub users : List User
  pub settings : List AppSetting
  pub audit : List AuditEntry
