-- ===== src/Tests/Sample.antt =====
-- A small aptly and a small database.
use aptly_gui.Prelude.{
  ℕ, ◌≡◌, refl, sym, ap, ◌∙◌, true, false, none, some, List, [], ◌∷◌, if◌then◌else◌, arith,
}
use aptly_gui.Text.{Text, codes, starts_with, same}
use aptly_gui.Json.{Json, num, text, arr, obj, items, fields, get}
use aptly_gui.Exec.{returned, ◌>>=◌, lift}
use aptly_gui.Aptly.Models.{Task, TaskState, finished, parse_task, task_state}
use aptly_gui.Aptly.Fields.{index, as_num, as_text}
use aptly_gui.Aptly.Client.{Outside, Method, get_method, Reply, response, Moment, read_reply, send}
use aptly_gui.Aptly.Client.Requests.{get_task}
use aptly_gui.Db.Models.{Job, JobState, JobType, MirrorSet, SnapshotSet, complete, Params, Tables}
use aptly_gui.Services.Naming.{set_suite_component}
use aptly_gui.Services.Space.{Margin}
use aptly_gui.Jobs.State.{World, Local}
use aptly_gui.Jobs.Await.Patience.{Patience}

abbrev pub noon : Moment
noon = record { epoch = 1700000000; year = 2026; month = 1; day = 2; hour = 12; minute = 0 }

abbrev pub finished_task : Json
finished_task =
    obj (
      fields ((codes "ID", num 3) ∷ (codes "Name", text (codes "t")) ∷ (codes "State", num 2) ∷ []))

-- aptly publishes one distribution, of one snapshot.
abbrev pub publications : Json
publications = arr (
    items (
      obj (
        fields (
          (codes "Prefix", text (codes "debian"))
          ∷ (codes "Distribution", text (codes "bookworm"))
          ∷ (
            codes "Sources",
            arr (
                items (
                  obj (
                    fields (
                      (codes "Component", text (codes "main"))
                      ∷ (codes "Name", text (codes "snap"))
                      ∷ []))
                  ∷ [])),
          )
          ∷ []))
      ∷ []))

abbrev pub replied : Json → Reply
replied body = response (record { status_code = 200; content = codes "{}"; decoded = some body })

-- The one mirror, and a disk with room.
abbrev pub mirror_list : Json
mirror_list = arr (
    items (
      obj (
        fields (
          (codes "Name", text (codes "deb-bookworm-main"))
          ∷ (codes "ArchiveRoot", text (codes "http://deb"))
          ∷ (codes "Distribution", text (codes "bookworm"))
          ∷ []))
      ∷ []))

abbrev pub disk_room : Json
disk_room = obj (
    fields
      ((codes "Total", num 10000) ∷ (codes "Free", num 9000) ∷ (codes "PercentFull", num 10) ∷ []))

abbrev pub body_for : Method → Text → Json
body_for get_method path =
    if starts_with path (codes "/api/publish")
    then publications
    else if starts_with path (codes "/api/mirrors")
    then mirror_list
    else if starts_with path (codes "/api/storage")
    then disk_room
    else finished_task
body_for method path = finished_task

-- An aptly that finishes every task at once.
abbrev pub prompt_aptly : Outside
prompt_aptly = record {
  State = Unit;
  respond = λ r w. (replied (body_for r.method r.path), tt);
  fetch = λ url w. (response (record { status_code = 404; content = []; decoded = none }), tt);
  now = λ w. noon;
  sleep = λ w. tt;
  show = λ v. [];
}

abbrev the_task : Task
the_task = record { id = 3; name = codes "t"; state = TaskState.succeeded }

polled : (id : ℕ) (w : Unit) → (get_task prompt_aptly id w).0 ≡ returned the_task
unfolding get_task send read_reply lift parse_task ◌>>=◌ index as_num as_text get starts_with
    task_state fields same
polled id w = refl

over : (task : Task) → returned the_task ≡ returned task → finished task.state ≡ false → ⊥
over task e h =
    let same_task : the_task ≡ task = cc in
    let k : true ≡ false = ap (λ (t : Task). finished t.state) same_task ∙ h in cc

pub prompt-Patience : Patience prompt_aptly 1
prompt-Patience = record {
  left = λ id w. 0;
  bounded = λ id w. ground arith;
  falls = λ id w task rs found open_. absurd (over task (sym (polled id w) ∙ found) open_);
}

-- One set of one mirror, its snapshot set, and a job of the set.
abbrev pub sample_set : MirrorSet
sample_set = record {
  id = 1;
  name = codes "deb";
  archive_url = codes "http://deb";
  suites = codes "bookworm" ∷ [];
  components = codes "main" ∷ [];
  architectures = codes "amd64" ∷ [];
  keyrings = [];
  filter = none;
  publish_prefix = codes "debian";
  publish_endpoint = none;
  public_url = none;
  mirror_pattern = set_suite_component;
  signing_key = none;
  adopted = false;
}

abbrev pub sample_snapshots : SnapshotSet
sample_snapshots = record {
  id = 5;
  mirror_set_id = 1;
  taken_at = noon;
  snapshots = (codes "deb-bookworm-main", codes "snap") ∷ [];
  state = complete;
  job_id = none;
}

abbrev pub sample_params : Params
sample_params = record {
  snapshots = [];
  mirrors = [];
  snapshot_set_id = some 5;
  mirror_set_id = some 1;
}

abbrev pub sample_job : JobType → Job
sample_job type = record {
  id = 7;
  type = type;
  mirror_set_id = some 1;
  state = JobState.queued;
  author = codes "ann";
  started_at = none;
  finished_at = none;
  error = none;
  params = sample_params;
  expected_steps = none;
}

abbrev pub sample_tables : JobType → List MirrorSet → Tables
sample_tables type sets = record {
  jobs = sample_job type ∷ [];
  steps = [];
  mirror_sets = sets;
  snapshot_sets = sample_snapshots ∷ [];
  users = [];
  settings = [];
  audit = [];
}

abbrev pub sample_local : JobType → List MirrorSet → Local
sample_local type sets = record {
  live = sample_tables type sets;
  durable = sample_tables type sets;
  next_position = 0;
  current_job_id = none;
  queue = 7 ∷ [];
}

abbrev pub sample_margin : Margin
sample_margin = record { gigabytes = 1; percent = 10 }

abbrev pub world : JobType → List MirrorSet → World Unit
world type sets = record { outside = tt; own = sample_local type sets }
