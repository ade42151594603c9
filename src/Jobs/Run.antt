-- ===== src/Jobs/Run.antt =====
-- The runner's life: recovery at start, the queue, one job from its queue entry to its audit entry
-- (JobRunner._run_job).
-- One job runs at a time. What web handlers write while a job runs, and the cancellation of a job by
-- `stop`, are not modelled.
pub mod Recovery
pub mod Ending
pub mod Rules
pub mod Honest
pub mod Logged
pub mod Reach
pub mod Alone
pub mod Confining
pub mod Announced
pub mod Frame
use aptly_gui.Prelude.{
  ℕ, ◌+◌, ◌*◌, Bool, true, false, ◌||◌, Option, none, some, List, [], ◌∷◌, ◌++◌, map, filter,
  length, ◌==◌, if◌then◌else◌,
}
use aptly_gui.Text.{Text, codes, mem}
use aptly_gui.Exec.{Exec, Exc, describe, pure, raise, catch, value_error, ◌>>=◌, ◌>>◌}
use aptly_gui.Dict.{Dict}
use aptly_gui.Aptly.Models.{Snapshot}
use aptly_gui.Aptly.Client.{Outside, Moment}
use aptly_gui.Aptly.Client.Requests.{list_snapshots}
use aptly_gui.Db.Models.{
  Job, JobState, queued, running, succeeded, failed, interrupted, JobType, create, update, switch,
  discard, remove, cleanup, MirrorSet, SnapshotSet, SnapshotSetState, complete, incomplete, Params,
}
use aptly_gui.Services.Space.{Margin}
use aptly_gui.Jobs.Plan.{expected_steps, discard_steps}
use aptly_gui.Jobs.State.{
  World, Local, ask, look, change, clock, commit, committed, with_live, set_job, get_job,
  get_mirror_set, fail_running_steps, add_audit, set_snapshot_set, next_job_id,
}
use aptly_gui.Jobs.Work.{create_job, discard_job, remove_job}
use aptly_gui.Jobs.Update.{update_job}
use aptly_gui.Jobs.Switch.{switch_job}

abbrev pub type_text : JobType → Text
type_text create = codes "create"
type_text update = codes "update"
type_text switch = codes "switch"
type_text discard = codes "discard"
type_text remove = codes "remove"
type_text cleanup = codes "cleanup"

abbrev pub state_text : JobState → Text
state_text JobState.queued = codes "queued"
state_text JobState.running = codes "running"
state_text JobState.succeeded = codes "succeeded"
state_text JobState.failed = codes "failed"
state_text interrupted = codes "interrupted"

-- `self._recover_orphans`: `Job.state.in_([RUNNING, QUEUED])`
abbrev pub is_stale : JobState → Bool
is_stale JobState.running = true
is_stale JobState.queued = true
is_stale _ = false

unfoldable pub interrupt : Moment → Job → Job
interrupt now j =
    if is_stale j.state
    then record j {
      state = interrupted;
      finished_at = some now;
      error = some (codes "Interrupted by a restart of aptly-gui");
    }
    else j

-- `type not in (JobType.DISCARD, JobType.REMOVE)`
abbrev pub needs_set : JobType → Bool
needs_set discard = false
needs_set remove = false
needs_set _ = true

abbrev is_missing : Option MirrorSet → Bool
is_missing none = true
is_missing (some set) = false

-- The number that _run_job stores before it starts.
unfoldable pub planned_steps : Job → Option MirrorSet → ℕ
planned_steps job set = elim job.type [
  | discard ↦ discard_steps (length job.params.snapshots)
  | remove ↦ discard_steps (length job.params.mirrors)
  | _ ↦ expected_steps job.type set
]

abbrev set_name : Option MirrorSet → Text
set_name none = codes "snapshots"
set_name (some set) = set.name

-- session.get(MirrorSet, job.mirror_set_id), where there is an id
unfoldable pub set_of : Option ℕ → Local → Option MirrorSet
set_of none l = none
set_of (some id) l = get_mirror_set id l.live.mirror_sets

-- The row that `enqueue` adds.
abbrev pub new_job : ℕ → JobType → Option ℕ → Text → Params → Job
new_job id type mirror_set_id author params = record {
  id = id;
  type = type;
  mirror_set_id = mirror_set_id;
  state = JobState.queued;
  author = author;
  started_at = none;
  finished_at = none;
  error = none;
  params = params;
  expected_steps = none;
}

module _ (o : Outside) (margin : Margin) (timeout fuel : ℕ) where
  unfoldable pub recover_orphans : Exec (World o.State) Unit
  recover_orphans = do
    now ← clock o
    change (with_live (λ t. record t { jobs = map (interrupt now) t.jobs }))
    commit o

  -- The row, and then its id into the queue; returns the id.
  unfoldable pub enqueue : JobType → Option ℕ → Text → Params → Exec (World o.State) ℕ
  enqueue type mirror_set_id author params = do
    id ← look (λ l. next_job_id l.live.jobs)
    change (
        with_live (λ t. record t {
          jobs = t.jobs ++ new_job (next_job_id t.jobs) type mirror_set_id author params ∷ [];
        }))
    commit o
    change (λ l. record l { queue = l.queue ++ id ∷ [] })
    pure id

  work_on_set : JobType → Job → MirrorSet → Exec (World o.State) Unit
  work_on_set create job set = create_job o margin fuel timeout job set
  work_on_set update job set = update_job o margin fuel job set
  work_on_set switch job set = switch_job o margin fuel job set
  work_on_set type job set = raise (value_error (codes "unknown job type " ++ type_text type))

  work_without_set : JobType → Job → Option MirrorSet → Exec (World o.State) Unit
  unfolding work_on_set
  work_without_set discard job set = discard_job o margin fuel job
  work_without_set remove job set = remove_job o margin fuel job
  work_without_set type job none = raise (value_error (codes "job has no mirror set"))
  work_without_set type job (some set) = work_on_set type job set

  -- The chain of tests in the `try`.
  unfoldable pub work : Job → Option MirrorSet → Exec (World o.State) Unit
  unfolding work_without_set
  work job set = work_without_set job.type job set

  unfoldable pub begin : Job → Option MirrorSet → Exec (World o.State) Unit
  begin job set = do
    now ← clock o
    set_job o job.id (λ j. record j {
      state = JobState.running;
      started_at = some now;
      expected_steps = some (planned_steps job set);
    })
    commit o

  -- except Exception as exc
  unfoldable pub fail_job : Job → Exc → Exec (World o.State) Unit
  fail_job job e = do
    set_job o job.id (λ j. record j { state = JobState.failed; error = some (describe e) })
    fail_running_steps o job.id (describe e)

  unfoldable pub succeed_job : Job → Exec (World o.State) Unit
  succeed_job job = set_job o job.id (λ j. record j { state = JobState.succeeded })

  audit_row : Job → Option MirrorSet → Option Job → Exec (World o.State) Unit
  audit_row job set none = pure tt
  audit_row job set (some row) = add_audit o (record {
    actor = job.author;
    action = codes "job." ++ type_text job.type;
    target = set_name set;
    result = state_text row.state;
    detail = row.error;
  })

  -- finally
  unfoldable pub close_job : Job → Option MirrorSet → Exec (World o.State) Unit
  unfolding audit_row
  close_job job set = do
    now ← clock o
    set_job o job.id (λ j. record j { finished_at = some now })
    row ← look (λ l. get_job job.id l.live.jobs)
    audit_row job set row
    commit o

  unfoldable pub execute : Job → Option MirrorSet → Exec (World o.State) Unit
  execute job set = do
    begin job set
    catch (do work job set; succeed_job job) (fail_job job)
    close_job job set

  execute_unless_gone : Job → Option MirrorSet → Exec (World o.State) Unit
  execute_unless_gone job none = if needs_set job.type then pure tt else execute job none
  execute_unless_gone job (some set) = execute job (some set)

  run_row : Option Job → Exec (World o.State) Unit
  unfolding execute_unless_gone set_of
  run_row none = pure tt
  run_row (some job) = do set ← look (set_of job.mirror_set_id); execute_unless_gone job set

  -- _run_job
  unfoldable pub run_job : ℕ → Exec (World o.State) Unit
  unfolding run_row
  run_job job_id = do
    change (λ l. record l { current_job_id = some job_id; next_position = 0 })
    row ← look (λ l. get_job job_id l.live.jobs)
    run_row row

  -- One round of _run_forever on a queue that is not empty: an exception is logged and dropped.
  unfoldable pub run_next : ℕ → List ℕ → Exec (World o.State) Unit
  run_next job_id rest = do
    change (λ l. record l { queue = rest })
    catch (run_job job_id) (λ e. pure tt)
    change (λ l. record l { current_job_id = none })
