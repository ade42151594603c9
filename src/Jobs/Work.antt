-- ===== src/Jobs/Work.antt =====
-- The work of the jobs that create, discard and remove: JobRunner._create, _discard and _remove, and
-- the steps that all the jobs share. Each returns when the source's method returns, and raises where
-- it raises.
pub mod Rules
pub mod Jobs
pub mod Frame
use aptly_gui.Prelude.{
  ℕ, false, Option, none, some, List, [], ◌∷◌, ◌++◌, filter, ◌==◌, not, if◌then◌else◌,
}
use aptly_gui.Text.{Text, codes, mem}
use aptly_gui.Exec.{
  Exec, Exc, pure, raise, aptly_error, exc_text, is_aptly_error, catch, ◌>>=◌, ◌>>◌,
}
use aptly_gui.Aptly.Models.{Task, MirrorSpec}
use aptly_gui.Aptly.Client.{Outside}
use aptly_gui.Aptly.Client.Requests.{
  list_mirrors, create_mirror, delete_mirror, delete_snapshot, db_cleanup,
}
use aptly_gui.Db.Models.{Job, failed, succeeded, skipped, MirrorSet, SnapshotSet, Tables}
use aptly_gui.Services.Space.{Margin}
use aptly_gui.Jobs.Plan.{spec_for}
use aptly_gui.Jobs.State.{
  World, ask, look, change, commit, with_live, add_step, finish_step, set_step, set_job,
  get_mirror_set, get_snapshot_set,
}
use aptly_gui.Jobs.Await.{await_task}
use aptly_gui.Jobs.Checks.{names_of, job_pairs}

-- Rows of the two tables that a job may delete from; a set's snapshot sets go with it.
unfoldable pub without_snapshot_set : ℕ → Tables → Tables
without_snapshot_set id t = record t {
  snapshot_sets = filter (λ x. not (x.id == id)) t.snapshot_sets;
}

unfoldable pub without_mirror_set : ℕ → Tables → Tables
without_mirror_set id t = record t {
  mirror_sets = filter (λ m. not (m.id == id)) t.mirror_sets;
  snapshot_sets = filter (λ x. not (x.mirror_set_id == id)) t.snapshot_sets;
}

module _ (o : Outside) (margin : Margin) (fuel : ℕ) where
  -- step.aptly_task_id = task.id; then the wait for the task, and the step's end
  unfoldable pub follow_task : ℕ → Task → Exec (World o.State) Unit
  follow_task step task = do
    set_step o step (λ s. record s { aptly_task_id = some task.id })
    output ← await_task o margin fuel step task.id
    finish_step o step succeeded (some output)

  -- finish_step(FAILED, detail); raise AptlyError(message)
  unfoldable pub give_up : ℕ → Text → Text → Exec (World o.State) Unit
  give_up step detail message = do
    finish_step o step failed (some detail)
    raise (aptly_error message none)

  -- except AptlyError as exc: finish_step(FAILED, str(exc)); raise
  unfoldable pub mark_failed : {A : Type 0} → ℕ → Exc → Exec (World o.State) A
  mark_failed step e =
      if is_aptly_error e
      then (do finish_step o step failed (some (exc_text e)); raise e)
      else raise e

  -- The step that ends _discard and _remove.
  unfoldable pub reclaim : Job → Exec (World o.State) Unit
  reclaim job = do
    step ← add_step o job.id (codes "Reclaim disk space")
    task ← ask (db_cleanup o)
    follow_task step task

  -- _create
  unfoldable pub create_one : ℕ → ℕ → MirrorSpec → List Text → Exec (World o.State) Unit
  create_one timeout step spec existing =
      if mem spec.name existing
      then finish_step o step skipped (some (codes "already exists in aptly"))
      else do ask (create_mirror o timeout spec); finish_step o step succeeded none

  unfoldable pub create_each :
      ℕ → Job → MirrorSet → List Text → List (Text × Text) → Exec (World o.State) Unit
  create_each timeout job set existing [] = pure tt
  create_each timeout job set existing ((suite, c) ∷ pairs) = do
    step ← add_step o job.id (codes "Create " ++ (spec_for set suite c).name)
    create_one timeout step (spec_for set suite c) existing
    create_each timeout job set existing pairs

  unfoldable pub create_job : ℕ → Job → MirrorSet → Exec (World o.State) Unit
  create_job timeout job set = do
    mirrors ← ask (list_mirrors o)
    create_each timeout job set (names_of mirrors) (job_pairs set)

  -- _discard
  unfoldable pub discard_each : Job → List Text → Exec (World o.State) Unit
  discard_each job [] = pure tt
  discard_each job (name ∷ names) = do
    step ← add_step o job.id (codes "Delete " ++ name)
    catch (ask (delete_snapshot o name false)) (mark_failed step)
    finish_step o step succeeded none
    discard_each job names

  unfoldable pub drop_found_snapshots : ℕ → Option SnapshotSet → Exec (World o.State) Unit
  drop_found_snapshots id none = pure tt
  drop_found_snapshots id (some x) = do change (with_live (without_snapshot_set id)); commit o

  unfoldable pub drop_snapshot_set : Option ℕ → Exec (World o.State) Unit
  drop_snapshot_set none = pure tt
  drop_snapshot_set (some id) = do
    found ← look (λ l. get_snapshot_set id l.live.snapshot_sets)
    drop_found_snapshots id found

  unfoldable pub discard_job : Job → Exec (World o.State) Unit
  discard_job job = do
    discard_each job job.params.snapshots
    reclaim job
    drop_snapshot_set job.params.snapshot_set_id

  -- _remove
  unfoldable pub remove_each : Job → List Text → Exec (World o.State) Unit
  remove_each job [] = pure tt
  remove_each job (name ∷ names) = do
    step ← add_step o job.id (codes "Delete mirror " ++ name)
    task ← catch (ask (delete_mirror o name false)) (mark_failed step)
    follow_task step task
    remove_each job names

  unfoldable pub drop_found_set : Job → ℕ → Option MirrorSet → Exec (World o.State) Unit
  drop_found_set job id none = pure tt
  drop_found_set job id (some m) = do
    set_job o job.id (λ j. record j { mirror_set_id = none })
    change (with_live (without_mirror_set id))
    commit o

  unfoldable pub drop_mirror_set : Job → Option ℕ → Exec (World o.State) Unit
  drop_mirror_set job none = pure tt
  drop_mirror_set job (some id) = do
    found ← look (λ l. get_mirror_set id l.live.mirror_sets)
    drop_found_set job id found

  unfoldable pub remove_job : Job → Exec (World o.State) Unit
  remove_job job = do
    remove_each job job.params.mirrors
    reclaim job
    drop_mirror_set job job.params.mirror_set_id
