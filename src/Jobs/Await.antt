-- ===== src/Jobs/Await.antt =====
-- JobRunner._await_task and _guard_disk: waiting for an aptly task, with its progress on the step.
-- The loop of the source has no bound; here it takes fuel, and `stuck` says that the fuel ran out.
pub mod Patience
pub mod Frame
use aptly_gui.Prelude.{
  ℕ, zero, suc, ◌*◌, ◌/◌, Bool, true, false, Option, none, some, ◌++◌, if◌then◌else◌,
}
use aptly_gui.Text.{Text, codes, decimal}
use aptly_gui.Exec.{Exec, pure, raise, hang, aptly_error, task_failed, modify, ◌>>=◌, ◌>>◌}
use aptly_gui.Aptly.Models.{Task, TaskState, TaskProgress, finished}
use aptly_gui.Aptly.Client.{Outside}
use aptly_gui.Aptly.Client.Requests.{get_task, task_output, task_progress, storage}
use aptly_gui.Db.Models.{JobStep}
use aptly_gui.Services.Space.{Margin, check, shortfall_mb, Verdict}
use aptly_gui.Jobs.State.{World, Local, ask, look, set_step}

abbrev pub mib : ℕ
mib = 1024 * 1024

abbrev pub has_failed : TaskState → Bool
has_failed TaskState.failed = true
has_failed _ = false

abbrev pub with_progress : TaskProgress → JobStep → JobStep
with_progress p s = record s {
  total_bytes = some p.total_bytes;
  remaining_bytes = some p.remaining_bytes;
  total_packages = some p.total_packages;
  remaining_packages = some p.remaining_packages;
}

-- `if step.total_bytes is not None`
abbrev pub nothing_left : JobStep → JobStep
nothing_left s = elim s.total_bytes [
  | none ↦ s
  | some total ↦ record s { remaining_bytes = some 0; remaining_packages = some 0 }
]

module _ (o : Outside) (margin : Margin) where
  unfoldable pub pause : Exec (World o.State) Unit
  unfolding modify
  pause = modify (λ s. record s { outside = o.sleep s.outside })

  refuse_if_short : Verdict → Exec (World o.State) Unit
  refuse_if_short verdict =
      if verdict.ok
      then pure tt
      else raise (
          aptly_error
            (codes "stopping the sync: "
              ++ (decimal (shortfall_mb verdict)
                  ++ codes " MiB short of the configured safety margin"))
            none)

  unfoldable pub guard_disk : ℕ → Exec (World o.State) Unit
  unfolding refuse_if_short
  guard_disk remaining_bytes = do
    found ← ask (storage o)
    refuse_if_short (check found margin (some (remaining_bytes / mib)))

  unfoldable pub record_progress : ℕ → Option TaskProgress → Exec (World o.State) Unit
  record_progress step none = pure tt
  record_progress step (some p) = do set_step o step (with_progress p); guard_disk p.remaining_bytes

  unfoldable pub await_loop : ℕ → ℕ → ℕ → Exec (World o.State) Task
  await_loop zero step task_id = hang
  await_loop (suc fuel) step task_id = do
    task ← ask (get_task o task_id)
    let again = (do
      progress ← ask (task_progress o task_id)
      record_progress step progress
      pause
      await_loop fuel step task_id)
    if finished task.state then pure task else again

  unfoldable pub output_or_failure : ℕ → Task → Text → Exec (World o.State) Text
  output_or_failure step task output =
      if has_failed task.state
      then raise (task_failed task.name output)
      else do set_step o step nothing_left; pure output

  unfoldable pub await_task : ℕ → ℕ → ℕ → Exec (World o.State) Text
  unfolding output_or_failure
  await_task fuel step task_id = do
    task ← await_loop fuel step task_id
    output ← ask (task_output o task_id)
    output_or_failure step task output
