-- ===== src/Jobs/Await/Frame.antt =====
-- The wait for a task stays within the bookkeeping of its step.
use aptly_gui.Prelude.{ℕ, zero, suc, refl, Option, none, some, arith}
use aptly_gui.Exec.{pure, raise, modify}
use aptly_gui.Aptly.Models.{TaskProgress, finished}
use aptly_gui.Aptly.Client.{Outside}
use aptly_gui.Services.Space.{Margin}
use aptly_gui.Jobs.State.{Local, ask, set_step}
use aptly_gui.Jobs.Steps.Frame.{
  Within, Within-pure, Within-raise, Within-hang, Within-ask, Within-if, Within-bind, Confined,
  Within-set_step,
}
use aptly_gui.Jobs.Await.{
  guard_disk, record_progress, pause, await_loop, await_task, output_or_failure, with_progress,
  nothing_left,
}

module _ {job : ℕ} {R : Local → Local → Type 0} (confined : Confined job R) (o : Outside)
    (margin : Margin) where
  Within-pause : Within R (pause o margin)
  unfolding pause modify
  Within-pause = record { at = λ s. confined.steady.same s.own }

  Within-guard_disk : (remaining : ℕ) → Within R (guard_disk o margin remaining)
  unfolding guard_disk
  Within-guard_disk remaining =
      Within-bind confined.steady (ask _) _ (Within-ask confined.steady _) λ found.
        Within-if _ (pure tt) (raise _) (Within-pure confined.steady tt)
          (Within-raise confined.steady _)

  Within-record_progress :
      (step : ℕ) (progress : Option TaskProgress)
      → Within R (record_progress o margin step progress)
  unfolding record_progress
  Within-record_progress step none = Within-pure confined.steady tt
  Within-record_progress step (some p) =
      Within-bind confined.steady (set_step o step _) _
        (Within-set_step confined o step (with_progress p)
          (record { id = λ s. refl; job_id = λ s. refl; position = λ s. refl }))
        λ _. Within-guard_disk p.remaining_bytes

  Within-await_loop : (fuel step task : ℕ) → Within R (await_loop o margin fuel step task)
  unfolding await_loop
  Within-await_loop zero step task = Within-hang confined.steady
  Within-await_loop (suc fuel) step task =
      Within-bind confined.steady (ask _) _ (Within-ask confined.steady _) λ found.
        Within-if (finished found.state) (pure found) _ (Within-pure confined.steady found) (
          Within-bind confined.steady (ask _) _ (Within-ask confined.steady _) λ progress.
            Within-bind confined.steady (record_progress o margin step progress) _
              (Within-record_progress step progress)
              λ _.
                Within-bind confined.steady (pause o margin) _ Within-pause
                  λ _. Within-await_loop fuel step task)

  pub Within-await_task : (fuel step task : ℕ) → Within R (await_task o margin fuel step task)
  unfolding await_task output_or_failure
  Within-await_task fuel step task =
      Within-bind confined.steady (await_loop o margin fuel step task) _
        (Within-await_loop fuel step task)
        λ found. Within-bind confined.steady (ask _) _ (Within-ask confined.steady _) λ output.
          Within-if _ (raise _) _ (Within-raise confined.steady _) (
            Within-bind confined.steady (set_step o step nothing_left) _
              (Within-set_step confined o step nothing_left (record {
                id = λ s. ground arith;
                job_id = λ s. ground arith;
                position = λ s. ground arith;
              }))
              λ _. Within-pure confined.steady output)
