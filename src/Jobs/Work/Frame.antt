-- ===== src/Jobs/Work/Frame.antt =====
-- The steps that the jobs share, and the loops of a creation, a discard and a removal, stay within
-- the bookkeeping of the job's steps.
use aptly_gui.Prelude.{ℕ, refl, List, [], ◌∷◌}
use aptly_gui.Text.{Text, mem}
use aptly_gui.Exec.{Exec, raise, is_aptly_error, catch}
use aptly_gui.Aptly.Models.{Task}
use aptly_gui.Aptly.Client.{Outside}
use aptly_gui.Db.Models.{Job, MirrorSet}
use aptly_gui.Services.Space.{Margin}
use aptly_gui.Jobs.Plan.{spec_for}
use aptly_gui.Jobs.State.{Local, ask, add_step, finish_step, set_step}
use aptly_gui.Jobs.Steps.Frame.{
  Within, Within-pure, Within-raise, Within-ask, Within-if, Within-bind, Within-catch, Confined,
  Within-set_step, Within-add_step, Within-finish_step,
}
use aptly_gui.Jobs.Await.{await_task}
use aptly_gui.Jobs.Await.Frame.{Within-await_task}
use aptly_gui.Jobs.Work.{
  follow_task, give_up, mark_failed, reclaim, create_one, create_each, create_job, discard_each,
  remove_each,
}

module _ (o : Outside) (margin : Margin) (fuel : ℕ) {R : Local → Local → Type 0} where
  module _ {job : ℕ} (confined : Confined job R) where
    pub Within-follow_task :
        (step : ℕ) (task : Task) → Within R (follow_task o margin fuel step task)
    unfolding follow_task
    Within-follow_task step task =
        Within-bind confined.steady (set_step o step _) _
          (Within-set_step confined o step _
            (record { id = λ s. refl; job_id = λ s. refl; position = λ s. refl }))
          λ _.
            Within-bind confined.steady (await_task o margin fuel step task.id) _
              (Within-await_task confined o margin fuel step task.id)
              λ output. Within-finish_step confined o step _ _

    pub Within-give_up :
        (step : ℕ) (detail message : Text) → Within R (give_up o margin fuel step detail message)
    unfolding give_up
    Within-give_up step detail message =
        Within-bind confined.steady (finish_step o step _ _) _
          (Within-finish_step confined o step _ _) λ _. Within-raise confined.steady _

    Within-refusable :
        {A : Type 0} (m : Exec o.State A) (step : ℕ)
        → Within R (catch (ask m) (mark_failed o margin fuel step))
    unfolding mark_failed
    Within-refusable m step =
        Within-catch confined.steady (ask m) _ (Within-ask confined.steady m) λ e.
          Within-if (is_aptly_error e) _ (raise e)
            (Within-bind confined.steady (finish_step o step _ _) _
              (Within-finish_step confined o step _ _) λ _. Within-raise confined.steady e)
            (Within-raise confined.steady e)

  module _ (row : Job) (confined : Confined row.id R) where
    pub Within-reclaim : Within R (reclaim o margin fuel row)
    unfolding reclaim
    Within-reclaim =
        Within-bind confined.steady (add_step o row.id _) _ (Within-add_step confined o _) λ step.
          Within-bind confined.steady (ask _) _ (Within-ask confined.steady _)
            λ task. Within-follow_task confined step task

    Within-create_each :
        (timeout : ℕ) (set : MirrorSet) (existing : List Text) (pairs : List (Text × Text))
        → Within R (create_each o margin fuel timeout row set existing pairs)
    unfolding create_each create_one
    Within-create_each timeout set existing [] = Within-pure confined.steady tt
    Within-create_each timeout set existing ((suite, c) ∷ pairs) =
        Within-bind confined.steady (add_step o row.id _) _ (Within-add_step confined o _) λ step.
          Within-bind confined.steady (create_one o margin fuel timeout step _ existing) _
            (Within-if (mem (spec_for set suite c).name existing) _ _
              (Within-finish_step confined o step _ _)
              (Within-bind confined.steady (ask _) _ (Within-ask confined.steady _)
                λ _. Within-finish_step confined o step _ _))
            λ _. Within-create_each timeout set existing pairs

    pub Within-create_job :
        (timeout : ℕ) (set : MirrorSet) → Within R (create_job o margin fuel timeout row set)
    unfolding create_job
    Within-create_job timeout set =
        Within-bind confined.steady (ask _) _ (Within-ask confined.steady _)
          λ mirrors. Within-create_each timeout set _ _

    pub Within-discard_each : (names : List Text) → Within R (discard_each o margin fuel row names)
    unfolding discard_each
    Within-discard_each [] = Within-pure confined.steady tt
    Within-discard_each (name ∷ names) =
        Within-bind confined.steady (add_step o row.id _) _ (Within-add_step confined o _) λ step.
          Within-bind confined.steady (catch _ _) _ (Within-refusable confined _ step) λ _.
            Within-bind confined.steady (finish_step o step _ _) _
              (Within-finish_step confined o step _ _) λ _. Within-discard_each names

    pub Within-remove_each : (names : List Text) → Within R (remove_each o margin fuel row names)
    unfolding remove_each
    Within-remove_each [] = Within-pure confined.steady tt
    Within-remove_each (name ∷ names) =
        Within-bind confined.steady (add_step o row.id _) _ (Within-add_step confined o _) λ step.
          Within-bind confined.steady (catch _ _) _ (Within-refusable confined _ step) λ task.
            Within-bind confined.steady _ _ (Within-follow_task confined step task)
              λ _. Within-remove_each names
