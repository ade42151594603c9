-- ===== src/Jobs/Work/Rules.antt =====
-- The steps that the jobs share: following a task to its end, giving up, marking a refusal.
use aptly_gui.Prelude.{ℕ, suc, refl, none, some}
use aptly_gui.Text.{Text, codes}
use aptly_gui.Exec.{Exec, Exc, raise, exc_text, is_aptly_error, catch}
use aptly_gui.Exec.Triple.{
  Triple, Triple-bind, Triple-raise, Triple-if, Triple-catch, Triple-weaken,
}
use aptly_gui.Aptly.Models.{Task}
use aptly_gui.Aptly.Client.{Outside, Request, post}
use aptly_gui.Aptly.Client.Requests.{db_cleanup}
use aptly_gui.Aptly.Client.Bodies.{async_request}
use aptly_gui.Aptly.Client.Keeps.{Survives, Triple-ask_reply}
use aptly_gui.Db.Models.{Job, failed, succeeded}
use aptly_gui.Services.Space.{Margin}
use aptly_gui.Jobs.State.{World, ask, add_step, finish_step, set_step}
use aptly_gui.Jobs.State.Rules.{Both, Triple-ask}
use aptly_gui.Jobs.Steps.{Idle, Busy, Busy-Numbered, Idle-Numbered}
use aptly_gui.Jobs.Steps.Rules.{Triple-add_step, Triple-finish_step, Triple-set_step}
use aptly_gui.Jobs.Await.{await_task}
use aptly_gui.Jobs.Await.Patience.{Patience, Reads, Broken, Triple-Busy-ask, Triple-await_task}
use aptly_gui.Jobs.Work.{follow_task, give_up, mark_failed, reclaim}

-- The request of the clean-up.
abbrev pub cleanup_request : Request
cleanup_request = async_request post (codes "/api/db/cleanup") none

module _ (o : Outside) {P : o.State → Type 0} (job n : ℕ) where
  -- One request, on an idle job.
  pub Triple-Idle-ask :
      {A : Type 0} (m : Exec o.State A)
      → Triple P m (λ _. P) (λ _. P)
      → Triple (Both P (Idle job n)) (ask m) (λ _. Both P (Idle job n)) (Broken P job)
  Triple-Idle-ask m t =
      Triple-weaken (λ s h. h) (λ a s h. h)
        (λ e s h. record { out = h.out; own = Idle-Numbered h.own }) (Triple-ask m t)

  pub Triple-Idle-raise :
      {A : Type 0} {Q : A → World o.State → Type 0} (e : Exc)
      → Triple (Both P (Idle job n)) (raise e) Q (Broken P job)
  Triple-Idle-raise e = Triple-raise e (λ s h. record { out = h.out; own = Idle-Numbered h.own })

module _ (o : Outside) (margin : Margin) (fuel : ℕ) {P : o.State → Type 0} (job n step : ℕ) where
  pub Triple-give_up :
      (detail message : Text)
      → {Q : Unit {0} → World o.State → Type 0}
      → Triple
          (Both P (Busy job n step))
          (give_up o margin fuel step detail message)
          Q
          (Broken P job)
  unfolding give_up
  Triple-give_up detail message =
      Triple-bind (finish_step o step failed (some detail)) _
        (Triple-finish_step o step failed (some detail) refl)
        λ _. Triple-raise _ (λ s h. record { out = h.out; own = Idle-Numbered h.own })

  pub Triple-mark_failed :
      {A : Type 0} {Q : A → World o.State → Type 0} (e : Exc)
      → Triple (Both P (Busy job n step)) (mark_failed o margin fuel step e) Q (Broken P job)
  unfolding mark_failed
  Triple-mark_failed e =
      Triple-if (is_aptly_error e) _ _
        (λ _.
          Triple-bind (finish_step o step failed (some (exc_text e))) _
            (Triple-finish_step o step failed _ refl)
            λ _. Triple-raise e (λ s h. record { out = h.out; own = Idle-Numbered h.own }))
        λ _. Triple-raise e (λ s h. record { out = h.out; own = Busy-Numbered h.own })

  pub Triple-follow_task :
      (task : Task)
      → Patience o fuel
      → Reads o P
      → Triple
          (Both P (Busy job n step))
          (follow_task o margin fuel step task)
          (λ _. Both P (Idle job n))
          (Broken P job)
  unfolding follow_task
  Triple-follow_task task patience reads =
      Triple-bind (set_step o step _) _
        (Triple-set_step o step _
          (record { id = λ s. refl; job_id = λ s. refl; position = λ s. refl }))
        λ _.
          Triple-bind (await_task o margin fuel step task.id) _
            (Triple-await_task o margin job n step patience reads task.id)
            λ output. Triple-finish_step o step succeeded (some output) refl

  -- A request that may be refused, on a busy job.
  pub Triple-refusable :
      {A : Type 0} (m : Exec o.State A)
      → Triple P m (λ _. P) (λ _. P)
      → Triple
          (Both P (Busy job n step))
          (catch (ask m) (mark_failed o margin fuel step))
          (λ _. Both P (Busy job n step))
          (Broken P job)
  Triple-refusable m t = Triple-catch (ask m) _ (Triple-ask m t) Triple-mark_failed

module _ (o : Outside) (margin : Margin) (fuel : ℕ) {P : o.State → Type 0} (row : Job) (n : ℕ)
    (patience : Patience o fuel) (reads : Reads o P) where
  pub Triple-reclaim :
      Survives o P cleanup_request
      → Triple
          (Both P (Idle row.id n))
          (reclaim o margin fuel row)
          (λ _. Both P (Idle row.id (suc n)))
          (Broken P row.id)
  unfolding reclaim
  Triple-reclaim k = Triple-bind (add_step o row.id _) _ (Triple-add_step o _) λ step.
      Triple-bind (ask (db_cleanup o)) _
        (Triple-Busy-ask o margin row.id (suc n) step (λ v h. h) (db_cleanup o)
          (unfold db_cleanup in Triple-ask_reply _ _ k))
        λ task. Triple-follow_task o margin fuel row.id (suc n) step task patience reads
