-- ===== src/Jobs/Steps/Frame.antt =====
-- What the methods of the runner leave alone: a relation between what the runner held before and
-- what it holds after, which every way to build a method keeps.
use aptly_gui.Prelude.{ℕ, Bool, Option, some, if◌then◌else◌, if-holds}
use aptly_gui.Text.{Text}
use aptly_gui.Exec.{
  Exec, Exc, Outcome, returned, threw, stuck, Result, pure, raise, hang, lift, gets, modify,
  continue, ◌>>=◌, handle, catch,
}
use aptly_gui.Aptly.Client.{Outside, Moment}
use aptly_gui.Db.Models.{JobStep, StepState}
use aptly_gui.Jobs.State.{
  World, Local, ask, look, change, committed, commit, clock, add_step, finish_step, set_step,
  step_added, step_finished, update_step, with_live, output_set,
}
use aptly_gui.Jobs.Steps.{Keeps}
use aptly_gui.Jobs.Steps.Rules.{output_set-Keeps}

-- A relation that nothing and one thing after another keep.
pub record Steady (R : Local → Local → Type 0) : Type 0 where
  pub same : (l : Local) → R l l
  pub after : {l m n : Local} → R l m → R m n → R l n

-- `m` stays within `R`, however it ends.
pub record Within (R : Local → Local → Type 0) {W A : Type 0} (m : Exec (World W) A) : Type 0 where
  pub at : (s : World W) → R s.own (m s).1.own

module _ {R : Local → Local → Type 0} (steady : Steady R) {W A : Type 0} where
  pub Within-pure : (a : A) → Within R {W = W} (pure a)
  unfolding pure
  Within-pure a = record { at = λ s. steady.same s.own }

  pub Within-raise : (e : Exc) → Within R {W = W} {A = A} (raise e)
  unfolding raise
  Within-raise e = record { at = λ s. steady.same s.own }

  pub Within-hang : Within R {W = W} {A = A} hang
  unfolding hang
  Within-hang = record { at = λ s. steady.same s.own }

  pub Within-lift : (r : Result A) → Within R {W = W} (lift r)
  unfolding lift
  Within-lift r = record { at = λ s. steady.same s.own }

  pub Within-ask : (m : Exec W A) → Within R (ask m)
  unfolding ask
  Within-ask m = record { at = λ s. steady.same s.own }

  pub Within-look : (f : Local → A) → Within R {W = W} (look f)
  unfolding look gets
  Within-look f = record { at = λ s. steady.same s.own }

module _ {R : Local → Local → Type 0} {W A : Type 0} where
  pub Within-if :
      (b : Bool) (m n : Exec (World W) A) → Within R m → Within R n → Within R (if b then m else n)
  Within-if b m n k l = if-holds (Within R) b (λ e. k) λ e. l

module _ {R : Local → Local → Type 0} {W : Type 0} where
  pub Within-change : (f : Local → Local) → ((l : Local) → R l (f l)) → Within R {W = W} (change f)
  unfolding change modify
  Within-change f k = record { at = λ s. k s.own }

module _ {R : Local → Local → Type 0} (steady : Steady R) {W A : Type 0} where
  module _ {B : Type 0} where
    continued :
        (r : Outcome A) (f : A → Exec (World W) B) (l : Local) (s : World W)
        → R l s.own
        → ((a : A) → Within R (f a))
        → R l (continue r f s).1.own
    continued (returned a) f l s h k = steady.after h ((k a).at s)
    continued (threw e) f l s h k = h
    continued stuck f l s h k = h

    pub Within-bind :
        (m : Exec (World W) A) (f : A → Exec (World W) B)
        → Within R m
        → ((a : A) → Within R (f a))
        → Within R (m >>= f)
    unfolding ◌>>=◌
    Within-bind m f k l = record { at = λ s. continued (m s).0 f s.own (m s).1 (k.at s) l }

  handled :
      (r : Outcome A) (h : Exc → Exec (World W) A) (l : Local) (s : World W)
      → R l s.own
      → ((e : Exc) → Within R (h e))
      → R l (handle r h s).1.own
  handled (returned a) h l s p k = p
  handled (threw e) h l s p k = steady.after p ((k e).at s)
  handled stuck h l s p k = p

  pub Within-catch :
      (m : Exec (World W) A) (h : Exc → Exec (World W) A)
      → Within R m
      → ((e : Exc) → Within R (h e))
      → Within R (catch m h)
  unfolding catch
  Within-catch m h k l = record { at = λ s. handled (m s).0 h s.own (m s).1 (k.at s) l }

-- A relation that the bookkeeping of one job's steps keeps.
pub record Confined (job : ℕ) (R : Local → Local → Type 0) : Type 0 where
  pub steady : Steady R
  pub adds :
      (description : Text) (now : Moment) (l : Local) → R l (step_added job description now l)
  pub changes :
      (id : ℕ) (f : JobStep → JobStep) (l : Local)
      → Keeps f
      → R l (with_live (λ t. record t { steps = update_step id f t.steps }) l)
  pub saves : (l : Local) → R l (committed l)

module _ {job : ℕ} {R : Local → Local → Type 0} (confined : Confined job R) (o : Outside) where
  pub Within-clock : Within R (clock o)
  unfolding clock gets
  Within-clock = record { at = λ s. confined.steady.same s.own }

  pub Within-commit : Within R (commit o)
  unfolding commit
  Within-commit = Within-change _ confined.saves

  pub Within-add_step : (description : Text) → Within R (add_step o job description)
  unfolding add_step
  Within-add_step description = Within-bind confined.steady (clock o) _ Within-clock λ now.
      Within-bind confined.steady (look _) _ (Within-look confined.steady _) λ id.
        Within-bind confined.steady (change _) _ (Within-change _ (confined.adds description now))
          λ _. Within-pure confined.steady id

  pub Within-set_step : (id : ℕ) (f : JobStep → JobStep) → Keeps f → Within R (set_step o id f)
  unfolding set_step
  Within-set_step id f k =
      Within-change _ λ l. confined.steady.after (confined.changes id f l k) (confined.saves _)

  pub Within-finish_step :
      (id : ℕ) (state : StepState) (output : Option Text) → Within R (finish_step o id state output)
  unfolding finish_step step_finished
  Within-finish_step id state output = Within-bind confined.steady (clock o) _ Within-clock λ now.
      Within-change _ λ l.
        confined.steady.after
          (confined.changes id
            (λ s. output_set output (record s { state = state; finished_at = some now })) l
            (record {
              id = λ s. (output_set-Keeps output _).0;
              job_id = λ s. (output_set-Keeps output _).1;
              position = λ s. (output_set-Keeps output _).2;
            }))
          (confined.saves _)
