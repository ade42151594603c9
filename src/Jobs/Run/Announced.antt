-- ===== src/Jobs/Run/Announced.antt =====
-- The steps that a job's row announces stay announced while the job works, and how the work ends is
-- known from the state in which it starts.
use mathlib.Core.Path.{subst}
use aptly_gui.Prelude.{ℕ, ◌≡◌, sym, ap, ◌∙◌, some}
use aptly_gui.Exec.{Exec, Outcome, returned, threw, stuck}
use aptly_gui.Exec.Triple.{Triple, Post}
use aptly_gui.Db.Models.{Job}
use aptly_gui.Jobs.State.{World, Local, get_job, committed, step_added}
use aptly_gui.Jobs.State.Rows.{get_job-update_some}
use aptly_gui.Jobs.State.Rules.{Both}
use aptly_gui.Jobs.Steps.Frame.{Within}
use aptly_gui.Jobs.Run.Confining.{Movable}

-- The job's row announces `n` steps.
abbrev pub Announces : ℕ → ℕ → Local → Type 0
Announces job n l =
    (row : Job) × (get_job job l.live.jobs ≡ some row) × (row.expected_steps ≡ some n)

abbrev pub Announcing : ℕ → ℕ → Local → Local → Type 0
Announcing job n l m = Announces job n l → Announces job n m

pub Announcing-Movable : (job n : ℕ) → Movable job (Announcing job n)
unfolding step_added committed
Announcing-Movable job n = record {
  confined = record {
    steady = record { same = λ l h. h; after = λ f g h. g (f h) };
    adds = λ description now l h. h;
    changes = λ id f l k h. h;
    saves = λ l h. h;
  };
  own = λ f l k m h. (f h.0, get_job-update_some job f l.live.jobs k h.0 h.1, m h.0 ∙ h.2);
  but = λ q j s g h. (h.0, ap (get_job job) j ∙ h.1, h.2);
}

-- What is known when `m`, run from `start`, returns or raises with `T`.
abbrev pub Known : {A : Type 0} → ℕ → ℕ → (Local → Type 0) → Outcome A → Outcome A → Local → Type 0
Known job n T why r l = T l × Announces job n l × (why ≡ r)

module _ {W A : Type 0} (job n : ℕ) where
  known :
      (P : W → Type 0) (U V : Local → Type 0) (r why : Outcome A) (s : World W)
      → why ≡ r
      → Announces job n s.own
      → Post (λ a. Both P U) (λ e. Both P V) r s
      → Post
          (λ a. Both P (Known job n U why (returned a)))
          (λ e. Both P (Known job n V why (threw e)))
          r
          s
  known P U V (returned a) why s e k h = record { out = h.out; own = (h.own, k, e) }
  known P U V (threw x) why s e k h = record { out = h.out; own = (h.own, k, e) }
  known P U V stuck why s e k h = h

  pub Triple-Known :
      {P : W → Type 0} {T U V : Local → Type 0} (m : Exec (World W) A) (start : World W)
      (why : Outcome A)
      → (m start).0 ≡ why
      → Both P T start
      → Announces job n start.own
      → Within (Announcing job n) m
      → Triple (Both P T) m (λ a. Both P U) (λ e. Both P V)
      → Triple
          (λ s. s ≡ start)
          m
          (λ a. Both P (Known job n U why (returned a)))
          (λ e. Both P (Known job n V why (threw e)))
  Triple-Known {P} {U = U} {V = V} m start why q p k w t = record {
    at = λ s e.
        known P U V (m s).0 why (m s).1 (sym q ∙ ap (λ x. (m x).0) (sym e))
          (w.at s (subst (λ (x : World W). Announces job n x.own) (sym e) k))
          (t.at s (subst (Both P _) (sym e) p));
  }
