-- ===== src/Exec/Ensures.antt =====
-- Partial correctness of methods: from `P`, where the method returns, it returns with `Q`.
use aptly_gui.Prelude.{◌≡◌, refl}
use aptly_gui.Exec.{Exec, Outcome, returned, threw, stuck, continue, ◌>>=◌}

pub record Ensures {S A : Type 0} (P : S → Type 0) (m : Exec S A) (Q : A → S → Type 0)
    : Type 0 where
  pub at : (s : S) → P s → (a : A) → (m s).0 ≡ returned a → Q a (m s).1

module _ {S A B : Type 0} {Q : A → S → Type 0} {Q' : B → S → Type 0} where
  through :
      (r : Outcome A) (f : A → Exec S B) (s : S) (b : B)
      → ((a : A) → r ≡ returned a → Q a s)
      → ((a : A) → Ensures (Q a) (f a) Q')
      → (continue r f s).0 ≡ returned b
      → Q' b (continue r f s).1
  through (returned a) f s b q k h = (k a).at s (q a refl) b h
  through (threw e) f s b q k h = cc
  through stuck f s b q k h = cc

  pub Ensures-bind :
      {P : S → Type 0} (m : Exec S A) (f : A → Exec S B)
      → Ensures P m Q
      → ((a : A) → Ensures (Q a) (f a) Q')
      → Ensures P (m >>= f) Q'
  unfolding ◌>>=◌
  Ensures-bind m f k l = record {
    at = λ s p b h. through (m s).0 f (m s).1 b (λ a e. k.at s p a e) l h;
  }

module _ {S A : Type 0} {P : S → Type 0} where
  pub Ensures-always :
      (m : Exec S A) (Q : S → Type 0) → ((s : S) → P s → Q (m s).1) → Ensures P m (λ _. Q)
  Ensures-always m Q k = record { at = λ s p a e. k s p }

  pub Ensures-true : (m : Exec S A) → Ensures P m (λ _ _. Unit {0})
  Ensures-true m = record { at = λ s p a e. tt }
