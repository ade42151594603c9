-- ===== src/Exec/Triple.antt =====
-- Total correctness of methods: from `P` the method returns with `Q` or raises with `R`, and is
-- not stuck. One rule for each way to build a method.
use mathlib.Core.Path.{subst}
use aptly_gui.Prelude.{Bool, true, false, ◌≡◌, refl, sym, ap, if◌then◌else◌}
use aptly_gui.Exec.{
  Exc, Result, ok, raised, Outcome, returned, threw, stuck, Exec, pure, raise, lift, gets, modify,
  continue, ◌>>=◌, handle, catch,
}

abbrev pub Post : {S A : Type 0} → (A → S → Type 0) → (Exc → S → Type 0) → Outcome A → S → Type 0
Post Q R (returned a) s = Q a s
Post Q R (threw e) s = R e s
Post Q R stuck s = ⊥

pub record Triple {S A : Type 0} (P : S → Type 0) (m : Exec S A) (Q : A → S → Type 0)
    (R : Exc → S → Type 0) : Type 0 where
  pub at : (s : S) → P s → Post Q R (m s).0 (m s).1

module _ {S A : Type 0} {P : S → Type 0} {Q : A → S → Type 0} {R : Exc → S → Type 0} where
  pub Triple-pure : (a : A) → ((s : S) → P s → Q a s) → Triple P (pure a) Q R
  unfolding pure
  Triple-pure a h = record { at = h }

  pub Triple-raise : (e : Exc) → ((s : S) → P s → R e s) → Triple P (raise e) Q R
  unfolding raise
  Triple-raise e h = record { at = h }

  pub Triple-lift :
      (r : Result A)
      → ((a : A) (s : S) → r ≡ ok a → P s → Q a s)
      → ((e : Exc) (s : S) → r ≡ raised e → P s → R e s)
      → Triple P (lift r) Q R
  unfolding lift
  Triple-lift (ok a) q e = record { at = λ s h. q a s refl h }
  Triple-lift (raised x) q e = record { at = λ s h. e x s refl h }

  pub Triple-gets : (f : S → A) → ((s : S) → P s → Q (f s) s) → Triple P (gets f) Q R
  unfolding gets
  Triple-gets f h = record { at = h }

  pub Triple-if :
      (b : Bool) (m n : Exec S A)
      → (b ≡ true → Triple P m Q R)
      → (b ≡ false → Triple P n Q R)
      → Triple P (if b then m else n) Q R
  Triple-if true m n km kn = km refl
  Triple-if false m n km kn = kn refl

module _ {S : Type 0} {P : S → Type 0} {Q : Unit {0} → S → Type 0} {R : Exc → S → Type 0} where
  pub Triple-modify : (f : S → S) → ((s : S) → P s → Q tt (f s)) → Triple P (modify f) Q R
  unfolding modify
  Triple-modify f h = record { at = h }

module _ {S A B : Type 0} {Q : A → S → Type 0} {Q' : B → S → Type 0} {R : Exc → S → Type 0} where
  after :
      (r : Outcome A) (f : A → Exec S B) (s : S)
      → Post Q R r s
      → ((a : A) → Triple (Q a) (f a) Q' R)
      → Post Q' R (continue r f s).0 (continue r f s).1
  after (returned a) f s h k = (k a).at s h
  after (threw e) f s h k = h
  after stuck f s h k = absurd h

  pub Triple-bind :
      {P : S → Type 0} (m : Exec S A) (f : A → Exec S B)
      → Triple P m Q R
      → ((a : A) → Triple (Q a) (f a) Q' R)
      → Triple P (m >>= f) Q' R
  unfolding ◌>>=◌
  Triple-bind m f km kf = record { at = λ s h. after (m s).0 f (m s).1 (km.at s h) kf }

module _ {S A : Type 0} {Q Q' : A → S → Type 0} {R R' : Exc → S → Type 0} where
  weaken :
      (r : Outcome A) (s : S)
      → ((a : A) (t : S) → Q a t → Q' a t)
      → ((e : Exc) (t : S) → R e t → R' e t)
      → Post Q R r s
      → Post Q' R' r s
  weaken (returned a) s q r h = q a s h
  weaken (threw e) s q r h = r e s h
  weaken stuck s q r h = h

  pub Triple-weaken :
      {P P' : S → Type 0} {m : Exec S A}
      → ((s : S) → P' s → P s)
      → ((a : A) (t : S) → Q a t → Q' a t)
      → ((e : Exc) (t : S) → R e t → R' e t)
      → Triple P m Q R
      → Triple P' m Q' R'
  Triple-weaken {m = m} p q r t = record { at = λ s h. weaken (m s).0 (m s).1 q r (t.at s (p s h)) }

module _ {S A : Type 0} {Q : A → S → Type 0} {R R' : Exc → S → Type 0} where
  handled :
      (r : Outcome A) (h : Exc → Exec S A) (s : S)
      → ((e : Exc) → Triple (R e) (h e) Q R')
      → Post Q R r s
      → Post Q R' (handle r h s).0 (handle r h s).1
  handled (returned a) h s k p = p
  handled (threw e) h s k p = (k e).at s p
  handled stuck h s k p = p

  pub Triple-catch :
      {P : S → Type 0} (m : Exec S A) (h : Exc → Exec S A)
      → Triple P m Q R
      → ((e : Exc) → Triple (R e) (h e) Q R')
      → Triple P (catch m h) Q R'
  unfolding catch
  Triple-catch m h t k = record { at = λ s p. handled (m s).0 h (m s).1 k (t.at s p) }

exactly :
    {S A : Type 0} (Q : A → S → Type 0) (R : Exc → S → Type 0) (r u : Outcome A) (s t : S)
    → r ≡ u
    → s ≡ t
    → Post Q R r s
    → Post (λ a v. (u ≡ returned a) × (v ≡ t) × Q a v) R r s
exactly Q R (returned a) u s t e f h = (sym e, f, h)
exactly Q R (threw x) u s t e f h = h
exactly Q R stuck u s t e f h = h

module _ {S A : Type 0} {Q : A → S → Type 0} {R : Exc → S → Type 0} where
  -- The start state may be fixed for the proof.
  pub Triple-from :
      {P : S → Type 0} {m : Exec S A} → ((s : S) → P s → Triple (λ t. t ≡ s) m Q R) → Triple P m Q R
  Triple-from h = record { at = λ s p. (h s p).at s refl }

  -- From a known state the value and the next state are known too.
  pub Triple-exactly :
      {P : S → Type 0} (m : Exec S A) (s : S)
      → P s
      → Triple P m Q R
      → Triple (λ t. t ≡ s) m (λ a v. ((m s).0 ≡ returned a) × (v ≡ (m s).1) × Q a v) R
  Triple-exactly {P} m s p t = record {
    at = λ u e.
        exactly Q R (m u).0 (m s).0 (m u).1 (m s).1 (ap (λ x. (m x).0) e) (ap (λ x. (m x).1) e)
          (t.at u (subst P (sym e) p));
  }
