-- ===== src/Exec/Returns.antt =====
-- What a method that returned has been through.
use aptly_gui.Prelude.{◌≡◌, ◌≢◌, refl, Bool, true, false, if◌then◌else◌}
use aptly_gui.Exec.{
  Result, ok, raised, Outcome, returned, threw, stuck, Exec, continue, lift, ◌>>=◌,
}

module _ {S A B : Type 0} where
  continued :
      (r : Outcome A) (f : A → Exec S B) (s : S) (b : B)
      → (continue r f s).0 ≡ returned b
      → (a : A) × (r ≡ returned a) × ((f a s).0 ≡ returned b)
  continued (returned a) f s b e = (a, refl, e)
  continued (threw x) f s b e = cc
  continued stuck f s b e = cc

  -- A chain that returns went through its first method.
  pub bind-returned :
      (m : Exec S A) (f : A → Exec S B) (s : S) (b : B)
      → ((m >>= f) s).0 ≡ returned b
      → (a : A) × ((m s).0 ≡ returned a) × ((f a (m s).1).0 ≡ returned b)
  unfolding ◌>>=◌
  bind-returned m f s b e = continued (m s).0 f (m s).1 b e

module _ {S A : Type 0} where
  pub lift-returned : (r : Result A) (s : S) (a : A) → (lift r s).0 ≡ returned a → r ≡ ok a
  unfolding lift
  lift-returned (ok b) s a e = cc
  lift-returned (raised x) s a e = cc

  pub if-returned :
      (b : Bool) (m n : Exec S A) (s : S) (a : A)
      → ((s : S) → (n s).0 ≢ returned a)
      → ((if b then m else n) s).0 ≡ returned a
      → (b ≡ true) × ((m s).0 ≡ returned a)
  if-returned true m n s a h e = (refl, e)
  if-returned false m n s a h e = absurd (h s e)
