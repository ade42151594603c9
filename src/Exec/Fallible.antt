-- ===== src/Exec/Fallible.antt =====
-- Pure code that may raise: the chain of `Result`s that a parser runs through.
use aptly_gui.Exec.{Result, ok, raised}

infixl 5 ◌>>=◌
abbrev pub ◌>>=◌ {ℓ κ} : {A : Type ℓ} {B : Type κ} → Result A → (A → Result B) → Result B
ok a >>= f = f a
raised e >>= f = raised e
