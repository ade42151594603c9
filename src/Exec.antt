-- ===== src/Exec.antt =====
-- Methods that change a state and may raise. What was written before a raise stays written, so the
-- state comes back beside the error too. `stuck` is a loop that ran out of its fuel, which is no
-- exception of the program: no handler sees it.
pub mod Triple
pub mod Returns
pub mod Ensures
pub mod Fallible
use aptly_gui.Prelude.{ℕ, Bool, true, false, Option, [], ◌∷◌, ◌++◌}
use aptly_gui.Text.{Text, codes}

pub data Exc : Type 0 where
  -- AptlyError(message, status_code)
  aptly_error : Text → Option ℕ → Exc
  -- TaskFailed(task, output), by the task's name
  task_failed : Text → Text → Exc
  -- httpx.HTTPError, by its class name and its text
  http_error : Text → Text → Exc
  value_error : Text → Exc
  key_error : Text → Exc
  type_error : Text → Exc
  timeout_error : Text → Exc
  -- sqlalchemy.exc.IntegrityError, by its text
  integrity_error : Text → Exc
  -- OidcError of auth/oidc.py
  oidc_error : Text → Exc

-- `output or 'no output'`
abbrev or_no_output : Text → Text
or_no_output [] = codes "no output"
or_no_output (c ∷ s) = c ∷ s

-- str(exc)
unfoldable pub exc_text : Exc → Text
exc_text (aptly_error message status) = message
exc_text (task_failed name output) = name ++ (codes ": " ++ or_no_output output)
exc_text (http_error name message) = message
exc_text (value_error message) = message
exc_text (key_error key) = codes "'" ++ (key ++ codes "'")
exc_text (type_error message) = message
exc_text (timeout_error message) = message
exc_text (integrity_error message) = message
exc_text (oidc_error message) = message

-- exc.__class__.__name__
unfoldable pub exc_class : Exc → Text
exc_class (aptly_error message status) = codes "AptlyError"
exc_class (task_failed name output) = codes "TaskFailed"
exc_class (http_error name message) = name
exc_class (value_error message) = codes "ValueError"
exc_class (key_error key) = codes "KeyError"
exc_class (type_error message) = codes "TypeError"
exc_class (timeout_error message) = codes "TimeoutError"
exc_class (integrity_error message) = codes "IntegrityError"
exc_class (oidc_error message) = codes "OidcError"

-- `except AptlyError`
unfoldable pub is_aptly_error : Exc → Bool
is_aptly_error (aptly_error message status) = true
is_aptly_error (task_failed name output) = true
is_aptly_error _ = false

abbrev text_or : Text → Text → Text
text_or [] t = t
text_or (c ∷ s) t = c ∷ s

-- `str(exc) or exc.__class__.__name__`
unfoldable pub describe : Exc → Text
unfolding exc_text exc_class
describe e = text_or (exc_text e) (exc_class e)

-- What a pure computation that may raise gives.
pub data Result {ℓ} (A : Type ℓ) : Type ℓ where
  ok : A → Result A
  raised : Exc → Result A

-- What a method ends in.
pub data Outcome {ℓ} (A : Type ℓ) : Type ℓ where
  returned : A → Outcome A
  threw : Exc → Outcome A
  stuck : Outcome A

abbrev pub outcome {ℓ} : {A : Type ℓ} → Result A → Outcome A
outcome (ok a) = returned a
outcome (raised e) = threw e

abbrev pub Exec {ℓ} : Type ℓ → Type ℓ → Type ℓ
Exec S A = S → Outcome A × S

module _ {ℓ} {S A : Type ℓ} where
  unfoldable pub pure : A → Exec S A
  pure a s = (returned a, s)

  unfoldable pub raise : Exc → Exec S A
  raise e s = (threw e, s)

  unfoldable pub hang : Exec S A
  hang s = (stuck, s)

  unfoldable pub lift : Result A → Exec S A
  lift r s = (outcome r, s)

  unfoldable pub gets : (S → A) → Exec S A
  gets f s = (returned (f s), s)

module _ {ℓ} {S : Type ℓ} where
  unfoldable pub modify : (S → S) → Exec S (Unit {ℓ})
  modify f s = (returned tt, f s)

module _ {ℓ} {S A B : Type ℓ} where
  abbrev pub continue : Outcome A → (A → Exec S B) → Exec S B
  continue (returned a) f s = f a s
  continue (threw e) f s = (threw e, s)
  continue stuck f s = (stuck, s)

  infixl 5 ◌>>=◌ ◌>>◌
  -- Opening this opens `pure`, `raise`, `hang`, `lift`, `gets` and `modify` too.
  unfoldable pub ◌>>=◌ : Exec S A → (A → Exec S B) → Exec S B
  unfolding pure raise hang lift gets modify
  ◌>>=◌ m f s = let (r, s') = m s in continue r f s'

  abbrev pub ◌>>◌ : Exec S A → Exec S B → Exec S B
  m >> n = m >>= λ _. n

module _ {ℓ} {S A : Type ℓ} where
  abbrev pub handle : Outcome A → (Exc → Exec S A) → Exec S A
  handle (returned a) h s = (returned a, s)
  handle (threw e) h s = h e s
  handle stuck h s = (stuck, s)

  -- try: m / except Exception as e: h e
  unfoldable pub catch : Exec S A → (Exc → Exec S A) → Exec S A
  catch m h s = let (r, s') = m s in handle r h s'
