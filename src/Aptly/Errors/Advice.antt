-- ===== src/Aptly/Errors/Advice.antt =====
-- Which advice with_explanation of src/aptly_gui/aptly/errors.py adds to a message that holds one of
-- the plain texts of the table, in any letters.
use mathlib.Core.Path.{subst}
use aptly_gui.Prelude.{
  sym, ◌≡◌, ◌⊎◌, inl, inr, refl, ap, ◌∙◌, true, some, List, [], ◌∷◌, ◌++◌, map, arith, Bool-cases,
}
use aptly_gui.Text.{Text, codes}
use aptly_gui.Text.Laws.{starts_with-append}
use aptly_gui.Aptly.Errors.{
  explanations, first_match, explain, with_explanation, fold, search_from, any_here, pieces_here,
  later_pieces, Explanation, explained, wrong_keyring, missing_keyring, no_such_suite, cross_device,
  too_slow,
}

-- `literal` is one of the alternatives of a pattern, alone.
data Alone (literal : Text) : List (List Text) → Type 0 where
  here : {rest : List (List Text)} → Alone literal ((literal ∷ []) ∷ rest)
  there : {a : List Text} {rest : List (List Text)} → Alone literal rest → Alone literal (a ∷ rest)

any_here-Alone :
    (literal after : Text) {alts : List (List Text)}
    → Alone literal alts
    → any_here alts (literal ++ after) ≡ true
unfolding any_here pieces_here later_pieces
any_here-Alone literal after here = rw (starts_with-append literal after) refl
any_here-Alone literal after (there h) = ground (arith, any_here-Alone literal after h)

search-here :
    (alts : List (List Text)) (s : Text) → any_here alts s ≡ true → search_from alts s ≡ true
unfolding search_from
search-here alts [] h = h
search-here alts (c ∷ s) h = rw h refl

search-Alone :
    (before literal after : Text) {alts : List (List Text)}
    → Alone literal alts
    → search_from alts (before ++ (literal ++ after)) ≡ true
unfolding search_from
search-Alone [] literal after h = search-here _ (literal ++ after) (any_here-Alone literal after h)
search-Alone (c ∷ before) literal after {alts} h =
    rw (search-Alone before literal after h) (ground arith)

-- The pattern with the literal, and the advices up to its own: the first pattern that matches decides.
data Given (literal : Text) : List Explanation → List Text → Type 0 where
  at_head :
      {alts : List (List Text)} {advice : Text} {rest : List Explanation}
      → Alone literal alts
      → Given literal ((alts, advice) ∷ rest) (advice ∷ [])
  in_tail :
      {alts : List (List Text)} {advice : Text} {rest : List Explanation} {allowed : List Text}
      → Given literal rest allowed
      → Given literal ((alts, advice) ∷ rest) (advice ∷ allowed)

abbrev pub OneOf : {A : Type 0} → A → List A → Type 0
OneOf a [] = ⊥
OneOf a (x ∷ xs) = (a ≡ x) ⊎ OneOf a xs

module _ (literal before after : Text) where
  abbrev holding : Text
  holding = before ++ (literal ++ after)

  abbrev Found : List Explanation → List Text → Type 0
  Found table allowed = (r : Text) × OneOf r allowed × (first_match table holding ≡ some r)

  found_later :
      (alts : List (List Text)) (advice : Text) (rest : List Explanation) (allowed : List Text)
      → Found rest allowed
      → Found ((alts, advice) ∷ rest) (advice ∷ allowed)
  unfolding first_match
  found_later alts advice rest allowed (r, one, e) = elim (Bool-cases (search_from alts holding)) [
    | inl k ↦ (advice, inl refl, rw k refl)
    | inr k ↦ (r, inr one, rw k e)
  ]

  found :
      {table : List Explanation} {allowed : List Text}
      → Given literal table allowed
      → Found table allowed
  unfolding first_match
  found (at_head {advice = advice} h) =
      (advice, inl refl, rw (search-Alone before literal after h) refl)
  found (in_tail {alts = alts} {advice = advice} {rest = rest} {allowed = allowed} h) =
      found_later alts advice rest allowed (found h)

-- The plain texts of the table in lower case, each with the advice that a message may get that holds
-- it: the one beside the text, or one that stands earlier in the table.
abbrev pub advised : List (Text × List Text)
advised =
    (codes "verification of detached signature failed", wrong_keyring ∷ [])
    ∷ (codes "http 404", wrong_keyring ∷ missing_keyring ∷ no_such_suite ∷ [])
    ∷ (
      codes "invalid cross-device link",
      wrong_keyring ∷ missing_keyring ∷ no_such_suite ∷ cross_device ∷ [],
    )
    ∷ (
      codes "readtimeout",
      wrong_keyring ∷ missing_keyring ∷ no_such_suite ∷ cross_device ∷ too_slow ∷ [],
    )
    ∷ (
      codes "connecttimeout",
      wrong_keyring ∷ missing_keyring ∷ no_such_suite ∷ cross_device ∷ too_slow ∷ [],
    )
    ∷ (
      codes "timed out",
      wrong_keyring ∷ missing_keyring ∷ no_such_suite ∷ cross_device ∷ too_slow ∷ [],
    )
    ∷ []

beside :
    (row known : Text × List Text)
    → row ≡ known
    → Given known.0 explanations known.1
    → Given row.0 explanations row.1
beside row known e h = subst (λ (r : Text × List Text). Given r.0 explanations r.1) (sym e) h

given : (row : Text × List Text) → OneOf row advised → Given row.0 explanations row.1
unfolding explanations
given row (inl e) = beside row _ e (at_head here)
given row (inr (inl e)) = beside row _ e (in_tail (in_tail (at_head (there here))))
given row (inr (inr (inl e))) = beside row _ e (in_tail (in_tail (in_tail (at_head here))))
given row (inr (inr (inr (inl e)))) =
    beside row _ e (in_tail (in_tail (in_tail (in_tail (at_head here)))))
given row (inr (inr (inr (inr (inl e))))) =
    beside row _ e (in_tail (in_tail (in_tail (in_tail (at_head (there here))))))
given row (inr (inr (inr (inr (inr (inl e)))))) =
    beside row _ e (in_tail (in_tail (in_tail (in_tail (at_head (there (there here)))))))
given row (inr (inr (inr (inr (inr (inr h)))))) = absurd h

-- A message that holds, in any letters' case, one of the plain texts of the table is shown in full,
-- and after an empty line one of the advices that go with that text: a failed signature gets the
-- advice on the keyring and no other, and the later texts of the table the advice beside them or one
-- that stands earlier in the table.
pub with_explanation-advises :
    (literal : Text) (allowed : List Text) (message before after : Text)
    → OneOf (literal, allowed) advised
    → map fold message ≡ before ++ (literal ++ after)
    → (advice : Text) × OneOf advice allowed
      × (with_explanation message ≡ message ++ (10 ∷ 10 ∷ advice))
unfolding with_explanation explained explain
with_explanation-advises literal allowed message before after row e =
    let (advice, one, k) = found literal before after (given (literal, allowed) row) in
    let same_advice : explain message ≡ some advice = ap (first_match explanations) e ∙ k in
    (advice, one, ap (explained message) same_advice)
