-- ===== src/Services/Naming/RoundTrip.antt =====
-- Splitting a mirror's name undoes naming it, and the other way round.
use mathlib.Core.Path.{subst}
use aptly_gui.Prelude.{
  ◌≡◌, refl, sym, ap, Bool, true, false, Option, none, some, List, [], ◌∷◌, ◌++◌, arith, inl, inr,
  ◌⊎◌, if◌then◌else◌,
}
use aptly_gui.Text.{Text, codes, same, ends_with, drop_end, truthy}
use aptly_gui.Text.Laws.{same→eq, same_refl, ends_with→append, drop_end-append, ends_with-append}
use aptly_gui.Services.Naming.{
  Mirror, Pattern, set_suite_component, suite_component, mirror_name, Split, set_name_or_stem,
  with_set, split_without_set, split_single, split_components, split_mirror_name,
}

abbrev suffix_of : Text → Text → Text
suffix_of suite component = codes "-" ++ (suite ++ (codes "-" ++ component))

-- A split that names the mirror it was taken from.
abbrev Names : Text → Text → Text → Split → Type 0
Names name suite component s =
    (mirror_name s.pattern s.set_name s.suite s.component ≡ name)
    × ((s.suite ≡ suite) × (s.component ≡ component))

-- What a conditional gave, by its test.
if-some :
    {A : Type 0} (b : Bool) (first rest : Option A) (c : A)
    → (if b then first else rest) ≡ some c
    → ((b ≡ true) × (first ≡ some c)) ⊎ (rest ≡ some c)
if-some true first rest c e = inl (refl, e)
if-some false first rest c e = inr e

some_inj : {A : Type 0} (a b : A) → some a ≡ some b → a ≡ b
some_inj a b e = cc

Names-of :
    (name suite component : Text) (s t : Split)
    → Names name suite component s
    → some s ≡ some t
    → Names name suite component t
Names-of name suite component s t h e = subst (Names name suite component) (some_inj s t e) h

without_set-Names :
    (name suite component : Text) (set_name : Option Text) (s : Split)
    → split_without_set name suite component set_name ≡ some s
    → Names name suite component s
unfolding split_without_set mirror_name
without_set-Names name suite component set_name s e =
    elim (if-some (same name (suite ++ (codes "-" ++ component))) _ none s e) [
      | inl h ↦ Names-of name suite component _ s (sym (same→eq name _ h.0), (refl, refl)) h.1
      | inr h ↦ cc
    ]

module _ (name suite component : Text) (set_name : Option Text) (s : Split) where
  with_set-Names :
      ends_with name (suffix_of suite component) ≡ true
      → some (with_set name suite component) ≡ some s
      → Names name suite component s
  unfolding mirror_name
  with_set-Names h e =
      Names-of name suite component (with_set name suite component) s
        (ends_with→append name (suffix_of suite component) h, (refl, refl)) e

  single-Names : split_single name suite component set_name ≡ some s → Names name suite component s
  unfolding split_single
  single-Names e = elim (if-some (ends_with name (suffix_of suite component)) _ _ s e) [
    | inl h ↦ elim (if-some (truthy (drop_end name (suffix_of suite component))) _ _ s h.1) [
      | inl k ↦ with_set-Names h.0 k.1
      | inr k ↦ without_set-Names name suite component set_name s k
    ]
    | inr h ↦ without_set-Names name suite component set_name s h
  ]

components-Names :
    (name suite : Text) (set_name : Option Text) (s : Split) (components : List Text)
    → split_components name suite components set_name ≡ some s
    → Names name suite s.component s × (components ≡ s.component ∷ [])
unfolding split_components
components-Names name suite set_name s [] e = cc
components-Names name suite set_name s (c ∷ []) e =
    let h = single-Names name suite c set_name s e in
    ((h.0, (h.1.0, refl)), ap (λ x. x ∷ []) (sym h.1.1))
components-Names name suite set_name s (c ∷ (d ∷ cs)) e = cc

-- A split that the program finds names the mirror that it was taken from: the pattern, with the set,
-- the suite and the component of the split, spells the mirror's name, the suite is the mirror's
-- distribution, and the component is its only one.
pub mirror_name-split_mirror_name :
    (mirror : Mirror) (set_name : Option Text) (s : Split)
    → split_mirror_name mirror set_name ≡ some s
    → (mirror_name s.pattern s.set_name s.suite s.component ≡ mirror.name)
      × ((s.suite ≡ mirror.distribution) × (mirror.components ≡ s.component ∷ []))
unfolding split_mirror_name
mirror_name-split_mirror_name mirror set_name s e =
    let (h, k) = components-Names mirror.name mirror.distribution set_name s mirror.components e in
    (h.0, (h.1.0, k))

longer : (name : Text) → ends_with name (codes "-" ++ name) ≡ false
unfolding ends_with
longer name = ground arith

module _ (set_name suite component : Text) (filled : truthy set_name ≡ true) where
  abbrev Found : Pattern → Type 0
  Found pattern =
      split_single (mirror_name pattern set_name suite component) suite component (some set_name)
      ≡ some
          (record { set_name = set_name; suite = suite; component = component; pattern = pattern })

  split_with_set : Found set_suite_component
  unfolding mirror_name split_single
  split_with_set =
      rw (ends_with-append set_name (suffix_of suite component))
        (rw (drop_end-append set_name (suffix_of suite component)) (rw filled refl))

  split_with_suite : Found suite_component
  unfolding mirror_name split_single split_without_set set_name_or_stem
  split_with_suite =
      rw (longer (suite ++ (codes "-" ++ component)))
        (rw (same_refl (suite ++ (codes "-" ++ component))) (rw filled refl))

  split_named : (pattern : Pattern) → Found pattern
  split_named set_suite_component = split_with_set
  split_named suite_component = split_with_suite

-- Naming a mirror and splitting its name gives back the set, the suite, the component and the
-- pattern, where the set has a name and the caller passes it, whatever dashes the parts hold.
pub split_mirror_name-mirror_name :
    (mirror : Mirror) (pattern : Pattern) (set_name component : Text)
    → truthy set_name ≡ true
    → mirror.name ≡ mirror_name pattern set_name mirror.distribution component
    → mirror.components ≡ component ∷ []
    → split_mirror_name mirror (some set_name)
      ≡ some (record {
        set_name = set_name;
        suite = mirror.distribution;
        component = component;
        pattern = pattern;
      })
unfolding split_mirror_name
split_mirror_name-mirror_name mirror pattern set_name component filled named_so single = rw single (
    rw named_so (
      unfold split_components in split_named set_name mirror.distribution component filled pattern))
