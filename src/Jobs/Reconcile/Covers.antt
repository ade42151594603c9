-- ===== src/Jobs/Reconcile/Covers.antt =====
-- Counting: as many names as a list without repetitions has cover it exactly when each is among them.
use aptly_gui.Prelude.{
  ℕ, suc, ◌≡◌, ◌≤◌, ◌↔◌, refl, sym, ap, ◌∙◌, inl, inr, true, false, Bool-cases, List, [], ◌∷◌,
  arith, length, All, if◌then◌else◌,
}
use aptly_gui.Text.{Text, mem, same}
use aptly_gui.Text.Laws.{same_iff, same→eq, same_refl}

abbrev pub Distinct : List Text → Type 0
Distinct [] = Unit
Distinct (k ∷ ks) = (mem k ks ≡ false) × Distinct ks

-- How many of the second names are among the first.
hits : List Text → List Text → ℕ
hits ks [] = 0
hits ks (m ∷ ms) = let rest = hits ks ms in if mem m ks then suc rest else rest

hits-nil : (ms : List Text) → hits [] ms ≡ 0
unfolding hits mem
hits-nil [] = refl
hits-nil (m ∷ ms) = hits-nil ms

module _ (k : Text) (ks : List Text) where
  hits-outside : (ms : List Text) → mem k ms ≡ false → hits (k ∷ ks) ms ≡ hits ks ms
  unfolding hits mem
  hits-outside [] h = refl
  hits-outside (m ∷ ms) h = ground (arith, same_iff k m, same_iff m k, hits-outside ms)

  hits-inside :
      (ms : List Text)
      → Distinct ms
      → mem k ms ≡ true
      → mem k ks ≡ false
      → hits (k ∷ ks) ms ≡ suc (hits ks ms)
  unfolding hits mem
  hits-inside [] d h n = cc
  hits-inside (m ∷ ms) d h n = elim (Bool-cases (same k m)) [
    | inl e ↦
        let one = same→eq k m e in
        let gone : mem k ms ≡ false = ap (λ t. mem t ms) one ∙ d.0 in
        let other : mem m ks ≡ false = ap (λ t. mem t ks) (sym one) ∙ n in
        let turned : same m k ≡ true = ap (λ t. same t k) (sym one) ∙ same_refl k in
        ground (arith, gone, other, turned, hits-outside ms gone)
    | inr e ↦
        let found : mem k ms ≡ true = ground (arith, e, h) in
        ground (arith, e, same_iff k m, same_iff m k, hits-inside ms d.1 found n)
  ]

hits-le : (ks ms : List Text) → hits ks ms ≤ length ms
unfolding hits
hits-le ks [] = omega arith
hits-le ks (m ∷ ms) = ground (arith, hits-le ks ms)

hits-Distinct :
    (ks ms : List Text)
    → Distinct ks
    → Distinct ms
    → All (λ k. mem k ms ≡ true) ks
    → hits ks ms ≡ length ks
hits-Distinct [] ms d e h = hits-nil ms
hits-Distinct (k ∷ ks) ms d e h =
    hits-inside k ks ms e h.0 d.0 ∙ ap suc (hits-Distinct ks ms d.1 e h.1)

all_hit : (ks ms : List Text) → hits ks ms ≡ length ms → All (λ m. mem m ks ≡ true) ms
unfolding hits
all_hit ks [] h = tt
all_hit ks (m ∷ ms) h = elim (Bool-cases (mem m ks)) [
  | inl e ↦ (e, all_hit ks ms (ground (arith, h, e)))
  | inr e ↦ absurd (ground (arith, h, e, hits-le ks ms))
]

hit_all : (ks ms : List Text) → All (λ m. mem m ks ≡ true) ms → hits ks ms ≡ length ms
unfolding hits
hit_all ks [] h = refl
hit_all ks (m ∷ ms) h = let here : mem m ks ≡ true = h.0 in rw here (ap suc (hit_all ks ms h.1))

pub covers_iff :
    (ks ms : List Text)
    → Distinct ks
    → Distinct ms
    → All (λ k. mem k ms ≡ true) ks
    → (length ks ≡ length ms) ↔ All (λ m. mem m ks ≡ true) ms
covers_iff ks ms d e h = (
  (λ q. all_hit ks ms (hits-Distinct ks ms d e h ∙ q)),
  λ a. sym (hits-Distinct ks ms d e h) ∙ hit_all ks ms a,
)
