-- ===== src/Jobs/Reconcile/Complete.antt =====
-- When a reconciled snapshot set is complete.
use aptly_gui.Prelude.{
  ℕ, suc, ◌*◌, ◌≡◌, ◌↔◌, refl, sym, ap, ◌∙◌, inl, inr, true, false, Bool-cases, some, List, [], ◌∷◌,
  arith, length, length-append, All,
}
use aptly_gui.Text.{Text, mem, same}
use aptly_gui.Text.Laws.{same_iff, same→eq}
use aptly_gui.Dict.{Dict, lookup}
use aptly_gui.Db.Models.{
  MirrorSet, SnapshotSet, complete, expected_mirrors, names_of_suite, names_of_suites,
}
use aptly_gui.Jobs.Reconcile.{reconciled, present_in, state_for}
use aptly_gui.Jobs.Reconcile.Covers.{Distinct, covers_iff}

abbrev pub keys : Dict Text → List Text
keys [] = []
keys ((mirror, snapshot) ∷ d) = mirror ∷ keys d

length-keys : (d : Dict Text) → length (keys d) ≡ length d
length-keys [] = refl
length-keys ((m, s) ∷ d) = ap suc (length-keys d)

module _ (existing : List Text) where
  -- The mirror has an entry, and the snapshot of the entry exists.
  abbrev pub Has : Dict Text → Text → Type 0
  Has d m = (s : Text) × (lookup m d ≡ some s) × (mem s existing ≡ true)

  keys-absent :
      (k : Text) (d : Dict Text)
      → mem k (keys d) ≡ false
      → mem k (keys (present_in existing d)) ≡ false
  unfolding present_in mem
  keys-absent k [] h = refl
  keys-absent k ((m, s) ∷ d) h = ground (arith, h, keys-absent k d)

  keys-Distinct : (d : Dict Text) → Distinct (keys d) → Distinct (keys (present_in existing d))
  unfolding present_in
  keys-Distinct [] h = tt
  keys-Distinct ((m, s) ∷ d) h = elim (Bool-cases (mem s existing)) [
    | inl e ↦ rw e (keys-absent m d h.0, keys-Distinct d h.1)
    | inr e ↦ rw e (keys-Distinct d h.1)
  ]

  keys-All :
      (P : Text → Type 0) (d : Dict Text) → All P (keys d) → All P (keys (present_in existing d))
  unfolding present_in
  keys-All P [] h = tt
  keys-All P ((m, s) ∷ d) h = elim (Bool-cases (mem s existing)) [
    | inl e ↦ rw e (h.0, keys-All P d h.1)
    | inr e ↦ rw e (keys-All P d h.1)
  ]

  present→Has :
      (d : Dict Text) (k : Text)
      → Distinct (keys d)
      → mem k (keys (present_in existing d)) ≡ true
      → Has d k
  unfolding present_in lookup mem
  present→Has [] k u h = cc
  present→Has ((m, s) ∷ d) k u h = elim (Bool-cases (same m k)) [
    | inl e ↦
        let one = same→eq m k e in
        let gone : mem k (keys (present_in existing d)) ≡ false =
          ap (λ t. mem t (keys (present_in existing d))) (sym one) ∙ keys-absent m d u.0 in
        (s, rw e refl, ground (arith, h, gone))
    | inr e ↦
        let found : mem k (keys (present_in existing d)) ≡ true =
          ground (arith, h, e, same_iff k m, same_iff m k) in
        let (t, l, x) = present→Has d k u.1 found in (t, rw e l, x)
  ]

  Has→present : (d : Dict Text) (k : Text) → Has d k → mem k (keys (present_in existing d)) ≡ true
  unfolding present_in lookup mem
  Has→present [] k h = cc
  Has→present ((m, s) ∷ d) k h = elim (Bool-cases (same m k)) [
    | inl e ↦ ground (arith, e, h.1, h.2, same_iff k m, same_iff m k)
    | inr e ↦
        let later : lookup k d ≡ some h.0 = ground (arith, e, h.1) in
        ground (arith, Has→present d k (h.0, later, h.2))
  ]

length-names_of_suite :
    (set : MirrorSet) (suite : Text) (components : List Text)
    → length (names_of_suite set suite components) ≡ length components
unfolding names_of_suite
length-names_of_suite set suite [] = refl
length-names_of_suite set suite (c ∷ components) =
    ap suc (length-names_of_suite set suite components)

length-names_of_suites :
    (set : MirrorSet) (suites : List Text)
    → length (names_of_suites set suites) ≡ length suites * length set.components
unfolding names_of_suites
length-names_of_suites set [] = omega arith
length-names_of_suites set (suite ∷ suites) = omega (
  arith,
  length-append (names_of_suite set suite set.components) (names_of_suites set suites),
  length-names_of_suite set suite set.components,
  length-names_of_suites set suites,
)

complete_iff : (a b : ℕ) → (state_for a b ≡ complete) ↔ (a ≡ b)
complete_iff a b = (λ h. ground arith, λ e. ground arith)

All-through :
    {P Q : Text → Type 0} → ((t : Text) → P t → Q t) → (ts : List Text) → All P ts → All Q ts
All-through f [] h = tt
All-through f (t ∷ ts) h = (f t h.0, All-through f ts h.1)

-- Where the mirrors that a snapshot set names are different ones of its mirror set, and the mirror set
-- describes no mirror twice: after a reconciliation the snapshot set is complete exactly when it names,
-- for every mirror of the mirror set, a snapshot that aptly has.
pub reconciled-complete_iff :
    (existing : List Text) (set : MirrorSet) (x : SnapshotSet)
    → Distinct (keys x.snapshots)
    → Distinct (expected_mirrors set)
    → All (λ m. mem m (expected_mirrors set) ≡ true) (keys x.snapshots)
    → ((reconciled existing set x).state ≡ complete)
      ↔ All (Has existing x.snapshots) (expected_mirrors set)
unfolding reconciled expected_mirrors
reconciled-complete_iff existing set x d e h =
    let kept = present_in existing x.snapshots in
    let count : length (keys kept) ≡ length kept = length-keys kept in
    let whole = length-names_of_suites set set.suites in
    let known = complete_iff (length kept) (length set.suites * length set.components) in
    let covered =
      covers_iff (keys kept) (expected_mirrors set) (keys-Distinct existing x.snapshots d) e
        (keys-All existing _ x.snapshots h) in
    (
      (λ c.
          All-through (λ m. present→Has existing x.snapshots m d) (expected_mirrors set)
            (covered.0 (count ∙ known.0 c ∙ sym whole))),
      λ a. known.1 (
          sym count
          ∙ covered.1
              (All-through (λ m. Has→present existing x.snapshots m) (expected_mirrors set) a)
          ∙ whole),
    )
