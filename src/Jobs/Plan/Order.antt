-- ===== src/Jobs/Plan/Order.antt =====
-- The order of the suites: a permutation of them, sorted by the rank of the suffix, then by text.
use mathlib.Core.List.{Perm}
use mathlib.Core.List.Perm
use aptly_gui.Prelude.{
  ℕ, suc, ◌<◌, ltb, ◌⊎◌, inl, inr, or-cases, if◌then◌else◌, ◌≡◌, refl, ap, ◌∙◌, true, false, List,
  [], ◌∷◌, arith, length, if-holds, All,
}
use aptly_gui.Text.{Text, codes, text_leb, ends_with}
use aptly_gui.Jobs.Plan.{order_suites, insert_suite, suite_leb, rank, rank_from}

length-insert_suite : (s : Text) (ts : List Text) → length (insert_suite s ts) ≡ suc (length ts)
unfolding insert_suite
length-insert_suite s [] = refl
length-insert_suite s (t ∷ ts) = ground (arith, length-insert_suite s ts)

pub length-order_suites : (ss : List Text) → length (order_suites ss) ≡ length ss
unfolding order_suites
length-order_suites [] = refl
length-order_suites (s ∷ ss) =
    length-insert_suite s (order_suites ss) ∙ ap suc (length-order_suites ss)

text_leb_total : (s t : Text) → text_leb s t ≡ false → text_leb t s ≡ true
unfolding text_leb
text_leb_total [] t h = cc
text_leb_total (c ∷ s) [] h = refl
text_leb_total (c ∷ s) (d ∷ t) h = ground (arith, text_leb_total s t)

text_leb_trans : (s t u : Text) → text_leb s t ≡ true → text_leb t u ≡ true → text_leb s u ≡ true
unfolding text_leb
text_leb_trans [] t u h k = refl
text_leb_trans (c ∷ s) [] u h k = cc
text_leb_trans (c ∷ s) (d ∷ t) [] h k = cc
text_leb_trans (c ∷ s) (d ∷ t) (e ∷ u) h k = ground (arith, text_leb_trans s t u)

suite_leb_total : (s t : Text) → suite_leb s t ≡ false → suite_leb t s ≡ true
unfolding suite_leb
suite_leb_total s t h = ground (arith, text_leb_total s t)

suite_leb_trans :
    (s t u : Text) → suite_leb s t ≡ true → suite_leb t u ≡ true → suite_leb s u ≡ true
unfolding suite_leb
suite_leb_trans s t u h k = ground (arith, text_leb_trans s t u)

-- The place of a suite by its name: base, updates, security, backports.
abbrev pub place : Text → ℕ
place s =
    if ends_with s (codes "-updates")
    then 1
    else if ends_with s (codes "-security")
    then 2
    else if ends_with s (codes "-backports")
    then 3
    else 0

-- A suite may stand before another: it has a lower place, or the same one and no greater text.
abbrev pub Precedes : Text → Text → Type 0
Precedes s t = (place s < place t) ⊎ ((place s ≡ place t) × (text_leb s t ≡ true))

-- Each suite goes before all the later ones.
abbrev InOrder : List Text → Type 0
InOrder [] = Unit
InOrder (s ∷ ss) = All (λ t. suite_leb s t ≡ true) ss × InOrder ss

abbrev pub Sorted : List Text → Type 0
Sorted [] = Unit
Sorted (s ∷ ss) = All (Precedes s) ss × Sorted ss

rank-place : (s : Text) → rank s ≡ place s
unfolding rank rank_from
rank-place s = refl

leb-Precedes : (s t : Text) → suite_leb s t ≡ true → Precedes s t
unfolding suite_leb
leb-Precedes s t h = elim (or-cases (ltb (rank s) (rank t)) _ h) [
  | inl e ↦ inl (rw (← rank-place s) (rw (← rank-place t) (ground (arith, e))))
  | inr e ↦ inr (rw (← rank-place s) (rw (← rank-place t) (ground (arith, e))), ground (arith, e))
]

All-Precedes :
    (s : Text) (ts : List Text) → All (λ t. suite_leb s t ≡ true) ts → All (Precedes s) ts
All-Precedes s [] h = tt
All-Precedes s (t ∷ ts) h = (leb-Precedes s t h.0, All-Precedes s ts h.1)

InOrder-Sorted : (ss : List Text) → InOrder ss → Sorted ss
InOrder-Sorted [] h = tt
InOrder-Sorted (s ∷ ss) h = (All-Precedes s ss h.0, InOrder-Sorted ss h.1)

module _ (s : Text) where
  below :
      (t : Text) (ts : List Text)
      → suite_leb s t ≡ true
      → All (λ u. suite_leb t u ≡ true) ts
      → All (λ u. suite_leb s u ≡ true) ts
  below t [] h k = tt
  below t (u ∷ ts) h k = (suite_leb_trans s t u h k.0, below t ts h k.1)

  insert-All : (P : Text → Type 0) (ts : List Text) → P s → All P ts → All P (insert_suite s ts)
  unfolding insert_suite
  insert-All P [] h k = (h, tt)
  insert-All P (t ∷ ts) h k =
      if-holds (All P) (suite_leb s t) (λ e. (h, k)) λ e. (k.0, insert-All P ts h k.1)

  insert-InOrder : (ts : List Text) → InOrder ts → InOrder (insert_suite s ts)
  unfolding insert_suite
  insert-InOrder [] k = (tt, tt)
  insert-InOrder (t ∷ ts) k =
      if-holds InOrder (suite_leb s t) (λ e. ((e, below t ts e k.0), k))
        λ e. (
          insert-All (λ u. suite_leb t u ≡ true) ts (suite_leb_total s t e) k.0,
          insert-InOrder ts k.1,
        )

  insert-Perm : (ts : List Text) → Perm (insert_suite s ts) (s ∷ ts)
  unfolding insert_suite
  insert-Perm [] = Perm.refl (s ∷ [])
  insert-Perm (t ∷ ts) =
      if-holds (λ us. Perm us (s ∷ t ∷ ts)) (suite_leb s t) (λ e. Perm.refl (s ∷ t ∷ ts))
        λ e. Perm.trans (Perm.cons t (insert-Perm ts)) (Perm.swap s t ts)

order-Perm : (ss : List Text) → Perm (order_suites ss) ss
unfolding order_suites
order-Perm [] = Perm.refl []
order-Perm (s ∷ ss) = Perm.trans (insert-Perm s (order_suites ss)) (Perm.cons s (order-Perm ss))

order-InOrder : (ss : List Text) → InOrder (order_suites ss)
unfolding order_suites
order-InOrder [] = tt
order-InOrder (s ∷ ss) = insert-InOrder s (order_suites ss) (order-InOrder ss)

-- The suites of a job are those of its set, each as often as there, in the order base, "-updates",
-- "-security", "-backports" by the ends of their names, and by text among those of one kind.
pub order_suites-Sorted : (ss : List Text) → Perm (order_suites ss) ss × Sorted (order_suites ss)
order_suites-Sorted ss = (order-Perm ss, InOrder-Sorted (order_suites ss) (order-InOrder ss))
