-- ===== src/Text/Laws.antt =====
-- Laws of the text operations: the tests decide what they say.
use aptly_gui.Prelude.{
  ℕ, ◌+◌, ◌-◌, ◌≡◌, refl, sym, ap, ◌↔◌, ◌⊎◌, inl, inr, true, ◌||◌, List, [], ◌∷◌, ◌++◌, arith,
  or-cases, length, take, drop, length-append, take-append-drop, take-append, drop-append,
}
use aptly_gui.Text.{
  Text, same, mem, starts_with, ends_with, drop_end, strip, strip_by, lstrip_by, is_space,
}

pub same_refl : (s : Text) → same s s ≡ true
unfolding same
same_refl [] = refl
same_refl (c ∷ s) = ground (arith, same_refl s)

pub same→eq : (s t : Text) → same s t ≡ true → s ≡ t
unfolding same
same→eq [] [] h = refl
same→eq [] (d ∷ t) h = cc
same→eq (c ∷ s) [] h = cc
same→eq (c ∷ s) (d ∷ t) h = ground (arith, same→eq s t)

pub same_iff : (s t : Text) → (same s t ≡ true) ↔ (s ≡ t)
same_iff s t = (same→eq s t, λ e. rw (← e) (same_refl s))

-- A text that starts with `t` is `t` and a rest.
pub starts_with→append : (s t : Text) → starts_with s t ≡ true → s ≡ t ++ drop (length t) s
unfolding starts_with
starts_with→append s [] h = refl
starts_with→append [] (d ∷ t) h = cc
starts_with→append (c ∷ s) (d ∷ t) h = ground (arith, starts_with→append s t)

pub starts_with-append : (s t : Text) → starts_with (s ++ t) s ≡ true
unfolding starts_with
starts_with-append [] t = refl
starts_with-append (c ∷ s) t = ground (arith, starts_with-append s t)

pub starts_with_refl : (s : Text) → starts_with s s ≡ true
unfolding starts_with
starts_with_refl [] = refl
starts_with_refl (c ∷ s) = ground (arith, starts_with_refl s)

-- A text that ends with `t` is a front and `t`, and `drop_end` is the front.
pub ends_with→append : (s t : Text) → ends_with s t ≡ true → drop_end s t ++ t ≡ s
unfolding ends_with drop_end
ends_with→append s t h =
    let n : ℕ = length s - length t in
    let e : drop n s ≡ t = same→eq _ t (ground arith) in
    rw (ap (λ u. take n s ++ u) (sym e)) (take-append-drop n s)

-- `(a + b) - b`, as it stands in the tests on suffixes.
pub add-sub_cancel : (a b : ℕ) → a + b - b ≡ a
add-sub_cancel a b = omega arith

pub drop_end-append : (s t : Text) → drop_end (s ++ t) t ≡ s
unfolding drop_end
drop_end-append s t =
    rw (length-append s t) (rw (add-sub_cancel (length s) (length t)) (take-append s t))

pub ends_with-append : (s t : Text) → ends_with (s ++ t) t ≡ true
unfolding ends_with
ends_with-append s t = rw (length-append s t) (
    rw (add-sub_cancel (length s) (length t))
      (rw (drop-append s t) (rw (same_refl t) (ground arith))))

-- Membership among names, in the form of a split.
pub mem-cons : (s t : Text) (ts : List Text) → mem s (t ∷ ts) ≡ true → (s ≡ t) ⊎ (mem s ts ≡ true)
unfolding mem
mem-cons s t ts h = elim (or-cases (same s t) (mem s ts) h) [
  | inl e ↦ inl (same→eq s t e)
  | inr m ↦ inr m
]

pub mem-here : (s : Text) (ts : List Text) → mem s (s ∷ ts) ≡ true
unfolding mem
mem-here s ts = rw (same_refl s) refl

pub mem-there : (s t : Text) (ts : List Text) → mem s ts ≡ true → mem s (t ∷ ts) ≡ true
unfolding mem
mem-there s t ts h = ground arith

pub mem-append : (s : Text) (xs ys : List Text) → mem s (xs ++ ys) ≡ (mem s xs || mem s ys)
unfolding mem
mem-append s [] ys = refl
mem-append s (x ∷ xs) ys = ground (arith, mem-append s xs ys)

-- A blank before a text is stripped with the rest.
pub strip-blank : (s : Text) → strip (32 ∷ s) ≡ strip s
unfolding strip strip_by lstrip_by is_space
strip-blank s = refl
