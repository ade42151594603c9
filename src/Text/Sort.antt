-- ===== src/Text/Sort.antt =====
-- sorted(...) of texts, and the elements of a set of them.
use mathlib.Core.List.{Perm}
use mathlib.Core.List.Perm
use aptly_gui.Prelude.{List, [], ◌∷◌, if◌then◌else◌, if-holds}
use aptly_gui.Text.{Text, mem, text_leb}

unfoldable pub insert_text : Text → List Text → List Text
insert_text s [] = s ∷ []
insert_text s (t ∷ ts) =
    let rest = insert_text s ts in if text_leb s t then s ∷ t ∷ ts else t ∷ rest

unfoldable pub sort_texts : List Text → List Text
unfolding insert_text
sort_texts [] = []
sort_texts (s ∷ ss) = insert_text s (sort_texts ss)

unfoldable pub distinct : List Text → List Text
distinct [] = []
distinct (s ∷ ss) = let rest = distinct ss in if mem s ss then rest else s ∷ rest

insert-Perm : (s : Text) (ts : List Text) → Perm (insert_text s ts) (s ∷ ts)
unfolding insert_text
insert-Perm s [] = Perm.refl (s ∷ [])
insert-Perm s (t ∷ ts) =
    if-holds (λ us. Perm us (s ∷ t ∷ ts)) (text_leb s t) (λ e. Perm.refl (s ∷ t ∷ ts))
      λ e. Perm.trans (Perm.cons t (insert-Perm s ts)) (Perm.swap s t ts)

pub sort-Perm : (ss : List Text) → Perm (sort_texts ss) ss
unfolding sort_texts
sort-Perm [] = Perm.refl []
sort-Perm (s ∷ ss) = Perm.trans (insert-Perm s (sort_texts ss)) (Perm.cons s (sort-Perm ss))
