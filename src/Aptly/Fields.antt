-- ===== src/Aptly/Fields.antt =====
-- Reading the fields of a payload: a value that is missing, or of another type, raises.
use aptly_gui.Prelude.{ℕ, Option, none, some, List, [], ◌∷◌, if◌then◌else◌}
use aptly_gui.Text.{Text, codes, truthy}
use aptly_gui.Json.{Json, Items, null, num, text, arr, get, nil, cons}
use aptly_gui.Exec.{Result, ok, raised, key_error, type_error}
use aptly_gui.Exec.Fallible.{◌>>=◌}

-- raw[key]
unfoldable pub index : Text → Json → Result Json
index key raw = elim (get key raw) [ none ↦ raised (key_error key) | some v ↦ ok v ]

unfoldable pub as_num : Json → Result ℕ
as_num (num n) = ok n
as_num _ = raised (type_error (codes "int"))

unfoldable pub as_text : Json → Result Text
as_text (text t) = ok t
as_text _ = raised (type_error (codes "str"))

abbrev pub index_num : Text → Json → Result ℕ
index_num key raw = do v ← index key raw; as_num v

abbrev pub index_text : Text → Json → Result Text
index_text key raw = do v ← index key raw; as_text v

-- The texts of a JSON array.
unfoldable pub text_items : Items → Result (List Text)
text_items nil = ok []
text_items (cons x xs) = do t ← as_text x; ts ← text_items xs; ok (t ∷ ts)

as_texts : Json → Result (List Text)
as_texts null = ok []
as_texts (arr xs) = text_items xs
as_texts _ = raised (type_error (codes "list"))

-- raw.get(key) or []
unfoldable pub get_texts : Text → Json → Result (List Text)
unfolding as_texts
get_texts key raw = elim (get key raw) [ none ↦ ok [] | some v ↦ as_texts v ]

as_optional_text : Json → Result (Option Text)
as_optional_text null = ok none
as_optional_text (text t) = ok (if truthy t then some t else none)
as_optional_text _ = raised (type_error (codes "str"))

-- raw.get(key) or None
unfoldable pub get_text : Text → Json → Result (Option Text)
unfolding as_optional_text
get_text key raw = elim (get key raw) [ none ↦ ok none | some v ↦ as_optional_text v ]
