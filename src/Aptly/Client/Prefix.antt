-- ===== src/Aptly/Client/Prefix.antt =====
-- encode_prefix of src/aptly_gui/aptly/client.py: a publish prefix as it stands in the path of a URL.
use aptly_gui.Prelude.{ℕ, Bool, [], ◌∷◌, ◌==◌, if◌then◌else◌}
use aptly_gui.Text.{Text, codes, mem, strip_by, replace}

abbrev is_slash : ℕ → Bool
is_slash c = c == b'/'

unfoldable pub encode_prefix : Text → Text
unfolding mem strip_by replace
encode_prefix prefix =
    if mem prefix (codes "" ∷ codes "." ∷ codes "/" ∷ [])
    then codes ":."
    else replace b'/' (codes "_") (replace b'_' (codes "__") (strip_by is_slash prefix))
