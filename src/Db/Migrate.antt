-- ===== src/Db/Migrate.antt =====
-- detect_revision of src/aptly_gui/db/migrate.py: the revision that a schema without one has reached.
-- The inspector and alembic stay outside: a schema is the tables that it reports, with their columns.
use aptly_gui.Prelude.{
  ◌≡◌, refl, Bool, true, false, Option, none, some, List, [], ◌∷◌, ◌++◌, if◌then◌else◌, if-holds,
  All, ap,
}
use aptly_gui.Text.{Text, codes, mem}
use aptly_gui.Dict.{Dict, lookup}

abbrev pub Schema : Type 0
Schema = Dict (List Text)

pub record Marker : Type 0 where
  pub revision : Text
  pub table : Text
  pub column : Option Text

abbrev marker : Text → Text → Option Text → Marker
marker revision table column = record { revision = revision; table = table; column = column }

abbrev adoption_markers : List Marker
adoption_markers =
    marker (codes "acaffe887f68") (codes "mirror_sets") none
    ∷ marker (codes "1d98f4a90784") (codes "job_steps") (some (codes "total_bytes"))
    ∷ marker (codes "2595a4d32cad") (codes "jobs") (some (codes "expected_steps"))
    ∷ marker (codes "f8cd439d47f7") (codes "users") none
    ∷ marker (codes "a2df56007c76") (codes "mirror_sets") (some (codes "mirror_pattern"))
    ∷ []

has_column : Option Text → Option (List Text) → Bool
has_column column none = false
has_column none (some columns) = true
has_column (some column) (some columns) = mem column columns

-- The two tests of the loop, each of which breaks it where it fails.
unfoldable pub reached : Schema → Marker → Bool
unfolding has_column
reached schema m = has_column m.column (lookup m.table schema)

unfoldable pub matched_in : Schema → Option Text → List Marker → Option Text
matched_in schema matched [] = matched
matched_in schema matched (m ∷ markers) =
    let rest = matched_in schema (some m.revision) markers in
    if reached schema m then rest else matched

unfoldable pub detect_revision : Schema → Option Text
unfolding matched_in
detect_revision schema = matched_in schema none adoption_markers

-- The revision of the last marker of a list, or an earlier one.
abbrev last_revision : Option Text → List Marker → Option Text
last_revision matched [] = matched
last_revision matched (m ∷ markers) = last_revision (some m.revision) markers

-- The first marker of a list, where there is one, is not reached.
abbrev Stops : Schema → List Marker → Type 0
Stops schema [] = Unit
Stops schema (m ∷ markers) = reached schema m ≡ false

-- `found` is the last marker of those that the schema reaches one after the other.
abbrev Longest : Schema → Option Text → List Marker → Option Text → Type 0
Longest schema matched markers found =
    (before : List Marker) × (after : List Marker) × (markers ≡ before ++ after)
    × All (λ m. reached schema m ≡ true) before
    × Stops schema after
    × (found ≡ last_revision matched before)

matched_in-Longest :
    (schema : Schema) (matched : Option Text) (markers : List Marker)
    → Longest schema matched markers (matched_in schema matched markers)
unfolding matched_in
matched_in-Longest schema matched [] = ([], [], refl, tt, tt, refl)
matched_in-Longest schema matched (m ∷ markers) =
    if-holds (Longest schema matched (m ∷ markers)) (reached schema m)
      (λ e.
        let (before, after, split, all, stops, last) =
          matched_in-Longest schema (some m.revision) markers in
        (m ∷ before, after, ap (λ ms. m ∷ ms) split, (e, all), stops, last))
      λ e. ([], m ∷ markers, refl, tt, e, refl)

-- A schema without a revision is taken to be at the last marker of the longest run of markers, from
-- the oldest on, that it reaches: every marker up to that one is there, and the next one is not.
detect_revision-Longest :
    (schema : Schema) → Longest schema none adoption_markers (detect_revision schema)
unfolding detect_revision
detect_revision-Longest schema = matched_in-Longest schema none adoption_markers
