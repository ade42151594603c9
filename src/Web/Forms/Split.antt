-- ===== src/Web/Forms/Split.antt =====
-- A list that a form shows, joined by ", ", is the list that is read back from it.
use aptly_gui.Prelude.{
  ℕ, ◌≡◌, refl, sym, ap, ◌∙◌, Bool, true, false, none, some, List, [], ◌∷◌, ◌++◌, map, filter,
  append-nil, ◌==◌, All,
}
use aptly_gui.Text.{Text, codes, same, truthy, strip, strip_by, rstrip_by, lstrip_by, replace, join}
use aptly_gui.Text.Laws.{strip-blank}
use aptly_gui.Services.Presets.{Preset, as_form, listed}
use aptly_gui.Services.Naming.{default_pattern}
use aptly_gui.Web.Forms.{
  comma, line_feed, grow, split_at, split, new_form, set_of_form, valid_pattern,
}

-- An entry that a list field can hold: it is not empty, has no blanks at its ends, and no separator.
pub record Clean (t : Text) : Type 0 where
  pub full : truthy t ≡ true
  pub trimmed : strip t ≡ t
  pub plain : All (λ c. ((c == comma) ≡ false) × ((c == line_feed) ≡ false)) t

-- The characters of `s` before the first of the parts.
glue : Text → List Text → List Text
glue [] parts = parts
glue (c ∷ s) parts = grow c (glue s parts)

glue-first : (s : Text) (parts : List Text) → glue s ([] ∷ parts) ≡ s ∷ parts
unfolding glue
glue-first [] parts = refl
glue-first (c ∷ s) parts = rw (glue-first s parts) refl

split_at-append :
    (s r : Text)
    → All (λ c. ((c == comma) ≡ false) × ((c == line_feed) ≡ false)) s
    → split_at comma (s ++ r) ≡ glue s (split_at comma r)
unfolding split_at glue
split_at-append [] r h = refl
split_at-append (c ∷ s) r h = rw (h.0.0, split_at-append s r h.1) refl

replace-append :
    (s r : Text)
    → All (λ c. ((c == comma) ≡ false) × ((c == line_feed) ≡ false)) s
    → replace line_feed (codes ",") (s ++ r) ≡ s ++ replace line_feed (codes ",") r
unfolding replace
replace-append [] r h = refl
replace-append (c ∷ s) r h = rw (h.0.1, replace-append s r h.1) refl

-- The parts of a list, as the comma separates them.
spaced : List Text → List Text
spaced [] = [] ∷ []
spaced (t ∷ ts) = t ∷ map (λ u. 32 ∷ u) ts

grow-spaced : (t : Text) (ts : List Text) → grow 32 (spaced (t ∷ ts)) ≡ map (λ u. 32 ∷ u) (t ∷ ts)
unfolding spaced
grow-spaced t ts = refl

split_at-join :
    (ts : List Text)
    → All Clean ts
    → split_at comma (replace line_feed (codes ",") (listed ts)) ≡ spaced ts
unfolding spaced split_at replace join
split_at-join [] h = refl
split_at-join (t ∷ []) h =
    ap (λ r. split_at comma (replace line_feed (codes ",") r)) (sym (append-nil t))
    ∙ ap (split_at comma) (replace-append t [] h.0.plain)
    ∙ split_at-append t [] h.0.plain
    ∙ glue-first t []
split_at-join (t ∷ u ∷ ts) h =
    ap (split_at comma) (replace-append t (44 ∷ 32 ∷ listed (u ∷ ts)) h.0.plain)
    ∙ split_at-append t _ h.0.plain
    ∙ ap (λ parts. glue t ([] ∷ grow 32 parts)) (split_at-join (u ∷ ts) h.1)
    ∙ glue-first t _

filter-spaced :
    (ts : List Text) → All Clean ts → filter truthy (map strip (map (λ u. 32 ∷ u) ts)) ≡ ts
filter-spaced [] h = refl
filter-spaced (t ∷ ts) h = rw (strip-blank t, h.0.trimmed, h.0.full, filter-spaced ts h.1) refl

-- The entries of a list field are read back from the text that a form shows for them.
split-listed : (ts : List Text) → All Clean ts → split (listed ts) ≡ ts
unfolding split spaced strip strip_by rstrip_by lstrip_by
split-listed ts h = ap (λ parts. filter truthy (map strip parts)) (split_at-join ts h) ∙ read ts h
  where
    read : (us : List Text) → All Clean us → filter truthy (map strip (spaced us)) ≡ us
    read [] k = refl
    read (u ∷ us) k = rw (k.0.trimmed, k.0.full, filter-spaced us k.1) refl

-- A preset whose lists can be held by the fields of a form.
pub record CleanLists (p : Preset) : Type 0 where
  pub suites : All Clean p.suites
  pub components : All Clean p.components
  pub architectures : All Clean p.architectures
  pub keyrings : All Clean p.keyrings

-- A form that a preset fills, sent unchanged, describes a set with the name, the archive, the suites,
-- the components, the architectures, the keyrings and the prefix of the preset, with the default
-- pattern and with no filter, signing key, endpoint or public URL, for every preset whose list
-- entries are not empty and have no separator and no blanks at their ends.
pub new_form-set_of_form :
    (id : ℕ) (adopted : Bool) (p : Preset)
    → CleanLists p
    → set_of_form id adopted (new_form (some p)) ≡ record {
      id = id;
      name = p.name;
      archive_url = p.archive_url;
      suites = p.suites;
      components = p.components;
      architectures = p.architectures;
      keyrings = p.keyrings;
      filter = none;
      publish_prefix = p.publish_prefix;
      publish_endpoint = none;
      public_url = none;
      mirror_pattern = default_pattern;
      signing_key = none;
      adopted = adopted;
    }
unfolding set_of_form new_form as_form valid_pattern same rstrip_by lstrip_by
new_form-set_of_form id adopted p h =
    rw
      (
        split-listed p.suites h.suites,
        split-listed p.components h.components,
        split-listed p.architectures h.architectures,
        split-listed p.keyrings h.keyrings,
      )
      refl
