-- ===== src/Services/Naming.antt =====
-- src/aptly_gui/services/naming.py: how a set's mirrors are named, and back.
-- The pattern strings of the program are the two of PATTERNS: `_valid_pattern` of web/app.py, the
-- default and `Split` bring in no other, so a pattern is a value of a type of two.
pub mod RoundTrip
use aptly_gui.Prelude.{Option, none, some, List, [], ◌∷◌, ◌++◌, if◌then◌else◌}
use aptly_gui.Aptly.Models.{Mirror}
use aptly_gui.Text.{Text, codes, same, ends_with, drop_end, truthy}

pub data Pattern : Type 0 where
  set_suite_component suite_component : Pattern

-- The text of a pattern, as it is stored.
abbrev pub pattern_text : Pattern → Text
pattern_text set_suite_component = codes "{set}-{suite}-{component}"
pattern_text suite_component = codes "{suite}-{component}"

abbrev pub default_pattern : Pattern
default_pattern = set_suite_component

-- pattern.format(set=set_name, suite=suite, component=component)
unfoldable pub mirror_name : Pattern → Text → Text → Text → Text
mirror_name set_suite_component set_name suite component =
    set_name ++ (codes "-" ++ (suite ++ (codes "-" ++ component)))
mirror_name suite_component set_name suite component = suite ++ (codes "-" ++ component)

pub record Split : Type 0 where
  pub set_name : Text
  pub suite : Text
  pub component : Text
  pub pattern : Pattern

abbrev suite_markers : List Text
suite_markers = codes "-updates" ∷ codes "-security" ∷ codes "-backports" ∷ codes "-proposed" ∷ []

stem_by : List Text → Text → Text
stem_by [] suite = suite
stem_by (marker ∷ markers) suite =
    let rest = stem_by markers suite in
    if ends_with suite marker then drop_end suite marker else rest

unfoldable pub suite_stem : Text → Text
unfolding stem_by
suite_stem suite = stem_by suite_markers suite

-- `set_name or suite_stem(suite)`
unfoldable pub set_name_or_stem : Option Text → Text → Text
set_name_or_stem none suite = suite_stem suite
set_name_or_stem (some name) suite = if truthy name then name else suite_stem suite

-- The second half of the function, after the attempt at a set prefix.
unfoldable pub split_without_set : Text → Text → Text → Option Text → Option Split
split_without_set name suite component set_name =
    if same name (suite ++ (codes "-" ++ component))
    then some (record {
      set_name = set_name_or_stem set_name suite;
      suite = suite;
      component = component;
      pattern = suite_component;
    })
    else none

abbrev pub with_set : Text → Text → Text → Split
with_set name suite component = record {
  set_name = drop_end name (codes "-" ++ (suite ++ (codes "-" ++ component)));
  suite = suite;
  component = component;
  pattern = set_suite_component;
}

unfoldable pub split_single : Text → Text → Text → Option Text → Option Split
unfolding split_without_set
split_single name suite component set_name =
    let suffix = codes "-" ++ (suite ++ (codes "-" ++ component)) in
    if ends_with name suffix
    then (if truthy (drop_end name suffix)
        then some (with_set name suite component)
        else split_without_set name suite component set_name)
    else split_without_set name suite component set_name

unfoldable pub split_components : Text → Text → List Text → Option Text → Option Split
split_components name suite (component ∷ []) set_name = split_single name suite component set_name
split_components name suite _ set_name = none

unfoldable pub split_mirror_name : Mirror → Option Text → Option Split
unfolding split_components
split_mirror_name mirror set_name =
    split_components mirror.name mirror.distribution mirror.components set_name
