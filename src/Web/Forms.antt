-- ===== src/Web/Forms.antt =====
-- The forms of web/app.py that describe a mirror set, and how their fields are read: _split,
-- _valid_pattern, _blank_form and the constructor calls of new_set_submit and adopt_submit.
pub mod Split
use aptly_gui.Prelude.{
  ℕ, ◌+◌, max, Bool, true, false, Option, none, some, List, [], ◌∷◌, map, filter, ◌==◌,
  if◌then◌else◌,
}
use aptly_gui.Text.{Text, codes, same, truthy, strip, replace, rstrip_by}
use aptly_gui.Db.Models.{MirrorSet}
use aptly_gui.Services.Presets.{Preset, as_form}
use aptly_gui.Services.Naming.{Pattern, set_suite_component, suite_component, pattern_text}

pub record SetForm : Type 0 where
  pub name : Text
  pub archive_url : Text
  pub suites : Text
  pub components : Text
  pub architectures : Text
  pub publish_prefix : Text
  pub keyrings : Text
  pub signing_key : Text
  pub filter : Text
  pub publish_endpoint : Text
  pub public_url : Text
  pub mirror_pattern : Text

abbrev pub blank_form : SetForm
blank_form = record {
  name = [];
  archive_url = [];
  suites = [];
  components = [];
  architectures = codes "amd64";
  publish_prefix = [];
  keyrings = [];
  signing_key = [];
  filter = [];
  publish_endpoint = [];
  public_url = [];
  mirror_pattern = pattern_text set_suite_component;
}

-- {**_blank_form(), **(chosen.as_form() if chosen else {})} of new_set_form
unfoldable pub new_form : Option Preset → SetForm
unfolding as_form
new_form none = blank_form
new_form (some chosen) =
    let filled = as_form chosen in
    record blank_form {
      name = filled.name;
      archive_url = filled.archive_url;
      suites = filled.suites;
      components = filled.components;
      architectures = filled.architectures;
      keyrings = filled.keyrings;
      publish_prefix = filled.publish_prefix;
      signing_key = filled.signing_key;
      filter = filled.filter;
    }

abbrev pub comma : ℕ
comma = 44

abbrev pub line_feed : ℕ
line_feed = 10

-- One more character of the part that is being read.
abbrev pub grow : ℕ → List Text → List Text
grow c [] = (c ∷ []) ∷ []
grow c (part ∷ parts) = (c ∷ part) ∷ parts

-- value.split(chr(sep))
unfoldable pub split_at : ℕ → Text → List Text
split_at sep [] = [] ∷ []
split_at sep (c ∷ s) = let rest = split_at sep s in if c == sep then [] ∷ rest else grow c rest

-- _split
unfoldable pub split : Text → List Text
split value = filter truthy (map strip (split_at comma (replace line_feed (codes ",") value)))

-- _valid_pattern, with the two patterns of PATTERNS
unfoldable pub valid_pattern : Text → Pattern
valid_pattern value =
    if same value (pattern_text suite_component) then suite_component else set_suite_component

-- `value or None`
abbrev pub or_none : Text → Option Text
or_none [] = none
or_none (c ∷ s) = some (c ∷ s)

-- The key that the database gives to a new row: one more than the largest.
unfoldable pub next_mirror_set_id : List MirrorSet → ℕ
next_mirror_set_id [] = 1
next_mirror_set_id (m ∷ sets) = max (m.id + 1) (next_mirror_set_id sets)

abbrev is_slash : ℕ → Bool
is_slash c = c == 47

-- MirrorSet(...) of the two pages
unfoldable pub set_of_form : ℕ → Bool → SetForm → MirrorSet
set_of_form id adopted form = record {
  id = id;
  name = form.name;
  archive_url = form.archive_url;
  suites = split form.suites;
  components = split form.components;
  architectures = split form.architectures;
  keyrings = split form.keyrings;
  filter = or_none form.filter;
  publish_prefix = form.publish_prefix;
  publish_endpoint = or_none form.publish_endpoint;
  public_url = or_none (rstrip_by is_slash form.public_url);
  mirror_pattern = valid_pattern form.mirror_pattern;
  signing_key = or_none form.signing_key;
  adopted = adopted;
}
