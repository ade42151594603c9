-- ===== src/Jobs/Plan.antt =====
-- What a job will do, computed before it starts: the order of the suites, the mirrors' definitions,
-- the names of the snapshots and the number of steps.
pub mod Order
use aptly_gui.Prelude.{
  ℕ, ◌+◌, ◌*◌, ◌/◌, ◌%◌, Bool, false, ◌&&◌, ◌||◌, Option, none, some, List, [], ◌∷◌, ◌++◌, ltb,
  ◌==◌, if◌then◌else◌, length,
}
use aptly_gui.Text.{Text, codes, ends_with, truthy, text_leb}
use aptly_gui.Aptly.Models.{MirrorSpec}
use aptly_gui.Aptly.Client.{Moment}
use aptly_gui.Db.Models.{JobType, create, update, switch, MirrorSet, mirror_name}

abbrev pub output_tail : ℕ
output_tail = 4000

-- Two digits, as strftime prints them.
two : ℕ → Text
two n = (48 + n / 10 % 10) ∷ (48 + n % 10) ∷ []

-- strftime("%Y%m%dT%H%MZ")
unfoldable pub snapshot_stamp : Moment → Text
unfolding two
snapshot_stamp m =
    two (m.year / 100)
    ++ (two (m.year % 100)
        ++ (two m.month
            ++ (two m.day ++ (codes "T" ++ (two m.hour ++ (two m.minute ++ codes "Z"))))))

-- The index of the first marker that the suite ends with, 0 where none does; the first marker of
-- the source is empty and is passed over.
rank_from : ℕ → List Text → Text → ℕ
rank_from index [] suite = 0
rank_from index (marker ∷ markers) suite =
    let later = rank_from (index + 1) markers suite in
    if truthy marker && ends_with suite marker then index else later

abbrev suite_order_hint : List Text
suite_order_hint = codes "" ∷ codes "-updates" ∷ codes "-security" ∷ codes "-backports" ∷ []

unfoldable pub rank : Text → ℕ
unfolding rank_from
rank suite = rank_from 0 suite_order_hint suite

-- (rank, suite) <= (rank, suite)
unfoldable pub suite_leb : Text → Text → Bool
suite_leb s t = ltb (rank s) (rank t) || (rank s == rank t && text_leb s t)

insert_suite : Text → List Text → List Text
insert_suite s [] = s ∷ []
insert_suite s (t ∷ ts) =
    let rest = insert_suite s ts in if suite_leb s t then s ∷ t ∷ ts else t ∷ rest

-- sorted(suites, key=rank); suites with one key are one text, so any sort gives this list.
unfoldable pub order_suites : List Text → List Text
unfolding insert_suite
order_suites [] = []
order_suites (s ∷ ss) = insert_suite s (order_suites ss)

-- `bool(value)` of a text or None
abbrev pub is_set : Option Text → Bool
is_set none = false
is_set (some value) = truthy value

switch_steps : MirrorSet → ℕ
switch_steps s = length s.suites + (if is_set s.public_url then 2 else 1)

steps_of_type : JobType → MirrorSet → ℕ
unfolding switch_steps
steps_of_type create s = length s.suites * length s.components
steps_of_type update s = 1 + length s.suites * length s.components * 2
steps_of_type switch s = switch_steps s
steps_of_type _ s = 1

-- _expected_steps
unfoldable pub expected_steps : JobType → Option MirrorSet → ℕ
unfolding steps_of_type
expected_steps type none = 1
expected_steps type (some s) = steps_of_type type s

unfoldable pub discard_steps : ℕ → ℕ
discard_steps count = count + 1

unfoldable pub spec_for : MirrorSet → Text → Text → MirrorSpec
spec_for s suite component = record {
  name = mirror_name s suite component;
  archive_url = s.archive_url;
  distribution = suite;
  components = component ∷ [];
  architectures = s.architectures;
  keyrings = s.keyrings;
  filter = s.filter;
  filter_with_deps = false;
  download_sources = false;
  download_udebs = false;
  ignore_signatures = false;
}
