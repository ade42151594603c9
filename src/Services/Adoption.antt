-- ===== src/Services/Adoption.antt =====
-- src/aptly_gui/services/adoption.py: existing mirrors of aptly, grouped into sets to adopt.
pub mod Accounted
use aptly_gui.Prelude.{
  ℕ, ◌*◌, Bool, true, false, ◌||◌, ◌&&◌, not, Option, none, some, List, [], ◌∷◌, ◌++◌, map, length,
  any, filter, ◌==◌, ltb, leb, ◌+◌, if◌then◌else◌,
}
use aptly_gui.Text.{Text, codes, same, mem, contains, text_leb}
use aptly_gui.Text.Sort.{sort_texts, distinct}
use aptly_gui.Aptly.Models.{Mirror, Published, PublishedSource}
use aptly_gui.Services.Naming.{Pattern, pattern_text, mirror_name, Split, split_mirror_name}

pub record Member : Type 0 where
  pub mirror : Mirror
  pub split : Split

-- One entry of `grouped`: its key and its list.
pub record Group : Type 0 where
  pub name : Text
  pub archive_url : Text
  pub pattern : Pattern
  pub members : List Member

pub record Proposal : Type 0 where
  pub name : Text
  pub archive_url : Text
  pub suites : List Text
  pub components : List Text
  pub architectures : List Text
  pub mirrors : List Text
  pub filter : Option Text
  pub publish_prefix : Option Text
  pub keyring_guess : Option Text
  pub pattern : Pattern
  pub inconsistent : List Text

unfoldable pub names_of_suite : Proposal → Text → List Text → List Text
names_of_suite p suite [] = []
names_of_suite p suite (c ∷ cs) = mirror_name p.pattern p.name suite c ∷ names_of_suite p suite cs

unfoldable pub names_of_suites : Proposal → List Text → List Text
names_of_suites p [] = []
names_of_suites p (suite ∷ suites) = names_of_suite p suite p.components ++ names_of_suites p suites

-- Proposal.complete and Proposal.missing
unfoldable pub is_complete : Proposal → Bool
is_complete p = length p.mirrors == length p.suites * length p.components

unfoldable pub missing : Proposal → List Text
missing p =
    sort_texts (distinct (filter (λ name. not (mem name p.mirrors)) (names_of_suites p p.suites)))

unfoldable pub same_key : Text → Text → Pattern → Group → Bool
same_key name url pattern g =
    same g.name name
    && (same g.archive_url url && same (pattern_text g.pattern) (pattern_text pattern))

-- grouped[key].append(member)
unfoldable pub add_member : Member → List Group → List Group
add_member m [] =
    record {
      name = m.split.set_name;
      archive_url = m.mirror.archive_url;
      pattern = m.split.pattern;
      members = m ∷ [];
    }
    ∷ []
add_member m (g ∷ gs) =
    let rest = add_member m gs in
    if same_key m.split.set_name m.mirror.archive_url m.split.pattern g
    then record g { members = g.members ++ m ∷ [] } ∷ gs
    else g ∷ rest

-- What the loop over the mirrors has collected.
pub record Collected : Type 0 where
  pub groups : List Group
  pub leftovers : List Mirror

unfoldable pub collect_one : Mirror → Option Split → Collected → Collected
collect_one m none c = record c { leftovers = c.leftovers ++ m ∷ [] }
collect_one m (some s) c = record c {
  groups = add_member (record { mirror = m; split = s }) c.groups;
}

unfoldable pub collect : List Text → List Mirror → Collected → Collected
collect managed [] c = c
collect managed (m ∷ ms) c =
    collect managed ms
      (if mem m.name managed then c else collect_one m (split_mirror_name m none) c)

-- (name, archive_url, pattern) <= (name, archive_url, pattern)
abbrev pub text_ltb : Text → Text → Bool
text_ltb s t = text_leb s t && not (same s t)

unfoldable pub key_leb : Group → Group → Bool
key_leb g h =
    text_ltb g.name h.name
    || (same g.name h.name
        && (text_ltb g.archive_url h.archive_url
            || (same g.archive_url h.archive_url
                && text_leb (pattern_text g.pattern) (pattern_text h.pattern))))

unfoldable pub insert_group : Group → List Group → List Group
insert_group g [] = g ∷ []
insert_group g (h ∷ hs) =
    let rest = insert_group g hs in if key_leb g h then g ∷ h ∷ hs else h ∷ rest

unfoldable pub sort_groups : List Group → List Group
unfolding insert_group
sort_groups [] = []
sort_groups (g ∷ gs) = insert_group g (sort_groups gs)

-- candidates.pop() if len(candidates) == 1 else None
abbrev pub only : {A : Type 0} → List A → Option A
only (a ∷ []) = some a
only _ = none

unfoldable pub lines_up : List Text → List Text → Published → Bool
lines_up suites components p =
    mem p.distribution suites && any (λ (s : PublishedSource). mem s.component components) p.sources

unfoldable pub guess_prefix : List Text → List Text → List Published → Option Text
guess_prefix suites components published =
    only (distinct (map (λ p. p.prefix) (filter (lines_up suites components) published)))

-- str.lower() of one character, as far as the two names searched for can tell
unfoldable pub lower : ℕ → ℕ
lower c = if leb 65 c && leb c 90 then c + 32 else c

unfoldable pub guess_keyring : Text → Option Text
guess_keyring archive_url =
    let lowered = map lower archive_url in
    if contains lowered (codes "ubuntu")
    then some (codes "/usr/share/keyrings/ubuntu-archive-keyring.gpg")
    else if contains lowered (codes "debian")
    then some (codes "/usr/share/keyrings/debian-archive-keyring.gpg")
    else none

unfoldable pub same_filter : Option Text → Option Text → Bool
same_filter none none = true
same_filter (some s) (some t) = same s t
same_filter _ _ = false

-- The set of the members' filters.
unfoldable pub distinct_filters : List Member → List (Option Text)
distinct_filters [] = []
distinct_filters (m ∷ ms) =
    let rest = distinct_filters ms in
    if any (same_filter m.mirror.filter) rest then rest else m.mirror.filter ∷ rest

abbrev pub architectures_of : List Member → List Text
architectures_of [] = []
architectures_of (m ∷ ms) = m.mirror.architectures ++ architectures_of ms

abbrev pub member_names : List Member → List Text
member_names [] = []
member_names (m ∷ ms) = m.mirror.name ∷ member_names ms

abbrev pub common_filter : List (Option Text) → Option Text
common_filter (f ∷ []) = f
common_filter _ = none

-- _build
unfoldable pub build : List Published → Group → Proposal
build published g =
    let suites = sort_texts (distinct (map (λ (m : Member). m.split.suite) g.members)) in
    let components = sort_texts (distinct (map (λ (m : Member). m.split.component) g.members)) in
    let filters = distinct_filters g.members in
    record {
      name = g.name;
      archive_url = g.archive_url;
      suites = suites;
      components = components;
      architectures = sort_texts (distinct (architectures_of g.members));
      mirrors = sort_texts (member_names g.members);
      filter = common_filter filters;
      publish_prefix = guess_prefix suites components published;
      keyring_guess = guess_keyring g.archive_url;
      pattern = g.pattern;
      inconsistent = if ltb 1 (length filters) then codes "filter" ∷ [] else [];
    }

abbrev pub nothing_yet : Collected
nothing_yet = record { groups = []; leftovers = [] }

unfoldable pub propose_sets : List Text → List Mirror → List Published → List Proposal × List Mirror
propose_sets managed mirrors published =
    let c = collect managed mirrors nothing_yet in
    (map (build published) (sort_groups c.groups), c.leftovers)
