-- ===== src/Aptly/Models.antt =====
-- src/aptly_gui/aptly/models.py: what aptly reports, and what is sent to it.
-- A value of a JSON type that aptly does not document for its field raises here, at the parse.
pub mod Payloads
use aptly_gui.Prelude.{
  ℕ, zero, suc, ◌-◌, ◌*◌, ◌/◌, min, Bool, true, false, Option, none, some, List, [], ◌∷◌, ◌++◌, map,
  ◌==◌, if◌then◌else◌, find,
}
use aptly_gui.Text.{Text, codes, same, truthy}
use aptly_gui.Json.{Json, Items, null, bool, num, text, arr, get, fields, texts, nil, cons}
use aptly_gui.Exec.{Result, ok, raised, value_error, key_error, type_error}
use aptly_gui.Exec.Fallible.{◌>>=◌}
use aptly_gui.Aptly.Fields.{index, as_num, as_text, index_num, index_text, get_texts, get_text}

pub data TaskState : Type 0 where
  queued running succeeded failed : TaskState

abbrev pub finished : TaskState → Bool
finished succeeded = true
finished failed = true
finished _ = false

pub record Task : Type 0 where
  pub id : ℕ
  pub name : Text
  pub state : TaskState

pub record TaskProgress : Type 0 where
  pub total_bytes : ℕ
  pub remaining_bytes : ℕ
  pub total_packages : ℕ
  pub remaining_packages : ℕ

pub record Storage : Type 0 where
  pub total_mb : ℕ
  pub free_mb : ℕ
  pub percent_full : Json

pub record MirrorSpec : Type 0 where
  pub name : Text
  pub archive_url : Text
  pub distribution : Text
  pub components : List Text
  pub architectures : List Text
  pub keyrings : List Text
  pub filter : Option Text
  pub filter_with_deps : Bool
  pub download_sources : Bool
  pub download_udebs : Bool
  pub ignore_signatures : Bool

-- `last_download` is kept as the text that `_parse_time` would read, or none.
pub record Mirror : Type 0 where
  pub name : Text
  pub archive_url : Text
  pub distribution : Text
  pub components : List Text
  pub architectures : List Text
  pub filter : Option Text
  pub last_download : Option Text

pub record Snapshot : Type 0 where
  pub name : Text
  pub created_at : Option Text
  pub description : Text

pub record PublishedSource : Type 0 where
  pub component : Text
  pub name : Text

pub record Published : Type 0 where
  pub prefix : Text
  pub distribution : Text
  pub architectures : List Text
  pub sources : List PublishedSource

pub record Signing : Type 0 where
  pub gpg_key : Option Text
  pub keyring : Option Text
  pub passphrase : Option Text
  pub skip : Bool

-- TaskState(n)
unfoldable pub task_state : ℕ → Result TaskState
task_state zero = ok queued
task_state (suc zero) = ok running
task_state (suc (suc zero)) = ok succeeded
task_state (suc (suc (suc zero))) = ok failed
task_state (suc (suc (suc (suc n)))) = raised (value_error (codes "not a valid TaskState"))

unfoldable pub parse_task : Json → Result Task
parse_task raw = do
  id ← index_num (codes "ID") raw
  name ← index_text (codes "Name") raw
  n ← index_num (codes "State") raw
  state ← task_state n
  ok (record { id = id; name = name; state = state })

-- `not raw or "TotalDownloadSize" not in raw` is no progress.
unfoldable pub parse_task_progress : Json → Result (Option TaskProgress)
parse_task_progress raw = elim (get (codes "TotalDownloadSize") raw) [
  | none ↦ ok none
  | some total ↦ do
    total_bytes ← as_num total
    remaining_bytes ← index_num (codes "RemainingDownloadSize") raw
    total_packages ← index_num (codes "TotalNumberOfPackages") raw
    remaining_packages ← index_num (codes "RemainingNumberOfPackages") raw
    ok (
        some (record {
          total_bytes = total_bytes;
          remaining_bytes = remaining_bytes;
          total_packages = total_packages;
          remaining_packages = remaining_packages;
        }))
]

-- max(0, total - remaining)
unfoldable pub downloaded_bytes : TaskProgress → ℕ
downloaded_bytes p = p.total_bytes - p.remaining_bytes

unfoldable pub done_packages : TaskProgress → ℕ
done_packages p = p.total_packages - p.remaining_packages

-- TaskProgress.percent, rounded down
unfoldable pub percent : TaskProgress → ℕ
percent p =
    if p.total_bytes == 0
    then (if p.remaining_packages == 0 then 100 else 0)
    else min 100 (100 * downloaded_bytes p / p.total_bytes)

unfoldable pub parse_storage : Json → Result Storage
parse_storage raw = do
  total_mb ← index_num (codes "Total") raw
  free_mb ← index_num (codes "Free") raw
  percent_full ← index (codes "PercentFull") raw
  ok (record { total_mb = total_mb; free_mb = free_mb; percent_full = percent_full })

abbrev never : Text
never = codes "0001-01-01T00:00:00Z"

-- `not value or value == _NEVER`, else the time itself.
unfoldable pub parse_time : Option Text → Option Text
parse_time none = none
parse_time (some value) = if same value never then none else some value

unfoldable pub parse_mirror : Json → Result Mirror
parse_mirror raw = do
  name ← index_text (codes "Name") raw
  archive_url ← index_text (codes "ArchiveRoot") raw
  distribution ← index_text (codes "Distribution") raw
  components ← get_texts (codes "Components") raw
  architectures ← get_texts (codes "Architectures") raw
  filter ← get_text (codes "Filter") raw
  last_download ← get_text (codes "LastDownloadDate") raw
  ok (record {
    name = name;
    archive_url = archive_url;
    distribution = distribution;
    components = components;
    architectures = architectures;
    filter = filter;
    last_download = parse_time last_download;
  })

abbrev or_empty : Option Text → Text
or_empty none = []
or_empty (some t) = t

unfoldable pub parse_snapshot : Json → Result Snapshot
parse_snapshot raw = do
  name ← index_text (codes "Name") raw
  created_at ← get_text (codes "CreatedAt") raw
  description ← get_text (codes "Description") raw
  ok (record {
    name = name;
    created_at = parse_time created_at;
    description = or_empty description;
  })

unfoldable pub source_items : Items → Result (List PublishedSource)
source_items nil = ok []
source_items (cons s rest) = do
  component ← index_text (codes "Component") s
  name ← index_text (codes "Name") s
  sources ← source_items rest
  ok (record { component = component; name = name } ∷ sources)

as_sources : Json → Result (List PublishedSource)
as_sources null = ok []
as_sources (arr xs) = source_items xs
as_sources _ = raised (type_error (codes "list"))

unfoldable pub get_sources : Json → Result (List PublishedSource)
unfolding as_sources
get_sources raw = elim (get (codes "Sources") raw) [ none ↦ ok [] | some v ↦ as_sources v ]

unfoldable pub parse_published : Json → Result Published
parse_published raw = do
  prefix ← index_text (codes "Prefix") raw
  distribution ← index_text (codes "Distribution") raw
  architectures ← get_texts (codes "Architectures") raw
  sources ← get_sources raw
  ok (record {
    prefix = prefix;
    distribution = distribution;
    architectures = architectures;
    sources = sources;
  })

-- next((s.name for s in self.sources if s.component == component), None)
unfoldable pub snapshot_in : List PublishedSource → Text → Option Text
snapshot_in [] component = none
snapshot_in (s ∷ rest) component =
    let later = snapshot_in rest component in
    if same s.component component then some s.name else later

unfoldable pub snapshot_for : Published → Text → Option Text
unfolding snapshot_in
snapshot_for published component = snapshot_in published.sources component
