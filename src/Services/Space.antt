-- ===== src/Services/Space.antt =====
-- src/aptly_gui/services/space.py: whether a sync has room. Sizes are Python integers that aptly
-- reports as unsigned, so natural numbers; `max(0, a - b)` is the truncated difference.
pub mod Laws
use aptly_gui.Prelude.{ℕ, ◌+◌, ◌-◌, ◌*◌, ◌/◌, max, Bool, Option, none, some, leb}
use aptly_gui.Aptly.Models.{Storage}

abbrev pub gib : ℕ
gib = 1024

pub record Margin : Type 0 where
  pub gigabytes : ℕ
  pub percent : ℕ

unfoldable pub required_free_mb : Margin → ℕ → ℕ
required_free_mb margin total_mb = max (margin.gigabytes * gib) (total_mb * margin.percent / 100)

pub record Verdict : Type 0 where
  pub ok : Bool
  pub free_mb : ℕ
  pub required_mb : ℕ
  pub needed_mb : Option ℕ

-- `value or 0`
abbrev pub or_zero : Option ℕ → ℕ
or_zero none = 0
or_zero (some n) = n

unfoldable pub shortfall_mb : Verdict → ℕ
shortfall_mb v = v.required_mb + or_zero v.needed_mb - v.free_mb

unfoldable pub check : Storage → Margin → Option ℕ → Verdict
check storage margin download_mb = record {
  ok = leb (required_free_mb margin storage.total_mb + or_zero download_mb) storage.free_mb;
  free_mb = storage.free_mb;
  required_mb = required_free_mb margin storage.total_mb;
  needed_mb = download_mb;
}
