-- ===== src/Services/Space/Laws.antt =====
-- What a verdict on free space promises.
use aptly_gui.Prelude.{ℕ, ◌+◌, ◌*◌, ◌/◌, ◌≤◌, ◌≡◌, ◌↔◌, true, Option, arith}
use aptly_gui.Aptly.Models.{Storage}
use aptly_gui.Services.Space.{Margin, gib, required_free_mb, shortfall_mb, check, or_zero}

-- A verdict is good exactly when the disk keeps both floors of the margin, the fixed one and the
-- share of the disk, after the download; and exactly when it reports no shortfall.
pub check-ok_iff :
    (storage : Storage) (margin : Margin) (download : Option ℕ)
    → ((check storage margin download).ok ≡ true
        ↔ (margin.gigabytes * gib + or_zero download ≤ storage.free_mb)
          × (storage.total_mb * margin.percent / 100 + or_zero download ≤ storage.free_mb))
      × ((check storage margin download).ok ≡ true
          ↔ shortfall_mb (check storage margin download) ≡ 0)
unfolding check required_free_mb shortfall_mb
check-ok_iff storage margin download = ground arith

-- A refused verdict asks for exactly the space that is missing: with that much more free, the same
-- disk, margin and download pass.
pub shortfall_exact :
    (storage : Storage) (margin : Margin) (download : Option ℕ) (extra : ℕ)
    → ((check (record storage { free_mb = storage.free_mb + extra }) margin download).ok ≡ true)
      ↔ (shortfall_mb (check storage margin download) ≤ extra)
unfolding check shortfall_mb
shortfall_exact storage margin download extra = ground arith
