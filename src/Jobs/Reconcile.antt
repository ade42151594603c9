-- ===== src/Jobs/Reconcile.antt =====
-- `reconcile` of services/jobs.py: a snapshot set after aptly has been asked which snapshots exist.
pub mod Covers
pub mod Complete
use aptly_gui.Prelude.{ℕ, ◌*◌, List, [], ◌∷◌, map, length, ◌==◌, if◌then◌else◌}
use aptly_gui.Text.{Text, mem}
use aptly_gui.Exec.{Exec, pure, ◌>>=◌, ◌>>◌}
use aptly_gui.Dict.{Dict}
use aptly_gui.Aptly.Models.{Snapshot}
use aptly_gui.Aptly.Client.{Outside}
use aptly_gui.Aptly.Client.Requests.{list_snapshots}
use aptly_gui.Db.Models.{MirrorSet, SnapshotSet, SnapshotSetState, complete, incomplete}
use aptly_gui.Jobs.State.{World, ask, commit, set_snapshot_set}

abbrev names_of_snapshots : List Snapshot → List Text
names_of_snapshots found = map (λ s. s.name) found

unfoldable pub present_in : List Text → Dict Text → Dict Text
present_in existing [] = []
present_in existing ((mirror, snapshot) ∷ rest) =
    let more = present_in existing rest in
    if mem snapshot existing then (mirror, snapshot) ∷ more else more

abbrev pub state_for : ℕ → ℕ → SnapshotSetState
state_for present expected = if present == expected then complete else incomplete

-- The snapshot set as `reconcile` leaves it, given aptly's snapshots and its mirror set.
unfoldable pub reconciled : List Text → MirrorSet → SnapshotSet → SnapshotSet
unfolding present_in
reconciled existing set x = record x {
  snapshots = present_in existing x.snapshots;
  state =
      state_for (length (present_in existing x.snapshots))
        (length set.suites * length set.components);
}

unfoldable pub reconcile :
    (o : Outside) → MirrorSet → SnapshotSet → Exec (World o.State) SnapshotSetState
reconcile o set x = do
  found ← ask (list_snapshots o)
  set_snapshot_set o x.id (reconciled (names_of_snapshots found) set)
  commit o
  pure (reconciled (names_of_snapshots found) set x).state
