-- ===== src/Jobs/Update.antt =====
-- JobRunner._update: preflight, sync and snapshot, stopping before anything is published.
pub mod Rules
pub mod Frame
pub mod Complete
pub mod Named
use aptly_gui.Prelude.{ℕ, not, none, some, List, [], ◌∷◌, ◌++◌, filter, length, if◌then◌else◌}
use aptly_gui.Text.{Text, codes, mem, join, decimal}
use aptly_gui.Exec.{Exec, pure, ◌>>=◌, ◌>>◌}
use aptly_gui.Dict.{Dict, insert}
use aptly_gui.Aptly.Client.{Outside}
use aptly_gui.Aptly.Client.Requests.{
  storage, list_mirrors, update_mirror, create_snapshot_from_mirror,
}
use aptly_gui.Db.Models.{
  Job, succeeded, MirrorSet, complete, incomplete, mirror_name, expected_mirrors,
}
use aptly_gui.Services.Space.{Margin, Verdict, check}
use aptly_gui.Jobs.Plan.{spec_for, snapshot_stamp}
use aptly_gui.Jobs.State.{
  World, ask, look, change, clock, commit, with_live, add_step, finish_step, set_snapshot_set,
  next_snapshot_set_id,
}
use aptly_gui.Jobs.Checks.{newline, names_of, job_pairs, missing_message, space_detail}
use aptly_gui.Jobs.Work.{follow_task, give_up}

module _ (o : Outside) (margin : Margin) (fuel : ℕ) where
  refuse_missing : ℕ → MirrorSet → List Text → Exec (World o.State) Unit
  refuse_missing step set [] = pure tt
  refuse_missing step set (name ∷ names) =
      give_up o margin fuel step (join newline (name ∷ names))
        (missing_message (name ∷ names) (length (expected_mirrors set)))

  settle_space : ℕ → Verdict → Exec (World o.State) Unit
  settle_space step verdict =
      if verdict.ok
      then finish_step o step succeeded (some (space_detail verdict))
      else give_up o margin fuel step (space_detail verdict)
          (codes "not enough free disk space: " ++ space_detail verdict)

  unfoldable pub preflight : Job → MirrorSet → Exec (World o.State) Unit
  unfolding refuse_missing settle_space
  preflight job set = do
    step ← add_step o job.id (codes "Preflight")
    mirrors ← ask (list_mirrors o)
    refuse_missing step set
        (filter (λ name. not (mem name (names_of mirrors))) (expected_mirrors set))
    found ← ask (storage o)
    settle_space step (check found margin none)

  -- session.add(SnapshotSet(...)), and its id
  unfoldable pub add_snapshot_set : Job → MirrorSet → Exec (World o.State) ℕ
  add_snapshot_set job set = do
    now ← clock o
    id ← look (λ l. next_snapshot_set_id l.live.snapshot_sets)
    change (
        with_live (λ t. record t {
          snapshot_sets =
              t.snapshot_sets
              ++ record {
                id = next_snapshot_set_id t.snapshot_sets;
                mirror_set_id = set.id;
                taken_at = now;
                snapshots = [];
                state = incomplete;
                job_id = some job.id;
              }
                ∷ [];
        }))
    commit o
    pure id

  unfoldable pub sync_each : Job → MirrorSet → List (Text × Text) → Exec (World o.State) Unit
  sync_each job set [] = pure tt
  sync_each job set ((suite, c) ∷ pairs) = do
    step ← add_step o job.id (codes "Sync " ++ (spec_for set suite c).name)
    task ← ask (update_mirror o (spec_for set suite c))
    follow_task o margin fuel step task
    sync_each job set pairs

  abbrev pub snapshot_name : Text → MirrorSet → Text → Text → Text
  snapshot_name stamp set suite c = mirror_name set suite c ++ (codes "-" ++ stamp)

  unfoldable pub snapshot_each :
      Job → MirrorSet → Text → ℕ → Dict Text → List (Text × Text) → Exec (World o.State) Unit
  snapshot_each job set stamp id taken [] = pure tt
  snapshot_each job set stamp id taken ((suite, c) ∷ pairs) = do
    step ← add_step o job.id (codes "Snapshot " ++ snapshot_name stamp set suite c)
    ask (
        create_snapshot_from_mirror o (mirror_name set suite c) (snapshot_name stamp set suite c)
          (codes "aptly-gui job " ++ decimal job.id))
    let taken' = insert (mirror_name set suite c) (snapshot_name stamp set suite c) taken
    set_snapshot_set o id (λ x. record x { snapshots = taken' })
    finish_step o step succeeded none
    snapshot_each job set stamp id taken' pairs

  unfoldable pub update_job : Job → MirrorSet → Exec (World o.State) Unit
  update_job job set = do
    preflight job set
    now ← clock o
    id ← add_snapshot_set job set
    sync_each job set (job_pairs set)
    snapshot_each job set (snapshot_stamp now) id [] (job_pairs set)
    set_snapshot_set o id (λ x. record x { state = complete })
    commit o
