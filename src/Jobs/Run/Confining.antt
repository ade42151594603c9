-- ===== src/Jobs/Run/Confining.antt =====
-- The work of a job, whatever its type, keeps every relation that its own bookkeeping keeps.
use aptly_gui.Prelude.{ℕ, ◌≡◌, refl, Option, none, some, List, [], ◌∷◌}
use aptly_gui.Text.{Text}
use aptly_gui.Dict.{Dict}
use aptly_gui.Aptly.Client.{Outside}
use aptly_gui.Db.Models.{
  Job, JobType, create, update, switch, discard, remove, cleanup, MirrorSet, SnapshotSet,
}
use aptly_gui.Services.Space.{Margin}
use aptly_gui.Jobs.State.{
  Local, ask, look, change, clock, commit, set_job, set_snapshot_set, add_step, finish_step,
  with_live, update_job as update_row, get_mirror_set,
}
use aptly_gui.Jobs.Steps.Frame.{
  Within, Within-pure, Within-raise, Within-ask, Within-look, Within-bind, Within-change, Confined,
  Within-clock, Within-commit, Within-add_step, Within-finish_step,
}
use aptly_gui.Jobs.Work.{
  discard_job, remove_job, drop_snapshot_set, drop_mirror_set, drop_found_snapshots, drop_found_set,
  without_snapshot_set, without_mirror_set, reclaim, discard_each, remove_each,
}
use aptly_gui.Jobs.Work.Frame.{
  Within-reclaim, Within-create_job, Within-discard_each, Within-remove_each,
}
use aptly_gui.Jobs.Update.{update_job, add_snapshot_set, snapshot_each, sync_each, preflight}
use aptly_gui.Jobs.Update.Frame.{Within-preflight, Within-sync_each}
use aptly_gui.Jobs.Switch.Frame.{Within-switch_job}
use aptly_gui.Jobs.Run.Alone.{get_mirror_set-without}
use aptly_gui.Jobs.Run.{work, work_without_set, work_on_set}

-- A relation that the work of a job keeps, whatever its type: other tables do not matter to it, nor
-- what the job writes in its own row, the announced steps aside.
pub record Movable (job : ℕ) (R : Local → Local → Type 0) : Type 0 where
  pub confined : Confined job R
  pub own :
      (f : Job → Job) (l : Local)
      → ((j : Job) → (f j).id ≡ j.id)
      → ((j : Job) → (f j).expected_steps ≡ j.expected_steps)
      → R l (with_live (λ t. record t { jobs = update_row job f t.jobs }) l)
  pub but :
      {l m : Local}
      → m.queue ≡ l.queue
      → m.live.jobs ≡ l.live.jobs
      → m.live.steps ≡ l.live.steps
      → ((id : ℕ)
          → get_mirror_set id l.live.mirror_sets ≡ none
          → get_mirror_set id m.live.mirror_sets ≡ none)
      → R l m

module _ (o : Outside) (margin : Margin) (timeout fuel : ℕ) (row : Job) {R : Local → Local → Type 0}
    (movable : Movable row.id R) where
  abbrev confined : Confined row.id R
  confined = movable.confined

  Within-set_job :
      (f : Job → Job)
      → ((j : Job) → (f j).id ≡ j.id)
      → ((j : Job) → (f j).expected_steps ≡ j.expected_steps)
      → Within R (set_job o row.id f)
  unfolding set_job
  Within-set_job f k m = Within-change _ (λ l. movable.own f l k m)

  Within-set_snapshot_set :
      (id : ℕ) (f : SnapshotSet → SnapshotSet) → Within R (set_snapshot_set o id f)
  unfolding set_snapshot_set
  Within-set_snapshot_set id f = Within-change _ (λ l. movable.but refl refl refl (λ i e. e))

  Within-drop_snapshot_set : (id : Option ℕ) → Within R (drop_snapshot_set o margin fuel id)
  unfolding drop_snapshot_set drop_found_snapshots without_snapshot_set
  Within-drop_snapshot_set none = Within-pure confined.steady tt
  Within-drop_snapshot_set (some id) =
      Within-bind confined.steady (look _) _ (Within-look confined.steady _) by_found
    where
      by_found :
          (found : Option SnapshotSet) → Within R (drop_found_snapshots o margin fuel id found)
      by_found none = Within-pure confined.steady tt
      by_found (some x) =
          Within-bind confined.steady (change _) _
            (Within-change _ (λ l. movable.but refl refl refl (λ i e. e)))
            λ _. Within-commit confined o

  Within-drop_mirror_set : (id : Option ℕ) → Within R (drop_mirror_set o margin fuel row id)
  unfolding drop_mirror_set drop_found_set without_mirror_set
  Within-drop_mirror_set none = Within-pure confined.steady tt
  Within-drop_mirror_set (some id) =
      Within-bind confined.steady (look _) _ (Within-look confined.steady _) by_found
    where
      by_found : (found : Option MirrorSet) → Within R (drop_found_set o margin fuel row id found)
      by_found none = Within-pure confined.steady tt
      by_found (some m) =
          Within-bind confined.steady (set_job o row.id _) _
            (Within-set_job _ (λ j. refl) (λ j. refl))
            λ _.
              Within-bind confined.steady (change _) _
                (Within-change _ (λ l.
                  movable.but refl refl refl
                    (λ i e. get_mirror_set-without i id l.live.mirror_sets e)))
                λ _. Within-commit confined o

  Within-discard_job : Within R (discard_job o margin fuel row)
  unfolding discard_job
  Within-discard_job =
      Within-bind confined.steady (discard_each o margin fuel row _) _
        (Within-discard_each o margin fuel row confined _)
        λ _.
          Within-bind confined.steady (reclaim o margin fuel row) _
            (Within-reclaim o margin fuel row confined)
            λ _. Within-drop_snapshot_set row.params.snapshot_set_id

  Within-remove_job : Within R (remove_job o margin fuel row)
  unfolding remove_job
  Within-remove_job =
      Within-bind confined.steady (remove_each o margin fuel row _) _
        (Within-remove_each o margin fuel row confined _)
        λ _.
          Within-bind confined.steady (reclaim o margin fuel row) _
            (Within-reclaim o margin fuel row confined)
            λ _. Within-drop_mirror_set row.params.mirror_set_id

  module _ (set : MirrorSet) where
    Within-snapshot_each :
        (stamp : Text) (id : ℕ) (pairs : List (Text × Text)) (taken : Dict Text)
        → Within R (snapshot_each o margin fuel row set stamp id taken pairs)
    unfolding snapshot_each
    Within-snapshot_each stamp id [] taken = Within-pure confined.steady tt
    Within-snapshot_each stamp id ((suite, c) ∷ pairs) taken =
        Within-bind confined.steady (add_step o row.id _) _ (Within-add_step confined o _) λ step.
          Within-bind confined.steady (ask _) _ (Within-ask confined.steady _) λ _.
            Within-bind confined.steady (set_snapshot_set o id _) _ (Within-set_snapshot_set id _)
              λ _.
                Within-bind confined.steady (finish_step o step _ _) _
                  (Within-finish_step confined o step _ _)
                  λ _. Within-snapshot_each stamp id pairs _

    Within-add_snapshot_set : Within R (add_snapshot_set o margin fuel row set)
    unfolding add_snapshot_set
    Within-add_snapshot_set =
        Within-bind confined.steady (clock o) _ (Within-clock confined o) λ now.
          Within-bind confined.steady (look _) _ (Within-look confined.steady _) λ id.
            Within-bind confined.steady (change _) _
              (Within-change _ (λ l. movable.but refl refl refl (λ i e. e)))
              λ _.
                Within-bind confined.steady (commit o) _ (Within-commit confined o)
                  λ _. Within-pure confined.steady id

    Within-update_job : Within R (update_job o margin fuel row set)
    unfolding update_job
    Within-update_job =
        Within-bind confined.steady (preflight o margin fuel row set) _
          (Within-preflight o margin fuel row confined set)
          λ _. Within-bind confined.steady (clock o) _ (Within-clock confined o) λ now.
            Within-bind confined.steady (add_snapshot_set o margin fuel row set) _
              Within-add_snapshot_set
              λ id.
                Within-bind confined.steady (sync_each o margin fuel row set _) _
                  (Within-sync_each o margin fuel row confined set _)
                  λ _.
                    Within-bind confined.steady (snapshot_each o margin fuel row set _ id [] _) _
                      (Within-snapshot_each _ id _ [])
                      λ _.
                        Within-bind confined.steady (set_snapshot_set o id _) _
                          (Within-set_snapshot_set id _) λ _. Within-commit confined o

  Within-work_on_set :
      (type : JobType) (set : MirrorSet) → Within R (work_on_set o margin timeout fuel type row set)
  unfolding work_on_set
  Within-work_on_set create set = Within-create_job o margin fuel row confined timeout set
  Within-work_on_set update set = Within-update_job set
  Within-work_on_set switch set = Within-switch_job o margin fuel row confined set
  Within-work_on_set discard set = Within-raise confined.steady _
  Within-work_on_set remove set = Within-raise confined.steady _
  Within-work_on_set cleanup set = Within-raise confined.steady _

  Within-work_without_set :
      (type : JobType) (set : Option MirrorSet)
      → Within R (work_without_set o margin timeout fuel type row set)
  unfolding work_without_set
  Within-work_without_set discard set = Within-discard_job
  Within-work_without_set remove set = Within-remove_job
  Within-work_without_set create none = Within-raise confined.steady _
  Within-work_without_set update none = Within-raise confined.steady _
  Within-work_without_set switch none = Within-raise confined.steady _
  Within-work_without_set cleanup none = Within-raise confined.steady _
  Within-work_without_set create (some set) = Within-work_on_set create set
  Within-work_without_set update (some set) = Within-work_on_set update set
  Within-work_without_set switch (some set) = Within-work_on_set switch set
  Within-work_without_set cleanup (some set) = Within-work_on_set cleanup set

  pub Within-work : (set : Option MirrorSet) → Within R (work o margin timeout fuel row set)
  unfolding work
  Within-work set = Within-work_without_set row.type set
