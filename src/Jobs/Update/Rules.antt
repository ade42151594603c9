-- ===== src/Jobs/Update/Rules.antt =====
-- An update job: its steps are the planned ones, and it asks aptly for nothing but reads, syncs and
-- snapshots of the set's own mirrors.
use aptly_gui.Prelude.{ℕ, suc, ◌+◌, ◌≡◌, refl, none, some, List, [], ◌∷◌, arith, length, All}
use mathlib.Core.Path.{subst}
use aptly_gui.Text.{Text}
use aptly_gui.Exec.{◌>>◌}
use aptly_gui.Exec.Triple.{Triple, Triple-bind, Triple-pure, Triple-if, Triple-weaken}
use aptly_gui.Dict.{Dict}
use aptly_gui.Aptly.Client.{Outside}
use aptly_gui.Aptly.Client.Requests.{
  list_mirrors, storage, update_mirror, create_snapshot_from_mirror,
}
use aptly_gui.Aptly.Client.Bodies.{update_mirror_request, create_snapshot_request}
use aptly_gui.Aptly.Client.Keeps.{Survives, Triple-ask_reply}
use aptly_gui.Db.Models.{Job, MirrorSet, SnapshotSet, complete, mirror_name, update, succeeded}
use aptly_gui.Services.Space.{Margin, check}
use aptly_gui.Jobs.Plan.{spec_for, expected_steps}
use aptly_gui.Jobs.Checks.{job_pairs}
use aptly_gui.Jobs.Checks.Pairs.{length-job_pairs}
use aptly_gui.Jobs.State.{ask, look, change, commit, clock, add_step, finish_step, set_snapshot_set}
use aptly_gui.Jobs.State.Rules.{Both, Triple-change, Triple-look, Triple-clock}
use aptly_gui.Jobs.Steps.{Idle, Busy}
use aptly_gui.Jobs.Steps.Rules.{Triple-add_step, Triple-finish_step}
use aptly_gui.Jobs.Await.Patience.{Patience, Reads, Broken, Triple-Busy-ask}
use aptly_gui.Jobs.Work.Rules.{Triple-follow_task, Triple-give_up}
use aptly_gui.Jobs.Update.{
  preflight, refuse_missing, add_snapshot_set, sync_each, snapshot_each, update_job,
}

-- What an update asks for, apart from reads: syncs and snapshots of its own mirrors.
pub record Syncs (o : Outside) (P : o.State → Type 0) (set : MirrorSet) : Type 0 where
  pub syncs : All (λ p. Survives o P (update_mirror_request (spec_for set p.0 p.1))) (job_pairs set)
  pub snapshots :
      All
        (λ p.
          (name description : Text)
          → Survives o P (create_snapshot_request (mirror_name set p.0 p.1) name description))
        (job_pairs set)

module _ (o : Outside) (margin : Margin) (fuel : ℕ) {P : o.State → Type 0} (row : Job)
    (set : MirrorSet) (patience : Patience o fuel) (reads : Reads o P) where
  Triple-preflight :
      Triple
        (Both P (Idle row.id 0))
        (preflight o margin fuel row set)
        (λ _. Both P (Idle row.id 1))
        (Broken P row.id)
  unfolding preflight
  Triple-preflight = Triple-bind (add_step o row.id _) _ (Triple-add_step o _) λ step.
      Triple-bind (ask (list_mirrors o)) _
        (Triple-Busy-ask o margin row.id 1 step (λ v h. h) (list_mirrors o)
          (unfold list_mirrors in Triple-ask_reply _ _ (reads.reads _)))
        λ mirrors.
          Triple-bind (refuse_missing o margin fuel step set _) _ (Triple-refuse_missing step _)
            λ _.
              Triple-bind (ask (storage o)) _
                (Triple-Busy-ask o margin row.id 1 step (λ v h. h) (storage o)
                  (unfold storage in Triple-ask_reply _ _ (reads.reads _)))
                λ found.
                  Triple-if (check found margin none).ok _ _
                    (λ _. Triple-finish_step o step succeeded _ refl)
                    λ _. Triple-give_up o margin fuel row.id 1 step _ _
    where
      Triple-refuse_missing :
          (step : ℕ) (missing : List Text)
          → Triple
              (Both P (Busy row.id 1 step))
              (refuse_missing o margin fuel step set missing)
              (λ _. Both P (Busy row.id 1 step))
              (Broken P row.id)
      Triple-refuse_missing step [] = Triple-pure tt (λ s h. h)
      Triple-refuse_missing step (m ∷ ms) = Triple-give_up o margin fuel row.id 1 step _ _

  -- What does not touch the steps keeps a job idle.
  pub Triple-add_snapshot_set :
      (n : ℕ)
      → Triple
          (Both P (Idle row.id n))
          (add_snapshot_set o margin fuel row set)
          (λ _. Both P (Idle row.id n))
          (Broken P row.id)
  unfolding add_snapshot_set commit
  Triple-add_snapshot_set n = Triple-bind (clock o) _ (Triple-clock o) λ now.
      Triple-bind (look _) _ (Triple-look _) λ id.
        Triple-bind (change _) _
          (Triple-change {U = Idle row.id n} _ (λ l h. record {
            numbered = h.1.numbered;
            counter = h.1.counter;
            settled = h.1.settled;
            present = h.1.present;
          }))
          λ _.
            Triple-bind (commit o) _
              (Triple-change {U = Idle row.id n} _ (λ l h. record {
                numbered = h.numbered;
                counter = h.counter;
                settled = h.settled;
                present = h.present;
              }))
              λ _. Triple-pure id (λ s h. h)

  Triple-sync_each :
      (n : ℕ) (pairs : List (Text × Text))
      → All (λ p. Survives o P (update_mirror_request (spec_for set p.0 p.1))) pairs
      → Triple
          (Both P (Idle row.id n))
          (sync_each o margin fuel row set pairs)
          (λ _. Both P (Idle row.id (length pairs + n)))
          (Broken P row.id)
  unfolding sync_each
  Triple-sync_each n [] k =
      Triple-pure tt (λ s h. subst (λ m. Both P (Idle row.id m) s) (omega arith) h)
  Triple-sync_each n ((suite, c) ∷ pairs) k =
      Triple-bind (add_step o row.id _) _ (Triple-add_step o _) λ step.
        Triple-bind (ask (update_mirror o _)) _
          (Triple-Busy-ask o margin row.id (suc n) step (λ v h. h) (update_mirror o _)
            (unfold update_mirror in Triple-ask_reply _ _ k.0))
          λ task.
            Triple-bind _ _
              (Triple-follow_task o margin fuel row.id (suc n) step task patience reads)
              λ _.
                Triple-weaken (λ s h. h)
                  (λ _ s h. subst (λ m. Both P (Idle row.id m) s) (omega arith) h) (λ _ s h. h)
                  (Triple-sync_each (suc n) pairs k.1)

  -- A row of another table keeps a job busy.
  Busy-still :
      (n step id : ℕ) (f : SnapshotSet → SnapshotSet)
      → Triple
          (Both P (Busy row.id n step))
          (set_snapshot_set o id f)
          (λ _. Both P (Busy row.id n step))
          (Broken P row.id)
  unfolding set_snapshot_set
  Busy-still n step id f = Triple-change _ λ l h. record {
    numbered = h.numbered;
    counter = h.counter;
    settled = h.settled;
    present = h.present;
  }

  Triple-snapshot_each :
      (stamp : Text) (id n : ℕ) (taken : Dict Text) (pairs : List (Text × Text))
      → All
          (λ p.
            (name description : Text)
            → Survives o P (create_snapshot_request (mirror_name set p.0 p.1) name description))
          pairs
      → Triple
          (Both P (Idle row.id n))
          (snapshot_each o margin fuel row set stamp id taken pairs)
          (λ _. Both P (Idle row.id (length pairs + n)))
          (Broken P row.id)
  unfolding snapshot_each
  Triple-snapshot_each stamp id n taken [] k =
      Triple-pure tt (λ s h. subst (λ m. Both P (Idle row.id m) s) (omega arith) h)
  Triple-snapshot_each stamp id n taken ((suite, c) ∷ pairs) k =
      Triple-bind (add_step o row.id _) _ (Triple-add_step o _) λ step.
        Triple-bind (ask (create_snapshot_from_mirror o _ _ _)) _
          (Triple-Busy-ask o margin row.id (suc n) step (λ v h. h)
            (create_snapshot_from_mirror o _ _ _)
            (unfold create_snapshot_from_mirror in Triple-ask_reply _ _ (k.0 _ _)))
          λ _. Triple-bind (set_snapshot_set o id _) _ (Busy-still (suc n) step id _) λ _.
            Triple-bind (finish_step o step succeeded none) _
              (Triple-finish_step o step succeeded none refl)
              λ _.
                Triple-weaken (λ s h. h)
                  (λ _ s h. subst (λ m. Both P (Idle row.id m) s) (omega arith) h) (λ _ s h. h)
                  (Triple-snapshot_each stamp id (suc n) _ pairs k.1)

  Triple-complete :
      (id n : ℕ)
      → Triple
          (Both P (Idle row.id n))
          (set_snapshot_set o id (λ x. record x { state = complete }) >> commit o)
          (λ _. Both P (Idle row.id n))
          (Broken P row.id)
  unfolding set_snapshot_set commit
  Triple-complete id n =
      Triple-bind (change _) _
        (Triple-change {U = Idle row.id n} _ (λ l h. record {
          numbered = h.numbered;
          counter = h.counter;
          settled = h.settled;
          present = h.present;
        }))
        λ _. Triple-change _ λ l h. record {
          numbered = h.numbered;
          counter = h.counter;
          settled = h.settled;
          present = h.present;
        }

  pub Triple-update_job :
      Syncs o P set
      → Triple
          (Both P (Idle row.id 0))
          (update_job o margin fuel row set)
          (λ _. Both P (Idle row.id (expected_steps update (some set))))
          (Broken P row.id)
  unfolding update_job
  Triple-update_job k = Triple-bind (preflight o margin fuel row set) _ Triple-preflight λ _.
      Triple-bind (clock o) _ (Triple-clock o) λ now.
        Triple-bind (add_snapshot_set o margin fuel row set) _ (Triple-add_snapshot_set 1) λ id.
          Triple-bind (sync_each o margin fuel row set _) _
            (Triple-sync_each 1 (job_pairs set) k.syncs)
            λ _.
              Triple-bind (snapshot_each o margin fuel row set _ id [] _) _
                (Triple-snapshot_each _ id _ [] (job_pairs set) k.snapshots)
                λ _.
                  Triple-weaken (λ s h. h)
                    (λ _ s h. subst (λ m. Both P (Idle row.id m) s) planned h) (λ _ s h. h)
                    (Triple-complete id _)
    where
      planned :
          length (job_pairs set) + (length (job_pairs set) + 1) ≡ expected_steps update (some set)
      planned = unfold expected_steps in omega (arith, length-job_pairs set)
