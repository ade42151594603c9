-- ===== src/Jobs/Work/Jobs.antt =====
-- The jobs that create, discard and remove make the steps that were planned, and ask aptly only for
-- what their names say.
use mathlib.Core.Path.{subst}
use aptly_gui.Prelude.{
  ℕ, suc, ◌+◌, ◌≡◌, refl, true, false, Option, none, some, List, [], ◌∷◌, ◌++◌, arith, length, All,
}
use aptly_gui.Text.{Text, codes, mem}
use aptly_gui.Exec.{Exec, pure}
use aptly_gui.Exec.Triple.{Triple, Triple-bind, Triple-pure, Triple-if, Triple-weaken}
use aptly_gui.Aptly.Client.{Outside, Request}
use aptly_gui.Aptly.Client.Requests.{list_mirrors, create_mirror, delete_mirror, delete_snapshot}
use aptly_gui.Aptly.Client.Bodies.{create_mirror_request, delete_request, mirror_path}
use aptly_gui.Aptly.Client.Keeps.{Survives, Triple-ask_reply, Triple-tell}
use aptly_gui.Db.Models.{Job, MirrorSet, SnapshotSet, create, skipped, succeeded}
use aptly_gui.Services.Space.{Margin}
use aptly_gui.Jobs.Plan.{spec_for, expected_steps, discard_steps}
use aptly_gui.Jobs.Checks.{job_pairs}
use aptly_gui.Jobs.Checks.Pairs.{length-job_pairs}
use aptly_gui.Jobs.State.{
  World, ask, look, change, commit, add_step, finish_step, set_job, get_snapshot_set,
  get_mirror_set,
}
use aptly_gui.Jobs.State.Rows.{get_job-update}
use aptly_gui.Jobs.State.Rules.{Both, Triple-change, Triple-look}
use aptly_gui.Jobs.Steps.{Idle, Idle-same}
use aptly_gui.Jobs.Steps.Rules.{Triple-add_step, Triple-finish_step}
use aptly_gui.Jobs.Await.Patience.{Patience, Reads, Broken, Triple-Busy-ask}
use aptly_gui.Jobs.Work.Rules.{
  Triple-follow_task, Triple-Idle-ask, Triple-refusable, Triple-reclaim, cleanup_request,
}
use aptly_gui.Jobs.Work.{
  create_one, create_each, create_job, discard_each, discard_job, drop_snapshot_set, remove_each,
  remove_job, drop_mirror_set, drop_found_snapshots, drop_found_set, reclaim, without_snapshot_set,
  without_mirror_set,
}

-- The requests that delete a snapshot and a mirror, never forced.
abbrev pub drop_snapshot_request : Text → Request
drop_snapshot_request name = delete_request (codes "/api/snapshots/" ++ name) false false

abbrev pub drop_mirror_request : Text → Request
drop_mirror_request name = delete_request (mirror_path name) true false

module _ (o : Outside) (margin : Margin) (fuel : ℕ) {P : o.State → Type 0} (row : Job)
    (patience : Patience o fuel) (reads : Reads o P) where
  abbrev Steps : ℕ → World o.State → Type 0
  Steps n = Both P (Idle row.id n)

  -- One more step, and then the rest.
  Triple-and_rest :
      (n m : ℕ) {rest : Exec (World o.State) Unit}
      → Triple (Steps (suc n)) rest (λ _. Steps (m + suc n)) (Broken P row.id)
      → Triple (Steps (suc n)) rest (λ _. Steps (suc m + n)) (Broken P row.id)
  Triple-and_rest n m t =
      Triple-weaken (λ s h. h) (λ _ s h. subst (λ k. Steps k s) (omega arith) h) (λ _ s h. h) t

  Triple-done : (n : ℕ) → Triple (Steps n) (pure tt) (λ _. Steps (0 + n)) (Broken P row.id)
  Triple-done n = Triple-pure tt (λ s h. subst (λ m. Steps m s) (omega arith) h)

  Triple-create_each :
      (timeout n : ℕ) (set : MirrorSet) (existing : List Text) (pairs : List (Text × Text))
      → All (λ p. Survives o P (create_mirror_request timeout (spec_for set p.0 p.1))) pairs
      → Triple
          (Steps n)
          (create_each o margin fuel timeout row set existing pairs)
          (λ _. Steps (length pairs + n))
          (Broken P row.id)
  unfolding create_each create_one
  Triple-create_each timeout n set existing [] k = Triple-done n
  Triple-create_each timeout n set existing ((suite, c) ∷ pairs) k =
      Triple-bind (add_step o row.id _) _ (Triple-add_step o _) λ step.
        Triple-bind (create_one o margin fuel timeout step _ existing) _
          (Triple-if (mem (spec_for set suite c).name existing) _ _
            (λ _. Triple-finish_step o step skipped _ refl)
            λ _.
              Triple-bind (ask (create_mirror o timeout _)) _
                (Triple-Busy-ask o margin row.id (suc n) step (λ v h. h) (create_mirror o timeout _)
                  (unfold create_mirror in Triple-ask_reply _ _ k.0))
                λ _. Triple-finish_step o step succeeded none refl)
          λ _.
            Triple-and_rest n (length pairs)
              (Triple-create_each timeout (suc n) set existing pairs k.1)

  pub Triple-create_job :
      (timeout : ℕ) (set : MirrorSet)
      → All
          (λ p. Survives o P (create_mirror_request timeout (spec_for set p.0 p.1)))
          (job_pairs set)
      → Triple
          (Steps 0)
          (create_job o margin fuel timeout row set)
          (λ _. Steps (expected_steps create (some set)))
          (Broken P row.id)
  unfolding create_job
  Triple-create_job timeout set k =
      Triple-bind (ask (list_mirrors o)) _
        (Triple-Idle-ask o row.id 0 (list_mirrors o)
          (unfold list_mirrors in Triple-ask_reply _ _ (reads.reads _)))
        λ mirrors.
          Triple-weaken (λ s h. h) (λ _ s h. subst (λ m. Steps m s) planned h) (λ _ s h. h)
            (Triple-create_each timeout 0 set _ (job_pairs set) k)
    where
      planned : length (job_pairs set) + 0 ≡ expected_steps create (some set)
      planned = unfold expected_steps in omega (arith, length-job_pairs set)

  Triple-discard_each :
      (n : ℕ) (names : List Text)
      → All (λ name. Survives o P (drop_snapshot_request name)) names
      → Triple
          (Steps n)
          (discard_each o margin fuel row names)
          (λ _. Steps (length names + n))
          (Broken P row.id)
  unfolding discard_each
  Triple-discard_each n [] k = Triple-done n
  Triple-discard_each n (name ∷ names) k =
      Triple-bind (add_step o row.id _) _ (Triple-add_step o _) λ step.
        Triple-bind _ _
          (Triple-refusable o margin fuel row.id (suc n) step (delete_snapshot o name false)
            (unfold delete_snapshot in Triple-tell _ _ k.0))
          λ _.
            Triple-bind (finish_step o step succeeded none) _
              (Triple-finish_step o step succeeded none refl)
              λ _. Triple-and_rest n (length names) (Triple-discard_each (suc n) names k.1)

  Triple-remove_each :
      (n : ℕ) (names : List Text)
      → All (λ name. Survives o P (drop_mirror_request name)) names
      → Triple
          (Steps n)
          (remove_each o margin fuel row names)
          (λ _. Steps (length names + n))
          (Broken P row.id)
  unfolding remove_each
  Triple-remove_each n [] k = Triple-done n
  Triple-remove_each n (name ∷ names) k =
      Triple-bind (add_step o row.id _) _ (Triple-add_step o _) λ step.
        Triple-bind _ _
          (Triple-refusable o margin fuel row.id (suc n) step (delete_mirror o name false)
            (unfold delete_mirror in Triple-ask_reply _ _ k.0))
          λ task.
            Triple-bind _ _
              (Triple-follow_task o margin fuel row.id (suc n) step task patience reads)
              λ _. Triple-and_rest n (length names) (Triple-remove_each (suc n) names k.1)

  Triple-drop_snapshot_set :
      (n : ℕ) (id : Option ℕ)
      → Triple (Steps n) (drop_snapshot_set o margin fuel id) (λ _. Steps n) (Broken P row.id)
  unfolding drop_snapshot_set drop_found_snapshots without_snapshot_set commit
  Triple-drop_snapshot_set n none = Triple-pure tt (λ s h. h)
  Triple-drop_snapshot_set n (some id) =
      Triple-bind (look _) _ (Triple-look {T = Idle row.id n} _) by_found
    where
      by_found :
          (found : Option SnapshotSet)
          → Triple
              (Both P (λ l. (found ≡ get_snapshot_set id l.live.snapshot_sets) × Idle row.id n l))
              (drop_found_snapshots o margin fuel id found)
              (λ _. Steps n)
              (Broken P row.id)
      by_found none = Triple-pure tt (λ s h. record { out = h.out; own = h.own.1 })
      by_found (some x) =
          Triple-bind (change _) _
            (Triple-change {U = Idle row.id n} _ (λ l h. Idle-same h.1 refl refl h.1.present))
            λ _. Triple-change _ (λ l h. Idle-same h refl refl h.present)

  Triple-drop_mirror_set :
      (n : ℕ) (id : Option ℕ)
      → Triple (Steps n) (drop_mirror_set o margin fuel row id) (λ _. Steps n) (Broken P row.id)
  unfolding drop_mirror_set drop_found_set without_mirror_set commit set_job
  Triple-drop_mirror_set n none = Triple-pure tt (λ s h. h)
  Triple-drop_mirror_set n (some id) =
      Triple-bind (look _) _ (Triple-look {T = Idle row.id n} _) by_found
    where
      by_found :
          (found : Option MirrorSet)
          → Triple
              (Both P (λ l. (found ≡ get_mirror_set id l.live.mirror_sets) × Idle row.id n l))
              (drop_found_set o margin fuel row id found)
              (λ _. Steps n)
              (Broken P row.id)
      by_found none = Triple-pure tt (λ s h. record { out = h.out; own = h.own.1 })
      by_found (some m) =
          Triple-bind (change _) _
            (Triple-change {U = Idle row.id n} _ (λ l h.
              Idle-same h.1 refl refl
                (get_job-update row.id _ l.live.jobs (λ j. refl) h.1.present)))
            λ _.
              Triple-bind (change _) _
                (Triple-change {U = Idle row.id n} _ (λ l h. Idle-same h refl refl h.present))
                λ _. Triple-change _ (λ l h. Idle-same h refl refl h.present)

  pub Triple-discard_job :
      All (λ name. Survives o P (drop_snapshot_request name)) row.params.snapshots
      → Survives o P cleanup_request
      → Triple
          (Steps 0)
          (discard_job o margin fuel row)
          (λ _. Steps (discard_steps (length row.params.snapshots)))
          (Broken P row.id)
  unfolding discard_job discard_steps
  Triple-discard_job k c =
      Triple-bind (discard_each o margin fuel row _) _
        (Triple-discard_each 0 row.params.snapshots k)
        λ _.
          Triple-bind (reclaim o margin fuel row) _
            (Triple-reclaim o margin fuel row _ patience reads c)
            λ _.
              Triple-weaken (λ s h. h) (λ _ s h. subst (λ m. Steps m s) (omega arith) h)
                (λ _ s h. h) (Triple-drop_snapshot_set _ row.params.snapshot_set_id)

  pub Triple-remove_job :
      All (λ name. Survives o P (drop_mirror_request name)) row.params.mirrors
      → Survives o P cleanup_request
      → Triple
          (Steps 0)
          (remove_job o margin fuel row)
          (λ _. Steps (discard_steps (length row.params.mirrors)))
          (Broken P row.id)
  unfolding remove_job discard_steps
  Triple-remove_job k c =
      Triple-bind (remove_each o margin fuel row _) _ (Triple-remove_each 0 row.params.mirrors k)
        λ _.
          Triple-bind (reclaim o margin fuel row) _
            (Triple-reclaim o margin fuel row _ patience reads c)
            λ _.
              Triple-weaken (λ s h. h) (λ _ s h. subst (λ m. Steps m s) (omega arith) h)
                (λ _ s h. h) (Triple-drop_mirror_set _ row.params.mirror_set_id)
