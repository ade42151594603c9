-- ===== src/Jobs/Update/Frame.antt =====
-- The preflight and the syncs of an update stay within the bookkeeping of the job's steps, which
-- leaves the snapshot sets of the database alone.
use aptly_gui.Prelude.{ℕ, ◌≡◌, refl, ◌∙◌, none, List, [], ◌∷◌}
use aptly_gui.Text.{Text}
use aptly_gui.Aptly.Client.{Outside}
use aptly_gui.Db.Models.{Job, MirrorSet}
use aptly_gui.Services.Space.{Margin, check}
use aptly_gui.Jobs.State.{Local, ask, add_step, step_added, committed}
use aptly_gui.Jobs.Steps.Frame.{
  Within, Within-pure, Within-ask, Within-if, Within-bind, Confined, Within-add_step,
  Within-finish_step,
}
use aptly_gui.Jobs.Work.Frame.{Within-follow_task, Within-give_up}
use aptly_gui.Jobs.Update.{preflight, refuse_missing, sync_each}

-- The table of snapshot sets is as it was.
abbrev pub SameSets : Local → Local → Type 0
SameSets l m = m.live.snapshot_sets ≡ l.live.snapshot_sets

pub SameSets-Confined : (job : ℕ) → Confined job SameSets
unfolding step_added committed
SameSets-Confined job = record {
  steady = record { same = λ l. refl; after = λ h k. k ∙ h };
  adds = λ description now l. refl;
  changes = λ id f l k. refl;
  saves = λ l. refl;
}

module _ (o : Outside) (margin : Margin) (fuel : ℕ) {R : Local → Local → Type 0} (row : Job)
    (confined : Confined row.id R) (set : MirrorSet) where
  Within-refuse_missing :
      (step : ℕ) (missing : List Text) → Within R (refuse_missing o margin fuel step set missing)
  unfolding refuse_missing
  Within-refuse_missing step [] = Within-pure confined.steady tt
  Within-refuse_missing step (m ∷ ms) = Within-give_up o margin fuel confined step _ _

  pub Within-preflight : Within R (preflight o margin fuel row set)
  unfolding preflight
  Within-preflight =
      Within-bind confined.steady (add_step o row.id _) _ (Within-add_step confined o _) λ step.
        Within-bind confined.steady (ask _) _ (Within-ask confined.steady _) λ mirrors.
          Within-bind confined.steady (refuse_missing o margin fuel step set _) _
            (Within-refuse_missing step _)
            λ _. Within-bind confined.steady (ask _) _ (Within-ask confined.steady _) λ found.
              Within-if (check found margin none).ok _ _ (Within-finish_step confined o step _ _)
                (Within-give_up o margin fuel confined step _ _)

  pub Within-sync_each :
      (pairs : List (Text × Text)) → Within R (sync_each o margin fuel row set pairs)
  unfolding sync_each
  Within-sync_each [] = Within-pure confined.steady tt
  Within-sync_each ((suite, c) ∷ pairs) =
      Within-bind confined.steady (add_step o row.id _) _ (Within-add_step confined o _) λ step.
        Within-bind confined.steady (ask _) _ (Within-ask confined.steady _) λ task.
          Within-bind confined.steady _ _ (Within-follow_task o margin fuel confined step task)
            λ _. Within-sync_each pairs
