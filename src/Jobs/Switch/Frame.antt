-- ===== src/Jobs/Switch/Frame.antt =====
-- A switch stays within the bookkeeping of its job's steps.
use aptly_gui.Prelude.{ℕ, Option, none, some, List, [], ◌∷◌, filter, not, ◌==◌}
use aptly_gui.Text.{Text}
use aptly_gui.Exec.{pure, raise}
use aptly_gui.Dict.{Dict}
use aptly_gui.Aptly.Models.{Published}
use aptly_gui.Aptly.Client.{Outside}
use aptly_gui.Db.Models.{Job, MirrorSet, SnapshotSet, is_complete}
use aptly_gui.Services.Space.{Margin}
use aptly_gui.Services.Verify.{ClientCheck, check_release, is_ok}
use aptly_gui.Jobs.Plan.{is_set}
use aptly_gui.Jobs.State.{Local, ask, look, add_step}
use aptly_gui.Jobs.Steps.Frame.{
  Within, Within-pure, Within-raise, Within-lift, Within-ask, Within-look, Within-if, Within-bind,
  Confined, Within-add_step, Within-finish_step,
}
use aptly_gui.Jobs.Work.Frame.{Within-follow_task, Within-give_up}
use aptly_gui.Jobs.Switch.{
  accept_target, target_id, publish_one, publish_each, settle_problems, verify, check_each,
  settle_checks, check_as_client, check_if_public, switch_job,
}

module _ (o : Outside) (margin : Margin) (fuel : ℕ) {R : Local → Local → Type 0} (row : Job)
    (confined : Confined row.id R) (set : MirrorSet) where
  Within-accept_target :
      (found : Option SnapshotSet) → Within R (accept_target o margin fuel set found)
  unfolding accept_target
  Within-accept_target none = Within-raise confined.steady _
  Within-accept_target (some x) =
      Within-if (x.mirror_set_id == set.id) _ (raise _)
        (Within-if (is_complete x.state) (pure x) (raise _) (Within-pure confined.steady x)
          (Within-raise confined.steady _))
        (Within-raise confined.steady _)

  Within-target_id : (id : Option ℕ) → Within R (target_id o margin fuel id)
  unfolding target_id
  Within-target_id none = Within-raise confined.steady _
  Within-target_id (some id) = Within-pure confined.steady id

  Within-publish_one :
      (suite : Text) (sources : Dict Text) (found : Option Published)
      → Within R (publish_one o margin fuel set suite sources found)
  unfolding publish_one
  Within-publish_one suite sources none = Within-ask confined.steady _
  Within-publish_one suite sources (some p) = Within-ask confined.steady _

  Within-publish_each :
      (snapshots : Dict Text) (published : List Published) (suites : List Text)
      → Within R (publish_each o margin fuel row set snapshots published suites)
  unfolding publish_each
  Within-publish_each snapshots published [] = Within-pure confined.steady tt
  Within-publish_each snapshots published (suite ∷ suites) =
      Within-bind confined.steady _ _ (Within-lift confined.steady _) λ sources.
        Within-bind confined.steady (add_step o row.id _) _ (Within-add_step confined o _) λ step.
          Within-bind confined.steady _ _ (Within-publish_one suite sources _) λ task.
            Within-bind confined.steady _ _ (Within-follow_task o margin fuel confined step task)
              λ _. Within-publish_each snapshots published suites

  Within-settle_problems :
      (step : ℕ) (problems : List Text) → Within R (settle_problems o margin fuel step problems)
  unfolding settle_problems
  Within-settle_problems step [] = Within-finish_step confined o step _ _
  Within-settle_problems step (p ∷ ps) = Within-give_up o margin fuel confined step _ _

  Within-verify : (snapshots : Dict Text) → Within R (verify o margin fuel row set snapshots)
  unfolding verify
  Within-verify snapshots =
      Within-bind confined.steady (add_step o row.id _) _ (Within-add_step confined o _) λ step.
        Within-bind confined.steady (ask _) _ (Within-ask confined.steady _) λ actual.
          Within-bind confined.steady _ _ (Within-lift confined.steady _)
            λ problems. Within-settle_problems step problems

  Within-check_each :
      (url : Text) (suites : List Text) → Within R (check_each o margin fuel url suites)
  unfolding check_each
  Within-check_each url [] = Within-pure confined.steady []
  Within-check_each url (suite ∷ suites) =
      Within-bind confined.steady (ask (check_release o url suite)) _ (Within-ask confined.steady _)
        λ c.
          Within-bind confined.steady _ _ (Within-check_each url suites)
            λ rest. Within-pure confined.steady (c ∷ rest)

  Within-settle_checks :
      (step : ℕ) (report : Text) (failed : List ClientCheck)
      → Within R (settle_checks o margin fuel step report failed)
  unfolding settle_checks
  Within-settle_checks step report [] = Within-finish_step confined o step _ _
  Within-settle_checks step report (c ∷ rest) = Within-give_up o margin fuel confined step _ _

  Within-check_as_client : (url : Text) → Within R (check_as_client o margin fuel row set url)
  unfolding check_as_client
  Within-check_as_client url =
      Within-bind confined.steady (add_step o row.id _) _ (Within-add_step confined o _) λ step.
        Within-bind confined.steady _ _ (Within-check_each url _)
          λ checks. Within-settle_checks step _ (filter (λ c. not (is_ok c)) checks)

  Within-check_if_public :
      (url : Option Text) → Within R (check_if_public o margin fuel row set url)
  unfolding check_if_public
  Within-check_if_public none = Within-pure confined.steady tt
  Within-check_if_public (some url) =
      Within-if (is_set (some url)) _ (pure tt) (Within-check_as_client url)
        (Within-pure confined.steady tt)

  pub Within-switch_job : Within R (switch_job o margin fuel row set)
  unfolding switch_job
  Within-switch_job =
      Within-bind confined.steady _ _ (Within-target_id row.params.snapshot_set_id) λ id.
        Within-bind confined.steady (look _) _ (Within-look confined.steady _) λ found.
          Within-bind confined.steady _ _ (Within-accept_target found) λ target.
            Within-bind confined.steady (ask _) _ (Within-ask confined.steady _) λ published.
              Within-bind confined.steady _ _ (Within-publish_each target.snapshots published _)
                λ _.
                  Within-bind confined.steady _ _ (Within-verify target.snapshots)
                    λ _. Within-check_if_public set.public_url
