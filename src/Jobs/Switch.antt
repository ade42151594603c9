-- ===== src/Jobs/Switch.antt =====
-- JobRunner._switch: pointing the publications of a set at one of its snapshot sets.
pub mod Rules
pub mod Target
pub mod Frame
use aptly_gui.Prelude.{
  ℕ, Bool, false, not, Option, none, some, List, [], ◌∷◌, ◌++◌, map, filter, ◌==◌, if◌then◌else◌,
}
use aptly_gui.Text.{Text, codes, join}
use aptly_gui.Exec.{Exec, pure, raise, lift, value_error, key_error, ◌>>=◌, ◌>>◌}
use aptly_gui.Dict.{Dict}
use aptly_gui.Aptly.Models.{Task, Signing, Published}
use aptly_gui.Aptly.Client.{Outside}
use aptly_gui.Aptly.Client.Requests.{list_published, publish_snapshots, switch_published}
use aptly_gui.Db.Models.{Job, succeeded, MirrorSet, SnapshotSet, is_complete, publish_target}
use aptly_gui.Services.Space.{Margin}
use aptly_gui.Services.Verify
use aptly_gui.Services.Verify.{ClientCheck, check_release, is_ok}
use aptly_gui.Jobs.Plan.{order_suites, is_set}
use aptly_gui.Jobs.State.{World, ask, look, add_step, finish_step, get_snapshot_set}
use aptly_gui.Jobs.Checks.{newline, sources_from, find_published, problems_of}
use aptly_gui.Jobs.Work.{follow_task, give_up}

abbrev belongs : MirrorSet → Option SnapshotSet → Bool
belongs set none = false
belongs set (some x) = x.mirror_set_id == set.id

abbrev pub signing_of : MirrorSet → Signing
signing_of set = record {
  gpg_key = set.signing_key;
  keyring = none;
  passphrase = none;
  skip = false;
}

module _ (o : Outside) (margin : Margin) (fuel : ℕ) where
  -- The target of the switch, or the refusal.
  unfoldable pub accept_target : MirrorSet → Option SnapshotSet → Exec (World o.State) SnapshotSet
  accept_target set none =
      raise (value_error (codes "snapshot set does not belong to this mirror set"))
  accept_target set (some target) =
      if target.mirror_set_id == set.id
      then (if is_complete target.state
          then pure target
          else raise (value_error (codes "refusing to publish an incomplete snapshot set")))
      else raise (value_error (codes "snapshot set does not belong to this mirror set"))

  -- int(job.params["snapshot_set_id"])
  unfoldable pub target_id : Option ℕ → Exec (World o.State) ℕ
  target_id none = raise (key_error (codes "snapshot_set_id"))
  target_id (some id) = pure id

  -- switch_published where aptly lists the publication, publish_snapshots where it does not
  unfoldable pub publish_one :
      MirrorSet → Text → Dict Text → Option Published → Exec (World o.State) Task
  publish_one set suite sources none =
      ask
        (publish_snapshots o (publish_target set) suite sources set.architectures (signing_of set))
  publish_one set suite sources (some p) =
      ask (switch_published o (publish_target set) suite sources (signing_of set))

  unfoldable pub publish_each :
      Job → MirrorSet → Dict Text → List Published → List Text → Exec (World o.State) Unit
  publish_each job set snapshots published [] = pure tt
  publish_each job set snapshots published (suite ∷ suites) = do
    sources ← lift (sources_from set snapshots suite set.components [])
    step ← add_step o job.id (codes "Publish " ++ (set.publish_prefix ++ (codes "/" ++ suite)))
    task ← publish_one set suite sources (find_published set.publish_prefix suite published)
    follow_task o margin fuel step task
    publish_each job set snapshots published suites

  unfoldable pub settle_problems : ℕ → List Text → Exec (World o.State) Unit
  settle_problems step [] = finish_step o step succeeded none
  settle_problems step (p ∷ ps) =
      give_up o margin fuel step (join newline (p ∷ ps)) (join (codes "; ") (p ∷ ps))

  unfoldable pub verify : Job → MirrorSet → Dict Text → Exec (World o.State) Unit
  unfolding settle_problems
  verify job set snapshots = do
    step ← add_step o job.id (codes "Verify")
    actual ← ask (list_published o)
    problems ← lift (problems_of set snapshots actual set.suites)
    settle_problems step problems

  unfoldable pub check_each : Text → List Text → Exec (World o.State) (List ClientCheck)
  check_each url [] = pure []
  check_each url (suite ∷ suites) = do
    c ← ask (check_release o url suite)
    rest ← check_each url suites
    pure (c ∷ rest)

  settle_checks : ℕ → Text → List ClientCheck → Exec (World o.State) Unit
  settle_checks step report [] = finish_step o step succeeded (some report)
  settle_checks step report (c ∷ rest) = give_up o margin fuel step report (Verify.describe c)

  unfoldable pub check_as_client : Job → MirrorSet → Text → Exec (World o.State) Unit
  unfolding settle_checks
  check_as_client job set url = do
    step ← add_step o job.id (codes "Check as a client")
    checks ← check_each url (order_suites set.suites)
    settle_checks step (join newline (map Verify.describe checks))
        (filter (λ c. not (is_ok c)) checks)

  unfoldable pub check_if_public : Job → MirrorSet → Option Text → Exec (World o.State) Unit
  check_if_public job set none = pure tt
  check_if_public job set (some url) =
      if is_set (some url) then check_as_client job set url else pure tt

  unfoldable pub switch_job : Job → MirrorSet → Exec (World o.State) Unit
  switch_job job set = do
    id ← target_id job.params.snapshot_set_id
    found ← look (λ l. get_snapshot_set id l.live.snapshot_sets)
    target ← accept_target set found
    published ← ask (list_published o)
    publish_each job set target.snapshots published (order_suites set.suites)
    verify job set target.snapshots
    check_if_public job set set.public_url
