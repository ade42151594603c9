-- ===== src/Jobs/Switch/Rules.antt =====
-- A switch makes the planned steps, and asks aptly only to publish the suites of its set.
use mathlib.Core.Path.{subst}
use aptly_gui.Prelude.{
  ℕ, suc, ◌+◌, ◌≡◌, refl, Option, none, some, List, [], ◌∷◌, arith, length, filter, not, ◌==◌,
  if◌then◌else◌, Bool-cases, inl, inr,
}
use aptly_gui.Text.{Text, truthy}
use aptly_gui.Exec.{Result, lift}
use aptly_gui.Exec.Triple.{Triple, Triple-bind, Triple-pure, Triple-if, Triple-weaken, Triple-lift}
use aptly_gui.Dict.{Dict}
use aptly_gui.Aptly.Models.{Published}
use aptly_gui.Aptly.Client.{Outside}
use aptly_gui.Aptly.Client.Requests.{list_published, publish_snapshots, switch_published}
use aptly_gui.Aptly.Client.Bodies.{publish_request, switch_request}
use aptly_gui.Aptly.Client.Keeps.{Survives, Triple-ask_reply}
use aptly_gui.Db.Models.{
  Job, MirrorSet, SnapshotSet, switch, succeeded, is_complete, publish_target,
}
use aptly_gui.Services.Space.{Margin}
use aptly_gui.Services.Verify.{ClientCheck, check_release, release_url, is_ok}
use aptly_gui.Jobs.Plan.{expected_steps, order_suites, is_set}
use aptly_gui.Jobs.Plan.Order.{length-order_suites}
use aptly_gui.Jobs.State.{World, ask, look, add_step}
use aptly_gui.Jobs.State.Rules.{Both, Triple-look}
use aptly_gui.Jobs.Steps.{Idle, Busy, Idle-Numbered, Busy-Numbered}
use aptly_gui.Jobs.Steps.Rules.{Triple-add_step, Triple-finish_step}
use aptly_gui.Jobs.Await.Patience.{Patience, Reads, Broken, Triple-Busy-ask}
use aptly_gui.Jobs.Work.Rules.{
  Triple-follow_task, Triple-Idle-ask, Triple-Idle-raise, Triple-give_up,
}
use aptly_gui.Jobs.Switch.{
  accept_target, target_id, publish_one, publish_each, settle_problems, verify, check_each,
  settle_checks, check_as_client, check_if_public, switch_job, signing_of,
}

-- What a switch asks for, apart from reads: publications of the set's suites at its own target.
pub record Publishes (o : Outside) (P : o.State → Type 0) (set : MirrorSet) : Type 0 where
  pub creates :
      (suite : Text) (sources : Dict Text)
      → Survives o P
          (publish_request (publish_target set) suite sources set.architectures (signing_of set))
  pub switches :
      (suite : Text) (sources : Dict Text)
      → Survives o P (switch_request (publish_target set) suite sources (signing_of set))
  pub fetches : (url : Text) (w : o.State) → P w → P (o.fetch url w).1

module _ (o : Outside) (margin : Margin) (fuel : ℕ) {P : o.State → Type 0} (row : Job)
    (set : MirrorSet) (patience : Patience o fuel) (reads : Reads o P)
    (publishes : Publishes o P set) where
  abbrev Steps : ℕ → World o.State → Type 0
  Steps n = Both P (Idle row.id n)

  -- A pure result, on an idle and on a busy job.
  Triple-idle_lift :
      {A : Type 0} (n : ℕ) (r : Result A)
      → Triple (Steps n) (lift r) (λ _. Steps n) (Broken P row.id)
  Triple-idle_lift n r =
      Triple-lift r (λ _ _ _ h. h) (λ _ _ _ h. record { out = h.out; own = Idle-Numbered h.own })

  Triple-Busy-lift :
      {A : Type 0} (n step : ℕ) (r : Result A)
      → Triple
          (Both P (Busy row.id n step))
          (lift r)
          (λ _. Both P (Busy row.id n step))
          (Broken P row.id)
  Triple-Busy-lift n step r =
      Triple-lift r (λ _ _ _ h. h) (λ _ _ _ h. record { out = h.out; own = Busy-Numbered h.own })

  Triple-publish_one :
      (n step : ℕ) (suite : Text) (sources : Dict Text) (found : Option Published)
      → Triple
          (Both P (Busy row.id n step))
          (publish_one o margin fuel set suite sources found)
          (λ _. Both P (Busy row.id n step))
          (Broken P row.id)
  unfolding publish_one
  Triple-publish_one n step suite sources none =
      Triple-Busy-ask o margin row.id n step (λ v h. h) (publish_snapshots o _ suite sources _ _)
        (unfold publish_snapshots in Triple-ask_reply _ _ (publishes.creates suite sources))
  Triple-publish_one n step suite sources (some p) =
      Triple-Busy-ask o margin row.id n step (λ v h. h) (switch_published o _ suite sources _)
        (unfold switch_published in Triple-ask_reply _ _ (publishes.switches suite sources))

  Triple-publish_each :
      (n : ℕ) (snapshots : Dict Text) (published : List Published) (suites : List Text)
      → Triple
          (Steps n)
          (publish_each o margin fuel row set snapshots published suites)
          (λ _. Steps (length suites + n))
          (Broken P row.id)
  unfolding publish_each
  Triple-publish_each n snapshots published [] =
      Triple-pure tt (λ s h. subst (λ m. Steps m s) (omega arith) h)
  Triple-publish_each n snapshots published (suite ∷ suites) =
      Triple-bind (lift _) _ (Triple-idle_lift n _) λ sources.
        Triple-bind (add_step o row.id _) _ (Triple-add_step o _) λ step.
          Triple-bind _ _ (Triple-publish_one (suc n) step suite sources _) λ task.
            Triple-bind _ _
              (Triple-follow_task o margin fuel row.id (suc n) step task patience reads)
              λ _.
                Triple-weaken (λ s h. h) (λ _ s h. subst (λ m. Steps m s) (omega arith) h)
                  (λ _ s h. h) (Triple-publish_each (suc n) snapshots published suites)

  Triple-verify :
      (n : ℕ) (snapshots : Dict Text)
      → Triple
          (Steps n)
          (verify o margin fuel row set snapshots)
          (λ _. Steps (suc n))
          (Broken P row.id)
  unfolding verify
  Triple-verify n snapshots = Triple-bind (add_step o row.id _) _ (Triple-add_step o _) λ step.
      Triple-bind (ask (list_published o)) _
        (Triple-Busy-ask o margin row.id (suc n) step (λ v h. h) (list_published o)
          (unfold list_published in Triple-ask_reply _ _ (reads.reads _)))
        λ actual. Triple-bind (lift _) _ (Triple-Busy-lift (suc n) step _) (settle step)
    where
      settle :
          (step : ℕ) (problems : List Text)
          → Triple
              (Both P (Busy row.id (suc n) step))
              (settle_problems o margin fuel step problems)
              (λ _. Steps (suc n))
              (Broken P row.id)
      settle step [] = Triple-finish_step o step succeeded none refl
      settle step (p ∷ ps) = Triple-give_up o margin fuel row.id (suc n) step _ _

  Triple-check_release : (url suite : Text) → Triple P (check_release o url suite) (λ _. P) (λ _. P)
  unfolding check_release
  Triple-check_release url suite = record {
    at = λ w h. publishes.fetches (release_url url suite) w h;
  }

  Triple-check_each :
      (n step : ℕ) (url : Text) (suites : List Text)
      → Triple
          (Both P (Busy row.id n step))
          (check_each o margin fuel url suites)
          (λ _. Both P (Busy row.id n step))
          (Broken P row.id)
  unfolding check_each
  Triple-check_each n step url [] = Triple-pure [] (λ s h. h)
  Triple-check_each n step url (suite ∷ suites) =
      Triple-bind (ask (check_release o url suite)) _
        (Triple-Busy-ask o margin row.id n step (λ v h. h) (check_release o url suite)
          (Triple-check_release url suite))
        λ c.
          Triple-bind _ _ (Triple-check_each n step url suites)
            λ rest. Triple-pure (c ∷ rest) (λ s h. h)

  Triple-check_as_client :
      (n : ℕ) (url : Text)
      → Triple
          (Steps n)
          (check_as_client o margin fuel row set url)
          (λ _. Steps (suc n))
          (Broken P row.id)
  unfolding check_as_client
  Triple-check_as_client n url = Triple-bind (add_step o row.id _) _ (Triple-add_step o _) λ step.
      Triple-bind _ _ (Triple-check_each (suc n) step url _)
        λ checks. settle step _ (filter (λ c. not (is_ok c)) checks)
    where
      settle :
          (step : ℕ) (report : Text) (failed : List ClientCheck)
          → Triple
              (Both P (Busy row.id (suc n) step))
              (settle_checks o margin fuel step report failed)
              (λ _. Steps (suc n))
              (Broken P row.id)
      settle step report [] = Triple-finish_step o step succeeded _ refl
      settle step report (c ∷ rest) = Triple-give_up o margin fuel row.id (suc n) step _ _

  -- One step more where the set has a public URL.
  Triple-check_if_public :
      (n : ℕ) (url : Option Text)
      → Triple
          (Steps n)
          (check_if_public o margin fuel row set url)
          (λ _. Steps ((if is_set url then 1 else 0) + n))
          (Broken P row.id)
  unfolding check_if_public
  Triple-check_if_public n none = Triple-pure tt (λ s h. subst (λ m. Steps m s) (omega arith) h)
  Triple-check_if_public n (some url) = elim (Bool-cases (truthy url)) [
    | inl e ↦ rw e (
        Triple-weaken (λ s h. h) (λ _ s h. subst (λ m. Steps m s) (omega arith) h) (λ _ s h. h)
          (Triple-check_as_client n url))
    | inr e ↦ rw e (Triple-pure tt (λ s h. subst (λ m. Steps m s) (omega arith) h))
  ]

  Triple-accept_target :
      (found : Option SnapshotSet)
      → Triple (Steps 0) (accept_target o margin fuel set found) (λ _. Steps 0) (Broken P row.id)
  unfolding accept_target
  Triple-accept_target none = Triple-Idle-raise o row.id 0 _
  Triple-accept_target (some x) =
      Triple-if (x.mirror_set_id == set.id) _ _
        (λ _.
          Triple-if (is_complete x.state) _ _ (λ _. Triple-pure x (λ s h. h))
            λ _. Triple-Idle-raise o row.id 0 _)
        λ _. Triple-Idle-raise o row.id 0 _

  Triple-target_id :
      (id : Option ℕ)
      → Triple (Steps 0) (target_id o margin fuel id) (λ _. Steps 0) (Broken P row.id)
  unfolding target_id
  Triple-target_id none = Triple-Idle-raise o row.id 0 _
  Triple-target_id (some id) = Triple-pure id (λ s h. h)

  pub Triple-switch_job :
      Triple
        (Steps 0)
        (switch_job o margin fuel row set)
        (λ _. Steps (expected_steps switch (some set)))
        (Broken P row.id)
  unfolding switch_job
  Triple-switch_job = Triple-bind _ _ (Triple-target_id row.params.snapshot_set_id) λ id.
      Triple-bind (look _) _ (Triple-look {T = Idle row.id 0} _) λ found.
        Triple-weaken (λ s h. record { out = h.out; own = h.own.1 }) (λ _ s h. h) (λ _ s h. h)
          (Triple-bind _ _ (Triple-accept_target found) λ target.
            Triple-bind (ask (list_published o)) _
              (Triple-Idle-ask o row.id 0 (list_published o)
                (unfold list_published in Triple-ask_reply _ _ (reads.reads _)))
              λ published. Triple-bind _ _ (Triple-publish_each 0 target.snapshots published _) λ _.
                Triple-bind _ _ (Triple-verify _ target.snapshots) λ _.
                  Triple-weaken (λ s h. h) (λ _ s h. subst (λ m. Steps m s) planned h) (λ _ s h. h)
                    (Triple-check_if_public _ set.public_url))
    where
      planned :
          (if is_set set.public_url then 1 else 0) + suc (length (order_suites set.suites) + 0)
          ≡ expected_steps switch (some set)
      planned = unfold expected_steps in ground (arith, length-order_suites set.suites)
