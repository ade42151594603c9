-- ===== src/Jobs/Switch/Target.antt =====
-- Which snapshot set a switch publishes, and what it has seen of aptly when it succeeds.
use mathlib.Core.Path.{subst}
use aptly_gui.Prelude.{
  ℕ, ◌≡◌, ◌≢◌, refl, sym, ap, ◌∙◌, Bool, true, false, ◌&&◌, Option, none, some, List, [], ◌∷◌, All,
  ◌==◌, if◌then◌else◌,
}
use aptly_gui.Text.{Text}
use aptly_gui.Exec.{Exc, Exec, Outcome, ok, returned, threw, raise, ◌>>=◌, ◌>>◌, pure}
use aptly_gui.Exec.Returns.{bind-returned, lift-returned}
use aptly_gui.Dict.{Dict}
use aptly_gui.Aptly.Models.{Published}
use aptly_gui.Aptly.Client.{Outside}
use aptly_gui.Aptly.Client.Requests.{list_published}
use aptly_gui.Db.Models.{Job, MirrorSet, SnapshotSet, is_complete}
use aptly_gui.Services.Space.{Margin}
use aptly_gui.Jobs.State.{World, ask, look, get_snapshot_set, add_step, clock, change, commit}
use aptly_gui.Jobs.Work.{give_up}
use aptly_gui.Jobs.Plan.{order_suites}
use aptly_gui.Jobs.Checks.Problems.{Publishes, problems_of-none_iff}
use aptly_gui.Jobs.Switch.{
  accept_target, target_id, switch_job, verify, settle_problems, publish_each, check_if_public,
}

-- A target that a switch may publish: a complete snapshot set of the mirror set.
abbrev pub acceptable : MirrorSet → Option SnapshotSet → Bool
acceptable set none = false
acceptable set (some x) = x.mirror_set_id == set.id && is_complete x.state

-- The two tests of accept_target.
module _ {S A : Type 0} (y : A) (e e' : Exc) (s : S) where
  two_tests : Bool → Bool → Outcome A × S
  unfolding pure raise
  two_tests a b = (if a then (if b then pure y else raise e) else raise e') s

  tests-refused : (a b : Bool) → a && b ≡ false → (x : Exc) × (two_tests a b ≡ (threw x, s))
  unfolding two_tests
  tests-refused true true h = cc
  tests-refused true false h = (e, refl)
  tests-refused false b h = (e', refl)

  tests-passed :
      (a b : Bool) (x : A) → (two_tests a b).0 ≡ returned x → (some y ≡ some x) × (a && b ≡ true)
  unfolding two_tests
  tests-passed true true x h = (cc, refl)
  tests-passed true false x h = cc
  tests-passed false b x h = cc

  tests-state : (a b : Bool) → (two_tests a b).1 ≡ s
  unfolding two_tests
  tests-state true true = refl
  tests-state true false = refl
  tests-state false b = refl

module _ (o : Outside) (margin : Margin) (fuel : ℕ) (set : MirrorSet) where
  accept_target-state :
      (found : Option SnapshotSet) (s : World o.State)
      → (accept_target o margin fuel set found s).1 ≡ s
  unfolding accept_target raise two_tests
  accept_target-state none s = refl
  accept_target-state (some x) s =
      tests-state x _ _ s (x.mirror_set_id == set.id) (is_complete x.state)

  refused :
      (found : Option SnapshotSet) (s : World o.State)
      → acceptable set found ≡ false
      → (e : Exc) × (accept_target o margin fuel set found s ≡ (threw e, s))
  unfolding accept_target raise two_tests
  refused none s h = (_, refl)
  refused (some x) s h = tests-refused x _ _ s (x.mirror_set_id == set.id) (is_complete x.state) h

  accepted :
      (found : Option SnapshotSet) (s : World o.State) (x : SnapshotSet)
      → (accept_target o margin fuel set found s).0 ≡ returned x
      → (found ≡ some x) × (acceptable set found ≡ true)
  unfolding accept_target raise two_tests
  accepted none s x h = cc
  accepted (some y) s x h =
      tests-passed y _ _ s (y.mirror_set_id == set.id) (is_complete y.state) x h

  give_up-raises :
      (step : ℕ) (detail message : Text) (s : World o.State)
      → (give_up o margin fuel step detail message s).0 ≢ returned tt
  unfolding give_up raise
  give_up-raises step detail message s e = let (u, q, f) = bind-returned _ _ s tt e in cc

  settled :
      (step : ℕ) (problems : List Text) (s : World o.State)
      → (settle_problems o margin fuel step problems s).0 ≡ returned tt
      → problems ≡ []
  unfolding settle_problems
  settled step [] s e = refl
  settled step (p ∷ ps) s e = absurd (give_up-raises step _ _ s e)

  -- Aptly's list in a state shows, under the prefix of the set, what the set's suites should publish.
  abbrev pub Shows : Dict Text → o.State → Type 0
  Shows snapshots w =
      (actual : List Published) × ((list_published o w).0 ≡ returned actual)
      × All (Publishes set snapshots actual) set.suites

  add_step-outside :
      (job : ℕ) (description : Text) (s : World o.State)
      → (add_step o job description s).1.outside ≡ s.outside
  unfolding add_step ◌>>=◌ clock change look commit pure
  add_step-outside job description s = refl

  verified :
      (job : Job) (snapshots : Dict Text) (s : World o.State)
      → (verify o margin fuel job set snapshots s).0 ≡ returned tt
      → Shows snapshots s.outside
  unfolding verify ask
  verified job snapshots s e =
      let (step, q, f) = bind-returned _ _ s tt e in
      let (actual, listed, g) = bind-returned _ _ _ tt f in
      let (problems, found, h) = bind-returned _ _ _ tt g in
      (
        actual,
        ap (λ w. (list_published o w).0) (sym (add_step-outside job.id _ s)) ∙ listed,
        (problems_of-none_iff set snapshots actual set.suites).0
            (lift-returned _ _ problems found ∙ ap ok (settled step problems _ h)),
      )

  -- The suites are published one after the other, by the list that aptly gave at the start, and the
  -- list that aptly gives right after that, which the Verify step reads, shows them.
  abbrev pub PublishedAndShown : Job → Dict Text → World o.State → Type 0
  PublishedAndShown job snapshots s =
      (published : List Published) × ((list_published o s.outside).0 ≡ returned published)
      × (let (r, t) =
            publish_each o margin fuel job set snapshots published (order_suites set.suites)
              (ask (list_published o) s).1 in
          (r ≡ returned tt) × Shows snapshots t.outside)

  module _ (job : Job) (id : ℕ) (s : World o.State)
      (asked : job.params.snapshot_set_id ≡ some id) where
    abbrev found : Option SnapshotSet
    found = get_snapshot_set id s.own.live.snapshot_sets

    -- The switch, once its target is accepted.
    abbrev publishing : SnapshotSet → Exec (World o.State) Unit
    publishing target = do
      published ← ask (list_published o)
      publish_each o margin fuel job set target.snapshots published (order_suites set.suites)
      verify o margin fuel job set target.snapshots
      check_if_public o margin fuel job set set.public_url

    switch_job-eq :
        switch_job o margin fuel job set s
        ≡ (accept_target o margin fuel set found >>= publishing) s
    unfolding switch_job ◌>>=◌ look target_id pure
    switch_job-eq = rw asked refl

    -- A switch whose target is no complete snapshot set of its mirror set raises before it has asked
    -- aptly or stored anything.
    pub switch_job-refuses :
        acceptable set (get_snapshot_set id s.own.live.snapshot_sets) ≡ false
        → (e : Exc) × (switch_job o margin fuel job set s ≡ (threw e, s))
    unfolding ◌>>=◌
    switch_job-refuses h = let (e, k) = refused found s h in (e, switch_job-eq ∙ rw k refl)

    shown :
        (target : SnapshotSet) (t : World o.State)
        → (publishing target t).0 ≡ returned tt
        → PublishedAndShown job target.snapshots t
    unfolding ask
    shown target t f =
        let (published, listed, g) = bind-returned (ask (list_published o)) _ t tt f in
        let (done, over, h) =
          bind-returned
            (publish_each o margin fuel job set target.snapshots published
              (order_suites set.suites))
            _ _ tt g in
        let (checked, good, k) =
          bind-returned (verify o margin fuel job set target.snapshots) _ _ tt h in
        (published, listed, (over, verified job target.snapshots _ good))

    -- A switch that returns had for target the snapshot set that the row names, a complete one of its
    -- mirror set; it got through the publication of every suite, and the list of publications that
    -- aptly gave after the last of these, in the Verify step, has, under the prefix of the set, for
    -- each suite a publication of exactly the snapshots of that target.
    pub switch_job-publishes :
        (switch_job o margin fuel job set s).0 ≡ returned tt
        → (target : SnapshotSet) × (get_snapshot_set id s.own.live.snapshot_sets ≡ some target)
          × (acceptable set (some target) ≡ true)
          × PublishedAndShown job target.snapshots s
    switch_job-publishes e =
        let (target, taken, f) =
          bind-returned (accept_target o margin fuel set found) publishing s tt
            (ap (λ r. r.0) (sym switch_job-eq) ∙ e) in
        let (here, good) = accepted found s target taken in
        (
          target,
          here,
          subst (λ t. acceptable set t ≡ true) here good,
          subst (PublishedAndShown job target.snapshots) (accept_target-state found s)
              (shown target _ f),
        )
