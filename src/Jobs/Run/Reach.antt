-- ===== src/Jobs/Run/Reach.antt =====
-- What a job asks of aptly: every request of a job is one that its type and its row call for.
use mathlib.Core.Path.{subst}
use aptly_gui.Prelude.{
  ℕ, ◌≡◌, refl, sym, ◌⊎◌, inl, inr, true, Option, none, some, List, [], ◌∷◌, All,
}
use aptly_gui.Text.{Text}
use aptly_gui.Dict.{Dict}
use aptly_gui.Aptly.Client.{Outside, Request}
use aptly_gui.Aptly.Client.Keeps.{Survives}
use aptly_gui.Aptly.Client.Bodies.{
  get_request, create_mirror_request, update_mirror_request, create_snapshot_request,
  publish_request, switch_request,
}
use aptly_gui.Db.Models.{
  Job, JobType, create, update, switch, discard, remove, cleanup, MirrorSet, mirror_name,
  publish_target,
}
use aptly_gui.Services.Space.{Margin}
use aptly_gui.Jobs.Plan.{spec_for}
use aptly_gui.Jobs.Checks.{job_pairs}
use aptly_gui.Jobs.State.{World, get_job}
use aptly_gui.Jobs.Steps.{positions}
use aptly_gui.Jobs.Await.Patience.{Patience, Reads}
use aptly_gui.Jobs.Work.Rules.{cleanup_request}
use aptly_gui.Jobs.Work.Jobs.{drop_snapshot_request, drop_mirror_request}
use aptly_gui.Jobs.Switch.{signing_of}
use aptly_gui.Jobs.Run.Ending.{Asks, AsksOnSet}
use aptly_gui.Jobs.Run.Honest.{runs, run_job-Ended}
use aptly_gui.Jobs.Run.{set_of, run_job}
use aptly_gui.Jobs.Run.Logged.{logged, logged-Patience}

-- a is one of xs
abbrev pub IsIn : {A : Type 0} → A → List A → Type 0
IsIn a [] = ⊥
IsIn a (x ∷ xs) = (x ≡ a) ⊎ IsIn a xs

All-of_IsIn : {A : Type 0} (P : A → Type 0) (xs : List A) → ((a : A) → IsIn a xs → P a) → All P xs
All-of_IsIn P [] h = tt
All-of_IsIn P (x ∷ xs) h = (h x (inl refl), All-of_IsIn P xs (λ a k. h a (inr k)))

-- The requests that a job may send: reads, and by its type
pub data Permitted (timeout : ℕ) (row : Job) (set : Option MirrorSet) : Request → Type 0 where
  -- any job
  reads : (path : Text) → Permitted timeout row set (get_request path)
  -- create: a mirror of the set, by its full definition
  creates :
      (s : MirrorSet) (p : Text × Text)
      → row.type ≡ create
      → set ≡ some s
      → IsIn p (job_pairs s)
      → Permitted timeout row set (create_mirror_request timeout (spec_for s p.0 p.1))
  -- update: a sync of a mirror of the set, by its full definition, or a snapshot of it
  syncs :
      (s : MirrorSet) (p : Text × Text)
      → row.type ≡ update
      → set ≡ some s
      → IsIn p (job_pairs s)
      → Permitted timeout row set (update_mirror_request (spec_for s p.0 p.1))
  snapshots :
      (s : MirrorSet) (p : Text × Text) (name description : Text)
      → row.type ≡ update
      → set ≡ some s
      → IsIn p (job_pairs s)
      → Permitted timeout row set (create_snapshot_request (mirror_name s p.0 p.1) name description)
  -- switch: a publication at the target of the set, with its architectures and its key
  publishes :
      (s : MirrorSet) (suite : Text) (sources : Dict Text)
      → row.type ≡ switch
      → set ≡ some s
      → Permitted timeout row set
          (publish_request (publish_target s) suite sources s.architectures (signing_of s))
  switches :
      (s : MirrorSet) (suite : Text) (sources : Dict Text)
      → row.type ≡ switch
      → set ≡ some s
      → Permitted timeout row set (switch_request (publish_target s) suite sources (signing_of s))
  -- discard and remove: a deletion of a snapshot or a mirror that the row names, and the clean-up
  discards :
      (name : Text)
      → row.type ≡ discard
      → IsIn name row.params.snapshots
      → Permitted timeout row set (drop_snapshot_request name)
  removes :
      (name : Text)
      → row.type ≡ remove
      → IsIn name row.params.mirrors
      → Permitted timeout row set (drop_mirror_request name)
  cleans : (row.type ≡ discard) ⊎ (row.type ≡ remove) → Permitted timeout row set cleanup_request

module _ (o : Outside) where
  module _ (timeout : ℕ) (row : Job) (set : Option MirrorSet) where
    abbrev Log : (logged o).State → Type 0
    Log w = All (Permitted timeout row set) w.0

    Permitted-Survives : {r : Request} → Permitted timeout row set r → Survives (logged o) Log r
    Permitted-Survives p = record { at = λ w h. (p, h) }

    logged-Reads : Reads (logged o) Log
    logged-Reads = record { reads = λ path. Permitted-Survives (reads path); sleeps = λ w h. h }

    logged-AsksOnSet :
        (type : JobType) (s : MirrorSet)
        → row.type ≡ type
        → set ≡ some s
        → AsksOnSet (logged o) Log timeout type s
    logged-AsksOnSet create s e h =
        All-of_IsIn _ (job_pairs s) (λ p k. Permitted-Survives (creates s p e h k))
    logged-AsksOnSet update s e h = record {
      syncs = All-of_IsIn _ (job_pairs s) (λ p k. Permitted-Survives (syncs s p e h k));
      snapshots =
          All-of_IsIn _ (job_pairs s)
            (λ p k name description. Permitted-Survives (snapshots s p name description e h k));
    }
    logged-AsksOnSet switch s e h = record {
      creates = λ suite sources. Permitted-Survives (publishes s suite sources e h);
      switches = λ suite sources. Permitted-Survives (switches s suite sources e h);
      fetches = λ url w k. k;
    }
    logged-AsksOnSet discard s e h = tt
    logged-AsksOnSet remove s e h = tt
    logged-AsksOnSet cleanup s e h = tt

    logged-Asks :
        (type : JobType) (found : Option MirrorSet)
        → row.type ≡ type
        → set ≡ found
        → Asks (logged o) Log timeout type row found
    logged-Asks discard found e h = (
      All-of_IsIn _ row.params.snapshots (λ name k. Permitted-Survives (discards name e k)),
      Permitted-Survives (cleans (inl e)),
    )
    logged-Asks remove found e h = (
      All-of_IsIn _ row.params.mirrors (λ name k. Permitted-Survives (removes name e k)),
      Permitted-Survives (cleans (inr e)),
    )
    logged-Asks create none e h = tt
    logged-Asks update none e h = tt
    logged-Asks switch none e h = tt
    logged-Asks cleanup none e h = tt
    logged-Asks create (some s) e h = logged-AsksOnSet create s e h
    logged-Asks update (some s) e h = logged-AsksOnSet update s e h
    logged-Asks switch (some s) e h = logged-AsksOnSet switch s e h
    logged-Asks cleanup (some s) e h = logged-AsksOnSet cleanup s e h

-- Whatever aptly replies, as long as it runs its tasks to an end: a job that its row and set let run,
-- with no step yet, sends only requests that its type, its row and its set call for (`Permitted`),
-- from the first request to its end. So an update never publishes, a switch never deletes, and a
-- discard or a removal asks for the deletion of nothing that the row does not name.
pub run_job_reach :
    (o : Outside) (margin : Margin) (timeout fuel id : ℕ) (s : World (logged o).State) (row : Job)
    → Patience o fuel
    → s.outside.0 ≡ []
    → get_job id s.own.live.jobs ≡ some row
    → runs row.type (set_of row.mirror_set_id s.own) ≡ true
    → positions row.id s.own.live.steps ≡ []
    → All
        (Permitted timeout row (set_of row.mirror_set_id s.own))
        (run_job (logged o) margin timeout fuel id s).1.outside.0
run_job_reach o margin timeout fuel id s row patience empty e r new =
    (run_job-Ended (logged o) margin timeout fuel (logged-Patience o patience)
      (logged-Reads o timeout row (set_of row.mirror_set_id s.own)) id s row
      (subst (λ rs. All (Permitted timeout row (set_of row.mirror_set_id s.own)) rs) (sym empty) tt)
      e r new
      (logged-Asks o timeout row (set_of row.mirror_set_id s.own) row.type
        (set_of row.mirror_set_id s.own) refl refl)).1.out
