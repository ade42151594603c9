-- ===== src/Jobs/Update/Complete.antt =====
-- What a successful update leaves in the database: a complete snapshot set of all its mirrors.
use mathlib.Core.Path.{subst}
use aptly_gui.Prelude.{ℕ, ◌≡◌, refl, sym, ap, ◌∙◌, some, List, [], ◌∷◌, ◌++◌, arith}
use aptly_gui.Text.{Text, codes}
use aptly_gui.Exec.{Exec, returned, ◌>>=◌, ◌>>◌, pure}
use aptly_gui.Exec.Ensures.{Ensures, Ensures-bind, Ensures-always, Ensures-true}
use aptly_gui.Dict.{Dict, insert, lookup-insert_self}
use aptly_gui.Aptly.Client.{Outside, Moment}
use aptly_gui.Db.Models.{Job, MirrorSet, SnapshotSet, complete, mirror_name}
use aptly_gui.Services.Space.{Margin}
use aptly_gui.Jobs.Plan.{snapshot_stamp}
use aptly_gui.Jobs.Checks.{job_pairs}
use aptly_gui.Jobs.State.{
  World, get_snapshot_set, next_snapshot_set_id, set_snapshot_set, add_step, finish_step, ask,
  change, commit, committed, clock, look,
}
use aptly_gui.Jobs.Update.{snapshot_each, sync_each, add_snapshot_set, preflight, update_job}
use aptly_gui.Jobs.Steps.Frame.{Within, Within-add_step, Within-finish_step, Within-ask}
use aptly_gui.Jobs.Update.Frame.{SameSets, SameSets-Confined, Within-sync_each}
use aptly_gui.Jobs.Update.Named.{Names, get-update, get-append, insert-Names}

-- The row with the id is of the set and the job, with exactly the snapshots `taken`.
abbrev Holds : {W : Type 0} → Job → MirrorSet → ℕ → Dict Text → World W → Type 0
Holds job set id taken s =
    (x : SnapshotSet) × (get_snapshot_set id s.own.live.snapshot_sets ≡ some x)
    × (x.mirror_set_id ≡ set.id)
    × (x.job_id ≡ some job.id)
    × (x.snapshots ≡ taken)

-- The same, with the names of the pairs `done`.
abbrev Named :
    {W : Type 0} → Job → MirrorSet → Text → ℕ → Dict Text → List (Text × Text) → World W → Type 0
Named job set stamp id taken done s = Holds job set id taken s × Names set stamp taken done

module _ (o : Outside) (job : Job) (set : MirrorSet) where
  Spares-Holds :
      {A : Type 0} (id : ℕ) (taken : Dict Text) (m : Exec (World o.State) A)
      → Within SameSets m
      → (s : World o.State) → Holds job set id taken s
      → Holds job set id taken (m s).1
  Spares-Holds id taken m k s (x, e, f, g, h) =
      (x, ap (λ rows. get_snapshot_set id rows) (k.at s) ∙ e, f, g, h)

  set-Holds :
      (id : ℕ) (taken taken' : Dict Text) (s : World o.State)
      → Holds job set id taken s
      → Holds job set id taken' (set_snapshot_set o id (λ x. record x { snapshots = taken' }) s).1
  unfolding set_snapshot_set change
  set-Holds id taken taken' s (x, e, f, g, h) = (
    record x { snapshots = taken' },
    get-update id _ s.own.live.snapshot_sets x (λ y. refl) e,
    f,
    g,
    refl,
  )

  module _ (margin : Margin) (fuel : ℕ) (stamp : Text) (id : ℕ) where
    -- The row after the snapshots of the pairs, with a dictionary that names them and those before.
    abbrev Finished : List (Text × Text) → List (Text × Text) → World o.State → Type 0
    Finished done pairs s =
        (final : Dict Text) × Holds job set id final s
        × Names set stamp final done
        × Names set stamp final pairs

    Ensures-regroup :
        (done : List (Text × Text)) (p : Text × Text) (pairs : List (Text × Text))
        {P : World o.State → Type 0} (m : Exec (World o.State) Unit)
        → Ensures P m (λ _. Finished (p ∷ done) pairs)
        → Ensures P m (λ _. Finished done (p ∷ pairs))
    Ensures-regroup done p pairs m k = record {
      at = λ s h a e.
          let (final, holds, named, rest) = k.at s h a e in
          (final, holds, named.1, (named.0, rest));
    }

    Ensures-snapshot_each :
        (taken : Dict Text) (done pairs : List (Text × Text))
        → Ensures
            (Named job set stamp id taken done)
            (snapshot_each o margin fuel job set stamp id taken pairs)
            (λ _. Finished done pairs)
    unfolding snapshot_each
    Ensures-snapshot_each taken done [] =
        Ensures-always (pure tt) _ (λ s h. unfold pure in (taken, h.0, h.1, tt))
    Ensures-snapshot_each taken done (p ∷ pairs) =
        Ensures-bind (add_step o job.id _) _
          (kept (add_step o job.id _) (Within-add_step (SameSets-Confined job.id) o _))
          λ step.
            Ensures-bind (ask _) _ (kept (ask _) (Within-ask (SameSets-Confined job.id).steady _))
              λ taken_one.
                Ensures-bind (set_snapshot_set o id _) _
                  (Ensures-always (set_snapshot_set o id _) (Named job set stamp id more (p ∷ done))
                    (λ s h. (
                      set-Holds id taken more s h.0,
                      (
                        lookup-insert_self name value taken,
                        insert-Names set stamp taken name done h.1,
                      ),
                    )))
                  λ stored.
                    Ensures-bind (finish_step o step _ _) _
                      (Ensures-always (finish_step o step _ _)
                        (Named job set stamp id more (p ∷ done))
                        (λ s h. (
                          Spares-Holds id more (finish_step o step _ _)
                              (Within-finish_step (SameSets-Confined job.id) o step _ _) s h.0,
                          h.1,
                        )))
                      λ over.
                        Ensures-regroup done p pairs _ (Ensures-snapshot_each more (p ∷ done) pairs)
      where
        name : Text
        name = mirror_name set p.0 p.1

        value : Text
        value = name ++ (codes "-" ++ stamp)

        more : Dict Text
        more = insert name value taken

        kept :
            {A : Type 0} (m : Exec (World o.State) A)
            → Within SameSets m
            → Ensures (Named job set stamp id taken done) m (λ _. Named job set stamp id taken done)
        kept m k = Ensures-always m _ (λ s h. (Spares-Holds id taken m k s h.0, h.1))

-- A complete snapshot set of the set and the job, which names for each mirror of the set the
-- snapshot of one moment, and which is committed.
abbrev pub Completed : {W : Type 0} → Job → MirrorSet → World W → Type 0
Completed job set s =
    (id : ℕ) × (now : Moment) × (x : SnapshotSet) × (get_snapshot_set id s.own.live.snapshot_sets
      ≡ some x)
    × (x.state ≡ complete)
    × (x.mirror_set_id ≡ set.id)
    × (x.job_id ≡ some job.id)
    × Names set (snapshot_stamp now) x.snapshots (job_pairs set)
    × (s.own.durable ≡ s.own.live)

module _ (o : Outside) (margin : Margin) (fuel : ℕ) (job : Job) (set : MirrorSet) where
  Ensures-add_snapshot_set :
      Ensures (λ _. Unit {0}) (add_snapshot_set o margin fuel job set) (λ id. Holds job set id [])
  unfolding add_snapshot_set ◌>>=◌ clock look change commit committed pure
  Ensures-add_snapshot_set = record {
    at = λ s h id e.
        let same_id : next_snapshot_set_id s.own.live.snapshot_sets ≡ id = cc in
        subst (λ i. Holds job set i [] (add_snapshot_set o margin fuel job set s).1) same_id
          (_, get-append _ s.own.live.snapshot_sets _ (omega arith) refl, refl, refl, refl);
  }

  set-complete :
      (id : ℕ) (now : Moment) (final : Dict Text) (s : World o.State)
      → Holds job set id final s
      → Names set (snapshot_stamp now) final (job_pairs set)
      → Completed job set
          ((set_snapshot_set o id (λ x. record x { state = complete }) >> commit o) s).1
  unfolding set_snapshot_set change commit committed ◌>>=◌
  set-complete id now final s (x, e, f, g, h) k = (
    id,
    now,
    record x { state = complete },
    get-update id _ s.own.live.snapshot_sets x (λ y. refl) e,
    refl,
    f,
    g,
    subst (λ d. Names set (snapshot_stamp now) d (job_pairs set)) (sym h) k,
    refl,
  )

  Ensures-update_job :
      Ensures (λ _. Unit {0}) (update_job o margin fuel job set) (λ _. Completed job set)
  unfolding update_job
  Ensures-update_job =
      Ensures-bind (preflight o margin fuel job set) _
        (Ensures-true (preflight o margin fuel job set))
        λ checked. Ensures-bind (clock o) _ (Ensures-true (clock o)) λ now.
          Ensures-bind (add_snapshot_set o margin fuel job set) _ Ensures-add_snapshot_set λ id.
            Ensures-bind (sync_each o margin fuel job set (job_pairs set)) _
              (Ensures-always (sync_each o margin fuel job set (job_pairs set))
                (Named job set (snapshot_stamp now) id [] [])
                (λ s h. (
                  Spares-Holds o job set id [] (sync_each o margin fuel job set (job_pairs set))
                      (Within-sync_each o margin fuel job (SameSets-Confined job.id) set
                        (job_pairs set))
                      s h,
                  tt,
                )))
              λ synced.
                Ensures-bind
                  (snapshot_each o margin fuel job set (snapshot_stamp now) id [] (job_pairs set)) _
                  (Ensures-snapshot_each o job set margin fuel (snapshot_stamp now) id [] []
                    (job_pairs set))
                  λ taken.
                    Ensures-always
                      (set_snapshot_set o id (λ x. record x { state = complete }) >> commit o)
                      (Completed job set)
                      λ s (final, holds, before, named). set-complete id now final s holds named

  -- An update that returns has left a snapshot set of its mirror set and its job, complete and
  -- committed, that has for every suite and component of the set the name of the mirror with the
  -- stamp of one moment; whatever aptly answers, and however long the syncs take.
  pub update_job-completes :
      (s : World o.State)
      → (update_job o margin fuel job set s).0 ≡ returned tt
      → Completed job set (update_job o margin fuel job set s).1
  update_job-completes s e = Ensures-update_job.at s tt tt e
