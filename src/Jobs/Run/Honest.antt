-- ===== src/Jobs/Run/Honest.antt =====
-- What a job leaves behind, whatever aptly answers.
use mathlib.Core.Path.{subst}
use aptly_gui.Prelude.{
  Bool-cases, inl, inr, ℕ, ◌≡◌, refl, sym, ap, ◌∙◌, Bool, true, false, not, Option, none, some,
  List, [], ◌∷◌, arith, All,
}
use aptly_gui.Exec.{Outcome, returned, threw, stuck, ◌>>=◌}
use aptly_gui.Exec.Triple.{Post}
use aptly_gui.Aptly.Client.{Outside, Request}
use aptly_gui.Aptly.Client.Keeps.{Survives}
use aptly_gui.Db.Models.{
  Job, JobStep, JobType, create, update, switch, discard, remove, cleanup, MirrorSet,
}
use aptly_gui.Services.Space.{Margin}
use aptly_gui.Jobs.Checks.{job_pairs}
use aptly_gui.Jobs.State.{World, get_job, look, change}
use aptly_gui.Jobs.State.Rows.{get_job-id}
use aptly_gui.Jobs.State.Rules.{Both}
use aptly_gui.Jobs.Steps.{positions, Settled, Idle}
use aptly_gui.Jobs.Await.Patience.{Patience, Reads}
use aptly_gui.Jobs.Run.Ending.{Asks, AsksOnSet, Ended}
use aptly_gui.Jobs.Run.Rules.{Triple-execute}
use aptly_gui.Jobs.Run.{
  needs_set, set_of, work, begin, run_job, run_row, execute, execute_unless_gone,
}

-- A job that `_run_job` does not drop at once.
abbrev pub runs : JobType → Option MirrorSet → Bool
runs type none = not (needs_set type)
runs type (some set) = true

-- The world as the job finds it.
abbrev pub started : {W : Type 0} → ℕ → World W → World W
started id s = record s { own = record (s.own) { current_job_id = some id; next_position = 0 } }

Settled-of_none :
    (job : ℕ) (steps : List JobStep) → positions job steps ≡ [] → All (Settled job) steps
Settled-of_none job [] h = tt
Settled-of_none job (s ∷ steps) h = ((λ e. ground arith), Settled-of_none job steps (ground arith))

ended :
    {S A : Type 0} (Q : A → S → Type 0) (r : Outcome A) (s : S)
    → Post Q (λ _ _. ⊥) r s
    → (a : A) × (r ≡ returned a) × Q a s
ended Q (returned a) s h = (a, refl, h)
ended Q (threw e) s h = absurd h
ended Q stuck s h = absurd h

set_of-started :
    {W : Type 0} (found : Option ℕ) (id : ℕ) (s : World W)
    → set_of found (started id s).own ≡ set_of found s.own
unfolding set_of
set_of-started none id s = refl
set_of-started (some i) id s = refl

module _ (o : Outside) (margin : Margin) (timeout fuel : ℕ) where
  by_row :
      (found : Option Job) (w : World o.State) (row : Job)
      → found ≡ some row
      → run_row o margin timeout fuel found w
        ≡ execute_unless_gone o margin timeout fuel row (set_of row.mirror_set_id w.own) w
  unfolding run_row ◌>>=◌ look
  by_row none w row e = cc
  by_row (some r) w row e =
      let same_row : r ≡ row = cc in
      ap (λ (j : Job). execute_unless_gone o margin timeout fuel j (set_of j.mirror_set_id w.own) w)
        same_row

  by_set :
      (set : Option MirrorSet) (row : Job) (w : World o.State)
      → runs row.type set ≡ true
      → execute_unless_gone o margin timeout fuel row set w
        ≡ execute o margin timeout fuel row set w
  unfolding execute_unless_gone
  by_set none row w r = elim (Bool-cases (needs_set row.type)) [ inl e ↦ cc | inr e ↦ rw e ]
  by_set (some set) row w r = refl

  pub run_job-eq :
      (id : ℕ) (s : World o.State) (row : Job)
      → get_job id s.own.live.jobs ≡ some row
      → runs row.type (set_of row.mirror_set_id s.own) ≡ true
      → run_job o margin timeout fuel id s
        ≡ execute o margin timeout fuel row (set_of row.mirror_set_id s.own) (started id s)
  unfolding run_job ◌>>=◌ look change
  run_job-eq id s row e r =
      by_row (get_job id s.own.live.jobs) (started id s) row e
      ∙ ap (λ set. execute_unless_gone o margin timeout fuel row set (started id s))
          (set_of-started row.mirror_set_id id s)
      ∙ by_set (set_of row.mirror_set_id s.own) row (started id s) r

  -- A job whose type needs a mirror set, and whose set is gone from the database: `run_job` returns
  -- with the database as it found it and has asked aptly nothing, so the row keeps its state.
  pub run_job_dropped :
      (id : ℕ) (s : World o.State) (row : Job)
      → get_job id s.own.live.jobs ≡ some row
      → runs row.type (set_of row.mirror_set_id s.own) ≡ false
      → run_job o margin timeout fuel id s ≡ (returned tt, started id s)
  unfolding run_job ◌>>=◌ look change
  run_job_dropped id s row e r =
      by_row (get_job id s.own.live.jobs) (started id s) row e
      ∙ ap (λ set. execute_unless_gone o margin timeout fuel row set (started id s))
          (set_of-started row.mirror_set_id id s)
      ∙ dropped (set_of row.mirror_set_id s.own) r
    where
      dropped :
          (set : Option MirrorSet)
          → runs row.type set ≡ false
          → execute_unless_gone o margin timeout fuel row set (started id s)
            ≡ (returned tt, started id s)
      dropped none r' = elim (Bool-cases (needs_set row.type)) [ inl q ↦ rw q | inr q ↦ cc ]
      dropped (some set) r' = cc

  -- How the work of a job ends, run from the state that `begin` leaves.
  abbrev pub outcome : ℕ → Job → World o.State → Outcome (Unit {0})
  outcome id row s =
      let set = set_of row.mirror_set_id s.own in
      (work o margin timeout fuel row set (begin o margin timeout fuel row set (started id s)).1).0

  module _ {P : o.State → Type 0} (patience : Patience o fuel) (reads : Reads o P) where
    -- A job that has made no step yet, run to its end from a state with `P`.
    pub run_job-Ended :
        (id : ℕ) (s : World o.State) (row : Job)
        → P s.outside
        → get_job id s.own.live.jobs ≡ some row
        → runs row.type (set_of row.mirror_set_id s.own) ≡ true
        → positions row.id s.own.live.steps ≡ []
        → Asks o P timeout row.type row (set_of row.mirror_set_id s.own)
        → ((run_job o margin timeout fuel id s).0 ≡ returned tt)
          × Both P
              (Ended (outcome id row s) row (set_of row.mirror_set_id s.own))
              (run_job o margin timeout fuel id s).1
    run_job-Ended id s row p e r new k = rw (run_job-eq id s row e r) (
        let (a, f, h) = ended _ _ _ (
          (Triple-execute o margin timeout fuel row patience reads _ (started id s)
              (record { out = p; own = idle }) k).at
            (started id s) refl) in
        (f, h))
      where
        idle : Idle row.id 0 (started id s).own
        idle = record {
          numbered = new;
          counter = refl;
          settled = Settled-of_none row.id s.own.live.steps new;
          present = (
            row,
            subst (λ i. get_job i s.own.live.jobs ≡ some row) (sym (get_job-id id _ row e)) e,
          );
        }

All-every : {A : Type 0} {P : A → Type 0} → ((a : A) → P a) → (xs : List A) → All P xs
All-every h [] = tt
All-every h (x ∷ xs) = (h x, All-every h xs)

module _ (o : Outside) (timeout : ℕ) where
  -- The predicate that says nothing.
  abbrev Anything : o.State → Type 0
  Anything w = Unit

  survives : (r : Request) → Survives o Anything r
  survives r = record { at = λ w h. tt }

  asks_on_set : (type : JobType) (set : MirrorSet) → AsksOnSet o Anything timeout type set
  asks_on_set create set = All-every (λ p. survives _) (job_pairs set)
  asks_on_set update set = record {
    syncs = All-every (λ p. survives _) (job_pairs set);
    snapshots = All-every (λ p name description. survives _) (job_pairs set);
  }
  asks_on_set switch set = record {
    creates = λ suite sources. survives _;
    switches = λ suite sources. survives _;
    fetches = λ url w h. tt;
  }
  asks_on_set discard set = tt
  asks_on_set remove set = tt
  asks_on_set cleanup set = tt

  asks :
      (type : JobType) (job : Job) (set : Option MirrorSet) → Asks o Anything timeout type job set
  asks discard job set = (All-every (λ name. survives _) job.params.snapshots, survives _)
  asks remove job set = (All-every (λ name. survives _) job.params.mirrors, survives _)
  asks create job none = tt
  asks update job none = tt
  asks switch job none = tt
  asks cleanup job none = tt
  asks create job (some set) = asks_on_set create set
  asks update job (some set) = asks_on_set update set
  asks switch job (some set) = asks_on_set switch set
  asks cleanup job (some set) = asks_on_set cleanup set

-- Whatever aptly replies, as long as it runs its tasks to an end: a job that its row and set let run,
-- with no step yet, returns, and leaves a row that announces the number of steps planned for it. Where
-- its work, run from the state after `begin`, returns, the row has succeeded and the job has made the
-- steps 1 to that number; where the work raises, the row has failed with the text of just that
-- exception and the job has made the steps 1 to some m. Either way none of its steps is running, the
-- row has its end, the last audit entry has the state and the error of the row, and the session has
-- nothing that is not committed.
pub run_job_honest :
    (o : Outside) (margin : Margin) (timeout fuel id : ℕ) (s : World o.State) (row : Job)
    → Patience o fuel
    → get_job id s.own.live.jobs ≡ some row
    → runs row.type (set_of row.mirror_set_id s.own) ≡ true
    → positions row.id s.own.live.steps ≡ []
    → ((run_job o margin timeout fuel id s).0 ≡ returned tt)
      × Ended
          (outcome o margin timeout fuel id row s)
          row
          (set_of row.mirror_set_id s.own)
          (run_job o margin timeout fuel id s).1.own
run_job_honest o margin timeout fuel id s row patience e r new =
    let (f, h) =
      run_job-Ended o margin timeout fuel patience
        (record { reads = λ path. survives o timeout _; sleeps = λ w k. tt }) id s row tt e r new
        (asks o timeout row.type row (set_of row.mirror_set_id s.own)) in
    (f, h.own)
