-- ===== src/Jobs/Queue/Turn.antt =====
-- One entry of the queue, worked to its end.
use mathlib.Core.Path.{subst}
use aptly_gui.Prelude.{
  ℕ, ◌≡◌, refl, sym, ap, ◌∙◌, ◌⊎◌, inl, inr, true, false, Option, none, some, List, [], arith, ◌==◌,
  Bool-cases,
}
use aptly_gui.Exec.{Outcome, returned, catch, ◌>>=◌}
use aptly_gui.Aptly.Client.{Outside, Moment}
use aptly_gui.Db.Models.{Job, JobState, MirrorSet, Tables}
use aptly_gui.Services.Space.{Margin}
use aptly_gui.Jobs.State.{World, Local, get_job, get_mirror_set, change}
use aptly_gui.Jobs.State.Rows.{get_job-id}
use aptly_gui.Jobs.Steps.{positions}
use aptly_gui.Jobs.Await.Patience.{Patience}
use aptly_gui.Jobs.Run.Alone.{Alone, Alone-but, Alone-after}
use aptly_gui.Jobs.Run.Frame.{Within-execute}
use aptly_gui.Jobs.Run.Ending.{Ended, Agrees}
use aptly_gui.Jobs.Run.Honest.{runs, started, run_job-eq, run_job_dropped, run_job_honest}
use aptly_gui.Jobs.Run.{needs_set, set_of, run_job, run_next}

-- A job that waits in the queue: its row is queued, and it has no step.
pub record Waiting (id : ℕ) (t : Tables) : Type 0 where
  pub row : Job
  pub found : get_job id t.jobs ≡ some row
  pub state : row.state ≡ JobState.queued
  pub new : positions id t.steps ≡ []

-- A job that ran to its end.
pub record Finished (id : ℕ) (t : Tables) : Type 0 where
  pub row : Job
  pub found : get_job id t.jobs ≡ some row
  pub state : (row.state ≡ JobState.succeeded) ⊎ (row.state ≡ JobState.failed)
  pub closed : (m : Moment) × (row.finished_at ≡ some m)

-- The mirror set with an id, where there is one, is not in the table.
abbrev pub SetGone : Option ℕ → Tables → Type 0
SetGone none t = Unit
SetGone (some id) t = get_mirror_set id t.mirror_sets ≡ none

-- A job that needs its mirror set, and whose set is gone: it never ran.
pub record Dropped (id : ℕ) (t : Tables) : Type 0 where
  pub row : Job
  pub found : get_job id t.jobs ≡ some row
  pub state : row.state ≡ JobState.queued
  pub needs : needs_set row.type ≡ true
  pub set : SetGone row.mirror_set_id t

abbrev pub Done : ℕ → Tables → Type 0
Done id t = Finished id t ⊎ Dropped id t

pub Waiting-Alone :
    {id job : ℕ} {l m : Local}
    → Alone job l m
    → (id == job) ≡ false
    → Waiting id l.live
    → Waiting id m.live
Waiting-Alone {id} a e w = record {
  row = w.row;
  found = a.jobs id e ∙ w.found;
  state = w.state;
  new = a.steps id e ∙ w.new;
}

SetGone-Alone :
    {job : ℕ} {l m : Local} (id : Option ℕ) → Alone job l m → SetGone id l.live → SetGone id m.live
SetGone-Alone none a h = tt
SetGone-Alone (some id) a h = a.gone id h

pub Done-Alone :
    {id job : ℕ} {l m : Local}
    → Alone job l m
    → (id == job) ≡ false
    → Done id l.live
    → Done id m.live
Done-Alone {id} a e (inl h) =
    inl (record { row = h.row; found = a.jobs id e ∙ h.found; state = h.state; closed = h.closed })
Done-Alone {id} a e (inr h) = inr (record {
  row = h.row;
  found = a.jobs id e ∙ h.found;
  state = h.state;
  needs = h.needs;
  set = SetGone-Alone h.row.mirror_set_id a h.set;
})

dropped_set :
    {W : Type 0} (row : Job) (s : World W)
    → runs row.type (set_of row.mirror_set_id s.own) ≡ false
    → (needs_set row.type ≡ true) × SetGone row.mirror_set_id s.own.live
unfolding set_of
dropped_set row s e = by_set row.mirror_set_id e
  where
    by_found :
        (found : Option MirrorSet)
        → runs row.type found ≡ false
        → (needs_set row.type ≡ true) × (found ≡ none)
    by_found none e' = (ground arith, refl)
    by_found (some m) e' = cc

    by_set :
        (id : Option ℕ)
        → runs row.type (set_of id s.own) ≡ false
        → (needs_set row.type ≡ true) × SetGone id s.own.live
    by_set none e' = ((by_found none e').0, tt)
    by_set (some id) e' = by_found (get_mirror_set id s.own.live.mirror_sets) e'

ended_state :
    (why : Outcome (Unit {0})) (job row : Job) (set : Option MirrorSet) (steps : List ℕ)
    → Agrees why job set row steps
    → (row.state ≡ JobState.succeeded) ⊎ (row.state ≡ JobState.failed)
ended_state why job row set steps (e, inl h) = inl h.0
ended_state why job row set steps (e, inr h) = inr h.0

module _ (o : Outside) (margin : Margin) (timeout fuel : ℕ) where
  ran_alone :
      (id : ℕ) (s : World o.State) (row : Job)
      → get_job id s.own.live.jobs ≡ some row
      → runs row.type (set_of row.mirror_set_id s.own) ≡ true
      → Alone id s.own (run_job o margin timeout fuel id s).1.own
  ran_alone id s row e r =
      subst (λ (i : ℕ). Alone i s.own (run_job o margin timeout fuel id s).1.own)
        (get_job-id id _ row e)
        (rw (run_job-eq o margin timeout fuel id s row e r) (
          Alone-after (Alone-but refl refl refl (λ i h. h)) (
            (Within-execute o margin timeout fuel row (set_of row.mirror_set_id s.own)).at
              (started id s))))

  Ended-Finished :
      {why : Outcome (Unit {0})} {id : ℕ} {row : Job} {set : Option MirrorSet} (l : Local)
      → row.id ≡ id
      → Ended why row set l
      → Finished id l.live
  Ended-Finished l e h = record {
    row = h.row;
    found = ap (λ (i : ℕ). get_job i l.live.jobs) (sym e) ∙ h.found;
    state = ended_state _ _ h.row _ _ h.agrees;
    closed = h.closed;
  }

  -- A job that waits, run.
  ran :
      (id : ℕ) (s : World o.State)
      → Patience o fuel
      → Waiting id s.own.live
      → let (r, t) = run_job o margin timeout fuel id s in
        (r ≡ returned tt) × Alone id s.own t.own × Done id t.own.live
  ran id s patience w = elim (Bool-cases (runs w.row.type (set_of w.row.mirror_set_id s.own))) [
    | inl e ↦
        let (f, h) =
          run_job_honest o margin timeout fuel id s w.row patience w.found e (
            ap (λ (i : ℕ). positions i s.own.live.steps) (get_job-id id _ w.row w.found) ∙ w.new) in
        (
          f,
          ran_alone id s w.row w.found e,
          inl (Ended-Finished _ (get_job-id id _ w.row w.found) h),
        )
    | inr e ↦ rw (run_job_dropped o margin timeout fuel id s w.row w.found e) (
      refl,
      Alone-but refl refl refl (λ i h. h),
      inr (record {
        row = w.row;
        found = w.found;
        state = w.state;
        needs = (dropped_set w.row s e).0;
        set = (dropped_set w.row s e).1;
      }),
    )
  ]

  abbrev taken : List ℕ → World o.State → World o.State
  taken rest s = record s { own = record (s.own) { queue = rest } }

  run_next-eq :
      (id : ℕ) (rest : List ℕ) (s : World o.State)
      → (run_job o margin timeout fuel id (taken rest s)).0 ≡ returned tt
      → run_next o margin timeout fuel id rest s ≡ (
        returned tt,
        record (run_job o margin timeout fuel id (taken rest s)).1 {
          own = record ((run_job o margin timeout fuel id (taken rest s)).1.own) {
            current_job_id = none;
          };
        },
      )
  unfolding run_next ◌>>=◌ change catch
  run_next-eq id rest s e = rw e

  -- A round on a waiting job returns, and leaves the rest of the queue and an idle worker.
  pub turn :
      (id : ℕ) (rest : List ℕ) (s : World o.State)
      → Patience o fuel
      → Waiting id s.own.live
      → let (r, t) = run_next o margin timeout fuel id rest s in
        (r ≡ returned tt)
        × (t.own.queue ≡ rest)
        × (t.own.current_job_id ≡ none)
        × Alone id (record (s.own) { queue = rest }) t.own
        × Done id t.own.live
  turn id rest s patience w =
      let (f, a, d) = ran id (taken rest s) patience w in
      rw (run_next-eq id rest s f)
        (refl, a.queue, refl, Alone-after a (Alone-but refl refl refl (λ i h. h)), d)
