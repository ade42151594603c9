-- ===== src/Jobs/Run/Recovery.antt =====
-- The runner's start (_recover_orphans) and its queue (enqueue): which jobs are left to run.
use aptly_gui.Prelude.{
  ℕ, ◌≤◌, ◌≡◌, ◌≢◌, refl, false, Option, none, some, List, [], ◌∷◌, ◌++◌, arith, map, All, ◌==◌,
  ==_iff, if-true, ◌∙◌, if◌then◌else◌,
}
use aptly_gui.Exec.{returned, ◌>>=◌}
use aptly_gui.Text.{Text, codes}
use aptly_gui.Aptly.Client.{Outside, Moment}
use aptly_gui.Db.Models.{Job, JobState, JobType, Params, interrupted}
use aptly_gui.Services.Space.{Margin}
use aptly_gui.Jobs.State.{World, get_job, next_job_id, look, change, clock, commit, committed}
use aptly_gui.Jobs.Run.{is_stale, interrupt, recover_orphans, enqueue, new_job}

-- What a recovery should make of a row, by its state.
abbrev pub settled : Moment → Job → JobState → Job
settled now j JobState.queued = record j {
  state = interrupted;
  finished_at = some now;
  error = some (codes "Interrupted by a restart of aptly-gui");
}
settled now j JobState.running = record j {
  state = interrupted;
  finished_at = some now;
  error = some (codes "Interrupted by a restart of aptly-gui");
}
settled now j JobState.succeeded = j
settled now j JobState.failed = j
settled now j interrupted = j

-- The row as it should be after a recovery, where there is one.
abbrev pub recovered : Moment → Option Job → Option Job
recovered now none = none
recovered now (some j) = some (settled now j j.state)

abbrev pub Over : JobState → Type 0
Over state = (state ≢ JobState.queued) × (state ≢ JobState.running)

interrupt-eq :
    (now : Moment) (j : Job) (state : JobState)
    → j.state ≡ state
    → interrupt now j ≡ settled now j state
unfolding interrupt
interrupt-eq now j JobState.queued e = rw e refl
interrupt-eq now j JobState.running e = rw e refl
interrupt-eq now j JobState.succeeded e = rw e refl
interrupt-eq now j JobState.failed e = rw e refl
interrupt-eq now j interrupted e = rw e refl

not_stale : (state : JobState) → is_stale state ≡ false → Over state
not_stale JobState.queued h = cc
not_stale JobState.running h = cc
not_stale JobState.succeeded h = ((λ e. cc), λ e. cc)
not_stale JobState.failed h = ((λ e. cc), λ e. cc)
not_stale interrupted h = ((λ e. cc), λ e. cc)

interrupt-settled :
    (now : Moment) (jobs : List Job) → All (λ j. Over j.state) (map (interrupt now) jobs)
unfolding interrupt
interrupt-settled now [] = tt
interrupt-settled now (j ∷ jobs) =
    (not_stale (interrupt now j).state (ground arith), interrupt-settled now jobs)

pub get_job-interrupt :
    (now : Moment) (id : ℕ) (jobs : List Job)
    → get_job id (map (interrupt now) jobs) ≡ recovered now (get_job id jobs)
unfolding interrupt get_job
get_job-interrupt now id [] = refl
get_job-interrupt now id (j ∷ jobs) =
    ground (arith, get_job-interrupt now id jobs, interrupt-eq now j j.state refl)

-- When the runner starts, no job is left queued or running: such a job is interrupted, with the time
-- of the start and the message that a restart interrupted it, every other keeps its row, the steps and
-- the queue are as they were, and the jobs are committed.
pub recover_orphans_settles :
    (o : Outside) (margin : Margin) (timeout fuel id : ℕ) (s : World o.State)
    → let (r, t) = recover_orphans o margin timeout fuel s in
      (r ≡ returned tt)
      × All (λ j. Over j.state) t.own.live.jobs
      × (get_job id t.own.live.jobs ≡ recovered (o.now s.outside) (get_job id s.own.live.jobs))
      × (t.own.live.steps ≡ s.own.live.steps)
      × (t.own.queue ≡ s.own.queue)
      × (t.own.durable ≡ t.own.live)
unfolding recover_orphans ◌>>=◌ clock change commit committed
recover_orphans_settles o margin timeout fuel id s = (
  refl,
  interrupt-settled (o.now s.outside) s.own.live.jobs,
  get_job-interrupt (o.now s.outside) id s.own.live.jobs,
  refl,
  refl,
  refl,
)

next_job_id_above : (id : ℕ) (jobs : List Job) → next_job_id jobs ≤ id → get_job id jobs ≡ none
unfolding next_job_id get_job
next_job_id_above id [] h = refl
next_job_id_above id (j ∷ jobs) h = ground (arith, next_job_id_above id jobs)

get_job-append :
    (id : ℕ) (jobs : List Job) (j : Job)
    → next_job_id jobs ≤ j.id
    → get_job id (jobs ++ j ∷ []) ≡ (if id == j.id then some j else get_job id jobs)
unfolding next_job_id get_job
get_job-append id [] j h = ground arith
get_job-append id (i ∷ jobs) j h = ground (arith, get_job-append id jobs j)

pub get_job-added :
    (jobs : List Job) (j : Job) → next_job_id jobs ≤ j.id → get_job j.id (jobs ++ j ∷ []) ≡ some j
get_job-added jobs j h =
    get_job-append j.id jobs j h
    ∙ if-true (get_job j.id jobs) (j.id == j.id) ((==_iff j.id j.id).1 refl)

-- An enqueued job has a new id, which is returned and stands last in the queue; its row is queued, as
-- the caller described it and committed, and every other id finds the row that it found before.
pub enqueue_adds :
    (o : Outside) (margin : Margin) (timeout fuel id : ℕ) (type : JobType) (set : Option ℕ)
    (author : Text) (params : Params) (s : World o.State)
    → let (r, t) = enqueue o margin timeout fuel type set author params s in
      let new = next_job_id s.own.live.jobs in
      (r ≡ returned new)
      × (get_job new s.own.live.jobs ≡ none)
      × (get_job id t.own.live.jobs ≡ (
          if id == new
          then some (new_job new type set author params)
          else get_job id s.own.live.jobs))
      × (t.own.queue ≡ s.own.queue ++ new ∷ [])
      × (t.own.durable ≡ t.own.live)
unfolding enqueue ◌>>=◌ look change commit committed
enqueue_adds o margin timeout fuel id type set author params s =
    let new = next_job_id s.own.live.jobs in
    (
      refl,
      next_job_id_above new s.own.live.jobs (omega arith),
      get_job-append id s.own.live.jobs (new_job new type set author params) (omega arith),
      refl,
      refl,
    )
