-- ===== src/Jobs/Run/Ending.antt =====
-- One job, from its row to its audit entry: what the database holds when `execute` returns.
use aptly_gui.Prelude.{ℕ, ◌≡◌, refl, ◌⊎◌, Option, none, some, List, [], ◌∷◌, ◌++◌, arith, All}
use aptly_gui.Text.{Text}
use aptly_gui.Exec.{Exc, Outcome, returned, threw, describe}
use aptly_gui.Aptly.Client.{Outside, Moment}
use aptly_gui.Aptly.Client.Keeps.{Survives}
use aptly_gui.Aptly.Client.Bodies.{create_mirror_request}
use aptly_gui.Db.Models.{
  Job, JobStep, JobState, JobType, create, update, switch, discard, remove, MirrorSet, AuditEntry,
}
use aptly_gui.Jobs.Plan.{spec_for}
use aptly_gui.Jobs.Checks.{job_pairs}
use aptly_gui.Jobs.State.{Local, get_job, fail_steps}
use aptly_gui.Jobs.Steps.{positions, up_to, Settled}
use aptly_gui.Jobs.Work.Rules.{cleanup_request}
use aptly_gui.Jobs.Work.Jobs.{drop_snapshot_request, drop_mirror_request}
use aptly_gui.Jobs.Update.Rules.{Syncs}
use aptly_gui.Jobs.Switch.Rules.{Publishes}
use aptly_gui.Jobs.Run.{state_text, planned_steps}

-- How a job's row and its steps agree with the outcome of the job's work: the row announces the
-- steps that were planned; a job whose work returned succeeded and has made those steps, one whose
-- work raised failed and says what was raised; either way the steps are numbered from 1 with no gap.
abbrev pub Agrees : Outcome (Unit {0}) → Job → Option MirrorSet → Job → List ℕ → Type 0
Agrees why job set row steps =
    (row.expected_steps ≡ some (planned_steps job set))
    × (((row.state ≡ JobState.succeeded)
          × (why ≡ returned tt)
          × (steps ≡ up_to (planned_steps job set)))
        ⊎ ((row.state ≡ JobState.failed)
            × ((e : Exc) × (why ≡ threw e) × (row.error ≡ some (describe e)))
            × ((n : ℕ) × (steps ≡ up_to n))))

-- In the handler, before the running steps are failed.
pub record Failing (why : Outcome (Unit {0})) (job : Job) (set : Option MirrorSet) (e : Exc)
    (l : Local) : Type 0 where
  pub row : Job
  pub found : get_job job.id l.live.jobs ≡ some row
  pub announced : row.expected_steps ≡ some (planned_steps job set)
  pub cause : why ≡ threw e
  pub state : row.state ≡ JobState.failed
  pub error : row.error ≡ some (describe e)
  pub count : ℕ
  pub numbered : positions job.id l.live.steps ≡ up_to count

-- After the `try` and its handler.
pub record Tried (why : Outcome (Unit {0})) (job : Job) (set : Option MirrorSet) (l : Local)
    : Type 0 where
  pub row : Job
  pub found : get_job job.id l.live.jobs ≡ some row
  pub agrees : Agrees why job set row (positions job.id l.live.steps)
  pub settled : All (Settled job.id) l.live.steps

-- In the `finally`, before and after the audit entry.
pub record Closed (why : Outcome (Unit {0})) (job : Job) (set : Option MirrorSet) (l : Local)
    : Type 0 where
  pub row : Job
  pub found : get_job job.id l.live.jobs ≡ some row
  pub agrees : Agrees why job set row (positions job.id l.live.steps)
  pub settled : All (Settled job.id) l.live.steps
  pub closed : (m : Moment) × (row.finished_at ≡ some m)

pub record Audited (why : Outcome (Unit {0})) (job : Job) (set : Option MirrorSet) (l : Local)
    : Type 0 where
  pub row : Job
  pub found : get_job job.id l.live.jobs ≡ some row
  pub agrees : Agrees why job set row (positions job.id l.live.steps)
  pub settled : All (Settled job.id) l.live.steps
  pub closed : (m : Moment) × (row.finished_at ≡ some m)
  pub earlier : List AuditEntry
  pub entry : AuditEntry
  pub audited : l.live.audit ≡ earlier ++ entry ∷ []
  pub says : (entry.result ≡ state_text row.state) × (entry.detail ≡ row.error)

-- After the `finally`: the row has its end, the last audit entry says how the job ended, and all of
-- it is committed.
pub record Ended (why : Outcome (Unit {0})) (job : Job) (set : Option MirrorSet) (l : Local)
    : Type 0 where
  pub row : Job
  pub found : get_job job.id l.live.jobs ≡ some row
  pub agrees : Agrees why job set row (positions job.id l.live.steps)
  pub settled : All (Settled job.id) l.live.steps
  pub closed : (m : Moment) × (row.finished_at ≡ some m)
  pub earlier : List AuditEntry
  pub entry : AuditEntry
  pub audited : l.live.audit ≡ earlier ++ entry ∷ []
  pub says : (entry.result ≡ state_text row.state) × (entry.detail ≡ row.error)
  pub saved : l.durable ≡ l.live

pub positions-fail_steps :
    (job id : ℕ) (error : Text) (now : Moment) (steps : List JobStep)
    → positions id (fail_steps job error now steps) ≡ positions id steps
unfolding fail_steps
positions-fail_steps job id error now [] = refl
positions-fail_steps job id error now (s ∷ steps) =
    ground (arith, positions-fail_steps job id error now steps)

pub Settled-fail_steps :
    (job : ℕ) (error : Text) (now : Moment) (steps : List JobStep)
    → All (Settled job) (fail_steps job error now steps)
unfolding fail_steps
Settled-fail_steps job error now [] = tt
Settled-fail_steps job error now (s ∷ steps) =
    ((λ e. ground arith), Settled-fail_steps job error now steps)

-- What a job may ask of aptly besides reading, by its type.
abbrev pub AsksOnSet : (o : Outside) → (o.State → Type 0) → ℕ → JobType → MirrorSet → Type 0
AsksOnSet o P timeout create set =
    All (λ p. Survives o P (create_mirror_request timeout (spec_for set p.0 p.1))) (job_pairs set)
AsksOnSet o P timeout update set = Syncs o P set
AsksOnSet o P timeout switch set = Publishes o P set
AsksOnSet o P timeout _ set = Unit

abbrev pub Asks : (o : Outside) → (o.State → Type 0) → ℕ → JobType → Job → Option MirrorSet → Type 0
Asks o P timeout discard job set =
    All (λ name. Survives o P (drop_snapshot_request name)) job.params.snapshots
    × Survives o P cleanup_request
Asks o P timeout remove job set =
    All (λ name. Survives o P (drop_mirror_request name)) job.params.mirrors
    × Survives o P cleanup_request
Asks o P timeout type job none = Unit
Asks o P timeout type job (some set) = AsksOnSet o P timeout type set
