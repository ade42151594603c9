-- ===== src/Jobs/State.antt =====
-- The runner's state and its bookkeeping: rows of the session, commits, and the steps of a job.
-- `live` is what the session holds, `durable` what has been committed. A session's failure to
-- commit is not modelled.
pub mod Rules
pub mod Rows
use aptly_gui.Prelude.{
  ℕ, zero, suc, ◌+◌, ◌-◌, max, Bool, true, false, ◌&&◌, Option, none, some, List, [], ◌∷◌, ◌++◌,
  ◌==◌, if◌then◌else◌, length, take, drop,
}
use aptly_gui.Text.{Text, codes, truthy}
use aptly_gui.Exec.{Exec, pure, gets, modify, ◌>>=◌, ◌>>◌}
use aptly_gui.Aptly.Client.{Moment, Outside}
use aptly_gui.Db.Models.{
  Job, JobStep, StepState, running, failed, is_running, SnapshotSet, MirrorSet, AuditEntry, Tables,
}
use aptly_gui.Jobs.Plan.{output_tail}

-- What the runner itself holds, with the database that it writes.
pub record Local : Type 0 where
  pub live : Tables
  pub durable : Tables
  pub next_position : ℕ
  pub current_job_id : Option ℕ
  pub queue : List ℕ

pub record World (W : Type 0) : Type 0 where
  pub outside : W
  pub own : Local

module _ {W : Type 0} where
  -- A method of the client, run from the runner.
  unfoldable pub ask : {A : Type 0} → Exec W A → Exec (World W) A
  ask m s = let (r, w) = m s.outside in (r, record s { outside = w })

  -- A change of the runner's own state.
  unfoldable pub change : (Local → Local) → Exec (World W) Unit
  unfolding modify
  change f = modify (λ s. record s { own = f s.own })

  unfoldable pub look : {A : Type 0} → (Local → A) → Exec (World W) A
  unfolding gets
  look f = gets (λ s. f s.own)

-- session.commit()
unfoldable pub committed : Local → Local
committed l = record l { durable = l.live }

abbrev pub with_live : (Tables → Tables) → Local → Local
with_live f l = record l { live = f l.live }

-- The row with an id, changed.
unfoldable pub update_step : ℕ → (JobStep → JobStep) → List JobStep → List JobStep
update_step id f [] = []
update_step id f (s ∷ steps) = (if s.id == id then f s else s) ∷ update_step id f steps

unfoldable pub update_job : ℕ → (Job → Job) → List Job → List Job
update_job id f [] = []
update_job id f (j ∷ jobs) = (if j.id == id then f j else j) ∷ update_job id f jobs

unfoldable pub update_snapshot_set :
    ℕ → (SnapshotSet → SnapshotSet) → List SnapshotSet → List SnapshotSet
update_snapshot_set id f [] = []
update_snapshot_set id f (x ∷ xs) = (if x.id == id then f x else x) ∷ update_snapshot_set id f xs

-- session.get(Job, id), and the other tables
unfoldable pub get_job : ℕ → List Job → Option Job
get_job id [] = none
get_job id (j ∷ jobs) = let later = get_job id jobs in if j.id == id then some j else later

unfoldable pub get_mirror_set : ℕ → List MirrorSet → Option MirrorSet
get_mirror_set id [] = none
get_mirror_set id (m ∷ sets) =
    let later = get_mirror_set id sets in if m.id == id then some m else later

unfoldable pub get_snapshot_set : ℕ → List SnapshotSet → Option SnapshotSet
get_snapshot_set id [] = none
get_snapshot_set id (x ∷ xs) =
    let later = get_snapshot_set id xs in if x.id == id then some x else later

-- The key that the database gives to a new row: one more than the largest.
unfoldable pub next_step_id : List JobStep → ℕ
next_step_id [] = 1
next_step_id (s ∷ steps) = max (s.id + 1) (next_step_id steps)

unfoldable pub next_snapshot_set_id : List SnapshotSet → ℕ
next_snapshot_set_id [] = 1
next_snapshot_set_id (x ∷ xs) = max (x.id + 1) (next_snapshot_set_id xs)

unfoldable pub next_job_id : List Job → ℕ
next_job_id [] = 1
next_job_id (j ∷ jobs) = max (j.id + 1) (next_job_id jobs)

-- _add_step, apart from the clock
abbrev pub new_step : ℕ → Text → Moment → Local → JobStep
new_step job_id description now l = record {
  id = next_step_id l.live.steps;
  job_id = job_id;
  position = l.next_position + 1;
  description = description;
  state = running;
  aptly_task_id = none;
  output_tail = none;
  started_at = some now;
  finished_at = none;
  total_bytes = none;
  remaining_bytes = none;
  total_packages = none;
  remaining_packages = none;
}

unfoldable pub step_added : ℕ → Text → Moment → Local → Local
unfolding committed
step_added job_id description now l = committed (record l {
  live = record l.live { steps = l.live.steps ++ new_step job_id description now l ∷ [] };
  next_position = l.next_position + 1;
})

-- `if output: step.output_tail = output[-OUTPUT_TAIL:]`
abbrev tail_of : Text → Text
tail_of output = drop (length output - output_tail) output

unfoldable pub output_set : Option Text → JobStep → JobStep
output_set none s = s
output_set (some output) s =
    if truthy output then record s { output_tail = some (tail_of output) } else s

unfoldable pub step_finished : ℕ → StepState → Option Text → Moment → Local → Local
unfolding committed output_set
step_finished id state output now l = committed (
    with_live
      (λ t. record t {
        steps =
            update_step id
              (λ s. output_set output (record s { state = state; finished_at = some now })) t.steps;
      })
      l)

-- _fail_running_steps, for one step and for all
abbrev keep_or : Option Text → Text → Option Text
keep_or none error = some (take output_tail error)
keep_or (some tail) error = if truthy tail then some tail else some (take output_tail error)

unfoldable pub fail_if_running : ℕ → Text → Moment → JobStep → JobStep
fail_if_running job_id error now s =
    if s.job_id == job_id && is_running s.state
    then record s {
      state = failed;
      finished_at = some now;
      output_tail = keep_or s.output_tail error;
    }
    else s

unfoldable pub fail_steps : ℕ → Text → Moment → List JobStep → List JobStep
unfolding fail_if_running
fail_steps job_id error now [] = []
fail_steps job_id error now (s ∷ steps) =
    fail_if_running job_id error now s ∷ fail_steps job_id error now steps

module _ (o : Outside) where
  -- datetime.now(UTC)
  unfoldable pub clock : Exec (World o.State) Moment
  unfolding gets
  clock = gets (λ s. o.now s.outside)

  unfoldable pub commit : Exec (World o.State) Unit
  unfolding change committed
  commit = change committed

  -- Returns the id of the new step.
  unfoldable pub add_step : ℕ → Text → Exec (World o.State) ℕ
  add_step job_id description = do
    now ← clock
    id ← look (λ l. next_step_id l.live.steps)
    change (step_added job_id description now)
    pure id

  unfoldable pub finish_step : ℕ → StepState → Option Text → Exec (World o.State) Unit
  finish_step id state output = do now ← clock; change (step_finished id state output now)

  unfoldable pub set_step : ℕ → (JobStep → JobStep) → Exec (World o.State) Unit
  unfolding committed
  set_step id f =
      change (λ l. committed (with_live (λ t. record t { steps = update_step id f t.steps }) l))

  unfoldable pub fail_running_steps : ℕ → Text → Exec (World o.State) Unit
  fail_running_steps job_id error = do
    now ← clock
    change (with_live (λ t. record t { steps = fail_steps job_id error now t.steps }))
    commit

  -- session.add(AuditEntry(...))
  unfoldable pub add_audit : AuditEntry → Exec (World o.State) Unit
  add_audit entry = change (with_live (λ t. record t { audit = t.audit ++ entry ∷ [] }))

  unfoldable pub set_job : ℕ → (Job → Job) → Exec (World o.State) Unit
  set_job id f = change (with_live (λ t. record t { jobs = update_job id f t.jobs }))

  unfoldable pub set_snapshot_set : ℕ → (SnapshotSet → SnapshotSet) → Exec (World o.State) Unit
  set_snapshot_set id f =
      change
        (with_live (λ t. record t { snapshot_sets = update_snapshot_set id f t.snapshot_sets }))
