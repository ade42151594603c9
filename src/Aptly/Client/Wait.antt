-- ===== src/Aptly/Client/Wait.antt =====
-- AptlyClient.wait_for_task: polling a task until it finishes or the time is up. Times are whole
-- seconds; `sleep` of `Outside` is the sleep of one interval.
use aptly_gui.Prelude.{
  ℕ, zero, suc, ◌+◌, ◌*◌, ◌≤◌, ◌<◌, ◌≡◌, refl, Bool, true, false, Option, none, some, ◌++◌, ◌⊎◌,
  inl, inr, leb, arith, if◌then◌else◌,
}
use aptly_gui.Text.{Text, codes, decimal}
use aptly_gui.Exec.{
  Exec, Exc, Outcome, returned, threw, stuck, pure, raise, hang, modify, task_failed, timeout_error,
  ◌>>=◌, ◌>>◌,
}
use aptly_gui.Exec.Triple.{
  Triple, Post, Triple-bind, Triple-pure, Triple-raise, Triple-if, Triple-modify,
}
use aptly_gui.Aptly.Models.{
  Task, TaskState, queued, running, succeeded, failed, finished, parse_task,
}
use aptly_gui.Aptly.Client.{Outside}
use aptly_gui.Aptly.Client.Requests.{get_task, task_output}
use aptly_gui.Aptly.Client.Bodies.{get_request}
use aptly_gui.Aptly.Client.Keeps.{Survives, Triple-ask_reply, Triple-tell}

-- task.state.name
abbrev state_name : TaskState → Text
state_name queued = codes "QUEUED"
state_name running = codes "RUNNING"
state_name succeeded = codes "SUCCEEDED"
state_name failed = codes "FAILED"

abbrev pub is_failed : TaskState → Bool
is_failed failed = true
is_failed _ = false

-- `timeout is not None and waited >= timeout`
abbrev is_over : Option ℕ → ℕ → Bool
is_over none waited = false
is_over (some timeout) waited = leb timeout waited

module _ (o : Outside) where
  unfoldable pub sleep_once : Exec o.State Unit
  unfolding modify
  sleep_once = modify o.sleep

  unfoldable pub settle_task : ℕ → Task → Exec o.State Task
  settle_task task_id task =
      if is_failed task.state
      then (do output ← task_output o task_id; raise (task_failed task.name output))
      else pure task

  unfoldable pub out_of_time : ℕ → Task → ℕ → Exec o.State Task
  out_of_time task_id task waited = raise (
      timeout_error (
        codes "task "
        ++ (decimal task_id
            ++ (codes " still "
                ++ (state_name task.state ++ (codes " after " ++ (decimal waited ++ codes "s")))))))

  unfoldable pub wait_loop : ℕ → ℕ → ℕ → Option ℕ → ℕ → Exec o.State Task
  wait_loop zero task_id poll_interval timeout waited = hang
  wait_loop (suc fuel) task_id poll_interval timeout waited = do
    task ← get_task o task_id
    let again = (do
      sleep_once
      wait_loop fuel task_id poll_interval timeout (waited + poll_interval))
    let unfinished = if is_over timeout waited then out_of_time task_id task waited else again
    if finished task.state then settle_task task_id task else unfinished

  unfoldable pub wait_for_task : ℕ → ℕ → ℕ → Option ℕ → Exec o.State Task
  wait_for_task fuel task_id poll_interval timeout = wait_loop fuel task_id poll_interval timeout 0

-- What the caller gets where it gets a task: a task that has finished and did not fail.
abbrev pub Succeeded : Task → Type 0
Succeeded task = (finished task.state ≡ true) × (is_failed task.state ≡ false)

module _ (o : Outside) where
  abbrev Anywhere : o.State → Type 0
  Anywhere w = Unit

  anything : (path : Text) → Survives o Anywhere (get_request path)
  anything path = record { at = λ w h. tt }

  Triple-settle_task :
      (task_id : ℕ) (task : Task)
      → finished task.state ≡ true
      → Triple Anywhere (settle_task o task_id task) (λ t _. Succeeded t) (λ _ _. Unit {0})
  unfolding settle_task
  Triple-settle_task task_id task e =
      Triple-if (is_failed task.state) _ _
        (λ _.
          Triple-bind {Q = λ _. Anywhere} (task_output o task_id) _
            (unfold task_output in Triple-tell _ _ (anything _))
            λ output. Triple-raise _ (λ _ _. tt))
        λ f. Triple-pure task (λ _ _. (e, f))

  Triple-wait_loop :
      (fuel task_id poll_interval timeout waited : ℕ)
      → timeout + poll_interval ≤ waited + fuel * poll_interval
      → waited < timeout + poll_interval
      → Triple Anywhere
          (wait_loop o fuel task_id poll_interval (some timeout) waited)
          (λ t _. Succeeded t)
          (λ _ _. Unit {0})
  unfolding wait_loop
  Triple-wait_loop zero task_id poll_interval timeout waited enough early =
      absurd (omega (arith, enough, early))
  Triple-wait_loop (suc fuel) task_id poll_interval timeout waited enough early =
      Triple-bind {Q = λ _. Anywhere} (get_task o task_id) _
        (unfold get_task in Triple-ask_reply _ parse_task (anything _))
        λ task. Triple-if (finished task.state) _ _ (Triple-settle_task task_id task) λ _.
          Triple-if (leb timeout waited) _ _ (λ _. unfold out_of_time in Triple-raise _ (λ _ _. tt))
            λ left.
              Triple-bind {Q = λ _. Anywhere} (sleep_once o) _
                (unfold sleep_once in Triple-modify _ (λ _ _. tt))
                λ _.
                  Triple-wait_loop fuel task_id poll_interval timeout (waited + poll_interval)
                    (omega (arith, enough)) (ground (arith, left))

fails_not_stuck :
    (o : Outside) (r : Outcome Task) (w : o.State)
    → Post {S = o.State} (λ t _. Succeeded t) (λ _ _. Unit {0}) r w
    → ((task : Task) × (r ≡ returned task) × Succeeded task) ⊎ ((e : Exc) × (r ≡ threw e))
fails_not_stuck o (returned task) w h = inl (task, refl, h)
fails_not_stuck o (threw e) w h = inr (e, refl)
fails_not_stuck o stuck w h = absurd h

-- A wait with a timeout comes to its end whatever aptly answers: for a fuel whose intervals cover the
-- timeout and one interval more, and an interval that is not zero, it returns a task that has finished
-- and did not fail, or raises.
pub wait_for_task_ends :
    (o : Outside) (fuel task_id poll_interval timeout : ℕ) (w : o.State)
    → 0 < poll_interval
    → timeout + poll_interval ≤ fuel * poll_interval
    → let (r, v) = wait_for_task o fuel task_id poll_interval (some timeout) w in
      ((task : Task) × (r ≡ returned task) × Succeeded task) ⊎ ((e : Exc) × (r ≡ threw e))
unfolding wait_for_task
wait_for_task_ends o fuel task_id poll_interval timeout w moves enough = fails_not_stuck o _ _ (
    (Triple-wait_loop o fuel task_id poll_interval timeout 0 (omega (arith, enough))
        (omega (arith, moves))).at
      w tt)
