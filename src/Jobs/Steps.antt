-- ===== src/Jobs/Steps.antt =====
-- The steps of one job in the table: numbered 1, 2, …, and at most the latest in flight.
pub mod Rules
pub mod Frame
use mathlib.Core.Path.{subst}
use aptly_gui.Prelude.{
  ℕ, zero, suc, ◌+◌, ◌≡◌, refl, sym, ap, ◌∙◌, Bool, true, false, Option, none, some, List, [], ◌∷◌,
  ◌++◌, arith, ◌==◌, ==_iff, if◌then◌else◌, All, All-append, append_assoc,
}
use aptly_gui.Text.{Text}
use aptly_gui.Exec.{Exc, pure, ◌>>=◌}
use aptly_gui.Exec.Triple.{Triple, Triple-bind, Triple-pure, Triple-weaken}
use aptly_gui.Aptly.Client.{Outside, Moment}
use aptly_gui.Db.Models.{Job, JobStep, StepState, is_running}
use aptly_gui.Jobs.State.{
  World, Local, ask, look, change, clock, new_step, step_added, step_finished, output_set,
  update_step, committed, fail_steps, fail_if_running, add_step, finish_step, set_step,
  next_step_id, get_job,
}
use aptly_gui.Jobs.State.Rules.{Both, Triple-ask, Triple-change, Triple-look, Triple-clock}

-- The positions of a job's steps, in the order of the table.
abbrev pub positions : ℕ → List JobStep → List ℕ
positions job [] = []
positions job (s ∷ steps) =
    let rest = positions job steps in if s.job_id == job then s.position ∷ rest else rest

-- 1, 2, …, n
abbrev pub up_to : ℕ → List ℕ
up_to zero = []
up_to (suc n) = up_to n ++ suc n ∷ []

-- A step that is not this job's, or is not running.
abbrev pub Settled : ℕ → JobStep → Type 0
Settled job s = s.job_id ≡ job → is_running s.state ≡ false

-- The same of every step but the one with an id.
abbrev pub SettledBut : ℕ → ℕ → JobStep → Type 0
SettledBut job id s = (s.id == id) ≡ false → s.job_id ≡ job → is_running s.state ≡ false

-- The job's row is in the table.
abbrev pub HasRow : ℕ → Local → Type 0
HasRow job l = (row : Job) × (get_job job l.live.jobs ≡ some row)

pub record Idle (job n : ℕ) (l : Local) : Type 0 where
  pub numbered : positions job l.live.steps ≡ up_to n
  pub counter : l.next_position ≡ n
  pub settled : All (Settled job) l.live.steps
  pub present : HasRow job l

pub record Busy (job n id : ℕ) (l : Local) : Type 0 where
  pub numbered : positions job l.live.steps ≡ up_to n
  pub counter : l.next_position ≡ n
  pub settled : All (SettledBut job id) l.live.steps
  pub present : HasRow job l

pub record Numbered (job : ℕ) (l : Local) : Type 0 where
  pub count : ℕ
  pub numbered : positions job l.live.steps ≡ up_to count
  pub present : HasRow job l

pub Idle-Numbered : {job n : ℕ} {l : Local} → Idle job n l → Numbered job l
Idle-Numbered {n = n} h = record { count = n; numbered = h.numbered; present = h.present }

pub Busy-Numbered : {job n id : ℕ} {l : Local} → Busy job n id l → Numbered job l
Busy-Numbered {n = n} h = record { count = n; numbered = h.numbered; present = h.present }

-- Other tables do not matter.
pub Idle-same :
    {job n : ℕ} {l m : Local}
    → Idle job n l
    → m.live.steps ≡ l.live.steps
    → m.next_position ≡ l.next_position
    → HasRow job m
    → Idle job n m
Idle-same {job} {n} h e c p = record {
  numbered = ap (positions job) e ∙ h.numbered;
  counter = c ∙ h.counter;
  settled = subst (All (Settled job)) (sym e) h.settled;
  present = p;
}

pub positions-append :
    (job : ℕ) (xs ys : List JobStep)
    → positions job (xs ++ ys) ≡ positions job xs ++ positions job ys
positions-append job [] ys = refl
positions-append job (x ∷ xs) ys = ground (arith, positions-append job xs ys)

-- A change of one step that keeps what it is and whose it is.
pub record Keeps (f : JobStep → JobStep) : Type 0 where
  pub id : (s : JobStep) → (f s).id ≡ s.id
  pub job_id : (s : JobStep) → (f s).job_id ≡ s.job_id
  pub position : (s : JobStep) → (f s).position ≡ s.position

pub positions-update :
    (job id : ℕ) (f : JobStep → JobStep) (steps : List JobStep)
    → Keeps f
    → positions job (update_step id f steps) ≡ positions job steps
unfolding update_step
positions-update job id f [] k = refl
positions-update job id f (s ∷ steps) k =
    ground (arith, positions-update job id f steps k, k.job_id s, k.position s)

settled-update :
    (job id : ℕ) (f : JobStep → JobStep) (steps : List JobStep)
    → Keeps f
    → All (SettledBut job id) steps
    → All (SettledBut job id) (update_step id f steps)
unfolding update_step
settled-update job id f [] k h = tt
settled-update job id f (s ∷ steps) k h =
    (ground (arith, k.id s, k.job_id s, h.0), settled-update job id f steps k h.1)

-- When the one step that may be running is changed to a state that is not, all are settled.
Settled-finish :
    (job id : ℕ) (f : JobStep → JobStep) (steps : List JobStep)
    → ((s : JobStep) → is_running (f s).state ≡ false)
    → All (SettledBut job id) steps
    → All (Settled job) (update_step id f steps)
unfolding update_step
Settled-finish job id f [] stops h = tt
Settled-finish job id f (s ∷ steps) stops h =
    (ground (arith, stops s, h.0), Settled-finish job id f steps stops h.1)

Settled-other :
    (job id : ℕ) (steps : List JobStep) → All (Settled job) steps → All (SettledBut job id) steps
Settled-other job id [] h = tt
Settled-other job id (s ∷ steps) h = ((λ _. h.0), Settled-other job id steps h.1)
