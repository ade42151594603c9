-- ===== src/Jobs/Steps/Rules.antt =====
-- How the bookkeeping of a step moves a job between idle and busy.
use aptly_gui.Prelude.{
  ℕ, suc, ◌+◌, ◌≡◌, refl, ap, ◌∙◌, Bool, false, Option, some, [], ◌∷◌, ◌++◌, arith, ◌==◌,
  if◌then◌else◌, All-append,
}
use aptly_gui.Text.{Text}
use aptly_gui.Exec.{Exc}
use aptly_gui.Exec.Triple.{Triple, Triple-bind, Triple-pure}
use aptly_gui.Aptly.Client.{Outside, Moment}
use aptly_gui.Db.Models.{JobStep, StepState, is_running}
use aptly_gui.Jobs.State.{
  World, Local, look, change, clock, new_step, step_added, step_finished, output_set, add_step,
  finish_step, set_step, next_step_id,
}
use aptly_gui.Jobs.State.Rules.{Both, Triple-change, Triple-look, Triple-clock}
use aptly_gui.Jobs.Steps.{
  positions, up_to, SettledBut, Idle, Busy, Keeps, positions-append, positions-update,
  settled-update, Settled-finish, Settled-other,
}

-- The step that add_step makes is in flight, and is the next in number.
Idle-step_added :
    {job n : ℕ} (description : Text) (now : Moment) (l : Local)
    → Idle job n l
    → Busy job (suc n) (next_step_id l.live.steps) (step_added job description now l)
unfolding step_added
Idle-step_added {job} {n} description now l h = record {
  numbered =
      positions-append job l.live.steps (new_step job description now l ∷ [])
      ∙ one_more (job == job) refl;
  counter = ground (arith, h.counter);
  settled =
      All-append (SettledBut job (next_step_id l.live.steps)) l.live.steps _
        (Settled-other job _ l.live.steps h.settled) ((λ e. ground arith), tt);
  present = h.present;
}
  where
    one_more :
        (b : Bool)
        → b ≡ (job == job)
        → positions job l.live.steps ++ (if job == job then (l.next_position + 1) ∷ [] else [])
          ≡ up_to n ++ suc n ∷ []
    one_more b e = ground (arith, h.numbered, h.counter)

pub output_set-Keeps :
    (output : Option Text) (s : JobStep)
    → ((output_set output s).id ≡ s.id)
      × ((output_set output s).job_id ≡ s.job_id)
      × ((output_set output s).position ≡ s.position)
      × ((output_set output s).state ≡ s.state)
unfolding output_set
output_set-Keeps output s = ground arith

Busy-step_finished :
    {job n id : ℕ} (state : StepState) (output : Option Text) (now : Moment) (l : Local)
    → is_running state ≡ false
    → Busy job n id l
    → Idle job n (step_finished id state output now l)
unfolding step_finished
Busy-step_finished {job} {n} {id} state output now l stops h = record {
  numbered = positions-update job id _ l.live.steps keeps ∙ h.numbered;
  counter = h.counter;
  settled = Settled-finish job id _ l.live.steps ends h.settled;
  present = h.present;
}
  where
    end : JobStep → JobStep
    end s = record s { state = state; finished_at = some now }

    keeps : Keeps (λ s. output_set output (end s))
    keeps = record {
      id = λ s. (output_set-Keeps output (end s)).0;
      job_id = λ s. (output_set-Keeps output (end s)).1;
      position = λ s. (output_set-Keeps output (end s)).2;
    }

    ends : (s : JobStep) → is_running (output_set output (end s)).state ≡ false
    ends s = ap is_running (output_set-Keeps output (end s)).3 ∙ stops

module _ (o : Outside) {P : o.State → Type 0} {R : Exc → World o.State → Type 0} {job n : ℕ} where
  pub Triple-add_step :
      (description : Text)
      → Triple
          (Both P (Idle job n))
          (add_step o job description)
          (λ id. Both P (Busy job (suc n) id))
          R
  unfolding add_step
  Triple-add_step description = Triple-bind (clock o) _ (Triple-clock o) λ now.
      Triple-bind (look _) _ (Triple-look _) λ id.
        Triple-bind (change _) _
          (Triple-change {U = Busy job (suc n) id} _
            (λ l h. rw h.0 (Idle-step_added description now l h.1)))
          λ _. Triple-pure id (λ s p. p)

  pub Triple-finish_step :
      (id : ℕ) (state : StepState) (output : Option Text)
      → is_running state ≡ false
      → Triple (Both P (Busy job n id)) (finish_step o id state output) (λ _. Both P (Idle job n)) R
  unfolding finish_step
  Triple-finish_step id state output stops =
      Triple-bind (clock o) _ (Triple-clock o)
        λ now. Triple-change _ (λ l h. Busy-step_finished state output now l stops h)

  pub Triple-set_step :
      (id : ℕ) (f : JobStep → JobStep)
      → Keeps f
      → Triple (Both P (Busy job n id)) (set_step o id f) (λ _. Both P (Busy job n id)) R
  unfolding set_step
  Triple-set_step id f k = Triple-change _ λ l h. record {
    numbered = positions-update job id f l.live.steps k ∙ h.numbered;
    counter = h.counter;
    settled = settled-update job id f l.live.steps k h.settled;
    present = h.present;
  }
