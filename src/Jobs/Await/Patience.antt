-- ===== src/Jobs/Await/Patience.antt =====
-- Waiting for a task ends: what is assumed of aptly, and what the wait keeps.
use mathlib.Core.Path.{subst}
use aptly_gui.Prelude.{
  ℕ, zero, suc, ◌/◌, ◌<◌, ◌≡◌, refl, sym, ap, ◌∙◌, false, Option, none, some, List, [], ◌∷◌, arith,
}
use aptly_gui.Text.{Text}
use aptly_gui.Exec.{Exec, Exc, returned, raise, ◌>>=◌, ◌>>◌}
use aptly_gui.Exec.Triple.{
  Triple, Triple-bind, Triple-pure, Triple-raise, Triple-if, Triple-weaken, Triple-from,
  Triple-exactly, Triple-modify,
}
use aptly_gui.Aptly.Models.{Task, TaskProgress, finished, parse_task, parse_storage}
use aptly_gui.Aptly.Client.{Outside, Request}
use aptly_gui.Aptly.Client.Keeps.{Survives, Triple-ask_reply, Triple-tell}
use aptly_gui.Aptly.Client.Requests.{get_task, task_output, task_progress, storage}
use aptly_gui.Aptly.Client.Bodies.{get_request}
use aptly_gui.Services.Space.{Margin, check}
use aptly_gui.Jobs.State.{World, ask, set_step}
use aptly_gui.Jobs.State.Rules.{Both, Triple-ask}
use aptly_gui.Jobs.Steps.{Busy, Numbered, Busy-Numbered}
use aptly_gui.Jobs.Steps.Rules.{Triple-set_step}
use aptly_gui.Jobs.Await.{
  guard_disk, record_progress, pause, await_loop, await_task, with_progress, nothing_left,
  has_failed, mib,
}

-- What is outside after a list of requests, the last first.
abbrev pub after : (o : Outside) → List Request → o.State → o.State
after o [] w = w
after o (r ∷ rs) w = (o.respond r (after o rs w)).1

-- Aptly runs its tasks to an end: `left id w` bounds the number of polls that will still find the
-- task `id` unfinished. Where a poll finds it so, one interval later the bound has fallen, whatever
-- was asked in between.
pub record Patience (o : Outside) (fuel : ℕ) : Type 0 where
  pub left : ℕ → o.State → ℕ
  pub bounded : (id : ℕ) (w : o.State) → left id w < fuel
  pub falls :
      (id : ℕ) (w : o.State) (task : Task) (rs : List Request)
      → (get_task o id w).0 ≡ returned task
      → finished task.state ≡ false
      → left id (o.sleep (after o rs (get_task o id w).1)) < left id w

-- A predicate that reading and sleeping keep.
pub record Reads (o : Outside) (P : o.State → Type 0) : Type 0 where
  pub reads : (path : Text) → Survives o P (get_request path)
  pub sleeps : (w : o.State) → P w → P (o.sleep w)

-- `P`, on a state that requests have led to from `w`
abbrev pub Since : (o : Outside) → (o.State → Type 0) → o.State → o.State → Type 0
Since o P w v = P v × ((rs : List Request) × (v ≡ after o rs w))

Since-Survives :
    (o : Outside) (P : o.State → Type 0) (w : o.State) (r : Request)
    → Survives o P r
    → Survives o (Since o P w) r
Since-Survives o P w r k = record {
  at = λ v h. (k.at v h.0, (r ∷ h.1.0, ap (λ u. (o.respond r u).1) h.1.1));
}

-- How a method of a job ends that raises.
abbrev pub Broken : {W : Type 0} → (W → Type 0) → ℕ → Exc → World W → Type 0
Broken P job e = Both P (Numbered job)

module _ (o : Outside) (margin : Margin) {P : o.State → Type 0} (job n step : ℕ) where
  module _ {Q : o.State → Type 0} (q : (v : o.State) → Q v → P v) where
    -- One request, on a busy job.
    pub Triple-Busy-ask :
        {A : Type 0} (m : Exec o.State A)
        → Triple Q m (λ _. Q) (λ _. Q)
        → Triple (Both Q (Busy job n step)) (ask m) (λ _. Both Q (Busy job n step)) (Broken P job)
    Triple-Busy-ask m t =
        Triple-weaken (λ s h. h) (λ a s h. h)
          (λ e s h. record { out = q _ h.out; own = Busy-Numbered h.own }) (Triple-ask m t)

    pub Triple-Busy-raise :
        {A : Type 0} {Q' : A → World o.State → Type 0} (e : Exc)
        → Triple (Both Q (Busy job n step)) (raise e) Q' (Broken P job)
    Triple-Busy-raise e =
        Triple-raise e (λ s h. record { out = q _ h.out; own = Busy-Numbered h.own })

    module _ (reads : (path : Text) → Survives o Q (get_request path)) where
      Triple-guard_disk :
          (remaining : ℕ)
          → Triple
              (Both Q (Busy job n step))
              (guard_disk o margin remaining)
              (λ _. Both Q (Busy job n step))
              (Broken P job)
      unfolding guard_disk storage
      Triple-guard_disk remaining =
          Triple-bind (ask (storage o)) _
            (Triple-Busy-ask (storage o) (Triple-ask_reply _ parse_storage (reads _)))
            λ found.
              Triple-if (check found margin (some (remaining / mib))).ok _ _
                (λ _. Triple-pure tt (λ s h. h)) λ _. Triple-Busy-raise _

      pub Triple-record_progress :
          (progress : Option TaskProgress)
          → Triple
              (Both Q (Busy job n step))
              (record_progress o margin step progress)
              (λ _. Both Q (Busy job n step))
              (Broken P job)
      unfolding record_progress
      Triple-record_progress none = Triple-pure tt (λ s h. h)
      Triple-record_progress (some p) =
          Triple-bind (set_step o step _) _
            (Triple-set_step o step (with_progress p)
              (record { id = λ s. refl; job_id = λ s. refl; position = λ s. refl }))
            λ _. Triple-guard_disk p.remaining_bytes

  module _ {fuel : ℕ} (patience : Patience o fuel) (reads : Reads o P) where
    -- A busy job, in a state from which the task has fewer than `k` polls left.
    abbrev Waiting : ℕ → ℕ → World o.State → Type 0
    Waiting task_id k = Both (λ w. P w × (patience.left task_id w < k)) (Busy job n step)

    -- One interval after a poll that found the task unfinished.
    Triple-pause :
        (k task_id : ℕ) (w : o.State) (task : Task)
        → patience.left task_id w < suc k
        → (get_task o task_id w).0 ≡ returned task
        → finished task.state ≡ false
        → Triple
            (Both (Since o P (get_task o task_id w).1) (Busy job n step))
            (pause o margin)
            (λ _. Waiting task_id k)
            (Broken P job)
    unfolding pause
    Triple-pause k task_id w task few found open_ = Triple-modify _ λ s h. record {
      out = (
        reads.sleeps s.outside h.out.0,
        subst (λ v. patience.left task_id (o.sleep v) < k) (sym h.out.1.1)
            (omega (arith, patience.falls task_id w task h.out.1.0 found open_)),
      );
      own = h.own;
    }

    module _ (k task_id : ℕ) (w : o.State) (task : Task) where
      abbrev Polled : World o.State → Type 0
      Polled = Both (Since o P (get_task o task_id w).1) (Busy job n step)

      -- The rest of a round that found the task unfinished.
      Triple-again :
          patience.left task_id w < suc k
          → (get_task o task_id w).0 ≡ returned task
          → finished task.state ≡ false
          → Triple
              (Waiting task_id k)
              (await_loop o margin k step task_id)
              (λ _. Both P (Busy job n step))
              (Broken P job)
          → Triple Polled
              (ask (task_progress o task_id) >>= λ progress.
                record_progress o margin step progress
                >> (pause o margin >> await_loop o margin k step task_id))
              (λ _. Both P (Busy job n step))
              (Broken P job)
      Triple-again few found open_ ih =
          Triple-bind (ask (task_progress o task_id)) _
            (Triple-Busy-ask (λ v h. h.0) (task_progress o task_id)
              (unfold task_progress in Triple-ask_reply _ _ (since _)))
            λ progress.
              Triple-bind (record_progress o margin step progress) _
                (Triple-record_progress (λ v h. h.0) since progress)
                λ _.
                  Triple-bind (pause o margin) _ (Triple-pause k task_id w task few found open_)
                    λ _. ih
        where
          since : (path : Text) → Survives o (Since o P (get_task o task_id w).1) (get_request path)
          since path = Since-Survives o P _ _ (reads.reads path)

    Triple-await_loop :
        (k task_id : ℕ)
        → Triple
            (Waiting task_id k)
            (await_loop o margin k step task_id)
            (λ _. Both P (Busy job n step))
            (Broken P job)
    unfolding await_loop ask
    Triple-await_loop zero task_id = record { at = λ s h. absurd (omega (arith, h.out.1)) }
    Triple-await_loop (suc k) task_id = Triple-from λ s h.
        Triple-bind (ask (get_task o task_id)) _
          (Triple-exactly (ask (get_task o task_id)) s (record { out = h.out.0; own = h.own })
            (Triple-Busy-ask (λ v p. p) (get_task o task_id)
              (unfold get_task in Triple-ask_reply _ parse_task (reads.reads _))))
          λ task.
            Triple-if (finished task.state) _ _ (λ _. Triple-pure task (λ v p. p.2))
              λ open_. Triple-from λ v p.
                Triple-weaken
                  (λ u e. record {
                    out = (
                      subst (λ x. P x.outside) (sym e) p.2.out,
                      ([], ap (λ x. x.outside) e ∙ ap (λ x. x.outside) p.1),
                    );
                    own = subst (λ x. Busy job n step x.own) (sym e) p.2.own;
                  })
                  (λ a u p. p) (λ e u p. p)
                  (Triple-again k task_id s.outside task h.out.1 p.0 open_
                    (Triple-await_loop k task_id))

    pub Triple-await_task :
        (task_id : ℕ)
        → Triple
            (Both P (Busy job n step))
            (await_task o margin fuel step task_id)
            (λ _. Both P (Busy job n step))
            (Broken P job)
    unfolding await_task
    Triple-await_task task_id =
        Triple-bind (await_loop o margin fuel step task_id) _
          (Triple-weaken
            (λ s h. record { out = (h.out, patience.bounded task_id s.outside); own = h.own })
            (λ a s h. h) (λ e s h. h) (Triple-await_loop fuel task_id))
          λ task.
            Triple-bind (ask (task_output o task_id)) _
              (Triple-Busy-ask (λ v h. h) (task_output o task_id)
                (unfold task_output in Triple-tell _ _ (reads.reads _)))
              λ output.
                Triple-if (has_failed task.state) _ _ (λ _. Triple-Busy-raise (λ v h. h) _)
                  λ _.
                    Triple-bind (set_step o step nothing_left) _
                      (Triple-set_step o step nothing_left (record {
                        id = λ s. ground arith;
                        job_id = λ s. ground arith;
                        position = λ s. ground arith;
                      }))
                      λ _. Triple-pure output (λ s h. h)
