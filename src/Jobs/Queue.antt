-- ===== src/Jobs/Queue.antt =====
-- The runner's worker over many jobs: JobRunner.__init__, start and _run_forever, with the calls of
-- `enqueue` between the rounds. A round is one entry of the queue taken and worked to its end.
pub mod Turn
pub mod Lined
pub mod Ready
pub mod Drain
use aptly_gui.Prelude.{ℕ, zero, suc, ◌≡◌, none, List, [], ◌∷◌, Option}
use aptly_gui.Text.{Text}
use aptly_gui.Exec.{Exec, pure, ◌>>=◌, ◌>>◌}
use aptly_gui.Aptly.Client.{Outside}
use aptly_gui.Db.Models.{JobType, Params, Tables}
use aptly_gui.Services.Space.{Margin}
use aptly_gui.Jobs.State.{World, Local, look, get_job}
use aptly_gui.Jobs.Steps.{positions}
use aptly_gui.Jobs.Run.{recover_orphans, enqueue, run_next}

-- What a new runner holds, on a database.
abbrev pub fresh : Tables → Local
fresh t = record { live = t; durable = t; next_position = 0; current_job_id = none; queue = [] }

-- Every step of the table is a step of a job of the table.
abbrev pub Owned : Tables → Type 0
Owned t = (id : ℕ) → get_job id t.jobs ≡ none → positions id t.steps ≡ []

module _ (o : Outside) (margin : Margin) (timeout fuel : ℕ) where
  -- The body of the loop; on an empty queue the worker waits.
  unfoldable pub round : List ℕ → Exec (World o.State) Unit
  round [] = pure tt
  round (job_id ∷ rest) = run_next o margin timeout fuel job_id rest

  -- _run_forever, for a number of rounds
  unfoldable pub run_rounds : ℕ → Exec (World o.State) Unit
  run_rounds zero = pure tt
  run_rounds (suc n) = do queue ← look (λ l. l.queue); round queue; run_rounds n

  -- start
  unfoldable pub start : o.State → Tables → World o.State
  start w t = (recover_orphans o margin timeout fuel (record { outside = w; own = fresh t })).1

  -- What may happen between two states of the runner in which no job runs.
  pub data Next : World o.State → World o.State → Type 0 where
    enqueues :
        (type : JobType) (set : Option ℕ) (author : Text) (params : Params) (s : World o.State)
        → Next s (enqueue o margin timeout fuel type set author params s).1
    works : (s : World o.State) → Next s (run_rounds 1 s).1
    -- the page handlers write other tables, and aptly goes on by itself
    writes :
        (s t : World o.State)
        → t.own.queue ≡ s.own.queue
        → t.own.current_job_id ≡ s.own.current_job_id
        → t.own.live.jobs ≡ s.own.live.jobs
        → t.own.live.steps ≡ s.own.live.steps
        → Next s t

  pub data Reached : World o.State → Type 0 where
    starts : (w : o.State) (t : Tables) → Owned t → Reached (start w t)
    then_next : {s t : World o.State} → Reached s → Next s t → Reached t
