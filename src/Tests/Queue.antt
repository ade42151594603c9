-- ===== src/Tests/Queue.antt =====
-- The worker's theorems, applied to a runner that was started and given two jobs.
use aptly_gui.Prelude.{◌≡◌, refl, none, some, [], ◌∷◌, length, All}
use aptly_gui.Text.{codes}
use aptly_gui.Exec.{returned}
use aptly_gui.Db.Models.{update, switch}
use aptly_gui.Jobs.State.{World}
use aptly_gui.Jobs.Run.{enqueue}
use aptly_gui.Jobs.Queue.Turn.{Done}
use aptly_gui.Jobs.Queue.Lined.{Ready}
use aptly_gui.Jobs.Queue.Ready.{Reached-Ready}
use aptly_gui.Jobs.Queue.Drain.{drains}
use aptly_gui.Jobs.Queue.{Owned, start, run_rounds, Reached, starts, then_next, enqueues}
use aptly_gui.Tests.Sample.{
  prompt_aptly, prompt-Patience, sample_set, sample_tables, sample_margin, sample_params,
}

abbrev first_day : World Unit
first_day = start prompt_aptly sample_margin 60 1 tt (sample_tables update (sample_set ∷ []))

sample-Owned : Owned (sample_tables update (sample_set ∷ []))
sample-Owned id e = refl

-- A publication of the sample's set, and one for a set that is not there.
abbrev busy : World Unit
busy =
    (enqueue prompt_aptly sample_margin 60 1 switch (some 2) (codes "bob") sample_params
      (enqueue prompt_aptly sample_margin 60 1 switch (some 1) (codes "ann") sample_params
        first_day).1).1

busy-Reached : Reached prompt_aptly sample_margin 60 1 busy
busy-Reached =
    then_next
      (then_next (starts tt (sample_tables update (sample_set ∷ [])) sample-Owned)
        (enqueues switch (some 1) (codes "ann") sample_params first_day))
      (enqueues switch (some 2) (codes "bob") sample_params _)

Reached-Ready_example : Ready busy.own
Reached-Ready_example = Reached-Ready prompt_aptly sample_margin 60 1 prompt-Patience busy-Reached

drains_example :
    let (r, t) = run_rounds prompt_aptly sample_margin 60 1 (length busy.own.queue) busy in
    (r ≡ returned tt)
    × (t.own.queue ≡ [])
    × (t.own.current_job_id ≡ none)
    × All (λ id. Done id t.own.live) busy.own.queue
drains_example = drains prompt_aptly sample_margin 60 1 prompt-Patience busy busy-Reached
