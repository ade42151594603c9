-- ===== src/Db/Progress.antt =====
-- The progress that a job's row and its steps compute from themselves (db/models.py). The percentages
-- and the speed are floating-point in the source, and rounded down to whole numbers here; times are
-- whole seconds.
use aptly_gui.Prelude.{
  ℕ, suc, ◌-◌, ◌*◌, ◌/◌, max, min, ◌&&◌, ◌==◌, leb, ltb, Bool, true, false, Option, none, some,
  List, [], ◌∷◌, length, if◌then◌else◌,
}
use aptly_gui.Aptly.Client.{Moment}
use aptly_gui.Db.Models.{Job, JobStep, StepState}
use aptly_gui.Services.Space.{or_zero}

-- max(self.expected_steps or 0, len(self.steps))
unfoldable pub total_steps : Job → List JobStep → ℕ
total_steps job steps = max (or_zero job.expected_steps) (length steps)

abbrev pub has_succeeded : StepState → Bool
has_succeeded StepState.succeeded = true
has_succeeded _ = false

unfoldable pub done_steps : List JobStep → ℕ
done_steps [] = 0
done_steps (s ∷ steps) =
    let rest = done_steps steps in if has_succeeded s.state then suc rest else rest

-- The seconds left at a speed of `downloaded` bytes in `elapsed` seconds, rounded down.
time_left : ℕ → ℕ → Option ℕ → Option ℕ
time_left downloaded elapsed none = none
time_left downloaded elapsed (some remaining) = some (remaining * elapsed / downloaded)

abbrev is_known : Option ℕ → Bool
is_known none = false
is_known (some n) = true

-- JobStep.has_progress
unfoldable pub has_progress : JobStep → Bool
has_progress s = is_known s.total_bytes && is_known s.remaining_bytes

-- max(0.0, (end - started_at).total_seconds()), where `end` is `finished_at or now`
unfoldable pub elapsed_seconds : Moment → Option Moment → Option Moment → ℕ
elapsed_seconds now none finished_at = 0
elapsed_seconds now (some started_at) none = now.epoch - started_at.epoch
elapsed_seconds now (some started_at) (some finished_at) = finished_at.epoch - started_at.epoch

-- `max(0, total - remaining)`. The columns stand for the counts of aptly's reply, which are not
-- negative here (a negative number in a reply is outside the model); on those the truncated difference
-- is the source's.
difference : Option ℕ → Option ℕ → ℕ
difference (some total) (some remaining) = total - remaining
difference _ _ = 0

unfoldable pub downloaded_bytes : JobStep → ℕ
unfolding difference
downloaded_bytes s = difference s.total_bytes s.remaining_bytes

unfoldable pub done_packages : JobStep → ℕ
unfolding difference
done_packages s = difference s.total_packages s.remaining_packages

-- The two tests of JobStep.percent that need no division: 100 and 0 for a step without a total.
unfoldable pub percent_without_total : JobStep → ℕ
percent_without_total s = if has_succeeded s.state then 100 else 0

-- Job.elapsed_seconds
unfoldable pub job_elapsed_seconds : Moment → Job → ℕ
job_elapsed_seconds now job = elapsed_seconds now job.started_at job.finished_at

-- JobStep.percent, rounded down
unfoldable pub step_percent : JobStep → ℕ
unfolding percent_without_total
step_percent s =
    if or_zero s.total_bytes == 0
    then percent_without_total s
    else min 100 (100 * downloaded_bytes s / or_zero s.total_bytes)

-- Job.percent, rounded down
unfoldable pub job_percent : Job → List JobStep → ℕ
job_percent job steps =
    if total_steps job steps == 0
    then 0
    else min 100 (100 * done_steps steps / total_steps job steps)

-- JobStep.bytes_per_second, rounded down; none where the source has None. Two seconds are whole ones.
unfoldable pub bytes_per_second : Moment → JobStep → Option ℕ
unfolding elapsed_seconds has_progress
bytes_per_second now s =
    let elapsed = elapsed_seconds now s.started_at s.finished_at in
    if has_progress s && (leb 2 elapsed && ltb 0 (downloaded_bytes s))
    then some (downloaded_bytes s / elapsed)
    else none

abbrev when_known : Option ℕ → Option ℕ → Option ℕ
when_known none found = none
when_known (some speed) found = found

-- JobStep.eta_seconds, rounded down; none where the source has None
unfoldable pub eta_seconds : Moment → JobStep → Option ℕ
unfolding time_left
eta_seconds now s = when_known (bytes_per_second now s) (
    time_left (downloaded_bytes s) (elapsed_seconds now s.started_at s.finished_at)
      s.remaining_bytes)

-- A bar of `done` parts of `total`.
abbrev bar : ℕ → ℕ → ℕ
bar done total = if total == 0 then 0 else min 100 (100 * done / total)
