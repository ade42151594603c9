-- ===== src/Jobs/Run/Rules.antt =====
-- The rules for one job as the runner executes it, up to `Ended`.
use aptly_gui.Prelude.{ℕ, ◌≡◌, refl, ap, ◌∙◌, inl, inr, Option, none, some}
use aptly_gui.Exec.{Exc, Outcome, returned, threw, describe, catch, ◌>>◌}
use aptly_gui.Exec.Triple.{
  Triple, Triple-bind, Triple-weaken, Triple-catch, Triple-exactly, Triple-from,
}
use aptly_gui.Aptly.Client.{Outside}
use aptly_gui.Db.Models.{
  Job, JobState, JobType, create, update, switch, discard, remove, cleanup, MirrorSet,
}
use aptly_gui.Services.Space.{Margin}
use aptly_gui.Jobs.Plan.{expected_steps}
use aptly_gui.Jobs.State.{
  World, look, change, clock, commit, set_job, get_job, add_audit, fail_running_steps,
}
use aptly_gui.Jobs.State.Rows.{get_job-update_some, get_job-update}
use aptly_gui.Jobs.State.Rules.{Both, Triple-change, Triple-look, Triple-clock}
use aptly_gui.Jobs.Steps.{Idle, Numbered, Idle-same}
use aptly_gui.Jobs.Await.Patience.{Patience, Reads, Broken}
use aptly_gui.Jobs.Work.Rules.{Triple-Idle-raise}
use aptly_gui.Jobs.Work.Jobs.{Triple-create_job, Triple-discard_job, Triple-remove_job}
use aptly_gui.Jobs.Update.Rules.{Triple-update_job}
use aptly_gui.Jobs.Switch.Rules.{Triple-switch_job}
use aptly_gui.Jobs.Run.Confining.{Within-work}
use aptly_gui.Jobs.Run.Announced.{Announces, Announcing-Movable, Known, Triple-Known}
use aptly_gui.Jobs.Run.Ending.{
  Asks, AsksOnSet, Failing, Tried, Closed, Audited, Ended, positions-fail_steps, Settled-fail_steps,
}
use aptly_gui.Jobs.Run.{
  planned_steps, work, work_without_set, work_on_set, begin, fail_job, succeed_job, close_job,
  audit_row, execute,
}

module _ (o : Outside) (margin : Margin) (timeout fuel : ℕ) {P : o.State → Type 0} (job : Job)
    (patience : Patience o fuel) (reads : Reads o P) where
  -- The work of a set's job, by type: the steps are those of `expected_steps`.
  Triple-work_on_set :
      (type : JobType) (set : MirrorSet)
      → AsksOnSet o P timeout type set
      → Triple
          (Both P (Idle job.id 0))
          (work_on_set o margin timeout fuel type job set)
          (λ _. Both P (Idle job.id (expected_steps type (some set))))
          (Broken P job.id)
  unfolding work_on_set
  Triple-work_on_set create set k = Triple-create_job o margin fuel job patience reads timeout set k
  Triple-work_on_set update set k = Triple-update_job o margin fuel job set patience reads k
  Triple-work_on_set switch set k = Triple-switch_job o margin fuel job set patience reads k
  Triple-work_on_set discard set k = Triple-Idle-raise o job.id 0 _
  Triple-work_on_set remove set k = Triple-Idle-raise o job.id 0 _
  Triple-work_on_set cleanup set k = Triple-Idle-raise o job.id 0 _

  abbrev planned_for : JobType → Option MirrorSet → ℕ
  planned_for type set = planned_steps (record job { type = type }) set

  Triple-work_by_type :
      (type : JobType) (set : Option MirrorSet)
      → Asks o P timeout type job set
      → Triple
          (Both P (Idle job.id 0))
          (work_without_set o margin timeout fuel type job set)
          (λ _. Both P (Idle job.id (planned_for type set)))
          (Broken P job.id)
  unfolding work_without_set planned_steps
  Triple-work_by_type discard set k = Triple-discard_job o margin fuel job patience reads k.0 k.1
  Triple-work_by_type remove set k = Triple-remove_job o margin fuel job patience reads k.0 k.1
  Triple-work_by_type create none k = Triple-Idle-raise o job.id 0 _
  Triple-work_by_type update none k = Triple-Idle-raise o job.id 0 _
  Triple-work_by_type switch none k = Triple-Idle-raise o job.id 0 _
  Triple-work_by_type cleanup none k = Triple-Idle-raise o job.id 0 _
  Triple-work_by_type create (some set) k = Triple-work_on_set create set k
  Triple-work_by_type update (some set) k = Triple-work_on_set update set k
  Triple-work_by_type switch (some set) k = Triple-work_on_set switch set k
  Triple-work_by_type cleanup (some set) k = Triple-work_on_set cleanup set k

  module _ (set : Option MirrorSet) where
    Triple-begin :
        {R : Exc → World o.State → Type 0}
        → Triple
            (Both P (Idle job.id 0))
            (begin o margin timeout fuel job set)
            (λ _. Both P (λ l. Idle job.id 0 l × Announces job.id (planned_steps job set) l))
            R
    unfolding begin set_job commit
    Triple-begin = Triple-bind (clock o) _ (Triple-clock o) λ now.
        Triple-bind (change _) _
          (Triple-change {U = λ l. Idle job.id 0 l × Announces job.id (planned_steps job set) l} _
            (λ l h. (
              Idle-same h refl refl (get_job-update job.id _ l.live.jobs (λ j. refl) h.present),
              (
                _,
                get_job-update_some job.id _ l.live.jobs (λ j. refl) h.present.0 h.present.1,
                refl,
              ),
            )))
          λ _. Triple-change _ (λ l h. (Idle-same h.0 refl refl h.0.present, h.1))

    module _ (why : Outcome (Unit {0})) where
      Triple-succeed_job :
          {R : Exc → World o.State → Type 0}
          → Triple
              (Both P (
                Known job.id
                  (planned_steps job set)
                  (Idle job.id (planned_steps job set))
                  why
                  (returned tt)))
              (succeed_job o margin timeout fuel job)
              (λ _. Both P (Tried why job set))
              R
      unfolding succeed_job set_job
      Triple-succeed_job = Triple-change _ λ l h. record {
        row = record h.1.0 { state = JobState.succeeded };
        found = get_job-update_some job.id _ l.live.jobs (λ j. refl) h.1.0 h.1.1;
        agrees = (h.1.2, inl (refl, h.2, h.0.numbered));
        settled = h.0.settled;
      }

      Triple-fail_job :
          {R : Exc → World o.State → Type 0} (e : Exc)
          → Triple
              (Both P (Known job.id (planned_steps job set) (Numbered job.id) why (threw e)))
              (fail_job o margin timeout fuel job e)
              (λ _. Both P (Tried why job set))
              R
      unfolding fail_job set_job fail_running_steps commit
      Triple-fail_job e =
          Triple-bind (change _) _
            (Triple-change {U = Failing why job set e} _ (λ l h. record {
              row = record h.1.0 { state = JobState.failed; error = some (describe e) };
              found = get_job-update_some job.id _ l.live.jobs (λ j. refl) h.1.0 h.1.1;
              state = refl;
              error = refl;
              announced = h.1.2;
              cause = h.2;
              count = h.0.count;
              numbered = h.0.numbered;
            }))
            λ _. Triple-bind (clock o) _ (Triple-clock o) λ now.
              Triple-bind (change _) _
                (Triple-change {U = Tried why job set} _ (λ l h. record {
                  row = h.row;
                  found = h.found;
                  agrees = (
                    h.announced,
                    inr (
                      h.state,
                      (e, h.cause, h.error),
                      (h.count, positions-fail_steps job.id job.id _ _ l.live.steps ∙ h.numbered),
                    ),
                  );
                  settled = Settled-fail_steps job.id _ _ l.live.steps;
                }))
                λ _. Triple-change _ λ l h. record {
                  row = h.row;
                  found = h.found;
                  agrees = h.agrees;
                  settled = h.settled;
                }

      Triple-audit_row :
          {R : Exc → World o.State → Type 0} (found : Option Job)
          → Triple
              (Both P (λ l. (found ≡ get_job job.id l.live.jobs) × Closed why job set l))
              (audit_row o margin timeout fuel job set found >> commit o)
              (λ _. Both P (Ended why job set))
              R
      unfolding audit_row add_audit commit
      Triple-audit_row none =
          Triple-weaken {P = λ s. ⊥} (λ s h. cc (h.own.0, h.own.1.found)) (λ a s h. h) (λ e s h. h)
            (record { at = λ s h. absurd h })
      Triple-audit_row (some row) =
          Triple-bind (change _) _
            (Triple-change {U = Audited why job set} _ (λ l h. record {
              row = h.1.row;
              found = h.1.found;
              agrees = h.1.agrees;
              settled = h.1.settled;
              closed = h.1.closed;
              earlier = l.live.audit;
              entry = _;
              audited = refl;
              says = (cc (h.0, h.1.found), cc (h.0, h.1.found));
            }))
            λ _. Triple-change _ λ l h. record {
              row = h.row;
              found = h.found;
              agrees = h.agrees;
              settled = h.settled;
              closed = h.closed;
              earlier = h.earlier;
              entry = h.entry;
              audited = h.audited;
              says = h.says;
              saved = refl;
            }

      Triple-close_job :
          {R : Exc → World o.State → Type 0}
          → Triple
              (Both P (Tried why job set))
              (close_job o margin timeout fuel job set)
              (λ _. Both P (Ended why job set))
              R
      unfolding close_job set_job
      Triple-close_job = Triple-bind (clock o) _ (Triple-clock o) λ now.
          Triple-bind (change _) _
            (Triple-change {U = Closed why job set} _ (λ l h. record {
              row = record h.row { finished_at = some now };
              found = get_job-update_some job.id _ l.live.jobs (λ j. refl) h.row h.found;
              agrees = h.agrees;
              settled = h.settled;
              closed = (now, refl);
            }))
            λ _. Triple-bind (look _) _ (Triple-look {T = Closed why job set} _) Triple-audit_row

    -- How the work ends, from where the job begins.
    abbrev pub why_ended : World o.State → Outcome (Unit {0})
    why_ended s = (work o margin timeout fuel job set (begin o margin timeout fuel job set s).1).0

    tried :
        (why : Outcome (Unit {0})) (start : World o.State)
        → (work o margin timeout fuel job set start).0 ≡ why
        → Both P (λ l. Idle job.id 0 l × Announces job.id (planned_steps job set) l) start
        → Asks o P timeout job.type job set
        → {R : Exc → World o.State → Type 0}
        → Triple
            (λ s. s ≡ start)
            (catch
              (work o margin timeout fuel job set >> succeed_job o margin timeout fuel job)
              (fail_job o margin timeout fuel job))
            (λ _. Both P (Tried why job set))
            R
    unfolding work
    tried why start e h k =
        Triple-catch _ (fail_job o margin timeout fuel job)
          (Triple-bind (work o margin timeout fuel job set) _
            (Triple-Known job.id (planned_steps job set) _ start why e
              (record { out = h.out; own = h.own.0 }) h.own.1
              (Within-work o margin timeout fuel job (Announcing-Movable job.id _) set)
              (Triple-work_by_type job.type set k))
            λ _. Triple-succeed_job why)
          (Triple-fail_job why)

    pub Triple-execute :
        {R : Exc → World o.State → Type 0} (s : World o.State)
        → Both P (Idle job.id 0) s
        → Asks o P timeout job.type job set
        → Triple
            (λ t. t ≡ s)
            (execute o margin timeout fuel job set)
            (λ _. Both P (Ended (why_ended s) job set))
            R
    unfolding execute
    Triple-execute s h k =
        Triple-bind (begin o margin timeout fuel job set) _
          (Triple-exactly (begin o margin timeout fuel job set) s h Triple-begin)
          λ _. Triple-from λ u b.
            Triple-bind (catch _ _) _
              (tried (why_ended s) u (ap (λ x. (work o margin timeout fuel job set x).0) b.1) b.2 k)
              λ _. Triple-close_job (why_ended s)
