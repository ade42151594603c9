-- ===== src/Jobs/Queue/Ready.antt =====
-- What holds of the runner whenever no job runs.
use mathlib.Core.Path.{subst}
use aptly_gui.Prelude.{
  ℕ, ◌≡◌, refl, sym, ◌∙◌, Option, none, some, List, [], ◌∷◌, ◌++◌, ◌==◌, ==_iff, if-true,
  if◌then◌else◌,
}
use aptly_gui.Text.{Text}
use aptly_gui.Exec.{Outcome, returned, threw, stuck, continue, pure, ◌>>=◌}
use aptly_gui.Aptly.Client.{Outside}
use aptly_gui.Db.Models.{Job, JobType, Params, Tables}
use aptly_gui.Services.Space.{Margin}
use aptly_gui.Jobs.State.{World, look, change, clock, commit, committed, get_job, next_job_id}
use aptly_gui.Jobs.Await.Patience.{Patience}
use aptly_gui.Jobs.Run.{enqueue, new_job, run_next, recover_orphans}
use aptly_gui.Jobs.Run.Recovery.{enqueue_adds, get_job-interrupt, recovered}
use aptly_gui.Jobs.Queue.Turn.{turn}
use aptly_gui.Jobs.Queue.{
  Owned, round, run_rounds, start, Next, enqueues, works, writes, Reached, starts, then_next,
}
use aptly_gui.Jobs.Queue.Lined.{
  Lined, Ready, Lined-Alone, Owned-Alone, Done-row, Ready-writes, Lined-enqueued, not_there,
}

module _ (o : Outside) (margin : Margin) (timeout fuel : ℕ) where
  Ready-enqueue :
      (type : JobType) (set : Option ℕ) (author : Text) (params : Params) (s : World o.State)
      → Ready s.own
      → Ready (enqueue o margin timeout fuel type set author params s).1.own
  unfolding enqueue ◌>>=◌ look change commit committed
  Ready-enqueue type set author params s h = record {
    owned = λ id e. h.owned id (earlier id e);
    lined =
        Lined-enqueued new (new_job new type set author params) s.own.live _ s.own.queue
          (λ id. (adds id).2) refl
          (record {
            row = new_job new type set author params;
            found = (adds new).2 ∙ if-true _ (new == new) ((==_iff new new).1 refl);
            state = refl;
            new = h.owned new (adds 0).1;
          })
          (adds 0).1 h.lined;
    idle = h.idle;
  }
    where
      new : ℕ
      new = next_job_id s.own.live.jobs

      adds :
          (id : ℕ)
          → let (r, t) = enqueue o margin timeout fuel type set author params s in
            (r ≡ returned new)
            × (get_job new s.own.live.jobs ≡ none)
            × (get_job id t.own.live.jobs ≡ (
                if id == new
                then some (new_job new type set author params)
                else get_job id s.own.live.jobs))
            × (t.own.queue ≡ s.own.queue ++ new ∷ [])
            × (t.own.durable ≡ t.own.live)
      adds id = enqueue_adds o margin timeout fuel id type set author params s

      earlier :
          (id : ℕ)
          → get_job id (enqueue o margin timeout fuel type set author params s).1.own.live.jobs
            ≡ none
          → get_job id s.own.live.jobs ≡ none
      earlier id e = not_there _ _ _ (id == new) ((adds id).2) e

  Ready-start : (w : o.State) (t : Tables) → Owned t → Ready (start o margin timeout fuel w t).own
  unfolding start recover_orphans ◌>>=◌ clock change commit committed
  Ready-start w t h = record {
    owned = λ id e.
        h id (was_none (get_job id t.jobs) (sym (get_job-interrupt (o.now w) id t.jobs) ∙ e));
    lined = tt;
    idle = refl;
  }
    where
      was_none : (found : Option Job) → recovered (o.now w) found ≡ none → found ≡ none
      was_none none e = refl
      was_none (some j) e = cc

  pub Ready-round :
      (id : ℕ) (rest : List ℕ) (s : World o.State)
      → Patience o fuel
      → s.own.queue ≡ id ∷ rest
      → Ready s.own
      → Ready (run_next o margin timeout fuel id rest s).1.own
  Ready-round id rest s patience q h =
      let lined = subst (λ queue. Lined queue s.own.live) q h.lined in
      let (r, queue, idle, alone, done) = turn o margin timeout fuel id rest s patience lined.0 in
      record {
        owned = Owned-Alone alone (Done-row _ done) h.owned;
        lined =
            subst (λ left. Lined left (run_next o margin timeout fuel id rest s).1.own.live)
              (sym queue) (Lined-Alone rest alone lined.1 lined.2);
        idle = idle;
      }

  -- One round, on the entries that stand in the queue.
  run_one :
      (s : World o.State)
      → (run_rounds o margin timeout fuel 1 s).1 ≡ (round o margin timeout fuel s.own.queue s).1
  unfolding run_rounds ◌>>=◌ look
  run_one s = state (round o margin timeout fuel s.own.queue s).0 _
    where
      state :
          (r : Outcome Unit) (t : World o.State)
          → (continue r (λ _. pure {S = World o.State} tt) t).1 ≡ t
      state (returned a) t = refl
      state (threw e) t = refl
      state stuck t = refl

  Ready-one :
      (queue : List ℕ) (s : World o.State)
      → Patience o fuel
      → s.own.queue ≡ queue
      → Ready s.own
      → Ready (round o margin timeout fuel queue s).1.own
  unfolding round pure
  Ready-one [] s patience q h = h
  Ready-one (id ∷ rest) s patience q h = Ready-round id rest s patience q h

  Ready-Next :
      {s t : World o.State}
      → Patience o fuel
      → Next o margin timeout fuel s t
      → Ready s.own
      → Ready t.own
  Ready-Next patience (enqueues type set author params s) h =
      Ready-enqueue type set author params s h
  Ready-Next patience (works s) h =
      subst (λ (t : World o.State). Ready t.own) (sym (run_one s))
        (Ready-one s.own.queue s patience refl h)
  Ready-Next patience (writes s t q c j k) h = Ready-writes q c j k h

  -- As long as aptly runs its tasks to an end within the fuel: in every state between two jobs that a
  -- runner comes to, by added jobs, worked jobs and the writes of others, from a start on a table of
  -- which every step belongs to a job, each entry of the queue is a queued job with no step, no job
  -- stands in it twice, every step still belongs to a job of the table, and no job is named as the
  -- current one.
  pub Reached-Ready :
      {s : World o.State} → Patience o fuel → Reached o margin timeout fuel s → Ready s.own
  Reached-Ready patience (starts w t h) = Ready-start w t h
  Reached-Ready patience (then_next r n) = Ready-Next patience n (Reached-Ready patience r)
