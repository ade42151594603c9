-- ===== src/Jobs/Queue/Drain.antt =====
-- The worker comes to the end of its queue.
use mathlib.Core.Path.{subst}
use aptly_gui.Prelude.{
  ℕ, suc, ◌≡◌, refl, sym, ap, ◌∙◌, false, none, List, [], ◌∷◌, arith, ◌==◌, length, All,
}
use aptly_gui.Exec.{Exec, Outcome, returned, pure, ◌>>=◌, ◌>>◌}
use aptly_gui.Aptly.Client.{Outside}
use aptly_gui.Db.Models.{Tables}
use aptly_gui.Services.Space.{Margin}
use aptly_gui.Jobs.State.{World, look}
use aptly_gui.Jobs.Await.Patience.{Patience}
use aptly_gui.Jobs.Run.{run_next}
use aptly_gui.Jobs.Run.Alone.{Alone}
use aptly_gui.Jobs.Queue.Turn.{Done, Done-Alone, turn}
use aptly_gui.Jobs.Queue.Lined.{Ready, Absent, Lined}
use aptly_gui.Jobs.Queue.Ready.{Ready-round, Reached-Ready}
use aptly_gui.Jobs.Queue.{round, run_rounds, Reached}

-- What the rounds leave, from the entries that they work and the database before.
record Drained {W : Type 0} (queue : List ℕ) (before : Tables)
    (after : Outcome (Unit {0}) × World W) : Type 0 where
  returns : after.0 ≡ returned tt
  empty : after.1.own.queue ≡ []
  idle : after.1.own.current_job_id ≡ none
  done : All (λ id. Done id after.1.own.live) queue
  kept : (id : ℕ) → Absent id queue → Done id before → Done id after.1.own.live

turned : (a b : ℕ) → (a == b) ≡ false → (b == a) ≡ false
turned a b e = ground arith

module _ (o : Outside) (margin : Margin) (timeout fuel : ℕ) (patience : Patience o fuel) where
  -- A round that returns is followed by the others.
  run_rounds-suc :
      (n id : ℕ) (rest : List ℕ) (s : World o.State)
      → s.own.queue ≡ id ∷ rest
      → (run_next o margin timeout fuel id rest s).0 ≡ returned tt
      → run_rounds o margin timeout fuel (suc n) s
        ≡ run_rounds o margin timeout fuel n (run_next o margin timeout fuel id rest s).1
  run_rounds-suc n id rest s q e = first ∙ ap (λ queue. all_of queue s) q ∙ next
    where
      all_of : List ℕ → Exec (World o.State) Unit
      all_of queue = round o margin timeout fuel queue >> run_rounds o margin timeout fuel n

      first : run_rounds o margin timeout fuel (suc n) s ≡ all_of s.own.queue s
      first = unfold run_rounds ◌>>=◌ look in refl

      next :
          all_of (id ∷ rest) s
          ≡ run_rounds o margin timeout fuel n (run_next o margin timeout fuel id rest s).1
      next = unfold ◌>>=◌ round in rw e

  drain :
      (queue : List ℕ) (s : World o.State)
      → s.own.queue ≡ queue
      → Ready s.own
      → Drained queue s.own.live (run_rounds o margin timeout fuel (length queue) s)
  unfolding run_rounds pure
  drain [] s q h = record {
    returns = refl;
    empty = q;
    idle = h.idle;
    done = tt;
    kept = λ id a d. d;
  }
  drain (id ∷ rest) s q h =
      let lined = subst (λ queue. Lined queue s.own.live) q h.lined in
      let (r, queue, idle, alone, done) = turn o margin timeout fuel id rest s patience lined.0 in
      later lined.1 r alone done (
        drain rest (run_next o margin timeout fuel id rest s).1 queue
          (Ready-round o margin timeout fuel id rest s patience q h))
    where
      t : World o.State
      t = (run_next o margin timeout fuel id rest s).1

      later :
          Absent id rest
          → (run_next o margin timeout fuel id rest s).0 ≡ returned tt
          → Alone id (record (s.own) { queue = rest }) t.own
          → Done id t.own.live
          → Drained rest t.own.live (run_rounds o margin timeout fuel (length rest) t)
          → Drained (id ∷ rest) s.own.live (run_rounds o margin timeout fuel (suc (length rest)) s)
      later absent r alone done d =
          subst (Drained (id ∷ rest) s.own.live) (sym (run_rounds-suc (length rest) id rest s q r))
            (record {
              returns = d.returns;
              empty = d.empty;
              idle = d.idle;
              done = (d.kept id absent done, d.done);
              kept = λ i a before. d.kept i a.1 (Done-Alone alone (turned id i a.0) before);
            })

  -- From every state between two jobs that a runner comes to from its start, as long as aptly runs
  -- its tasks to an end: as many rounds of the worker as its queue has entries return, leave the queue
  -- empty and no current job, and each job that stood in the queue has succeeded or failed, with the
  -- time of its end, or needs a mirror set that is no longer in the database.
  pub drains :
      (s : World o.State)
      → Reached o margin timeout fuel s
      → let (r, t) = run_rounds o margin timeout fuel (length s.own.queue) s in
        (r ≡ returned tt)
        × (t.own.queue ≡ [])
        × (t.own.current_job_id ≡ none)
        × All (λ id. Done id t.own.live) s.own.queue
  drains s reached =
      let d = drain s.own.queue s refl (Reached-Ready o margin timeout fuel patience reached) in
      (d.returns, d.empty, d.idle, d.done)
