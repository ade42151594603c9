-- ===== src/Jobs/Run/Frame.antt =====
-- One job, from its queue entry to its audit entry, leaves alone what is not its own.
use aptly_gui.Prelude.{ℕ, ◌≡◌, refl, Option, none, some}
use aptly_gui.Exec.{Exc, catch}
use aptly_gui.Aptly.Client.{Outside}
use aptly_gui.Db.Models.{Job, MirrorSet}
use aptly_gui.Services.Space.{Margin}
use aptly_gui.Jobs.State.{look, change, clock, set_job, fail_running_steps, add_audit}
use aptly_gui.Jobs.Steps.Frame.{
  Within, Within-pure, Within-look, Within-bind, Within-catch, Within-change, Confined,
  Within-clock, Within-commit,
}
use aptly_gui.Jobs.Run.Ending.{positions-fail_steps}
use aptly_gui.Jobs.Run.Alone.{Alone, Alone-but, Alone-row, Alone-Confined}
use aptly_gui.Jobs.Run.{work, begin, fail_job, succeed_job, close_job, audit_row, execute}
use aptly_gui.Jobs.Run.Confining.{Movable, Within-work}

module _ (o : Outside) (margin : Margin) (timeout fuel : ℕ) (row : Job) where
  abbrev movable : Movable row.id (Alone row.id)
  movable = record {
    confined = Alone-Confined row.id;
    own = λ f l k m. Alone-row f l k;
    but = Alone-but;
  }

  abbrev alone : Confined row.id (Alone row.id)
  alone = movable.confined

  Within-own_row :
      (f : Job → Job) → ((j : Job) → (f j).id ≡ j.id) → Within (Alone row.id) (set_job o row.id f)
  unfolding set_job
  Within-own_row f k = Within-change _ (λ l. Alone-row f l k)

  Within-fail_job : (e : Exc) → Within (Alone row.id) (fail_job o margin timeout fuel row e)
  unfolding fail_job fail_running_steps
  Within-fail_job e =
      Within-bind alone.steady (set_job o row.id _) _ (Within-own_row _ (λ j. refl)) λ _.
        Within-bind alone.steady (clock o) _ (Within-clock alone o) λ now.
          Within-bind alone.steady (change _) _
            (Within-change _ (λ l. record {
              queue = refl;
              jobs = λ i h. refl;
              steps = λ i h. positions-fail_steps row.id i _ now l.live.steps;
              gone = λ i h. h;
            }))
            λ _. Within-commit alone o

  Within-audit_row :
      (set : Option MirrorSet) (found : Option Job)
      → Within (Alone row.id) (audit_row o margin timeout fuel row set found)
  unfolding audit_row add_audit
  Within-audit_row set none = Within-pure alone.steady tt
  Within-audit_row set (some found) = Within-change _ (λ l. Alone-but refl refl refl (λ i e. e))

  pub Within-execute :
      (set : Option MirrorSet) → Within (Alone row.id) (execute o margin timeout fuel row set)
  unfolding execute begin succeed_job close_job
  Within-execute set =
      Within-bind alone.steady (begin o margin timeout fuel row set) _
        (Within-bind alone.steady (clock o) _ (Within-clock alone o) λ now.
          Within-bind alone.steady (set_job o row.id _) _ (Within-own_row _ (λ j. refl))
            λ _. Within-commit alone o)
        λ _.
          Within-bind alone.steady (catch _ _) _
            (Within-catch alone.steady _ (fail_job o margin timeout fuel row)
              (Within-bind alone.steady (work o margin timeout fuel row set) _
                (Within-work o margin timeout fuel row movable set)
                λ _. Within-own_row _ (λ j. refl))
              Within-fail_job)
            λ _. Within-bind alone.steady (clock o) _ (Within-clock alone o) λ now.
              Within-bind alone.steady (set_job o row.id _) _ (Within-own_row _ (λ j. refl)) λ _.
                Within-bind alone.steady (look _) _ (Within-look alone.steady _) λ found.
                  Within-bind alone.steady _ _ (Within-audit_row set found)
                    λ _. Within-commit alone o
