-- ===== src/Web/Sets.antt =====
-- The pages of web/app.py that change the mirror sets or start their jobs: new_set_submit,
-- adopt_submit, set_delete, set_create_missing, set_update and set_switch. The state of aptly is what
-- the cache answered; the actor is the name of the signed-in user.
pub mod Added
use aptly_gui.Prelude.{
  ℕ, Bool, true, false, Option, none, some, List, [], ◌∷◌, ◌++◌, any, not, if◌then◌else◌,
}
use aptly_gui.Text.{Text, codes, same, mem, decimal}
use aptly_gui.Exec.{Exec, pure, raise, integrity_error, ◌>>=◌, ◌>>◌}
use aptly_gui.Aptly.Client.{Outside}
use aptly_gui.Db.Models.{
  MirrorSet, Params, JobType, create, update, switch, AuditEntry, Tables, expected_mirrors,
}
use aptly_gui.Services.Space.{Margin}
use aptly_gui.Jobs.State.{World, look, change, commit, with_live, get_mirror_set}
use aptly_gui.Jobs.Work.{without_mirror_set}
use aptly_gui.Jobs.Run.{enqueue}
use aptly_gui.Web.Users.{audit_entry}
use aptly_gui.Web.State.{AptlyState, mirror_names}
use aptly_gui.Web.Deletions.{Enqueued, set_delete_mirrors}
use aptly_gui.Web.Forms.{SetForm, set_of_form, next_mirror_set_id}

-- What a page answers: a redirect, or the form again, with an error.
pub data Page : Type 0 where
  see_other : Text → Page
  rejected : SetForm → Page

-- select(MirrorSet).where(MirrorSet.name == name), as a test
unfoldable pub set_named : Text → List MirrorSet → Bool
set_named name sets = any (λ m. same m.name name) sets

abbrev pub no_params : Params
no_params = record { snapshots = []; mirrors = []; snapshot_set_id = none; mirror_set_id = none }

abbrev pub job_page : ℕ → Page
job_page id = see_other (codes "/jobs/" ++ decimal id)

abbrev set_page : ℕ → Text → Page
set_page id rest = see_other (codes "/sets/" ++ (decimal id ++ rest))

-- AuditEntry(...) without an actor
abbrev pub anonymous_entry : Text → Text → AuditEntry
anonymous_entry action target = audit_entry (codes "anonymous") action target (codes "ok")

abbrev pub with_set : MirrorSet → AuditEntry → Tables → Tables
with_set set entry t = record t {
  mirror_sets = t.mirror_sets ++ set ∷ [];
  audit = t.audit ++ entry ∷ [];
}

abbrev pub with_audit : AuditEntry → Tables → Tables
with_audit entry t = record t { audit = t.audit ++ entry ∷ [] }

module _ (o : Outside) (margin : Margin) (timeout fuel : ℕ) where
  -- session.add of the set and of the audit entry, and the commit; returns the id of the set
  unfoldable pub add_set : Bool → Text → SetForm → Exec (World o.State) ℕ
  add_set adopted action form = do
    id ← look (λ l. next_mirror_set_id l.live.mirror_sets)
    change (
        with_live (λ t.
          with_set (set_of_form (next_mirror_set_id t.mirror_sets) adopted form)
            (anonymous_entry action form.name) t))
    commit o
    pure id

  -- `runner.enqueue` and the redirect to the job's page
  unfoldable pub start_job : JobType → Option ℕ → Text → Params → Exec (World o.State) Page
  start_job type set actor params = do
    job ← enqueue o margin timeout fuel type set actor params
    pure (job_page job)

  unfoldable pub create_new_set : Text → SetForm → Exec (World o.State) Page
  create_new_set actor form = do
    id ← add_set false (codes "set.create") form
    start_job create (some id) actor no_params

  unfoldable pub new_set_submit : Text → SetForm → Exec (World o.State) Page
  new_set_submit actor form = do
    taken ← look (λ l. set_named form.name l.live.mirror_sets)
    if taken then pure (rejected form) else create_new_set actor form

  adopt_set : SetForm → Exec (World o.State) Page
  adopt_set form = do id ← add_set true (codes "set.adopt") form; pure (set_page id [])

  -- The name of a set is unique in its table, so the commit of another one raises.
  unfoldable pub adopt_submit : SetForm → Exec (World o.State) Page
  unfolding adopt_set
  adopt_submit form = do
    taken ← look (λ l. set_named form.name l.live.mirror_sets)
    if taken
        then raise (integrity_error (codes "UNIQUE constraint failed: mirror_sets.name"))
        else adopt_set form

  forget_set : Text → MirrorSet → Exec (World o.State) Page
  forget_set actor set = do
    change (
        with_live (λ t.
          without_mirror_set set.id
            (with_audit (audit_entry actor (codes "set.forget") set.name (codes "ok")) t)))
    commit o
    pure (see_other (codes "/sets"))

  delete_with_mirrors : Text → ℕ → Option Enqueued → Exec (World o.State) Page
  delete_with_mirrors actor id none = pure (set_page id (codes "/delete"))
  delete_with_mirrors actor id (some e) = start_job e.type e.mirror_set_id actor e.params

  delete_found : Text → Text → AptlyState → ℕ → Option MirrorSet → Exec (World o.State) Page
  unfolding forget_set delete_with_mirrors
  delete_found actor mirrors state id none = pure (see_other (codes "/sets"))
  delete_found actor mirrors state id (some set) =
      if same mirrors (codes "delete")
      then delete_with_mirrors actor id (set_delete_mirrors state set)
      else forget_set actor set

  -- set_delete; `mirrors` is the field of the form
  unfoldable pub set_delete : Text → Text → AptlyState → ℕ → Exec (World o.State) Page
  unfolding delete_found
  set_delete actor mirrors state id = do
    found ← look (λ l. get_mirror_set id l.live.mirror_sets)
    delete_found actor mirrors state id found

  unfoldable pub set_create_missing : Text → ℕ → Exec (World o.State) Page
  set_create_missing actor id = start_job create (some id) actor no_params

  unfoldable pub set_update : Text → ℕ → Exec (World o.State) Page
  set_update actor id = start_job update (some id) actor no_params

  unfoldable pub set_switch : Text → ℕ → ℕ → Exec (World o.State) Page
  set_switch actor id snapshot_set_id =
      start_job switch (some id) actor (record no_params { snapshot_set_id = some snapshot_set_id })
