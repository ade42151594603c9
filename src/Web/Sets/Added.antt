-- ===== src/Web/Sets/Added.antt =====
-- What the form for a new set leaves in the database and in the queue.
use aptly_gui.Prelude.{
  ℕ, ◌≤◌, ◌≡◌, refl, false, none, some, List, [], ◌∷◌, ◌++◌, arith, ◌==◌, if◌then◌else◌,
}
use aptly_gui.Text.{Text, same}
use aptly_gui.Text.Laws.{same_iff}
use aptly_gui.Exec.{returned, ◌>>=◌}
use aptly_gui.Aptly.Client.{Outside}
use aptly_gui.Db.Models.{MirrorSet, create}
use aptly_gui.Services.Space.{Margin}
use aptly_gui.Jobs.State.{
  World, look, change, commit, committed, get_mirror_set, get_job, next_job_id,
}
use aptly_gui.Jobs.Run.{enqueue, new_job}
use aptly_gui.Jobs.Run.Recovery.{get_job-added}
use aptly_gui.Web.Forms.{SetForm, set_of_form, next_mirror_set_id}
use aptly_gui.Web.Sets.{
  job_page, set_named, no_params, add_set, start_job, create_new_set, new_set_submit,
}

-- No two sets have the same name.
abbrev pub Unique : List MirrorSet → Type 0
Unique [] = Unit
Unique (m ∷ sets) = (set_named m.name sets ≡ false) × Unique sets

set_named-append :
    (name : Text) (sets : List MirrorSet) (m : MirrorSet)
    → set_named name sets ≡ false
    → same m.name name ≡ false
    → set_named name (sets ++ m ∷ []) ≡ false
unfolding set_named
set_named-append name [] m h k = ground arith
set_named-append name (x ∷ sets) m h k = ground (arith, set_named-append name sets m)

turned : (s t : Text) → same t s ≡ false → same s t ≡ false
turned s t h = ground (arith, same_iff s t, same_iff t s)

Unique-append :
    (sets : List MirrorSet) (m : MirrorSet)
    → Unique sets
    → set_named m.name sets ≡ false
    → Unique (sets ++ m ∷ [])
unfolding set_named
Unique-append [] m h k = (refl, tt)
Unique-append (x ∷ sets) m h k = (
  set_named-append x.name sets m h.0 (ground (arith, turned m.name x.name)),
  Unique-append sets m h.1 (ground arith),
)

next_mirror_set_id_above :
    (id : ℕ) (sets : List MirrorSet) → next_mirror_set_id sets ≤ id → get_mirror_set id sets ≡ none
unfolding next_mirror_set_id get_mirror_set
next_mirror_set_id_above id [] h = refl
next_mirror_set_id_above id (m ∷ sets) h = ground (arith, next_mirror_set_id_above id sets)

get_mirror_set-append :
    (id : ℕ) (sets : List MirrorSet) (m : MirrorSet)
    → next_mirror_set_id sets ≤ m.id
    → get_mirror_set id (sets ++ m ∷ []) ≡ (if id == m.id then some m else get_mirror_set id sets)
unfolding next_mirror_set_id get_mirror_set
get_mirror_set-append id [] m h = ground arith
get_mirror_set-append id (x ∷ sets) m h = ground (arith, get_mirror_set-append id sets m)

-- A new set of a name that no set has is stored under a new id as the form describes it, not adopted,
-- and every other id finds the set that it found before; the names of the sets stay different; a job
-- that creates the mirrors of the new set is queued last, under a new id, to whose page the browser is
-- sent; and all of it is committed.
pub new_set_submit-adds :
    (o : Outside) (margin : Margin) (timeout fuel other : ℕ) (actor : Text) (form : SetForm)
    (s : World o.State)
    → Unique s.own.live.mirror_sets
    → set_named form.name s.own.live.mirror_sets ≡ false
    → let (r, t) = new_set_submit o margin timeout fuel actor form s in
      let id = next_mirror_set_id s.own.live.mirror_sets in
      let job = next_job_id s.own.live.jobs in
      (r ≡ returned (job_page job))
      × (get_mirror_set id s.own.live.mirror_sets ≡ none)
      × (get_mirror_set other t.own.live.mirror_sets ≡ (
          if other == id
          then some (set_of_form id false form)
          else get_mirror_set other s.own.live.mirror_sets))
      × Unique t.own.live.mirror_sets
      × (get_job job t.own.live.jobs ≡ some (new_job job create (some id) actor no_params))
      × (t.own.queue ≡ s.own.queue ++ job ∷ [])
      × (t.own.durable ≡ t.own.live)
unfolding new_set_submit create_new_set add_set start_job enqueue ◌>>=◌ look change commit committed
    set_of_form
new_set_submit-adds o margin timeout fuel other actor form s unique free = rw free (
  refl,
  next_mirror_set_id_above _ s.own.live.mirror_sets (omega arith),
  get_mirror_set-append other s.own.live.mirror_sets _ (omega arith),
  Unique-append s.own.live.mirror_sets _ unique free,
  get_job-added s.own.live.jobs
      (new_job (next_job_id s.own.live.jobs) create
        (some (next_mirror_set_id s.own.live.mirror_sets)) actor no_params)
      (omega arith),
  refl,
  refl,
)
