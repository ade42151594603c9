-- ===== src/Jobs/Run/Alone.antt =====
-- A job of the runner changes no row but its own, makes no step but its own, and leaves the queue.
use aptly_gui.Prelude.{
  ℕ, ◌≡◌, refl, ap, ◌∙◌, false, none, List, [], ◌∷◌, ◌++◌, filter, not, arith, ◌==◌,
}
use aptly_gui.Db.Models.{Job, JobStep, MirrorSet}
use aptly_gui.Jobs.State.{
  Local, get_job, get_mirror_set, update_job, with_live, committed, step_added, new_step,
}
use aptly_gui.Jobs.Steps.{positions, positions-update}
use aptly_gui.Jobs.Steps.Frame.{Confined}

-- From `l` to `m`, seen by everything but the job.
pub record Alone (job : ℕ) (l m : Local) : Type 0 where
  pub queue : m.queue ≡ l.queue
  pub jobs : (id : ℕ) → (id == job) ≡ false → get_job id m.live.jobs ≡ get_job id l.live.jobs
  pub steps : (id : ℕ) → (id == job) ≡ false → positions id m.live.steps ≡ positions id l.live.steps
  -- a mirror set may go, and none comes
  pub gone :
      (id : ℕ)
      → get_mirror_set id l.live.mirror_sets ≡ none
      → get_mirror_set id m.live.mirror_sets ≡ none

pub Alone-same : {job : ℕ} (l : Local) → Alone job l l
Alone-same l = record { queue = refl; jobs = λ id e. refl; steps = λ id e. refl; gone = λ id e. e }

pub Alone-after : {job : ℕ} {l m n : Local} → Alone job l m → Alone job m n → Alone job l n
Alone-after h k = record {
  queue = k.queue ∙ h.queue;
  jobs = λ id e. k.jobs id e ∙ h.jobs id e;
  steps = λ id e. k.steps id e ∙ h.steps id e;
  gone = λ id e. k.gone id (h.gone id e);
}

-- Other tables and other fields do not matter.
pub Alone-but :
    {job : ℕ} {l m : Local}
    → m.queue ≡ l.queue
    → m.live.jobs ≡ l.live.jobs
    → m.live.steps ≡ l.live.steps
    → ((id : ℕ)
        → get_mirror_set id l.live.mirror_sets ≡ none
        → get_mirror_set id m.live.mirror_sets ≡ none)
    → Alone job l m
Alone-but q j s g = record {
  queue = q;
  jobs = λ id e. ap (get_job id) j;
  steps = λ id e. ap (positions id) s;
  gone = g;
}

get_job-update_other :
    (id job : ℕ) (f : Job → Job) (jobs : List Job)
    → ((j : Job) → (f j).id ≡ j.id)
    → (id == job) ≡ false
    → get_job id (update_job job f jobs) ≡ get_job id jobs
unfolding get_job update_job
get_job-update_other id job f [] k e = refl
get_job-update_other id job f (j ∷ jobs) k e =
    ground (arith, k j, get_job-update_other id job f jobs k e)

-- The job's own row may change.
pub Alone-row :
    {job : ℕ} (f : Job → Job) (l : Local)
    → ((j : Job) → (f j).id ≡ j.id)
    → Alone job l (with_live (λ t. record t { jobs = update_job job f t.jobs }) l)
Alone-row {job} f l k = record {
  queue = refl;
  jobs = λ id e. get_job-update_other id job f l.live.jobs k e;
  steps = λ id e. refl;
  gone = λ id e. e;
}

positions-add_other :
    (id job : ℕ) (s : JobStep) (steps : List JobStep)
    → s.job_id ≡ job
    → (id == job) ≡ false
    → positions id (steps ++ s ∷ []) ≡ positions id steps
positions-add_other id job s [] k e = ground arith
positions-add_other id job s (x ∷ steps) k e =
    ground (arith, positions-add_other id job s steps k e)

pub Alone-Confined : (job : ℕ) → Confined job (Alone job)
unfolding step_added committed
Alone-Confined job = record {
  steady = record { same = Alone-same; after = Alone-after };
  adds = λ description now l. record {
    queue = refl;
    jobs = λ id e. refl;
    steps = λ id e. positions-add_other id job (new_step job description now l) l.live.steps refl e;
    gone = λ id e. e;
  };
  changes = λ id f l k. record {
    queue = refl;
    jobs = λ i e. refl;
    steps = λ i e. positions-update i id f l.live.steps k;
    gone = λ i e. e;
  };
  saves = λ l. Alone-but refl refl refl (λ id e. e);
}

pub get_mirror_set-without :
    (id gone : ℕ) (sets : List MirrorSet)
    → get_mirror_set id sets ≡ none
    → get_mirror_set id (filter (λ m. not (m.id == gone)) sets) ≡ none
unfolding get_mirror_set
get_mirror_set-without id gone [] h = refl
get_mirror_set-without id gone (m ∷ sets) h = ground (arith, get_mirror_set-without id gone sets)
