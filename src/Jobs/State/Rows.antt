-- ===== src/Jobs/State/Rows.antt =====
-- Rows by their id: a change of the row with an id is what a later look finds.
use aptly_gui.Prelude.{ℕ, ◌≡◌, some, List, [], ◌∷◌, arith}
use aptly_gui.Db.Models.{Job}
use aptly_gui.Jobs.State.{get_job, update_job}

pub get_job-update_some :
    (id : ℕ) (f : Job → Job) (jobs : List Job)
    → ((j : Job) → (f j).id ≡ j.id)
    → (row : Job) → get_job id jobs ≡ some row
    → get_job id (update_job id f jobs) ≡ some (f row)
unfolding get_job update_job
get_job-update_some id f [] k row h = cc
get_job-update_some id f (j ∷ jobs) k row h =
    ground (arith, k j, get_job-update_some id f jobs k row)

pub get_job-update :
    (id : ℕ) (f : Job → Job) (jobs : List Job)
    → ((j : Job) → (f j).id ≡ j.id)
    → (row : Job) × (get_job id jobs ≡ some row)
    → (row : Job) × (get_job id (update_job id f jobs) ≡ some row)
get_job-update id f jobs k h = (f h.0, get_job-update_some id f jobs k h.0 h.1)

pub get_job-id : (id : ℕ) (jobs : List Job) (row : Job) → get_job id jobs ≡ some row → row.id ≡ id
unfolding get_job
get_job-id id [] row h = cc
get_job-id id (j ∷ jobs) row h = ground (arith, get_job-id id jobs row)
