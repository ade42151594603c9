-- ===== src/Jobs/Checks/Pairs.antt =====
-- The pairs of suite and component that a job goes through.
use aptly_gui.Prelude.{suc, ◌*◌, ◌≡◌, refl, ap, ◌∙◌, List, [], ◌∷◌, arith, length, length-append}
use aptly_gui.Text.{Text}
use aptly_gui.Db.Models.{MirrorSet}
use aptly_gui.Jobs.Plan.{order_suites}
use aptly_gui.Jobs.Plan.Order.{length-order_suites}
use aptly_gui.Jobs.Checks.{pairs_of_suite, pairs_of, job_pairs}

length-pairs_of_suite :
    (suite : Text) (cs : List Text) → length (pairs_of_suite suite cs) ≡ length cs
unfolding pairs_of_suite
length-pairs_of_suite suite [] = refl
length-pairs_of_suite suite (c ∷ cs) = ap suc (length-pairs_of_suite suite cs)

length-pairs_of : (suites cs : List Text) → length (pairs_of suites cs) ≡ length suites * length cs
unfolding pairs_of
length-pairs_of [] cs = omega arith
length-pairs_of (suite ∷ suites) cs = omega (
  arith,
  length-append (pairs_of_suite suite cs) (pairs_of suites cs),
  length-pairs_of_suite suite cs,
  length-pairs_of suites cs,
)

pub length-job_pairs :
    (set : MirrorSet) → length (job_pairs set) ≡ length set.suites * length set.components
unfolding job_pairs
length-job_pairs set =
    length-pairs_of (order_suites set.suites) set.components
    ∙ ap (λ n. n * length set.components) (length-order_suites set.suites)
