-- ===== src/Jobs/Checks.antt =====
-- The pure parts of the jobs: the mirrors to go through, the messages of the preflight, the sources
-- of a publication and the problems that the Verify step lists.
pub mod Problems
pub mod Pairs
use aptly_gui.Prelude.{
  ℕ, Bool, false, ◌&&◌, Option, none, some, List, [], ◌∷◌, ◌++◌, map, length, take, ltb,
  if◌then◌else◌,
}
use aptly_gui.Text.{Text, codes, same, join, decimal}
use aptly_gui.Exec.{Result, ok, raised, key_error}
use aptly_gui.Exec.Fallible
use aptly_gui.Dict.{Dict, lookup, insert}
use aptly_gui.Aptly.Models.{Mirror, Published, snapshot_for}
use aptly_gui.Db.Models.{MirrorSet, mirror_name}
use aptly_gui.Services.Space.{Verdict}
use aptly_gui.Jobs.Plan.{order_suites}

abbrev pub newline : Text
newline = 10 ∷ []

abbrev pub names_of : List Mirror → List Text
names_of mirrors = map (λ m. m.name) mirrors

-- Suite and component, in the order in which a job goes through them.
unfoldable pub pairs_of_suite : Text → List Text → List (Text × Text)
pairs_of_suite suite [] = []
pairs_of_suite suite (c ∷ components) = (suite, c) ∷ pairs_of_suite suite components

unfoldable pub pairs_of : List Text → List Text → List (Text × Text)
unfolding pairs_of_suite
pairs_of [] components = []
pairs_of (suite ∷ suites) components = pairs_of_suite suite components ++ pairs_of suites components

unfoldable pub job_pairs : MirrorSet → List (Text × Text)
unfolding pairs_of
job_pairs set = pairs_of (order_suites set.suites) set.components

-- What the preflight of an update says of missing mirrors.
unfoldable pub missing_message : List Text → ℕ → Text
missing_message missing expected =
    decimal (length missing)
    ++ (codes " of "
        ++ (decimal expected
            ++ (codes
                  " mirrors this set describes do not exist in aptly, so there is nothing to sync. "
                ++ (codes "Use \"Create missing mirrors\" on the set, then try again. Missing: "
                    ++ (join (codes ", ") (take 4 missing)
                        ++ (if ltb 4 (length missing) then codes " …" else []))))))

unfoldable pub space_detail : Verdict → Text
space_detail v =
    codes "free "
    ++ (decimal v.free_mb
        ++ (codes " MiB, margin requires " ++ (decimal v.required_mb ++ codes " MiB")))

add_source : Text → Text → Option Text → Dict Text → Result (Dict Text)
add_source name component none sources = raised (key_error name)
add_source name component (some snapshot) sources = ok (insert component snapshot sources)

-- {component: target.snapshots[mirror_name(suite, component)] for component in components}
unfoldable pub sources_from :
    MirrorSet → Dict Text → Text → List Text → Dict Text → Result (Dict Text)
unfolding add_source
sources_from set snapshots suite [] sources = ok sources
sources_from set snapshots suite (c ∷ components) sources =
    let name = mirror_name set suite c in
    Fallible.◌>>=◌ (add_source name c (lookup name snapshots) sources)
      (sources_from set snapshots suite components)

-- {(p.prefix, p.distribution): p for p in published}.get((prefix, suite)): the last one listed.
unfoldable pub find_published : Text → Text → List Published → Option Published
find_published prefix suite [] = none
find_published prefix suite (p ∷ ps) =
    let later = find_published prefix suite ps in
    elim later [
      | some q ↦ some q
      | none ↦ if same p.prefix prefix && same p.distribution suite then some p else none
    ]

abbrev shown : Option Text → Text
shown none = codes "None"
shown (some t) = t

abbrev pub points_at : Option Text → Text → Bool
points_at none expected = false
points_at (some snapshot) expected = same snapshot expected

-- One turn of the loop over the components, given the problems of the later ones.
unfoldable pub component_problem :
    Text → Text → Text → Option Text → Option Text → Result (List Text) → Result (List Text)
component_problem name suite c found none rest = raised (key_error name)
component_problem name suite c found (some expected) rest =
    if points_at found expected
    then rest
    else Fallible.◌>>=◌ rest
        (λ more. ok ((suite ++ (codes "/" ++ (c ++ (codes " points at " ++ shown found)))) ∷ more))

unfoldable pub component_problems :
    MirrorSet → Dict Text → Text → Published → List Text → Result (List Text)
unfolding component_problem
component_problems set snapshots suite pub_row [] = ok []
component_problems set snapshots suite pub_row (c ∷ components) =
    let name = mirror_name set suite c in
    component_problem name suite c (snapshot_for pub_row c) (lookup name snapshots)
      (component_problems set snapshots suite pub_row components)

unfoldable pub suite_problems : MirrorSet → Dict Text → Text → Option Published → Result (List Text)
unfolding component_problems
suite_problems set snapshots suite none =
    ok ((set.publish_prefix ++ (codes "/" ++ (suite ++ codes " is not published"))) ∷ [])
suite_problems set snapshots suite (some pub_row) =
    component_problems set snapshots suite pub_row set.components

-- The list `problems` of the Verify step.
unfoldable pub problems_of : MirrorSet → Dict Text → List Published → List Text → Result (List Text)
unfolding suite_problems
problems_of set snapshots actual [] = ok []
problems_of set snapshots actual (suite ∷ suites) =
    Fallible.◌>>=◌
      (suite_problems set snapshots suite (find_published set.publish_prefix suite actual))
      (λ here. Fallible.◌>>=◌ (problems_of set snapshots actual suites) (λ more. ok (here ++ more)))
