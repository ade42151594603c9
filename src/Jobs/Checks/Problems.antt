-- ===== src/Jobs/Checks/Problems.antt =====
-- What the Verify step of a switch accepts.
use aptly_gui.Prelude.{
  ◌≡◌, ◌≢◌, refl, ap, ◌∙◌, ◌↔◌, Bool, true, false, Option, none, some, List, [], ◌∷◌, ◌++◌, All,
  if◌then◌else◌,
}
use aptly_gui.Text.{Text}
use aptly_gui.Text.Laws.{same→eq, same_refl}
use aptly_gui.Exec.{Result, ok, raised}
use aptly_gui.Exec.Fallible
use aptly_gui.Dict.{Dict, lookup}
use aptly_gui.Aptly.Models.{Published, snapshot_for}
use aptly_gui.Db.Models.{MirrorSet, mirror_name}
use aptly_gui.Jobs.Checks.{
  problems_of, suite_problems, component_problem, component_problems, find_published, points_at,
}

-- `p` has, for each component, the snapshot that `snapshots` has for the component's mirror.
abbrev pub Points : MirrorSet → Dict Text → Text → Published → List Text → Type 0
Points set snapshots suite p components =
    All
      (λ c.
        (x : Text) × (lookup (mirror_name set suite c) snapshots ≡ some x)
        × (snapshot_for p c ≡ some x))
      components

-- aptly publishes the suite, with those snapshots.
abbrev pub Publishes : MirrorSet → Dict Text → List Published → Text → Type 0
Publishes set snapshots actual suite =
    (p : Published) × (find_published set.publish_prefix suite actual ≡ some p)
    × Points set snapshots suite p set.components

points_at→eq : (found : Option Text) (x : Text) → points_at found x ≡ true → found ≡ some x
points_at→eq none x h = cc
points_at→eq (some t) x h = ap some (same→eq t x h)

chain-ok_nil :
    (r : Result (List Text)) (p : Text) → Fallible.◌>>=◌ r (λ more. ok (p ∷ more)) ≢ ok []
chain-ok_nil (ok more) p e = cc
chain-ok_nil (raised x) p e = cc

if-none :
    (b : Bool) (rest : Result (List Text)) (p : Text)
    → (if b then rest else Fallible.◌>>=◌ rest (λ more. ok (p ∷ more))) ≡ ok []
    → (b ≡ true) × (rest ≡ ok [])
if-none true rest p e = (refl, e)
if-none false rest p e = absurd (chain-ok_nil rest p e)

-- A turn of the loop that leaves no problem found what it looked for.
component_problem-none :
    (name suite c : Text) (found expected : Option Text) (rest : Result (List Text))
    → component_problem name suite c found expected rest ≡ ok []
    → ((x : Text) × (expected ≡ some x) × (found ≡ some x)) × (rest ≡ ok [])
unfolding component_problem
component_problem-none name suite c found none rest e = cc
component_problem-none name suite c found (some x) rest e =
    let (h, k) = if-none (points_at found x) rest _ e in ((x, refl, points_at→eq found x h), k)

component_problem-some :
    (name suite c x : Text) (found expected : Option Text) (rest : Result (List Text))
    → expected ≡ some x
    → found ≡ some x
    → component_problem name suite c found expected rest ≡ rest
unfolding component_problem
component_problem-some name suite c x found expected rest e f = rw e (rw f (rw (same_refl x) refl))

chain-ok :
    (r : Result (List Text)) (s : Result (List Text))
    → Fallible.◌>>=◌ r (λ here. Fallible.◌>>=◌ s (λ more. ok (here ++ more))) ≡ ok []
    → (r ≡ ok []) × (s ≡ ok [])
chain-ok (ok []) (ok []) e = (refl, refl)
chain-ok (ok []) (ok (x ∷ xs)) e = cc
chain-ok (ok (x ∷ xs)) (ok ys) e = cc
chain-ok (ok here) (raised x) e = cc
chain-ok (raised x) s e = cc

module _ (set : MirrorSet) (snapshots : Dict Text) where
  module _ (suite : Text) where
    module _ (p : Published) where
      sound :
          (cs : List Text)
          → component_problems set snapshots suite p cs ≡ ok []
          → Points set snapshots suite p cs
      unfolding component_problems
      sound [] h = tt
      sound (c ∷ cs) h =
          let (found, rest) = component_problem-none (mirror_name set suite c) suite c _ _ _ h in
          (found, sound cs rest)

      complete :
          (cs : List Text)
          → Points set snapshots suite p cs
          → component_problems set snapshots suite p cs ≡ ok []
      unfolding component_problems
      complete [] h = refl
      complete (c ∷ cs) h =
          component_problem-some (mirror_name set suite c) suite c h.0.0 _ _ _ h.0.1 h.0.2
          ∙ complete cs h.1

    suite_sound :
        (found : Option Published)
        → suite_problems set snapshots suite found ≡ ok []
        → (p : Published) × (found ≡ some p) × Points set snapshots suite p set.components
    unfolding suite_problems
    suite_sound none h = cc
    suite_sound (some p) h = (p, refl, sound p set.components h)

    suite_complete :
        (found : Option Published) (p : Published)
        → found ≡ some p
        → Points set snapshots suite p set.components
        → suite_problems set snapshots suite found ≡ ok []
    unfolding suite_problems
    suite_complete found p e h = rw e (complete p set.components h)

  module _ (actual : List Published) where
    All-sound :
        (suites : List Text)
        → problems_of set snapshots actual suites ≡ ok []
        → All (Publishes set snapshots actual) suites
    unfolding problems_of
    All-sound [] h = tt
    All-sound (suite ∷ suites) h =
        let (here, rest) =
          chain-ok
            (suite_problems set snapshots suite (find_published set.publish_prefix suite actual))
            (problems_of set snapshots actual suites) h in
        (suite_sound suite _ here, All-sound suites rest)

    All-complete :
        (suites : List Text)
        → All (Publishes set snapshots actual) suites
        → problems_of set snapshots actual suites ≡ ok []
    unfolding problems_of
    All-complete [] h = refl
    All-complete (suite ∷ suites) h =
        let ((p, found, points), rest) = h in
        rw (suite_complete suite _ p found points) (rw (All-complete suites rest) refl)

    -- The Verify step of a switch lists no problem exactly when aptly's list has, under the prefix of
    -- the set, a publication for each suite whose source for each component is the snapshot that the
    -- target has for the component's mirror.
    pub problems_of-none_iff :
        (suites : List Text)
        → (problems_of set snapshots actual suites ≡ ok [])
          ↔ All (Publishes set snapshots actual) suites
    problems_of-none_iff suites = (All-sound suites, All-complete suites)
