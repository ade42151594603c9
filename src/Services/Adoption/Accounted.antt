-- ===== src/Services/Adoption/Accounted.antt =====
-- The proposals and the leftovers account for every mirror that is not managed, each exactly once.
-- Lists are compared by how many of their elements pass a test, whatever the test.
use aptly_gui.Prelude.{
  ℕ, suc, ◌+◌, ◌≡◌, refl, ◌∙◌, Bool, true, false, Option, none, some, List, [], ◌∷◌, ◌++◌, map,
  arith, if◌then◌else◌, if-holds,
}
use aptly_gui.Text.{Text, mem}
use aptly_gui.Text.Sort.{insert_text, sort_texts}
use aptly_gui.Aptly.Models.{Mirror, Published}
use aptly_gui.Services.Naming.{Split, split_mirror_name}
use aptly_gui.Services.Adoption.{
  Member, Group, Proposal, Collected, member_names, same_key, add_member, collect_one, collect,
  key_leb, insert_group, sort_groups, build, propose_sets, nothing_yet,
}

abbrev pub count : (Text → Bool) → List Text → ℕ
count p [] = 0
count p (x ∷ xs) = let rest = count p xs in if p x then suc rest else rest

abbrev pub mirror_names : List Mirror → List Text
mirror_names [] = []
mirror_names (m ∷ ms) = m.name ∷ mirror_names ms

-- The mirrors of all the proposals.
abbrev pub proposed : List Proposal → List Text
proposed [] = []
proposed (p ∷ ps) = p.mirrors ++ proposed ps

abbrev pub unmanaged : List Text → List Mirror → List Text
unmanaged managed [] = []
unmanaged managed (m ∷ ms) =
    let rest = unmanaged managed ms in if mem m.name managed then rest else m.name ∷ rest

module _ (p : Text → Bool) where
  count-append : (xs ys : List Text) → count p (xs ++ ys) ≡ count p xs + count p ys
  count-append [] ys = omega arith
  count-append (x ∷ xs) ys = ground (arith, count-append xs ys)

  count-insert : (s : Text) (ts : List Text) → count p (insert_text s ts) ≡ count p (s ∷ ts)
  unfolding insert_text
  count-insert s [] = refl
  count-insert s (t ∷ ts) = ground (arith, count-insert s ts)

  count-sort : (ss : List Text) → count p (sort_texts ss) ≡ count p ss
  unfolding sort_texts
  count-sort [] = refl
  count-sort (s ∷ ss) = ground (arith, count-insert s (sort_texts ss), count-sort ss)

  abbrev in_groups : List Group → ℕ
  in_groups [] = 0
  in_groups (g ∷ gs) = count p (member_names g.members) + in_groups gs

  count-member :
      (ms : List Member) (m : Member)
      → count p (member_names (ms ++ m ∷ []))
        ≡ count p (member_names ms) + count p (m.mirror.name ∷ [])
  count-member [] m = omega arith
  count-member (n ∷ ms) m = ground (arith, count-member ms m)

  count-add_member :
      (m : Member) (gs : List Group)
      → in_groups (add_member m gs) ≡ in_groups gs + count p (m.mirror.name ∷ [])
  unfolding add_member
  count-add_member m [] = omega arith
  count-add_member m (g ∷ gs) =
      if-holds (λ hs. in_groups hs ≡ in_groups (g ∷ gs) + count p (m.mirror.name ∷ []))
        (same_key m.split.set_name m.mirror.archive_url m.split.pattern g)
        (λ e. omega (arith, count-member g.members m)) λ e. omega (arith, count-add_member m gs)

  count-leftover :
      (ms : List Mirror) (m : Mirror)
      → count p (mirror_names (ms ++ m ∷ [])) ≡ count p (mirror_names ms) + count p (m.name ∷ [])
  count-leftover [] m = omega arith
  count-leftover (n ∷ ms) m = ground (arith, count-leftover ms m)

  abbrev collected : Collected → ℕ
  collected c = in_groups c.groups + count p (mirror_names c.leftovers)

  count-collect_one :
      (m : Mirror) (s : Option Split) (c : Collected)
      → collected (collect_one m s c) ≡ collected c + count p (m.name ∷ [])
  unfolding collect_one
  count-collect_one m none c = omega (arith, count-leftover c.leftovers m)
  count-collect_one m (some s) c =
      omega (arith, count-add_member (record { mirror = m; split = s }) c.groups)

  -- One turn of the loop, by its test, where `f` is what the rest of the loop comes to.
  count-turn :
      (b : Bool) (name : Text) (c c' : Collected) (rest : List Text) (f : Collected → ℕ)
      → f c ≡ collected c + count p rest
      → f c' ≡ collected c' + count p rest
      → collected c' ≡ collected c + count p (name ∷ [])
      → f (if b then c else c') ≡ collected c + count p (if b then rest else name ∷ rest)
  count-turn true name c c' rest f h k e = h
  count-turn false name c c' rest f h k e = k ∙ omega (arith, e, count-append (name ∷ []) rest)

  count-collect :
      (managed : List Text) (ms : List Mirror) (c : Collected)
      → collected (collect managed ms c) ≡ collected c + count p (unmanaged managed ms)
  unfolding collect
  count-collect managed [] c = omega arith
  count-collect managed (m ∷ ms) c =
      let c' = collect_one m (split_mirror_name m none) c in
      count-turn (mem m.name managed) m.name c c' (unmanaged managed ms)
        (λ d. collected (collect managed ms d)) (count-collect managed ms c)
        (count-collect managed ms c') (count-collect_one m (split_mirror_name m none) c)

  count-insert_group :
      (g : Group) (gs : List Group) → in_groups (insert_group g gs) ≡ in_groups (g ∷ gs)
  unfolding insert_group
  count-insert_group g [] = refl
  count-insert_group g (h ∷ gs) =
      if-holds (λ hs. in_groups hs ≡ in_groups (g ∷ h ∷ gs)) (key_leb g h) (λ e. refl)
        λ e. omega (arith, count-insert_group g gs)

  count-sort_groups : (gs : List Group) → in_groups (sort_groups gs) ≡ in_groups gs
  unfolding sort_groups
  count-sort_groups [] = refl
  count-sort_groups (g ∷ gs) =
      omega (arith, count-insert_group g (sort_groups gs), count-sort_groups gs)

  count-build :
      (published : List Published) (gs : List Group)
      → count p (proposed (map (build published) gs)) ≡ in_groups gs
  unfolding build
  count-build published [] = refl
  count-build published (g ∷ gs) =
      count-append (sort_texts (member_names g.members)) (proposed (map (build published) gs))
      ∙ omega (arith, count-sort (member_names g.members), count-build published gs)

-- Adoption loses no mirror and proposes none twice: whatever test the names are put to, as many of
-- the mirrors that no set manages pass it as of those in the proposals and left over together.
pub propose_sets-accounts :
    (p : Text → Bool) (managed : List Text) (mirrors : List Mirror) (published : List Published)
    → count p (proposed (propose_sets managed mirrors published).0)
        + count p (mirror_names (propose_sets managed mirrors published).1)
      ≡ count p (unmanaged managed mirrors)
unfolding propose_sets
propose_sets-accounts p managed mirrors published =
    let c = collect managed mirrors nothing_yet in
    omega (
      arith,
      count-build p published (sort_groups c.groups),
      count-sort_groups p c.groups,
      count-collect p managed mirrors nothing_yet,
    )
