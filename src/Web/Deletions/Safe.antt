-- ===== src/Web/Deletions/Safe.antt =====
-- What the pages that start a deletion let through.
use mathlib.Core.List.{Perm}
use aptly_gui.Prelude.{
  ℕ, ◌≡◌, refl, sym, ap, ◌∙◌, Bool, true, false, ◌||◌, not, Option, none, some, List, [], ◌∷◌,
  arith, filter, any, All, ◌==◌, if◌then◌else◌, if-holds, Bool-cases, inl, inr,
}
use aptly_gui.Text.{Text, mem, text_leb, truthy}
use aptly_gui.Dict.{values}
use aptly_gui.Db.Models.{MirrorSet, SnapshotSet, expected_mirrors}
use aptly_gui.Jobs.State.{get_snapshot_set}
use aptly_gui.Web.State.{AptlyState, published_snapshot_names, snapshot_names, mirror_names}
use aptly_gui.Text.Sort.{insert_text, sort_texts, sort-Perm}
use aptly_gui.Web.Deletions.{
  Owner, Enqueued, later_or, when, holds, blocked_by, discarding, discard_unless, owner_in,
  owner_of, snapshot_context, discard_entry, discard_submit, discard_row, discard_set_submit,
  made_from, snapshots_of, managed, is_nil, names_a_set, removing, mirror_delete,
}

-- A snapshot set of one of the sets holds the snapshot.
abbrev pub held : List MirrorSet → List SnapshotSet → Text → Bool
held sets rows name = any (λ set. any (holds set name) rows) sets

later_or-none : {A : Type 0} (a b : Option A) → later_or a b ≡ none → (a ≡ none) × (b ≡ none)
unfolding later_or
later_or-none none b h = (refl, h)
later_or-none (some a) b h = cc

when-none : {A : Type 0} (b : Bool) (a : A) → when b a ≡ none → b ≡ false
unfolding when
when-none true a h = cc
when-none false a h = refl

when-some : {A : Type 0} (b : Bool) (a c : A) → when b a ≡ some c → (b ≡ true) × (a ≡ c)
unfolding when
when-some true a c h = (refl, cc)
when-some false a c h = cc

free_in :
    (set : MirrorSet) (rows : List SnapshotSet) (name : Text)
    → owner_in set rows name ≡ none
    → any (holds set name) rows ≡ false
unfolding owner_in
free_in set [] name h = refl
free_in set (x ∷ rows) name h =
    let (later, here) = later_or-none _ _ h in
    let miss : holds set name x ≡ false = when-none (holds set name x) _ here in
    rw miss (free_in set rows name later)

free_of :
    (sets : List MirrorSet) (rows : List SnapshotSet) (name : Text)
    → owner_of sets rows name ≡ none
    → held sets rows name ≡ false
unfolding owner_of
free_of [] rows name h = refl
free_of (set ∷ sets) rows name h =
    let (later, here) = later_or-none _ _ h in
    let miss : any (holds set name) rows ≡ false = free_in set rows name here in
    rw miss (free_of sets rows name later)

entry-free :
    (name : Text) (known listed : Bool) (owner : Option Owner) (e : Enqueued)
    → discard_entry name (when known (record { owner = owner; blocked = blocked_by listed owner }))
      ≡ some e
    → (known ≡ true) × (listed ≡ false) × (owner ≡ none) × (discarding none (name ∷ []) none ≡ e)
unfolding discard_entry discard_unless when
entry-free name false listed owner e h = cc
entry-free name true true owner e h = cc
entry-free name true false (some o) e h = cc
entry-free name true false none e h = (refl, refl, refl, cc)

-- A single snapshot is discarded only if aptly holds it, publishes it nowhere, and no snapshot set of
-- any mirror set holds it; the job names that snapshot alone.
pub discard_submit-safe :
    (sets : List MirrorSet) (rows : List SnapshotSet) (state : AptlyState) (name : Text)
    (e : Enqueued)
    → discard_submit sets rows state name ≡ some e
    → (e ≡ discarding none (name ∷ []) none)
      × (mem name (snapshot_names state) ≡ true)
      × (mem name (published_snapshot_names state) ≡ false)
      × (held sets rows name ≡ false)
unfolding discard_submit snapshot_context
discard_submit-safe sets rows state name e h =
    let (known, listed, free, job) =
      entry-free name (mem name (snapshot_names state)) (mem name (published_snapshot_names state))
        (owner_of sets rows name) e h in
    (sym job, known, listed, free_of sets rows name free)

none_of : (p : Text → Bool) (xs : List Text) → any p xs ≡ false → All (λ x. p x ≡ false) xs
none_of p [] h = tt
none_of p (x ∷ xs) h = (ground arith, none_of p xs (ground arith))

row-free :
    (set_id id : ℕ) (state : AptlyState) (x : SnapshotSet) (e : Enqueued) (own listed : Bool)
    (names : List Text)
    → (if not own
        then none
        else if listed
        then none
        else some (discarding (some set_id) names (some id)))
      ≡ some e
    → (own ≡ true) × (listed ≡ false) × (discarding (some set_id) names (some id) ≡ e)
row-free set_id id state x e true false names h = (refl, refl, cc)
row-free set_id id state x e true true names h = cc
row-free set_id id state x e false listed names h = cc

discard_row-safe :
    (set_id id : ℕ) (state : AptlyState) (found : Option SnapshotSet) (e : Enqueued)
    → discard_row set_id id state found ≡ some e
    → (x : SnapshotSet) × (found ≡ some x)
      × ((x.mirror_set_id == set_id) ≡ true)
      × (e ≡ discarding (some set_id) (sort_texts (values x.snapshots)) (some id))
      × Perm (sort_texts (values x.snapshots)) (values x.snapshots)
      × All
          (λ name. mem name (published_snapshot_names state) ≡ false)
          (sort_texts (values x.snapshots))
unfolding discard_row
discard_row-safe set_id id state none e h = cc
discard_row-safe set_id id state (some x) e h =
    let (own, free, job) =
      row-free set_id id state x e (x.mirror_set_id == set_id)
        (any (λ name. mem name (published_snapshot_names state)) (sort_texts (values x.snapshots)))
        (sort_texts (values x.snapshots)) h in
    (x, refl, own, sym job, sort-Perm _, none_of _ _ free)

-- A snapshot set is discarded only if it is one of the mirror set that the page names and aptly
-- publishes none of its snapshots; the job names exactly the snapshots of that snapshot set.
pub discard_set_submit-safe :
    (set_id id : ℕ) (rows : List SnapshotSet) (state : AptlyState) (e : Enqueued)
    → discard_set_submit set_id id rows state ≡ some e
    → (x : SnapshotSet) × (get_snapshot_set id rows ≡ some x)
      × ((x.mirror_set_id == set_id) ≡ true)
      × (e ≡ discarding (some set_id) (sort_texts (values x.snapshots)) (some id))
      × Perm (sort_texts (values x.snapshots)) (values x.snapshots)
      × All
          (λ name. mem name (published_snapshot_names state) ≡ false)
          (sort_texts (values x.snapshots))
unfolding discard_set_submit
discard_set_submit-safe set_id id rows state e h =
    discard_row-safe set_id id state (get_snapshot_set id rows) e h

insert-filled : (s : Text) (ts : List Text) → is_nil (insert_text s ts) ≡ false
unfolding insert_text
insert-filled s [] = refl
insert-filled s (t ∷ ts) = if-holds (λ us. is_nil us ≡ false) (text_leb s t) (λ e. refl) λ e. refl

sorted-nil : (ss : List Text) → is_nil (sort_texts ss) ≡ true → is_nil ss ≡ true
unfolding sort_texts
sorted-nil [] h = refl
sorted-nil (s ∷ ss) h =
    let k : is_nil (insert_text s (sort_texts ss)) ≡ false = insert-filled s (sort_texts ss) in cc

filter-nil :
    (p : Text → Bool) (xs : List Text) → is_nil (filter p xs) ≡ true → All (λ x. p x ≡ false) xs
filter-nil p [] h = tt
filter-nil p (x ∷ xs) h = elim (Bool-cases (p x)) [
  | inl e ↦ absurd (kept e)
  | inr e ↦ (e, filter-nil p xs (dropped e))
]
  where
    kept : p x ≡ true → ⊥
    kept e = ground arith

    dropped : p x ≡ false → is_nil (filter p xs) ≡ true
    dropped e = ground arith

none_made :
    (state : AptlyState) (mirrors : List Text)
    → is_nil (snapshots_of state mirrors) ≡ true
    → All (λ name. made_from mirrors name ≡ false) (snapshot_names state)
unfolding snapshots_of
none_made state mirrors h = filter-nil (made_from mirrors) (snapshot_names state) (sorted-nil _ h)

unmanaged :
    (a b c : Bool) (d e : Enqueued)
    → (if not a || (b || not c) then none else some d) ≡ some e
    → (a ≡ true) × (b ≡ false) × (c ≡ true) × (d ≡ e)
unmanaged true false true d e h = (refl, refl, refl, cc)
unmanaged true false false d e h = cc
unmanaged true true c d e h = cc
unmanaged false b c d e h = cc

later_or-name :
    (P : Text → Type 0) (a b : Option Text) (t : Text)
    → ((u : Text) → a ≡ some u → P u)
    → ((u : Text) → b ≡ some u → P u)
    → later_or a b ≡ some t
    → P t
unfolding later_or
later_or-name P none b t k l h = l t h
later_or-name P (some u) b t k l h = k t h

-- Where every set has a name, so has the one that describes a mirror.
managed-named :
    (sets : List MirrorSet) (name t : Text)
    → All (λ set. truthy set.name ≡ true) sets
    → managed sets name ≡ some t
    → truthy t ≡ true
unfolding managed
managed-named [] name t named h = cc
managed-named (set ∷ sets) name t named h =
    later_or-name (λ u. truthy u ≡ true) (managed sets name) _ t
      (λ u. managed-named sets name u named.1)
      (λ u e.
        let (described, is) = when-some (mem name (expected_mirrors set)) set.name u e in
        ap truthy (sym is) ∙ named.0)
      h

none_described :
    (sets : List MirrorSet) (name : Text)
    → managed sets name ≡ none
    → All (λ set. mem name (expected_mirrors set) ≡ false) sets
unfolding managed
none_described [] name h = tt
none_described (set ∷ sets) name h =
    let (later, here) = later_or-none _ _ h in
    (when-none (mem name (expected_mirrors set)) set.name here, none_described sets name later)

undescribed :
    (sets : List MirrorSet) (name : Text)
    → All (λ set. truthy set.name ≡ true) sets
    → names_a_set (managed sets name) ≡ false
    → All (λ set. mem name (expected_mirrors set) ≡ false) sets
undescribed sets name named h = none_described sets name (is_none (managed sets name) refl h)
  where
    is_none :
        (found : Option Text)
        → managed sets name ≡ found
        → names_a_set found ≡ false
        → managed sets name ≡ none
    is_none none e k = e
    is_none (some t) e k = let has : truthy t ≡ true = managed-named sets name t named e in cc

-- Where every mirror set has a name, a single mirror is removed only if aptly, as the page's cached
-- read has it, has the mirror, no mirror set describes it, and no snapshot has a name that begins with
-- the mirror's name and a dash; the job names it alone.
pub mirror_delete-safe :
    (sets : List MirrorSet) (state : AptlyState) (name : Text) (e : Enqueued)
    → All (λ set. truthy set.name ≡ true) sets
    → mirror_delete sets state name ≡ some e
    → (e ≡ removing none (name ∷ []))
      × (mem name (mirror_names state) ≡ true)
      × All (λ set. mem name (expected_mirrors set) ≡ false) sets
      × All (λ x. made_from (name ∷ []) x ≡ false) (snapshot_names state)
unfolding mirror_delete
mirror_delete-safe sets state name e named h =
    let (there, free, clear, job) =
      unmanaged (mem name (mirror_names state)) (names_a_set (managed sets name))
        (is_nil (snapshots_of state (name ∷ []))) (removing none (name ∷ [])) e h in
    (sym job, there, undescribed sets name named free, none_made state (name ∷ []) clear)
