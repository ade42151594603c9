-- ===== src/Jobs/Update/Named.antt =====
-- The snapshot names that an update collects, and a row found by its id.
use aptly_gui.Prelude.{ℕ, ◌≤◌, ◌≡◌, ap, ◌∙◌, some, List, [], ◌∷◌, ◌++◌, arith, if-holds, All}
use aptly_gui.Text.{Text, codes, same}
use aptly_gui.Text.Laws.{same→eq}
use aptly_gui.Dict.{Dict, lookup, insert, lookup-insert}
use aptly_gui.Db.Models.{MirrorSet, SnapshotSet, mirror_name}
use aptly_gui.Jobs.State.{get_snapshot_set, update_snapshot_set, next_snapshot_set_id}

-- The names that a dictionary must have after the snapshots of some pairs.
abbrev pub Names : MirrorSet → Text → Dict Text → List (Text × Text) → Type 0
Names set stamp taken pairs =
    All
      (λ p.
        lookup (mirror_name set p.0 p.1) taken
        ≡ some (mirror_name set p.0 p.1 ++ (codes "-" ++ stamp)))
      pairs

pub get-update :
    (id : ℕ) (f : SnapshotSet → SnapshotSet) (rows : List SnapshotSet) (x : SnapshotSet)
    → ((y : SnapshotSet) → (f y).id ≡ y.id)
    → get_snapshot_set id rows ≡ some x
    → get_snapshot_set id (update_snapshot_set id f rows) ≡ some (f x)
unfolding get_snapshot_set update_snapshot_set
get-update id f [] x k h = cc
get-update id f (y ∷ rows) x k h = ground (arith, k y, get-update id f rows x k)

pub get-append :
    (id : ℕ) (rows : List SnapshotSet) (x : SnapshotSet)
    → next_snapshot_set_id rows ≤ id
    → x.id ≡ id
    → get_snapshot_set id (rows ++ x ∷ []) ≡ some x
unfolding get_snapshot_set next_snapshot_set_id
get-append id [] x h e = ground arith
get-append id (y ∷ rows) x h e = ground (arith, get-append id rows x)

-- One more snapshot keeps the names of the pairs before.
insert-named :
    (taken : Dict Text) (tail m n : Text)
    → lookup n taken ≡ some (n ++ tail)
    → lookup n (insert m (m ++ tail) taken) ≡ some (n ++ tail)
insert-named taken tail m n h =
    lookup-insert m n (m ++ tail) taken
    ∙ if-holds (λ r. r ≡ some (n ++ tail)) (same m n)
        (λ e. ap (λ t. some (t ++ tail)) (same→eq m n e)) λ e. h

pub insert-Names :
    (set : MirrorSet) (stamp : Text) (taken : Dict Text) (m : Text) (done : List (Text × Text))
    → Names set stamp taken done
    → Names set stamp (insert m (m ++ (codes "-" ++ stamp)) taken) done
insert-Names set stamp taken m [] h = tt
insert-Names set stamp taken m (q ∷ done) h = (
  insert-named taken (codes "-" ++ stamp) m (mirror_name set q.0 q.1) h.0,
  insert-Names set stamp taken m done h.1,
)
