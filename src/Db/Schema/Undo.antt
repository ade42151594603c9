-- ===== src/Db/Schema/Undo.antt =====
-- Operations that add something, and the operations that take it away again.
use mathlib.Core.Path.{fun_ext}
use mathlib.Core.Option.{map, bind, map-eq-some_iff, some-injective, none-ne-some}
use aptly_gui.Prelude.{
  ◌≡◌, refl, sym, ap, ◌∙◌, inl, inr, Option, none, some, List, [], ◌∷◌, ◌++◌, All, if-true,
  if-false, Bool-cases,
}
use aptly_gui.Text.{Text, same}
use aptly_gui.Text.Laws.{same_refl}
use aptly_gui.Dict.{Dict}
use aptly_gui.Db.Schema.{
  Operation, create_table, drop_table, add_column, drop_column, Table, Column, Database, bind_assoc,
  add_new, remove, alter, with_columns, effect, run,
}

module _ {V : Type 0} where
  pub remove-add_new :
      (k : Text) (v : V) (d e : Dict V) → add_new k v d ≡ some e → remove k e ≡ some d
  unfolding add_new remove
  remove-add_new k v [] e h =
      ap (remove k) (sym (some-injective _ _ h)) ∙ if-true _ (same k k) (same_refl k)
  remove-add_new k v ((j, w) ∷ d) e h = elim (Bool-cases (same j k)) [
    | inl yes_ ↦ absurd (none-ne-some e (sym (if-true _ (same j k) yes_) ∙ h))
    | inr no_ ↦
        let (r, added, is) =
          (map-eq-some_iff _ (add_new k v d)).0 (sym (if-false _ (same j k) no_) ∙ h) in
        ap (remove k) (sym is)
        ∙ if-false _ (same j k) no_
        ∙ ap (map (λ x. (j, w) ∷ x)) (remove-add_new k v d r added)
  ]

  pub alter-alter :
      (k : Text) (f g : V → Option V) (d e : Dict V)
      → ((x y : V) → f x ≡ some y → g y ≡ some x)
      → alter k f d ≡ some e
      → alter k g e ≡ some d
  unfolding alter
  alter-alter k f g [] e u h = absurd (none-ne-some e h)
  alter-alter k f g ((j, w) ∷ d) e u h = elim (Bool-cases (same j k)) [
    | inl yes_ ↦
        let (x, changed, is) = (map-eq-some_iff _ (f w)).0 (sym (if-true _ (same j k) yes_) ∙ h) in
        ap (alter k g) (sym is)
        ∙ if-true _ (same j k) yes_
        ∙ ap (map (λ v. (j, v) ∷ d)) (u w x changed)
    | inr no_ ↦
        let (r, changed, is) =
          (map-eq-some_iff _ (alter k f d)).0 (sym (if-false _ (same j k) no_) ∙ h) in
        ap (alter k g) (sym is)
        ∙ if-false _ (same j k) no_
        ∙ ap (map (λ x. (j, w) ∷ x)) (alter-alter k f g d r u changed)
  ]

abbrev pub Adds : Operation → Type 0
Adds (create_table name columns constraints) = Unit
Adds (add_column table name column) = Unit
Adds _ = ⊥

abbrev pub inverse : Operation → Operation
inverse (create_table name columns constraints) = drop_table name
inverse (add_column table name column) = drop_column table name
inverse op = op

-- The inverses, the last one first.
abbrev pub inverses : List Operation → List Operation
inverses [] = []
inverses (op ∷ ops) = inverses ops ++ inverse op ∷ []

with_columns-back :
    (name : Text) (column : Column) (x y : Table)
    → with_columns x (add_new name column x.columns) ≡ some y
    → with_columns y (remove name y.columns) ≡ some x
with_columns-back name column x y h =
    let (columns, added, is) = (map-eq-some_iff _ (add_new name column x.columns)).0 h in
    ap (λ t. with_columns t (remove name t.columns)) (sym is)
    ∙ ap (map (λ cs. record x { columns = cs }))
        (remove-add_new name column x.columns columns added)

effect-inverse :
    (op : Operation) (d e : Database)
    → Adds op
    → effect op d ≡ some e
    → effect (inverse op) e ≡ some d
unfolding effect
effect-inverse (create_table name columns constraints) d e h k = remove-add_new name _ d e k
effect-inverse (add_column table name column) d e h k =
    alter-alter table _ _ d e (with_columns-back name column) k
effect-inverse (drop_table _) d e h k = elim h [ ]
effect-inverse (drop_column _ _) d e h k = elim h [ ]

run-append :
    (before after : List Operation) (d : Database)
    → run (before ++ after) d ≡ bind (run before d) (run after)
unfolding run bind
run-append [] after d = refl
run-append (op ∷ before) after d =
    ap (bind (effect op d)) (fun_ext (run-append before after))
    ∙ sym (bind_assoc (effect op d) (run before) (run after))

pub run-inverses :
    (ops : List Operation) (d e : Database)
    → All Adds ops
    → run ops d ≡ some e
    → run (inverses ops) e ≡ some d
unfolding run bind
run-inverses [] d e a h = sym h
run-inverses (op ∷ ops) d e a h = from (effect op d) refl h (λ c. run-inverses ops c e a.1)
  where
    from :
        (found : Option Database)
        → effect op d ≡ found
        → bind found (run ops) ≡ some e
        → ((c : Database) → run ops c ≡ some e → run (inverses ops) e ≡ some c)
        → run (inverses ops ++ inverse op ∷ []) e ≡ some d
    from none f k back = absurd (none-ne-some e k)
    from (some c) f k back =
        run-append (inverses ops) (inverse op ∷ []) e
        ∙ ap (λ x. bind x (run (inverse op ∷ []))) (back c k)
        ∙ ap (λ x. bind x (run [])) (effect-inverse op d c a.0 f)
