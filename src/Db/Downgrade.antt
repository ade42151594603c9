-- ===== src/Db/Downgrade.antt =====
-- The downgrades of the scripts of src/aptly_gui/migrations/versions undo their upgrades.
use mathlib.Core.Path.{subst}
use mathlib.Core.Option.{bind, map, map-eq-some_iff}
use aptly_gui.Prelude.{◌≡◌, refl, sym, ap, ◌∙◌, Option, none, some, List, [], ◌∷◌, ◌++◌, All}
use aptly_gui.Db.Schema.{Operation, Migration, run, Alembic, Documented}
use aptly_gui.Db.Schema.Undo.{Adds, inverses, run-inverses}
use aptly_gui.Db.Scripts.{history}

-- The body of a script: its operations one after the other.
unfoldable pub perform_all : (a : Alembic) → List Operation → a.Connection → Option a.Connection
perform_all a [] c = some c
perform_all a (op ∷ ops) c = bind (a.perform op c) (perform_all a ops)

-- A script that adds only, and takes away in the opposite order.
abbrev Undoes : Migration → Type 0
Undoes m = (m.downgrade ≡ inverses m.upgrade) × All Adds m.upgrade

history-Undoes : All Undoes history
history-Undoes = (
  (refl, (tt, (tt, (tt, (tt, (tt, (tt, tt))))))),
  (
    (refl, (tt, (tt, (tt, (tt, tt))))),
    ((refl, (tt, tt)), ((refl, (tt, tt)), ((refl, (tt, (tt, (tt, tt)))), tt))),
  ),
)

All-middle {ℓ κ} :
    {A : Type ℓ} (P : A → Type κ) (before after : List A) {x : A}
    → All P (before ++ x ∷ after)
    → P x
All-middle P [] after h = h.0
All-middle P (y ∷ before) after h = All-middle P before after h.1

module _ (a : Alembic) (documented : Documented a history) where
  tables-perform_all :
      (ops : List Operation) (c : a.Connection)
      → map a.tables (perform_all a ops c) ≡ run ops (a.tables c)
  unfolding perform_all run bind
  tables-perform_all [] c = refl
  tables-perform_all (op ∷ ops) c =
      then_rest (a.perform op c) (tables-perform_all ops)
      ∙ ap (λ x. bind x (run ops)) (documented.performs op c)
    where
      then_rest :
          (found : Option a.Connection)
          → ((d : a.Connection) → map a.tables (perform_all a ops d) ≡ run ops (a.tables d))
          → map a.tables (bind found (perform_all a ops)) ≡ bind (map a.tables found) (run ops)
      then_rest none rest = refl
      then_rest (some d) rest = rest d

  -- Where alembic does what it documents: a script of the history whose upgrade has succeeded, on any
  -- tables, can be taken back; its downgrade succeeds and leaves the tables as they were before, with
  -- the same columns and constraints.
  pub downgrade-upgrade :
      (before after : List Migration) (m : Migration) (c d : a.Connection)
      → history ≡ before ++ m ∷ after
      → perform_all a m.upgrade c ≡ some d
      → (e : a.Connection) × (perform_all a m.downgrade d ≡ some e) × (a.tables e ≡ a.tables c)
  downgrade-upgrade before after m c d split up =
      let undoes : Undoes m =
        All-middle Undoes before after (subst (All Undoes) split history-Undoes) in
      let made : run m.upgrade (a.tables c) ≡ some (a.tables d) =
        sym (tables-perform_all m.upgrade c) ∙ ap (map a.tables) up in
      let back : run m.downgrade (a.tables d) ≡ some (a.tables c) =
        ap (λ ops. run ops (a.tables d)) undoes.0
        ∙ run-inverses m.upgrade (a.tables c) (a.tables d) undoes.1 made in
      (map-eq-some_iff a.tables (perform_all a m.downgrade d)).0
        (tables-perform_all m.downgrade d ∙ back)
