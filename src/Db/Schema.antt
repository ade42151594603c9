-- ===== src/Db/Schema.antt =====
-- The operations of alembic that the scripts of src/aptly_gui/migrations use, with what alembic
-- documents that each does to the tables of a database; and alembic itself, as the program calls it.
pub mod Undo
use mathlib.Core.Option.{map, bind}
use aptly_gui.Prelude.{
  ℕ, refl, ◌≡◌, Bool, Option, none, some, List, [], ◌∷◌, drop, take, if◌then◌else◌,
}
use aptly_gui.Text.{Text, same}
use aptly_gui.Dict.{Dict}

pub data ColumnType : Type 0 where
  string : ℕ → ColumnType
  text integer big_integer boolean json date_time : ColumnType

pub record Column : Type 0 where
  pub type : ColumnType
  pub nullable : Bool
  pub server_default : Option Text

pub data Constraint : Type 0 where
  primary_key unique : List Text → Constraint
  foreign_key : List Text → List Text → Constraint

pub record Table : Type 0 where
  pub columns : Dict Column
  pub constraints : List Constraint

pub data Operation : Type 0 where
  create_table : Text → Dict Column → List Constraint → Operation
  drop_table : Text → Operation
  add_column : Text → Text → Column → Operation
  drop_column : Text → Text → Operation

abbrev pub Database : Type 0
Database = Dict Table

pub record Migration : Type 0 where
  pub revision : Text
  pub down_revision : Option Text
  pub upgrade : List Operation
  pub downgrade : List Operation

-- Each script follows the one before it.
abbrev pub Linked : Option Text → List Migration → Type 0
Linked before [] = Unit
Linked before (m ∷ ms) = (m.down_revision ≡ before) × Linked (some m.revision) ms

abbrev pub last_of : Option Text → List Migration → Option Text
last_of before [] = before
last_of before (m ∷ ms) = last_of (some m.revision) ms

module _ {V : Type 0} where
  -- A new entry, at the end; none where there is one of that name.
  unfoldable pub add_new : Text → V → Dict V → Option (Dict V)
  add_new k v [] = some ((k, v) ∷ [])
  add_new k v ((j, w) ∷ d) =
      let rest = add_new k v d in if same j k then none else map (λ e. (j, w) ∷ e) rest

  -- none where there is no entry of that name
  unfoldable pub remove : Text → Dict V → Option (Dict V)
  remove k [] = none
  remove k ((j, w) ∷ d) =
      let rest = remove k d in if same j k then some d else map (λ e. (j, w) ∷ e) rest

  unfoldable pub alter : Text → (V → Option V) → Dict V → Option (Dict V)
  alter k f [] = none
  alter k f ((j, w) ∷ d) =
      let rest = alter k f d in
      if same j k then map (λ v. (j, v) ∷ d) (f w) else map (λ e. (j, w) ∷ e) rest

abbrev pub with_columns : Table → Option (Dict Column) → Option Table
with_columns t columns = map (λ cs. record t { columns = cs }) columns

-- What an operation does to the tables; none where it fails.
unfoldable pub effect : Operation → Database → Option Database
effect (create_table name columns constraints) d =
    add_new name (record { columns = columns; constraints = constraints }) d
effect (drop_table name) d = remove name d
effect (add_column table name column) d =
    alter table (λ t. with_columns t (add_new name column t.columns)) d
effect (drop_column table name) d = alter table (λ t. with_columns t (remove name t.columns)) d

unfoldable pub run : List Operation → Database → Option Database
run [] d = some d
run (op ∷ ops) d = bind (effect op d) (run ops)

-- The upgrades of scripts, one after the other.
unfoldable pub run_scripts : List Migration → Database → Option Database
run_scripts [] d = some d
run_scripts (m ∷ ms) d = bind (run m.upgrade d) (run_scripts ms)

pub bind_assoc :
    {A B C : Type 0} (x : Option A) (f : A → Option B) (g : B → Option C)
    → bind (bind x f) g ≡ bind x (λ a. bind (f a) g)
unfolding bind
bind_assoc none f g = refl
bind_assoc (some a) f g = refl

-- alembic and the inspector, on a connection: the revision that it carries, its tables, `stamp`,
-- `upgrade` to the head of the scripts, and one operation, none where it fails.
pub record Alembic : Type 1 where
  pub Connection : Type 0
  pub revision : Connection → Option Text
  pub tables : Connection → Database
  pub stamp : Text → Connection → Connection
  pub upgrade : Connection → Connection
  pub perform : Operation → Connection → Option Connection

-- What alembic documents, of the scripts `history`.
pub record Documented (a : Alembic) (history : List Migration) : Type 0 where
  pub stamps :
      (r : Text) (c : a.Connection)
      → (a.revision (a.stamp r c) ≡ some r) × (a.tables (a.stamp r c) ≡ a.tables c)
  pub performs :
      (op : Operation) (c : a.Connection) → map a.tables (a.perform op c) ≡ effect op (a.tables c)
  pub upgrades :
      Linked none history
      → (n : ℕ) (c : a.Connection) (d : Database) → a.revision c ≡ last_of none (take n history)
      → run_scripts (drop n history) (a.tables c) ≡ some d
      → (a.tables (a.upgrade c) ≡ d) × (a.revision (a.upgrade c) ≡ last_of none history)
