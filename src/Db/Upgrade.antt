-- ===== src/Db/Upgrade.antt =====
-- upgrade_database of src/aptly_gui/db/migrate.py: _prepare_and_upgrade on a connection, and what it
-- makes of a database that some of the scripts have made.
use mathlib.Core.Path.{fun_ext}
use mathlib.Core.Option.{bind, get_or, some-ne-none}
use aptly_gui.Prelude.{
  ℕ, zero, suc, ◌≡◌, refl, sym, ap, ◌∙◌, ◌⊎◌, inl, inr, Option, none, some, List, [], ◌∷◌, ◌++◌,
  map, drop, take, take-append-drop,
}
use aptly_gui.Text.{Text, same, mem}
use aptly_gui.Dict.{lookup}
use aptly_gui.Db.Schema.{
  Database, Migration, Linked, last_of, add_new, remove, alter, effect, run, run_scripts, Alembic,
  Documented, bind_assoc,
}
use aptly_gui.Db.Scripts.{history}
use aptly_gui.Db.Migrate.{Schema, reached, detect_revision}

-- What the inspector reports: the tables with the names of their columns.
abbrev pub column_names : Database → Schema
column_names d = map (λ t. (t.0, map (λ c. c.0) t.1.columns)) d

module _ (a : Alembic) where
  -- `if adopted is not None: command.stamp(...)`
  stamp_adopted : Option Text → a.Connection → a.Connection
  stamp_adopted none c = c
  stamp_adopted (some adopted) c = a.stamp adopted c

  prepare : Option Text → a.Connection → a.Connection
  unfolding stamp_adopted
  prepare none c = stamp_adopted (detect_revision (column_names (a.tables c))) c
  prepare (some current) c = c

  -- _prepare_and_upgrade
  unfoldable pub prepare_and_upgrade : a.Connection → a.Connection
  unfolding prepare
  prepare_and_upgrade c = a.upgrade (prepare (a.revision c) c)

-- The tables that the first `n` scripts make.
abbrev made : ℕ → Database
made n = get_or (run_scripts (take n history) []) []

run_scripts-append :
    (before after : List Migration) (d : Database)
    → run_scripts (before ++ after) d ≡ bind (run_scripts before d) (run_scripts after)
unfolding run_scripts bind
run_scripts-append [] after d = refl
run_scripts-append (m ∷ before) after d =
    ap (bind (run m.upgrade d)) (fun_ext (run_scripts-append before after))
    ∙ sym (bind_assoc (run m.upgrade d) (run_scripts before) (run_scripts after))

-- The scripts run from an empty database to the last.
head-made : run_scripts history [] ≡ some (made 5)
unfolding run_scripts run effect bind add_new remove alter same
head-made = refl

-- A database that the first scripts made is found to be at the last of them.
detect_revision-made :
    (n : ℕ) → detect_revision (column_names (made n)) ≡ last_of none (take n history)
unfolding run_scripts run effect bind add_new remove alter same detect_revision reached lookup mem
detect_revision-made zero = refl
detect_revision-made (suc zero) = refl
detect_revision-made (suc (suc zero)) = refl
detect_revision-made (suc (suc (suc zero))) = refl
detect_revision-made (suc (suc (suc (suc zero)))) = refl
detect_revision-made (suc (suc (suc (suc (suc zero))))) = refl
detect_revision-made (suc (suc (suc (suc (suc (suc n)))))) = refl

history-Linked : Linked none history
history-Linked = (refl, (refl, (refl, (refl, (refl, tt)))))

-- The rest of the scripts brings a database that the first ones made to the head.
rest_of_history :
    (n : ℕ) (d : Database)
    → run_scripts (take n history) [] ≡ some d
    → run_scripts (drop n history) d ≡ some (made 5)
unfolding bind
rest_of_history n d h =
    ap (λ x. bind x (run_scripts (drop n history))) (sym h)
    ∙ sym (run_scripts-append (take n history) (drop n history) [])
    ∙ ap (λ ms. run_scripts ms []) (take-append-drop n history)
    ∙ head-made

module _ (a : Alembic) (documented : Documented a history) where
  stamp_adopted-revision :
      (adopted : Option Text) (c : a.Connection)
      → a.revision c ≡ none
      → (a.revision (stamp_adopted a adopted c) ≡ adopted)
        × (a.tables (stamp_adopted a adopted c) ≡ a.tables c)
  unfolding stamp_adopted
  stamp_adopted-revision none c e = (e, refl)
  stamp_adopted-revision (some adopted) c e = documented.stamps adopted c

  -- Of a connection whose tables the first scripts made, and whose revision is none or theirs.
  prepare-revision :
      (n : ℕ) (c : a.Connection) (current : Option Text)
      → run_scripts (take n history) [] ≡ some (a.tables c)
      → a.revision c ≡ current
      → (current ≡ none) ⊎ (current ≡ last_of none (take n history))
      → (a.revision (prepare a current c) ≡ last_of none (take n history))
        × (a.tables (prepare a current c) ≡ a.tables c)
  unfolding prepare
  prepare-revision n c none h e r =
      let (at, same_tables) = stamp_adopted-revision _ c e in
      let is_made : made n ≡ a.tables c = ap (λ d. get_or d []) h in
      (
        at ∙ ap (λ d. detect_revision (column_names d)) (sym is_made) ∙ detect_revision-made n,
        same_tables,
      )
  prepare-revision n c (some current) h e (inl r) = absurd (some-ne-none current r)
  prepare-revision n c (some current) h e (inr r) = (e ∙ r, refl)

  -- Where alembic does what it documents: the start brings to the head every database that the first
  -- scripts of the history, some, none or all, have made, whether it carries their revision or none;
  -- it then carries the revision of the last script, and its tables are those that all scripts make.
  pub upgrade_database-head :
      (n : ℕ) (c : a.Connection)
      → run_scripts (take n history) [] ≡ some (a.tables c)
      → (a.revision c ≡ none) ⊎ (a.revision c ≡ last_of none (take n history))
      → (a.revision (prepare_and_upgrade a c) ≡ last_of none history)
        × (run_scripts history [] ≡ some (a.tables (prepare_and_upgrade a c)))
  unfolding prepare_and_upgrade
  upgrade_database-head n c h r =
      let start = prepare a (a.revision c) c in
      let (at, same_tables) = prepare-revision n c (a.revision c) h refl r in
      let (tables, revision) =
        documented.upgrades history-Linked n start (made 5) at
          (ap (run_scripts (drop n history)) same_tables ∙ rest_of_history n (a.tables c) h) in
      (revision, head-made ∙ ap some (sym tables))
