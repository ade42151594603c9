-- ===== src/Tests/Migrations.antt =====
-- The theorems on the migrations, applied to an alembic that runs the scripts.
use mathlib.Core.Option.{map, get_or}
use aptly_gui.Prelude.{
  ℕ, zero, suc, ◌≡◌, refl, ap, ◌∙◌, inl, Option, none, some, List, [], ◌∷◌, drop, take,
  if◌then◌else◌,
}
use aptly_gui.Text.{Text, same}
use aptly_gui.Db.Schema.{
  Database, Migration, last_of, add_new, remove, alter, effect, run, run_scripts, Alembic,
  Documented,
}
use aptly_gui.Db.Scripts.{
  history, initial_schema, add_download_progress, add_expected_step_count, add_users,
  add_naming_pattern,
}
use aptly_gui.Db.Upgrade.{prepare_and_upgrade, upgrade_database-head}
use aptly_gui.Db.Downgrade.{perform_all, downgrade-upgrade}

-- The scripts after a revision.
abbrev later : Option Text → List Migration → List Migration
later none ms = ms
later (some r) [] = []
later (some r) (m ∷ ms) = let rest = later (some r) ms in if same m.revision r then ms else rest

abbrev small_alembic : Alembic
small_alembic = record {
  Connection = Option Text × Database;
  revision = λ c. c.0;
  tables = λ c. c.1;
  stamp = λ r c. (some r, c.1);
  upgrade = λ c. (last_of none history, get_or (run_scripts (later c.0 history) c.1) []);
  perform = λ op c. map (λ d. (c.0, d)) (effect op c.1);
}

later-take : (n : ℕ) → later (last_of none (take n history)) history ≡ drop n history
unfolding same
later-take zero = refl
later-take (suc zero) = refl
later-take (suc (suc zero)) = refl
later-take (suc (suc (suc zero))) = refl
later-take (suc (suc (suc (suc zero)))) = refl
later-take (suc (suc (suc (suc (suc zero))))) = refl
later-take (suc (suc (suc (suc (suc (suc n)))))) = refl

map-second :
    {A B : Type 0} (a : A) (x : Option B) → map {A = A × B} (λ c. c.1) (map (λ d. (a, d)) x) ≡ x
map-second a none = refl
map-second a (some b) = refl

small_alembic-Documented : Documented small_alembic history
small_alembic-Documented = record {
  stamps = λ r c. (refl, refl);
  performs = λ op c. map-second c.0 (effect op c.1);
  upgrades = λ linked n c d e h. (
    ap (λ r. get_or (run_scripts (later r history) c.1) []) e
        ∙ ap (λ ms. get_or (run_scripts ms c.1) []) (later-take n)
        ∙ ap (λ x. get_or x []) h,
    refl,
  );
}

-- The tables of the first two scripts, without a revision.
abbrev old_tables : Database
old_tables = get_or (run_scripts (take 2 history) []) []

abbrev unstamped : small_alembic.Connection
unstamped = (none, old_tables)

old_tables-made : run_scripts (take 2 history) [] ≡ some old_tables
unfolding run_scripts run effect mathlib.Core.Option.bind add_new remove alter same
old_tables-made = refl

upgrade_database-head_example :
    (small_alembic.revision (prepare_and_upgrade small_alembic unstamped) ≡ last_of none history)
    × (run_scripts history []
        ≡ some (small_alembic.tables (prepare_and_upgrade small_alembic unstamped)))
upgrade_database-head_example =
    upgrade_database-head small_alembic small_alembic-Documented 2 unstamped old_tables-made
      (inl refl)

-- The database after the script that counts the steps.
abbrev counted : small_alembic.Connection
counted = (none, get_or (run add_expected_step_count.upgrade old_tables) [])

counted-performed :
    perform_all small_alembic add_expected_step_count.upgrade unstamped ≡ some counted
unfolding run_scripts run effect mathlib.Core.Option.bind add_new remove alter same perform_all
counted-performed = refl

downgrade-upgrade_example :
    (e : small_alembic.Connection) × (perform_all small_alembic add_expected_step_count.downgrade
        counted
      ≡ some e)
    × (small_alembic.tables e ≡ small_alembic.tables unstamped)
downgrade-upgrade_example =
    downgrade-upgrade small_alembic small_alembic-Documented
      (initial_schema ∷ add_download_progress ∷ []) (add_users ∷ add_naming_pattern ∷ [])
      add_expected_step_count unstamped counted refl counted-performed
