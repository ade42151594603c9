-- ===== src/Db/Scripts.antt =====
-- The scripts of src/aptly_gui/migrations/versions, oldest first.
use aptly_gui.Prelude.{true, false, none, some, List, [], ◌∷◌}
use aptly_gui.Text.{Text, codes}
use aptly_gui.Db.Schema.{
  ColumnType, string, text, integer, big_integer, boolean, json, date_time, Column, primary_key,
  unique, foreign_key, Operation, create_table, drop_table, add_column, drop_column, Migration,
}

-- nullable=False
abbrev required : ColumnType → Column
required type = record { type = type; nullable = false; server_default = none }

-- nullable=True
abbrev nullable : ColumnType → Column
nullable type = record { type = type; nullable = true; server_default = none }

-- nullable=False, with a server default
abbrev defaulted : ColumnType → Text → Column
defaulted type default = record { type = type; nullable = false; server_default = some default }

abbrev app_settings_table : Operation
app_settings_table =
    create_table (codes "app_settings")
      ((codes "key", required (string 64)) ∷ (codes "value", required (string 255)) ∷ [])
      (primary_key (codes "key" ∷ []) ∷ [])

abbrev audit_log_table : Operation
audit_log_table =
    create_table (codes "audit_log")
      ((codes "id", required integer)
        ∷ (codes "at", required date_time)
        ∷ (codes "actor", required (string 128))
        ∷ (codes "action", required (string 64))
        ∷ (codes "target", required (string 255))
        ∷ (codes "result", required (string 32))
        ∷ (codes "detail", nullable text)
        ∷ [])
      (primary_key (codes "id" ∷ []) ∷ [])

abbrev mirror_sets_table : Operation
mirror_sets_table =
    create_table (codes "mirror_sets")
      ((codes "id", required integer)
        ∷ (codes "name", required (string 128))
        ∷ (codes "archive_url", required (string 512))
        ∷ (codes "suites", required json)
        ∷ (codes "components", required json)
        ∷ (codes "architectures", required json)
        ∷ (codes "keyrings", required json)
        ∷ (codes "filter", nullable (string 512))
        ∷ (codes "publish_prefix", required (string 128))
        ∷ (codes "signing_key", nullable (string 128))
        ∷ (codes "adopted", required boolean)
        ∷ (codes "revision", required integer)
        ∷ (codes "created_at", required date_time)
        ∷ (codes "updated_at", required date_time)
        ∷ [])
      (primary_key (codes "id" ∷ []) ∷ unique (codes "name" ∷ []) ∷ [])

abbrev jobs_table : Operation
jobs_table =
    create_table (codes "jobs")
      ((codes "id", required integer)
        ∷ (codes "type", required (string 16))
        ∷ (codes "mirror_set_id", nullable integer)
        ∷ (codes "state", required (string 16))
        ∷ (codes "author", required (string 128))
        ∷ (codes "created_at", required date_time)
        ∷ (codes "started_at", nullable date_time)
        ∷ (codes "finished_at", nullable date_time)
        ∷ (codes "error", nullable text)
        ∷ (codes "params", required json)
        ∷ [])
      (foreign_key (codes "mirror_set_id" ∷ []) (codes "mirror_sets.id" ∷ [])
        ∷ primary_key (codes "id" ∷ [])
        ∷ [])

abbrev job_steps_table : Operation
job_steps_table =
    create_table (codes "job_steps")
      ((codes "id", required integer)
        ∷ (codes "job_id", required integer)
        ∷ (codes "position", required integer)
        ∷ (codes "description", required (string 255))
        ∷ (codes "state", required (string 16))
        ∷ (codes "aptly_task_id", nullable integer)
        ∷ (codes "output_tail", nullable text)
        ∷ (codes "started_at", nullable date_time)
        ∷ (codes "finished_at", nullable date_time)
        ∷ [])
      (foreign_key (codes "job_id" ∷ []) (codes "jobs.id" ∷ [])
        ∷ primary_key (codes "id" ∷ [])
        ∷ [])

abbrev snapshot_sets_table : Operation
snapshot_sets_table =
    create_table (codes "snapshot_sets")
      ((codes "id", required integer)
        ∷ (codes "mirror_set_id", required integer)
        ∷ (codes "taken_at", required date_time)
        ∷ (codes "snapshots", required json)
        ∷ (codes "state", required (string 16))
        ∷ (codes "job_id", nullable integer)
        ∷ [])
      (foreign_key (codes "job_id" ∷ []) (codes "jobs.id" ∷ [])
        ∷ foreign_key (codes "mirror_set_id" ∷ []) (codes "mirror_sets.id" ∷ [])
        ∷ primary_key (codes "id" ∷ [])
        ∷ unique (codes "mirror_set_id" ∷ codes "taken_at" ∷ [])
        ∷ [])

abbrev pub initial_schema : Migration
initial_schema = record {
  revision = codes "acaffe887f68";
  down_revision = none;
  upgrade =
      app_settings_table ∷ audit_log_table ∷ mirror_sets_table ∷ jobs_table ∷ job_steps_table
      ∷ snapshot_sets_table ∷ [];
  downgrade =
      drop_table (codes "snapshot_sets")
      ∷ drop_table (codes "job_steps")
      ∷ drop_table (codes "jobs")
      ∷ drop_table (codes "mirror_sets")
      ∷ drop_table (codes "audit_log")
      ∷ drop_table (codes "app_settings")
      ∷ [];
}

abbrev pub add_download_progress : Migration
add_download_progress = record {
  revision = codes "1d98f4a90784";
  down_revision = some (codes "acaffe887f68");
  upgrade =
      add_column (codes "job_steps") (codes "total_bytes") (nullable big_integer)
      ∷ add_column (codes "job_steps") (codes "remaining_bytes") (nullable big_integer)
      ∷ add_column (codes "job_steps") (codes "total_packages") (nullable integer)
      ∷ add_column (codes "job_steps") (codes "remaining_packages") (nullable integer)
      ∷ [];
  downgrade =
      drop_column (codes "job_steps") (codes "remaining_packages")
      ∷ drop_column (codes "job_steps") (codes "total_packages")
      ∷ drop_column (codes "job_steps") (codes "remaining_bytes")
      ∷ drop_column (codes "job_steps") (codes "total_bytes")
      ∷ [];
}

abbrev pub add_expected_step_count : Migration
add_expected_step_count = record {
  revision = codes "2595a4d32cad";
  down_revision = some (codes "1d98f4a90784");
  upgrade = add_column (codes "jobs") (codes "expected_steps") (nullable integer) ∷ [];
  downgrade = drop_column (codes "jobs") (codes "expected_steps") ∷ [];
}

abbrev users_table : Operation
users_table =
    create_table (codes "users")
      ((codes "id", required integer)
        ∷ (codes "username", required (string 128))
        ∷ (codes "password_hash", nullable (string 255))
        ∷ (codes "role", required (string 16))
        ∷ (codes "active", required boolean)
        ∷ (codes "source", required (string 16))
        ∷ (codes "created_at", required date_time)
        ∷ (codes "last_login", nullable date_time)
        ∷ [])
      (primary_key (codes "id" ∷ []) ∷ unique (codes "username" ∷ []) ∷ [])

abbrev pub add_users : Migration
add_users = record {
  revision = codes "f8cd439d47f7";
  down_revision = some (codes "2595a4d32cad");
  upgrade = users_table ∷ [];
  downgrade = drop_table (codes "users") ∷ [];
}

abbrev pub add_naming_pattern : Migration
add_naming_pattern = record {
  revision = codes "a2df56007c76";
  down_revision = some (codes "f8cd439d47f7");
  upgrade =
      add_column (codes "mirror_sets") (codes "publish_endpoint") (nullable (string 128))
      ∷ add_column (codes "mirror_sets") (codes "public_url") (nullable (string 512))
      ∷ add_column (codes "mirror_sets") (codes "mirror_pattern")
          (defaulted (string 64) (codes "{set}-{suite}-{component}"))
      ∷ [];
  downgrade =
      drop_column (codes "mirror_sets") (codes "mirror_pattern")
      ∷ drop_column (codes "mirror_sets") (codes "public_url")
      ∷ drop_column (codes "mirror_sets") (codes "publish_endpoint")
      ∷ [];
}

-- The chain that `down_revision` makes of them.
abbrev pub history : List Migration
history =
    initial_schema ∷ add_download_progress ∷ add_expected_step_count ∷ add_users
    ∷ add_naming_pattern ∷ []
