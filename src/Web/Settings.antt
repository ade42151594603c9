-- ===== src/Web/Settings.antt =====
-- The settings that web/app.py keeps in the database: settings_save, _stored_language and
-- _resolve_secret_key.
use aptly_gui.Prelude.{Option, none, some, List, [], ◌∷◌, ◌++◌, if◌then◌else◌}
use aptly_gui.Text.{Text, codes, same, mem, truthy}
use aptly_gui.Db.Models.{AppSetting, AuditEntry}
use aptly_gui.Web.Users.{audit_entry}

-- The keys of LANGUAGES.
abbrev pub languages : List Text
languages = codes "en" ∷ codes "cs" ∷ []

abbrev pub language_key : Text
language_key = codes "language"

abbrev pub secret_key_key : Text
secret_key_key = codes "secret_key"

-- session.get(AppSetting, key)
unfoldable pub get_setting : Text → List AppSetting → Option AppSetting
get_setting key [] = none
get_setting key (row ∷ rows) =
    let later = get_setting key rows in if same row.key key then some row else later

-- row.value = value
unfoldable pub set_value : Text → Text → List AppSetting → List AppSetting
set_value key value [] = []
set_value key value (row ∷ rows) =
    let rest = set_value key value rows in
    if same row.key key then record row { value = value } ∷ rows else row ∷ rest

abbrev pub new_setting : Text → Text → AppSetting
new_setting key value = record { key = key; value = value }

-- The row of the key, new or changed.
unfoldable pub put_setting : Option AppSetting → Text → Text → List AppSetting → List AppSetting
put_setting none key value rows = rows ++ new_setting key value ∷ []
put_setting (some row) key value rows = set_value key value rows

-- `if language not in LANGUAGES: language = settings.default_language`
unfoldable pub known_language : Text → Text → Text
known_language default language = if mem language languages then language else default

-- What saving the settings leaves: the rows, the entry of the audit log and the language of the app.
pub record Saved : Type 0 where
  pub settings : List AppSetting
  pub entry : AuditEntry
  pub language : Text

-- settings_save
unfoldable pub settings_save : Text → Text → List AppSetting → Saved
settings_save default language rows =
    let chosen = known_language default language in
    record {
      settings = put_setting (get_setting language_key rows) language_key chosen rows;
      entry = audit_entry (codes "anonymous") (codes "settings.language") chosen (codes "ok");
      language = chosen;
    }

language_of : Text → Option AppSetting → Text
language_of default none = default
language_of default (some row) = known_language default row.value

-- _stored_language
unfoldable pub stored_language : Text → List AppSetting → Text
unfolding language_of
stored_language default rows = language_of default (get_setting language_key rows)

-- The signing key, and the rows with it; `new` is secrets.token_urlsafe(48).
unfoldable pub stored_key : Text → Option AppSetting → List AppSetting → Text × List AppSetting
stored_key new none rows = (new, rows ++ new_setting secret_key_key new ∷ [])
stored_key new (some row) rows = (row.value, rows)

-- _resolve_secret_key; `configured` is settings.secret_key
unfoldable pub resolve_secret_key : Text → Text → List AppSetting → Text × List AppSetting
unfolding stored_key
resolve_secret_key configured new rows =
    if truthy configured
    then (configured, rows)
    else stored_key new (get_setting secret_key_key rows) rows
