-- ===== src/Config.antt =====
-- src/aptly_gui/config.py and OidcConfig.from_env of src/aptly_gui/auth/oidc.py: what the program reads
-- from its environment.
use aptly_gui.Prelude.{
  ℕ, zero, suc, ◌+◌, ◌-◌, ◌*◌, ◌==◌, ◌&&◌, leb, Bool, true, false, Option, none, some, [], ◌∷◌, map,
  if◌then◌else◌,
}
use aptly_gui.Text.{Text, codes, mem, truthy, strip, rstrip_by}
use aptly_gui.Dict.{Dict, lookup}
use aptly_gui.Exec.{Result, ok, raised, value_error}
use aptly_gui.Exec.Fallible.{◌>>=◌}
use aptly_gui.Auth.Identity.{OidcConfig}
use aptly_gui.Web.Provided.{is_slash}

-- The integers of Python: n, and -(n + 1).
pub data ℤ : Type 0 where
  pos negsuc : ℕ → ℤ

abbrev pub minus : ℕ → ℤ
minus zero = pos 0
minus (suc n) = negsuc n

-- Digits, with single underscores between them; `after_digit` says whether one stands before.
digits : Bool → ℕ → Text → Option ℕ
digits after_digit n [] = if after_digit then some n else none
digits after_digit n (c ∷ s) =
    let more = digits true (n * 10 + (c - 48)) s in
    let next = digits false n s in
    if leb 48 c && leb c 57 then more else if c == 95 && after_digit then next else none

signed : Text → Option ℤ
unfolding digits
signed [] = none
signed (c ∷ s) =
    if c == 45
    then map_number minus (digits false 0 s)
    else map_number pos (if c == 43 then digits false 0 s else digits false 0 (c ∷ s))
  where
    map_number : (ℕ → ℤ) → Option ℕ → Option ℤ
    map_number f none = none
    map_number f (some n) = some (f n)

-- int(value), of a text; the digits are the ASCII ones
unfoldable pub int : Text → Result ℤ
unfolding signed
int value = elim (signed (strip value)) [
  | none ↦ raised (value_error (codes "invalid literal for int() with base 10"))
  | some n ↦ ok n
]

-- os.environ.get(key, default)
unfoldable pub get_or : Text → Text → Dict Text → Text
get_or key default env = elim (lookup key env) [ none ↦ default | some value ↦ value ]

-- os.environ.get(key) or None
unfoldable pub get_or_none : Text → Dict Text → Option Text
get_or_none key env = elim (lookup key env) [
  | none ↦ none
  | some value ↦ if truthy value then some value else none
]

-- int(os.environ.get(key, default))
unfoldable pub get_int : Text → ℕ → Dict Text → Result ℤ
get_int key default env = elim (lookup key env) [ none ↦ ok (pos default) | some value ↦ int value ]

-- Floating-point numbers: whole ones, and float(value) of a text.
pub record Floats : Type 1 where
  pub Float : Type 0
  pub whole : ℕ → Float
  pub float : Text → Result Float

pub record Settings (floats : Floats) : Type 0 where
  pub aptly_url : Text
  pub aptly_socket : Option Text
  pub database_url : Text
  pub refresh_seconds : ℤ
  pub request_timeout : floats.Float
  pub create_timeout : floats.Float
  pub default_language : Text
  pub secret_key : Text
  pub session_max_age : ℤ
  pub secure_cookies : Bool
  pub admin_username : Text
  pub admin_password : Text
  pub safety_margin_gb : ℤ
  pub safety_margin_percent : ℤ

abbrev lower : ℕ → ℕ
lower c = if leb 65 c && leb c 90 then c + 32 else c

-- `value.lower() in ("1", "true", "yes")`; no letter outside ASCII has one of these for its lower case
unfoldable pub is_on : Text → Bool
is_on value = mem (map lower value) (codes "1" ∷ codes "true" ∷ codes "yes" ∷ [])

abbrev url_default : Option Text → Text
url_default none = codes "http://127.0.0.1:8079"
url_default (some socket) = codes "http://aptly"

get_float : (floats : Floats) → Text → ℕ → Dict Text → Result floats.Float
get_float floats key default env = elim (lookup key env) [
  | none ↦ ok (floats.whole default)
  | some value ↦ floats.float value
]

-- Settings.from_env
unfoldable pub from_env : (floats : Floats) → Dict Text → Result (Settings floats)
unfolding get_float
from_env floats env =
    let socket = get_or_none (codes "APTLY_API_SOCKET") env in
    do
      refresh_seconds ← get_int (codes "APTLY_GUI_REFRESH_SECONDS") 15 env
      request_timeout ← get_float floats (codes "APTLY_GUI_TIMEOUT") 30 env
      create_timeout ← get_float floats (codes "APTLY_GUI_CREATE_TIMEOUT") 300 env
      session_max_age ← get_int (codes "APTLY_GUI_SESSION_MAX_AGE") (14 * 24 * 3600) env
      safety_margin_gb ← get_int (codes "APTLY_GUI_SAFETY_MARGIN_GB") 30 env
      safety_margin_percent ← get_int (codes "APTLY_GUI_SAFETY_MARGIN_PERCENT") 15 env
      ok (record {
        aptly_url = get_or (codes "APTLY_API_URL") (url_default socket) env;
        aptly_socket = socket;
        database_url =
            get_or (codes "APTLY_GUI_DATABASE_URL") (codes "sqlite+aiosqlite:///./aptly-gui.db")
              env;
        refresh_seconds = refresh_seconds;
        request_timeout = request_timeout;
        create_timeout = create_timeout;
        default_language = get_or (codes "APTLY_GUI_LANGUAGE") (codes "en") env;
        secret_key = get_or (codes "APTLY_GUI_SECRET_KEY") [] env;
        session_max_age = session_max_age;
        secure_cookies = is_on (get_or (codes "APTLY_GUI_SECURE_COOKIES") [] env);
        admin_username = get_or (codes "APTLY_GUI_ADMIN_USERNAME") [] env;
        admin_password = get_or (codes "APTLY_GUI_ADMIN_PASSWORD") [] env;
        safety_margin_gb = safety_margin_gb;
        safety_margin_percent = safety_margin_percent;
      })

-- OidcConfig.from_env
unfoldable pub oidc_from_env : Dict Text → OidcConfig
oidc_from_env env = record {
  issuer = rstrip_by is_slash (get_or (codes "APTLY_GUI_OIDC_ISSUER") [] env);
  client_id = get_or (codes "APTLY_GUI_OIDC_CLIENT_ID") [] env;
  client_secret = get_or (codes "APTLY_GUI_OIDC_CLIENT_SECRET") [] env;
  scopes = get_or (codes "APTLY_GUI_OIDC_SCOPES") (codes "openid profile email") env;
  base_url = get_or_none (codes "APTLY_GUI_BASE_URL") env;
  username_claim = get_or (codes "APTLY_GUI_OIDC_USERNAME_CLAIM") (codes "preferred_username") env;
  groups_claim = get_or (codes "APTLY_GUI_OIDC_GROUPS_CLAIM") (codes "groups") env;
  admin_group = get_or_none (codes "APTLY_GUI_OIDC_ADMIN_GROUP") env;
  operator_group = get_or_none (codes "APTLY_GUI_OIDC_OPERATOR_GROUP") env;
  default_role = get_or (codes "APTLY_GUI_OIDC_DEFAULT_ROLE") (codes "viewer") env;
}

-- OidcConfig.enabled
unfoldable pub enabled : OidcConfig → Bool
enabled config = truthy config.issuer && truthy config.client_id

-- app.state.oidc_config, where app.state.oidc has a client
unfoldable pub oidc_client : Dict Text → Option OidcConfig
oidc_client env = let config = oidc_from_env env in if enabled config then some config else none
