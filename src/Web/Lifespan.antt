-- ===== src/Web/Lifespan.antt =====
-- The start of the application (create_app.lifespan of web/app.py), from the tables of an upgraded
-- database: the signing key, the configured administrator, whether there are users, the language, and
-- the runner.
pub mod Restart
use aptly_gui.Prelude.{ℕ, Bool, List}
use aptly_gui.Text.{Text}
use aptly_gui.Aptly.Client.{Outside}
use aptly_gui.Db.Models.{AppSetting, User, Tables}
use aptly_gui.Services.Space.{Margin}
use aptly_gui.Jobs.State.{World}
use aptly_gui.Jobs.Queue.{start}
use aptly_gui.Web.Session.{Keys}
use aptly_gui.Web.Settings.{resolve_secret_key, stored_language}
use aptly_gui.Web.SignIn.{reconcile_admin}
use aptly_gui.Web.Setup.{any_user_exists}

-- The fields of Settings that the start reads; the administrator's password is given by its hash, and
-- is empty where there is none.
pub record Config : Type 0 where
  pub default_language : Text
  pub secret_key : Text
  pub session_max_age : ℕ
  pub secure_cookies : Bool
  pub admin_username : Text
  pub admin_hash : Text

-- `app.state`, with the database and the runner
pub record App (W : Type 0) : Type 0 where
  pub keys : Keys
  pub has_users : Bool
  pub language : Text
  pub world : World W

abbrev prepared : List AppSetting → List User → Tables → Tables
prepared settings users t = record t { settings = settings; users = users }

-- `key` is the new token that a start without a stored key takes.
unfoldable pub lifespan :
    (o : Outside) → Margin → ℕ → ℕ → Config → Text → o.State → Tables → App o.State
lifespan o margin timeout fuel config key w t =
    let (secret, settings) = resolve_secret_key config.secret_key key t.settings in
    let users = reconcile_admin config.admin_username config.admin_hash t.users in
    record {
      keys = record {
        secret_key = secret;
        session_max_age = config.session_max_age;
        secure_cookies = config.secure_cookies;
      };
      has_users = any_user_exists users;
      language = stored_language config.default_language settings;
      world = start o margin timeout fuel w (prepared settings users t);
    }
