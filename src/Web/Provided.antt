-- ===== src/Web/Provided.antt =====
-- The sign-in through a provider as web/app.py runs it: oidc_start, oidc_callback and _redirect_uri,
-- with the session that goes from one to the other in a signed cookie.
pub mod Checked
use aptly_gui.Prelude.{
  ℕ, Bool, true, false, ◌||◌, not, Option, none, some, List, [], ◌∷◌, ◌++◌, ◌==◌, if◌then◌else◌,
}
use aptly_gui.Text.{Text, codes, truthy, rstrip_by}
use aptly_gui.Json.{Json}
use aptly_gui.Exec.{
  Result, ok, Exec, Exc, oidc_error, exc_text, pure, raise, lift, catch, ◌>>=◌, ◌>>◌,
}
use aptly_gui.Aptly.Client.{Moment}
use aptly_gui.Db.Models.{User, UserRole}
use aptly_gui.Jobs.Plan.{is_set}
use aptly_gui.Auth.Identity.{OidcConfig, csrf_matches, username_from, role_from}
use aptly_gui.Auth.Oidc.{Provider, Flow, authorization_url, exchange, userinfo}
use aptly_gui.Web.Guard.{safe_next}
use aptly_gui.Web.SignIn.{Attempt, provided}

-- The keys that the program puts into a session.
pub record SessionData : Type 0 where
  pub uid : Option ℕ
  pub csrf : Option Text
  pub oidc_state : Option Text
  pub oidc_verifier : Option Text
  pub oidc_next : Option Text

abbrev pub or_text : Text → Option Text → Text
or_text default none = default
or_text default (some t) = t

abbrev pub is_slash : ℕ → Bool
is_slash c = c == 47

-- _redirect_uri; `own` is what the request's own URL gives
unfoldable pub redirect_uri : OidcConfig → Text → Text
redirect_uri config own =
    let base = or_text [] config.base_url in
    if truthy base then rstrip_by is_slash base ++ codes "/auth/oidc/callback" else own

-- `request.state.csrf or new_csrf_token()`
abbrev or_new : Option Text → Text → Option Text
or_new none new = some new
or_new (some t) new = if truthy t then some t else some new

pub data Start : Type 0 where
  -- a redirect to a path or a URL, with the session that its cookie then holds, where it sets one
  redirect : Text → Option SessionData → Start
  -- the login page, with an error
  login_error : Text → Start

-- How a callback ends: at the login page, on it with an error, or with an attempt to sign in and the
-- place to go to after it.
pub data Callback : Type 0 where
  to_login : Callback
  refused : Text → Callback
  attempted : Attempt → Text → Callback

-- `state and csrf_matches(...)`
unfoldable pub state_matches : Option Text → Option Text → Result Bool
state_matches expected state = if is_set state then csrf_matches expected state else ok false

abbrev unverified : Text
unverified = codes "The sign-in attempt could not be verified. Try again."

module _ (p : Provider) where
  -- except OidcError as exc
  only_oidc : {A : Type 0} → (Text → A) → Exc → Exec (Flow p.State) A
  only_oidc f (oidc_error message) = pure (f message)
  only_oidc f e = raise e

  start_with :
      OidcConfig → Option Text → Text → Text → Text → Text → Text → Exec (Flow p.State) Start
  unfolding only_oidc
  start_with config csrf token state verifier uri next =
      catch
        (do
          url ← authorization_url p config state verifier uri
          pure (
              redirect url (
                some (record {
                  uid = none;
                  csrf = or_new csrf token;
                  oidc_state = some state;
                  oidc_verifier = some verifier;
                  oidc_next = some (safe_next next);
                }))))
        (only_oidc login_error)

  -- oidc_start: `csrf` is the token of the request, and `token`, `state` and `verifier` are new ones
  unfoldable pub oidc_start :
      Option OidcConfig → Option Text → Text → Text → Text → Text → Text → Exec (Flow p.State) Start
  unfolding start_with
  oidc_start none csrf token state verifier own next = pure (redirect (codes "/login") none)
  oidc_start (some config) csrf token state verifier own next =
      start_with config csrf token state verifier (redirect_uri config own) next

  -- The name and the role that the provider gives for a code.
  unfoldable pub identified :
      OidcConfig → Text → Text → Text → Exec (Flow p.State) (Text × UserRole)
  identified config code verifier uri = do
    token ← exchange p config code verifier uri
    claims ← userinfo p config token
    name ← lift (username_from config claims)
    role ← lift (role_from p.show config claims)
    pure (name, role)

  unfoldable pub signed_in :
      OidcConfig → Moment → SessionData → Text → Text → List User → Exec (Flow p.State) Callback
  signed_in config now stored code own users = do
    (name, role) ←
        identified config code (or_text [] stored.oidc_verifier) (redirect_uri config own)
    pure (
        attempted (provided now name role users) (safe_next (or_text (codes "/") stored.oidc_next)))

  unfoldable pub callback_for :
      OidcConfig
      → Moment
      → SessionData
      → Option Text
      → Text
      → Text
      → List User
      → Exec (Flow p.State) Callback
  unfolding only_oidc
  callback_for config now stored state code own users = do
    verified ← lift (state_matches stored.oidc_state state)
    if verified
        then catch (signed_in config now stored code own users) (only_oidc refused)
        else pure (refused unverified)

  callback_by :
      Option OidcConfig
      → Moment
      → SessionData
      → Option Text
      → Option Text
      → Text
      → List User
      → Exec (Flow p.State) Callback
  callback_by none now stored code state own users = pure to_login
  callback_by (some config) now stored none state own users = pure to_login
  callback_by (some config) now stored (some code) state own users =
      if truthy code then callback_for config now stored state code own users else pure to_login

  -- oidc_callback, up to the rows that the attempt gives
  unfoldable pub oidc_callback :
      Option OidcConfig
      → Moment
      → SessionData
      → Option Text
      → Option Text
      → Text
      → List User
      → Exec (Flow p.State) Callback
  unfolding callback_by
  oidc_callback config now stored code state own users =
      callback_by config now stored code state own users
