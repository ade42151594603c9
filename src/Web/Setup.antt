-- ===== src/Web/Setup.antt =====
-- The first account and the session of a visitor in web/app.py: setup_submit, _password_problem,
-- _any_user_exists, the token that `guard` issues, _sign_in and logout.
use aptly_gui.Prelude.{
  Bool, true, false, ◌&&◌, not, Option, none, some, List, [], ◌∷◌, ◌++◌, if◌then◌else◌,
}
use aptly_gui.Text.{Text, codes, same, strip, truthy}
use aptly_gui.Db.Models.{User, admin, local}
use aptly_gui.Jobs.Plan.{is_set}
use aptly_gui.Auth.Identity.{too_short}
use aptly_gui.Web.Users.{audit_entry}
use aptly_gui.Web.SignIn.{Attempt, new_user}
use aptly_gui.Web.Provided.{SessionData}

pub data Problem : Type 0 where
  not_the_same weak no_username : Problem

-- _password_problem
unfoldable pub password_problem : Text → Text → Option Problem
password_problem password again =
    if not (same password again)
    then some not_the_same
    else if too_short password
    then some weak
    else none

-- `problem or "Pick a username."`, where the form is turned down
unfoldable pub setup_problem : Text → Option Problem → Option Problem
setup_problem username (some problem) = some problem
setup_problem username none = if truthy (strip username) then none else some no_username

pub data Setup : Type 0 where
  refused : Problem → Setup
  created : Attempt → Setup

setup_unless : (Text → Text) → Text → Text → List User → Option Problem → Setup
setup_unless hash username password users (some problem) = refused problem
setup_unless hash username password users none =
    let user = new_user (strip username) (some (hash password)) admin local users in
    created (record {
      user = some user;
      users = users ++ user ∷ [];
      entries = audit_entry (strip username) (codes "user.create") username (codes "ok") ∷ [];
    })

-- setup_submit, given the hasher
unfoldable pub setup_submit : (Text → Text) → Text → Text → Text → List User → Setup
unfolding setup_unless
setup_submit hash username password again users =
    setup_unless hash username password users
      (setup_problem username (password_problem password again))

-- _any_user_exists
unfoldable pub any_user_exists : List User → Bool
any_user_exists [] = false
any_user_exists (u ∷ users) = true

-- The token of a request, and the session that `guard` writes when it has made a new one; the answer
-- may have set the cookie already.
pub record Issued : Type 0 where
  pub csrf : Text
  pub written : Option SessionData

issue_by : Bool → Text → Text → SessionData → Issued
issue_by false token new session = record { csrf = token; written = none }
issue_by true token new session = record {
  csrf = new;
  written = some (record session { csrf = some new });
}

abbrev token_of : Option Text → Text
token_of none = []
token_of (some token) = token

-- guard, apart from _dispatch; `has_cookie` says whether the answer sets a cookie
unfoldable pub issue : Bool → Text → SessionData → Issued
unfolding issue_by
issue has_cookie new session =
    let fresh = not (is_set session.csrf) in
    let issued = issue_by fresh (token_of session.csrf) new session in
    if fresh && has_cookie then record issued { written = none } else issued

-- _sign_in, given a new token
unfoldable pub sign_in : User → Text → SessionData
sign_in user token = record {
  uid = some user.id;
  csrf = some token;
  oidc_state = none;
  oidc_verifier = none;
  oidc_next = none;
}

-- logout: the cookie is deleted, so the next request has an empty session
abbrev pub no_session : SessionData
no_session = record {
  uid = none;
  csrf = none;
  oidc_state = none;
  oidc_verifier = none;
  oidc_next = none;
}
