-- ===== src/Web/Session.antt =====
-- The signed session cookie (src/aptly_gui/auth/session.py) and the whole of `guard` of web/app.py: the
-- session of a request, its user, the token and the decision.
pub mod Request
use aptly_gui.Prelude.{
  ℕ, ◌+◌, ◌≡◌, ◌≤◌, ◌==◌, Bool, true, Option, none, some, [], ◌∷◌, List, if◌then◌else◌,
}
use aptly_gui.Text.{Text, codes}
use aptly_gui.Db.Models.{User}
use aptly_gui.Web.Guard.{Decision, dispatch, session_user}
use aptly_gui.Web.Users.{get_user}
use aptly_gui.Web.Provided.{SessionData}
use aptly_gui.Web.Setup.{no_session, Issued, issue}

-- What URLSafeTimedSerializer.loads gives: BadSignature, or a payload, of which the program reads a
-- dictionary only.
pub data Loaded : Type 0 where
  bad_signature not_a_dict : Loaded
  dict : SessionData → Loaded

-- itsdangerous, under the salt of the program: `loads` by the key, the greatest age, the time and the
-- cookie; `dumps` by the key, the time and the payload.
pub record Signer : Type 0 where
  pub loads : Text → ℕ → ℕ → Text → Loaded
  pub dumps : Text → ℕ → SessionData → Text

-- What itsdangerous documents: what was signed is read back under the same key, not before the time of
-- its signature and until it is too old, and what is signed is not empty.
pub record Documented (signer : Signer) : Type 0 where
  pub reads :
      (key : Text) (max_age signed now : ℕ) (session : SessionData)
      → signed ≤ now
      → now ≤ signed + max_age
      → signer.loads key max_age now (signer.dumps key signed session) ≡ dict session
  pub not_empty :
      (key : Text) (signed : ℕ) (session : SessionData)
      → (c : ℕ) × (rest : Text) × (signer.dumps key signed session ≡ c ∷ rest)

pub record Cookie : Type 0 where
  pub name : Text
  pub value : Text
  pub max_age : ℕ
  pub http_only : Bool
  pub same_site : Text
  pub secure : Bool
  pub path : Text

-- The fields of `app.state` that the guard reads.
pub record Keys : Type 0 where
  pub secret_key : Text
  pub session_max_age : ℕ
  pub secure_cookies : Bool

unfoldable pub loaded : Loaded → SessionData
loaded bad_signature = no_session
loaded not_a_dict = no_session
loaded (dict session) = session

module _ (signer : Signer) (keys : Keys) where
  unfoldable pub read_session : ℕ → Option Text → SessionData
  read_session now none = no_session
  read_session now (some []) = no_session
  read_session now (some (c ∷ raw)) =
      loaded (signer.loads keys.secret_key keys.session_max_age now (c ∷ raw))

  unfoldable pub write_session : ℕ → SessionData → Cookie
  write_session now session = record {
    name = codes "aptly_gui_session";
    value = signer.dumps keys.secret_key now session;
    max_age = keys.session_max_age;
    http_only = true;
    same_site = codes "lax";
    secure = keys.secure_cookies;
    path = codes "/";
  }

-- session.get(User, int(uid)), where there is a uid that is not 0
unfoldable pub user_of : Option ℕ → List User → Option User
user_of none users = none
user_of (some uid) users = let found = get_user uid users in if uid == 0 then none else found

-- What the guard makes of a request: the decision, the token of the request and the cookie that it sets.
pub record Guarded : Type 0 where
  pub user : Option User
  pub decision : Decision
  pub csrf : Text
  pub cookie : Option Cookie

cookie_for : Signer → Keys → ℕ → Option SessionData → Option Cookie
cookie_for signer keys now none = none
cookie_for signer keys now (some session) = some (write_session signer keys now session)

-- guard, for the cookie of a request; `new` is a new token, and `has_cookie` says whether the answer
-- sets the cookie itself
unfoldable pub guard :
    Signer → Keys → Bool → List User → ℕ → Text → Text → Option Text → Text → Bool → Guarded
unfolding cookie_for
guard signer keys has_users users now method path raw new has_cookie =
    let session = read_session signer keys now raw in
    let user = session_user (user_of session.uid users) in
    let issued = issue has_cookie new session in
    record {
      user = user;
      decision = dispatch has_users method path user;
      csrf = issued.csrf;
      cookie = cookie_for signer keys now issued.written;
    }
