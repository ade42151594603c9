-- ===== src/Web/SignIn.antt =====
-- Who is signed in and what that writes to the users' rows: login_submit, the database part of
-- oidc_callback, and _reconcile_admin at start, of web/app.py.
pub mod Attempts
use aptly_gui.Prelude.{
  ℕ, ◌+◌, max, ◌≡◌, refl, ap, ◌∙◌, Bool, true, false, ◌&&◌, not, Option, none, some, List, [], ◌∷◌,
  ◌++◌, arith, any, if◌then◌else◌, inl, inr, or-cases, or-left, or-right, if-holds,
}
use aptly_gui.Text.{Text, codes, same, truthy}
use aptly_gui.Text.Laws.{same_refl}
use aptly_gui.Aptly.Client.{Moment}
use aptly_gui.Db.Models.{User, UserRole, admin, Source, local, oidc, AuditEntry}
use aptly_gui.Auth.Identity.{verify_password}
use aptly_gui.Web.Users.{is_admin, role_text, audit_entry}

abbrev pub is_oidc : Source → Bool
is_oidc oidc = true
is_oidc local = false

-- select(User).where(User.username == username)
unfoldable pub by_username : Text → List User → Option User
by_username name [] = none
by_username name (u ∷ users) =
    let later = by_username name users in if same u.username name then some u else later

unfoldable pub update_named : Text → (User → User) → List User → List User
update_named name f [] = []
update_named name f (u ∷ users) =
    let rest = update_named name f users in if same u.username name then f u ∷ users else u ∷ rest

unfoldable pub next_user_id : List User → ℕ
next_user_id [] = 1
next_user_id (u ∷ users) = max (u.id + 1) (next_user_id users)

-- A new row, with the defaults of the table.
abbrev pub new_user : Text → Option Text → UserRole → Source → List User → User
new_user name hash role source users = record {
  id = next_user_id users;
  username = name;
  password_hash = hash;
  role = role;
  active = true;
  source = source;
  last_login = none;
}

abbrev hash_of : Option User → Option Text
hash_of none = none
hash_of (some u) = u.password_hash

abbrev pub with_login : Moment → User → User
with_login now u = record u { last_login = some now }

-- An attempt to sign in: the user who is signed in, the rows, and what is added to the audit log.
pub record Attempt : Type 0 where
  pub user : Option User
  pub users : List User
  pub entries : List AuditEntry

abbrev denied : Text → Text → List User → Attempt
denied name kind users = record {
  user = none;
  users = users;
  entries = audit_entry name (codes "login") kind (codes "denied") ∷ [];
}

login_by : (Text → Text → Bool) → Moment → Option User → Text → Text → List User → Attempt
login_by hasher now none name password users = denied name (codes "local") users
login_by hasher now (some u) name password users =
    if verify_password hasher u.password_hash password && u.active
    then record {
      user = some (with_login now u);
      users = update_named name (with_login now) users;
      entries = audit_entry u.username (codes "login") (codes "local") (codes "ok") ∷ [];
    }
    else denied name (codes "local") users

-- login_submit
unfoldable pub login : (Text → Text → Bool) → Moment → Text → Text → List User → Attempt
unfolding login_by
login hasher now name password users =
    login_by hasher now (by_username name users) name password users

-- `elif user.source == "oidc": user.role = role`
abbrev reapplied : UserRole → User → User
reapplied role u = if is_oidc u.source then record u { role = role } else u

abbrev oidc_login : Text → AuditEntry
oidc_login name = audit_entry name (codes "login") (codes "oidc") (codes "ok")

-- oidc_callback, from the name and the role that the provider's claims give.
provided_by : Moment → Option User → Text → UserRole → List User → Attempt
provided_by now none name role users = record {
  user = some (with_login now (new_user name none role oidc users));
  users = users ++ with_login now (new_user name none role oidc users) ∷ [];
  entries =
      audit_entry name (codes "user.create") (codes "oidc") (role_text role) ∷ oidc_login name ∷ [];
}
provided_by now (some u) name role users =
    if u.active
    then record {
      user = some (with_login now (reapplied role u));
      users = update_named name (λ v. with_login now (reapplied role v)) users;
      entries = oidc_login name ∷ [];
    }
    else denied name (codes "oidc") (update_named name (reapplied role) users)

unfoldable pub provided : Moment → Text → UserRole → List User → Attempt
unfolding provided_by
provided now name role users = provided_by now (by_username name users) name role users

abbrev configured : Text → User → User
configured hash u = record u {
  password_hash = some hash;
  role = admin;
  active = true;
  source = local;
}

-- _reconcile_admin, with the hash of the configured password
admin_by : Option User → Text → Text → List User → List User
admin_by none name hash users = users ++ new_user name (some hash) admin local users ∷ []
admin_by (some u) name hash users = update_named name (configured hash) users

unfoldable pub reconcile_admin : Text → Text → List User → List User
unfolding admin_by
reconcile_admin name hash users =
    if truthy name && truthy hash then admin_by (by_username name users) name hash users else users
