-- ===== src/Web/Users.antt =====
-- The users' rows as the users' pages write them: users_role and users_active of web/app.py, with what
-- they add to the audit log. `update_user` changes the row that session.get finds.
pub mod Admins
use mathlib.Core.Path.{subst}
use aptly_gui.Prelude.{
  or-cases, or-left, or-right, if-holds, sym, ◌⊎◌, ℕ, ◌≡◌, refl, Bool, true, false, ◌||◌, ◌&&◌, not,
  Option, none, some, List, [], ◌∷◌, arith, any, ◌==◌, if◌then◌else◌, inl, inr,
}
use aptly_gui.Text.{Text, codes, same, mem}
use aptly_gui.Db.Models.{User, UserRole, viewer, operator, admin, AuditEntry}

abbrev pub is_admin_role : UserRole → Bool
is_admin_role admin = true
is_admin_role _ = false

-- One who can administer the instance.
abbrev pub is_admin : User → Bool
is_admin u = is_admin_role u.role && u.active

unfoldable pub get_user : ℕ → List User → Option User
get_user id [] = none
get_user id (u ∷ users) = let later = get_user id users in if u.id == id then some u else later

unfoldable pub update_user : ℕ → (User → User) → List User → List User
update_user id f [] = []
update_user id f (u ∷ users) =
    let rest = update_user id f users in if u.id == id then f u ∷ users else u ∷ rest

-- The query of _would_orphan_admins: active administrators with another id
unfoldable pub other_admins : ℕ → List User → Bool
other_admins id users = any (λ u. is_admin u && not (u.id == id)) users

abbrev grants_admin : Option UserRole → Bool
grants_admin none = false
grants_admin (some role) = is_admin_role role

unfoldable pub would_orphan_admins : User → Option UserRole → Bool → List User → Bool
would_orphan_admins user new_role deactivating users =
    if is_admin_role user.role
    then (if grants_admin new_role
        then false
        else not (other_admins user.id users) && (deactivating || not (grants_admin new_role)))
    else false

unfoldable pub valid_role : Text → UserRole
valid_role value =
    if same value (codes "admin")
    then admin
    else if same value (codes "operator")
    then operator
    else viewer

-- What a POST leads to: where it redirects, the rows of the users, and what is added to the audit log.
pub record Change : Type 0 where
  pub location : Text
  pub users : List User
  pub entries : List AuditEntry

abbrev pub role_text : UserRole → Text
role_text viewer = codes "viewer"
role_text operator = codes "operator"
role_text admin = codes "admin"

abbrev pub audit_entry : Text → Text → Text → Text → AuditEntry
audit_entry actor action target result = record {
  actor = actor;
  action = action;
  target = target;
  result = result;
  detail = none;
}

abbrev unchanged : Text → List User → Change
unchanged location users = record { location = location; users = users; entries = [] }

role_changed : Text → Option User → Text → List User → Change
role_changed actor none role users = unchanged (codes "/users") users
role_changed actor (some user) role users =
    if would_orphan_admins user (some (valid_role role)) false users
    then unchanged (codes "/users?error=last_admin") users
    else record {
      location = codes "/users";
      users = update_user user.id (λ u. record u { role = valid_role role }) users;
      entries =
          audit_entry actor (codes "user.role") user.username (role_text (valid_role role)) ∷ [];
    }

-- users_role, by the signed-in user's name
unfoldable pub users_role : Text → ℕ → Text → List User → Change
unfolding role_changed
users_role actor id role users = role_changed actor (get_user id users) role users

abbrev active_text : Bool → Text
active_text true = codes "active"
active_text false = codes "inactive"

active_changed : Text → Option User → Bool → List User → Change
active_changed actor none wanted users = unchanged (codes "/users") users
active_changed actor (some user) wanted users =
    if not wanted && would_orphan_admins user none true users
    then unchanged (codes "/users?error=last_admin") users
    else record {
      location = codes "/users";
      users = update_user user.id (λ u. record u { active = wanted }) users;
      entries = audit_entry actor (codes "user.active") user.username (active_text wanted) ∷ [];
    }

-- `active in ("1", "true", "on")` is the wish to activate.
unfoldable pub users_active : Text → ℕ → Text → List User → Change
unfolding active_changed
users_active actor id active users =
    active_changed actor (get_user id users)
      (mem active (codes "1" ∷ codes "true" ∷ codes "on" ∷ [])) users
