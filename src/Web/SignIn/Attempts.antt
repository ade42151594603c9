-- ===== src/Web/SignIn/Attempts.antt =====
-- What an attempt to sign in promises, and what the start of the program grants.
use aptly_gui.Prelude.{
  ◌≡◌, refl, ap, ◌∙◌, Bool, true, false, ◌&&◌, not, Option, none, some, List, [], ◌∷◌, ◌++◌, arith,
  any, map, if◌then◌else◌, inl, inr, or-cases, or-left, or-right, if-holds,
}
use aptly_gui.Text.{Text, codes, same, truthy}
use aptly_gui.Text.Laws.{same_refl}
use aptly_gui.Aptly.Client.{Moment}
use aptly_gui.Db.Models.{User, UserRole, admin, local, AuditEntry}
use aptly_gui.Auth.Identity.{verify_password}
use aptly_gui.Web.Users.{is_admin}
use aptly_gui.Web.SignIn.{
  is_oidc, by_username, update_named, new_user, Attempt, login_by, login, reapplied, provided_by,
  provided, configured, admin_by, reconcile_admin,
}

two_tests :
    (a b : Bool) (good bad : Attempt) (u : User)
    → bad.user ≡ none
    → (let r : Attempt = if a && b then good else bad in r.user ≡ some u)
    → (a ≡ true) × (b ≡ true) × (good.user ≡ some u)
two_tests true true good bad u k h = (refl, refl, h)
two_tests true false good bad u k h = cc
two_tests false b good bad u k h = cc

-- The rows without the times of the last logins.
abbrev pub without_logins : List User → List User
without_logins users = map (λ (u : User). record u { last_login = none }) users

-- An administrator whose account is local.
abbrev pub is_local_admin : User → Bool
is_local_admin u = is_admin u && not (is_oidc u.source)

any-append : (p : User → Bool) (xs ys : List User) → any p xs ≡ true → any p (xs ++ ys) ≡ true
any-append p [] ys h = cc
any-append p (x ∷ xs) ys h = elim (or-cases (p x) (any p xs) h) [
  | inl a ↦ or-left _ _ a
  | inr a ↦ or-right _ _ (any-append p xs ys a)
]

-- An update that keeps a property of every row keeps that some row has it.
update_named-keeps :
    (p : User → Bool) (name : Text) (f : User → User) (users : List User)
    → ((u : User) → p u ≡ true → p (f u) ≡ true)
    → any p users ≡ true
    → any p (update_named name f users) ≡ true
unfolding update_named
update_named-keeps p name f [] k h = h
update_named-keeps p name f (u ∷ users) k h = elim (or-cases (p u) (any p users) h) [
  | inl a ↦
      if-holds (λ us. any p us ≡ true) (same u.username name) (λ q. or-left _ _ (k u a))
        λ q. or-left _ _ a
  | inr a ↦
      if-holds (λ us. any p us ≡ true) (same u.username name) (λ q. or-right _ _ a)
        λ q. or-right _ _ (update_named-keeps p name f users k a)
]

reapplied-local :
    (role : UserRole) (u : User)
    → is_local_admin u ≡ true
    → is_local_admin (reapplied role u) ≡ true
reapplied-local role u h = ground arith

provided_by-keeps :
    (now : Moment) (found : Option User) (name : Text) (role : UserRole) (users : List User)
    → any is_local_admin users ≡ true
    → any is_local_admin (provided_by now found name role users).users ≡ true
unfolding provided_by
provided_by-keeps now none name role users h = any-append is_local_admin users _ h
provided_by-keeps now (some u) name role users h =
    if-holds (λ (r : Attempt). any is_local_admin r.users ≡ true) u.active
      (λ q. update_named-keeps is_local_admin name _ users (reapplied-local role) h)
      λ q. update_named-keeps is_local_admin name _ users (reapplied-local role) h

-- Where some local account is an active administrator, one still is after a sign-in through the
-- provider, whatever name and role its claims give.
pub provided-keeps_local :
    (now : Moment) (name : Text) (role : UserRole) (users : List User)
    → any is_local_admin users ≡ true
    → any is_local_admin (provided now name role users).users ≡ true
unfolding provided
provided-keeps_local now name role users h =
    provided_by-keeps now (by_username name users) name role users h

named-append :
    (name : Text) (users : List User) (u : User)
    → by_username name users ≡ none
    → same u.username name ≡ true
    → by_username name (users ++ u ∷ []) ≡ some u
unfolding by_username
named-append name [] u h k = rw k refl
named-append name (v ∷ users) u h k = ground (arith, named-append name users u)

named-update :
    (name : Text) (f : User → User) (users : List User) (u : User)
    → ((v : User) → (f v).username ≡ v.username)
    → by_username name users ≡ some u
    → by_username name (update_named name f users) ≡ some (f u)
unfolding by_username update_named
named-update name f [] u k h = cc
named-update name f (v ∷ users) u k h =
    if-holds (λ us. by_username name us ≡ some (f u)) (same v.username name)
      (λ e.
        let same_user : v ≡ u = ground arith in
        let still : same (f v).username name ≡ true = ap (λ t. same t name) (k v) ∙ e in
        rw still (ap (λ w. some (f w)) same_user))
      λ e.
        let later : by_username name users ≡ some u = ground arith in
        rw e (named-update name f users u k later)

admin_by-grants :
    (found : Option User) (name hash : Text) (users : List User)
    → by_username name users ≡ found
    → (u : User) × (by_username name (admin_by found name hash users) ≡ some u)
      × (is_local_admin u ≡ true)
      × (u.password_hash ≡ some hash)
unfolding admin_by
admin_by-grants none name hash users e = (
  new_user name (some hash) admin local users,
  named-append name users _ e (same_refl name),
  refl,
  refl,
)
admin_by-grants (some v) name hash users e =
    (configured hash v, named-update name (configured hash) users v (λ w. refl) e, refl, refl)

-- Where an administrator is configured, the start of the program leaves a user of that name who is an
-- active local administrator with the configured password, whatever the row said before.
pub reconcile_admin-grants :
    (name hash : Text) (users : List User)
    → truthy name ≡ true
    → truthy hash ≡ true
    → (u : User) × (by_username name (reconcile_admin name hash users) ≡ some u)
      × (is_local_admin u ≡ true)
      × (u.password_hash ≡ some hash)
unfolding reconcile_admin
reconcile_admin-grants name hash users h k =
    rw h (rw k (admin_by-grants (by_username name users) name hash users refl))

-- The results of the entries that record a sign-in.
abbrev pub login_results : List AuditEntry → List Text
login_results [] = []
login_results (e ∷ es) =
    let rest = login_results es in if same e.action (codes "login") then e.result ∷ rest else rest

-- What the audit log should say of an attempt.
abbrev pub result_of : Option User → Text
result_of none = codes "denied"
result_of (some u) = codes "ok"

abbrev Audited : Attempt → Type 0
Audited r = login_results r.entries ≡ result_of r.user ∷ []

login_by-Audited :
    (hasher : Text → Text → Bool) (now : Moment) (found : Option User) (name password : Text)
    (users : List User)
    → Audited (login_by hasher now found name password users)
unfolding login_by same
login_by-Audited hasher now none name password users = refl
login_by-Audited hasher now (some u) name password users =
    if-holds Audited (verify_password hasher u.password_hash password && u.active) (λ e. refl)
      λ e. refl

provided_by-Audited :
    (now : Moment) (found : Option User) (name : Text) (role : UserRole) (users : List User)
    → Audited (provided_by now found name role users)
unfolding provided_by same
provided_by-Audited now none name role users = refl
provided_by-Audited now (some u) name role users = if-holds Audited u.active (λ e. refl) λ e. refl

-- Every attempt to sign in by a password, and every callback of the provider that has got as far as a
-- name and a role for its user, adds exactly one entry of a sign-in to the audit log, and that entry
-- says whether a user was signed in.
pub sign_in_audited :
    (hasher : Text → Text → Bool) (now : Moment) (name password : Text) (role : UserRole)
    (users : List User)
    → (login_results (login hasher now name password users).entries
        ≡ result_of (login hasher now name password users).user ∷ [])
      × (login_results (provided now name role users).entries
          ≡ result_of (provided now name role users).user ∷ [])
unfolding login provided
sign_in_audited hasher now name password role users = (
  login_by-Audited hasher now (by_username name users) name password users,
  provided_by-Audited now (by_username name users) name role users,
)
