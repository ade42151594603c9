-- ===== src/Web/Guard.antt =====
-- Which requests reach a handler (create_app.guard, _dispatch, _session_user, _check_csrf and
-- _safe_next of web/app.py).
use aptly_gui.Prelude.{
  ◌≡◌, refl, ◌⊎◌, inl, inr, Bool, true, false, ◌||◌, not, Option, none, some, [], ◌∷◌, ◌++◌, arith,
  if◌then◌else◌,
}
use aptly_gui.Text.{Text, codes, same, mem, starts_with}
use aptly_gui.Db.Models.{User, UserRole, user_can}
use aptly_gui.Auth.Policy.{is_public, required_role}
use aptly_gui.Exec.{Result, ok}
use aptly_gui.Auth.Identity.{csrf_matches}

-- What _dispatch does with a request: hand it on, redirect to a path, or refuse it for want of a role.
pub data Decision : Type 0 where
  hand_on : Decision
  redirect : Text → Decision
  forbidden : UserRole → Decision

-- The user's part of _dispatch. The path in the redirect is quoted by urllib, which stays outside.
dispatch_user : Text → Text → Option User → Decision
dispatch_user method path none = redirect (codes "/login?next=" ++ path)
dispatch_user method path (some user) =
    if user_can user (required_role method path)
    then hand_on
    else forbidden (required_role method path)

abbrev is_static : Text → Bool
is_static path = starts_with path (codes "/static") || same path (codes "/healthz")

abbrev is_setup : Text → Bool
is_setup path = same path (codes "/setup")

unfoldable pub dispatch : Bool → Text → Text → Option User → Decision
unfolding dispatch_user
dispatch has_users method path user =
    if is_static path
    then hand_on
    else if has_users
    then (if is_setup path
        then redirect (codes "/")
        else if is_public path
        then hand_on
        else dispatch_user method path user)
    else if is_setup path
    then hand_on
    else redirect (codes "/setup")

-- _session_user: the row of the session's id, if it is active
unfoldable pub session_user : Option User → Option User
session_user none = none
session_user (some user) = if user.active then some user else none

abbrev writes : Text → Bool
writes method = mem method (codes "POST" ∷ codes "PUT" ∷ codes "PATCH" ∷ codes "DELETE" ∷ [])

-- _check_csrf, by the token of the session and that of the form; false is the HTTP error 400
unfoldable pub csrf_passes : Text → Text → Option Text → Text → Result Bool
csrf_passes method path expected submitted =
    if writes method
    then (if starts_with path (codes "/static")
        then ok true
        else csrf_matches expected (some submitted))
    else ok true

unfoldable pub safe_next : Text → Text
safe_next value =
    if not (starts_with value (codes "/")) || starts_with value (codes "//")
    then codes "/"
    else value

-- The user of the request may make it.
abbrev pub Entitled : Text → Text → Option User → Type 0
Entitled method path user =
    (u : User) × (user ≡ some u) × (user_can u (required_role method path) ≡ true)

user_handed :
    (method path : Text) (user : Option User)
    → dispatch_user method path user ≡ hand_on
    → Entitled method path user
unfolding dispatch_user
user_handed method path none h = cc
user_handed method path (some u) h = (u, refl, ground arith)

-- The tests of `dispatch`, in their order.
handed :
    (s h p q : Bool) (d : Decision)
    → (if s
        then hand_on
        else if h
        then (if p then redirect (codes "/") else if q then hand_on else d)
        else if p
        then hand_on
        else redirect (codes "/setup"))
      ≡ hand_on
    → (s ≡ true) ⊎ ((h ≡ false) × (p ≡ true)) ⊎ (q ≡ true) ⊎ (d ≡ hand_on)
handed true h p q d e = inl refl
handed false true true q d e = cc
handed false true false true d e = inr (inr (inl refl))
handed false true false false d e = inr (inr (inr e))
handed false false true q d e = inr (inl (refl, refl))
handed false false false q d e = cc

-- A request reaches its handler only if its path is one of those open to all, or no user exists and
-- it is the set-up, or its session has a user who is active and whose role suffices for its method
-- and path.
pub dispatch-hand_on :
    (has_users : Bool) (method path : Text) (user : Option User)
    → dispatch has_users method path user ≡ hand_on
    → ((starts_with path (codes "/static") || same path (codes "/healthz")) ≡ true)
      ⊎ ((has_users ≡ false) × (same path (codes "/setup") ≡ true))
      ⊎ (is_public path ≡ true)
      ⊎ Entitled method path user
unfolding dispatch
dispatch-hand_on has_users method path user h =
    elim (handed (is_static path) has_users (is_setup path) (is_public path)
      (dispatch_user method path user) h) [
        | inl e ↦ inl e
        | inr (inl e) ↦ inr (inl e)
        | inr (inr (inl e)) ↦ inr (inr (inl e))
        | inr (inr (inr e)) ↦ inr (inr (inr (user_handed method path user e)))
      ]

-- A redirect after a sign-in stays a path of this site as far as its first two characters say: it
-- starts with one slash and not with two.
pub safe_next-local :
    (value : Text)
    → (starts_with (safe_next value) (codes "/") ≡ true)
      × (starts_with (safe_next value) (codes "//") ≡ false)
unfolding safe_next starts_with
safe_next-local value = ground arith
