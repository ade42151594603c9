-- ===== src/Web/Users/Admins.antt =====
-- The pages on users leave an administrator.
use mathlib.Core.Path.{subst}
use aptly_gui.Prelude.{
  or-cases, or-left, or-right, if-holds, sym, ◌⊎◌, ℕ, ◌≡◌, refl, Bool, true, false, ◌||◌, ◌&&◌, not,
  Option, none, some, List, [], ◌∷◌, arith, any, ◌==◌, if◌then◌else◌, inl, inr,
}
use aptly_gui.Text.{Text}
use aptly_gui.Db.Models.{User, UserRole}
use aptly_gui.Web.Users.{
  is_admin_role, is_admin, get_user, update_user, other_admins, grants_admin, would_orphan_admins,
  valid_role, Change, role_changed, users_role, active_changed, users_active,
}

get_user-id : (id : ℕ) (users : List User) (u : User) → get_user id users ≡ some u → u.id ≡ id
unfolding get_user
get_user-id id [] u h = cc
get_user-id id (v ∷ users) u h = ground (arith, get_user-id id users u)

module _ (id : ℕ) (v : User) (users : List User) (u : User)
    (found : get_user id (v ∷ users) ≡ some u) where
  found_first : (v.id == id) ≡ true → v ≡ u
  unfolding get_user
  found_first h = ground arith

  found_later : (v.id == id) ≡ false → get_user id users ≡ some u
  unfolding get_user
  found_later h = ground arith

-- An update that leaves the row an administrator if it was one leaves one.
update-keeps :
    (id : ℕ) (f : User → User) (users : List User) (u : User)
    → get_user id users ≡ some u
    → (is_admin u ≡ true → is_admin (f u) ≡ true)
    → any is_admin users ≡ true
    → any is_admin (update_user id f users) ≡ true
unfolding update_user
update-keeps id f [] u e k h = cc
update-keeps id f (v ∷ users) u e k h =
    if-holds (λ us. any is_admin us ≡ true) (v.id == id)
      (λ q.
        let same_user : v ≡ u = found_first id v users u e q in
        elim (or-cases (is_admin v) (any is_admin users) h) [
          | inl a ↦ or-left _ _ (
              subst (λ w. is_admin (f w) ≡ true) (sym same_user)
                (k (subst (λ w. is_admin w ≡ true) same_user a)))
          | inr a ↦ or-right _ _ a
        ])
      λ q. elim (or-cases (is_admin v) (any is_admin users) h) [
        | inl a ↦ or-left _ _ a
        | inr a ↦ or-right _ _ (update-keeps id f users u (found_later id v users u e q) k a)
      ]

any_others : (id : ℕ) (users : List User) → other_admins id users ≡ true → any is_admin users ≡ true
unfolding other_admins
any_others id [] h = cc
any_others id (v ∷ users) h = ground (arith, any_others id users)

others-keep :
    (id : ℕ) (f : User → User) (users : List User)
    → other_admins id users ≡ true
    → any is_admin (update_user id f users) ≡ true
unfolding other_admins update_user
others-keep id f [] h = cc
others-keep id f (v ∷ users) h = ground (arith, others-keep id f users, any_others id users)

-- The tests of _would_orphan_admins, where it lets a change through.
spared :
    (r g o d : Bool)
    → (if r then (if g then false else not o && (d || not g)) else false) ≡ false
    → (r ≡ false) ⊎ (g ≡ true) ⊎ (o ≡ true)
spared false g o d h = inl refl
spared true true o d h = inr (inl refl)
spared true false true d h = inr (inr refl)
spared true false false true h = cc
spared true false false false h = cc

-- A change of one row that _would_orphan_admins lets through leaves an administrator.
change-keeps :
    (new_role : Option UserRole) (d : Bool) (f : User → User) (users : List User) (u : User)
    (id : ℕ)
    → get_user id users ≡ some u
    → would_orphan_admins u new_role d users ≡ false
    → (grants_admin new_role ≡ true → is_admin u ≡ true → is_admin (f u) ≡ true)
    → any is_admin users ≡ true
    → any is_admin (update_user u.id f users) ≡ true
unfolding would_orphan_admins
change-keeps new_role d f users u id e h k a =
    let found : get_user u.id users ≡ some u =
      subst (λ i. get_user i users ≡ some u) (sym (get_user-id id users u e)) e in
    elim (spared (is_admin_role u.role) (grants_admin new_role) (other_admins u.id users) d h) [
      | inl r ↦ update-keeps u.id f users u found (λ q. ground arith) a
      | inr (inl g) ↦ update-keeps u.id f users u found (k g) a
      | inr (inr o) ↦ others-keep u.id f users o
    ]

role-keeps :
    (actor : Text) (id : ℕ) (found : Option User) (role : Text) (users : List User)
    → get_user id users ≡ found
    → any is_admin users ≡ true
    → any is_admin (role_changed actor found role users).users ≡ true
unfolding role_changed
role-keeps actor id none role users e a = a
role-keeps actor id (some u) role users e a =
    if-holds (λ (c : Change). any is_admin c.users ≡ true)
      (would_orphan_admins u (some (valid_role role)) false users) (λ q. a)
      λ q. change-keeps (some (valid_role role)) false _ users u id e q (λ g h. ground arith) a

active-keeps :
    (actor : Text) (id : ℕ) (found : Option User) (wanted : Bool) (users : List User)
    → get_user id users ≡ found
    → any is_admin users ≡ true
    → any is_admin (active_changed actor found wanted users).users ≡ true
unfolding active_changed
active-keeps actor id none wanted users e a = a
active-keeps actor id (some u) true users e a =
    let found : get_user u.id users ≡ some u =
      subst (λ i. get_user i users ≡ some u) (sym (get_user-id id users u e)) e in
    update-keeps u.id _ users u found (λ h. ground arith) a
active-keeps actor id (some u) false users e a =
    if-holds (λ (c : Change). any is_admin c.users ≡ true) (would_orphan_admins u none true users)
      (λ q. a) λ q. change-keeps none true _ users u id e q (λ g h. cc) a

-- The users' pages never leave the instance without an administrator: where some user is an active
-- administrator, one still is after a change of any user's role, to any text, and after any user is
-- activated or deactivated.
pub users-keep_admin :
    (actor : Text) (id : ℕ) (form : Text) (users : List User)
    → any is_admin users ≡ true
    → (any is_admin (users_role actor id form users).users ≡ true)
      × (any is_admin (users_active actor id form users).users ≡ true)
unfolding users_role users_active
users-keep_admin actor id form users a = (
  role-keeps actor id (get_user id users) form users refl a,
  active-keeps actor id (get_user id users) _ users refl a,
)
