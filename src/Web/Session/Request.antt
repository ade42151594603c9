-- ===== src/Web/Session/Request.antt =====
-- A request and its cookie: which cookies bring a request to its handler, and the request after a
-- sign-in.
use mathlib.Core.Option.{some-injective, none-ne-some}
use aptly_gui.Prelude.{
  ℕ, ◌+◌, ◌≡◌, ◌≤◌, ◌==◌, ◌⊎◌, inl, inr, refl, sym, ap, ◌∙◌, Bool, true, false, ◌||◌, Option, none,
  some, [], ◌∷◌, List, arith, if-true, if-false, Bool-cases,
}
use aptly_gui.Text.{Text, codes, same, starts_with, truthy}
use aptly_gui.Db.Models.{User, user_can}
use aptly_gui.Auth.Policy.{is_public, required_role}
use aptly_gui.Web.Guard.{hand_on, session_user, dispatch-hand_on}
use aptly_gui.Web.Users.{get_user}
use aptly_gui.Web.Provided.{SessionData}
use aptly_gui.Web.Setup.{sign_in, issue}
use aptly_gui.Web.Session.{
  cookie_for, Signer, Documented, Loaded, bad_signature, not_a_dict, dict, Keys, loaded,
  read_session, write_session, user_of, guard,
}

module _ (signer : Signer) (keys : Keys) (now : ℕ) (users : List User) where
  -- A cookie that the signer reads under the key of the program, not older than a session may be, as the
  -- session of a user of the table who is active.
  abbrev pub SignedFor : Option Text → User → Type 0
  SignedFor raw user =
      (cookie : Text) × (session : SessionData) × (uid : ℕ) × (raw ≡ some cookie)
      × (signer.loads keys.secret_key keys.session_max_age now cookie ≡ dict session)
      × (session.uid ≡ some uid)
      × (get_user uid users ≡ some user)
      × (user.active ≡ true)

  active_found :
      (user : User) (found : Option User)
      → session_user found ≡ some user
      → (found ≡ some user) × (user.active ≡ true)
  unfolding session_user
  active_found user none h = cc
  active_found user (some u) h = elim (Bool-cases u.active) [
    | inl e ↦
        let same_user : u ≡ user = some-injective u user (sym (if-true _ u.active e) ∙ h) in
        (ap some same_user, ap (λ (v : User). v.active) (sym same_user) ∙ e)
    | inr e ↦ absurd (none-ne-some user (sym (if-false _ u.active e) ∙ h))
  ]

  user_found :
      (user : User) (uid : Option ℕ)
      → session_user (user_of uid users) ≡ some user
      → (id : ℕ) × (uid ≡ some id) × (get_user id users ≡ some user) × (user.active ≡ true)
  unfolding user_of
  user_found user none h = absurd (none-ne-some user (active_found user none h).0)
  user_found user (some id) h =
      let (found, active) = active_found user (user_of (some id) users) h in
      elim (Bool-cases (id == 0)) [
        | inl e ↦ absurd (none-ne-some user (sym (if-true _ (id == 0) e) ∙ found))
        | inr e ↦ (id, refl, sym (if-false _ (id == 0) e) ∙ found, active)
      ]

  signed_by :
      (cookie : Text) (user : User) (found : Loaded)
      → signer.loads keys.secret_key keys.session_max_age now cookie ≡ found
      → session_user (user_of (loaded found).uid users) ≡ some user
      → SignedFor (some cookie) user
  unfolding loaded
  signed_by cookie user bad_signature e h = absurd (none-ne-some _ ((user_found user none h).1))
  signed_by cookie user not_a_dict e h = absurd (none-ne-some _ ((user_found user none h).1))
  signed_by cookie user (dict session) e h =
      let (id, uid, found, active) = user_found user session.uid h in
      (cookie, session, id, refl, e, uid, found, active)

  signed :
      (raw : Option Text) (user : User)
      → session_user (user_of (read_session signer keys now raw).uid users) ≡ some user
      → SignedFor raw user
  unfolding read_session
  signed none user h = absurd (none-ne-some _ ((user_found user none h).1))
  signed (some []) user h = absurd (none-ne-some _ ((user_found user none h).1))
  signed (some (c ∷ raw)) user h = signed_by (c ∷ raw) user _ refl h

  -- A request is handed on only if its path is one of those open to all, or no user exists and it is
  -- the set-up, or it brings a cookie that the signer accepts under the key of the program, within the
  -- greatest age, as the session of a user who is active and whose role suffices for its method and path.
  pub guard-hand_on :
      (has_users has_cookie : Bool) (method path new : Text) (raw : Option Text)
      → (guard signer keys has_users users now method path raw new has_cookie).decision ≡ hand_on
      → ((starts_with path (codes "/static") || same path (codes "/healthz")) ≡ true)
        ⊎ ((has_users ≡ false) × (same path (codes "/setup") ≡ true))
        ⊎ (is_public path ≡ true)
        ⊎ ((user : User) × SignedFor raw user × (user_can user (required_role method path) ≡ true))
  unfolding guard
  guard-hand_on has_users has_cookie method path new raw h =
      elim (dispatch-hand_on has_users method path _ h) [
        | inl e ↦ inl e
        | inr (inl e) ↦ inr (inl e)
        | inr (inr (inl e)) ↦ inr (inr (inl e))
        | inr (inr (inr (user, found, may))) ↦ inr (inr (inr (user, signed raw user found, may)))
      ]

  -- The session of a cookie that the signer wrote.
  pub read-write :
      (at : ℕ) (session : SessionData)
      → Documented signer
      → at ≤ now
      → now ≤ at + keys.session_max_age
      → read_session signer keys now (some (write_session signer keys at session).value) ≡ session
  unfolding read_session write_session loaded
  read-write at session doc since age =
      let (c, rest, e) = doc.not_empty keys.secret_key at session in
      ap (λ t. read_session signer keys now (some t)) e
      ∙ ap (λ t. loaded (signer.loads keys.secret_key keys.session_max_age now t)) (sym e)
      ∙ ap loaded (doc.reads keys.secret_key keys.session_max_age at now session since age)

  session_user-user_of :
      (user : User)
      → get_user user.id users ≡ some user
      → user.active ≡ true
      → (user.id == 0) ≡ false
      → session_user (user_of (some user.id) users) ≡ some user
  unfolding session_user user_of
  session_user-user_of user found active id =
      ap session_user (if-false _ (user.id == 0) id ∙ found) ∙ if-true _ user.active active

  issue-sign_in :
      (user : User) (token new : Text) (has_cookie : Bool)
      → truthy token ≡ true
      → issue has_cookie new (sign_in user token) ≡ record { csrf = token; written = none }
  unfolding issue sign_in
  issue-sign_in user [] new has_cookie full = ground (arith, full)
  issue-sign_in user (c ∷ token) new has_cookie full = refl

  -- Where itsdangerous does what it documents: the request after a sign-in, with the cookie that the
  -- sign-in wrote, not before it and within the greatest age, is a request of the user who signed in, where the table
  -- still has them as an active user; it has the token of the sign-in, and the guard sets no cookie.
  pub guard-write_session :
      (at : ℕ) (user : User) (has_users has_cookie : Bool) (method path token new : Text)
      → Documented signer
      → at ≤ now
      → now ≤ at + keys.session_max_age
      → get_user user.id users ≡ some user
      → user.active ≡ true
      → (user.id == 0) ≡ false
      → truthy token ≡ true
      → let raw = some (write_session signer keys at (sign_in user token)).value in
        let after = guard signer keys has_users users now method path raw new has_cookie in
        (after.user ≡ some user) × (after.csrf ≡ token) × (after.cookie ≡ none)
  unfolding guard cookie_for sign_in
  guard-write_session at user has_users has_cookie method path token new doc since age found active
        id full =
      let back = read-write at (sign_in user token) doc since age in
      let issued = ap (issue has_cookie new) back ∙ issue-sign_in user token new has_cookie full in
      (
        ap (λ (session : SessionData). session_user (user_of session.uid users)) back
            ∙ session_user-user_of user found active id,
        ap (λ i. i.csrf) issued,
        ap (λ i. cookie_for signer keys now i.written) issued,
      )
