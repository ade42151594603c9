-- ===== src/Web/Provided/Checked.antt =====
-- What an attempt to sign in through the provider has been through.
use mathlib.Core.Path.{subst}
use aptly_gui.Prelude.{
  ◌≡◌, refl, sym, ap, ◌∙◌, Bool, true, false, Option, none, some, List, [], arith, if◌then◌else◌,
}
use aptly_gui.Text.{Text, codes, truthy, starts_with}
use aptly_gui.Text.Laws.{same→eq}
use aptly_gui.Exec.{
  Result, ok, raised, lift, Exec, Exc, Outcome, returned, threw, stuck, pure, raise, catch, handle,
}
use aptly_gui.Exec.Returns.{bind-returned, if-returned}
use aptly_gui.Aptly.Client.{Moment}
use aptly_gui.Db.Models.{User, UserRole}
use aptly_gui.Auth.Identity.{OidcConfig, csrf_matches, compare_digest}
use aptly_gui.Auth.Oidc.{Provider, Flow}
use aptly_gui.Web.Guard.{safe_next, safe_next-local}
use aptly_gui.Web.SignIn.{Attempt, provided}
use aptly_gui.Web.Provided.{
  SessionData, Callback, refused, attempted, or_text, redirect_uri, identified, signed_in,
  state_matches, callback_for, callback_by, oidc_callback, only_oidc,
}

module _ (p : Provider) where
  -- The state of the callback is that of the session, which `start` put there.
  matched :
      (expected state : Option Text)
      → state_matches expected state ≡ ok true
      → (st : Text) × (state ≡ some st) × (expected ≡ some st) × (truthy st ≡ true)
  unfolding state_matches csrf_matches compare_digest
  matched expected none h = cc
  matched none (some st) h = absurd (ground (arith, h))
  matched (some t) (some st) h =
      let equal : t ≡ st = same→eq t st (ground (arith, h)) in
      (st, refl, ap some equal, ground (arith, h))

  refusal-ne :
      (e : Exc) (s : Flow p.State) (a : Attempt) (to : Text)
      → (only_oidc p refused e s).0 ≡ returned (attempted a to)
      → ⊥
  unfolding only_oidc pure raise
  refusal-ne e s a to h = ground arith

  not_refused :
      (r : Outcome Callback) (s : Flow p.State) (a : Attempt) (to : Text)
      → (handle r (only_oidc p refused) s).0 ≡ returned (attempted a to)
      → r ≡ returned (attempted a to)
  not_refused (returned x) s a to h = h
  not_refused (threw e) s a to h = absurd (refusal-ne e s a to h)
  not_refused stuck s a to h = cc

  -- What is known of a callback that comes to an attempt `a` and the place `to`.
  pub record Checked (now : Moment) (stored : SessionData) (state : Option Text) (users : List User)
      (a : Attempt) (to : Text) (s : Flow p.State) (config : OidcConfig) (code own : Text)
      : Type 0 where
    -- the callback brings the state that the session has, and it is not empty
    pub state_text : Text
    pub came : state ≡ some state_text
    pub expected : stored.oidc_state ≡ some state_text
    pub full : truthy state_text ≡ true
    -- the provider exchanged the code and the session's verifier, and named the user
    pub name : Text
    pub role : UserRole
    pub named :
        (identified p config code (or_text [] stored.oidc_verifier) (redirect_uri config own) s).0
        ≡ returned (name, role)
    pub attempt : a ≡ provided now name role users
    pub local : starts_with to (codes "/") ≡ true
    pub single : starts_with to (codes "//") ≡ false

  abbrev attempt_of : Attempt → Outcome Callback → Attempt
  attempt_of b (returned (attempted a to)) = a
  attempt_of b _ = b

  abbrev place_of : Outcome Callback → Text
  place_of (returned (attempted a to)) = to
  place_of _ = []

  module _ (now : Moment) (stored : SessionData) (own : Text) (users : List User) (a : Attempt)
      (to : Text) (s : Flow p.State) (config : OidcConfig) (code : Text) where
    after_named :
        (signed_in p config now stored code own users s).0 ≡ returned (attempted a to)
        → (name : Text) × ((role : UserRole) × ((identified p config code
                (or_text [] stored.oidc_verifier)
                (redirect_uri config own)
                s).0
              ≡ returned (name, role))
            × (a ≡ provided now name role users)
            × (to ≡ safe_next (or_text (codes "/") stored.oidc_next)))
    unfolding signed_in pure
    after_named h =
        let ((name, role), e, f) =
          bind-returned
            (identified p config code (or_text [] stored.oidc_verifier) (redirect_uri config own)) _
            s (attempted a to) h in
        (name, (role, e, sym (ap (attempt_of a) f), sym (ap place_of f)))

    passed :
        (b : Bool) (m : Exec (Flow p.State) Callback) (message : Text) (t : Flow p.State)
        → ((if b then m else pure (refused message)) t).0 ≡ returned (attempted a to)
        → (b ≡ true) × ((m t).0 ≡ returned (attempted a to))
    unfolding pure
    passed false m message t h = cc
    passed true m message t h = (refl, h)

    -- A value that is only looked at leaves the state.
    lifted :
        (r : Result Bool) (b : Bool)
        → (lift r s).0 ≡ returned b
        → (r ≡ ok b) × ((lift {S = Flow p.State} r s).1 ≡ s)
    unfolding lift
    lifted (ok x) b h = (cc, refl)
    lifted (raised e) b h = cc

    by_state :
        (state : Option Text)
        → (callback_for p config now stored state code own users s).0 ≡ returned (attempted a to)
        → Checked now stored state users a to s config code own
    unfolding callback_for catch
    by_state state h =
        let (verified, came_back, g) =
          bind-returned (lift (state_matches stored.oidc_state state)) _ s (attempted a to) h in
        let (found, same_state) =
          lifted (state_matches stored.oidc_state state) verified came_back in
        let (is_true, f') = passed verified _ _ _ g in
        let e : state_matches stored.oidc_state state ≡ ok true = found ∙ ap ok is_true in
        let f =
          subst
            (λ t.
              (catch (signed_in p config now stored code own users) (only_oidc p refused) t).0
              ≡ returned (attempted a to))
            same_state f' in
        let (st, came, expected, full) = matched stored.oidc_state state e in
        let (name, (role, named, attempt, place)) = after_named (not_refused _ _ a to f) in
        let (slash, double) = safe_next-local (or_text (codes "/") stored.oidc_next) in
        record {
          state_text = st;
          came = came;
          expected = expected;
          full = full;
          name = name;
          role = role;
          named = named;
          attempt = attempt;
          local = rw place slash;
          single = rw place double;
        }

  -- A callback of the provider comes to an attempt to sign in only where the provider is configured
  -- and the callback has a code and brings the very state, not empty, that the browser's signed session
  -- has; the attempt is the one of the name and the role that the provider gave for that code and the
  -- verifier of that session, and the place to go to after it starts with one slash and not with two.
  pub oidc_callback-Checked :
      (config : Option OidcConfig) (now : Moment) (stored : SessionData) (code state : Option Text)
      (own : Text) (users : List User) (a : Attempt) (to : Text) (s : Flow p.State)
      → (oidc_callback p config now stored code state own users s).0 ≡ returned (attempted a to)
      → (c : OidcConfig) × ((t : Text) × (config ≡ some c)
          × (code ≡ some t)
          × Checked now stored state users a to s c t own)
  unfolding oidc_callback callback_by pure
  oidc_callback-Checked none now stored code state own users a to s h = cc
  oidc_callback-Checked (some c) now stored none state own users a to s h = cc
  oidc_callback-Checked (some c) now stored (some t) state own users a to s h = (
    c,
    (
      t,
      refl,
      refl,
      by_state now stored own users a to s c t state
          (if-returned (truthy t) _ _ s (attempted a to) (λ v k. cc) h).1,
    ),
  )
