-- ===== src/Tests/Sessions.antt =====
-- The theorems on the session cookie, applied to a signer that keeps one session.
use aptly_gui.Prelude.{
  ℕ, zero, suc, ◌&&◌, ◌≡◌, ◌⊎◌, refl, ap, true, false, ◌||◌, Option, none, some, [], ◌∷◌, ◌+◌, leb,
  if◌then◌else◌, arith,
}
use aptly_gui.Text.{Text, codes, same, starts_with, mem, starts_with_any}
use aptly_gui.Text.Laws.{same_refl}
use aptly_gui.Db.Models.{User, admin, local, user_can}
use aptly_gui.Auth.Policy.{is_public, required_role, is_read}
use aptly_gui.Web.Guard.{dispatch, session_user}
use aptly_gui.Web.Users.{get_user}
use aptly_gui.Web.Provided.{SessionData}
use aptly_gui.Web.Setup.{sign_in}
use aptly_gui.Web.Session.{
  Signer, Documented, Loaded, dict, bad_signature, Keys, write_session, read_session, loaded,
  user_of, guard,
}
use aptly_gui.Web.Session.Request.{SignedFor, guard-hand_on, guard-write_session}
use aptly_gui.Db.Models.{update}
use aptly_gui.Web.Lifespan.{Config, App, lifespan}
use aptly_gui.Web.Lifespan.Restart.{lifespan-reads}
use aptly_gui.Tests.Sample.{prompt_aptly, sample_margin, sample_tables}

abbrev cat : User
cat = record {
  id = 1;
  username = codes "cat";
  password_hash = some (codes "hash");
  role = admin;
  active = true;
  source = local;
  last_login = none;
}

-- A text, written with an end, before others.
abbrev put_text : Text → Text → Text
put_text [] rest = 0 ∷ rest
put_text (c ∷ t) rest = suc c ∷ put_text t rest

abbrev take_text : Text → Text × Text
take_text [] = ([], [])
take_text (zero ∷ rest) = ([], rest)
take_text (suc c ∷ rest) = let (t, others) = take_text rest in (c ∷ t, others)

take-put : (t rest : Text) → take_text (put_text t rest) ≡ (t, rest)
take-put [] rest = refl
take-put (c ∷ t) rest = ap (λ (p : Text × Text). (c ∷ p.0, p.1)) (take-put t rest)

abbrev put_option : Option Text → Text → Text
put_option none rest = 0 ∷ rest
put_option (some t) rest = 1 ∷ put_text t rest

abbrev take_option : Text → Option Text × Text
take_option (suc n ∷ rest) = let (t, others) = take_text rest in (some t, others)
take_option (zero ∷ rest) = (none, rest)
take_option [] = (none, [])

take-put_option : (t : Option Text) (rest : Text) → take_option (put_option t rest) ≡ (t, rest)
take-put_option none rest = refl
take-put_option (some t) rest = ap (λ (p : Text × Text). (some p.0, p.1)) (take-put t rest)

abbrev put_uid : Option ℕ → Text
put_uid none = []
put_uid (some n) = n ∷ []

abbrev take_uid : Text → Option ℕ
take_uid [] = none
take_uid (n ∷ rest) = some n

take-put_uid : (uid : Option ℕ) → take_uid (put_uid uid) ≡ uid
take-put_uid none = refl
take-put_uid (some n) = refl

abbrev put_session : SessionData → Text
put_session x =
    put_option x.csrf (
      put_option x.oidc_state (put_option x.oidc_verifier (put_option x.oidc_next (put_uid x.uid))))

abbrev take_session : Text → SessionData
take_session t =
    let (csrf, t1) = take_option t in
    let (state, t2) = take_option t1 in
    let (verifier, t3) = take_option t2 in
    let (next, t4) = take_option t3 in
    record {
      uid = take_uid t4;
      csrf = csrf;
      oidc_state = state;
      oidc_verifier = verifier;
      oidc_next = next;
    }

take-put_session : (x : SessionData) → take_session (put_session x) ≡ x
take-put_session x =
    rw (take-put_option, take-put_option, take-put_option, take-put_option, take-put_uid) refl

abbrev small_loads : Text → ℕ → ℕ → Text → Loaded
small_loads key max_age now [] = bad_signature
small_loads key max_age now (signed ∷ raw) =
    let (k, rest) = take_text raw in
    if same k key && (leb signed now && leb now (signed + max_age))
    then dict (take_session rest)
    else bad_signature

abbrev small_signer : Signer
small_signer = record {
  loads = small_loads;
  dumps = λ key signed session. signed ∷ put_text key (put_session session);
}

small_signer-Documented : Documented small_signer
small_signer-Documented = record {
  reads = λ key max_age signed now session since age.
      let in_time : (leb signed now && leb now (signed + max_age)) ≡ true =
        ground (arith, since, age) in
      rw (take-put, same_refl, in_time, take-put_session) refl;
  not_empty = λ key signed session. (signed, put_text key (put_session session), refl);
}

abbrev keys : Keys
keys = record { secret_key = codes "key"; session_max_age = 60; secure_cookies = true }

abbrev cookie : Text
cookie = (write_session small_signer keys 100 (sign_in cat (codes "token"))).value

guard-hand_on_example :
    ((starts_with (codes "/sets/1") (codes "/static") || same (codes "/sets/1") (codes "/healthz"))
      ≡ true)
    ⊎ ((true ≡ false) × (same (codes "/sets/1") (codes "/setup") ≡ true))
    ⊎ (is_public (codes "/sets/1") ≡ true)
    ⊎ ((user : User) × SignedFor small_signer keys 130 (cat ∷ []) (some cookie) user
        × (user_can user (required_role (codes "POST") (codes "/sets/1")) ≡ true))
unfolding guard dispatch same starts_with is_public mem starts_with_any user_can required_role
    is_read read_session write_session sign_in loaded user_of session_user get_user
guard-hand_on_example =
    guard-hand_on small_signer keys 130 (cat ∷ []) true false (codes "POST") (codes "/sets/1")
      (codes "new") (some cookie) refl

guard-write_session_example :
    let raw = some (write_session small_signer keys 100 (sign_in cat (codes "token"))).value in
    let after =
      guard small_signer keys true
        (cat ∷ [])
        130
        (codes "GET")
        (codes "/")
        raw
        (codes "new")
        false in
    (after.user ≡ some cat) × (after.csrf ≡ codes "token") × (after.cookie ≡ none)
unfolding get_user
guard-write_session_example =
    guard-write_session small_signer keys 130 (cat ∷ []) 100 cat true false (codes "GET")
      (codes "/") (codes "token") (codes "new") small_signer-Documented (omega arith) (omega arith)
      refl refl refl refl

abbrev small_config : Config
small_config = record {
  default_language = codes "en";
  secret_key = [];
  session_max_age = 60;
  secure_cookies = true;
  admin_username = codes "cat";
  admin_hash = codes "hash";
}

-- The first start, and one on its tables that draws another token.
abbrev first_start : App Unit
first_start =
    lifespan prompt_aptly sample_margin 60 1 small_config (codes "drawn") tt
      (sample_tables update [])

abbrev second_start : App Unit
second_start =
    lifespan prompt_aptly sample_margin 60 1 small_config (codes "other") tt
      first_start.world.own.live

lifespan-reads_example :
    read_session small_signer second_start.keys 130
      (some (write_session small_signer first_start.keys 100 (sign_in cat (codes "token"))).value)
    ≡ sign_in cat (codes "token")
lifespan-reads_example =
    lifespan-reads prompt_aptly sample_margin 60 1 small_config small_signer (codes "drawn")
      (codes "other") tt tt (sample_tables update []) first_start.world.own.live 100 130
      (sign_in cat (codes "token")) small_signer-Documented refl (omega arith) (omega arith)
