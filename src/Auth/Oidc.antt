-- ===== src/Auth/Oidc.antt =====
-- src/aptly_gui/auth/oidc.py: the authorization code flow against a provider. What is outside (the
-- provider behind httpx, the hash of PKCE, urllib's encoding) is a record `Provider`.
use aptly_gui.Prelude.{
  Bool, true, false, ◌&&◌, ◌||◌, leb, not, Option, none, some, List, [], ◌∷◌, ◌++◌, ◌==◌,
  if◌then◌else◌,
}
use aptly_gui.Text.{Text, codes, truthy, decimal}
use aptly_gui.Json.{Json, Items, Fields, null, bool, num, real, text, arr, obj, get}
use aptly_gui.Exec.{
  Exec, returned, Result, ok, raised, pure, lift, gets, modify, oidc_error, value_error, type_error,
  http_error, ◌>>=◌, ◌>>◌,
}
use aptly_gui.Aptly.Client.{Reply, response, timed_out, transport_error}
use aptly_gui.Auth.Identity.{OidcConfig}

pub record Provider : Type 1 where
  pub State : Type 0
  -- a GET, with the bearer token of its Authorization header where it has one
  pub fetch : Text → Option Text → State → Reply × State
  -- a POST of a form
  pub post : Text → List (Text × Text) → State → Reply × State
  -- urllib.parse.urlencode
  pub urlencode : List (Text × Text) → Text
  -- challenge_for: the SHA-256 of a verifier, in base64
  pub challenge_for : Text → Text
  -- str() of a decoded JSON value that is no string
  pub show : Json → Text

-- The client's own state: the provider's metadata, once read.
pub record Flow (W : Type 0) : Type 0 where
  pub outside : W
  pub metadata : Option Json

-- bool(value)
abbrev has_items : Items → Bool
has_items Items.nil = false
has_items (Items.cons x xs) = true

abbrev has_fields : Fields → Bool
has_fields Fields.end = false
has_fields (Fields.field k v rest) = true

-- A literal with a fraction is zero where its digits before an exponent are.
unfoldable pub has_digit : Text → Bool
has_digit [] = false
has_digit (c ∷ s) =
    let rest = has_digit s in if c == 101 || c == 69 then false else (leb 49 c && leb c 57) || rest

unfoldable pub holds : Json → Bool
unfolding has_digit
holds null = false
holds (bool b) = b
holds (num n) = not (n == 0)
holds (real literal) = has_digit literal
holds (text t) = truthy t
holds (arr xs) = has_items xs
holds (obj fs) = has_fields fs

abbrev pub held : Option Json → Bool
held none = false
held (some v) = holds v

-- OidcConfig.enabled
unfoldable pub enabled : OidcConfig → Bool
enabled config = truthy config.issuer && truthy config.client_id

abbrev pub is_object : Json → Bool
is_object (obj fs) = true
is_object _ = false

-- payload.get(...), which only a dictionary has
abbrev pub get_or_raise : Text → Json → Result (Option Json)
get_or_raise key (obj fs) = ok (get key (obj fs))
get_or_raise key _ = raised (type_error (codes "no attribute 'get'"))

-- The loop over the endpoints that the metadata must name.
unfoldable pub missing_endpoint : List Text → Json → Option Text
unfolding holds has_digit
missing_endpoint [] metadata = none
missing_endpoint (name ∷ names) metadata =
    let rest = missing_endpoint names metadata in
    if held (get name metadata) then rest else some name

abbrev pub endpoints : List Text
endpoints = codes "authorization_endpoint" ∷ codes "token_endpoint" ∷ codes "userinfo_endpoint" ∷ []

unfoldable pub advertised : Json → Result Json
unfolding missing_endpoint
advertised (obj fs) = elim (missing_endpoint endpoints (obj fs)) [
  | none ↦ ok (obj fs)
  | some name ↦ raised (oidc_error (codes "provider does not advertise " ++ name))
]
advertised _ = raised (type_error (codes "no attribute 'get'"))

-- {"grant_type": "authorization_code", ...}
unfoldable pub exchange_data : OidcConfig → Text → Text → Text → List (Text × Text)
exchange_data config code verifier redirect_uri =
    (codes "grant_type", codes "authorization_code")
    ∷ (codes "code", code)
    ∷ (codes "redirect_uri", redirect_uri)
    ∷ (codes "client_id", config.client_id)
    ∷ (codes "code_verifier", verifier)
    ∷ (if truthy config.client_secret
        then (codes "client_secret", config.client_secret) ∷ []
        else [])

-- response.json()
abbrev pub decoded : Option Json → Result Json
decoded none = raised (value_error (codes "Expecting value"))
decoded (some payload) = ok payload

-- An answer of httpx: an exception, or a response whose status must be 200.
unfoldable pub accepted : Text → Reply → Result Json
accepted failure (timed_out class message) = raised (http_error class message)
accepted failure (transport_error class message) = raised (http_error class message)
accepted failure (response r) =
    if r.status_code == 200
    then decoded r.decoded
    else raised (oidc_error (failure ++ (codes ": HTTP " ++ decimal r.status_code)))

module _ (p : Provider) (config : OidcConfig) where
  abbrev pub py_str : Json → Text
  py_str (text t) = t
  py_str v = p.show v

  unfoldable pub http_get : Text → Option Text → Exec (Flow p.State) Reply
  http_get url token s =
      let (reply, w) = p.fetch url token s.outside in (returned reply, record s { outside = w })

  unfoldable pub http_post : Text → List (Text × Text) → Exec (Flow p.State) Reply
  http_post url form s =
      let (reply, w) = p.post url form s.outside in (returned reply, record s { outside = w })

  abbrev pub discovery_url : Text
  discovery_url = config.issuer ++ codes "/.well-known/openid-configuration"

  discover : Exec (Flow p.State) Json
  discover = do
    reply ← http_get discovery_url none
    payload ← lift (accepted (codes "discovery failed at " ++ discovery_url) reply)
    found ← lift (advertised payload)
    modify (λ s. record s { metadata = some found })
    pure found

  known_or_discovered : Option Json → Exec (Flow p.State) Json
  unfolding discover
  known_or_discovered none = discover
  known_or_discovered (some found) = pure found

  -- OidcClient.metadata
  unfoldable pub metadata : Exec (Flow p.State) Json
  unfolding known_or_discovered
  metadata = do known ← gets (λ s. s.metadata); known_or_discovered known

  -- metadata[name], where the metadata has been checked to have it
  abbrev pub endpoint : Option Json → Text
  endpoint none = []
  endpoint (some v) = py_str v

  unfoldable pub authorization_url : Text → Text → Text → Exec (Flow p.State) Text
  authorization_url state verifier redirect_uri = do
    found ← metadata
    let query = p.urlencode (
        (codes "response_type", codes "code")
        ∷ (codes "client_id", config.client_id)
        ∷ (codes "redirect_uri", redirect_uri)
        ∷ (codes "scope", config.scopes)
        ∷ (codes "state", state)
        ∷ (codes "code_challenge", p.challenge_for verifier)
        ∷ (codes "code_challenge_method", codes "S256")
        ∷ [])
    pure (endpoint (get (codes "authorization_endpoint") found) ++ (codes "?" ++ query))

  unfoldable pub token_of : Option Json → Result Text
  token_of found =
      if held found
      then ok (endpoint found)
      else raised (oidc_error (codes "provider returned no access token"))

  -- OidcClient.exchange
  unfoldable pub exchange : Text → Text → Text → Exec (Flow p.State) Text
  exchange code verifier redirect_uri = do
    found ← metadata
    reply ←
        http_post (endpoint (get (codes "token_endpoint") found))
          (exchange_data config code verifier redirect_uri)
    payload ← lift (accepted (codes "token exchange failed") reply)
    token ← lift (get_or_raise (codes "access_token") payload)
    lift (token_of token)

  unfoldable pub claims_of : Json → Result Json
  claims_of claims =
      if is_object claims
      then ok claims
      else raised (oidc_error (codes "userinfo did not return an object"))

  -- OidcClient.userinfo
  unfoldable pub userinfo : Text → Exec (Flow p.State) Json
  userinfo access_token = do
    found ← metadata
    reply ← http_get (endpoint (get (codes "userinfo_endpoint") found)) (some access_token)
    claims ← lift (accepted (codes "userinfo failed") reply)
    lift (claims_of claims)
