-- ===== src/Auth/Identity.antt =====
-- The decisions of src/aptly_gui/auth that need no library: the comparison of tokens
-- (session.py), what a provider's claims say (oidc.py) and passwords (passwords.py).
-- Hashing is a library's work and stays outside; the cookie is in Web/Session, the exchange with the
-- provider in Auth/Oidc.
use aptly_gui.Prelude.{
  ℕ, zero, suc, ◌||◌, not, leb, ◌==◌, ◌≡◌, refl, ◌⊎◌, inl, inr, Bool, true, false, ◌&&◌, Option,
  none, some, List, [], ◌∷◌, ◌++◌, arith, length, ltb, if◌then◌else◌, Bool-cases,
}
use aptly_gui.Text.{Text, codes, same, mem, truthy}
use aptly_gui.Text.Laws.{same→eq}
use aptly_gui.Json.{
  Json, null, bool, num, real, text, arr, obj, Items, nil, cons, Fields, end, field, get,
}
use aptly_gui.Exec.{Result, ok, raised, oidc_error, value_error, type_error}
use aptly_gui.Exec.Fallible
use aptly_gui.Db.Models.{UserRole, viewer, operator, admin}

abbrev pub is_ascii : Text → Bool
is_ascii [] = true
is_ascii (c ∷ s) = ltb c 128 && is_ascii s

-- secrets.compare_digest of two texts: it compares ASCII texts only
unfoldable pub compare_digest : Text → Text → Result Bool
compare_digest a b =
    if is_ascii a && is_ascii b
    then ok (same a b)
    else raised (type_error (codes "comparing strings with non-ASCII characters is not supported"))

-- csrf_matches
unfoldable pub csrf_matches : Option Text → Option Text → Result Bool
csrf_matches none submitted = ok false
csrf_matches (some expected) none = ok false
csrf_matches (some expected) (some submitted) =
    if truthy expected && truthy submitted then compare_digest expected submitted else ok false

-- OidcConfig; its default role is a text until a sign-in needs it
pub record OidcConfig : Type 0 where
  pub issuer : Text
  pub client_id : Text
  pub client_secret : Text
  pub scopes : Text
  pub base_url : Option Text
  pub username_claim : Text
  pub groups_claim : Text
  pub admin_group : Option Text
  pub operator_group : Option Text
  pub default_role : Text

abbrev usable : Option Json → Option Text
usable (some (text t)) = if truthy t then some t else none
usable _ = none

first_claim : Json → List Text → Option Text
first_claim claims [] = none
first_claim claims (key ∷ keys) =
    let later = first_claim claims keys in
    elim (usable (get key claims)) [ some t ↦ some t | none ↦ later ]

abbrev or_no_claim : Option Text → Result Text
or_no_claim none = raised (oidc_error (codes "no usable username claim in userinfo"))
or_no_claim (some t) = ok t

-- username_from
unfoldable pub username_from : OidcConfig → Json → Result Text
unfolding first_claim
username_from config claims = or_no_claim (
    first_claim claims
      (config.username_claim ∷ codes "preferred_username" ∷ codes "email" ∷ codes "sub" ∷ []))

-- UserRole(value)
unfoldable pub role_named : Text → Result UserRole
role_named value =
    if same value (codes "viewer")
    then ok viewer
    else if same value (codes "operator")
    then ok operator
    else if same value (codes "admin")
    then ok admin
    else raised (value_error (value ++ codes " is not a valid UserRole"))

role_named-admin : (value : Text) → role_named value ≡ ok admin → value ≡ codes "admin"
unfolding role_named
role_named-admin value h = same→eq value (codes "admin") (ground (arith, h))

-- A literal of a number with a fraction is that of zero.
abbrev is_zero : Text → Bool
is_zero [] = true
is_zero (c ∷ s) =
    if c == b'e' || c == b'E' then true else not (leb b'1' c && leb c b'9') && is_zero s

-- The keys of a dictionary.
unfoldable pub field_names : Fields → List Text
field_names end = []
field_names (field k v rest) = k ∷ field_names rest

not_iterable : Result (List Text)
not_iterable = raised (type_error (codes "object is not iterable"))

-- {str(group) for group in groups}; `show` is str() of a value that is no text.
module _ (show : Json → Text) where
  unfoldable pub group_items : Items → List Text
  group_items nil = []
  group_items (cons (text t) rest) = t ∷ group_items rest
  group_items (cons v rest) = show v ∷ group_items rest

  -- The groups of a claim: none of a value that is false, the text itself, the elements of an array or
  -- the keys of an object; a number and `true` cannot be iterated.
  unfoldable pub groups_of : Option Json → Result (List Text)
  unfolding not_iterable
  groups_of none = ok []
  groups_of (some null) = ok []
  groups_of (some (bool false)) = ok []
  groups_of (some (bool true)) = not_iterable
  groups_of (some (num zero)) = ok []
  groups_of (some (num (suc n))) = not_iterable
  groups_of (some (real t)) = if is_zero t then ok [] else not_iterable
  groups_of (some (text [])) = ok []
  groups_of (some (text (c ∷ t))) = ok ((c ∷ t) ∷ [])
  groups_of (some (arr xs)) = ok (group_items xs)
  groups_of (some (obj fs)) = ok (field_names fs)

  -- `group and group in members`
  unfoldable pub in_group : Option Text → List Text → Bool
  in_group none members = false
  in_group (some group) members = truthy group && mem group members

  role_of_members : OidcConfig → List Text → Result UserRole
  role_of_members config members =
      if in_group config.admin_group members
      then ok admin
      else if in_group config.operator_group members
      then ok operator
      else role_named config.default_role

  unfoldable pub role_from : OidcConfig → Json → Result UserRole
  unfolding groups_of role_of_members
  role_from config claims =
      Fallible.◌>>=◌ (groups_of (get config.groups_claim claims)) (role_of_members config)

  is_member :
      (group : Option Text) (members : List Text)
      → in_group group members ≡ true
      → (g : Text) × (group ≡ some g) × (truthy g ≡ true) × (mem g members ≡ true)
  unfolding in_group
  is_member none members h = cc
  is_member (some g) members h = (g, refl, ground arith, ground arith)

  -- What makes an administrator of a user with the groups.
  abbrev Grants : OidcConfig → List Text → Type 0
  Grants config members =
      (config.default_role ≡ codes "admin")
      ⊎ ((g : Text) × (config.admin_group ≡ some g) × (truthy g ≡ true) × (mem g members ≡ true))

  role_of_members-admin :
      (config : OidcConfig) (members : List Text)
      → role_of_members config members ≡ ok admin
      → Grants config members
  unfolding role_of_members
  role_of_members-admin config members h = elim (Bool-cases (in_group config.admin_group members)) [
    | inl k ↦ inr (is_member _ _ k)
    | inr k ↦ inl (role_named-admin config.default_role (ground (arith, h, k)))
  ]

  by_groups :
      (config : OidcConfig) (found : Result (List Text))
      → Fallible.◌>>=◌ found (role_of_members config) ≡ ok admin
      → (members : List Text) × (found ≡ ok members) × Grants config members
  by_groups config (ok members) h = (members, refl, role_of_members-admin config members h)
  by_groups config (raised e) h = cc

  -- A sign-in makes an administrator only of a member of the administrators' group that is
  -- configured, unless the configuration makes every user one; either way only where the claim of the
  -- groups can be read.
  pub role_from-admin :
      (config : OidcConfig) (claims : Json)
      → role_from config claims ≡ ok admin
      → (members : List Text) × (groups_of (get config.groups_claim claims) ≡ ok members)
        × ((config.default_role ≡ codes "admin")
            ⊎ ((g : Text) × (config.admin_group ≡ some g)
                × (truthy g ≡ true)
                × (mem g members ≡ true)))
  unfolding role_from
  role_from-admin config claims h = by_groups config (groups_of (get config.groups_claim claims)) h

abbrev min_length : ℕ
min_length = 10

-- describe_weakness(password) == "too_short"
unfoldable pub too_short : Text → Bool
too_short password = ltb (length password) min_length

-- verify_password, given the hasher
unfoldable pub verify_password : (Text → Text → Bool) → Option Text → Text → Bool
verify_password hasher none password = false
verify_password hasher (some h) password = truthy h && hasher h password
