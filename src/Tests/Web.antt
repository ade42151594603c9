-- ===== src/Tests/Web.antt =====
-- The theorems on users, pages and the cached state, applied to concrete data.
use mathlib.Core.List.{Perm}
use aptly_gui.Prelude.{◌≡◌, refl, ◌⊎◌, Bool, true, false, none, some, List, [], ◌∷◌, any, All, ◌==◌}
use aptly_gui.Text.{truthy, Text, codes, same, mem, starts_with}
use aptly_gui.Json.{Json, text, obj, fields}
use aptly_gui.Dict.{values}
use aptly_gui.Db.Models.{User, viewer, operator, admin, local, oidc, SnapshotSet}
use aptly_gui.Jobs.State.{get_snapshot_set}
use aptly_gui.Auth.Policy.{ReadRule, WriteRule, may, required_role_least}
use aptly_gui.Auth.Identity.{OidcConfig, csrf_matches, role_from, groups_of, role_from-admin}
use aptly_gui.Web.Users.{is_admin, users_role, users_active}
use aptly_gui.Web.Users.Admins.{users-keep_admin}
use aptly_gui.Web.SignIn.{reconcile_admin, login, by_username, provided}
use aptly_gui.Web.SignIn.Attempts.{
  login_results, result_of, sign_in_audited, reconcile_admin-grants, is_local_admin,
  provided-keeps_local,
}
use aptly_gui.Web.State.{
  AptlyState, CachedState, empty_state, get, Honest, get-Honest, published_snapshot_names,
  snapshot_names, mirror_names,
}
use aptly_gui.Text.Sort.{sort_texts}
use aptly_gui.Web.Deletions.{
  Enqueued, discard_submit, discard_set_submit, discarding, removing, mirror_delete, managed,
  names_a_set, made_from,
}
use aptly_gui.Web.Deletions.Safe.{
  held, discard_submit-safe, discard_set_submit-safe, mirror_delete-safe,
}
use aptly_gui.Exec.{ok}
use aptly_gui.Db.Models.{expected_mirrors}
use aptly_gui.Tests.Sample.{sample_set, noon, prompt_aptly, sample_set, sample_snapshots}

abbrev ann : User
ann = record {
  id = 1;
  username = codes "ann";
  password_hash = some (codes "hash");
  role = admin;
  active = true;
  source = local;
  last_login = none;
}

abbrev bob : User
bob = record ann {
  id = 2;
  username = codes "bob";
  role = viewer;
  source = oidc;
  password_hash = none;
}

abbrev users : List User
users = ann ∷ bob ∷ []

users-keep_admin_example :
    (any is_admin (users_role (codes "ann") 1 (codes "viewer") users).users ≡ true)
    × (any is_admin (users_active (codes "ann") 1 (codes "viewer") users).users ≡ true)
users-keep_admin_example = users-keep_admin (codes "ann") 1 (codes "viewer") users refl

-- A hasher that keeps the password as it is.
abbrev plain : Text → Text → Bool
plain hash password = true

provided-keeps_local_example :
    any is_local_admin (provided noon (codes "ann") viewer users).users ≡ true
provided-keeps_local_example = provided-keeps_local noon (codes "ann") viewer users refl

required_role_least_example :
    All (ReadRule (codes "/new")) (codes "GET" ∷ codes "HEAD" ∷ codes "OPTIONS" ∷ [])
    × All
        (WriteRule (codes "/new"))
        (codes "POST" ∷ codes "PUT" ∷ codes "PATCH" ∷ codes "DELETE" ∷ [])
    × (may admin (codes "POST") (codes "/new") ≡ true)
required_role_least_example = required_role_least (codes "POST") (codes "/new")

abbrev config : OidcConfig
config = record {
  issuer = codes "https://id";
  client_id = codes "gui";
  client_secret = [];
  scopes = codes "openid";
  base_url = none;
  username_claim = codes "sub";
  groups_claim = codes "groups";
  admin_group = some (codes "ops");
  operator_group = none;
  default_role = codes "viewer";
}

abbrev claims : Json
claims = obj (fields ((codes "groups", text (codes "ops")) ∷ []))

role_from-admin_example :
    (members : List Text) × (groups_of (λ v. []) (aptly_gui.Json.get (codes "groups") claims)
      ≡ ok members)
    × ((codes "viewer" ≡ codes "admin")
        ⊎ ((g : Text) × (some (codes "ops") ≡ some g) × (truthy g ≡ true) × (mem g members ≡ true)))
unfolding role_from groups_of aptly_gui.Auth.Identity.role_named same mem
    aptly_gui.Auth.Identity.in_group aptly_gui.Json.get fields
role_from-admin_example = role_from-admin (λ v. []) config claims refl

abbrev cached : CachedState
cached = record { state = empty_state noon; stale = true; error = none }

get-Honest_example :
    Honest prompt_aptly 30 false cached tt (get prompt_aptly 30 false (some cached) tt).0
get-Honest_example = get-Honest prompt_aptly 30 false cached tt

abbrev held_state : AptlyState
held_state = record (empty_state noon) {
  snapshots = record { name = codes "old"; created_at = none; description = [] } ∷ [];
}

discard_submit-safe_example :
    (discarding none (codes "old" ∷ []) none ≡ discarding none (codes "old" ∷ []) none)
    × (mem (codes "old") (snapshot_names held_state) ≡ true)
    × (mem (codes "old") (published_snapshot_names held_state) ≡ false)
    × (held (sample_set ∷ []) (sample_snapshots ∷ []) (codes "old") ≡ false)
unfolding discard_submit aptly_gui.Web.Deletions.snapshot_context mem snapshot_names
    published_snapshot_names aptly_gui.Web.State.published_names aptly_gui.Web.Deletions.owner_of
    aptly_gui.Web.Deletions.owner_in values
discard_submit-safe_example =
    discard_submit-safe (sample_set ∷ []) (sample_snapshots ∷ []) held_state (codes "old")
      (discarding none (codes "old" ∷ []) none) refl

discard_set_submit-safe_example :
    (x : SnapshotSet) × (get_snapshot_set 5 (sample_snapshots ∷ []) ≡ some x)
    × ((x.mirror_set_id == 1) ≡ true)
    × (discarding (some 1) (codes "snap" ∷ []) (some 5)
        ≡ discarding (some 1) (sort_texts (values x.snapshots)) (some 5))
    × Perm (sort_texts (values x.snapshots)) (values x.snapshots)
    × All
        (λ name. mem name (published_snapshot_names held_state) ≡ false)
        (sort_texts (values x.snapshots))
unfolding discard_set_submit get_snapshot_set sort_texts values mem published_snapshot_names
    aptly_gui.Web.State.published_names
discard_set_submit-safe_example =
    discard_set_submit-safe 1 5 (sample_snapshots ∷ []) held_state
      (discarding (some 1) (codes "snap" ∷ []) (some 5)) refl

abbrev spare_state : AptlyState
spare_state = record held_state {
  mirrors =
      record {
        name = codes "spare";
        archive_url = [];
        distribution = [];
        components = [];
        architectures = [];
        filter = none;
        last_download = none;
      }
      ∷ [];
}

mirror_delete-safe_example :
    (removing none (codes "spare" ∷ []) ≡ removing none (codes "spare" ∷ []))
    × (mem (codes "spare") (mirror_names spare_state) ≡ true)
    × All (λ set. mem (codes "spare") (expected_mirrors set) ≡ false) (sample_set ∷ [])
    × All (λ x. made_from (codes "spare" ∷ []) x ≡ false) (snapshot_names spare_state)
unfolding mirror_delete mem mirror_names managed aptly_gui.Web.Deletions.snapshots_of sort_texts
    snapshot_names starts_with expected_mirrors aptly_gui.Db.Models.mirror_name
    aptly_gui.Services.Naming.mirror_name
mirror_delete-safe_example =
    mirror_delete-safe (sample_set ∷ []) spare_state (codes "spare")
      (removing none (codes "spare" ∷ [])) (refl, tt) refl

reconcile_admin-grants_example :
    (u : User) × (by_username (codes "bob") (reconcile_admin (codes "bob") (codes "h") users)
      ≡ some u)
    × (is_local_admin u ≡ true)
    × (u.password_hash ≡ some (codes "h"))
reconcile_admin-grants_example = reconcile_admin-grants (codes "bob") (codes "h") users refl refl

sign_in_audited_example :
    (login_results (login plain noon (codes "eve") (codes "x") users).entries
      ≡ result_of (login plain noon (codes "eve") (codes "x") users).user ∷ [])
    × (login_results (provided noon (codes "eve") viewer users).entries
        ≡ result_of (provided noon (codes "eve") viewer users).user ∷ [])
sign_in_audited_example = sign_in_audited plain noon (codes "eve") (codes "x") viewer users
