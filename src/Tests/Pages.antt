-- ===== src/Tests/Pages.antt =====
-- The pages' theorems, and the wait for a task, applied to concrete data; runs of the pages.
use aptly_gui.Prelude.{◌≡◌, refl, ◌⊎◌, false, none, some, [], ◌∷◌, arith}
use aptly_gui.Text.{
  Text, codes, same, strip, strip_by, rstrip_by, lstrip_by, is_space, starts_with, mem,
}
use aptly_gui.Json.{Json, text, obj, fields, get, get_field}
use aptly_gui.Exec.{Exc, returned, threw, ◌>>=◌, catch, lift, gets, modify, pure, raise}
use aptly_gui.Aptly.Models.{Task}
use aptly_gui.Aptly.Client.{Reply, response}
use aptly_gui.Aptly.Client.Wait.{wait_for_task, wait_for_task_ends, Succeeded}
use aptly_gui.Db.Models.{create, admin}
use aptly_gui.Services.Naming.{default_pattern}
use aptly_gui.Services.Presets.{Preset}
use aptly_gui.Jobs.State.{World, get_mirror_set, get_job, next_job_id}
use aptly_gui.Jobs.Run.{new_job}
use aptly_gui.Auth.Identity.{
  OidcConfig, csrf_matches, group_items, groups_of, in_group, role_from, username_from,
}
use aptly_gui.Auth.Oidc.{
  Provider, Flow, exchange, metadata, http_get, accepted, advertised, http_post, token_of,
  claims_of, exchange_data, has_digit, holds, missing_endpoint, userinfo,
}
use aptly_gui.Web.Guard.{safe_next}
use aptly_gui.Web.Forms.{SetForm, blank_form, new_form, set_of_form, next_mirror_set_id}
use aptly_gui.Web.Forms.Split.{CleanLists, new_form-set_of_form}
use aptly_gui.Web.Sets.{set_named, new_set_submit, job_page, no_params}
use aptly_gui.Web.Sets.Added.{Unique, new_set_submit-adds}
use aptly_gui.Web.Provided.{
  SessionData, attempted, oidc_callback, callback_for, signed_in, identified, redirect_uri,
}
use aptly_gui.Web.Provided.Checked.{Checked, oidc_callback-Checked}
use aptly_gui.Web.SignIn.{provided, by_username, next_user_id, update_named}
use aptly_gui.Tests.Sample.{prompt_aptly, sample_set, sample_local, sample_margin, noon}

wait_for_task_ends_example :
    ((task : Task) × ((wait_for_task prompt_aptly 4 3 2 (some 5) tt).0 ≡ returned task)
      × Succeeded task)
    ⊎ ((e : Exc) × ((wait_for_task prompt_aptly 4 3 2 (some 5) tt).0 ≡ threw e))
wait_for_task_ends_example = wait_for_task_ends prompt_aptly 4 3 2 5 tt (omega arith) (omega arith)

abbrev noble : Preset
noble = record {
  id = codes "ubuntu-noble";
  label = codes "Ubuntu 24.04 LTS (noble)";
  note = [];
  name = codes "ubuntu-noble";
  archive_url = codes "http://archive.ubuntu.com/ubuntu";
  suites = codes "noble" ∷ codes "noble-updates" ∷ [];
  components = codes "main" ∷ [];
  keyrings = [];
  publish_prefix = codes "ubuntu";
  architectures = codes "amd64" ∷ [];
}

noble-CleanLists : CleanLists noble
unfolding strip strip_by rstrip_by lstrip_by is_space
noble-CleanLists = record {
  suites = (
    record { full = refl; trimmed = refl; plain = ground arith },
    (record { full = refl; trimmed = refl; plain = ground arith }, tt),
  );
  components = (record { full = refl; trimmed = refl; plain = ground arith }, tt);
  architectures = (record { full = refl; trimmed = refl; plain = ground arith }, tt);
  keyrings = tt;
}

new_form-set_of_form_example : set_of_form 4 false (new_form (some noble)) ≡ record {
  id = 4;
  name = noble.name;
  archive_url = noble.archive_url;
  suites = noble.suites;
  components = noble.components;
  architectures = noble.architectures;
  keyrings = noble.keyrings;
  filter = none;
  publish_prefix = noble.publish_prefix;
  publish_endpoint = none;
  public_url = none;
  mirror_pattern = default_pattern;
  signing_key = none;
  adopted = false;
}
new_form-set_of_form_example = new_form-set_of_form 4 false noble noble-CleanLists

abbrev noble_form : SetForm
noble_form = record blank_form { name = codes "noble"; suites = codes "noble,\n noble-updates" }

abbrev one_set : World Unit
one_set = record { outside = tt; own = sample_local create (sample_set ∷ []) }

new_set_submit-adds_example :
    let (r, t) = new_set_submit prompt_aptly sample_margin 60 1 (codes "ann") noble_form one_set in
    (r ≡ returned (job_page 8))
    × (get_mirror_set 2 one_set.own.live.mirror_sets ≡ none)
    × (get_mirror_set 2 t.own.live.mirror_sets ≡ some (set_of_form 2 false noble_form))
    × Unique t.own.live.mirror_sets
    × (get_job 8 t.own.live.jobs ≡ some (new_job 8 create (some 2) (codes "ann") no_params))
    × (t.own.queue ≡ 7 ∷ 8 ∷ [])
    × (t.own.durable ≡ t.own.live)
unfolding next_mirror_set_id next_job_id set_named same
new_set_submit-adds_example =
    new_set_submit-adds prompt_aptly sample_margin 60 1 2 (codes "ann") noble_form one_set
      (refl, tt) refl

-- A provider that answers every request with one object, and a configuration for it.
abbrev answer : Json
answer = obj (
    fields (
      (codes "authorization_endpoint", text (codes "https://id/auth"))
      ∷ (codes "token_endpoint", text (codes "https://id/token"))
      ∷ (codes "userinfo_endpoint", text (codes "https://id/me"))
      ∷ (codes "access_token", text (codes "t"))
      ∷ (codes "sub", text (codes "ann"))
      ∷ (codes "groups", text (codes "ops"))
      ∷ []))

abbrev replied : Reply
replied = response (record { status_code = 200; content = []; decoded = some answer })

abbrev agreeable : Provider
agreeable = record {
  State = Unit;
  fetch = λ url token w. (replied, tt);
  post = λ url form w. (replied, tt);
  urlencode = λ pairs. [];
  challenge_for = λ verifier. verifier;
  show = λ v. [];
}

abbrev config : OidcConfig
config = record {
  issuer = codes "https://id";
  client_id = codes "gui";
  client_secret = [];
  scopes = codes "openid";
  base_url = none;
  username_claim = codes "sub";
  groups_claim = codes "groups";
  admin_group = some (codes "ops");
  operator_group = none;
  default_role = codes "viewer";
}

abbrev visitor : SessionData
visitor = record {
  uid = none;
  csrf = some (codes "c");
  oidc_state = some (codes "s");
  oidc_verifier = some (codes "v");
  oidc_next = some (codes "/jobs");
}

abbrev before : Flow Unit
before = record { outside = tt; metadata = none }

came_back :
    (oidc_callback agreeable
      (some config)
      noon
      visitor
      (some (codes "code"))
      (some (codes "s"))
      []
      []
      before).0
    ≡ returned (attempted (provided noon (codes "ann") admin []) (codes "/jobs"))
unfolding oidc_callback callback_for aptly_gui.Web.Provided.state_matches csrf_matches
    aptly_gui.Auth.Identity.compare_digest same catch signed_in ◌>>=◌ identified exchange metadata
    http_get accepted advertised get fields http_post token_of group_items groups_of in_group
    role_from username_from claims_of exchange_data has_digit holds missing_endpoint userinfo gets
    lift modify pure raise get_field mem rstrip_by lstrip_by starts_with safe_next redirect_uri
    by_username next_user_id provided update_named
came_back = refl

oidc_callback-Checked_example :
    (c : OidcConfig) × ((t : Text) × (some config ≡ some c)
      × (some (codes "code") ≡ some t)
      × Checked agreeable noon visitor
          (some (codes "s"))
          []
          (provided noon (codes "ann") admin [])
          (codes "/jobs")
          before
          c
          t
          [])
oidc_callback-Checked_example =
    oidc_callback-Checked agreeable (some config) noon visitor (some (codes "code"))
      (some (codes "s")) [] [] (provided noon (codes "ann") admin []) (codes "/jobs") before
      came_back
