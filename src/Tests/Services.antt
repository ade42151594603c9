-- ===== src/Tests/Services.antt =====
-- The theorems on the pure services, applied to concrete data, and runs of their functions.
use mathlib.Core.List.{Perm}
use aptly_gui.Prelude.{
  ◌+◌, ◌*◌, ◌/◌, ◌≤◌, ◌≡◌, refl, inl, ◌++◌, ◌↔◌, true, none, some, List, [], ◌∷◌, All,
}
use aptly_gui.Text.{truthy, Text, codes, starts_with, mem, same}
use aptly_gui.Aptly.Errors.{fold, wrong_keyring, with_explanation}
use aptly_gui.Jobs.Reconcile.{reconciled}
use aptly_gui.Jobs.Reconcile.Complete.{Has, reconciled-complete_iff}
use aptly_gui.Aptly.Errors.Advice.{OneOf, with_explanation-advises}
use aptly_gui.Json.{null}
use aptly_gui.Exec.{ok}
use aptly_gui.Aptly.Models.{Storage, Mirror}
use aptly_gui.Aptly.Client.Prefix.{encode_prefix}
use aptly_gui.Db.Migrate.{Schema, detect_revision}
use aptly_gui.Services.Adoption.{propose_sets}
use aptly_gui.Services.Adoption.Accounted.{
  count, proposed, mirror_names, unmanaged, propose_sets-accounts,
}
use aptly_gui.Services.Space.{Margin, check, shortfall_mb, gib}
use aptly_gui.Services.Space.Laws.{check-ok_iff, shortfall_exact}
use aptly_gui.Services.Naming.{
  Pattern, set_suite_component, mirror_name, Split, split_mirror_name, suite_component,
}
use aptly_gui.Services.Naming.RoundTrip.{
  mirror_name-split_mirror_name, split_mirror_name-mirror_name,
}
use aptly_gui.Jobs.Plan.{order_suites}
use aptly_gui.Jobs.Plan.Order.{Sorted, order_suites-Sorted}
use aptly_gui.Jobs.Checks.{problems_of}
use aptly_gui.Jobs.Checks.Problems.{Publishes, problems_of-none_iff}
use aptly_gui.Tests.Sample.{sample_set, sample_snapshots}
use aptly_gui.Db.Models.{complete, expected_mirrors, names_of_suites}

abbrev disk : Storage
disk = record { total_mb = 10000; free_mb = 4000; percent_full = null }

abbrev margin : Margin
margin = record { gigabytes = 2; percent = 30 }

check-ok_iff_example :
    ((check disk margin (some 900)).ok ≡ true
      ↔ (2 * gib + 900 ≤ 4000) × (10000 * 30 / 100 + 900 ≤ 4000))
    × ((check disk margin (some 900)).ok ≡ true ↔ shortfall_mb (check disk margin (some 900)) ≡ 0)
check-ok_iff_example = check-ok_iff disk margin (some 900)

shortfall_exact_example :
    (check (record disk { free_mb = 4000 + 300 }) margin (some 1200)).ok ≡ true
    ↔ shortfall_mb (check disk margin (some 1200)) ≤ 300
shortfall_exact_example = shortfall_exact disk margin (some 1200) 300

encoded : encode_prefix (codes "/a_b/c/") ≡ codes "a__b_c"
unfolding encode_prefix
encoded = refl

abbrev failed_signature : Text
failed_signature = codes "gpgv: Verification of DETACHED signature failed!"

with_explanation-advises_example :
    (advice : Text) × OneOf advice (wrong_keyring ∷ [])
    × (with_explanation failed_signature ≡ failed_signature ++ (10 ∷ 10 ∷ advice))
unfolding fold
with_explanation-advises_example =
    with_explanation-advises (codes "verification of detached signature failed")
      (wrong_keyring ∷ []) failed_signature (codes "gpgv: ") (codes "!") (inl refl) refl

abbrev mirror : Mirror
mirror = record {
  name = codes "my-deb-bookworm-updates-main";
  archive_url = [];
  distribution = codes "bookworm-updates";
  components = codes "main" ∷ [];
  architectures = [];
  filter = none;
  last_download = none;
}

abbrev parts : Split
parts = record {
  set_name = codes "my-deb";
  suite = codes "bookworm-updates";
  component = codes "main";
  pattern = set_suite_component;
}

mirror_name-split_mirror_name_example :
    (mirror_name set_suite_component (codes "my-deb") (codes "bookworm-updates") (codes "main")
      ≡ mirror.name)
    × ((parts.suite ≡ mirror.distribution) × (mirror.components ≡ parts.component ∷ []))
unfolding split_mirror_name aptly_gui.Services.Naming.split_single aptly_gui.Text.ends_with
    aptly_gui.Text.drop_end
mirror_name-split_mirror_name_example = mirror_name-split_mirror_name mirror none parts refl

split_mirror_name-mirror_name_example :
    split_mirror_name mirror (some (codes "my-deb")) ≡ some parts
unfolding mirror_name
split_mirror_name-mirror_name_example =
    split_mirror_name-mirror_name mirror set_suite_component (codes "my-deb") (codes "main") refl
      refl refl

abbrev suites : List Text
suites = codes "b-security" ∷ codes "b-updates" ∷ codes "b" ∷ []

order_suites-Sorted_example : Perm (order_suites suites) suites × Sorted (order_suites suites)
order_suites-Sorted_example = order_suites-Sorted suites

ordered : order_suites suites ≡ codes "b" ∷ codes "b-updates" ∷ codes "b-security" ∷ []
unfolding order_suites aptly_gui.Jobs.Plan.suite_leb aptly_gui.Jobs.Plan.rank
    aptly_gui.Text.ends_with
ordered = refl

problems_of-none_iff_example :
    (problems_of sample_set [] [] (codes "bookworm" ∷ []) ≡ ok [])
    ↔ All (Publishes sample_set [] []) (codes "bookworm" ∷ [])
problems_of-none_iff_example = problems_of-none_iff sample_set [] [] (codes "bookworm" ∷ [])

abbrev old_schema : Schema
old_schema = (codes "mirror_sets", []) ∷ (codes "job_steps", codes "total_bytes" ∷ []) ∷ []

detected : detect_revision old_schema ≡ some (codes "1d98f4a90784")
unfolding detect_revision aptly_gui.Db.Migrate.reached aptly_gui.Dict.lookup aptly_gui.Text.same
    aptly_gui.Text.mem
detected = refl

abbrev others : List Mirror
others = mirror ∷ record mirror { name = codes "spare" } ∷ record mirror { name = codes "own" } ∷ []

propose_sets-accounts_example :
    count (λ name. truthy name) (proposed (propose_sets (codes "own" ∷ []) others []).0)
      + count (λ name. truthy name) (mirror_names (propose_sets (codes "own" ∷ []) others []).1)
    ≡ count (λ name. truthy name) (unmanaged (codes "own" ∷ []) others)
propose_sets-accounts_example =
    propose_sets-accounts (λ name. truthy name) (codes "own" ∷ []) others []

reconciled-complete_iff_example :
    ((reconciled (codes "snap" ∷ []) sample_set sample_snapshots).state ≡ complete)
    ↔ All (Has (codes "snap" ∷ []) sample_snapshots.snapshots) (expected_mirrors sample_set)
unfolding mem same expected_mirrors names_of_suites aptly_gui.Db.Models.names_of_suite mirror_name
    aptly_gui.Db.Models.mirror_name
reconciled-complete_iff_example =
    reconciled-complete_iff (codes "snap" ∷ []) sample_set sample_snapshots (refl, tt) (refl, tt)
      (refl, tt)
