-- ===== src/Services/Verify.antt =====
-- src/aptly_gui/services/verify.py: what a client of the published tree gets.
use aptly_gui.Prelude.{ℕ, Bool, false, ◌&&◌, Option, none, some, ◌++◌, ◌==◌, if◌then◌else◌, take}
use aptly_gui.Text.{Text, codes, contains, rstrip_by, truthy, decimal}
use aptly_gui.Exec.{Exec, returned}
use aptly_gui.Aptly.Client.{Outside, Reply, response, timed_out, transport_error}

abbrev signed_marker : Text
signed_marker = codes "-----BEGIN PGP SIGNED MESSAGE-----"

pub record ClientCheck : Type 0 where
  pub url : Text
  pub status : Option ℕ
  pub signed : Bool
  pub error : Option Text

abbrev is_200 : Option ℕ → Bool
is_200 none = false
is_200 (some status) = status == 200

-- ClientCheck.ok
unfoldable pub is_ok : ClientCheck → Bool
is_ok c = is_200 c.status && c.signed

abbrev status_text : Option ℕ → Text
status_text none = codes "None"
status_text (some status) = decimal status

outcome_text : ClientCheck → Text
outcome_text c =
    if is_200 c.status
    then (if c.signed then codes "signed and reachable" else codes "fetched but not signed")
    else codes "HTTP " ++ status_text c.status

error_or : Option Text → Text → Text
error_or none other = other
error_or (some error) other = if truthy error then error else other

-- ClientCheck.describe
unfoldable pub describe : ClientCheck → Text
unfolding outcome_text error_or
describe c = c.url ++ (codes ": " ++ error_or c.error (outcome_text c))

unfoldable pub release_url : Text → Text → Text
release_url public_url distribution =
    rstrip_by (λ c. c == b'/') public_url
    ++ (codes "/dists/" ++ (distribution ++ codes "/InRelease"))

-- `str(exc) or type(exc).__name__`
abbrev message_or : Text → Text → Text
message_or message name = if truthy message then message else name

unfoldable pub read_release : Text → Reply → ClientCheck
read_release url (response r) = record {
  url = url;
  status = some r.status_code;
  signed = contains (take 2048 r.content) signed_marker;
  error = none;
}
read_release url (timed_out name message) = record {
  url = url;
  status = none;
  signed = false;
  error = some (message_or message name);
}
read_release url (transport_error name message) = record {
  url = url;
  status = none;
  signed = false;
  error = some (message_or message name);
}

unfoldable pub check_release : (o : Outside) → Text → Text → Exec o.State ClientCheck
unfolding read_release release_url
check_release o public_url distribution w =
    let url = release_url public_url distribution in
    let (reply, w') = o.fetch url w in (returned (read_release url reply), w')
