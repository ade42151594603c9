-- ===== src/Services/Presets.antt =====
-- src/aptly_gui/services/presets.py: starting points for a new mirror set.
use aptly_gui.Prelude.{Option, none, some, List, [], ◌∷◌, ◌++◌, if◌then◌else◌}
use aptly_gui.Text.{Text, codes, same, truthy, join}

abbrev pub ubuntu_keyring : Text
ubuntu_keyring = codes "/usr/share/keyrings/ubuntu-archive-keyring.gpg"

abbrev pub debian_keyring : Text
debian_keyring = codes "/usr/share/keyrings/debian-archive-keyring.gpg"

abbrev pub ubuntu_components : List Text
ubuntu_components = codes "main" ∷ codes "restricted" ∷ codes "universe" ∷ codes "multiverse" ∷ []

abbrev pub debian_components : List Text
debian_components =
    codes "main" ∷ codes "contrib" ∷ codes "non-free" ∷ codes "non-free-firmware" ∷ []

pub record Preset : Type 0 where
  pub id : Text
  pub label : Text
  pub note : Text
  pub name : Text
  pub archive_url : Text
  pub suites : List Text
  pub components : List Text
  pub keyrings : List Text
  pub publish_prefix : Text
  pub architectures : List Text

-- The architectures that `__post_init__` fills in.
abbrev pub default_architectures : List Text
default_architectures = codes "amd64" ∷ []

-- The keys of Preset.as_form; a form has other fields too.
pub record PresetForm : Type 0 where
  pub name : Text
  pub archive_url : Text
  pub suites : Text
  pub components : Text
  pub architectures : Text
  pub keyrings : Text
  pub publish_prefix : Text
  pub signing_key : Text
  pub filter : Text

abbrev pub listed : List Text → Text
listed parts = join (codes ", ") parts

-- Preset.as_form
unfoldable pub as_form : Preset → PresetForm
as_form p = record {
  name = p.name;
  archive_url = p.archive_url;
  suites = listed p.suites;
  components = listed p.components;
  architectures = listed p.architectures;
  keyrings = listed p.keyrings;
  publish_prefix = p.publish_prefix;
  signing_key = [];
  filter = [];
}

abbrev label_of : Text → Text → Text → Text
label_of system version code = system ++ (version ++ (codes " (" ++ (code ++ codes ")")))

unfoldable pub ubuntu : Text → Text → Preset
ubuntu code version = record {
  id = codes "ubuntu-" ++ code;
  label = label_of (codes "Ubuntu ") version code;
  note = [];
  name = codes "ubuntu-" ++ code;
  archive_url = codes "http://archive.ubuntu.com/ubuntu";
  suites =
      code
      ∷ (code ++ codes "-updates")
      ∷ (code ++ codes "-security")
      ∷ (code ++ codes "-backports")
      ∷ [];
  components = ubuntu_components;
  keyrings = ubuntu_keyring ∷ [];
  publish_prefix = codes "ubuntu";
  architectures = default_architectures;
}

unfoldable pub debian : Text → Text → Preset
debian code version = record {
  id = codes "debian-" ++ code;
  label = label_of (codes "Debian ") version code;
  note = codes "security";
  name = codes "debian-" ++ code;
  archive_url = codes "http://deb.debian.org/debian";
  suites = code ∷ (code ++ codes "-updates") ∷ (code ++ codes "-backports") ∷ [];
  components = debian_components;
  keyrings = debian_keyring ∷ [];
  publish_prefix = codes "debian";
  architectures = default_architectures;
}

unfoldable pub debian_security : Text → Text → Preset
debian_security code version = record {
  id = codes "debian-" ++ (code ++ codes "-security");
  label = label_of (codes "Debian ") (version ++ codes " security") (code ++ codes "-security");
  note = [];
  name = codes "debian-" ++ (code ++ codes "-security");
  archive_url = codes "http://security.debian.org/debian-security";
  suites = (code ++ codes "-security") ∷ [];
  components = debian_components;
  keyrings = debian_keyring ∷ [];
  publish_prefix = codes "debian-security";
  architectures = default_architectures;
}

unfoldable pub presets : List Preset
unfolding ubuntu debian debian_security
presets =
    ubuntu (codes "resolute") (codes "26.04 LTS")
    ∷ ubuntu (codes "noble") (codes "24.04 LTS")
    ∷ ubuntu (codes "jammy") (codes "22.04 LTS")
    ∷ ubuntu (codes "focal") (codes "20.04 LTS")
    ∷ debian (codes "trixie") (codes "13")
    ∷ debian_security (codes "trixie") (codes "13")
    ∷ debian (codes "bookworm") (codes "12")
    ∷ debian_security (codes "bookworm") (codes "12")
    ∷ []

-- BY_ID.get; a later preset of the same id would replace an earlier one
unfoldable pub find_preset : Text → List Preset → Option Preset
find_preset id [] = none
find_preset id (p ∷ ps) =
    let later = find_preset id ps in
    elim later [ some q ↦ some q | none ↦ if same p.id id then some p else none ]

-- get_preset
unfoldable pub get_preset : Option Text → Option Preset
unfolding find_preset presets
get_preset none = none
get_preset (some id) = if truthy id then find_preset id presets else none
