-- ===== src/Aptly/Models/Payloads.antt =====
-- The bodies that go to aptly: MirrorSpec.payload and Signing.payload of
-- src/aptly_gui/aptly/models.py.
use aptly_gui.Prelude.{true, Option, none, some, List, [], ◌∷◌, ◌++◌, if◌then◌else◌}
use aptly_gui.Text.{Text, codes, truthy}
use aptly_gui.Json.{Json, bool, text, obj, fields, texts}
use aptly_gui.Aptly.Models.{MirrorSpec, Signing}

-- `if value: body[key] = value`
unfoldable pub when_set : Text → Option Text → List (Text × Json)
when_set key none = []
when_set key (some value) = if truthy value then (key, text value) ∷ [] else []

unfoldable pub spec_payload : MirrorSpec → Json
unfolding when_set fields
spec_payload spec = obj (
    fields (
      ((codes "Name", text spec.name)
        ∷ (codes "ArchiveURL", text spec.archive_url)
        ∷ (codes "Distribution", text spec.distribution)
        ∷ (codes "Components", texts spec.components)
        ∷ (codes "Architectures", texts spec.architectures)
        ∷ (codes "Keyrings", texts spec.keyrings)
        ∷ (codes "FilterWithDeps", bool spec.filter_with_deps)
        ∷ (codes "DownloadSources", bool spec.download_sources)
        ∷ (codes "DownloadUdebs", bool spec.download_udebs)
        ∷ (codes "IgnoreSignatures", bool spec.ignore_signatures)
        ∷ [])
      ++ when_set (codes "Filter") spec.filter))

unfoldable pub signing_payload : Signing → Json
unfolding when_set fields
signing_payload signing =
    if signing.skip
    then obj (fields ((codes "Skip", bool true) ∷ []))
    else obj (
        fields (
          ((codes "Batch", bool true) ∷ [])
          ++ (when_set (codes "GpgKey") signing.gpg_key
              ++ (when_set (codes "Keyring") signing.keyring
                  ++ when_set (codes "Passphrase") signing.passphrase))))
