-- ===== src/Aptly/Client/Bodies.antt =====
-- The requests that the methods of AptlyClient build, with their bodies.
use aptly_gui.Prelude.{ℕ, Bool, Option, none, some, List, [], ◌∷◌, ◌++◌, if◌then◌else◌}
use aptly_gui.Text.{Text, codes}
use aptly_gui.Json.{Json, text, arr, obj, items, fields, texts}
use aptly_gui.Aptly.Models.{MirrorSpec, Signing}
use aptly_gui.Aptly.Models.Payloads.{spec_payload, signing_payload}
use aptly_gui.Aptly.Client.{Method, get_method, post, put, delete, Request}
use aptly_gui.Aptly.Client.Prefix.{encode_prefix}

-- The requests, apart from what answers them.
abbrev pub get_request : Text → Request
get_request path = record {
  method = get_method;
  path = path;
  params = [];
  body = none;
  timeout = none;
}

abbrev pub is_async : List (Text × Text)
is_async = (codes "_async", codes "1") ∷ []

abbrev pub async_request : Method → Text → Option Json → Request
async_request method path body = record {
  method = method;
  path = path;
  params = is_async;
  body = body;
  timeout = none;
}

abbrev pub forced : Bool → List (Text × Text)
forced force = if force then (codes "force", codes "1") ∷ [] else []

abbrev pub mirror_path : Text → Text
mirror_path name = codes "/api/mirrors/" ++ name

abbrev pub publish_path : Text → Text
publish_path prefix = codes "/api/publish/" ++ encode_prefix prefix

unfoldable pub create_mirror_request : ℕ → MirrorSpec → Request
create_mirror_request create_timeout spec = record {
  method = post;
  path = codes "/api/mirrors";
  params = [];
  body = some (spec_payload spec);
  timeout = some create_timeout;
}

unfoldable pub update_mirror_request : MirrorSpec → Request
update_mirror_request spec = async_request put (mirror_path spec.name) (some (spec_payload spec))

unfoldable pub create_snapshot_request : Text → Text → Text → Request
unfolding fields
create_snapshot_request mirror name description = record {
  method = post;
  path = mirror_path mirror ++ codes "/snapshots";
  params = [];
  body =
      some
        (obj (fields ((codes "Name", text name) ∷ (codes "Description", text description) ∷ [])));
  timeout = none;
}

unfoldable pub source_list : List (Text × Text) → List Json
unfolding fields
source_list [] = []
source_list ((c, n) ∷ rest) =
    obj (fields ((codes "Component", text c) ∷ (codes "Name", text n) ∷ [])) ∷ source_list rest

unfoldable pub publish_request : Text → Text → List (Text × Text) → List Text → Signing → Request
unfolding fields items source_list
publish_request prefix distribution sources architectures signing =
    async_request post (publish_path prefix) (
      some (
        obj (
          fields (
            (codes "SourceKind", text (codes "snapshot"))
            ∷ (codes "Sources", arr (items (source_list sources)))
            ∷ (codes "Distribution", text distribution)
            ∷ (codes "Architectures", texts architectures)
            ∷ (codes "Signing", signing_payload signing)
            ∷ []))))

unfoldable pub switch_request : Text → Text → List (Text × Text) → Signing → Request
unfolding fields items source_list
switch_request prefix distribution sources signing =
    async_request put (publish_path prefix ++ (codes "/" ++ distribution)) (
      some (
        obj (
          fields (
            (codes "Snapshots", arr (items (source_list sources)))
            ∷ (codes "Signing", signing_payload signing)
            ∷ []))))

unfoldable pub delete_request : Text → Bool → Bool → Request
delete_request path wants_task force = record {
  method = delete;
  path = path;
  params = (if wants_task then is_async else []) ++ forced force;
  body = none;
  timeout = none;
}

unfoldable pub packages_request : Text → Request
packages_request name = record {
  method = get_method;
  path = mirror_path name ++ codes "/packages";
  params = (codes "format", codes "details") ∷ [];
  body = none;
  timeout = none;
}
