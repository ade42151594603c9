-- ===== src/Json.antt =====
-- Decoded JSON, as httpx hands it over, and the accesses that the parsers make to it.
use aptly_gui.Prelude.{ℕ, Bool, Option, none, some, List, [], ◌∷◌, if◌then◌else◌}
use aptly_gui.Text.{Text, same}

-- Aptly's numbers are unsigned; a number with a fraction is kept as its literal.
mutual
  pub data Json : Type 0 where
    null : Json
    bool : Bool → Json
    num : ℕ → Json
    real : Text → Json
    text : Text → Json
    arr : Items → Json
    obj : Fields → Json

  pub data Items : Type 0 where
    nil : Items
    cons : Json → Items → Items

  pub data Fields : Type 0 where
    end : Fields
    field : Text → Json → Fields → Fields

-- [...] and {...} of the source
unfoldable pub items : List Json → Items
items [] = nil
items (x ∷ xs) = cons x (items xs)

unfoldable pub from_items : Items → List Json
from_items nil = []
from_items (cons x xs) = x ∷ from_items xs

unfoldable pub fields : List (Text × Json) → Fields
fields [] = end
fields ((k, v) ∷ rest) = field k v (fields rest)

abbrev pub texts : List Text → Json
texts xs = arr (items (go xs))
  where
    go : List Text → List Json
    go [] = []
    go (t ∷ ts) = text t ∷ go ts

unfoldable pub get_field : Text → Fields → Option Json
get_field key end = none
get_field key (field k v rest) =
    let later = get_field key rest in if same key k then some v else later

-- raw.get(key) of a dictionary
unfoldable pub get : Text → Json → Option Json
unfolding get_field
get key (obj fs) = get_field key fs
get key _ = none
