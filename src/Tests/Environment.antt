-- ===== src/Tests/Environment.antt =====
-- Environments, as the program reads them.
use aptly_gui.Prelude.{◌≡◌, refl, none, [], ◌∷◌, true}
use aptly_gui.Text.{Text, codes, strip, truthy}
use aptly_gui.Dict.{lookup}
use aptly_gui.Exec.{ok, raised, value_error}
use aptly_gui.Config.{ℤ, pos, negsuc, int, get_int, is_on, oidc_client}

padded : int (codes " +1_000 ") ≡ ok (pos 1000)
unfolding int strip
padded = refl

negative : int (codes "-5") ≡ ok (negsuc 4)
unfolding int strip
negative = refl

not_a_number :
    int (codes "1__0") ≡ raised (value_error (codes "invalid literal for int() with base 10"))
unfolding int strip
not_a_number = refl

switched_on : is_on (codes "Yes") ≡ true
unfolding is_on aptly_gui.Text.mem
switched_on = refl

no_client : oidc_client ((codes "APTLY_GUI_OIDC_ISSUER", codes "https://id/") ∷ []) ≡ none
unfolding oidc_client aptly_gui.Config.enabled aptly_gui.Config.oidc_from_env
    aptly_gui.Text.rstrip_by aptly_gui.Config.get_or lookup aptly_gui.Text.same
no_client = refl
