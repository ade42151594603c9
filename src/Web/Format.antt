-- ===== src/Web/Format.antt =====
-- The filters of the templates in web/app.py that are exact on whole numbers: _age, _duration,
-- _job_type and _job_state. The texts are those before translation, and the sizes of _gib and _bytes,
-- which round floating-point numbers, are left out.
use aptly_gui.Prelude.{
  ℕ, ◌-◌, ◌*◌, ◌/◌, ◌%◌, Option, none, some, [], ◌∷◌, ◌++◌, ltb, ◌==◌, if◌then◌else◌,
}
use aptly_gui.Text.{Text, codes, decimal}
use aptly_gui.Dict.{Dict, lookup}
use aptly_gui.Aptly.Client.{Moment}

-- ngettext
abbrev plural : ℕ → Text → Text → Text
plural n one many = decimal n ++ (if n == 1 then one else many)

-- The age of whole seconds; `hours` is `int(hours)`, and its bound is that of the source.
unfoldable pub age_text : ℕ → Text
age_text seconds =
    if ltb seconds 90
    then codes "just now"
    else if ltb seconds (90 * 60)
    then decimal (seconds / 60) ++ codes " min ago"
    else if ltb seconds (48 * 3600)
    then plural (seconds / 3600) (codes " hour ago") (codes " hours ago")
    else plural (seconds / (24 * 3600)) (codes " day ago") (codes " days ago")

-- _age
unfoldable pub age : Moment → Option Moment → Text
unfolding age_text
age now none = codes "never"
age now (some then_) = age_text (now.epoch - then_.epoch)

-- The duration of whole seconds.
unfoldable pub duration_text : ℕ → Text
duration_text total =
    if ltb total 60
    then decimal total ++ codes " s"
    else if ltb total 3600
    then decimal (total / 60) ++ (codes " min " ++ (decimal (total % 60) ++ codes " s"))
    else decimal (total / 3600) ++ (codes " h " ++ (decimal (total % 3600 / 60) ++ codes " min"))

-- _duration, of a number of seconds that is not negative
unfoldable pub duration : Option ℕ → Text
unfolding duration_text
duration none = codes "0 s"
duration (some seconds) = duration_text seconds

abbrev or_same : Text → Option Text → Text
or_same value none = value
or_same value (some t) = t

abbrev pub job_types : Dict Text
job_types =
    (codes "create", codes "create mirrors")
    ∷ (codes "update", codes "sync and snapshot")
    ∷ (codes "switch", codes "publish")
    ∷ (codes "discard", codes "discard snapshots")
    ∷ (codes "remove", codes "delete mirrors")
    ∷ (codes "cleanup", codes "cleanup")
    ∷ []

-- _job_type
unfoldable pub job_type : Text → Text
job_type value = or_same value (lookup value job_types)

abbrev pub job_states : Dict Text
job_states =
    (codes "queued", codes "queued")
    ∷ (codes "running", codes "running")
    ∷ (codes "succeeded", codes "succeeded")
    ∷ (codes "failed", codes "failed")
    ∷ (codes "interrupted", codes "interrupted")
    ∷ (codes "pending", codes "pending")
    ∷ (codes "skipped", codes "skipped")
    ∷ (codes "viewer", codes "viewer")
    ∷ (codes "operator", codes "operator")
    ∷ (codes "admin", codes "administrator")
    ∷ []

-- _job_state
unfoldable pub job_state : Text → Text
job_state value = or_same value (lookup value job_states)
