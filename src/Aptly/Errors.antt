-- ===== src/Aptly/Errors.antt =====
-- src/aptly_gui/aptly/errors.py: a sentence of advice for aptly's barest failures.
-- A pattern of the source is an alternation of literals joined by `.*`, searched without case; the
-- literals stand here in lower case.
pub mod Advice
use aptly_gui.Prelude.{
  ℕ, ◌+◌, Bool, true, false, ◌&&◌, ◌||◌, not, Option, none, some, List, [], ◌∷◌, ◌++◌, map, leb,
  ◌==◌, if◌then◌else◌, length, drop,
}
use aptly_gui.Text.{Text, codes, starts_with}

-- What `re.I` compares: ASCII letters, and the four others that it matches with one of them.
unfoldable pub fold : ℕ → ℕ
fold c =
    if leb 65 c && leb c 90
    then c + 32
    else if c == 0x17f
    then b's'
    else if c == 0x212a
    then b'k'
    else if c == 0x130 || c == 0x131
    then b'i'
    else c

-- `.*piece.*piece` from here on: `.` passes anything but a line's end.
unfoldable pub later_pieces : List Text → Text → Bool
unfolding starts_with
later_pieces [] s = true
later_pieces (p ∷ ps) [] = starts_with [] p && later_pieces ps []
later_pieces (p ∷ ps) (c ∷ s) =
    (starts_with (c ∷ s) p && later_pieces ps (drop (length p) (c ∷ s)))
    || (not (c == 10) && later_pieces (p ∷ ps) s)

-- One alternative, from here: its first piece stands here.
unfoldable pub pieces_here : List Text → Text → Bool
unfolding later_pieces
pieces_here [] s = true
pieces_here (p ∷ ps) s = starts_with s p && later_pieces ps (drop (length p) s)

any_here : List (List Text) → Text → Bool
unfolding pieces_here
any_here [] s = false
any_here (alternative ∷ rest) s = pieces_here alternative s || any_here rest s

-- pattern.search(message), of a folded message
unfoldable pub search_from : List (List Text) → Text → Bool
unfolding any_here
search_from alternatives [] = any_here alternatives []
search_from alternatives (c ∷ s) = any_here alternatives (c ∷ s) || search_from alternatives s

abbrev pub wrong_keyring : Text
wrong_keyring =
    codes "The keyring does not contain the key that signed the upstream "
    ++ (codes "Release. Check the path exists on the aptly host and holds the right "
        ++ (codes "archive keyring — mirroring Ubuntu from a Debian host needs the "
            ++ (codes "ubuntu-keyring package, and per-release keyrings often do not verify.")))

abbrev pub missing_keyring : Text
missing_keyring =
    codes "That keyring file does not exist on the aptly host. The path is read "
    ++ (codes "by aptly, not by this service, so it has to exist there.")

abbrev pub no_such_suite : Text
no_such_suite =
    codes "The upstream archive has no such suite. Check the suite name and that "
    ++ (codes "the release still exists — security suites in particular live on a "
        ++ (codes "separate host."))

abbrev pub cross_device : Text
cross_device =
    codes "The publish endpoint is on a different filesystem from aptly's pool, "
    ++ (codes "so it cannot hardlink. Put them on one filesystem, or set the "
        ++ (codes "endpoint's linkMethod to copy and expect it to use the space twice."))

abbrev pub too_slow : Text
too_slow =
    codes "aptly did not answer in time. Creating a mirror makes aptly fetch and "
    ++ (codes "verify the upstream Release, which can take a minute against a slow "
        ++ (codes "archive; raise APTLY_GUI_CREATE_TIMEOUT if this keeps happening."))

abbrev pub Explanation : Type 0
Explanation = List (List Text) × Text

unfoldable pub explanations : List Explanation
explanations =
    ((codes "verification of detached signature failed" ∷ []) ∷ [], wrong_keyring)
    ∷ (
      (codes "no such file or directory" ∷ codes "keyring" ∷ [])
          ∷ (codes "keyring" ∷ codes "no such file" ∷ [])
          ∷ [],
      missing_keyring,
    )
    ∷ (
      (codes "unable to fetch mirror" ∷ codes "404" ∷ []) ∷ (codes "http 404" ∷ []) ∷ [],
      no_such_suite,
    )
    ∷ ((codes "invalid cross-device link" ∷ []) ∷ [], cross_device)
    ∷ (
      (codes "readtimeout" ∷ []) ∷ (codes "connecttimeout" ∷ []) ∷ (codes "timed out" ∷ []) ∷ [],
      too_slow,
    )
    ∷ []

unfoldable pub first_match : List Explanation → Text → Option Text
unfolding search_from
first_match [] folded = none
first_match ((alternatives, explanation) ∷ rest) folded =
    let later = first_match rest folded in
    if search_from alternatives folded then some explanation else later

unfoldable pub explain : Text → Option Text
unfolding first_match fold explanations
explain message = first_match explanations (map fold message)

explained : Text → Option Text → Text
explained message none = message
explained message (some explanation) = message ++ (10 ∷ 10 ∷ explanation)

unfoldable pub with_explanation : Text → Text
unfolding explained
with_explanation message = explained message (explain message)
