-- ===== src/Auth/Policy.antt =====
-- src/aptly_gui/auth/policy.py: the least role that may make a request.
use aptly_gui.Prelude.{
  ◌++◌, ap, ◌∙◌, ◌⊎◌, inl, inr, ◌↔◌, arith, All, or-cases, or-left, or-right, ◌≡◌, refl, Bool, true,
  false, ◌||◌, List, [], ◌∷◌, if◌then◌else◌,
}
use aptly_gui.Text.{Text, codes, mem, same, starts_with, starts_with_any}
use aptly_gui.Text.Laws.{starts_with→append, starts_with-append}
use aptly_gui.Db.Models.{UserRole, viewer, operator, admin, role_can}

abbrev public_prefixes : List Text
public_prefixes =
    codes "/static" ∷ codes "/login" ∷ codes "/logout" ∷ codes "/auth/" ∷ codes "/setup" ∷ []

abbrev public_exact : List Text
public_exact = codes "/healthz" ∷ []

abbrev admin_prefixes : List Text
admin_prefixes = codes "/settings" ∷ codes "/users" ∷ []

abbrev operator_prefixes : List Text
operator_prefixes = codes "/sets" ∷ codes "/snapshots" ∷ []

unfoldable pub is_public : Text → Bool
is_public path = mem path public_exact || starts_with_any path public_prefixes

-- method in ("GET", "HEAD", "OPTIONS")
unfoldable pub is_read : Text → Bool
is_read method = mem method (codes "GET" ∷ codes "HEAD" ∷ codes "OPTIONS" ∷ [])

unfoldable pub required_role : Text → Text → UserRole
required_role method path =
    if starts_with_any path admin_prefixes
    then admin
    else if is_read method
    then viewer
    else if starts_with_any path operator_prefixes
    then operator
    else admin

abbrev pub may : UserRole → Text → Text → Bool
may role method path = role_can role (required_role method path)

-- The path starts with `dir`.
abbrev pub Under : Text → Text → Type 0
Under dir path = (rest : Text) × (path ≡ dir ++ rest)

either-Under :
    (path d e : Text) → (starts_with_any path (d ∷ e ∷ []) ≡ true) ↔ (Under d path ⊎ Under e path)
unfolding starts_with_any
either-Under path d e = (forth, back)
  where
    forth : starts_with_any path (d ∷ e ∷ []) ≡ true → Under d path ⊎ Under e path
    forth h = elim (or-cases (starts_with path d) (starts_with path e || false) h) [
      | inl k ↦ inl (_, starts_with→append path d k)
      | inr k ↦ inr (_, starts_with→append path e (ground (arith, k)))
    ]

    back : Under d path ⊎ Under e path → starts_with_any path (d ∷ e ∷ []) ≡ true
    back (inl (rest, k)) = or-left _ _ (ap (λ t. starts_with t d) k ∙ starts_with-append d rest)
    back (inr (rest, k)) =
        or-right (starts_with path d) _
          (or-left _ _ (ap (λ t. starts_with t e) k ∙ starts_with-append e rest))

not_for_admins :
    (path : Text)
    → starts_with_any path operator_prefixes ≡ true
    → starts_with_any path admin_prefixes ≡ false
unfolding starts_with_any starts_with
not_for_admins path h = elim ((either-Under path (codes "/sets") (codes "/snapshots")).0 h) [
  | inl (rest, k) ↦ ap (λ t. starts_with_any t admin_prefixes) k
  | inr (rest, k) ↦ ap (λ t. starts_with_any t admin_prefixes) k
]

reading :
    (a : Bool)
    → let needed = if a then admin else viewer in
      ((role_can viewer needed ≡ false) ↔ (a ≡ true))
      × ((role_can operator needed ≡ false) ↔ (a ≡ true))
unfolding role_can
reading true = ((λ h. refl, λ h. refl), (λ h. refl, λ h. refl))
reading false = ((λ h. cc, λ h. cc), (λ h. cc, λ h. cc))

writing :
    (a c : Bool)
    → (c ≡ true → a ≡ false)
    → let needed = if a then admin else if c then operator else admin in
      (role_can viewer needed ≡ false) × ((role_can operator needed ≡ true) ↔ (c ≡ true))
unfolding role_can
writing true true k = absurd (ground (arith, k refl))
writing true false k = (refl, (λ h. cc, λ h. cc))
writing false true k = (refl, (λ h. refl, λ h. refl))
writing false false k = (refl, (λ h. cc, λ h. cc))

through : {A B C : Type 0} → A ↔ B → B ↔ C → A ↔ C
through f g = (λ a. g.0 (f.0 a), λ c. f.1 (g.1 c))

-- A read is refused to a viewer and to an operator under /settings and /users alone.
abbrev pub ReadRule : Text → Text → Type 0
ReadRule path method =
    ((may viewer method path ≡ false)
      ↔ (Under (codes "/settings") path ⊎ Under (codes "/users") path))
    × ((may operator method path ≡ false)
        ↔ (Under (codes "/settings") path ⊎ Under (codes "/users") path))

-- A write is refused to a viewer, and to an operator but under /sets and /snapshots.
abbrev pub WriteRule : Text → Text → Type 0
WriteRule path method =
    (may viewer method path ≡ false)
    × ((may operator method path ≡ true)
        ↔ (Under (codes "/sets") path ⊎ Under (codes "/snapshots") path))

module _ (path : Text) where
  for_read :
      (method : Text)
      → required_role method path ≡ (if starts_with_any path admin_prefixes then admin else viewer)
      → ReadRule path method
  for_read method e =
      let (v, w) = reading (starts_with_any path admin_prefixes) in
      let under = either-Under path (codes "/settings") (codes "/users") in
      (rw e (through v under), rw e (through w under))

  for_write :
      (method : Text)
      → required_role method path ≡ (
          if starts_with_any path admin_prefixes
          then admin
          else if starts_with_any path operator_prefixes
          then operator
          else admin)
      → WriteRule path method
  for_write method e =
      let (v, w) =
        writing (starts_with_any path admin_prefixes) (starts_with_any path operator_prefixes)
          (not_for_admins path) in
      (rw e v, rw e (through w (either-Under path (codes "/sets") (codes "/snapshots"))))

admin_may : (needed : UserRole) → role_can admin needed ≡ true
unfolding role_can
admin_may viewer = refl
admin_may operator = refl
admin_may admin = refl

-- A viewer and an operator may make a GET, a HEAD or an OPTIONS of every path that does not start with
-- "/settings" or "/users", and of no other; of a POST, a PUT, a PATCH and a DELETE a viewer may make
-- none, and an operator those of a path that starts with "/sets" or "/snapshots"; an administrator may
-- make every request.
pub required_role_least :
    (method path : Text)
    → All (ReadRule path) (codes "GET" ∷ codes "HEAD" ∷ codes "OPTIONS" ∷ [])
      × All (WriteRule path) (codes "POST" ∷ codes "PUT" ∷ codes "PATCH" ∷ codes "DELETE" ∷ [])
      × (may admin method path ≡ true)
unfolding required_role is_read mem same
required_role_least method path = (
  (
    for_read path (codes "GET") refl,
    (for_read path (codes "HEAD") refl, (for_read path (codes "OPTIONS") refl, tt)),
  ),
  (
    for_write path (codes "POST") refl,
    (
      for_write path (codes "PUT") refl,
      (for_write path (codes "PATCH") refl, (for_write path (codes "DELETE") refl, tt)),
    ),
  ),
  admin_may (required_role method path),
)
