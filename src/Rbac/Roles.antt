-- ===== src/Rbac/Roles.antt =====
-- How the roles of services/admin/rbac.py stand to one another, over the whole table.
use text.Mathlib.Text.{◌==◌ as str_eq}
use text.Mathlib.TextEquality.{eq_iff}
use igame.Common.{
  ◌≡◌, refl, ap, sym, ◌∙◌, Bool, true, not, ◌&&◌, ◌||◌, some, String, List, [], ◌∷◌, arith,
  Bool-cases, Option-cases, inl, inr,
}
use igame.Common.Result.{ok, ok-injective}
use igame.Rbac.{ValueError, is_in, known_admin_roles, permissions, allowed_roles, has_permission}

-- A test that all rows of a table of permissions pass.
unfoldable all_rows : (List String → Bool) → List (String × List String) → Bool
all_rows test [] = true
all_rows test ((p, roles) ∷ rest) = test roles && all_rows test rest

all_rows_sound :
    (test : List String → Bool) (p : String) (table : List (String × List String))
    (roles : List String)
    → all_rows test table ≡ true
    → allowed_roles p table ≡ some roles
    → test roles ≡ true
unfolding all_rows allowed_roles
all_rows_sound test p [] roles h e = cc
all_rows_sound test p ((q, r) ∷ rest) roles h e = ground (arith, all_rows_sound test p rest roles)

unfoldable all_known : List String → Bool
all_known [] = true
all_known (r ∷ rs) = is_in r known_admin_roles && all_known rs

all_known_sound :
    (role : String) (roles : List String)
    → all_known roles ≡ true
    → is_in role roles ≡ true
    → is_in role known_admin_roles ≡ true
unfolding all_known is_in
all_known_sound role [] h m = cc
all_known_sound role (r ∷ rs) h m = elim (Bool-cases (str_eq r role)) [
  | inl e ↦
      let same : r ≡ role = (eq_iff r role).0 e in
      ap (λ (x : String). is_in x known_admin_roles) (sym same) ∙ r_known h
  | inr e ↦ all_known_sound role rs (ground arith) (ground arith)
]
  where
    r_known : all_known (r ∷ rs) ≡ true → is_in r known_admin_roles ≡ true
    r_known k = ground arith

has_permission-row :
    (role permission : String)
    → has_permission role permission ≡ ok true
    → (roles : List String) × (allowed_roles permission permissions ≡ some roles)
      × (is_in role roles ≡ true)
unfolding has_permission
has_permission-row role permission h = elim (Option-cases (allowed_roles permission permissions)) [
  | inl e ↦ absurd (ground arith)
  | inr (roles, e) ↦ (
    roles,
    e,
    ok-injective {E = ValueError} (sym (has_permission-of role permission roles e) ∙ h),
  )
]
  where
    has_permission-of :
        (role permission : String) (roles : List String)
        → allowed_roles permission permissions ≡ some roles
        → has_permission role permission ≡ ok (is_in role roles)
    has_permission-of role permission roles e = rw (has_permission, e) refl

of-row :
    (role permission : String) (roles : List String)
    → allowed_roles permission permissions ≡ some roles
    → is_in role roles ≡ true
    → has_permission role permission ≡ ok true
unfolding has_permission
of-row role permission roles e m = rw (has_permission, e, m) refl

table_known : all_rows all_known permissions ≡ true
unfolding all_rows all_known is_in
table_known = refl

table_superadmin : all_rows (is_in "superadmin") permissions ≡ true
unfolding all_rows is_in
table_superadmin = refl

unfoldable support_shares : List String → Bool
support_shares roles = not (is_in "support" roles) || (is_in "finance" roles && is_in "ops" roles)

table_shares : all_rows support_shares permissions ≡ true
unfolding all_rows is_in support_shares
table_shares = refl

-- A role that holds a permission is one of the four of the database's own constraint.
pub has_permission-IsKnown :
    (role permission : String)
    → has_permission role permission ≡ ok true
    → is_in role known_admin_roles ≡ true
has_permission-IsKnown role permission h =
    let (roles, e, m) = has_permission-row role permission h in
    all_known_sound role roles (all_rows_sound all_known permission permissions roles table_known e)
      m

-- What any role may do, a superadmin may do as well.
pub superadmin-holds :
    (role permission : String)
    → has_permission role permission ≡ ok true
    → has_permission "superadmin" permission ≡ ok true
superadmin-holds role permission h =
    let (roles, e, m) = has_permission-row role permission h in
    of-row "superadmin" permission roles e
      (all_rows_sound (is_in "superadmin") permission permissions roles table_superadmin e)

-- What support may do, finance and ops may do as well.
pub support-shares :
    (permission : String)
    → has_permission "support" permission ≡ ok true
    → (has_permission "finance" permission ≡ ok true) × (has_permission "ops" permission ≡ ok true)
unfolding support_shares
support-shares permission h =
    let (roles, e, m) = has_permission-row "support" permission h in
    let shared = all_rows_sound support_shares permission permissions roles table_shares e in
    (
      of-row "finance" permission roles e (ground (arith, m, shared)),
      of-row "ops" permission roles e (ground (arith, m, shared)),
    )
