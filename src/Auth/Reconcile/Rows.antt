-- ===== src/Auth/Reconcile/Rows.antt =====
-- What each statement does to the row of an org.
use bakery.Base.{
  ℕ, ◌≡◌, refl, ◌||◌, Option, none, some, List, [], ◌∷◌, Bytes, ◌==◌, if◌then◌else◌, is_some, arith,
}
use bakery.Auth.Principal.{OrgRole}
use bakery.Auth.Reconcile.{Row, upsert, is_kept, delete_unjustified, clear_row, clear_oidc}

unfoldable pub row_of : ℕ → List Row → Option Row
row_of org [] = none
row_of org (r ∷ rs) = if r.org_id == org then some r else row_of org rs

-- The primary key of the table.
abbrev pub IsKeyed : List Row → Type 0
IsKeyed [] = Unit {0}
IsKeyed (r ∷ rs) = (row_of r.org_id rs ≡ none) × IsKeyed rs

abbrev pub local_of : Option Row → Option OrgRole
local_of none = none
local_of (some r) = r.local_role

abbrev pub granted : ℕ → OrgRole → Option Bytes → Option Row → Row
granted org role group old = record {
  org_id = org;
  oidc_role = some role;
  oidc_group = group;
  local_role = local_of old;
}

pub row_of-upsert :
    (org j : ℕ) (role : OrgRole) (group : Option Bytes) (rows : List Row)
    → row_of j (upsert org role group rows)
      ≡ (if org == j then some (granted org role group (row_of org rows)) else row_of j rows)
unfolding row_of upsert
row_of-upsert org j role group [] = ground arith
row_of-upsert org j role group (r ∷ rs) = ground (arith, row_of-upsert org j role group rs)

pub upsert-IsKeyed :
    (org : ℕ) (role : OrgRole) (group : Option Bytes) (rows : List Row)
    → IsKeyed rows
    → IsKeyed (upsert org role group rows)
unfolding upsert
upsert-IsKeyed org role group [] k = unfold row_of in (refl, tt)
upsert-IsKeyed org role group (r ∷ rs) k =
    ground (arith, row_of-upsert org r.org_id role group rs, upsert-IsKeyed org role group rs k.1)

-- The rows that the deletion leaves.
abbrev pub survivor : List ℕ → Option Row → Option Row
survivor ids none = none
survivor ids (some r) = if is_kept ids r.org_id || is_some r.local_role then some r else none

pub row_of-delete_unjustified :
    (ids : List ℕ) (j : ℕ) (rows : List Row)
    → IsKeyed rows
    → row_of j (delete_unjustified ids rows) ≡ survivor ids (row_of j rows)
unfolding row_of delete_unjustified
row_of-delete_unjustified ids j [] k = refl
row_of-delete_unjustified ids j (r ∷ rs) k = ground (arith, row_of-delete_unjustified ids j rs k.1)

abbrev pub cleared : List ℕ → Option Row → Option Row
cleared ids none = none
cleared ids (some r) = some (clear_row ids r)

pub row_of-clear_oidc :
    (ids : List ℕ) (j : ℕ) (rows : List Row)
    → row_of j (clear_oidc ids rows) ≡ cleared ids (row_of j rows)
unfolding row_of clear_oidc
row_of-clear_oidc ids j [] = refl
row_of-clear_oidc ids j (r ∷ rs) = ground (arith, row_of-clear_oidc ids j rs)

pub org_id-row_of : (j : ℕ) (rows : List Row) (r : Row) → row_of j rows ≡ some r → r.org_id ≡ j
unfolding row_of
org_id-row_of j [] r h = cc
org_id-row_of j (q ∷ rs) r h = ground (arith, org_id-row_of j rs r)
