-- ===== src/Auth/Reconcile.antt =====
-- internal/auth/reconcile.go: what a login writes to the memberships of its user. The statements are
-- those of internal/db/query/identity.sql, on the rows of one user in org_memberships.
pub mod Rows
pub mod Logins
mod Tests
use bakery.Base.{
  ℕ, Bool, true, false, not, ◌&&◌, ◌||◌, Option, none, some, List, [], ◌∷◌, Bytes, any, keep, ◌==◌,
  if◌then◌else◌, is_some,
}
use bakery.Config.GroupMap
use bakery.Auth.Principal.{OrgRole, member, owner}
use bakery.Config.GroupMap.{
  GroupMap, GroupsClaim, Resolution, LoginError, resolved, refused, resolve, lookup,
}

-- A row of org_memberships: the half that the claims own, and the half that is granted in-app.
pub record Row : Type 0 where
  pub org_id : ℕ
  pub oidc_role : Option OrgRole
  pub oidc_group : Option Bytes
  pub local_role : Option OrgRole

-- orgRole
unfoldable pub org_role : GroupMap.OrgRole → OrgRole
org_role GroupMap.owner = owner
org_role GroupMap.admin = OrgRole.admin
org_role GroupMap.member = member
org_role (GroupMap.unknown s) = member

-- ReconcileOrgMembershipUpsert. Its guard on a changed value saves a write that changes nothing.
unfoldable pub upsert : ℕ → OrgRole → Option Bytes → List Row → List Row
upsert org role group [] =
    record { org_id = org; oidc_role = some role; oidc_group = group; local_role = none } ∷ []
upsert org role group (r ∷ rs) =
    if r.org_id == org
    then record r { oidc_role = some role; oidc_group = group } ∷ rs
    else r ∷ upsert org role group rs

abbrev pub is_kept : List ℕ → ℕ → Bool
is_kept ids org = any (λ id. id == org) ids

-- ReconcileOrgMembershipsDelete
unfoldable pub delete_unjustified : List ℕ → List Row → List Row
delete_unjustified ids rows = keep (λ r. is_kept ids r.org_id || is_some r.local_role) rows

abbrev pub clear_row : List ℕ → Row → Row
clear_row ids r =
    if not (is_kept ids r.org_id) && is_some r.local_role
    then record r { oidc_role = none; oidc_group = none }
    else r

-- ReconcileOrgMembershipsClearOIDC
unfoldable pub clear_oidc : List ℕ → List Row → List Row
clear_oidc ids [] = []
clear_oidc ids (r ∷ rs) = clear_row ids r ∷ clear_oidc ids rs

-- pgtype.Text: the empty string and a missing key are NULL.
abbrev pub text : Option Bytes → Option Bytes
text none = none
text (some []) = none
text (some (c ∷ s)) = some (c ∷ s)

-- What the loop over res.Orgs leaves: the rows and `keep`.
pub record Upserted : Type 0 where
  pub rows : List Row
  pub ids : List ℕ

abbrev pub upsert_org : Option ℕ → OrgRole → Option Bytes → Upserted → Upserted
upsert_org none role group u = u
upsert_org (some org) role group u = record {
  rows = upsert org role group u.rows;
  ids = org ∷ u.ids;
}

-- The loop; `org_ids` is the map that ensureOrgs returns.
unfoldable pub upsert_orgs :
    (Bytes → Option ℕ)
    → List (Bytes × Bytes)
    → List (Bytes × GroupMap.OrgRole)
    → Upserted
    → Upserted
upsert_orgs org_ids groups [] u = u
upsert_orgs org_ids groups ((slug, role) ∷ orgs) u =
    upsert_orgs org_ids groups orgs
      (upsert_org (org_ids slug) (org_role role) (text (lookup slug groups)) u)

-- The transaction after UpsertUser.
unfoldable pub reconcile_rows : (Bytes → Option ℕ) → Resolution → List Row → List Row
reconcile_rows org_ids res rows =
    let u = upsert_orgs org_ids res.org_groups res.orgs (record { rows = rows; ids = [] }) in
    clear_oidc u.ids (delete_unjustified u.ids u.rows)

-- What a login ends in, no statement failing: ErrLoginNotAllowed, or the rows that it leaves.
pub data Login : Type 0 where
  not_allowed : LoginError → Login
  reconciled : List Row → Login

unfoldable pub reconcile : GroupMap → GroupsClaim → (Bytes → Option ℕ) → List Row → Login
reconcile g claim org_ids rows =
    if not claim.present then not_allowed GroupMap.groups_unreadable else elim (resolve g claim) [
      | refused e ↦ not_allowed e
      | resolved res ↦ reconciled (reconcile_rows org_ids res rows)
    ]
