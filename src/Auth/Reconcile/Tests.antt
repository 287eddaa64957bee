-- ===== src/Auth/Reconcile/Tests.antt =====
-- A login of internal/auth/reconcile.go at concrete memberships.
use bakery.Base.{
  ℕ, ◌≡◌, refl, true, Option, none, some, List, [], ◌∷◌, Bytes, codes, eq_bytes, contains,
  if◌then◌else◌,
}
use bakery.Config.GroupMap
use bakery.Config.GroupMap.{
  GroupMap, GroupsClaim, Resolution, resolve, resolution, lookup, insert, grant_orgs, grant_groups,
  grant_group, any_claimed, first_claimed,
}
use bakery.Auth.Principal.{OrgRole, member, owner}
use bakery.Auth.Reconcile.{
  Row, reconcile, reconciled, reconcile_rows, upsert_orgs, upsert, org_role, delete_unjustified,
  clear_oidc,
}
use bakery.Auth.Reconcile.Rows.{row_of, IsKeyed}
use bakery.Auth.Reconcile.Logins.{claims, after_login, row_of-reconcile_rows}

abbrev file : GroupMap
file = record {
  login_groups = [];
  site_admin_groups = [];
  orgs =
      record { slug = codes "acme"; groups = (codes "dev", GroupMap.member) ∷ [] }
      ∷ record { slug = codes "omni"; groups = (codes "ops", GroupMap.owner) ∷ [] }
      ∷ [];
}

abbrev claim : GroupsClaim
claim = record { groups = codes "dev" ∷ []; present = true }

abbrev org_ids : Bytes → Option ℕ
org_ids slug = if eq_bytes slug (codes "acme") then some 1 else some 2

abbrev row : ℕ → Option OrgRole → Option OrgRole → Row
row org oidc local = record {
  org_id = org;
  oidc_role = oidc;
  oidc_group = none;
  local_role = local;
}

-- A membership that the claims drop and a local grant holds, and one that nothing holds any more.
abbrev rows : List Row
rows = row 2 (some owner) (some member) ∷ row 3 (some member) none ∷ []

abbrev rows_IsKeyed : IsKeyed rows
rows_IsKeyed = unfold row_of in (refl, (refl, tt))

abbrev left : List Row
left =
    row 2 none (some member)
    ∷ record {
      org_id = 1;
      oidc_role = some member;
      oidc_group = some (codes "dev");
      local_role = none;
    }
    ∷ []

abbrev login : reconcile file claim org_ids rows ≡ reconciled left
login =
    unfold reconcile resolve resolution lookup insert grant_orgs grant_groups grant_group
      first_claimed reconcile_rows upsert_orgs upsert org_role delete_unjustified clear_oidc
      contains eq_bytes in
    refl

row_of-reconcile_rows_example :
    row_of 3 (reconcile_rows org_ids (resolution file claim.groups) rows)
    ≡ after_login 3
        (claims org_ids
          (resolution file claim.groups).org_groups
          3
          (resolution file claim.groups).orgs
          none)
        (row_of 3 rows)
row_of-reconcile_rows_example =
    row_of-reconcile_rows org_ids (resolution file claim.groups) rows 3 rows_IsKeyed
