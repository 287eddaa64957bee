-- ===== src/Config/GroupMap/Validation.antt =====
-- Which mapping files are accepted at boot.
use bakery.Base.{
  ℕ, suc, ◌≡◌, ◌≢◌, ◌↔◌, refl, true, false, Option, none, List, [], ◌∷◌, Bytes, contains,
  eq_bytes_iff, arith, All,
}
use bakery.Slug
use bakery.Slug.{valid, Verdict, accepted, invalid_slug, reserved_slug}
use bakery.Slug.Laws.{check-valid}
use bakery.Config.GroupMap.{
  OrgRole, is_known, GroupMapOrg, GroupMap, MapError, validate_groups, validate_orgs, validate,
  is_empty, or_slug,
}

-- A group with a name, and one of the three roles.
abbrev pub IsGrant : Bytes × OrgRole → Type 0
IsGrant (group, role) = (group ≢ []) × (is_known role ≡ true)

-- An org of the file, after the slugs `seen`: a valid slug that is new, and a table that is not empty.
abbrev pub IsOrg : List Bytes → GroupMapOrg → Type 0
IsOrg seen org =
    (valid org.slug ≡ true)
    × (contains org.slug seen ≡ false)
    × (is_empty org.groups ≡ false)
    × All IsGrant org.groups

abbrev pub AreOrgs : List Bytes → List GroupMapOrg → Type 0
AreOrgs seen [] = Unit {0}
AreOrgs seen (org ∷ rest) = IsOrg seen org × AreOrgs (org.slug ∷ seen) rest

pub record IsWellFormed (g : GroupMap) : Type 0 where
  pub orgs : AreOrgs [] g.orgs
  pub site_admin_groups : contains [] g.site_admin_groups ≡ false
  pub login_groups : contains [] g.login_groups ≡ false

validate_groups_iff :
    (i : ℕ) (gs : List (Bytes × OrgRole)) → (validate_groups i gs ≡ none) ↔ All IsGrant gs
unfolding validate_groups
validate_groups_iff i [] = (λ h. tt, λ a. refl)
validate_groups_iff i ((group, role) ∷ gs) =
    ground (arith, validate_groups_iff i gs, eq_bytes_iff group [])

or_slug_iff :
    (i : ℕ) (v : Verdict) (next : Option MapError)
    → (or_slug i v next ≡ none) ↔ ((v ≡ accepted) × (next ≡ none))
or_slug_iff i accepted next = ground arith
or_slug_iff i invalid_slug next = ground arith
or_slug_iff i reserved_slug next = ground arith

validate_orgs_iff :
    (i : ℕ) (seen : List Bytes) (orgs : List GroupMapOrg)
    → (validate_orgs i seen orgs ≡ none) ↔ AreOrgs seen orgs
unfolding validate_orgs
validate_orgs_iff i seen [] = (λ h. tt, λ a. refl)
validate_orgs_iff i seen (org ∷ rest) = ground (
  arith,
  check-valid org.slug,
  or_slug_iff i (Slug.check org.slug) _,
  validate_groups_iff i org.groups,
  validate_orgs_iff (suc i) (org.slug ∷ seen) rest,
)

-- A mapping file is accepted exactly when its org slugs are valid and distinct, every org maps at
-- least one group, every group is named and has one of the three roles, and neither the site admin
-- groups nor the login groups hold an empty name.
pub validate_iff : (g : GroupMap) → (validate g ≡ none) ↔ IsWellFormed g
unfolding validate
validate_iff g = ground (arith, validate_orgs_iff 0 [] g.orgs)
