-- ===== src/Config/GroupMap/Tests.antt =====
-- The group mapping of internal/config/groupmap.go at a concrete file.
use bakery.Base.{◌≡◌, refl, true, none, some, [], ◌∷◌, codes, contains, ◌↔◌, eq_bytes}
use bakery.Slug.{check, matches, ends_alnum, is_reserved}
use bakery.Config.GroupMap.{
  OrgRole, member, owner, GroupMap, GroupsClaim, lookup, insert, resolution, validate,
  validate_orgs, validate_groups, grant_orgs, grant_groups, grant_group,
}
use bakery.Config.GroupMap.Validation.{IsWellFormed, validate_iff}

abbrev file : GroupMap
file = record {
  login_groups = codes "staff" ∷ [];
  site_admin_groups = codes "root" ∷ [];
  orgs =
      record {
        slug = codes "acme";
        groups = (codes "dev", member) ∷ (codes "lead", owner) ∷ (codes "ops", OrgRole.admin) ∷ [];
      }
      ∷ [];
}

abbrev claim : GroupsClaim
claim = record { groups = codes "ops" ∷ codes "dev" ∷ codes "staff" ∷ []; present = true }

abbrev file_valid : validate file ≡ none
file_valid =
    unfold validate validate_orgs validate_groups check matches ends_alnum is_reserved contains
      eq_bytes in
    refl

abbrev acme_role : lookup (codes "acme") (resolution file claim.groups).orgs ≡ some OrgRole.admin
acme_role =
    unfold resolution lookup insert grant_orgs grant_groups grant_group contains eq_bytes in refl

validate_iff_example : (validate file ≡ none) ↔ IsWellFormed file
validate_iff_example = validate_iff file
