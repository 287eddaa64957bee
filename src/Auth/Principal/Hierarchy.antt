-- ===== src/Auth/Principal/Hierarchy.antt =====
-- How the capabilities of internal/auth/principal.go relate.
use bakery.Base.{ℕ, ◌≡◌, true, arith}
use bakery.Auth.Principal.{
  Principal, can_view_org, can_admin_org, can_own_org, can_read_project, can_write_project,
  can_admin_project,
}

-- For every principal, org and project: owning an org implies administering it, that implies
-- seeing it and administering every project in it, that implies writing to the project, and
-- writing implies reading.
pub capabilities_nested :
    (p : Principal) (org project : ℕ)
    → (can_own_org p org ≡ true → can_admin_org p org ≡ true)
      × (can_admin_org p org ≡ true → can_view_org p org ≡ true)
      × (can_admin_org p org ≡ true → can_admin_project p org project ≡ true)
      × (can_admin_project p org project ≡ true → can_write_project p org project ≡ true)
      × (can_write_project p org project ≡ true → can_read_project p org project ≡ true)
unfolding can_view_org can_admin_org can_own_org can_read_project can_write_project
    can_admin_project
capabilities_nested p org project =
    (ground arith, ground arith, ground arith, ground arith, ground arith)
