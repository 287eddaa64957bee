-- ===== src/Auth/Tokens/Holders.antt =====
-- What the principal of each kind of token is, and what it may do (internal/auth).
use bakery.Base.{ℕ, ◌≡◌, refl, false, ◌&&◌, none, some, [], ◌==◌}
use bakery.Auth.Principal.{
  Principal, KeyGrant, RobotGrant, SiteRole, Scope, api_key, user_token, org_token, is_write,
  can_read_project, can_write_project, can_view_org,
}
use bakery.Auth.Principal.Machines.{key_confined, robot_confined}
use bakery.Auth.Tokens.{ApiKey, OrgToken, Authz, key_principal, robot_principal, authz_principal}

-- The holder of an API key: its user with no role, the one project and the scope.
pub record KeyHolder (p : Principal) (user id project : ℕ) (scope : Scope) : Type 0 where
  pub as_user : p.user_id ≡ user
  pub by_method : p.method ≡ api_key
  pub site_role : p.site_role ≡ SiteRole.user
  pub no_orgs : p.orgs ≡ []
  pub no_projects : p.projects ≡ []
  pub no_robot : p.robot ≡ none
  pub ceiling : p.max_scope ≡ scope
  pub grant : p.key ≡ some (record { key_id = id; project_id = project; scope = scope })
  pub reads : (o q : ℕ) → can_read_project p o q ≡ (project == q)
  pub writes : (o q : ℕ) → can_write_project p o q ≡ (project == q && is_write scope)
  pub views : (o : ℕ) → can_view_org p o ≡ false

-- The holder of a robot token: no user and no role, the org and the scope.
pub record RobotHolder (p : Principal) (robot org : ℕ) (scope : Scope) : Type 0 where
  pub no_user : p.user_id ≡ 0
  pub by_method : p.method ≡ org_token
  pub site_role : p.site_role ≡ SiteRole.user
  pub no_orgs : p.orgs ≡ []
  pub no_projects : p.projects ≡ []
  pub no_key : p.key ≡ none
  pub ceiling : p.max_scope ≡ scope
  pub grant : p.robot ≡ some (record { robot_id = robot; org_id = org; scope = scope })
  pub reads : (o q : ℕ) → can_read_project p o q ≡ (org == o)
  pub writes : (o q : ℕ) → can_write_project p o q ≡ (org == o && is_write scope)
  pub views : (o : ℕ) → can_view_org p o ≡ false

-- The holder of a user token: the user's roles as they are loaded, under the scope.
pub record UserHolder (p : Principal) (authz : Authz) (max_scope : Scope) : Type 0 where
  pub as_user : p.user_id ≡ authz.user_id
  pub by_method : p.method ≡ user_token
  pub site_role : p.site_role ≡ authz.site_role
  pub orgs : p.orgs ≡ authz.orgs
  pub projects : p.projects ≡ authz.projects
  pub no_key : p.key ≡ none
  pub no_robot : p.robot ≡ none
  pub ceiling : p.max_scope ≡ max_scope

pub key_principal-KeyHolder :
    (r : ApiKey) → KeyHolder (key_principal r) r.user_id r.id r.project_id r.scope
key_principal-KeyHolder r =
    let g : KeyGrant = record { key_id = r.id; project_id = r.project_id; scope = r.scope } in
    let may = λ (o q : ℕ). key_confined (key_principal r) g o q refl refl refl in
    record {
      as_user = refl;
      by_method = refl;
      site_role = refl;
      no_orgs = refl;
      no_projects = refl;
      no_robot = refl;
      ceiling = refl;
      grant = refl;
      reads = λ o q. (may o q).0;
      writes = λ o q. (may o q).1;
      views = λ o. (may o 0).2;
    }

pub robot_principal-RobotHolder :
    (r : OrgToken) → RobotHolder (robot_principal r) r.robot_id r.org_id r.scope
robot_principal-RobotHolder r =
    let g : RobotGrant = record { robot_id = r.robot_id; org_id = r.org_id; scope = r.scope } in
    let may = λ (o q : ℕ). robot_confined (robot_principal r) g o q refl refl in
    record {
      no_user = refl;
      by_method = refl;
      site_role = refl;
      no_orgs = refl;
      no_projects = refl;
      no_key = refl;
      ceiling = refl;
      grant = refl;
      reads = λ o q. (may o q).0;
      writes = λ o q. (may o q).1;
      views = λ o. (may o 0).2;
    }

pub authz_principal-UserHolder :
    (a : Authz) (scope : Scope) → UserHolder (authz_principal a user_token scope none) a scope
authz_principal-UserHolder a scope = record {
  as_user = refl;
  by_method = refl;
  site_role = refl;
  orgs = refl;
  projects = refl;
  no_key = refl;
  no_robot = refl;
  ceiling = refl;
}
