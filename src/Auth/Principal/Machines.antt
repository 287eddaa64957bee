-- ===== src/Auth/Principal/Machines.antt =====
-- The capabilities of API keys, robots and personal access tokens.
use bakery.Base.{ℕ, ◌≡◌, true, false, ◌&&◌, ◌||◌, none, some, ◌==◌, is_some, arith}
use bakery.Auth.Principal.{
  Principal, ProjectRole, KeyGrant, RobotGrant, api_key, org_token, user_token, session, undeclared,
  is_write, writes, holds, lookup, is_interactive, is_site_admin, can_view_org, can_admin_org,
  can_own_org, can_read_project, can_write_project, can_admin_project, scope_within_role,
}

-- A credential that is not interactive administers nothing, whatever roles its owner holds.
pub machine_never_administers :
    (p : Principal) (org project : ℕ)
    → is_interactive p ≡ false
    → (is_site_admin p ≡ false)
      × (can_admin_org p org ≡ false)
      × (can_own_org p org ≡ false)
      × (can_admin_project p org project ≡ false)
unfolding is_site_admin can_admin_org can_own_org can_admin_project
machine_never_administers p org project h = (ground arith, ground arith, ground arith, ground arith)

-- An API key reads exactly its own project, writes there exactly with the write scope, and sees no
-- org: the roles on the principal change nothing. (The principal carries no robot grant.)
pub key_confined :
    (p : Principal) (g : KeyGrant) (org project : ℕ)
    → p.method ≡ api_key
    → p.robot ≡ none
    → p.key ≡ some g
    → (can_read_project p org project ≡ (g.project_id == project))
      × (can_write_project p org project ≡ (g.project_id == project && is_write g.scope))
      × (can_view_org p org ≡ false)
unfolding can_read_project can_write_project can_view_org
key_confined p g org project m r k = (ground arith, ground arith, ground arith)

-- A robot reads every project of its own org and of no other, and writes there exactly with the
-- write scope.
pub robot_confined :
    (p : Principal) (g : RobotGrant) (org project : ℕ)
    → p.method ≡ org_token
    → p.robot ≡ some g
    → (can_read_project p org project ≡ (g.org_id == org))
      × (can_write_project p org project ≡ (g.org_id == org && is_write g.scope))
      × (can_view_org p org ≡ false)
unfolding can_read_project can_write_project can_view_org
robot_confined p g org project m r = (ground arith, ground arith, ground arith)

-- A personal access token writes exactly where its owner holds a writing project role, if it was
-- minted with the write scope: an org role never lets it write. It reads by any org or project role.
pub user_token_confined :
    (p : Principal) (org project : ℕ)
    → p.method ≡ user_token
    → (can_write_project p org project
        ≡ (is_write p.max_scope && holds writes (lookup project p.projects)))
      × (can_read_project p org project
          ≡ (is_some (lookup org p.orgs) || is_some (lookup project p.projects)))
      × (can_view_org p org ≡ is_some (lookup org p.orgs))
unfolding can_read_project can_write_project can_view_org
user_token_confined p org project m = (ground arith, ground arith, ground arith)

-- Whatever a personal access token may do, its owner's session may do.
pub user_token_within_session :
    (p : Principal) (org project : ℕ)
    → p.method ≡ user_token
    → let owner = record p { method = session } in
      (can_view_org p org ≡ true → can_view_org owner org ≡ true)
      × (can_read_project p org project ≡ true → can_read_project owner org project ≡ true)
      × (can_write_project p org project ≡ true → can_write_project owner org project ≡ true)
unfolding can_read_project can_write_project can_view_org
user_token_within_session p org project m = (ground arith, ground arith, ground arith)

-- A key that was minted within its owner's project role lets its bearer do nothing that the
-- owner's session may not do.
pub key_within_role :
    (p k : Principal) (g : KeyGrant) (role : ProjectRole) (org project : ℕ)
    → p.method ≡ session
    → lookup g.project_id p.projects ≡ some role
    → scope_within_role g.scope role ≡ true
    → k.method ≡ api_key
    → k.robot ≡ none
    → k.key ≡ some g
    → (can_read_project k org project ≡ true → can_read_project p org project ≡ true)
      × (can_write_project k org project ≡ true → can_write_project p org project ≡ true)
unfolding can_read_project can_write_project scope_within_role
key_within_role p k g role org project m held within mk rk kk = (ground arith, ground arith)

-- A method with no constant grants nothing without a grant.
pub undeclared_refused :
    (p : Principal) (org project : ℕ)
    → p.method ≡ undeclared
    → p.robot ≡ none
    → p.key ≡ none
    → (can_read_project p org project ≡ false)
      × (can_write_project p org project ≡ false)
      × (can_view_org p org ≡ false)
      × (can_admin_project p org project ≡ false)
unfolding can_read_project can_write_project can_view_org can_admin_project
undeclared_refused p org project m r k = (ground arith, ground arith, ground arith, ground arith)
