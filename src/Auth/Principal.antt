-- ===== src/Auth/Principal.antt =====
-- internal/auth/principal.go: the capabilities of a verified principal. A pgtype.UUID is only
-- compared, and is a number here; a Go map is a list of pairs, looked up by key.
pub mod Hierarchy
pub mod Machines
mod Tests
use bakery.Base.{
  ℕ, Bool, true, false, not, ◌&&◌, ◌||◌, Option, none, some, List, [], ◌∷◌, Bytes, ◌==◌,
  if◌then◌else◌, is_some,
}

pub data SiteRole : Type 0 where
  user admin : SiteRole

pub data OrgRole : Type 0 where
  member admin owner : OrgRole

pub data ProjectRole : Type 0 where
  reader writer admin : ProjectRole

-- A Scope is a string: `unset` is its zero value.
pub data Scope : Type 0 where
  unset read write : Scope

-- A Method is a string: `undeclared` is any value with no constant.
pub data Method : Type 0 where
  session bearer api_key dev user_token org_token undeclared : Method

pub record KeyGrant : Type 0 where
  pub key_id : ℕ
  pub project_id : ℕ
  pub scope : Scope

pub record RobotGrant : Type 0 where
  pub robot_id : ℕ
  pub org_id : ℕ
  pub scope : Scope

pub record Principal : Type 0 where
  pub user_id : ℕ
  pub issuer : Bytes
  pub subject : Bytes
  pub email : Bytes
  pub display_name : Bytes
  pub method : Method
  pub site_role : SiteRole
  pub orgs : List (ℕ × OrgRole)
  pub projects : List (ℕ × ProjectRole)
  pub key : Option KeyGrant
  pub robot : Option RobotGrant
  pub max_scope : Scope

-- role, ok := m[id]
unfoldable pub lookup {ℓ} : {R : Type ℓ} → ℕ → List (ℕ × R) → Option R
lookup id [] = none
lookup id ((i, r) ∷ m) = if i == id then some r else lookup id m

abbrev pub is_write : Scope → Bool
is_write write = true
is_write _ = false

abbrev pub is_site_admin_role : SiteRole → Bool
is_site_admin_role SiteRole.admin = true
is_site_admin_role SiteRole.user = false

abbrev pub administers : OrgRole → Bool
administers OrgRole.member = false
administers OrgRole.admin = true
administers OrgRole.owner = true

abbrev pub owns : OrgRole → Bool
owns OrgRole.owner = true
owns _ = false

abbrev pub writes : ProjectRole → Bool
writes ProjectRole.reader = false
writes ProjectRole.writer = true
writes ProjectRole.admin = true

abbrev pub is_project_admin : ProjectRole → Bool
is_project_admin ProjectRole.admin = true
is_project_admin _ = false

-- ok && test(role)
abbrev pub holds {ℓ} : {R : Type ℓ} → (R → Bool) → Option R → Bool
holds test none = false
holds test (some r) = test r

human : Method → Bool
human session = true
human bearer = true
human dev = true
human _ = false

unfoldable pub is_interactive : Principal → Bool
unfolding human
is_interactive p = human p.method

acting : Method → Bool
acting session = true
acting bearer = true
acting dev = true
acting user_token = true
acting _ = false

unfoldable pub acts_as_user : Principal → Bool
unfolding acting
acts_as_user p = acting p.method

unfoldable pub is_site_admin : Principal → Bool
unfolding is_interactive
is_site_admin p = is_interactive p && is_site_admin_role p.site_role

unfoldable pub can_view_org : Principal → ℕ → Bool
unfolding acts_as_user is_site_admin
can_view_org p org =
    if not (acts_as_user p)
    then false
    else if is_site_admin p
    then true
    else is_some (lookup org p.orgs)

unfoldable pub can_admin_org : Principal → ℕ → Bool
unfolding is_interactive is_site_admin
can_admin_org p org =
    if not (is_interactive p)
    then false
    else if is_site_admin p
    then true
    else holds administers (lookup org p.orgs)

unfoldable pub can_own_org : Principal → ℕ → Bool
unfolding is_interactive is_site_admin
can_own_org p org =
    if not (is_interactive p)
    then false
    else if is_site_admin p
    then true
    else holds owns (lookup org p.orgs)

unfoldable pub robot_grants : Option RobotGrant → ℕ → Scope → Bool
robot_grants none org want = false
robot_grants (some g) org want =
    if not (g.org_id == org) then false else if is_write want then is_write g.scope else true

unfoldable pub key_grants : Option KeyGrant → ℕ → Scope → Bool
key_grants none project want = false
key_grants (some g) project want =
    if not (g.project_id == project)
    then false
    else if is_write want
    then is_write g.scope
    else true

unfoldable pub grants : Principal → ℕ → ℕ → Scope → Bool
unfolding robot_grants key_grants
grants p org project want =
    if is_some p.robot then robot_grants p.robot org want else key_grants p.key project want

unfoldable pub can_read_project : Principal → ℕ → ℕ → Bool
unfolding acts_as_user is_site_admin grants
can_read_project p org project =
    if not (acts_as_user p)
    then grants p org project read
    else if is_site_admin p
    then true
    else if is_some (lookup org p.orgs)
    then true
    else is_some (lookup project p.projects)

unfoldable pub can_write_project : Principal → ℕ → ℕ → Bool
unfolding acts_as_user is_interactive can_admin_org grants
can_write_project p org project =
    let by_role = holds writes (lookup project p.projects) in
    if not (acts_as_user p)
    then grants p org project write
    else if is_interactive p
    then (if can_admin_org p org then true else by_role)
    else if not (is_write p.max_scope)
    then false
    else by_role

unfoldable pub can_admin_project : Principal → ℕ → ℕ → Bool
unfolding is_interactive can_admin_org
can_admin_project p org project =
    if not (is_interactive p)
    then false
    else if can_admin_org p org
    then true
    else holds is_project_admin (lookup project p.projects)

unfoldable pub max_scope_for_role : ProjectRole → Scope
max_scope_for_role role = if writes role then write else read

abbrev is_read : Scope → Bool
is_read read = true
is_read _ = false

unfoldable pub scope_within_role : Scope → ProjectRole → Bool
unfolding max_scope_for_role
scope_within_role want role = is_read want || is_write (max_scope_for_role role)
