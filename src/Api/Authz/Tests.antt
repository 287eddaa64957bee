-- ===== src/Api/Authz/Tests.antt =====
-- The guard of internal/api/authz.go over a store with one org and one project.
use bakery.Base.{
  ◌≡◌, refl, true, false, ◌||◌, Option, none, some, [], ◌∷◌, Bytes, codes, eq_bytes, if◌then◌else◌,
}
use bakery.Auth.Principal.{
  Principal, OrgRole, ProjectRole, SiteRole, Scope, Method, api_key, session, can_view_org,
  can_read_project, lookup, is_site_admin, acts_as_user, is_interactive, can_admin_project,
  can_admin_org,
}
use bakery.Api.Authz
use bakery.Api.Authz.{
  Access, project_admin, org_view, known, Request, Verb, get, changing, Store, Query, row, no_rows,
  Call, scoped_call, ApiError, guard, guard_checked, guard_known, method_may_reach, require_json,
  is_json, needs_org, resolve, resolve_org, in_org, resolve_project, in_project,
}
use bakery.Api.Authz.Guard.{Allowed, Matches, capable, guard_authorizes}
use bakery.Api.Authz.Hiding.{hidden_org_is_absent}
use bakery.Api.Authz.Routes.{Route, mount, is_open, is_me, machine_reaches_me}

abbrev media_type : Bytes → Option Bytes
media_type ct = some ct

abbrev store : Store
store = record {
  get_organization_by_slug = λ s.
      if eq_bytes s (codes "acme")
      then row (record { id = 10; slug = codes "acme"; name = codes "Acme" })
      else no_rows;
  resolve_route = λ o p. if eq_bytes p (codes "os") then row 20 else no_rows;
}

abbrev empty_store : Store
empty_store = record { get_organization_by_slug = λ s. no_rows; resolve_route = λ o p. no_rows }

abbrev no_projects : Store
no_projects = record store { resolve_route = λ o p. no_rows }

abbrev person : Method → Principal
person m = record {
  user_id = 1;
  issuer = [];
  subject = [];
  email = [];
  display_name = [];
  method = m;
  site_role = SiteRole.user;
  orgs = (10, OrgRole.member) ∷ [];
  projects = (20, ProjectRole.admin) ∷ [];
  key = none;
  robot = none;
  max_scope = Scope.unset;
}

abbrev stranger : Principal
stranger = record (person session) { orgs = []; projects = [] }

abbrev request : Request
request = record {
  verb = changing (codes "PATCH");
  content_type = codes "application/json";
  is_empty_body = false;
  org = codes "acme";
  project = codes "os";
}

abbrev scope : Authz.Scope
scope = record {
  org_id = 10;
  org_slug = codes "acme";
  org_name = codes "Acme";
  project_id = 20;
  project_slug = codes "os";
}

abbrev handler : Call → Option ApiError
handler c = none

patched :
    (guard media_type store project_admin request handler (known (person session))).called
    ≡ some (scoped_call (person session) scope)
unfolding guard guard_checked guard_known method_may_reach require_json is_json needs_org resolve
    resolve_org in_org resolve_project in_project eq_bytes can_view_org can_read_project
    can_admin_project can_admin_org lookup is_site_admin is_interactive acts_as_user
patched = refl

guard_authorizes_example :
    (known (person session) ≡ known (person session))
    × (method_may_reach session project_admin ≡ true)
    × Allowed media_type request
    × (capable project_admin (person session) scope ≡ true)
    × (needs_org project_admin ≡ true → Matches store project_admin (person session) request scope)
guard_authorizes_example =
    guard_authorizes media_type store project_admin request handler (known (person session))
      (person session) scope patched

hidden_org_is_absent_example :
    guard media_type store org_view request handler (known stranger)
    ≡ guard media_type empty_store org_view request handler (known stranger)
hidden_org_is_absent_example =
    hidden_org_is_absent media_type org_view request handler stranger store empty_store
      (record { id = 10; slug = codes "acme"; name = codes "Acme" }) (unfold eq_bytes in refl)
      (unfold can_view_org lookup is_site_admin is_interactive acts_as_user in refl) refl

abbrev me : Route
me = record { access = Access.authenticated; verb = codes "GET"; path = codes "/me" }

abbrev whoami : Request
whoami = record { verb = get; content_type = []; is_empty_body = true; org = []; project = [] }

me_reached :
    (m : Method)
    → method_may_reach m Access.authenticated ≡ true
    → (guard media_type store me.access whoami handler (known (person m))).called
      ≡ some (scoped_call (person m) Authz.zero_scope)
unfolding guard guard_checked guard_known require_json resolve needs_org
me_reached m h = rw h refl

machine_reaches_me_example : (is_open me.access || is_me me) ≡ true
machine_reaches_me_example =
    machine_reaches_me media_type store false 4 me whoami handler (person api_key)
      (scoped_call (person api_key) Authz.zero_scope) (unfold mount in refl) refl
      (me_reached api_key (unfold method_may_reach in refl))
