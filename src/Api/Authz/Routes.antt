-- ===== src/Api/Authz/Routes.antt =====
-- The table of routes of internal/api/api.go.
use bakery.Base.{
  ℕ, ◌≡◌, refl, Bool, true, false, not, ◌&&◌, ◌||◌, Option, some, List, [], ◌∷◌, ◌++◌, Bytes,
  String, codes, eq_bytes, starts_with, all, get_elem?, zero, suc, if◌then◌else◌, arith,
}
use bakery.Auth.Principal.{
  Principal, Method, session, bearer, dev, api_key, org_token, user_token, undeclared, can_view_org,
  can_read_project,
}
use bakery.Api.Authz.{
  Access, public, authenticated, user_scoped, user, site_admin, org_view, org_admin, org_owner,
  project_read, project_credential, project_admin, needs_org, Caller, known, ApiError, Scope, Store,
  Request, Call, scoped_call, method_may_reach, guard, guard_checked, guard_known, row,
}
use bakery.Api.Authz.Guard.{capable, guard_authorizes}

-- routeSpec, its pattern in two parts, without the prefix of the API
pub record Route : Type 0 where
  pub access : Access
  pub verb : Bytes
  pub path : Bytes

abbrev route : Access → String → String → Route
route access verb path = record { access = access; verb = codes verb; path = codes path }

-- The routes that `mount` registers, in its order; `dev_login` is DevLoginEnabled.
unfoldable pub mount : Bool → List Route
mount dev_login =
    (route public "GET" "/auth/config"
      ∷ route public "GET" "/auth/login"
      ∷ route public "GET" "/auth/callback"
      ∷ route public "POST" "/auth/logout"
      ∷ [])
    ++ (if dev_login then route public "POST" "/auth/dev-login" ∷ [] else [])
    ++ (route authenticated "GET" "/me"
        ∷ route user "GET" "/user/tokens"
        ∷ route user "POST" "/user/tokens"
        ∷ route user "DELETE" "/user/tokens/{token}"
        ∷ route site_admin "GET" "/site-admins"
        ∷ route site_admin "PUT" "/site-admins/{user}"
        ∷ route site_admin "DELETE" "/site-admins/{user}"
        ∷ route user_scoped "GET" "/orgs"
        ∷ route user "POST" "/orgs"
        ∷ route org_view "GET" "/orgs/{org}"
        ∷ route org_admin "PATCH" "/orgs/{org}"
        ∷ route org_owner "DELETE" "/orgs/{org}"
        ∷ route org_view "GET" "/orgs/{org}/members"
        ∷ route org_admin "PUT" "/orgs/{org}/members/{user}"
        ∷ route org_admin "DELETE" "/orgs/{org}/members/{user}"
        ∷ route org_admin "GET" "/orgs/{org}/robots"
        ∷ route org_admin "POST" "/orgs/{org}/robots"
        ∷ route org_admin "DELETE" "/orgs/{org}/robots/{robot}"
        ∷ route org_admin "POST" "/orgs/{org}/robots/{robot}/tokens"
        ∷ route org_admin "DELETE" "/orgs/{org}/robots/{robot}/tokens/{token}"
        ∷ route org_view "GET" "/orgs/{org}/projects"
        ∷ route org_admin "POST" "/orgs/{org}/projects"
        ∷ route project_read "GET" "/orgs/{org}/projects/{project}"
        ∷ route project_admin "PATCH" "/orgs/{org}/projects/{project}"
        ∷ route org_admin "DELETE" "/orgs/{org}/projects/{project}"
        ∷ route project_read "GET" "/orgs/{org}/projects/{project}/members"
        ∷ route project_admin "PUT" "/orgs/{org}/projects/{project}/members/{user}"
        ∷ route project_admin "DELETE" "/orgs/{org}/projects/{project}/members/{user}"
        ∷ route project_read "GET" "/orgs/{org}/projects/{project}/keys"
        ∷ route project_credential "POST" "/orgs/{org}/projects/{project}/keys"
        ∷ route project_credential "DELETE" "/orgs/{org}/projects/{project}/keys/{key}"
        ∷ route project_credential "POST" "/orgs/{org}/projects/{project}/snippet"
        ∷ route project_read "GET" "/orgs/{org}/projects/{project}/backends"
        ∷ route project_admin "POST" "/orgs/{org}/projects/{project}/backends"
        ∷ route project_read "GET" "/orgs/{org}/projects/{project}/backends/{kind}"
        ∷ route project_admin "PATCH" "/orgs/{org}/projects/{project}/backends/{kind}"
        ∷ route project_admin "DELETE" "/orgs/{org}/projects/{project}/backends/{kind}"
        ∷ route site_admin "GET" "/gc/runs"
        ∷ route site_admin "GET" "/gc/runs/{id}"
        ∷ route site_admin "POST" "/gc/run"
        ∷ route org_view "GET" "/orgs/{org}/gc/activity"
        ∷ route org_view "GET" "/orgs/{org}/usage"
        ∷ route project_read "GET" "/orgs/{org}/projects/{project}/usage"
        ∷ route project_read "POST" "/orgs/{org}/projects/{project}/usage/measure"
        ∷ route project_read "GET" "/orgs/{org}/projects/{project}/backends/{kind}/objects"
        ∷ route site_admin "GET" "/instance"
        ∷ [])

all-get_elem? :
    (test : Route → Bool) (rts : List Route) (i : ℕ) (rt : Route)
    → all test rts ≡ true
    → get_elem? rts i ≡ some rt
    → test rt ≡ true
all-get_elem? test [] i rt h e = absurd (cc)
all-get_elem? test (x ∷ rts) zero rt h e = ground arith
all-get_elem? test (x ∷ rts) (suc i) rt h e = all-get_elem? test rts i rt (ground arith) e

abbrev pub is_me : Route → Bool
is_me rt = eq_bytes rt.verb (codes "GET") && eq_bytes rt.path (codes "/me")

abbrev pub is_open : Access → Bool
is_open public = true
is_open _ = false

abbrev pub is_machine : Method → Bool
is_machine api_key = true
is_machine org_token = true
is_machine undeclared = true
is_machine _ = false

abbrev pub measures : Route → Bool
measures rt =
    eq_bytes rt.verb (codes "POST")
    && eq_bytes rt.path (codes "/orgs/{org}/projects/{project}/usage/measure")

abbrev pub in_a_project : Route → Bool
in_a_project rt = starts_with (codes "/orgs/{org}/projects/{project}") rt.path

guard_reach :
    (media_type : Bytes → Option Bytes) (st : Store) (access : Access) (r : Request)
    (handler : Call → Option ApiError) (p : Principal) (c : Call)
    → (guard media_type st access r handler (known p)).called ≡ some c
    → (is_open access || method_may_reach p.method access) ≡ true
unfolding guard guard_checked guard_known
guard_reach media_type st access r handler p c h = ground arith

machines_reach :
    (dev_login : Bool) (m : Method)
    → is_machine m ≡ true
    → all
        (λ rt.
          not (is_open rt.access || method_may_reach m rt.access)
          || (is_open rt.access || is_me rt))
        (mount dev_login)
      ≡ true
unfolding mount method_may_reach eq_bytes
machines_reach true api_key h = refl
machines_reach false api_key h = refl
machines_reach true org_token h = refl
machines_reach false org_token h = refl
machines_reach true undeclared h = refl
machines_reach false undeclared h = refl
machines_reach dev_login session h = absurd (cc)
machines_reach dev_login bearer h = absurd (cc)
machines_reach dev_login dev h = absurd (cc)
machines_reach dev_login user_token h = absurd (cc)

tokens_reach :
    (dev_login : Bool)
    → all
        (λ rt.
          not (is_open rt.access || method_may_reach user_token rt.access)
          || (is_open rt.access || eq_bytes rt.verb (codes "GET") || measures rt))
        (mount dev_login)
      ≡ true
unfolding mount method_may_reach eq_bytes
tokens_reach true = refl
tokens_reach false = refl

project_routes :
    (dev_login : Bool)
    → all (λ rt. not (in_a_project rt) || needs_org rt.access) (mount dev_login) ≡ true
unfolding mount needs_org starts_with
project_routes true = refl
project_routes false = refl

capable-view :
    (access : Access) (p : Principal) (s : Scope)
    → needs_org access ≡ true
    → capable access p s ≡ true
    → can_view_org p s.org_id ≡ true
unfolding needs_org
capable-view access p s n c = ground arith

-- With an API key, a robot's token, or a credential of a kind with no constant, a request to a
-- registered route reaches its handler only if the route is public or is GET /me.
pub machine_reaches_me :
    (media_type : Bytes → Option Bytes) (st : Store) (dev_login : Bool) (i : ℕ) (rt : Route)
    (r : Request) (handler : Call → Option ApiError) (p : Principal) (c : Call)
    → get_elem? (mount dev_login) i ≡ some rt
    → is_machine p.method ≡ true
    → (guard media_type st rt.access r handler (known p)).called ≡ some c
    → (is_open rt.access || is_me rt) ≡ true
machine_reaches_me media_type st dev_login i rt r handler p c e m h = ground (
  arith,
  all-get_elem? _ (mount dev_login) i rt (machines_reach dev_login p.method m) e,
  guard_reach media_type st rt.access r handler p c h,
)

-- With a personal access token, a request to a registered route reaches its handler only if the
-- route is public, is read with GET, or is the one that measures the usage of a project.
pub token_reads :
    (media_type : Bytes → Option Bytes) (st : Store) (dev_login : Bool) (i : ℕ) (rt : Route)
    (r : Request) (handler : Call → Option ApiError) (p : Principal) (c : Call)
    → get_elem? (mount dev_login) i ≡ some rt
    → p.method ≡ user_token
    → (guard media_type st rt.access r handler (known p)).called ≡ some c
    → (is_open rt.access || eq_bytes rt.verb (codes "GET") || measures rt) ≡ true
token_reads media_type st dev_login i rt r handler p c e m h = ground (
  arith,
  all-get_elem? _ (mount dev_login) i rt (tokens_reach dev_login) e,
  guard_reach media_type st rt.access r handler p c h,
)

-- A handler of a registered route under a project, called by a request that names one, works in a
-- project that the store has under the request's slugs and that its principal may read.
pub project_resolved :
    (media_type : Bytes → Option Bytes) (st : Store) (dev_login : Bool) (i : ℕ) (rt : Route)
    (r : Request) (handler : Call → Option ApiError) (caller : Caller) (p : Principal) (s : Scope)
    → get_elem? (mount dev_login) i ≡ some rt
    → in_a_project rt ≡ true
    → eq_bytes r.project [] ≡ false
    → (guard media_type st rt.access r handler caller).called ≡ some (scoped_call p s)
    → (st.resolve_route r.org r.project ≡ row s.project_id)
      × (can_view_org p s.org_id ≡ true)
      × (can_read_project p s.org_id s.project_id ≡ true)
project_resolved media_type st dev_login i rt r handler caller p s e under f h =
    let org : needs_org rt.access ≡ true =
      ground (arith, all-get_elem? _ (mount dev_login) i rt (project_routes dev_login) e) in
    let fits = guard_authorizes media_type st rt.access r handler caller p s h in
    let found = fits.4 org in
    ((found.project_found f).0, capable-view rt.access p s org fits.3, (found.project_found f).1)
