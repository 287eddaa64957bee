-- ===== src/Api/Authz.antt =====
-- internal/api/authz.go: the guard that every handler of the management API goes through. The
-- authenticator, the store and mime.ParseMediaType are arguments; an id is a number, the zero UUID 0.
pub mod Guard
pub mod Hiding
pub mod Routes
mod Tests
use bakery.Base.{
  ℕ, Bool, true, false, not, ◌&&◌, ◌||◌, Option, none, some, List, [], ◌∷◌, Bytes, codes, eq_bytes,
  ◌==◌, if◌then◌else◌,
}
use bakery.Auth.Principal.{
  Principal, Method, session, bearer, api_key, dev, user_token, org_token, undeclared,
  is_site_admin, can_view_org, can_admin_org, can_own_org, can_read_project, can_admin_project,
}

pub data Access : Type 0 where
  public authenticated user_scoped user site_admin org_view org_admin org_owner : Access
  project_read project_credential project_admin : Access

-- a >= AccessOrgView
unfoldable pub needs_org : Access → Bool
needs_org public = false
needs_org authenticated = false
needs_org user_scoped = false
needs_org user = false
needs_org site_admin = false
needs_org _ = true

-- What authenticate leaves in the context: `failed` is any other error.
pub data AuthError : Type 0 where
  login_not_allowed token_invalid key_invalid failed : AuthError

pub data Caller : Type 0 where
  known : Principal → Caller
  anonymous : Caller
  broken : AuthError → Caller

pub data Entity : Type 0 where
  organization project : Entity

pub data Requirement : Type 0 where
  account reading_token cache_credential site_administrator : Requirement
  org_administrator the_org_owner project_administrator : Requirement

-- An apiError: its status, and which message it carries.
pub data ApiError : Type 0 where
  no_credential bad_credential : ApiError  -- 401
  forbidden : Requirement → ApiError  -- 403
  not_found : Entity → ApiError  -- 404
  unsupported : ApiError  -- 415
  internal : ApiError  -- 500
  refused_by_handler : ApiError

pub record Org : Type 0 where
  pub id : ℕ
  pub slug : Bytes
  pub name : Bytes

pub record Scope : Type 0 where
  pub org_id : ℕ
  pub org_slug : Bytes
  pub org_name : Bytes
  pub project_id : ℕ
  pub project_slug : Bytes

-- A query for one row.
pub data Query {ℓ} (A : Type ℓ) : Type ℓ where
  row : A → Query A
  no_rows failing : Query A

pub record Store : Type 0 where
  pub get_organization_by_slug : Bytes → Query Org
  pub resolve_route : Bytes → Bytes → Query ℕ

pub data Verb : Type 0 where
  get head options : Verb
  changing : Bytes → Verb

-- `is_empty_body` is ContentLength == 0. A path value that the pattern lacks is empty.
pub record Request : Type 0 where
  pub verb : Verb
  pub content_type : Bytes
  pub is_empty_body : Bool
  pub org : Bytes
  pub project : Bytes

abbrev pub zero_scope : Scope
zero_scope = record { org_id = 0; org_slug = []; org_name = []; project_id = 0; project_slug = [] }

pub data Resolved : Type 0 where
  scoped : Scope → Resolved
  denied : ApiError → Resolved

unfoldable pub deny_auth : AuthError → ApiError
deny_auth login_not_allowed = forbidden account
deny_auth token_invalid = bad_credential
deny_auth key_invalid = bad_credential
deny_auth failed = internal

unfoldable pub method_may_reach : Method → Access → Bool
method_may_reach session access = true
method_may_reach bearer access = true
method_may_reach dev access = true
method_may_reach user_token public = true
method_may_reach user_token authenticated = true
method_may_reach user_token user_scoped = true
method_may_reach user_token org_view = true
method_may_reach user_token project_read = true
method_may_reach user_token _ = false
method_may_reach api_key public = true
method_may_reach api_key authenticated = true
method_may_reach api_key _ = false
method_may_reach org_token public = true
method_may_reach org_token authenticated = true
method_may_reach org_token _ = false
method_may_reach undeclared access = false

unfoldable pub method_refusal : Method → Requirement
method_refusal user_token = reading_token
method_refusal _ = cache_credential

unfoldable pub is_json : (Bytes → Option Bytes) → Bytes → Bool
is_json media_type ct = elim (media_type ct) [
  | none ↦ false
  | some m ↦ eq_bytes m (codes "application/json")
]

-- nil is `true`.
unfoldable pub require_json : (Bytes → Option Bytes) → Request → Bool
unfolding is_json
require_json media_type r = elim r.verb [
  | get ↦ true
  | head ↦ true
  | options ↦ true
  | changing m ↦
      if eq_bytes r.content_type [] && r.is_empty_body
      then true
      else is_json media_type r.content_type
]

-- The checks that follow {project}, once its row is there.
unfoldable pub in_project : Access → Principal → Scope → Resolved
in_project access p s =
    let admin = can_admin_project p s.org_id s.project_id in
    if not (can_read_project p s.org_id s.project_id)
    then denied (not_found project)
    else elim access [
      | project_admin ↦ if not admin then denied (forbidden project_administrator) else scoped s
      | _ ↦ scoped s
    ]

unfoldable pub resolve_project : Store → Access → Principal → Request → Scope → Resolved
unfolding in_project
resolve_project st access p r s =
    if eq_bytes r.project [] then scoped s else elim (st.resolve_route r.org r.project) [
      | row id ↦ in_project access p (record s { project_id = id; project_slug = r.project })
      | no_rows ↦ denied (not_found project)
      | failing ↦ denied internal
    ]

-- The checks that follow {org}, once its row is there.
unfoldable pub in_org : Store → Access → Principal → Request → Org → Resolved
unfolding resolve_project
in_org st access p r o =
    let s = record zero_scope { org_id = o.id; org_slug = o.slug; org_name = o.name } in
    let rest = resolve_project st access p r s in
    if not (can_view_org p o.id) then denied (not_found organization) else elim access [
      | org_admin ↦
          if not (can_admin_org p o.id) then denied (forbidden org_administrator) else rest
      | org_owner ↦ if not (can_own_org p o.id) then denied (forbidden the_org_owner) else rest
      | _ ↦ rest
    ]

unfoldable pub resolve_org : Store → Access → Principal → Request → Resolved
unfolding in_org
resolve_org st access p r = elim (st.get_organization_by_slug r.org) [
  | row o ↦ in_org st access p r o
  | no_rows ↦ denied (not_found organization)
  | failing ↦ denied internal
]

unfoldable pub resolve : Store → Access → Principal → Request → Resolved
unfolding needs_org resolve_org
resolve st access p r =
    if not (needs_org access)
    then elim access [
      | site_admin ↦
          if not (is_site_admin p) then denied (forbidden site_administrator) else scoped zero_scope
      | _ ↦ scoped zero_scope
    ]
    else resolve_org st access p r

-- What a handler sees: the context of a public route holds no scope.
pub data Call : Type 0 where
  open_call : Call
  scoped_call : Principal → Scope → Call

-- The call that reached the handler, if one did, and the error that was written, if one was.
pub record Outcome : Type 0 where
  pub called : Option Call
  pub error : Option ApiError

abbrev refuse : ApiError → Outcome
refuse e = record { called = none; error = some e }

abbrev run : (Call → Option ApiError) → Call → Outcome
run handler c = record { called = some c; error = handler c }

abbrev after_resolve : (Call → Option ApiError) → Principal → Resolved → Outcome
after_resolve handler p (scoped s) = run handler (scoped_call p s)
after_resolve handler p (denied e) = refuse e

unfoldable pub guard_known :
    Store → Access → Request → (Call → Option ApiError) → Principal → Outcome
unfolding method_may_reach method_refusal resolve
guard_known st access r handler p =
    if not (method_may_reach p.method access)
    then refuse (forbidden (method_refusal p.method))
    else after_resolve handler p (resolve st access p r)

abbrev is_public : Access → Bool
is_public public = true
is_public _ = false

abbrev guard_private :
    Store → Access → Request → (Call → Option ApiError) → Option Principal → Outcome
guard_private st access r handler none = refuse no_credential
guard_private st access r handler (some p) = guard_known st access r handler p

unfoldable pub guard_checked :
    (Bytes → Option Bytes)
    → Store
    → Access
    → Request
    → (Call → Option ApiError)
    → Option Principal
    → Outcome
unfolding require_json guard_known
guard_checked media_type st access r handler caller =
    if not (require_json media_type r)
    then refuse unsupported
    else if is_public access
    then run handler open_call
    else guard_private st access r handler caller

unfoldable pub guard :
    (Bytes → Option Bytes) → Store → Access → Request → (Call → Option ApiError) → Caller → Outcome
unfolding deny_auth guard_checked
guard media_type st access r handler (broken e) = refuse (deny_auth e)
guard media_type st access r handler anonymous = guard_checked media_type st access r handler none
guard media_type st access r handler (known p) =
    guard_checked media_type st access r handler (some p)
