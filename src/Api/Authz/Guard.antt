-- ===== src/Api/Authz/Guard.antt =====
-- Which calls the guard of internal/api/authz.go lets reach a handler.
use bakery.Base.{
  codes, none, ◌≡◌, refl, sym, ap, ◌∙◌, Bool, true, false, ◌&&◌, ◌||◌, Option, some, [], Bytes,
  eq_bytes, eq_bytes_iff, eq_bytes_refl, arith, Bool-cases, inl, inr,
}
use bakery.Auth.Principal.{
  Principal, is_site_admin, can_view_org, can_admin_org, can_own_org, can_read_project,
  can_admin_project,
}
use bakery.Api.Authz.{
  Access, public, authenticated, user_scoped, user, site_admin, org_view, org_admin, org_owner,
  project_read, project_credential, project_admin, needs_org, Caller, known, anonymous, broken,
  ApiError, Org, Scope, Query, row, no_rows, failing, Store, Request, scoped, denied, in_project,
  resolve_project, in_org, resolve_org, resolve, Call, scoped_call, method_may_reach, guard_known,
  guard_checked, guard, require_json, is_json, Verb, get, head, options, changing, not_found,
  organization, internal,
}

-- What an access level asks of a principal, in the scope that the handler is given.
abbrev pub capable : Access → Principal → Scope → Bool
capable public p s = true
capable authenticated p s = true
capable user_scoped p s = true
capable user p s = true
capable site_admin p s = is_site_admin p
capable org_view p s = can_view_org p s.org_id
capable org_admin p s = can_view_org p s.org_id && can_admin_org p s.org_id
capable org_owner p s = can_view_org p s.org_id && can_own_org p s.org_id
capable project_read p s = can_view_org p s.org_id
capable project_credential p s = can_view_org p s.org_id
capable project_admin p s =
    can_view_org p s.org_id
    && (eq_bytes s.project_slug [] || can_admin_project p s.org_id s.project_id)

-- The scope is that of the request: its org is the store's, and so is its project, which the
-- principal may read.
pub record Matches (st : Store) (access : Access) (p : Principal) (r : Request) (s : Scope)
    : Type 0 where
  pub org_found : (o : Org) × (st.get_organization_by_slug r.org ≡ row o) × (s.org_id ≡ o.id)
  pub named : s.project_slug ≡ r.project
  pub able : capable access p s ≡ true
  pub project_found :
      eq_bytes r.project [] ≡ false
      → (st.resolve_route r.org r.project ≡ row s.project_id)
        × (can_read_project p s.org_id s.project_id ≡ true)

module _ (st : Store) (access : Access) (p : Principal) (r : Request) where
  in_project_lem :
      (s t : Scope)
      → in_project access p s ≡ scoped t
      → (s ≡ t) × (can_read_project p s.org_id s.project_id ≡ true)
  unfolding in_project
  in_project_lem s t h = (ground arith, ground arith)

  -- What the checks from the org's row on ensure.
  in_org-Matches :
      (o : Org) (s : Scope)
      → needs_org access ≡ true
      → st.get_organization_by_slug r.org ≡ row o
      → in_org st access p r o ≡ scoped s
      → Matches st access p r s
  unfolding needs_org in_org resolve_project in_project
  in_org-Matches o s n e h = record {
    org_found = (o, e, ground arith);
    named = ground (arith, (eq_bytes_iff r.project []).0);
    able = ground (arith, eq_bytes_refl []);
    project_found = λ f. (ground arith, ground arith);
  }

  found-Matches :
      (s : Scope) (q : Query Org)
      → needs_org access ≡ true
      → st.get_organization_by_slug r.org ≡ q
      → elim q [
        | row o ↦ in_org st access p r o
        | no_rows ↦ denied (not_found organization)
        | failing ↦ denied internal
      ]
        ≡ scoped s
      → Matches st access p r s
  found-Matches s (row o) n e h = in_org-Matches o s n e h
  found-Matches s no_rows n e h = absurd (cc)
  found-Matches s failing n e h = absurd (cc)

  resolve-Matches :
      (s : Scope)
      → needs_org access ≡ true
      → resolve st access p r ≡ scoped s
      → Matches st access p r s
  unfolding resolve resolve_org
  resolve-Matches s n h =
      let found : resolve_org st access p r ≡ scoped s = ground arith in
      found-Matches s (st.get_organization_by_slug r.org) n refl found

  resolve-capable : (s : Scope) → resolve st access p r ≡ scoped s → capable access p s ≡ true
  unfolding resolve needs_org
  resolve-capable s h = elim (Bool-cases (needs_org access)) [
    | inl n ↦ (resolve-Matches s n h).able
    | inr n ↦ ground arith
  ]

  guard_known_lem :
      (handler : Call → Option ApiError) (q : Principal) (s : Scope)
      → (guard_known st access r handler p).called ≡ some (scoped_call q s)
      → (p ≡ q) × (method_may_reach p.method access ≡ true) × (resolve st access p r ≡ scoped s)
  unfolding guard_known
  guard_known_lem handler q s h = (ground arith, ground arith, ground arith)

-- The requests that a form of another site cannot make with a body of its own: a safe method, no body
-- and no content type, or the media type of JSON.
pub data Allowed (media_type : Bytes → Option Bytes) (r : Request) : Type 0 where
  by_get : r.verb ≡ get → Allowed media_type r
  by_head : r.verb ≡ head → Allowed media_type r
  by_options : r.verb ≡ options → Allowed media_type r
  without_body : r.content_type ≡ [] → r.is_empty_body ≡ true → Allowed media_type r
  as_json : media_type r.content_type ≡ some (codes "application/json") → Allowed media_type r

typed-Allowed :
    (media_type : Bytes → Option Bytes) (r : Request) (o : Option Bytes)
    → media_type r.content_type ≡ o
    → is_json media_type r.content_type ≡ true
    → Allowed media_type r
unfolding is_json
typed-Allowed media_type r none e h = absurd (ground (arith, e, h))
typed-Allowed media_type r (some m) e h =
    let json : eq_bytes m (codes "application/json") ≡ true = ground (arith, e, h) in
    as_json (e ∙ ap (λ t. some t) ((eq_bytes_iff m (codes "application/json")).0 json))

require_json-Allowed :
    (media_type : Bytes → Option Bytes) (r : Request) (v : Verb)
    → r.verb ≡ v
    → require_json media_type r ≡ true
    → Allowed media_type r
unfolding require_json
require_json-Allowed media_type r get e h = by_get e
require_json-Allowed media_type r head e h = by_head e
require_json-Allowed media_type r options e h = by_options e
require_json-Allowed media_type r (changing m) e h =
    elim (Bool-cases (eq_bytes r.content_type [] && r.is_empty_body)) [
      | inl t ↦
          without_body ((eq_bytes_iff r.content_type []).0 (ground (arith, t))) (ground (arith, t))
      | inr t ↦
          typed-Allowed media_type r (media_type r.content_type) refl (ground (arith, e, h, t))
    ]

-- Where the guard lets a call with a scope reach a handler, the caller is the principal of that call,
-- its kind of credential may reach the access level, and the principal has the capability of the level
-- in that scope. The request's method is safe, or it has no body and no content type, or its content
-- type parses as the media type of JSON. Where the level needs an org, the scope is the
-- request's: the org is the store's row for its slug, and a project in the path is the store's row
-- for it, which the principal may read.
pub guard_authorizes :
    (media_type : Bytes → Option Bytes) (st : Store) (access : Access) (r : Request)
    (handler : Call → Option ApiError) (caller : Caller) (p : Principal) (s : Scope)
    → (guard media_type st access r handler caller).called ≡ some (scoped_call p s)
    → (caller ≡ known p)
      × (method_may_reach p.method access ≡ true)
      × Allowed media_type r
      × (capable access p s ≡ true)
      × (needs_org access ≡ true → Matches st access p r s)
unfolding guard guard_checked
guard_authorizes media_type st access r handler (known q) p s h =
    let through : (guard_known st access r handler q).called ≡ some (scoped_call p s) =
      ground arith in
    let json : require_json media_type r ≡ true = ground arith in
    let (same, reach, res) = guard_known_lem st access q r handler p s through in
    let res' : resolve st access p r ≡ scoped s =
      sym (ap (λ q. resolve st access q r) same) ∙ res in
    (
      ap known same,
      sym (ap (λ q. method_may_reach q.method access) same) ∙ reach,
      require_json-Allowed media_type r r.verb refl json,
      resolve-capable st access p r s res',
      λ n. resolve-Matches st access p r s n res',
    )
guard_authorizes media_type st access r handler anonymous p s h = absurd (ground arith)
guard_authorizes media_type st access r handler (broken e) p s h = absurd (cc)
