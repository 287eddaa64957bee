-- ===== src/Api/Authz/Hiding.antt =====
-- What the guard of internal/api/authz.go tells a caller of the orgs and projects of others.
use bakery.Base.{ℕ, ◌≡◌, refl, false, Option, Bytes, arith}
use bakery.Auth.Principal.{Principal, can_view_org, can_read_project}
use bakery.Api.Authz.{
  Access, known, ApiError, Org, row, no_rows, Store, Request, in_project, resolve_project, in_org,
  resolve_org, resolve, Call, guard_known, guard_checked, guard,
}

module _ (access : Access) (r : Request) (p : Principal) where
  hidden_org :
      (st st' : Store) (o : Org)
      → st.get_organization_by_slug r.org ≡ row o
      → can_view_org p o.id ≡ false
      → st'.get_organization_by_slug r.org ≡ no_rows
      → resolve st access p r ≡ resolve st' access p r
  unfolding resolve resolve_org in_org
  hidden_org st st' o e v n = ground arith

  hidden_project :
      (st st' : Store) (o : Org) (id : ℕ)
      → st.get_organization_by_slug r.org ≡ row o
      → st'.get_organization_by_slug r.org ≡ row o
      → st.resolve_route r.org r.project ≡ row id
      → can_read_project p o.id id ≡ false
      → st'.resolve_route r.org r.project ≡ no_rows
      → resolve st access p r ≡ resolve st' access p r
  unfolding resolve resolve_org in_org resolve_project in_project
  hidden_project st st' o id e e' f v n = ground arith

module _ (media_type : Bytes → Option Bytes) (access : Access) (r : Request)
    (handler : Call → Option ApiError) where
  same_guard :
      (st st' : Store) (p : Principal)
      → resolve st access p r ≡ resolve st' access p r
      → guard media_type st access r handler (known p)
        ≡ guard media_type st' access r handler (known p)
  unfolding guard guard_checked guard_known
  same_guard st st' p e = rw e refl

-- To a principal that may not view an org, a request for it is answered as if no org had the slug.
pub hidden_org_is_absent :
    (media_type : Bytes → Option Bytes) (access : Access) (r : Request)
    (handler : Call → Option ApiError) (p : Principal) (st st' : Store) (o : Org)
    → st.get_organization_by_slug r.org ≡ row o
    → can_view_org p o.id ≡ false
    → st'.get_organization_by_slug r.org ≡ no_rows
    → guard media_type st access r handler (known p)
      ≡ guard media_type st' access r handler (known p)
hidden_org_is_absent media_type access r handler p st st' o e v n =
    same_guard media_type access r handler st st' p (hidden_org access r p st st' o e v n)

-- To a principal that may not read a project, a request for it is answered as if its org had no
-- project with that slug.
pub hidden_project_is_absent :
    (media_type : Bytes → Option Bytes) (access : Access) (r : Request)
    (handler : Call → Option ApiError) (p : Principal) (st st' : Store) (o : Org) (id : ℕ)
    → st.get_organization_by_slug r.org ≡ row o
    → st'.get_organization_by_slug r.org ≡ row o
    → st.resolve_route r.org r.project ≡ row id
    → can_read_project p o.id id ≡ false
    → st'.resolve_route r.org r.project ≡ no_rows
    → guard media_type st access r handler (known p)
      ≡ guard media_type st' access r handler (known p)
hidden_project_is_absent media_type access r handler p st st' o id e e' f v n =
    same_guard media_type access r handler st st' p
      (hidden_project access r p st st' o id e e' f v n)
