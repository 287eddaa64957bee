-- ===== src/Cache/Hashserv/Perms/Laws.antt =====
-- What internal/cache/hashserv/perms.go grants, and to whom of internal/auth/principal.go.
use bakery.Base.{◌≡◌, true, false, not, ◌&&◌, ◌||◌, ◌==◌, none, some, arith}
use bakery.Auth.Principal as Auth
use bakery.Auth.Principal.{KeyGrant, api_key, is_write, can_read_project, can_write_project}
use bakery.Auth.Principal.Machines.{key_confined}
use bakery.Cache.Hashserv.Perms.{Principal, Route, grant}

-- The permissions of a login follow from the two answers of its principal: it reports and removes
-- exactly where it writes the project, and reads there too, where it reads the project and on an
-- open mirror. An anonymous connection reads on an open mirror, and never reports or removes.
pub grant_lem :
    (p : Principal) (r : Route)
    → let reads = p.can_read_project r.org_id r.project_id in
      let writes = p.can_write_project r.org_id r.project_id in
      ((grant (some p) r).read ≡ (reads || writes || not r.read_auth_required))
      × ((grant (some p) r).report ≡ writes)
      × ((grant (some p) r).db_admin ≡ writes)
      × ((grant none r).read ≡ not r.read_auth_required)
      × ((grant none r).report ≡ false)
      × ((grant none r).db_admin ≡ false)
unfolding grant
grant_lem p r = (ground arith, ground arith, ground arith, ground arith, ground arith, ground arith)

-- auth.Principal, as this server sees it
abbrev pub capabilities : Auth.Principal → Principal
capabilities p = record {
  can_read_project = can_read_project p;
  can_write_project = can_write_project p;
}

-- On a server that requires credentials, an API key reads the hashes of its own project and no other,
-- and reports and removes there exactly with the write scope.
pub grant-key :
    (p : Auth.Principal) (g : KeyGrant) (r : Route)
    → p.method ≡ api_key
    → p.robot ≡ none
    → p.key ≡ some g
    → r.read_auth_required ≡ true
    → ((grant (some (capabilities p)) r).read ≡ (g.project_id == r.project_id))
      × ((grant (some (capabilities p)) r).report
          ≡ (g.project_id == r.project_id && is_write g.scope))
      × ((grant (some (capabilities p)) r).db_admin
          ≡ (g.project_id == r.project_id && is_write g.scope))
unfolding grant
grant-key p g r m n k q =
    let (a, b, c) = key_confined p g r.org_id r.project_id m n k in
    (ground arith, ground arith, ground arith)
