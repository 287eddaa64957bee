-- ===== src/Cache/Hashserv/Perms.antt =====
-- internal/cache/hashserv/perms.go, with names and permName of handlers.go: what a connection may do.
-- The bit mask is a record of its three bits. A principal is the two questions that the server asks.
pub mod Laws
use bakery.Base.{
  ℕ, Bool, true, false, not, ◌&&◌, ◌||◌, Option, none, some, List, [], ◌∷◌, ◌++◌, Bytes, codes,
  if◌then◌else◌,
}

pub record Perms : Type 0 where
  pub read : Bool
  pub report : Bool
  pub db_admin : Bool

pub record Principal : Type 0 where
  pub can_read_project : ℕ → ℕ → Bool
  pub can_write_project : ℕ → ℕ → Bool

-- cache.Route, as far as this server reads it
pub record Route : Type 0 where
  pub org_id : ℕ
  pub project_id : ℕ
  pub org : Bytes
  pub project : Bytes
  pub backend_id : ℕ
  pub enabled : Bool
  pub read_auth_required : Bool

abbrev pub no_perms : Perms
no_perms = record { read = false; report = false; db_admin = false }

abbrev pub perm_read : Perms
perm_read = record { read = true; report = false; db_admin = false }

abbrev pub perm_report : Perms
perm_report = record { read = false; report = true; db_admin = false }

abbrev pub perm_db_admin : Perms
perm_db_admin = record { read = false; report = false; db_admin = true }

-- p | q
abbrev pub join_perms : Perms → Perms → Perms
join_perms p q = record {
  read = p.read || q.read;
  report = p.report || q.report;
  db_admin = p.db_admin || q.db_admin;
}

abbrev implies : Bool → Bool → Bool
implies a b = not a || b

-- p&want == want
unfoldable pub has : Perms → Perms → Bool
has p want =
    implies want.read p.read && implies want.report p.report && implies want.db_admin p.db_admin

-- p == 0
abbrev pub is_none : Perms → Bool
is_none p = not (p.read || p.report || p.db_admin)

unfoldable pub grant : Option Principal → Route → Perms
grant none route = if route.read_auth_required then no_perms else perm_read
grant (some p) route =
    let readable =
      if p.can_read_project route.org_id route.project_id
      then join_perms no_perms perm_read
      else no_perms in
    let granted =
      if p.can_write_project route.org_id route.project_id
      then join_perms readable (join_perms perm_read (join_perms perm_report perm_db_admin))
      else readable in
    if is_none granted && not route.read_auth_required then perm_read else granted

abbrev listed : Bool → Bytes → List Bytes
listed b name = if b then name ∷ [] else []

unfoldable pub names : Perms → List Bytes
unfolding has
names p =
    listed (has p perm_read) (codes "@read")
    ++ listed (has p perm_report) (codes "@report")
    ++ listed (has p perm_db_admin) (codes "@db-admin")
