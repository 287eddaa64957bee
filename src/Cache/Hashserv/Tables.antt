-- ===== src/Cache/Hashserv/Tables.antt =====
-- The tables hashserv_unihashes and hashserv_outhashes, as internal/db/query/hashserv.sql reads and
-- writes them. Rows stand in the order of created_at, the oldest first; the time is not kept.
pub mod Laws
use bakery.Base.{
  ℕ, ◌+◌, ◌-◌, Bool, true, false, not, ◌&&◌, Option, none, some, List, [], ◌∷◌, ◌++◌, Bytes,
  eq_bytes, ◌==◌, if◌then◌else◌, any, keep, length,
}

pub record UnihashRow : Type 0 where
  pub backend_id : ℕ
  pub method : Bytes
  pub taskhash : Bytes
  pub unihash : Bytes

-- owner, pn, pv, pr, task and outhash_siginfo, NULL being the empty text
pub record Details : Type 0 where
  pub owner : Bytes
  pub pn : Bytes
  pub pv : Bytes
  pub pr : Bytes
  pub task : Bytes
  pub outhash_siginfo : Bytes

pub record OuthashRow : Type 0 where
  pub backend_id : ℕ
  pub method : Bytes
  pub taskhash : Bytes
  pub outhash : Bytes
  pub details : Details

pub record Tables : Type 0 where
  pub unihashes : List UnihashRow
  pub outhashes : List OuthashRow

unfoldable pub at_task : ℕ → Bytes → Bytes → UnihashRow → Bool
at_task backend method taskhash r =
    r.backend_id == backend && eq_bytes r.method method && eq_bytes r.taskhash taskhash

-- GetUnihash
unfoldable pub find_unihash : ℕ → Bytes → Bytes → List UnihashRow → Option Bytes
find_unihash backend method taskhash [] = none
find_unihash backend method taskhash (r ∷ rs) =
    if at_task backend method taskhash r
    then some r.unihash
    else find_unihash backend method taskhash rs

-- InsertUnihash: the rows and the count of rows that it wrote
unfoldable pub insert_unihash : UnihashRow → List UnihashRow → List UnihashRow × ℕ
insert_unihash r rs =
    if any (at_task r.backend_id r.method r.taskhash) rs then (rs, 0) else (rs ++ r ∷ [], 1)

unfoldable pub same_output : OuthashRow → OuthashRow → Bool
same_output a r =
    r.backend_id == a.backend_id
    && eq_bytes r.method a.method
    && eq_bytes r.taskhash a.taskhash
    && eq_bytes r.outhash a.outhash

-- InsertOuthash
unfoldable pub insert_outhash : OuthashRow → List OuthashRow → List OuthashRow × ℕ
insert_outhash r rs = if any (same_output r) rs then (rs, 0) else (rs ++ r ∷ [], 1)

abbrev pub joined :
    OuthashRow → Option Bytes → Option (OuthashRow × Bytes) → Option (OuthashRow × Bytes)
joined o none rest = rest
joined o (some unihash) rest = some (o, unihash)

-- The oldest row that passes the test and has a unihash, with it: the join of the two tables.
unfoldable pub first_joined :
    (OuthashRow → Bool) → List UnihashRow → List OuthashRow → Option (OuthashRow × Bytes)
first_joined test us [] = none
first_joined test us (o ∷ os) =
    let rest = first_joined test us os in
    if test o then joined o (find_unihash o.backend_id o.method o.taskhash us) rest else rest

unfoldable pub has_output : ℕ → Bytes → Bytes → OuthashRow → Bool
has_output backend method outhash o =
    o.backend_id == backend && eq_bytes o.method method && eq_bytes o.outhash outhash

unfoldable pub has_task : ℕ → Bytes → Bytes → OuthashRow → Bool
has_task backend method taskhash o =
    o.backend_id == backend && eq_bytes o.method method && eq_bytes o.taskhash taskhash

-- GetUnihashFull
unfoldable pub get_unihash_full : ℕ → Bytes → Bytes → Tables → Option (OuthashRow × Bytes)
unfolding has_task
get_unihash_full backend method taskhash t =
    first_joined (has_task backend method taskhash) t.unihashes t.outhashes

-- GetEquivalentForOuthash
unfoldable pub get_equivalent : ℕ → Bytes → Bytes → Bytes → Tables → Option (OuthashRow × Bytes)
get_equivalent backend method outhash taskhash t =
    first_joined (λ o. has_output backend method outhash o && not (eq_bytes o.taskhash taskhash))
      t.unihashes t.outhashes

-- GetOuthashWithUnihash
unfoldable pub get_outhash_with_unihash : ℕ → Bytes → Bytes → Tables → Option (OuthashRow × Bytes)
get_outhash_with_unihash backend method outhash t =
    first_joined (has_output backend method outhash) t.unihashes t.outhashes

-- GetOuthash
unfoldable pub get_outhash : ℕ → Bytes → Bytes → List OuthashRow → Option OuthashRow
get_outhash backend method outhash [] = none
get_outhash backend method outhash (o ∷ os) =
    if has_output backend method outhash o then some o else get_outhash backend method outhash os

-- UnihashExists
unfoldable pub unihash_exists : ℕ → Bytes → List UnihashRow → Bool
unihash_exists backend unihash rs =
    any (λ r. r.backend_id == backend && eq_bytes r.unihash unihash) rs

-- A DELETE on each table, with the count of rows that went. A test that is false keeps a table.
unfoldable pub delete_rows : (UnihashRow → Bool) → (OuthashRow → Bool) → Tables → Tables × ℕ
delete_rows p q t =
    let us = keep (λ r. not (p r)) t.unihashes in
    let os = keep (λ o. not (q o)) t.outhashes in
    (
      record { unihashes = us; outhashes = os },
      (length t.unihashes - length us) + (length t.outhashes - length os),
    )
