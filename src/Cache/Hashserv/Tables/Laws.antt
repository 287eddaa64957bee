-- ===== src/Cache/Hashserv/Tables/Laws.antt =====
-- How the queries of internal/db/query/hashserv.sql see one another's writes.
use bakery.Base.{
  ℕ, ◌≡◌, refl, Bool, true, false, not, Option, none, some, List, [], ◌∷◌, ◌++◌, Bytes,
  eq_bytes_iff, eq_bytes_refl, any, arith, if◌then◌else◌, is_some, ◌==◌,
}
use bakery.Cache.Hashserv.Tables.{
  UnihashRow, OuthashRow, at_task, find_unihash, insert_unihash, first_joined,
}

abbrev pub or_else : Option Bytes → Option Bytes → Option Bytes
or_else none o = o
or_else (some u) o = some u

at_task-eq :
    (b : ℕ) (m t : Bytes) (r : UnihashRow)
    → at_task b m t r ≡ true
    → (b ≡ r.backend_id) × (m ≡ r.method) × (t ≡ r.taskhash)
unfolding at_task
at_task-eq b m t r h = ground (arith, eq_bytes_iff r.method m, eq_bytes_iff r.taskhash t)

pub at_task_self : (r : UnihashRow) → at_task r.backend_id r.method r.taskhash r ≡ true
unfolding at_task
at_task_self r = ground (arith, eq_bytes_refl r.method, eq_bytes_refl r.taskhash)

any-at_task :
    (b : ℕ) (m t : Bytes) (rs : List UnihashRow)
    → any (at_task b m t) rs ≡ is_some (find_unihash b m t rs)
unfolding find_unihash
any-at_task b m t [] = refl
any-at_task b m t (r ∷ rs) = ground (arith, any-at_task b m t rs)

find_unihash-append :
    (b : ℕ) (m t : Bytes) (rs : List UnihashRow) (r : UnihashRow)
    → find_unihash b m t (rs ++ r ∷ [])
      ≡ or_else (find_unihash b m t rs) (if at_task b m t r then some r.unihash else none)
unfolding find_unihash
find_unihash-append b m t [] r = refl
find_unihash-append b m t (s ∷ rs) r = ground (arith, find_unihash-append b m t rs r)

find_at :
    (b : ℕ) (m t : Bytes) (rs : List UnihashRow) (r : UnihashRow)
    → at_task b m t r ≡ true
    → find_unihash b m t rs ≡ find_unihash r.backend_id r.method r.taskhash rs
find_at b m t rs r h = let (eb, em, et) = at_task-eq b m t r h in rw (eb, em, et) refl

-- An insertion is seen at its own key, and only where that key had no unihash.
pub find_unihash-insert :
    (b : ℕ) (m t : Bytes) (r : UnihashRow) (rs : List UnihashRow)
    → find_unihash b m t (insert_unihash r rs).0
      ≡ or_else (find_unihash b m t rs) (if at_task b m t r then some r.unihash else none)
unfolding insert_unihash
find_unihash-insert b m t r rs = ground (
  arith,
  any-at_task r.backend_id r.method r.taskhash rs,
  find_unihash-append b m t rs r,
  find_at b m t rs r,
)

-- The count tells whether the key had no unihash.
pub insert_unihash-count :
    (r : UnihashRow) (rs : List UnihashRow)
    → ((insert_unihash r rs).1 == 1)
      ≡ not (is_some (find_unihash r.backend_id r.method r.taskhash rs))
unfolding insert_unihash
insert_unihash-count r rs = ground (arith, any-at_task r.backend_id r.method r.taskhash rs)

-- The unihash of a join is one that the table has for the row's task.
pub first_joined-found :
    (test : OuthashRow → Bool) (us : List UnihashRow) (os : List OuthashRow) (o : OuthashRow)
    (u : Bytes)
    → first_joined test us os ≡ some (o, u)
    → (test o ≡ true) × (find_unihash o.backend_id o.method o.taskhash us ≡ some u)
unfolding first_joined
first_joined-found test us [] o u h = absurd (cc)
first_joined-found test us (a ∷ os) o u h = ground (arith, first_joined-found test us os o u)

-- A row of one backend is not at a key of another.
pub at_task_other :
    (b : ℕ) (m t : Bytes) (r : UnihashRow) → (b == r.backend_id) ≡ false → at_task b m t r ≡ false
unfolding at_task
at_task_other b m t r h = ground arith
