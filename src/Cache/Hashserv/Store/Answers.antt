-- ===== src/Cache/Hashserv/Store/Answers.antt =====
-- What internal/cache/hashserv/store.go's `report` answers, told from the tables before the call.
use bakery.Base.{
  ℕ, ◌≡◌, refl, ◌∙◌, Bool, true, false, not, ◌&&◌, Option, none, some, List, [], ◌∷◌, ◌++◌, Bytes,
  eq_bytes, eq_bytes_refl, any, if◌then◌else◌, arith, Bool-cases, inl, inr, ◌+◌,
}
use bakery.Cache.Hashserv.Exec.{ok, ◌>>=◌}
use bakery.Cache.Hashserv.Protocol.{ReportRequest}
use bakery.Cache.Hashserv.Tables.{
  Tables, UnihashRow, OuthashRow, find_unihash, insert_unihash, same_output, insert_outhash,
  has_output, first_joined, get_equivalent, get_outhash_with_unihash,
}
use bakery.Cache.Hashserv.Tables.Laws.{find_unihash-insert, at_task_self}
use bakery.Cache.Hashserv.World.{World, query, ask}
use bakery.Cache.Hashserv.Store
use bakery.Cache.Hashserv.Store.{Upstream, get_or, adopted_from, unihash_response, report}

-- The state with a database that answers every statement.
abbrev pub calm : World → World
calm w = record w { faults = [] }

abbrev pub row_of : ℕ → ReportRequest → OuthashRow
row_of b req = record {
  backend_id = b;
  method = req.method;
  taskhash = req.taskhash;
  outhash = req.outhash;
  details = req.details;
}

-- The task has reported this output before.
abbrev pub is_known : ℕ → ReportRequest → Tables → Bool
is_known b req t = any (same_output (row_of b req)) t.outhashes

-- What an output that no local task names takes: the upstream's unihash, or the client's.
abbrev pub first_sighting : ReportRequest → Option Upstream → ℕ → Bytes × Bool
first_sighting req none asked = (req.unihash, false)
first_sighting req (some up) asked =
    adopted_from req.unihash (up.get_outhash req.method req.outhash req.taskhash asked)

abbrev pub chosen : Option (OuthashRow × Bytes) → Bytes × Bool → Bytes × Bool
chosen none first = first
chosen (some (o, u)) first = (u, true)

-- The unihash for a new output: that of the oldest row with the output, whatever its task.
abbrev pub choice : ℕ → ReportRequest → Option Upstream → World → Bytes × Bool
choice b req up w =
    chosen (get_outhash_with_unihash b req.method req.outhash w.tables)
      (first_sighting req up w.asked)

abbrev pub or_row :
    Option (OuthashRow × Bytes) → Option (OuthashRow × Bytes) → Option (OuthashRow × Bytes)
or_row none o = o
or_row (some r) o = some r

pub first_joined-append :
    (test : OuthashRow → Bool) (us : List UnihashRow) (os : List OuthashRow) (o : OuthashRow)
    → first_joined test us (os ++ o ∷ [])
      ≡ or_row (first_joined test us os) (first_joined test us (o ∷ []))
unfolding first_joined
first_joined-append test us [] o = refl
first_joined-append test us (a ∷ os) o = ground (arith, first_joined-append test us os o)

-- Where a task has not reported an output, a search for the output meets no row of the task.
pub first_joined-unknown :
    (b : ℕ) (req : ReportRequest) (us : List UnihashRow) (os : List OuthashRow)
    → any (same_output (row_of b req)) os ≡ false
    → first_joined
        (λ o. has_output b req.method req.outhash o && not (eq_bytes o.taskhash req.taskhash))
        us
        os
      ≡ first_joined (has_output b req.method req.outhash) us os
unfolding first_joined same_output has_output
first_joined-unknown b req us [] h = refl
first_joined-unknown b req us (o ∷ os) h = ground (arith, first_joined-unknown b req us os)

own_row_excluded :
    (b : ℕ) (req : ReportRequest) (us : List UnihashRow)
    → first_joined
        (λ o. has_output b req.method req.outhash o && not (eq_bytes o.taskhash req.taskhash))
        us
        (row_of b req ∷ [])
      ≡ none
unfolding first_joined
own_row_excluded b req us = ground (arith, eq_bytes_refl req.taskhash)

or_row-none : (r : Option (OuthashRow × Bytes)) → or_row r none ≡ r
or_row-none none = refl
or_row-none (some r) = refl

-- The search for an equivalent task, after the row of the report is in, reads the older rows.
equivalent-after :
    (b : ℕ) (req : ReportRequest) (t : Tables)
    → is_known b req t ≡ false
    → get_equivalent b req.method req.outhash req.taskhash
        (record t { outhashes = t.outhashes ++ row_of b req ∷ [] })
      ≡ get_outhash_with_unihash b req.method req.outhash t
unfolding get_equivalent get_outhash_with_unihash
equivalent-after b req t h =
    first_joined-append _ t.unihashes t.outhashes (row_of b req)
    ∙ rw (own_row_excluded b req t.unihashes, or_row-none)
        (first_joined-unknown b req t.unihashes t.outhashes h)

abbrev asked_after : Option Upstream → Option (OuthashRow × Bytes) → ℕ → ℕ
asked_after up (some r) n = n
asked_after none none n = n
asked_after (some up) none n = n + 1

adopt_lem :
    (b : ℕ) (req : ReportRequest) (up : Option Upstream) (row : Option (OuthashRow × Bytes))
    (w : World)
    → Store.adopt b req up row w ≡ (
      ok (chosen row (first_sighting req up w.asked)),
      record w { asked = asked_after up row w.asked },
    )
unfolding Store.adopt ◌>>=◌ ask
adopt_lem b req up (some (o, u)) w = refl
adopt_lem b req none none w = refl
adopt_lem b req (some up) none w = refl

-- What the tables and the count of questions are after a report.
abbrev pub mapped : ℕ → ReportRequest → Bytes → Tables → Tables
mapped b req u t = record {
  unihashes =
      (insert_unihash
        (record { backend_id = b; method = req.method; taskhash = req.taskhash; unihash = u })
        t.unihashes).0;
  outhashes = t.outhashes ++ row_of b req ∷ [];
}

map_task_lem :
    (b : ℕ) (req : ReportRequest) (up : Option Upstream) (w : World)
    → is_known b req w.tables ≡ false
    → let t = record w.tables { outhashes = w.tables.outhashes ++ row_of b req ∷ [] } in
      let row = get_outhash_with_unihash b req.method req.outhash w.tables in
      Store.map_task b req up (record (calm w) { tables = t }) ≡ (
        ok (choice b req up w).1,
        record (calm w) {
          tables = mapped b req (choice b req up w).0 w.tables;
          asked = asked_after up row w.asked;
        },
      )
unfolding Store.map_task Store.resolve_unihash Store.insert_unihash ◌>>=◌ query
map_task_lem b req up w h =
    let t = record w.tables { outhashes = w.tables.outhashes ++ row_of b req ∷ [] } in
    rw
      (
        adopt_lem b req up (get_equivalent b req.method req.outhash req.taskhash t)
            (record (calm w) { tables = t }),
        equivalent-after b req w.tables h,
      )
      refl

abbrev pub key_unihash : ℕ → ReportRequest → Tables → Option Bytes
key_unihash b req t = find_unihash b req.method req.taskhash t.unihashes

-- The unihash that a report answers, and whether it was adopted.
abbrev pub answer_of : ℕ → ReportRequest → Option Upstream → World → Bytes × Bool
answer_of b req up w =
    if is_known b req w.tables
    then (get_or (key_unihash b req w.tables) req.unihash, false)
    else (get_or (key_unihash b req w.tables) (choice b req up w).0, (choice b req up w).1)

key_unihash-mapped :
    (b : ℕ) (req : ReportRequest) (u : Bytes) (t : Tables)
    → key_unihash b req (mapped b req u t) ≡ some (get_or (key_unihash b req t) u)
key_unihash-mapped b req u t =
    let r : UnihashRow = record {
      backend_id = b;
      method = req.method;
      taskhash = req.taskhash;
      unihash = u;
    } in
    ground (arith, find_unihash-insert b req.method req.taskhash r t.unihashes, at_task_self r)

-- On a database that answers, a report answers the unihash that its task has; where the task has none
-- it takes, for a new output, that of the oldest output of any task that is the same, else the
-- upstream's, else the client's, and says whether it was adopted. A known output of a task with no
-- unihash answers the client's.
pub report_lem :
    (b : ℕ) (req : ReportRequest) (up : Option Upstream) (w : World)
    → (report b req up (calm w)).0
      ≡ ok (
        unihash_response req.method req.taskhash (answer_of b req up w).0,
        (answer_of b req up w).1,
      )
unfolding report Store.insert_outhash insert_outhash Store.get_unihash ◌>>=◌ query
report_lem b req up w = elim (Bool-cases (is_known b req w.tables)) [
  | inl known ↦ rw known refl
  | inr new ↦
      rw (new, map_task_lem b req up w new, key_unihash-mapped b req (choice b req up w).0 w.tables)
        refl
]

-- The tables after a report: a known output changes nothing.
pub report_tables :
    (b : ℕ) (req : ReportRequest) (up : Option Upstream) (w : World)
    → (report b req up (calm w)).1.tables
      ≡ (if is_known b req w.tables then w.tables else mapped b req (choice b req up w).0 w.tables)
unfolding report Store.insert_outhash insert_outhash Store.get_unihash ◌>>=◌ query
report_tables b req up w = elim (Bool-cases (is_known b req w.tables)) [
  | inl known ↦ rw known refl
  | inr new ↦ rw (new, map_task_lem b req up w new) refl
]
