-- ===== src/Gc/Sweep.antt =====
-- internal/gc/sweep.go: the pass of a stage over one namespace of a backend, page by page, with the
-- rules that doom a row. The rows of a backend stand in the order of the primary key
-- (namespace, key), which is the database's (`before`). A query or a delete may fail (`faults`); a
-- run that is cancelled between two pages stands as a scan that fails. No other writer runs.
pub mod Pages
pub mod Passes
pub mod Ends
pub mod Order
pub mod Complete
pub mod Clears
mod Tests
use bakery.Base.{
  ℕ, zero, suc, ◌+◌, ◌-◌, Bool, true, false, not, ◌&&◌, ◌||◌, Option, none, some, List, [], ◌∷◌,
  Bytes, codes, eq_bytes, ltb, ◌==◌, if◌then◌else◌, length, take, keep, any, is_some,
}
use bakery.Gc.Plan.{BackendPlan, Stage, is_sstate}
use bakery.Gc.Quota
use bakery.Gc.Quota.{Usage, liveness_of}

-- repository.ScanObjectsForGCRow: `measured` is its size and the two times that the quota reads.
pub record Object : Type 0 where
  pub namespace : Bytes
  pub key : Bytes
  pub updated_at : ℕ
  pub measured : Quota.Row

-- What the pass reads besides the rows: `pending` is PendingTouch, `alive` the unihashes that the
-- paired hashserv backend holds (UnihashesExistBatch), `derive` deriveUnihash of sstate.go, and
-- `barrier` the write barrier of gc.sql: the row was written before the run started.
pub record Engine : Type 0 where
  pub before : Bytes → Bytes → Bytes → Bytes → Bool
  pub batch_size : ℕ
  pub dry_run : Bool
  pub now : ℕ
  pub barrier : Object → Bool
  pub pending : Object → Bool
  pub derive : Bytes → Option Bytes
  pub alive : Bytes → Bool

pub record State : Type 0 where
  pub rows : List Object
  pub usage : Usage
  pub objects_deleted : ℕ
  pub logical_bytes_freed : ℕ
  pub faults : List Bool

abbrev in_list : Bytes → List Bytes → Bool
in_list n [] = false
in_list n (m ∷ ms) = eq_bytes n m || in_list n ms

-- t.Before(now.Add(-window))
abbrev elapsed : ℕ → ℕ → ℕ → Bool
elapsed now window t = ltb (t + window) now

abbrev unreachable_by : (Bytes → Bool) → Option Bytes → Bool
unreachable_by alive none = true
unreachable_by alive (some u) = not (alive u)

module _ (e : Engine) where
  -- sstateUnreachable, for one row
  unfoldable pub unreachable : BackendPlan → Object → Bool
  unreachable p o = if p.hashserv == 0 then true else unreachable_by e.alive (e.derive o.key)

  -- sstateUnreachable queries the hashserv backend for this page.
  unfoldable pub probes : BackendPlan → List Object → Bool
  probes p page = not (p.hashserv == 0) && any (λ o. is_some (e.derive o.key)) page

  -- The rule of deciderFor, for one row.
  unfoldable pub dooms : BackendPlan → Stage → Object → Bool
  unfolding unreachable
  dooms p st o =
      let live = ltb 0 st.window && p.has_window in
      if is_sstate p.kind
      then unreachable p o && (live && elapsed e.now st.window (liveness_of o.measured))
      else if in_list st.namespace (codes "ac" ∷ codes "ac-grpc" ∷ codes "sccache" ∷ [])
      then live
        && elapsed e.now st.window o.measured.created_at
        && elapsed e.now st.window (liveness_of o.measured)
      else if eq_bytes st.namespace (codes "tags")
      then live && elapsed e.now st.window o.updated_at
      else if eq_bytes st.namespace (codes "manifests")
      then false
      else live && elapsed e.now st.window (liveness_of o.measured)

  -- ScanObjectsForGC
  unfoldable pub scan : Bytes → Bytes → List Object → List Object
  scan namespace after_key rows =
      take e.batch_size
        (keep (λ o. e.before namespace after_key o.namespace o.key && e.barrier o) rows)

  unfoldable pub same_key : Object → Object → Bool
  same_key a b = eq_bytes a.namespace b.namespace && eq_bytes a.key b.key

  -- DeleteBatch
  unfoldable pub delete_batch : List Object → List Object → List Object
  unfolding same_key
  delete_batch batch rows = keep (λ o. not (e.barrier o && any (same_key o) batch)) rows

  -- The loop of processPage over the page: the usage, and the rows to delete.
  unfoldable pub accounted : ℕ → (Object → Bool) → List Object → Usage → Usage × List Object
  accounted index doomed [] u = (u, [])
  accounted index doomed (o ∷ os) u =
      let kept = accounted index doomed os (Quota.observe e.now u (index, o.measured)) in
      let gone = accounted index doomed os u in
      if not (doomed o) || e.pending o then kept else (gone.0, o ∷ gone.1)

  unfoldable pub bytes_of : List Object → ℕ
  bytes_of [] = 0
  bytes_of (o ∷ os) = o.measured.size_bytes + bytes_of os

  abbrev is_empty : List Object → Bool
  is_empty [] = true
  is_empty (_ ∷ _) = false

  -- The next statement fails.
  abbrev fails : List Bool → Bool
  fails [] = false
  fails (f ∷ fs) = f

  abbrev later : List Bool → List Bool
  later [] = []
  later (f ∷ fs) = fs

  unfoldable pub delete_page : List Object → State → State × Bool
  unfolding delete_batch bytes_of
  delete_page batch s =
      if is_empty batch
      then (s, true)
      else if e.dry_run
      then (
        record s {
          objects_deleted = s.objects_deleted + length batch;
          logical_bytes_freed = s.logical_bytes_freed + bytes_of batch;
        },
        true,
      )
      else if fails s.faults
      then (record s { faults = later s.faults }, false)
      else (
        record s {
          rows = delete_batch batch s.rows;
          objects_deleted =
              s.objects_deleted + (length s.rows - length (delete_batch batch s.rows));
          logical_bytes_freed = s.logical_bytes_freed + bytes_of batch;
          faults = later s.faults;
        },
        true,
      )

  -- `asks` says whether the decider queries, and the query may fail.
  unfoldable pub process_page :
      ℕ → (List Object → Bool) → (Object → Bool) → List Object → State → State × Bool
  unfolding accounted delete_page
  process_page index asks doomed page s =
      let s' = record s { faults = if asks page then later s.faults else s.faults } in
      let (u, batch) = accounted index doomed page s.usage in
      if asks page && fails s.faults
      then (s', false)
      else delete_page batch (record s' { usage = u })

  -- The rows up to the first of another namespace.
  unfoldable pub page_of : Bytes → List Object → List Object
  page_of namespace [] = []
  page_of namespace (o ∷ os) =
      let rest = page_of namespace os in if eq_bytes o.namespace namespace then o ∷ rest else []

  abbrev last_key : Bytes → List Object → Bytes
  last_key k [] = k
  last_key k (o ∷ os) = last_key o.key os

  -- The loop of runStage, from a cursor.
  unfoldable pub run_stage :
      ℕ → Bytes → ℕ → (List Object → Bool) → (Object → Bool) → Bytes → State → State × Bool
  run_stage zero namespace index asks doomed after_key s = (s, false)
  run_stage (suc fuel) namespace index asks doomed after_key s =
      let s' = record s { faults = later s.faults } in
      let rows = scan namespace after_key s.rows in
      let page = page_of namespace rows in
      let done = process_page index asks doomed page s' in
      let rest = run_stage fuel namespace index asks doomed (last_key after_key page) done.0 in
      if fails s.faults
      then (s', false)
      else if is_empty page
      then (s', true)
      else if not (done.1)
      then (done.0, false)
      else if ltb (length page) (length rows) || ltb (length rows) e.batch_size
      then (done.0, true)
      else rest
