-- ===== src/Gc/Sweep/Clears.antt =====
-- A pass of internal/gc/sweep.go over rows in order, none of whose statements fails.
use bakery.Base.{
  ℕ, zero, suc, ◌<◌, ◌≡◌, refl, ap, Bool, true, false, not, ◌&&◌, List, [], ◌∷◌, Bytes, Bool-cases,
  inl, inr, any, keep, length, arith, if◌then◌else◌,
}
use bakery.Gc.Sweep.{
  Object, Engine, State, same_key, delete_batch, accounted, delete_page, process_page, run_stage,
  is_empty, later,
}
use bakery.Gc.Sweep.Pages.{Within}
use bakery.Gc.Sweep.Ends.{process_page-works, any_mono, run_stage_ends}
use bakery.Gc.Sweep.Order.{in_order, in_order-keep, past, IsConvex}
use bakery.Gc.Sweep.Complete.{
  any_split, is_due, due_past, page_at, last_at, run_stage-Within, page-clears_prefix,
  page-clears_rest,
}

module _ (e : Engine) (doomed : Object → Bool) (namespace : Bytes) where
  delete_page-in_order :
      (batch : List Object) (s : State)
      → in_order e s.rows ≡ true
      → in_order e (delete_page e batch s).0.rows ≡ true
  unfolding delete_page delete_batch
  delete_page-in_order batch s h =
      ground (arith, in_order-keep e (λ o. not (e.barrier o && any (same_key e o) batch)) s.rows h)

  process_page-in_order :
      (index : ℕ) (asks : List Object → Bool) (page : List Object) (s : State)
      → in_order e s.rows ≡ true
      → in_order e (process_page e index asks doomed page s).0.rows ≡ true
  unfolding process_page
  process_page-in_order index asks page s h =
      let (u, batch) = accounted e index doomed page s.usage in
      let faults = if asks page then later e s.faults else s.faults in
      ground (arith, delete_page-in_order batch (record s { faults = faults; usage = u }) h)

  process_page-none :
      (index : ℕ) (asks : List Object → Bool) (page : List Object) (s : State)
      → is_empty e page ≡ true
      → ((process_page e index asks doomed page s).0.rows ≡ s.rows) × (length page ≡ 0)
  unfolding process_page accounted delete_page
  process_page-none index asks [] s h = (ground arith, refl)
  process_page-none index asks (o ∷ os) s h = absurd (cc)

  -- What a page leaves, and what the pages after it leave.
  both-clear :
      (k last : Bytes) (left final : List Object)
      → Within final left
      → any (λ o. due_past e doomed namespace k o && not (past e namespace last o)) left ≡ false
      → any (due_past e doomed namespace last) final ≡ false
      → any (due_past e doomed namespace k) final ≡ false
  both-clear k last left final w one two =
      let c : Object → Bool = λ o. not (past e namespace last o) in
      elim (Bool-cases (any (λ o. due_past e doomed namespace k o && not (c o)) final)) [
        | inl h ↦ ground (
          arith,
          any_mono (λ o. due_past e doomed namespace k o && not (c o))
              (due_past e doomed namespace last) final (λ o a. ground arith) h,
        )
        | inr h ↦ elim (Bool-cases (any (due_past e doomed namespace k) final)) [
          | inl a ↦ ground (
            arith,
            w (λ o. due_past e doomed namespace k o && c o)
                (any_split c (due_past e doomed namespace k) final a h),
          )
          | inr n ↦ n
        ]
      ]

  run_stage-clears :
      (fuel index : ℕ) (asks : List Object → Bool) (k : Bytes) (s : State)
      → IsConvex e namespace
      → e.dry_run ≡ false
      → 0 < e.batch_size
      → s.faults ≡ []
      → in_order e s.rows ≡ true
      → (run_stage e fuel namespace index asks doomed k s).1 ≡ true
      → any
          (due_past e doomed namespace k)
          (run_stage e fuel namespace index asks doomed k s).0.rows
        ≡ false
  unfolding run_stage
  run_stage-clears zero index asks k s convex d b f h ok = absurd (cc)
  run_stage-clears (suc fuel) index asks k s convex d b f h ok =
      let s' = record s { faults = later e s.faults } in
      let page = page_at e doomed namespace k s.rows in
      let last = last_at e doomed namespace k s.rows in
      let done = process_page e index asks doomed page s' in
      let none_left : s'.faults ≡ [] = ground arith in
      let works = process_page-works e index asks doomed page s' none_left in
      let rest =
        run_stage-clears fuel index asks last done.0 convex d b works.1
          (process_page-in_order index asks page s' h) in
      let final = run_stage e fuel namespace index asks doomed last done.0 in
      let next =
        both-clear k last done.0.rows final.0.rows
          (run_stage-Within e doomed namespace fuel index asks last done.0)
          (page-clears_prefix e doomed namespace index asks k s' d none_left h) in
      let empty = process_page-none index asks page s' in
      let whole = page-clears_rest e doomed namespace index asks k s' convex d none_left h in
      ground (arith, works.0, rest, next, whole, empty, ap (any (due_past e doomed namespace k)))

-- The order of the keys is irreflexive and transitive in the namespace, whose rows are contiguous,
-- and the rows stand in it. Where the run is not a dry one, a page may hold a row, no statement fails
-- and the fuel exceeds the number of rows after the cursor, no row after the cursor is left that is
-- behind the write barrier, of the namespace and doomed, and that no pending read protects, however
-- the pages and the deletions between them fall.
pub run_stage_deletes_all :
    (e : Engine) (doomed : Object → Bool) (namespace : Bytes) (fuel index : ℕ)
    (asks : List Object → Bool) (k : Bytes) (s : State)
    → ((k : Bytes) → e.before namespace k namespace k ≡ false)
    → ((a b n c : Bytes)
        → e.before namespace a namespace b ≡ true
        → e.before namespace b n c ≡ true
        → e.before namespace a n c ≡ true)
    → IsConvex e namespace
    → in_order e s.rows ≡ true
    → e.dry_run ≡ false
    → 0 < e.batch_size
    → s.faults ≡ []
    → length (keep (λ o. e.before namespace k o.namespace o.key) s.rows) < fuel
    → any
        (λ o. past e namespace k o && is_due e doomed namespace o)
        (run_stage e fuel namespace index asks doomed k s).0.rows
      ≡ false
run_stage_deletes_all e doomed namespace fuel index asks k s irrefl trans convex h d b f enough =
    run_stage-clears e doomed namespace fuel index asks k s convex d b f h
      (run_stage_ends e namespace fuel index asks doomed k s irrefl trans f enough)
