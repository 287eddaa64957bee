-- ===== src/Gc/Sweep/Passes.antt =====
-- A whole pass of runStage in internal/gc/sweep.go, however it ends.
use bakery.Base.{
  ℕ, zero, suc, ◌≡◌, refl, sym, ap, ◌∙◌, Bool, true, false, not, ◌&&◌, Option, none, some, ◌==◌,
  eq_bytes_iff, List, [], ◌∷◌, Bytes, any, keep, keep-keep, if◌then◌else◌, if◌then◌else◌, arith,
  Bool-cases, inl, inr, eq_bytes,
}
use bakery.Gc.Plan.{BackendPlan}
use bakery.Gc.Sweep.{
  Object, Engine, State, unreachable, unreachable_by, probes, scan, same_key, delete_batch,
  accounted, delete_page, process_page, page_of, last_key, run_stage, later,
}
use bakery.Gc.Sweep.Pages.{Within, any-keep, batch-prey}

module _ (e : Engine) (namespace : Bytes) (doomed : Object → Bool) (rows₀ : List Object) where
  -- The row is not behind the write barrier, or no row with its key may be deleted.
  abbrev pub is_spared : Object → Bool
  is_spared o = not (
      e.barrier o
      && any
          (λ x.
            eq_bytes x.namespace namespace && (same_key e o x && (doomed x && not (e.pending x))))
          rows₀)

  -- The batch is prey of the rows at the start.
  abbrev IsPrey : List Object → Type 0
  IsPrey batch =
      (q : Object → Bool)
      → any q batch ≡ true
      → any (λ x. eq_bytes x.namespace namespace && (q x && (doomed x && not (e.pending x)))) rows₀
        ≡ true

  delete_batch-spares :
      (batch rows : List Object)
      → IsPrey batch
      → keep is_spared (delete_batch e batch rows) ≡ keep is_spared rows
  unfolding delete_batch
  delete_batch-spares batch rows prey =
      keep-keep (λ o. not (e.barrier o && any (same_key e o) batch)) is_spared rows
        λ o h. elim (Bool-cases (any (same_key e o) batch)) [
          | inl b ↦ ground (arith, prey (same_key e o) b)
          | inr b ↦ ground (arith, b)
        ]

  delete_page-spares :
      (batch : List Object) (s : State)
      → IsPrey batch
      → keep is_spared (delete_page e batch s).0.rows ≡ keep is_spared s.rows
  unfolding delete_page
  delete_page-spares batch s prey = ground (arith, delete_batch-spares batch s.rows prey)

  delete_page-Within :
      (batch : List Object) (s : State)
      → Within s.rows rows₀
      → Within (delete_page e batch s).0.rows rows₀
  unfolding delete_page delete_batch
  delete_page-Within batch s w q h =
      ground (arith, w q, any-keep (λ o. not (e.barrier o && any (same_key e o) batch)) q s.rows)

  process_page-spares :
      (index : ℕ) (asks : List Object → Bool) (after_key : Bytes) (s s' : State)
      → s'.rows ≡ s.rows
      → Within s.rows rows₀
      → keep is_spared
          (process_page e index asks doomed
            (page_of e namespace (scan e namespace after_key s.rows))
            s').0.rows
        ≡ keep is_spared s.rows
  unfolding process_page
  process_page-spares index asks after_key s s' same w =
      let page = page_of e namespace (scan e namespace after_key s.rows) in
      let (u, batch) = accounted e index doomed page s'.usage in
      let prey : IsPrey batch =
        λ q h. w _ (batch-prey e namespace after_key index doomed q s.rows s'.usage h) in
      let faults = if asks page then later e s'.faults else s'.faults in
      let one = delete_page-spares batch (record s' { faults = faults; usage = u }) prey in
      ground (arith, one, ap (keep is_spared) same)

  pub process_page-Within :
      (index : ℕ) (asks : List Object → Bool) (page : List Object) (s : State)
      → Within s.rows rows₀
      → Within (process_page e index asks doomed page s).0.rows rows₀
  unfolding process_page
  process_page-Within index asks page s w q h =
      let (u, batch) = accounted e index doomed page s.usage in
      let faults = if asks page then later e s.faults else s.faults in
      ground (arith, w q, delete_page-Within batch (record s { faults = faults; usage = u }) w q)

  run_stage-spares :
      (fuel index : ℕ) (asks : List Object → Bool) (after_key : Bytes) (s : State)
      → Within s.rows rows₀
      → keep is_spared (run_stage e fuel namespace index asks doomed after_key s).0.rows
        ≡ keep is_spared s.rows
  unfolding run_stage
  run_stage-spares zero index asks after_key s w = refl
  run_stage-spares (suc fuel) index asks after_key s w =
      let s' = record s { faults = later e s.faults } in
      let page = page_of e namespace (scan e namespace after_key s.rows) in
      let done = process_page e index asks doomed page s' in
      let one = process_page-spares index asks after_key s s' refl w in
      let rest =
        run_stage-spares fuel index asks (last_key e after_key page) done.0
          (process_page-Within index asks page s' w) in
      ground (arith, one, rest)

-- However a pass ends, after a failed statement too, the rows of the backend that remain hold every row
-- that is not behind the write barrier or whose key is not that of a row that the pass may delete, in
-- their order: a row is deleted only if it is of the pass's namespace, the rule dooms it and no
-- unflushed read of it is pending.
pub run_stage_deletes_prey :
    (e : Engine) (fuel : ℕ) (namespace : Bytes) (index : ℕ) (asks : List Object → Bool)
    (doomed : Object → Bool) (after_key : Bytes) (s : State)
    → keep
        (is_spared e namespace doomed s.rows)
        (run_stage e fuel namespace index asks doomed after_key s).0.rows
      ≡ keep (is_spared e namespace doomed s.rows) s.rows
run_stage_deletes_prey e fuel namespace index asks doomed after_key s =
    run_stage-spares e namespace doomed s.rows fuel index asks after_key s (λ q h. h)

delete_page-dry :
    (e : Engine) (batch : List Object) (s : State)
    → e.dry_run ≡ true
    → (delete_page e batch s).0.rows ≡ s.rows
unfolding delete_page
delete_page-dry e batch s d = ground arith

process_page-dry :
    (e : Engine) (index : ℕ) (asks : List Object → Bool) (doomed : Object → Bool)
    (page : List Object) (s : State)
    → e.dry_run ≡ true
    → (process_page e index asks doomed page s).0.rows ≡ s.rows
unfolding process_page
process_page-dry e index asks doomed page s d =
    let (u, batch) = accounted e index doomed page s.usage in
    let faults = if asks page then later e s.faults else s.faults in
    ground (arith, delete_page-dry e batch (record s { faults = faults; usage = u }) d)

-- A dry run deletes nothing, whatever the rule and however the pass ends.
pub run_stage-dry :
    (e : Engine) (fuel : ℕ) (namespace : Bytes) (index : ℕ) (asks : List Object → Bool)
    (doomed : Object → Bool) (after_key : Bytes) (s : State)
    → e.dry_run ≡ true
    → (run_stage e fuel namespace index asks doomed after_key s).0.rows ≡ s.rows
unfolding run_stage
run_stage-dry e zero namespace index asks doomed after_key s d = refl
run_stage-dry e (suc fuel) namespace index asks doomed after_key s d =
    let s' = record s { faults = later e s.faults } in
    let page = page_of e namespace (scan e namespace after_key s.rows) in
    let done = process_page e index asks doomed page s' in
    let one = process_page-dry e index asks doomed page s' d in
    let rest =
      run_stage-dry e fuel namespace index asks doomed (last_key e after_key page) done.0 d in
    ground (arith, one, rest)

any-none : (q : Object → Bool) (os : List Object) → ((o : Object) → q o ≡ false) → any q os ≡ false
any-none q [] h = refl
any-none q (o ∷ os) h = ground (arith, h o, any-none q os h)

abbrev rooted_by : (Bytes → Bool) → Option Bytes → Bool
rooted_by alive none = false
rooted_by alive (some u) = alive u

rooted_by_lem :
    (alive : Bytes → Bool) (u : Option Bytes)
    → rooted_by alive u ≡ true
    → unreachable_by alive u ≡ false
rooted_by_lem alive none h = absurd (cc)
rooted_by_lem alive (some u) h = rw h refl

-- The unihash in the object's key is one that the paired hashserv backend holds.
abbrev pub is_rooted : Engine → Object → Bool
is_rooted e o = rooted_by e.alive (e.derive o.key)

rooted-not-prey :
    (e : Engine) (p : BackendPlan) (namespace : Bytes) (rule : Object → Bool) (o x : Object)
    → (p.hashserv == 0) ≡ false
    → is_rooted e o ≡ true
    → (eq_bytes x.namespace namespace
        && (same_key e o x && ((unreachable e p x && rule x) && not (e.pending x))))
      ≡ false
unfolding same_key unreachable
rooted-not-prey e p namespace rule o x h r = elim (Bool-cases (eq_bytes o.key x.key)) [
  | inl k ↦
      let same = (eq_bytes_iff o.key x.key).0 k in
      let alive : unreachable_by e.alive (e.derive x.key) ≡ false =
        rooted_by_lem e.alive (e.derive x.key)
          (sym (ap (λ key. rooted_by e.alive (e.derive key)) same) ∙ r) in
      ground (arith, alive)
  | inr k ↦ ground arith
]

-- On a backend that has a paired hashserv backend, a pass whose rule asks that the row be unreachable
-- deletes no row whose unihash the hashserv backend holds, whatever else the rule asks and however the
-- pass ends: those rows remain, in their order.
pub rooted_objects_survive :
    (e : Engine) (fuel : ℕ) (namespace : Bytes) (index : ℕ) (p : BackendPlan) (rule : Object → Bool)
    (after_key : Bytes) (s : State)
    → (p.hashserv == 0) ≡ false
    → keep
        (is_rooted e)
        (run_stage e fuel namespace index
          (probes e p)
          (λ x. unreachable e p x && rule x)
          after_key
          s).0.rows
      ≡ keep (is_rooted e) s.rows
rooted_objects_survive e fuel namespace index p rule after_key s h =
    let doomed : Object → Bool = λ x. unreachable e p x && rule x in
    let spared = is_spared e namespace doomed s.rows in
    let left = (run_stage e fuel namespace index (probes e p) doomed after_key s).0.rows in
    let stays : (o : Object) → is_rooted e o ≡ true → spared o ≡ true =
      λ o r. ground (arith, any-none _ s.rows (λ x. rooted-not-prey e p namespace rule o x h r)) in
    sym (keep-keep spared (is_rooted e) left stays)
    ∙ ap (keep (is_rooted e))
        (run_stage_deletes_prey e fuel namespace index (probes e p) doomed after_key s)
    ∙ keep-keep spared (is_rooted e) s.rows stays
