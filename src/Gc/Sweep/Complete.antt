-- ===== src/Gc/Sweep/Complete.antt =====
-- The deletion of a page in internal/gc/sweep.go, where no statement fails.
use bakery.Base.{
  ℕ, zero, suc, ◌≡◌, refl, sym, ◌∙◌, Bool, true, false, not, ◌&&◌, ◌||◌, List, [], ◌∷◌, Bytes,
  eq_bytes, eq_bytes_refl, Bool-cases, inl, inr, all, any, keep, length, ltb, arith, if◌then◌else◌,
}
use bakery.Gc.Quota
use bakery.Gc.Quota.{Usage}
use bakery.Gc.Sweep.{
  Object, Engine, State, scan, same_key, delete_batch, accounted, delete_page, process_page,
  page_of, last_key, run_stage, later,
}
use bakery.Gc.Sweep.Passes.{process_page-Within}
use bakery.Gc.Sweep.Pages.{Within}
use bakery.Gc.Sweep.Ends.{any_mono}
use bakery.Gc.Sweep.Order.{
  all_mono, all_kept, any_where, in_order, in_order-keep, past, page-prefix, IsConvex, page-rest,
}

-- A row that passes is one of the rows with its key that pass.
any_self :
    (e : Engine) (r : Object → Bool) (os : List Object) (b : Bool)
    → ((o : Object) → r o ≡ true → any (λ x. same_key e o x && r x) os ≡ true → b ≡ true)
    → any r os ≡ true
    → b ≡ true
unfolding same_key
any_self e r [] b h a = absurd (cc)
any_self e r (o ∷ os) b h a = ground (
  arith,
  h o,
  eq_bytes_refl o.namespace,
  eq_bytes_refl o.key,
  any_self e r os b (λ x p m. h x p (ground arith)),
)

all_always : (p : Object → Bool) (os : List Object) → ((o : Object) → p o ≡ true) → all p os ≡ true
all_always p [] h = refl
all_always p (o ∷ os) h = ground (arith, h o, all_always p os h)

any-keep_into :
    (p q : Object → Bool) (os : List Object)
    → any (λ o. p o && q o) os ≡ true
    → any q (keep p os) ≡ true
any-keep_into p q [] h = h
any-keep_into p q (o ∷ os) h = ground (arith, any-keep_into p q os)

pub any_split :
    (c q : Object → Bool) (os : List Object)
    → any q os ≡ true
    → any (λ o. q o && not (c o)) os ≡ false
    → any (λ o. q o && c o) os ≡ true
any_split c q [] h n = h
any_split c q (o ∷ os) h n = ground (arith, any_split c q os)

module _ (e : Engine) (doomed : Object → Bool) where
  any-batch :
      (index : ℕ) (q : Object → Bool) (os : List Object) (u : Usage)
      → any (λ o. (doomed o && not (e.pending o)) && q o) os ≡ true
      → any q (accounted e index doomed os u).1 ≡ true
  unfolding accounted
  any-batch index q [] u h = h
  any-batch index q (o ∷ os) u h = ground (
    arith,
    any-batch index q os u,
    any-batch index q os (Quota.observe e.now u (index, o.measured)),
  )

  -- No row behind the write barrier with a key of the batch is left.
  delete_page-deletes :
      (batch : List Object) (s : State)
      → e.dry_run ≡ false
      → s.faults ≡ []
      → all (λ o. not (e.barrier o && any (same_key e o) batch)) (delete_page e batch s).0.rows
        ≡ true
  unfolding delete_page delete_batch
  delete_page-deletes [] s d f = all_always _ s.rows (λ o. ground arith)
  delete_page-deletes (x ∷ batch) s d f =
      ground (arith, all_kept (λ o. not (e.barrier o && any (same_key e o) (x ∷ batch))) s.rows)

  pub process_page-deletes :
      (index : ℕ) (asks : List Object → Bool) (page : List Object) (s : State)
      → e.dry_run ≡ false
      → s.faults ≡ []
      → all
          (λ o. not (e.barrier o && any (same_key e o) (accounted e index doomed page s.usage).1))
          (process_page e index asks doomed page s).0.rows
        ≡ true
  unfolding process_page
  process_page-deletes index asks page s d f =
      let (u, batch) = accounted e index doomed page s.usage in
      let faults = if asks page then later e s.faults else s.faults in
      let none_left : faults ≡ [] = ground arith in
      ground
        (arith, delete_page-deletes batch (record s { faults = faults; usage = u }) d none_left)

  module _ (namespace : Bytes) where
    -- The row is behind the write barrier, of the namespace, doomed, and no read of it is pending.
    abbrev pub is_due : Object → Bool
    is_due o = e.barrier o && (eq_bytes o.namespace namespace && (doomed o && not (e.pending o)))

    -- A page that holds the due rows of a kind deletes them.
    page-clears :
        (index : ℕ) (asks : List Object → Bool) (r : Object → Bool) (page : List Object) (s : State)
        → e.dry_run ≡ false
        → s.faults ≡ []
        → ((o : Object) → r o ≡ true → e.barrier o ≡ true)
        → ((q : Object → Bool)
            → any (λ x. r x && q x) s.rows ≡ true
            → any (λ x. (doomed x && not (e.pending x)) && q x) page ≡ true)
        → any r (process_page e index asks doomed page s).0.rows ≡ false
    page-clears index asks r page s d f behind cover =
        let left = (process_page e index asks doomed page s).0.rows in
        let batch = (accounted e index doomed page s.usage).1 in
        let gone : Object → Bool = λ o. not (e.barrier o && any (same_key e o) batch) in
        elim (Bool-cases (any r left)) [
          | inl h ↦
              let kept : any (λ o. r o && gone o) left ≡ true =
                any_where gone r _ left (process_page-deletes index asks page s d f)
                  (λ o g p. ground arith) h in
              h
              ∙ sym (
                  any_self e (λ o. r o && gone o) left false
                    (λ o p m.
                      let within =
                        process_page-Within e namespace doomed s.rows index asks page s (λ q h. h)
                          (λ x. r x && same_key e o x)
                          (any_mono _ _ left (λ x c. ground arith) m) in
                      ground (
                        arith,
                        behind o,
                        any-batch index (same_key e o) page s.usage (cover (same_key e o) within),
                      ))
                    kept)
          | inr h ↦ h
        ]

    -- The due rows after a key.
    abbrev pub due_past : Bytes → Object → Bool
    due_past k o = past e namespace k o && is_due o

    abbrev pub page_at : Bytes → List Object → List Object
    page_at k rows = page_of e namespace (scan e namespace k rows)

    abbrev pub last_at : Bytes → List Object → Bytes
    last_at k rows = last_key e k (page_at k rows)

    pub run_stage-Within :
        (fuel index : ℕ) (asks : List Object → Bool) (k : Bytes) (s : State)
        → Within (run_stage e fuel namespace index asks doomed k s).0.rows s.rows
    unfolding run_stage
    run_stage-Within zero index asks k s q h = h
    run_stage-Within (suc fuel) index asks k s q h =
        let s' = record s { faults = later e s.faults } in
        let page = page_at k s.rows in
        let done = process_page e index asks doomed page s' in
        ground (
          arith,
          run_stage-Within fuel index asks (last_at k s.rows) done.0 q,
          process_page-Within e namespace doomed s.rows index asks page s' (λ q h. h) q,
        )

    -- A page clears its part of the namespace.
    pub page-clears_prefix :
        (index : ℕ) (asks : List Object → Bool) (k : Bytes) (s : State)
        → e.dry_run ≡ false
        → s.faults ≡ []
        → in_order e s.rows ≡ true
        → any
            (λ o. due_past k o && not (past e namespace (last_at k s.rows) o))
            (process_page e index asks doomed (page_at k s.rows) s).0.rows
          ≡ false
    unfolding scan
    page-clears_prefix index asks k s d f h =
        let last = last_at k s.rows in
        let r : Object → Bool = λ o. due_past k o && not (past e namespace last o) in
        page-clears index asks r (page_at k s.rows) s d f (λ o a. ground arith)
          λ q a.
            let read : Object → Bool = λ o. past e namespace k o && e.barrier o in
            page-prefix e namespace e.batch_size k (λ x. (doomed x && not (e.pending x)) && q x)
              (keep read s.rows) (in_order-keep e read s.rows h)
              (any-keep_into read _ s.rows
                (any_mono (λ x. r x && q x) _ s.rows (λ o c. ground arith) a))

    pub page-clears_rest :
        (index : ℕ) (asks : List Object → Bool) (k : Bytes) (s : State)
        → IsConvex e namespace
        → e.dry_run ≡ false
        → s.faults ≡ []
        → in_order e s.rows ≡ true
        → (ltb (length (page_at k s.rows)) (length (scan e namespace k s.rows))
            || ltb (length (scan e namespace k s.rows)) e.batch_size)
          ≡ true
        → any (due_past k) (process_page e index asks doomed (page_at k s.rows) s).0.rows ≡ false
    unfolding scan
    page-clears_rest index asks k s convex d f h short =
        page-clears index asks (due_past k) (page_at k s.rows) s d f (λ o a. ground arith)
          λ q a.
            let read : Object → Bool = λ o. past e namespace k o && e.barrier o in
            page-rest e namespace e.batch_size k (λ x. (doomed x && not (e.pending x)) && q x)
              (keep read s.rows) convex (in_order-keep e read s.rows h)
              (all_mono read _ (keep read s.rows) (λ o c. ground arith) (all_kept read s.rows))
              short
              (any-keep_into read _ s.rows
                (any_mono (λ x. due_past k x && q x) _ s.rows (λ o c. ground arith) a))
