-- ===== src/Gc/Sweep/Ends.antt =====
-- The loop of runStage in internal/gc/sweep.go: its cursor, and the fuel of the model.
use bakery.Base.{
  ℕ, zero, suc, ◌<◌, ◌≤◌, ◌≡◌, refl, ap, ◌∙◌, Bool, true, false, not, ◌&&◌, List, [], ◌∷◌, Bytes,
  eq_bytes, eq_bytes_iff, any, keep, length, if◌then◌else◌, arith,
}
use bakery.Gc.Sweep.{
  Object, Engine, State, scan, same_key, delete_batch, accounted, delete_page, process_page,
  page_of, last_key, run_stage, is_empty, later,
}
use bakery.Gc.Sweep.Pages.{any-page_of, any-take}

pub any_mono :
    (p q : Object → Bool) (os : List Object)
    → ((o : Object) → p o ≡ true → q o ≡ true)
    → any p os ≡ true
    → any q os ≡ true
any_mono p q [] h a = a
any_mono p q (o ∷ os) h a = ground (arith, h o, any_mono p q os h)

pub any_const :
    (b : Bool) (q : Object → Bool) (os : List Object)
    → ((o : Object) → q o ≡ true → b ≡ true)
    → any q os ≡ true
    → b ≡ true
any_const b q [] h a = absurd (cc)
any_const b q (o ∷ os) h a = ground (arith, h o, any_const b q os h)

pub any-keep_both :
    (p q : Object → Bool) (os : List Object)
    → any q (keep p os) ≡ true
    → any (λ o. p o && q o) os ≡ true
any-keep_both p q [] h = h
any-keep_both p q (o ∷ os) h = ground (arith, any-keep_both p q os)

length-keep_mono :
    (p q : Object → Bool) (os : List Object)
    → ((o : Object) → p o ≡ true → q o ≡ true)
    → length (keep p os) ≤ length (keep q os)
length-keep_mono p q [] h = omega arith
length-keep_mono p q (o ∷ os) h = ground (arith, h o, length-keep_mono p q os h)

length-keep_lt :
    (p q : Object → Bool) (os : List Object)
    → ((o : Object) → p o ≡ true → q o ≡ true)
    → any (λ o. q o && not (p o)) os ≡ true
    → length (keep p os) < length (keep q os)
length-keep_lt p q [] h a = absurd (cc)
length-keep_lt p q (o ∷ os) h a =
    ground (arith, h o, length-keep_lt p q os h, length-keep_mono p q os h)

length-keep-keep :
    (p q : Object → Bool) (os : List Object) → length (keep p (keep q os)) ≤ length (keep p os)
length-keep-keep p q [] = omega arith
length-keep-keep p q (o ∷ os) = ground (arith, length-keep-keep p q os)

module _ (e : Engine) where
  last_key-any :
      (k : Bytes) (os : List Object)
      → is_empty e os ≡ false
      → any (λ o. eq_bytes o.key (last_key e k os)) os ≡ true
  last_key-any k [] h = absurd (cc)
  last_key-any k (o ∷ []) h = ground (arith, (eq_bytes_iff o.key o.key).1 refl)
  last_key-any k (o ∷ o' ∷ os) h = ground (arith, last_key-any o.key (o' ∷ os) refl)

  -- The rows that a page after this key may hold, or a later one.
  abbrev beyond : Bytes → Bytes → Object → Bool
  beyond namespace k o = e.before namespace k o.namespace o.key

  delete_page-count :
      (p : Object → Bool) (batch : List Object) (s : State)
      → length (keep p (delete_page e batch s).0.rows) ≤ length (keep p s.rows)
  unfolding delete_page delete_batch
  delete_page-count p batch s =
      ground (arith, length-keep-keep p (λ o. not (e.barrier o && any (same_key e o) batch)) s.rows)

  pub process_page-count :
      (index : ℕ) (asks : List Object → Bool) (doomed p : Object → Bool) (page : List Object)
      (s : State)
      → length (keep p (process_page e index asks doomed page s).0.rows) ≤ length (keep p s.rows)
  unfolding process_page
  process_page-count index asks doomed p page s =
      let (u, batch) = accounted e index doomed page s.usage in
      let faults = if asks page then later e s.faults else s.faults in
      ground (arith, delete_page-count p batch (record s { faults = faults; usage = u }))

  delete_page-works :
      (batch : List Object) (s : State)
      → s.faults ≡ []
      → ((delete_page e batch s).1 ≡ true) × ((delete_page e batch s).0.faults ≡ [])
  unfolding delete_page
  delete_page-works batch s h = (ground arith, ground arith)

  pub process_page-works :
      (index : ℕ) (asks : List Object → Bool) (doomed : Object → Bool) (page : List Object)
      (s : State)
      → s.faults ≡ []
      → ((process_page e index asks doomed page s).1 ≡ true)
        × ((process_page e index asks doomed page s).0.faults ≡ [])
  unfolding process_page
  process_page-works index asks doomed page s h =
      let (u, batch) = accounted e index doomed page s.usage in
      let faults = if asks page then later e s.faults else s.faults in
      let none_left : faults ≡ [] = ground arith in
      let works = delete_page-works batch (record s { faults = faults; usage = u }) none_left in
      (ground (arith, works.0), ground (arith, works.1))

  module _ (namespace : Bytes) (irrefl : (k : Bytes) → e.before namespace k namespace k ≡ false)
      (trans : (a b n c : Bytes)
        → e.before namespace a namespace b ≡ true
        → e.before namespace b n c ≡ true
        → e.before namespace a n c ≡ true) where
    abbrev last_of : Bytes → List Object → Bytes
    last_of k rows = last_key e k (page_of e namespace (scan e namespace k rows))

    -- The last row of a page that is not empty.
    page-last :
        (k : Bytes) (rows : List Object)
        → is_empty e (page_of e namespace (scan e namespace k rows)) ≡ false
        → any
            (λ o.
              (beyond namespace k o && e.barrier o)
              && (eq_bytes o.namespace namespace && eq_bytes o.key (last_of k rows)))
            rows
          ≡ true
    unfolding scan
    page-last k rows h =
        any-keep_both (λ o. beyond namespace k o && e.barrier o) _ rows
          (any-take e.batch_size _ _
            (any-page_of e namespace (λ o. eq_bytes o.key (last_of k rows)) _ (last_key-any k _ h)))

    at_last :
        (o : Object) (a k : Bytes)
        → eq_bytes o.namespace namespace ≡ true
        → eq_bytes o.key k ≡ true
        → beyond namespace a o ≡ e.before namespace a namespace k
    at_last o a k n h =
        ap (λ n. e.before namespace a n o.key) ((eq_bytes_iff o.namespace namespace).0 n)
        ∙ ap (e.before namespace a namespace) ((eq_bytes_iff o.key k).0 h)

    page-shrinks :
        (k : Bytes) (rows : List Object)
        → is_empty e (page_of e namespace (scan e namespace k rows)) ≡ false
        → length (keep (beyond namespace (last_of k rows)) rows)
          < length (keep (beyond namespace k) rows)
    page-shrinks k rows h =
        let last = last_of k rows in
        let found = page-last k rows h in
        let forward : e.before namespace k namespace last ≡ true =
          any_const _ _ rows (λ o a. ground (arith, at_last o k last)) found in
        length-keep_lt (beyond namespace last) (beyond namespace k) rows
          (λ o. trans k last o.namespace o.key forward)
          (any_mono _ _ rows (λ o a. ground (arith, at_last o last last, irrefl last)) found)

    run_stage-succeeds :
        (fuel index : ℕ) (asks : List Object → Bool) (doomed : Object → Bool) (k : Bytes)
        (s : State)
        → s.faults ≡ []
        → length (keep (beyond namespace k) s.rows) < fuel
        → (run_stage e fuel namespace index asks doomed k s).1 ≡ true
    unfolding run_stage
    run_stage-succeeds zero index asks doomed k s f h = absurd (omega (arith, h))
    run_stage-succeeds (suc fuel) index asks doomed k s f h =
        let s' = record s { faults = later e s.faults } in
        let page = page_of e namespace (scan e namespace k s.rows) in
        let done = process_page e index asks doomed page s' in
        let none_left : s'.faults ≡ [] = ground arith in
        let works = process_page-works index asks doomed page s' none_left in
        let count =
          process_page-count index asks doomed (beyond namespace (last_of k s.rows)) page s' in
        let rest = run_stage-succeeds fuel index asks doomed (last_of k s.rows) done.0 works.1 in
        ground (arith, works.0, count, rest, page-shrinks k s.rows)

-- The order of the keys in the namespace is irreflexive, and transitive from there: a pass none of
-- whose statements fails ends without an error, with a fuel that exceeds the number of rows after its
-- cursor. The cursor so moves on with every page, whatever the rule and the size of a page.
pub run_stage_ends :
    (e : Engine) (namespace : Bytes) (fuel index : ℕ) (asks : List Object → Bool)
    (doomed : Object → Bool) (k : Bytes) (s : State)
    → ((k : Bytes) → e.before namespace k namespace k ≡ false)
    → ((a b n c : Bytes)
        → e.before namespace a namespace b ≡ true
        → e.before namespace b n c ≡ true
        → e.before namespace a n c ≡ true)
    → s.faults ≡ []
    → length (keep (λ o. e.before namespace k o.namespace o.key) s.rows) < fuel
    → (run_stage e fuel namespace index asks doomed k s).1 ≡ true
run_stage_ends e namespace fuel index asks doomed k s irrefl trans f h =
    run_stage-succeeds e namespace irrefl trans fuel index asks doomed k s f h
