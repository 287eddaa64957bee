-- ===== src/Blob/Lru/Marks.antt =====
-- The toucher's stamps: which reads make one, what a flush collects and what it clears.
use bakery.Base.{
  ℕ, ◌+◌, ◌<◌, ◌≡◌, ◌==◌, refl, Bool, false, not, ◌&&◌, Option, none, some, List, [], ◌∷◌, Bytes,
  any, eq_bytes, eq_bytes_iff, leb, if◌then◌else◌, arith, Option-cases, inl, inr,
}
use bakery.Blob.Lru.Entries.{Meta, Entry, find, find-remove, Distinct, key-find, marks}
use bakery.Blob.Lru.{
  Shard, lookup, get, bump, put, TouchMark, collect_from, collect_marks, unmark, clear_mark,
  clear_marks, pending_mark,
}
use bakery.Blob.Lru.Invariant.{IsValid, lookup-eq-find, get-IsValid}
use bakery.Blob.Lru.Runs.{Stamped, clear_mark-IsValid, bump-IsValid, put-IsValid}
use bakery.Blob.Lru.Contents.{
  view, evicts, view-eq-find, insert_present, insert_absent, find-insert_new, find-refresh,
}

abbrev pub stamp_of : Option Entry → ℕ
stamp_of none = 0
stamp_of (some e) = e.marked_at

-- The stamp that a shard holds for a key, 0 for none.
abbrev pub stamp : Shard → Bytes → ℕ
stamp s k = stamp_of (lookup s k)

abbrev pub is_present : Option Meta → Bool
is_present none = false
is_present (some meta) = meta.exists

-- Every stamp at or before the cutoff, in the order of the list: what a full walk would collect.
abbrev pub due : ℕ → List Entry → List TouchMark
due cutoff [] = []
due cutoff (e ∷ l) =
    let rest = due cutoff l in
    if not (e.marked_at == 0) && leb e.marked_at cutoff
    then record { ck = e.key; marked_at = e.marked_at } ∷ rest
    else rest

due-unmarked : (cutoff : ℕ) (l : List Entry) → marks l ≡ 0 → due cutoff l ≡ []
unfolding marks
due-unmarked cutoff [] h = refl
due-unmarked cutoff (e ∷ l) h = ground (arith, due-unmarked cutoff l)

collect_from-eq-due :
    (cutoff marked found : ℕ) (l : List Entry)
    → marked ≡ found + marks l
    → collect_from cutoff marked found l ≡ due cutoff l
unfolding collect_from marks
collect_from-eq-due cutoff marked found [] h = refl
collect_from-eq-due cutoff marked found (e ∷ l) h = ground (
  arith,
  collect_from-eq-due cutoff marked (if e.marked_at == 0 then found else found + 1) l,
  due-unmarked cutoff l,
)

-- The walk that stops after `marked` stamped entries misses none: on a well-formed shard it
-- collects what a walk of the whole list would.
pub collect_marks-eq-due :
    (cutoff : ℕ) (s : Shard) → IsValid s → collect_marks cutoff s ≡ due cutoff s.ll
unfolding collect_marks
collect_marks-eq-due cutoff s v =
    ground (arith, collect_from-eq-due cutoff s.marked 0 s.ll, due-unmarked cutoff s.ll, v.counted)

find-unmark_stamp :
    (k j : Bytes) (l : List Entry)
    → stamp_of (find j (unmark k l)) ≡ (if eq_bytes k j then 0 else stamp_of (find j l))
unfolding find unmark
find-unmark_stamp k j [] = ground arith
find-unmark_stamp k j (x ∷ l) =
    ground
      (arith, find-unmark_stamp k j l, eq_bytes_iff x.key k, eq_bytes_iff x.key j, eq_bytes_iff k j)

-- A mark is the stamp that the shard holds.
abbrev pub is_mark : Bytes → ℕ → TouchMark → Bool
is_mark k a t = eq_bytes t.ck k && a == t.marked_at

stamp-clear_mark :
    (t : TouchMark) (s : Shard) (k : Bytes)
    → 0 < t.marked_at
    → IsValid s
    → stamp (clear_mark t s) k ≡ (if is_mark k (stamp s k) t then 0 else stamp s k)
stamp-clear_mark t s k pos v =
    rw
      (
        lookup-eq-find (clear_mark t s) (clear_mark-IsValid t s pos v).agrees k,
        lookup-eq-find s v.agrees k,
      )
      (unfold clear_mark in
        ground (
          arith,
          lookup-eq-find s v.agrees t.ck,
          find-unmark_stamp t.ck k s.ll,
          eq_bytes_iff t.ck k,
        ))

-- In a well-formed shard, clearing marks with a stamp past the epoch removes exactly the stamps
-- that equal a reported mark: one that was made since the report keeps its place.
pub stamp-clear_marks :
    (ts : List TouchMark) (s : Shard) (k : Bytes)
    → Stamped ts
    → IsValid s
    → stamp (clear_marks ts s) k ≡ (if any (is_mark k (stamp s k)) ts then 0 else stamp s k)
unfolding clear_marks
stamp-clear_marks [] s k h v = refl
stamp-clear_marks (t ∷ ts) s k h v = ground (
  arith,
  stamp-clear_mark t s k h.0 v,
  stamp-clear_marks ts (clear_mark t s) k h.1 (clear_mark-IsValid t s h.0 v),
)

due-Stamped : (cutoff : ℕ) (l : List Entry) → Stamped (due cutoff l)
due-Stamped cutoff [] = tt
due-Stamped cutoff (e ∷ l) = ground (arith, due-Stamped cutoff l)

due-missing :
    (cutoff : ℕ) (l : List Entry) (k : Bytes) (a : ℕ)
    → find k l ≡ none
    → any (is_mark k a) (due cutoff l) ≡ false
unfolding find
due-missing cutoff [] k a h = refl
due-missing cutoff (e ∷ l) k a h = ground (arith, due-missing cutoff l k a)

any-due :
    (cutoff : ℕ) (l : List Entry) (k : Bytes)
    → Distinct l
    → any (is_mark k (stamp_of (find k l))) (due cutoff l)
      ≡ (not (stamp_of (find k l) == 0) && leb (stamp_of (find k l)) cutoff)
unfolding find
any-due cutoff [] k d = ground arith
any-due cutoff (e ∷ l) k d =
    ground (arith, any-due cutoff l k d.1, due-missing cutoff l k e.marked_at, eq_bytes_iff e.key k)

-- A flush of a well-formed shard with no read in between: the stamps at or before the cutoff are
-- gone, the younger ones are as they were.
pub stamp-flush :
    (cutoff : ℕ) (s : Shard) (k : Bytes)
    → IsValid s
    → stamp (clear_marks (collect_marks cutoff s) s) k
      ≡ (if leb (stamp s k) cutoff then 0 else stamp s k)
stamp-flush cutoff s k v = rw (collect_marks-eq-due cutoff s v) (
    ground (
      arith,
      stamp-clear_marks (due cutoff s.ll) s k (due-Stamped cutoff s.ll) v,
      lookup-eq-find s v.agrees k,
      any-due cutoff s.ll k v.distinct,
    ))

-- The veto answers exactly for the keys that hold a stamp.
pub pending_mark-eq-stamp : (s : Shard) (k : Bytes) → pending_mark s k ≡ not (stamp s k == 0)
unfolding pending_mark
pending_mark-eq-stamp s k = ground arith

-- In a well-formed shard, with a clock past its epoch, a read of a present object stamps it with
-- the clock, unless an earlier read did; a read of a cached absence, a miss, and the read of
-- another key stamp nothing.
pub stamp-get :
    (k j : Bytes) (now : ℕ) (s : Shard)
    → 0 < now
    → IsValid s
    → let positive = is_present (view s k) in
      stamp (get k now s).1 j
      ≡ (if eq_bytes k j && positive && stamp s j == 0 then now else stamp s j)
stamp-get k j now s pos v =
    rw (lookup-eq-find (get k now s).1 (get-IsValid k now s pos v).agrees j) (
      rw (lookup-eq-find s v.agrees j, view-eq-find s v k)
        (elim (Option-cases (find k s.ll)) [
          | inl e ↦ rw e (unfold get in ground (arith, lookup-eq-find s v.agrees k, e))
          | inr (e, p) ↦ rw p (
              unfold get find in
              ground (
                arith,
                p,
                lookup-eq-find s v.agrees k,
                find-remove k j s.ll v.distinct,
                key-find k s.ll e p,
                eq_bytes_iff k j,
              ))
        ]))

-- In a well-formed shard with a capacity, a write makes no stamp and takes none away, but for the
-- entry that it evicts.
pub stamp-put :
    (s : Shard) (k j : Bytes) (meta : Meta)
    → 0 < s.cap
    → IsValid s
    → stamp (put k meta s).0 j ≡ (if evicts s k j then 0 else stamp s j)
unfolding put
stamp-put s k j meta pos v =
    rw (lookup-eq-find (put k meta s).0 (put-IsValid k meta s v).agrees j) (
      rw (lookup-eq-find s v.agrees j, view-eq-find s v k)
        (elim (Option-cases (find k s.ll)) [
          | inl e ↦
              rw (e, insert_absent (bump s) k meta 0 (bump-IsValid s v) e)
                (ground (
                  arith,
                  find-insert_new (bump s) k j meta 0 pos (bump-IsValid s v) e,
                  eq_bytes_iff k j,
                ))
          | inr (e, p) ↦
              rw (p, insert_present (bump s) k meta 0 (bump-IsValid s v) e p)
                (ground (arith, find-refresh s k j meta 0 e v p, eq_bytes_iff k j))
        ]))
