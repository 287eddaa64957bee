-- ===== src/Blob/Lru/Runs.antt =====
-- Sequences of calls on a shard of internal/blob/lru.go.
use bakery.Base.{
  ℕ, ◌+◌, ◌<◌, ◌≡◌, ◌==◌, refl, false, Option, none, some, List, [], ◌∷◌, Bytes, contains, length,
  is_some, arith, Option-cases, Bool-cases, inl, inr, ◌∙◌, sym,
}
use bakery.Blob.Lru.Entries.{Meta, Entry, find, marks, mark_of, Distinct, length-remove}
use bakery.Blob.Lru.{
  Shard, new_shard, get, bump, put, put_if_unchanged, drop_key, del, drop_keys, del_batch,
  TouchMark, unmark, clear_mark, clear_marks,
}
use bakery.Blob.Lru.Invariant.{
  IsValid, lookup-eq-find, drop-Agrees, get-IsValid, insert_locked-IsValid,
}

pub new_shard-IsValid : (capacity : ℕ) → IsValid (new_shard capacity)
unfolding new_shard contains find marks
new_shard-IsValid capacity = record {
  agrees = record { indexed = λ k. refl; distinct = tt; counted = refl };
  bounded = omega arith;
}

pub bump-IsValid : (s : Shard) → IsValid s → IsValid (bump s)
unfolding bump
bump-IsValid s v = record { agrees = v.agrees; bounded = v.bounded }

pub put-IsValid : (k : Bytes) (meta : Meta) (s : Shard) → IsValid s → IsValid (put k meta s).0
unfolding put
put-IsValid k meta s v = insert_locked-IsValid k meta 0 (bump s) (bump-IsValid s v)

pub put_if_unchanged-IsValid :
    (k : Bytes) (meta : Meta) (seq now : ℕ) (s : Shard)
    → IsValid s
    → IsValid (put_if_unchanged k meta seq now s).1
unfolding put_if_unchanged
put_if_unchanged-IsValid k meta seq now s v = elim (Bool-cases (s.gen == seq)) [
  | inl e ↦ rw e (insert_locked-IsValid k meta _ s v)
  | inr e ↦ rw e v
]

drop_key-IsValid : (k : Bytes) (s : Shard) → IsValid s → IsValid (drop_key k s)
unfolding drop_key
drop_key-IsValid k s v = elim (Option-cases (find k s.ll)) [
  | inl e ↦ rw (lookup-eq-find s v.agrees k, e, drop_key) v
  | inr (e, p) ↦
      rw (lookup-eq-find s v.agrees k, p, drop_key)
        (record {
          agrees = drop-Agrees k s.m s.ll s.marked v.agrees e p;
          bounded = omega (arith, v.bounded, length-remove k s.ll e p);
        })
]

drop_keys-IsValid : (ks : List Bytes) (s : Shard) → IsValid s → IsValid (drop_keys ks s)
unfolding drop_keys
drop_keys-IsValid [] s v = v
drop_keys-IsValid (k ∷ ks) s v = drop_keys-IsValid ks (drop_key k s) (drop_key-IsValid k s v)

pub del-IsValid : (k : Bytes) (s : Shard) → IsValid s → IsValid (del k s)
unfolding del
del-IsValid k s v = drop_key-IsValid k (bump s) (bump-IsValid s v)

del_batch-IsValid : (ks : List Bytes) (s : Shard) → IsValid s → IsValid (del_batch ks s)
unfolding del_batch
del_batch-IsValid [] s v = v
del_batch-IsValid (k ∷ ks) s v = drop_keys-IsValid (k ∷ ks) (bump s) (bump-IsValid s v)

pub find-unmark :
    (k j : Bytes) (l : List Entry) → is_some (find j (unmark k l)) ≡ is_some (find j l)
unfolding find unmark
find-unmark k j [] = refl
find-unmark k j (x ∷ l) = ground (arith, find-unmark k j l)

some-none {ℓ} : {A : Type ℓ} (o : Option A) → is_some o ≡ false → o ≡ none
some-none none h = refl
some-none (some a) h = cc

find-unmark-none : (k j : Bytes) (l : List Entry) → find j l ≡ none → find j (unmark k l) ≡ none
find-unmark-none k j l h = some-none _ (rw (find-unmark k j l, h))

Distinct-unmark : (k : Bytes) (l : List Entry) → Distinct l → Distinct (unmark k l)
unfolding unmark
Distinct-unmark k [] d = tt
Distinct-unmark k (x ∷ l) d =
    ground (arith, Distinct-unmark k l d.1, find-unmark-none k x.key l d.0)

length-unmark : (k : Bytes) (l : List Entry) → length (unmark k l) ≡ length l
unfolding unmark
length-unmark k [] = refl
length-unmark k (x ∷ l) = ground (arith, length-unmark k l)

marks-unmark :
    (k : Bytes) (l : List Entry) (e : Entry)
    → find k l ≡ some e
    → marks (unmark k l) + mark_of e ≡ marks l
unfolding find unmark marks
marks-unmark k [] e h = ground arith
marks-unmark k (x ∷ l) e h = ground (arith, marks-unmark k l e)

-- A mark that is flushed is never 0: collectMarks reports stamped entries only.
pub clear_mark-IsValid :
    (t : TouchMark) (s : Shard) → 0 < t.marked_at → IsValid s → IsValid (clear_mark t s)
unfolding clear_mark
clear_mark-IsValid t s pos v = elim (Option-cases (find t.ck s.ll)) [
  | inl e ↦ rw (lookup-eq-find s v.agrees t.ck, e, clear_mark) v
  | inr (e, p) ↦ elim (Bool-cases (e.marked_at == t.marked_at)) [
    | inl same ↦
        rw (lookup-eq-find s v.agrees t.ck, p, clear_mark)
          (rw same (record {
            agrees = record {
              indexed = λ k. v.indexed k ∙ sym (find-unmark t.ck k s.ll);
              distinct = Distinct-unmark t.ck s.ll v.distinct;
              counted = ground (arith, v.counted, marks-unmark t.ck s.ll e p, same);
            };
            bounded = omega (arith, v.bounded, length-unmark t.ck s.ll);
          }))
    | inr other ↦ rw (lookup-eq-find s v.agrees t.ck, p, clear_mark) (rw other v)
  ]
]

abbrev pub Stamped : List TouchMark → Type 0
Stamped [] = Unit {0}
Stamped (t ∷ ts) = (0 < t.marked_at) × Stamped ts

pub clear_marks-IsValid :
    (ts : List TouchMark) (s : Shard) → Stamped ts → IsValid s → IsValid (clear_marks ts s)
unfolding clear_marks
clear_marks-IsValid [] s h v = v
clear_marks-IsValid (t ∷ ts) s h v =
    clear_marks-IsValid ts (clear_mark t s) h.1 (clear_mark-IsValid t s h.0 v)

-- One call on the shard, by the request path, the toucher or the sweep.
pub data Call : Type 0 where
  gets : Bytes → ℕ → Call
  puts : Bytes → Meta → Call
  fills : Bytes → Meta → ℕ → ℕ → Call
  dels : Bytes → Call
  del_batches : List Bytes → Call
  clears : List TouchMark → Call

unfoldable pub step : Call → Shard → Shard
step (gets k now) s = (get k now s).1
step (puts k meta) s = (put k meta s).0
step (fills k meta seq now) s = (put_if_unchanged k meta seq now s).1
step (dels k) s = del k s
step (del_batches ks) s = del_batch ks s
step (clears ts) s = clear_marks ts s

-- The clock is past its epoch, and marks that are cleared were stamped.
abbrev pub IsClocked : Call → Type 0
IsClocked (gets k now) = 0 < now
IsClocked (clears ts) = Stamped ts
IsClocked _ = Unit {0}

abbrev pub AllClocked : List Call → Type 0
AllClocked [] = Unit {0}
AllClocked (c ∷ cs) = IsClocked c × AllClocked cs

unfoldable pub run : List Call → Shard → Shard
run [] s = s
run (c ∷ cs) s = run cs (step c s)

pub step-IsValid : (c : Call) (s : Shard) → IsClocked c → IsValid s → IsValid (step c s)
unfolding step
step-IsValid (gets k now) s h v = get-IsValid k now s h v
step-IsValid (puts k meta) s h v = put-IsValid k meta s v
step-IsValid (fills k meta seq now) s h v = put_if_unchanged-IsValid k meta seq now s v
step-IsValid (dels k) s h v = del-IsValid k s v
step-IsValid (del_batches ks) s h v = del_batch-IsValid ks s v
step-IsValid (clears ts) s h v = clear_marks-IsValid ts s h v

run_keeps : (cs : List Call) (s : Shard) → AllClocked cs → IsValid s → IsValid (run cs s)
unfolding run
run_keeps [] s h v = v
run_keeps (c ∷ cs) s h v = run_keeps cs (step c s) h.1 (step-IsValid c s h.0 v)

-- After any calls on a new shard, with a clock past its epoch and marks to clear that were
-- stamped: the map and the list hold the same keys, no key twice, no more of them than the
-- capacity, and `marked` is the number of stamped entries.
pub run-IsValid :
    (capacity : ℕ) (cs : List Call) → AllClocked cs → IsValid (run cs (new_shard capacity))
run-IsValid capacity cs h = run_keeps cs (new_shard capacity) h (new_shard-IsValid capacity)
