-- ===== src/Blob/Lru.antt =====
-- internal/blob/lru.go: one shard of the sharded object cache. A method that takes the shard's
-- mutex is a function from the shard to its result and the new shard. The clock is an argument.
-- The proofs are in the modules below.
pub mod Entries
pub mod Invariant
pub mod Contents
pub mod Marks
pub mod Fills
pub mod Runs
mod Tests
use bakery.Base.{
  ℕ, ◌+◌, ◌-◌, ◌/◌, ◌%◌, ◌^◌, Bool, true, false, not, ◌&&◌, Option, none, some, List, [], ◌∷◌,
  Bytes, contains, eq_bytes, keep, length, ltb, ◌==◌, if◌then◌else◌,
}
use bakery.Blob.Lru.Entries.{Meta, Entry, find, remove, back, remove_back}

-- `m` holds the keys of the shard's map. A value of the map is the element of `ll` with that key,
-- and `gen` is a uint64.
pub record Shard : Type 0 where
  pub m : List Bytes
  pub ll : List Entry
  pub cap : ℕ
  pub gen : ℕ
  pub marked : ℕ

-- A shard of newLRU.
unfoldable pub new_shard : ℕ → Shard
new_shard capacity = record { m = []; ll = []; cap = per_shard; gen = 0; marked = 0 }
  where
    per_shard : ℕ
    per_shard = if ltb (capacity / 64) 1 then 1 else capacity / 64

-- delete(s.m, key)
unfoldable pub delete : Bytes → List Bytes → List Bytes
delete key m = keep (λ k. not (eq_bytes k key)) m

-- el, ok := s.m[key]
unfoldable pub lookup : Shard → Bytes → Option Entry
lookup s key = if contains key s.m then find key s.ll else none

-- The rest of `get` once the entry is found: move to the front, and stamp the first read.
unfoldable pub get_hit : Bytes → ℕ → Shard → Entry → Shard
get_hit key now s e =
    let fresh = e.meta.exists && e.marked_at == 0 in
    let e' : Entry = if fresh then record e { marked_at = now } else e in
    record s { ll = e' ∷ remove key s.ll; marked = if fresh then s.marked + 1 else s.marked }

unfoldable pub get : Bytes → ℕ → Shard → Option Meta × Shard
unfolding lookup get_hit
get key now s = elim (lookup s key) [
  | none ↦ (none, s)
  | some e ↦ (some e.meta, get_hit key now s e)
]

-- `insertLocked` on a key that is present.
unfoldable pub refresh : Bytes → Meta → ℕ → Shard → Entry → Shard
refresh key meta marked_at s e =
    let stamps = e.marked_at == 0 && not (marked_at == 0) in
    let e' : Entry = record e {
      meta = meta;
      marked_at = if stamps then marked_at else e.marked_at;
    } in
    record s { ll = e' ∷ remove key s.ll; marked = if stamps then s.marked + 1 else s.marked }

-- `insertLocked` on a new key, before the eviction.
unfoldable pub push_front : Bytes → Meta → ℕ → Shard → Shard
push_front key meta marked_at s = record s {
  m = key ∷ s.m;
  ll = record { key = key; meta = meta; marked_at = marked_at } ∷ s.ll;
  marked = if marked_at == 0 then s.marked else s.marked + 1;
}

-- The eviction of the tail when the shard is over its capacity, and whether there was one.
unfoldable pub evict : Shard → Shard × Bool
unfolding delete
evict s = elim (back s.ll) [
  | none ↦ (s, false)
  | some e ↦
      if ltb s.cap (length s.ll)
      then (
        record s {
          m = delete e.key s.m;
          ll = remove_back s.ll;
          marked = if e.marked_at == 0 then s.marked else s.marked - 1;
        },
        true,
      )
      else (s, false)
]

-- insertLocked: the shard, `added` and `evicted`.
unfoldable pub insert_locked : Bytes → Meta → ℕ → Shard → Shard × Bool × Bool
unfolding lookup refresh push_front evict
insert_locked key meta marked_at s = elim (lookup s key) [
  | some e ↦ (refresh key meta marked_at s e, false, false)
  | none ↦ let (s', evicted) = evict (push_front key meta marked_at s) in (s', true, evicted)
]

unfoldable pub bump : Shard → Shard
bump s = record s { gen = (s.gen + 1) % 2 ^ 64 }

unfoldable pub seq : Shard → ℕ
seq s = s.gen

unfoldable pub put : Bytes → Meta → Shard → Shard × Bool × Bool
unfolding bump insert_locked
put key meta s = insert_locked key meta 0 (bump s)

-- `landed`, the shard, and what is recorded for the metrics.
unfoldable pub put_if_unchanged : Bytes → Meta → ℕ → ℕ → Shard → Bool × Shard × Bool × Bool
unfolding insert_locked
put_if_unchanged key meta seq now s =
    let (s', added, evicted) = insert_locked key meta (if meta.exists then now else 0) s in
    if s.gen == seq then (true, s', added, evicted) else (false, s, false, false)

-- What `del` and `delBatch` do to one key.
unfoldable pub drop_key : Bytes → Shard → Shard
unfolding lookup delete
drop_key key s = elim (lookup s key) [
  | none ↦ s
  | some e ↦ record s {
    m = delete key s.m;
    ll = remove key s.ll;
    marked = if e.marked_at == 0 then s.marked else s.marked - 1;
  }
]

unfoldable pub del : Bytes → Shard → Shard
unfolding bump drop_key
del key s = drop_key key (bump s)

drop_keys : List Bytes → Shard → Shard
drop_keys [] s = s
drop_keys (k ∷ ks) s = drop_keys ks (drop_key k s)

-- The keys of a batch that fall into this shard: one bump for them all, none without keys.
unfoldable pub del_batch : List Bytes → Shard → Shard
unfolding bump drop_keys drop_key
del_batch [] s = s
del_batch (k ∷ ks) s = drop_keys (k ∷ ks) (bump s)

pub record TouchMark : Type 0 where
  pub ck : Bytes
  pub marked_at : ℕ

-- The walk of collectMarks over the elements that are left, `found` marked ones seen.
unfoldable pub collect_from : ℕ → ℕ → ℕ → List Entry → List TouchMark
collect_from cutoff marked found [] = []
collect_from cutoff marked found (e ∷ l) =
    let rest = collect_from cutoff marked (if e.marked_at == 0 then found else found + 1) l in
    if ltb found marked
    then (if e.marked_at == 0
        then rest
        else if ltb cutoff e.marked_at
        then rest
        else record { ck = e.key; marked_at = e.marked_at } ∷ rest)
    else []

unfoldable pub collect_marks : ℕ → Shard → List TouchMark
unfolding collect_from
collect_marks cutoff s = if s.marked == 0 then [] else collect_from cutoff s.marked 0 s.ll

-- The entry with this key loses its stamp, and keeps its place.
unfoldable pub unmark : Bytes → List Entry → List Entry
unmark key [] = []
unmark key (e ∷ l) = if eq_bytes e.key key then record e { marked_at = 0 } ∷ l else e ∷ unmark key l

unfoldable pub clear_mark : TouchMark → Shard → Shard
unfolding lookup unmark
clear_mark t s = elim (lookup s t.ck) [
  | none ↦ s
  | some e ↦
      if e.marked_at == t.marked_at
      then record s { ll = unmark t.ck s.ll; marked = s.marked - 1 }
      else s
]

unfoldable pub clear_marks : List TouchMark → Shard → Shard
unfolding clear_mark
clear_marks [] s = s
clear_marks (t ∷ ts) s = clear_marks ts (clear_mark t s)

unfoldable pub pending_mark : Shard → Bytes → Bool
unfolding lookup
pending_mark s ck = elim (lookup s ck) [ none ↦ false | some e ↦ not (e.marked_at == 0) ]
