-- ===== src/Blob/Lru/Contents.antt =====
-- What a lookup finds after a write, a deletion or an eviction, and which fills land.
use bakery.Base.{
  ℕ, ◌<◌, ◌≡◌, ◌==◌, Bool, true, false, not, ◌&&◌, Option, none, some, List, [], ◌∷◌, Bytes,
  eq_bytes, eq_bytes_iff, length, ltb, if◌then◌else◌, is_some, arith, Option-cases, inl, inr,
}
use bakery.Blob.Lru.Entries.{
  Meta, Entry, find, back, find-back, remove_back-eq-remove, find-remove, key-find,
}
use bakery.Blob.Lru.{
  Shard, get, insert_locked, refresh, push_front, evict, bump, put, drop_key, del,
}
use bakery.Blob.Lru.Invariant.{Agrees, IsValid, lookup-eq-find, push_front-Agrees, back-eq-none}
use bakery.Blob.Lru.Runs.{bump-IsValid, put-IsValid, del-IsValid}

abbrev pub meta_of : Option Entry → Option Meta
meta_of none = none
meta_of (some e) = some e.meta

-- What `get` answers for a key, leaving the shard as it is.
abbrev pub view : Shard → Bytes → Option Meta
view s k = (get k 0 s).0

abbrev pub key_is : Bytes → Option Entry → Bool
key_is k none = false
key_is k (some e) = eq_bytes e.key k

-- The key that a write of `k` pushes out: the least recently used one of a full shard.
abbrev pub evicts : Shard → Bytes → Bytes → Bool
evicts s k j = not (is_some (view s k)) && s.cap == length s.ll && key_is j (back s.ll)

pub view-eq-find : (s : Shard) → IsValid s → (k : Bytes) → view s k ≡ meta_of (find k s.ll)
unfolding get
view-eq-find s v k = ground (arith, lookup-eq-find s v.agrees k)

find-evict :
    (s : Shard) (j : Bytes)
    → Agrees s.m s.ll s.marked
    → find j (evict s).0.ll
      ≡ (if ltb s.cap (length s.ll) && key_is j (back s.ll) then none else find j s.ll)
unfolding evict
find-evict s j a = elim (Option-cases (back s.ll)) [
  | inl e ↦ rw (e, evict) (ground arith)
  | inr (e, p) ↦
      rw (p, evict)
        (ground
          (arith, remove_back-eq-remove s.ll e a.distinct p, find-remove e.key j s.ll a.distinct))
]

back-cons : (n : Entry) (l : List Entry) (e : Entry) → back l ≡ some e → back (n ∷ l) ≡ some e
unfolding back
back-cons n [] e h = cc
back-cons n (x ∷ l) e h = h

pub find-insert_new :
    (s : Shard) (k j : Bytes) (meta : Meta) (at : ℕ)
    → 0 < s.cap
    → IsValid s
    → find k s.ll ≡ none
    → find j (evict (push_front k meta at s)).0.ll ≡ (
        if eq_bytes k j
        then some (record { key = k; meta = meta; marked_at = at })
        else if s.cap == length s.ll && key_is j (back s.ll)
        then none
        else find j s.ll)
find-insert_new s k j meta at pos v missing =
    rw (find-evict (push_front k meta at s) j (push_front-Agrees k meta at s v.agrees missing)) (
      unfold push_front find in
      (elim (Option-cases (back s.ll)) [
        | inl e ↦ rw e (ground (arith, back-eq-none s.ll e, e))
        | inr (e, p) ↦ ground (
          arith,
          p,
          back-cons (record { key = k; meta = meta; marked_at = at }) s.ll e p,
          find-back s.ll e v.distinct p,
          eq_bytes_iff e.key j,
          eq_bytes_iff k j,
          v.bounded,
        )
      ]))

module _ (s : Shard) (k : Bytes) (meta : Meta) (at : ℕ) (v : IsValid s) where
  pub insert_present :
      (e : Entry)
      → find k s.ll ≡ some e
      → insert_locked k meta at s ≡ (refresh k meta at s e, false, false)
  unfolding insert_locked
  insert_present e p = rw (lookup-eq-find s v.agrees k, p, insert_locked)

  pub insert_absent :
      find k s.ll ≡ none
      → insert_locked k meta at s
        ≡ ((evict (push_front k meta at s)).0, true, (evict (push_front k meta at s)).1)
  unfolding insert_locked
  insert_absent p = rw (lookup-eq-find s v.agrees k, p, insert_locked)

pub find-refresh :
    (s : Shard) (k j : Bytes) (meta : Meta) (at : ℕ) (e : Entry)
    → IsValid s
    → find k s.ll ≡ some e
    → find j (refresh k meta at s e).ll ≡ (
        if eq_bytes k j
        then some (record e {
          meta = meta;
          marked_at = if e.marked_at == 0 && not (at == 0) then at else e.marked_at;
        })
        else find j s.ll)
unfolding refresh find
find-refresh s k j meta at e v p =
    ground (arith, key-find k s.ll e p, find-remove k j s.ll v.distinct, eq_bytes_iff e.key j)

-- In a well-formed shard with a capacity, a write is read back at its key, and leaves every other
-- key as it was but the one that it evicts: the least recently used one, where the key is new and
-- the shard full.
pub view-put :
    (s : Shard) (k j : Bytes) (meta : Meta)
    → 0 < s.cap
    → IsValid s
    → view (put k meta s).0 j
      ≡ (if eq_bytes k j then some meta else if evicts s k j then none else view s j)
unfolding put
view-put s k j meta pos v = rw (view-eq-find (put k meta s).0 (put-IsValid k meta s v) j) (
    rw (view-eq-find s v j, view-eq-find s v k)
      (elim (Option-cases (find k s.ll)) [
        | inl e ↦
            rw (e, insert_absent (bump s) k meta 0 (bump-IsValid s v) e)
              (ground (arith, find-insert_new (bump s) k j meta 0 pos (bump-IsValid s v) e))
        | inr (e, p) ↦
            rw (p, insert_present (bump s) k meta 0 (bump-IsValid s v) e p)
              (ground (arith, find-refresh s k j meta 0 e v p))
      ]))

-- A deletion removes its key and nothing else.
pub view-del :
    (s : Shard) (k j : Bytes)
    → IsValid s
    → view (del k s) j ≡ (if eq_bytes k j then none else view s j)
unfolding del drop_key bump
view-del s k j v =
    rw (view-eq-find (del k s) (del-IsValid k s v) j, view-eq-find s v j)
      (ground (
        arith,
        lookup-eq-find (bump s) v.agrees k,
        find-remove k j s.ll v.distinct,
        eq_bytes_iff k j,
      ))
