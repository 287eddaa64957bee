-- ===== src/Blob/Lru/Invariant.antt =====
-- The well-formedness of a shard: the map and the list agree, keys are
-- distinct, the list fits, and `marked` counts the stamped entries.
use bakery.Base.{
  ℕ, ◌+◌, ◌-◌, ◌==◌, ◌≤◌, ◌<◌, ◌≡◌, refl, false, none, some, List, [], ◌∷◌, Bytes, contains,
  eq_bytes, eq_bytes_iff, length, is_some, if◌then◌else◌, arith, Option-cases, Bool-cases, ltb, inl,
  inr,
}
use bakery.Blob.Lru.Entries.{
  Meta, Entry, find, remove, back, marks, mark_of, Distinct, key-find, find-remove, Distinct-remove,
  length-remove, marks-remove, find-back, remove_back-eq-remove,
}
use bakery.Blob.Lru.{Shard, delete, lookup, get_hit, get, refresh, push_front, evict, insert_locked}

-- The two structures of a shard that hold entries, and its counter.
pub record Agrees (m : List Bytes) (ll : List Entry) (marked : ℕ) : Type 0 where
  pub indexed : (k : Bytes) → contains k m ≡ is_some (find k ll)
  pub distinct : Distinct ll
  pub counted : marked ≡ marks ll

pub record IsValid (s : Shard) : Type 0 where
  pub agrees : Agrees s.m s.ll s.marked
  pub open agrees use *
  pub bounded : length s.ll ≤ s.cap

pub lookup-eq-find : (s : Shard) → Agrees s.m s.ll s.marked → (k : Bytes) → lookup s k ≡ find k s.ll
unfolding lookup
lookup-eq-find s a k = ground (arith, a.indexed k)

pub contains-delete :
    (k j : Bytes) (m : List Bytes)
    → contains j (delete k m) ≡ (if eq_bytes k j then false else contains j m)
unfolding contains delete
contains-delete k j [] = ground arith
contains-delete k j (x ∷ m) =
    ground (arith, contains-delete k j m, eq_bytes_iff x k, eq_bytes_iff x j, eq_bytes_iff k j)

-- An entry taken out and put back at the front, with another payload.
module _ (k : Bytes) (m : List Bytes) (l : List Entry) (marked : ℕ) (a : Agrees m l marked)
    (e : Entry) (found : find k l ≡ some e) where
  taken : Distinct (remove k l) × (find k (remove k l) ≡ none)
  taken = (
    Distinct-remove k l a.distinct,
    ground (arith, find-remove k k l a.distinct, eq_bytes_iff k k),
  )

  front_indexed :
      (e' : Entry)
      → e'.key ≡ e.key
      → (j : Bytes) → contains j m ≡ is_some (find j (e' ∷ remove k l))
  unfolding find
  front_indexed e' same j = ground (
    arith,
    a.indexed j,
    find-remove k j l a.distinct,
    key-find k l e found,
    eq_bytes_iff k j,
    eq_bytes_iff e'.key j,
  )

  front-Agrees :
      (e' : Entry) (marked' : ℕ)
      → e'.key ≡ e.key
      → marked' + mark_of e ≡ marked + mark_of e'
      → Agrees m (e' ∷ remove k l) marked'
  unfolding marks
  front-Agrees e' marked' same count = record {
    indexed = front_indexed e' same;
    distinct = (ground (arith, taken.1, key-find k l e found, same), taken.0);
    counted = ground (arith, a.counted, marks-remove k l e found);
  }

  out-Agrees :
      (marked' : ℕ) → marked' + mark_of e ≡ marked → Agrees (delete k m) (remove k l) marked'
  out-Agrees marked' count = record {
    indexed = λ j. ground (arith, contains-delete k j m, a.indexed j, find-remove k j l a.distinct);
    distinct = taken.0;
    counted = ground (arith, a.counted, marks-remove k l e found);
  }

pub back-eq-none : (l : List Entry) → back l ≡ none → l ≡ []
unfolding back
back-eq-none [] h = refl
back-eq-none (x ∷ []) h = cc
back-eq-none (x ∷ y ∷ l) h = cc (back-eq-none (y ∷ l) h)

-- An entry leaves the shard, and takes its stamp with it.
pub drop-Agrees :
    (k : Bytes) (m : List Bytes) (l : List Entry) (marked : ℕ)
    → Agrees m l marked
    → (e : Entry) → find k l ≡ some e
    → Agrees (delete k m) (remove k l) (if e.marked_at == 0 then marked else marked - 1)
drop-Agrees k m l marked a e found =
    out-Agrees k m l marked a e found _ (ground (arith, a.counted, marks-remove k l e found))

-- The eviction mends a shard that is over its capacity by one.
evict-IsValid :
    (s : Shard) → Agrees s.m s.ll s.marked → length s.ll ≤ s.cap + 1 → IsValid (evict s).0
unfolding evict
evict-IsValid s a h = elim (Option-cases (back s.ll)) [
  | inl e ↦ rw (e, evict) (record { agrees = a; bounded = rw (back-eq-none s.ll e) (omega arith) })
  | inr (e, p) ↦ elim (Bool-cases (ltb s.cap (length s.ll))) [
    | inl over ↦
        let found = find-back s.ll e a.distinct p in
        rw (p, evict)
          (rw over (
            rw (remove_back-eq-remove s.ll e a.distinct p) (record {
              agrees = drop-Agrees e.key s.m s.ll s.marked a e found;
              bounded = omega (arith, length-remove e.key s.ll e found);
            })))
    | inr fits ↦ rw (p, evict) (rw fits (record { agrees = a; bounded = ground arith }))
  ]
]

get_hit-IsValid :
    (k : Bytes) (now : ℕ) (s : Shard) (e : Entry)
    → 0 < now
    → IsValid s
    → find k s.ll ≡ some e
    → IsValid (get_hit k now s e)
unfolding get_hit
get_hit-IsValid k now s e pos v found = record {
  agrees = front-Agrees k s.m s.ll s.marked v.agrees e found _ _ (ground arith) (ground arith);
  bounded = ground (arith, v.bounded, length-remove k s.ll e found);
}

-- A read keeps the shard well-formed, where the clock is past its epoch.
pub get-IsValid : (k : Bytes) (now : ℕ) (s : Shard) → 0 < now → IsValid s → IsValid (get k now s).1
unfolding get
get-IsValid k now s pos v = elim (Option-cases (find k s.ll)) [
  | inl e ↦ rw (lookup-eq-find s v.agrees k, e, get) v
  | inr (e, p) ↦ rw (lookup-eq-find s v.agrees k, p, get) (get_hit-IsValid k now s e pos v p)
]

refresh-IsValid :
    (k : Bytes) (meta : Meta) (at : ℕ) (s : Shard) (e : Entry)
    → IsValid s
    → find k s.ll ≡ some e
    → IsValid (refresh k meta at s e)
unfolding refresh
refresh-IsValid k meta at s e v found = record {
  agrees = front-Agrees k s.m s.ll s.marked v.agrees e found _ _ (ground arith) (ground arith);
  bounded = ground (arith, v.bounded, length-remove k s.ll e found);
}

pub push_front-Agrees :
    (k : Bytes) (meta : Meta) (at : ℕ) (s : Shard)
    → Agrees s.m s.ll s.marked
    → find k s.ll ≡ none
    → Agrees (push_front k meta at s).m (push_front k meta at s).ll (push_front k meta at s).marked
unfolding push_front contains find marks
push_front-Agrees k meta at s a missing = record {
  indexed = λ j. ground (arith, a.indexed j);
  distinct = (missing, a.distinct);
  counted = ground (arith, a.counted);
}

pub insert_locked-IsValid :
    (k : Bytes) (meta : Meta) (at : ℕ) (s : Shard)
    → IsValid s
    → IsValid (insert_locked k meta at s).0
unfolding insert_locked
insert_locked-IsValid k meta at s v = elim (Option-cases (find k s.ll)) [
  | inl e ↦
      rw (lookup-eq-find s v.agrees k, e, insert_locked)
        (evict-IsValid (push_front k meta at s) (push_front-Agrees k meta at s v.agrees e)
          (omega (arith, v.bounded)))
  | inr (e, p) ↦
      rw (lookup-eq-find s v.agrees k, p, insert_locked) (refresh-IsValid k meta at s e v p)
]
