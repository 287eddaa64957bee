-- ===== src/Blob/Lru/Entries.antt =====
-- The entries of a shard as a list, most recently used first: what container/list does to them.
use bakery.Base.{
  ℕ, ◌+◌, ◌≡◌, Bool, Option, none, some, List, [], ◌∷◌, Bytes, eq_bytes, eq_bytes_iff, length, suc,
  ◌==◌, if◌then◌else◌, arith,
}

-- blob.Meta. `exists` is a field: a negative result is cached too.
pub record Meta : Type 0 where
  pub exists : Bool
  pub digest : Bytes
  pub size : ℕ
  pub updated_at : ℕ
  pub content_type : Bytes

-- lruEntry. `marked_at` is the toucher's stamp, 0 for none.
pub record Entry : Type 0 where
  pub key : Bytes
  pub meta : Meta
  pub marked_at : ℕ

unfoldable pub find : Bytes → List Entry → Option Entry
find k [] = none
find k (e ∷ l) = if eq_bytes e.key k then some e else find k l

-- ll.Remove of the element with this key
unfoldable pub remove : Bytes → List Entry → List Entry
remove k [] = []
remove k (e ∷ l) = if eq_bytes e.key k then l else e ∷ remove k l

-- ll.Back()
unfoldable pub back : List Entry → Option Entry
back [] = none
back (e ∷ []) = some e
back (e ∷ f ∷ l) = back (f ∷ l)

-- ll.Remove(ll.Back())
unfoldable pub remove_back : List Entry → List Entry
remove_back [] = []
remove_back (e ∷ []) = []
remove_back (e ∷ f ∷ l) = e ∷ remove_back (f ∷ l)

abbrev pub mark_of : Entry → ℕ
mark_of e = if e.marked_at == 0 then 0 else 1

-- How many entries carry a stamp.
unfoldable pub marks : List Entry → ℕ
marks [] = 0
marks (e ∷ l) = mark_of e + marks l

-- No two entries have one key.
abbrev pub Distinct : List Entry → Type 0
Distinct [] = Unit {0}
Distinct (e ∷ l) = (find e.key l ≡ none) × Distinct l

pub key-find : (k : Bytes) (l : List Entry) (e : Entry) → find k l ≡ some e → e.key ≡ k
unfolding find
key-find k [] e h = ground arith
key-find k (x ∷ l) e h = ground (arith, eq_bytes_iff x.key k, key-find k l e)

pub find-remove :
    (k j : Bytes) (l : List Entry)
    → Distinct l
    → find j (remove k l) ≡ (if eq_bytes k j then none else find j l)
unfolding find remove
find-remove k j [] d = ground arith
find-remove k j (x ∷ l) d =
    ground
      (arith, find-remove k j l d.1, eq_bytes_iff x.key k, eq_bytes_iff x.key j, eq_bytes_iff k j)

pub Distinct-remove : (k : Bytes) (l : List Entry) → Distinct l → Distinct (remove k l)
unfolding remove
Distinct-remove k [] d = tt
Distinct-remove k (x ∷ l) d = ground (arith, Distinct-remove k l d.1, find-remove k x.key l d.1)

pub length-remove :
    (k : Bytes) (l : List Entry) (e : Entry)
    → find k l ≡ some e
    → length l ≡ suc (length (remove k l))
unfolding find remove
length-remove k [] e h = ground arith
length-remove k (x ∷ l) e h = ground (arith, length-remove k l e)

pub marks-remove :
    (k : Bytes) (l : List Entry) (e : Entry)
    → find k l ≡ some e
    → marks l ≡ mark_of e + marks (remove k l)
unfolding find remove marks
marks-remove k [] e h = ground arith
marks-remove k (x ∷ l) e h = ground (arith, marks-remove k l e)

pub find-back : (l : List Entry) (e : Entry) → Distinct l → back l ≡ some e → find e.key l ≡ some e
unfolding find back
find-back [] e d h = ground arith
find-back (x ∷ []) e d h = ground (arith, eq_bytes_iff x.key e.key)
find-back (x ∷ y ∷ l) e d h = ground (arith, find-back (y ∷ l) e d.1 h, eq_bytes_iff x.key e.key)

pub remove_back-eq-remove :
    (l : List Entry) (e : Entry) → Distinct l → back l ≡ some e → remove_back l ≡ remove e.key l
unfolding back remove remove_back
remove_back-eq-remove [] e d h = ground arith
remove_back-eq-remove (x ∷ []) e d h = ground (arith, eq_bytes_iff x.key e.key)
remove_back-eq-remove (x ∷ y ∷ l) e d h = ground (
  arith,
  remove_back-eq-remove (y ∷ l) e d.1 h,
  find-back (y ∷ l) e d.1 h,
  eq_bytes_iff x.key e.key,
)
