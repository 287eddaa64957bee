-- ===== src/Cache/Hashserv/Toucher/Marks.antt =====
-- The marks that a map of internal/cache/hashserv/toucher.go holds.
use bakery.Base.{◌≡◌, refl, ◌↔◌, Bool, true, ◌||◌, List, [], ◌∷◌, ◌++◌, eq_bytes_iff, ==_iff, arith}
use bakery.Cache.Hashserv.Toucher.{
  UnihashKey, UnihashMark, same_key, find, is_marked, store, keep_older, merge, Tick,
  partition_marks,
}

abbrev pub has : UnihashKey → List UnihashMark → Bool
has k ms = is_marked (find k ms)

pub same_key_iff : (a b : UnihashKey) → (same_key a b ≡ true) ↔ (a ≡ b)
unfolding same_key
same_key_iff a b = ground (
  arith,
  ==_iff a.backend_id b.backend_id,
  eq_bytes_iff a.method b.method,
  eq_bytes_iff a.taskhash b.taskhash,
)

pub has-store :
    (k : UnihashKey) (m : UnihashMark) (ms : List UnihashMark)
    → has k (store m ms) ≡ (same_key k m.key || has k ms)
unfolding store find
has-store k m [] = ground arith
has-store k m (x ∷ xs) =
    ground (
      arith,
      has-store k m xs,
      same_key_iff m.key x.key,
      same_key_iff k m.key,
      same_key_iff k x.key,
    )

pub has-append :
    (k : UnihashKey) (xs ys : List UnihashMark) → has k (xs ++ ys) ≡ (has k xs || has k ys)
unfolding find
has-append k [] ys = refl
has-append k (x ∷ xs) ys = ground (arith, has-append k xs ys)

-- The first mark wins, and none goes.
pub has-keep_older :
    (k : UnihashKey) (m : UnihashMark) (ms : List UnihashMark)
    → has k (keep_older m ms) ≡ (same_key k m.key || has k ms)
unfolding keep_older
has-keep_older k m ms = ground (arith, has-store k m ms, same_key_iff k m.key)

pub has-merge :
    (k : UnihashKey) (ms into : List UnihashMark) → has k (merge ms into) ≡ (has k ms || has k into)
unfolding merge find
has-merge k [] into = refl
has-merge k (m ∷ ms) into =
    ground (arith, has-merge k ms (keep_older m into), has-keep_older k m into)

pub has-partition_marks :
    (k : UnihashKey) (tick : Tick) (ms : List UnihashMark)
    → (has k ms ≡ true)
    → (has k (partition_marks tick ms).0 || has k (partition_marks tick ms).1) ≡ true
unfolding partition_marks find
has-partition_marks k tick [] h = h
has-partition_marks k tick (m ∷ ms) h = ground (arith, has-partition_marks k tick ms)
