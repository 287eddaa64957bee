-- ===== src/Cache/Hashserv/Toucher/Writes.antt =====
-- What a flush of internal/cache/hashserv/toucher.go writes: the groups and chunks of a batch.
use bakery.Base.{
  ℕ, zero, suc, ◌≤◌, ◌≡◌, refl, Bool, true, false, ◌||◌, List, [], ◌∷◌, ◌++◌, length, take, drop,
  arith,
}
use bakery.Cache.Hashserv.Toucher.{
  UnihashKey, UnihashMark, same_key, find, by_backend, add_to, chunks, all_chunks, write_chunks,
  write_touches, touch_batch_size,
}
use bakery.Cache.Hashserv.Toucher.Marks.{has, has-append}

abbrev in_groups : UnihashKey → List (ℕ × List UnihashMark) → Bool
in_groups k [] = false
in_groups k ((b, ms) ∷ gs) = has k ms || in_groups k gs

abbrev in_chunks : UnihashKey → List (List UnihashMark) → Bool
in_chunks k [] = false
in_chunks k (c ∷ cs) = has k c || in_chunks k cs

in_groups-add_to :
    (k : UnihashKey) (m : UnihashMark) (gs : List (ℕ × List UnihashMark))
    → in_groups k (add_to m gs) ≡ (same_key k m.key || in_groups k gs)
unfolding find
in_groups-add_to k m [] = ground arith
in_groups-add_to k m ((b, ms) ∷ gs) =
    ground (arith, in_groups-add_to k m gs, has-append k ms (m ∷ []))

in_groups-by_backend :
    (k : UnihashKey) (ms : List UnihashMark) (gs : List (ℕ × List UnihashMark))
    → in_groups k (by_backend ms gs) ≡ (has k ms || in_groups k gs)
unfolding by_backend find
in_groups-by_backend k [] gs = refl
in_groups-by_backend k (m ∷ ms) gs =
    ground (arith, in_groups-by_backend k ms (add_to m gs), in_groups-add_to k m gs)

has-take-drop :
    (k : UnihashKey) (n : ℕ) (ms : List UnihashMark)
    → has k ms ≡ (has k (take n ms) || has k (drop n ms))
unfolding find
has-take-drop k zero ms = refl
has-take-drop k (suc n) [] = refl
has-take-drop k (suc n) (m ∷ ms) = ground (arith, has-take-drop k n ms)

length-drop : (n : ℕ) (ms : List UnihashMark) → length (drop n ms) ≤ length ms
length-drop zero ms = omega arith
length-drop (suc n) [] = omega arith
length-drop (suc n) (m ∷ ms) = omega (arith, length-drop n ms)

in_chunks-chunks :
    (k : UnihashKey) (fuel : ℕ) (ms : List UnihashMark)
    → length ms ≤ fuel
    → in_chunks k (chunks fuel ms) ≡ has k ms
unfolding chunks
in_chunks-chunks k zero [] h = unfold find in refl
in_chunks-chunks k zero (m ∷ ms) h = absurd (omega (arith, h))
in_chunks-chunks k (suc fuel) [] h = unfold find in refl
in_chunks-chunks k (suc fuel) (m ∷ ms) h = ground (
  arith,
  in_chunks-chunks k fuel (drop touch_batch_size (m ∷ ms)),
  length-drop 999 ms,
  has-take-drop k touch_batch_size (m ∷ ms),
)

in_chunks-append :
    (k : UnihashKey) (xs ys : List (List UnihashMark))
    → in_chunks k (xs ++ ys) ≡ (in_chunks k xs || in_chunks k ys)
in_chunks-append k [] ys = refl
in_chunks-append k (x ∷ xs) ys = ground (arith, in_chunks-append k xs ys)

in_chunks-all_chunks :
    (k : UnihashKey) (gs : List (ℕ × List UnihashMark))
    → in_chunks k (all_chunks gs) ≡ in_groups k gs
in_chunks-all_chunks k [] = refl
in_chunks-all_chunks k ((b, ms) ∷ gs) = ground (
  arith,
  in_chunks-append k (chunks (length ms) ms) (all_chunks gs),
  in_chunks-all_chunks k gs,
  in_chunks-chunks k (length ms) ms,
)

has-write_chunks :
    (k : UnihashKey) (faults : List Bool) (cs : List (List UnihashMark))
    → (write_chunks faults cs).1 ≡ true
    → has k (write_chunks faults cs).0 ≡ in_chunks k cs
unfolding write_chunks
has-write_chunks k faults [] h = unfold find in refl
has-write_chunks k [] (c ∷ cs) h =
    ground (arith, has-write_chunks k [] cs, has-append k c (write_chunks [] cs).0)
has-write_chunks k (f ∷ fs) (c ∷ cs) h =
    ground (arith, has-write_chunks k fs cs, has-append k c (write_chunks fs cs).0)

-- A batch that is written without an error is written whole, and nothing else is.
pub has-write_touches :
    (k : UnihashKey) (faults : List Bool) (due : List UnihashMark)
    → (write_touches faults due).1 ≡ true
    → has k (write_touches faults due).0 ≡ has k due
unfolding write_touches
has-write_touches k faults due h = ground (
  arith,
  has-write_chunks k faults (all_chunks (by_backend due [])),
  in_chunks-all_chunks k (by_backend due []),
  in_groups-by_backend k due [],
)
