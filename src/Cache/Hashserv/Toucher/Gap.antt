-- ===== src/Cache/Hashserv/Toucher/Gap.antt =====
-- A flush of internal/cache/hashserv/toucher.go whose first statement fails, section by section.
use mathlib.Core.Path.{subst}
use bakery.Base.{ℕ, ◌≡◌, refl, sym, Bool, true, false, List, [], ◌∷◌, arith}
use bakery.Cache.Hashserv.Toucher.{
  UnihashKey, UnihashMark, Toucher, find, Tick, partition_marks, merge_back, add_to, by_backend,
  chunks, all_chunks, write_chunks, write_touches, idle, written, move, System, Action, advance,
  advance_at, act, run, pending,
}
use bakery.Cache.Hashserv.Toucher.Marks.{has, has-merge}
use bakery.Cache.Hashserv.Toucher.Runs.{is_held}

-- The first group has a mark.
abbrev is_full : List (ℕ × List UnihashMark) → Bool
is_full [] = false
is_full ((b, []) ∷ gs) = false
is_full ((b, m ∷ ms) ∷ gs) = true

full_add :
    (m : UnihashMark) (gs : List (ℕ × List UnihashMark))
    → is_full gs ≡ true
    → is_full (add_to m gs) ≡ true
full_add m [] h = refl
full_add m ((b, []) ∷ gs) h = absurd (cc)
full_add m ((b, x ∷ ms) ∷ gs) h = ground arith

full_groups :
    (ms : List UnihashMark) (gs : List (ℕ × List UnihashMark))
    → is_full gs ≡ true
    → is_full (by_backend ms gs) ≡ true
unfolding by_backend
full_groups [] gs h = h
full_groups (m ∷ ms) gs h = full_groups ms (add_to m gs) (full_add m gs h)

first_fails :
    (faults : List Bool) (gs : List (ℕ × List UnihashMark))
    → is_full gs ≡ true
    → write_chunks (true ∷ faults) (all_chunks gs) ≡ ([], false)
unfolding write_chunks chunks
first_fails faults [] h = absurd (cc)
first_fails faults ((b, []) ∷ gs) h = absurd (cc)
first_fails faults ((b, m ∷ ms) ∷ gs) h = refl

write_fails :
    (faults : List Bool) (m : UnihashMark) (ms : List UnihashMark)
    → write_touches (true ∷ faults) (m ∷ ms) ≡ ([], false)
unfolding write_touches by_backend
write_fails faults m ms =
    first_fails faults (by_backend (m ∷ ms) []) (full_groups ms (add_to m []) refl)

abbrev pub alone : Toucher → System
alone t = record { toucher = t; phases = idle ∷ [] }

-- The flush up to the statement that fails: the swap, the fold, the batch and the statements.
abbrev pub failing_flush : Tick → List Bool → List Action
failing_flush tick faults =
    advance 0 tick [] ∷ advance 0 tick [] ∷ advance 0 tick [] ∷ advance 0 tick (true ∷ faults) ∷ []

-- One more section of the flush.
abbrev pub section : Tick → System → System
section tick s = (run (advance 0 tick [] ∷ []) s).0

flushed :
    (tick : Tick) (faults : List Bool) (t : Toucher) (m : UnihashMark) (ms : List UnihashMark)
    → (partition_marks tick t.marks).0 ≡ m ∷ ms
    → (run (failing_flush tick faults) (alone t)).0 ≡ record {
      toucher = record t { marks = (partition_marks tick t.marks).1; flushing = m ∷ ms };
      phases = written (m ∷ ms) false ∷ [];
    }
unfolding run act advance_at move
flushed tick faults t m ms e = rw (e, write_fails faults m ms) refl

-- The answers of `pending` around the section that clears `flushing`.
gap :
    (k : UnihashKey) (tick : Tick) (t : Toucher) (due : List UnihashMark)
    → has k due ≡ true
    → has k t.marks ≡ false
    → let s : System = record {
      toucher = record t { flushing = due };
      phases = written due false ∷ [];
    } in
      (pending k s.toucher ≡ true)
      × (is_held k (section tick s) ≡ true)
      × (pending k (section tick s).toucher ≡ false)
      × (pending k (section tick (section tick s)).toucher ≡ true)
unfolding run act advance_at move merge_back pending find
gap k tick t due h n =
    (ground arith, ground arith, ground arith, ground (arith, has-merge k due t.marks))

abbrev Around : UnihashKey → Tick → System → Type 0
Around k tick s =
    (pending k s.toucher ≡ true)
    × (is_held k (section tick s) ≡ true)
    × (pending k (section tick s).toucher ≡ false)
    × (pending k (section tick (section tick s)).toucher ≡ true)

around :
    (k : UnihashKey) (tick : Tick) (faults : List Bool) (t : Toucher) (due : List UnihashMark)
    → (partition_marks tick t.marks).0 ≡ due
    → has k due ≡ true
    → has k (partition_marks tick t.marks).1 ≡ false
    → Around k tick (run (failing_flush tick faults) (alone t)).0
around k tick faults t [] e h n = absurd (unfold find in cc)
around k tick faults t (m ∷ ms) e h n =
    subst (Around k tick) (sym (flushed tick faults t m ms e))
      (gap k tick (record t { marks = (partition_marks tick t.marks).1 }) (m ∷ ms) h n)

-- A flush of an idle toucher whose first statement fails, with no read meanwhile: a read that the
-- flush takes, where it leaves no mark of the same key, is pending once the statement has failed.
-- After the next section, which clears `flushing`, it still waits to be written and is not pending;
-- the section after that puts the batch back, and it is pending again.
pub failed_flush_gap :
    (k : UnihashKey) (tick : Tick) (faults : List Bool) (t : Toucher)
    → has k (partition_marks tick t.marks).0 ≡ true
    → has k (partition_marks tick t.marks).1 ≡ false
    → let s = (run (failing_flush tick faults) (alone t)).0 in
      (pending k s.toucher ≡ true)
      × (is_held k (section tick s) ≡ true)
      × (pending k (section tick s).toucher ≡ false)
      × (pending k (section tick (section tick s)).toucher ≡ true)
failed_flush_gap k tick faults t h n =
    around k tick faults t (partition_marks tick t.marks).0 refl h n
