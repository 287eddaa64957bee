-- ===== src/Cache/Hashserv/Toucher/Veto.antt =====
-- What `pending` of internal/cache/hashserv/toucher.go answers during a flush.
use bakery.Base.{ℕ, zero, suc, ◌≡◌, refl, ap, Bool, true, false, not, ◌||◌, List, [], ◌∷◌, arith}
use bakery.Cache.Hashserv.Toucher.{
  UnihashKey, UnihashMark, Toucher, find, mark, Tick, partition_marks, Phase, idle, partitioning,
  handing, writing, written, merging, after_fold, move, System, Action, read, advance, advance_at,
  act, run, pending,
}
use bakery.Cache.Hashserv.Toucher.Marks.{has}
use bakery.Cache.Hashserv.Toucher.Runs.{holds, is_held}

abbrev pub is_merging : Phase → Bool
is_merging (merging due) = true
is_merging _ = false

-- What the flush carries is in `flushing`, unless it is about to put it back.
abbrev is_covered : UnihashKey → Toucher → Phase → Bool
is_covered k t p = not (holds k p) || has k t.flushing || is_merging p

has-due :
    (k : UnihashKey) (tick : Tick) (ms : List UnihashMark)
    → has k (partition_marks tick ms).0 ≡ true
    → has k ms ≡ true
unfolding partition_marks find
has-due k tick [] h = h
has-due k tick (m ∷ ms) h = ground (arith, has-due k tick ms)

move-covers :
    (k : UnihashKey) (tick : Tick) (faults : List Bool) (t : Toucher) (p : Phase)
    → is_covered k t p ≡ true
    → let m = move tick faults t p in is_covered k m.toucher m.phase ≡ true
unfolding move
move-covers k tick faults t idle h = ground arith
move-covers k _ faults t (partitioning tick old) h =
    let due = (partition_marks tick old).0 in
    let empty : has k [] ≡ false = unfold find in refl in
    elim due
        as (λ d.
          d ≡ due
          → (not (holds k (after_fold d)) || has k t.flushing || is_merging (after_fold d))
            ≡ true) [
              | [] ↦ λ e. ground arith
              | x ∷ xs ↦ λ e. ground (arith, has-due k tick old, ap (has k) e)
            ]
      refl
move-covers k tick faults t (handing due) h = ground arith
move-covers k tick faults t (writing due) h = ground arith
move-covers k tick faults t (written due ok) h = ground arith
move-covers k tick faults t (merging due) h = ground arith

abbrev covered_by : UnihashKey → Toucher → List Phase → Bool
covered_by k t [] = true
covered_by k t (p ∷ []) = is_covered k t p
covered_by k t (p ∷ q ∷ ps) = false

mark-flushing : (k : UnihashKey) (now : ℕ) (t : Toucher) → (mark k now t).flushing ≡ t.flushing
unfolding mark
mark-flushing k now t = ground arith

advance_at-covers :
    (k : UnihashKey) (i : ℕ) (tick : Tick) (faults : List Bool) (t : Toucher) (ps : List Phase)
    → covered_by k t ps ≡ true
    → let s = (advance_at i tick faults t ps).0 in covered_by k s.toucher s.phases ≡ true
unfolding advance_at
advance_at-covers k i tick faults t [] h = refl
advance_at-covers k zero tick faults t (p ∷ []) h = move-covers k tick faults t p h
advance_at-covers k (suc i) tick faults t (p ∷ []) h = h
advance_at-covers k i tick faults t (p ∷ q ∷ ps) h = absurd (cc)

covered-read :
    (k j : UnihashKey) (now : ℕ) (t : Toucher) (ps : List Phase)
    → covered_by k t ps ≡ true
    → covered_by k (mark j now t) ps ≡ true
covered-read k j now t [] h = refl
covered-read k j now t (p ∷ []) h = rw (mark-flushing j now t) h
covered-read k j now t (p ∷ q ∷ ps) h = h

run-covers :
    (as' : List Action) (k : UnihashKey) (s : System)
    → covered_by k s.toucher s.phases ≡ true
    → let s' = (run as' s).0 in covered_by k s'.toucher s'.phases ≡ true
unfolding run act
run-covers [] k s h = h
run-covers (read j now ∷ as') k s h =
    run-covers as' k (act (read j now) s).0 (covered-read k j now s.toucher s.phases h)
run-covers (advance i tick faults ∷ as') k s h =
    run-covers as' k (act (advance i tick faults) s).0
      (advance_at-covers k i tick faults s.toucher s.phases h)

abbrev pub any_merging : List Phase → Bool
any_merging [] = false
any_merging (p ∷ ps) = is_merging p || any_merging ps

covered-pending :
    (k : UnihashKey) (t : Toucher) (ps : List Phase)
    → covered_by k t ps ≡ true
    → is_held k (record { toucher = t; phases = ps }) ≡ true
    → (pending k t || any_merging ps) ≡ true
unfolding pending
covered-pending k t [] c h = ground arith
covered-pending k t (p ∷ []) c h = ground arith
covered-pending k t (p ∷ q ∷ ps) c h = absurd (cc)

-- With one flusher, however it interleaves with reads: a read that waits to be written is pending,
-- unless a flush has failed and has not yet put its batch back.
pub veto_holds :
    (as' : List Action) (k : UnihashKey) (s : System)
    → s.phases ≡ idle ∷ []
    → is_held k (run as' s).0 ≡ true
    → (pending k (run as' s).0.toucher || any_merging (run as' s).0.phases) ≡ true
veto_holds as' k s e h =
    let s' = (run as' s).0 in
    covered-pending k s'.toucher s'.phases (run-covers as' k s (rw e refl)) h
