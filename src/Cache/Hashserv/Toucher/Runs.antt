-- ===== src/Cache/Hashserv/Toucher/Runs.antt =====
-- Runs of internal/cache/hashserv/toucher.go: reads and flushes interleaved in any order.
use bakery.Base.{
  ℕ, zero, suc, ◌≡◌, refl, ap, Bool, true, false, not, ◌&&◌, ◌||◌, List, [], ◌∷◌, arith,
}
use bakery.Cache.Hashserv.Toucher.{
  UnihashKey, Toucher, find, mark, Tick, partition_marks, merge, merge_back, Phase, idle,
  partitioning, handing, writing, written, merging, after_fold, move, System, Action, read, advance,
  advance_at, act, run,
}
use bakery.Cache.Hashserv.Toucher.Marks.{has, has-store, has-append, has-merge, has-partition_marks}
use bakery.Cache.Hashserv.Toucher.Writes.{has-write_touches}

-- The call of flush carries the read: it has taken the mark, and not yet written it or put it back.
abbrev pub holds : UnihashKey → Phase → Bool
holds k idle = false
holds k (partitioning tick old) = has k old
holds k (handing due) = has k due
holds k (writing due) = has k due
holds k (written due ok) = not ok && has k due
holds k (merging due) = has k due

abbrev any_holds : UnihashKey → List Phase → Bool
any_holds k [] = false
any_holds k (p ∷ ps) = holds k p || any_holds k ps

-- A read of the key waits to be written.
abbrev pub is_held : UnihashKey → System → Bool
is_held k s = has k s.toucher.marks || any_holds k s.phases

mark-has :
    (k j : UnihashKey) (now : ℕ) (t : Toucher)
    → has k t.marks ≡ true
    → has k (mark j now t).marks ≡ true
unfolding mark
mark-has k j now t h = ground (arith, has-store k (record { key = j; marked_at = now }) t.marks)

pub move-holds :
    (k : UnihashKey) (tick : Tick) (faults : List Bool) (t : Toucher) (p : Phase)
    → (has k t.marks || holds k p) ≡ true
    → let m = move tick faults t p in
      (has k m.toucher.marks || holds k m.phase || has k m.wrote) ≡ true
unfolding move
move-holds k tick faults t idle h = ground arith
move-holds k _ faults t (partitioning tick old) h =
    let (due, not_due) = partition_marks tick old in
    let empty : has k [] ≡ false = unfold find in refl in
    elim due
        as (λ d.
          d ≡ due → (has k (merge t.marks not_due) || holds k (after_fold d) || has k []) ≡ true) [
            | [] ↦ λ e.
                ground
                  (arith, has-merge k t.marks not_due, has-partition_marks k tick old, ap (has k) e)
            | x ∷ xs ↦ λ e.
                ground
                  (arith, has-merge k t.marks not_due, has-partition_marks k tick old, ap (has k) e)
          ]
      refl
move-holds k tick faults t (handing due) h = ground arith
move-holds k tick faults t (writing due) h = ground (arith, has-write_touches k faults due)
move-holds k tick faults t (written due ok) h = ground arith
move-holds k tick faults t (merging due) h =
    unfold merge_back in (ground (arith, has-merge k due t.marks))

advance_at-holds :
    (k : UnihashKey) (i : ℕ) (tick : Tick) (faults : List Bool) (t : Toucher) (ps : List Phase)
    → (has k t.marks || any_holds k ps) ≡ true
    → let r = advance_at i tick faults t ps in (is_held k r.0 || has k r.1) ≡ true
unfolding advance_at
advance_at-holds k i tick faults t [] h = ground arith
advance_at-holds k zero tick faults t (p ∷ ps) h = ground (arith, move-holds k tick faults t p)
advance_at-holds k (suc i) tick faults t (p ∷ ps) h =
    ground (arith, advance_at-holds k i tick faults t ps)

act-holds :
    (k : UnihashKey) (a : Action) (s : System)
    → is_held k s ≡ true
    → (is_held k (act a s).0 || has k (act a s).1) ≡ true
unfolding act
act-holds k (read j now) s h = ground (arith, mark-has k j now s.toucher)
act-holds k (advance i tick faults) s h = advance_at-holds k i tick faults s.toucher s.phases h

-- However reads and any number of flushes interleave, and whichever statements fail, a read that
-- waits to be written still waits at the end of the run, unless the run wrote it.
pub no_read_lost :
    (as' : List Action) (k : UnihashKey) (s : System)
    → is_held k s ≡ true
    → (is_held k (run as' s).0 || has k (run as' s).1) ≡ true
unfolding run
no_read_lost [] k s h = ground arith
no_read_lost (a ∷ as') k s h = ground (
  arith,
  act-holds k a s h,
  no_read_lost as' k (act a s).0,
  has-append k (act a s).1 (run as' (act a s).0).1,
)
