-- ===== src/Cache/Hashserv/Toucher/Tests.antt =====
-- Reads and flushes of internal/cache/hashserv/toucher.go: a flush that fails and a second one.
use bakery.Base.{◌≡◌, refl, true, false, ◌||◌, List, [], ◌∷◌, codes, eq_bytes}
use bakery.Cache.Hashserv.Toucher.{
  UnihashKey, all, older, idle, System, Action, read, advance, run, act, advance_at, move, mark,
  find, store, same_key, merge, keep_older, partition_marks, write_touches, write_chunks,
  by_backend, chunks, pending,
}
use bakery.Cache.Hashserv.Toucher.Marks.{has}
use bakery.Cache.Hashserv.Toucher.Runs.{is_held, no_read_lost}
use bakery.Cache.Hashserv.Toucher.Veto.{any_merging, veto_holds}
use bakery.Cache.Hashserv.Toucher.Gap.{failing_flush, alone, section, failed_flush_gap}

abbrev key : UnihashKey
key = record { backend_id = 3; method = codes "m"; taskhash = codes "t" }

abbrev other : UnihashKey
other = record { backend_id = 3; method = codes "m"; taskhash = codes "u" }

abbrev start : System
start = record {
  toucher = record { marks = record { key = key; marked_at = 5 } ∷ []; flushing = []; dropped = 0 };
  phases = idle ∷ [];
}

-- A flush that takes the mark, while another key is read, and whose statement fails.
abbrev failing : List Action
failing =
    advance 0 (older 100 10) []
    ∷ read other 101
    ∷ advance 0 all []
    ∷ advance 0 all []
    ∷ advance 0 all (true ∷ [])
    ∷ []

kept : is_held key (run failing start).0 ≡ true
unfolding run act advance_at move mark find store same_key merge keep_older partition_marks
    write_touches write_chunks by_backend chunks eq_bytes
kept = refl

no_read_lost_example : (is_held key (run failing start).0 || has key (run failing start).1) ≡ true
no_read_lost_example = no_read_lost failing key start (unfold find same_key eq_bytes in refl)

veto_holds_example :
    (pending key (run failing start).0.toucher || any_merging (run failing start).0.phases) ≡ true
veto_holds_example = veto_holds failing key start refl kept

failed_flush_gap_example :
    let s = (run (failing_flush all []) (alone start.toucher)).0 in
    (pending key s.toucher ≡ true)
    × (is_held key (section all s) ≡ true)
    × (pending key (section all s).toucher ≡ false)
    × (pending key (section all (section all s)).toucher ≡ true)
failed_flush_gap_example =
    failed_flush_gap key all [] start.toucher
      (unfold partition_marks find same_key eq_bytes in refl) (unfold partition_marks find in refl)
