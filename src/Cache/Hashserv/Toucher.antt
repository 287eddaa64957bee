-- ===== src/Cache/Hashserv/Toucher.antt =====
-- internal/cache/hashserv/toucher.go: the pending reads of unihashes and their flushes. Each section
-- under the mutex is one step, so a sequence of steps is any interleaving of reads and flushes. A Go
-- map is a list in the order in which a loop yields it; times are numbers.
pub mod Marks
pub mod Writes
pub mod Runs
pub mod Veto
pub mod Gap
mod Tests
use bakery.Base.{
  ℕ, zero, suc, ◌+◌, ◌≡◌, Bool, true, false, not, ◌&&◌, ◌||◌, Option, none, some, List, [], ◌∷◌,
  ◌++◌, Bytes, eq_bytes, ◌==◌, leb, ltb, if◌then◌else◌, length, take, drop, keep, any, map,
}

pub record UnihashKey : Type 0 where
  pub backend_id : ℕ
  pub method : Bytes
  pub taskhash : Bytes

pub record UnihashMark : Type 0 where
  pub key : UnihashKey
  pub marked_at : ℕ

pub record Toucher : Type 0 where
  pub marks : List UnihashMark
  pub flushing : List UnihashMark
  pub dropped : ℕ

abbrev unihash_marks_cap : ℕ
unihash_marks_cap = 65_536

abbrev touch_batch_size : ℕ
touch_batch_size = 1_000

unfoldable pub same_key : UnihashKey → UnihashKey → Bool
same_key a b =
    a.backend_id == b.backend_id && eq_bytes a.method b.method && eq_bytes a.taskhash b.taskhash

unfoldable pub find : UnihashKey → List UnihashMark → Option ℕ
unfolding same_key
find k [] = none
find k (m ∷ ms) = if same_key k m.key then some m.marked_at else find k ms

abbrev pub is_marked : Option ℕ → Bool
is_marked none = false
is_marked (some t) = true

-- marks[m.key] = m.markedAt
unfoldable pub store : UnihashMark → List UnihashMark → List UnihashMark
store m [] = m ∷ []
store m (x ∷ xs) = if same_key m.key x.key then m ∷ xs else x ∷ store m xs

unfoldable pub mark : UnihashKey → ℕ → Toucher → Toucher
unfolding find store
mark k now t =
    if is_marked (find k t.marks)
    then t
    else if leb unihash_marks_cap (length t.marks)
    then record t { dropped = t.dropped + 1 }
    else record t { marks = store (record { key = k; marked_at = now }) t.marks }

unfoldable pub pending : UnihashKey → Toucher → Bool
pending k t = is_marked (find k t.marks) || is_marked (find k t.flushing)

-- A flush of every mark, or of those that are older than the staleness.
pub data Tick : Type 0 where
  all : Tick
  older : (now staleness : ℕ) → Tick

abbrev pub is_due : Tick → UnihashMark → Bool
is_due all m = true
is_due (older now staleness) m = leb (m.marked_at + staleness) now

unfoldable pub partition_marks : Tick → List UnihashMark → List UnihashMark × List UnihashMark
partition_marks tick ms = (keep (is_due tick) ms, keep (λ m. not (is_due tick m)) ms)

-- The older of a mark and the one that the map has.
unfoldable pub keep_older : UnihashMark → List UnihashMark → List UnihashMark
unfolding find store
keep_older m ms = elim (find m.key ms) [
  | none ↦ store m ms
  | some cur ↦ if ltb m.marked_at cur then store m ms else ms
]

unfoldable pub merge : List UnihashMark → List UnihashMark → List UnihashMark
unfolding keep_older
merge [] into = into
merge (m ∷ ms) into = merge ms (keep_older m into)

unfoldable pub merge_back : List UnihashMark → Toucher → Toucher
unfolding merge
merge_back due t = record t { marks = merge due t.marks }

-- byBackend, in the order in which a loop yields it
abbrev pub add_to : UnihashMark → List (ℕ × List UnihashMark) → List (ℕ × List UnihashMark)
add_to m [] = (m.key.backend_id, m ∷ []) ∷ []
add_to m ((b, ms) ∷ gs) =
    let rest = add_to m gs in
    if m.key.backend_id == b then (b, ms ++ m ∷ []) ∷ gs else (b, ms) ∷ rest

unfoldable pub by_backend :
    List UnihashMark → List (ℕ × List UnihashMark) → List (ℕ × List UnihashMark)
by_backend [] gs = gs
by_backend (m ∷ ms) gs = by_backend ms (add_to m gs)

-- The chunks of one backend. The fuel is the number of its marks.
unfoldable pub chunks : ℕ → List UnihashMark → List (List UnihashMark)
chunks zero ms = []
chunks (suc fuel) [] = []
chunks (suc fuel) (m ∷ ms) =
    take touch_batch_size (m ∷ ms) ∷ chunks fuel (drop touch_batch_size (m ∷ ms))

abbrev pub all_chunks : List (ℕ × List UnihashMark) → List (List UnihashMark)
all_chunks [] = []
all_chunks ((b, ms) ∷ gs) = chunks (length ms) ms ++ all_chunks gs

-- Each chunk is a statement, which fails where its entry is true; the loop ends at a failure. The
-- keys that were written, and whether all were.
unfoldable pub write_chunks : List Bool → List (List UnihashMark) → List UnihashMark × Bool
write_chunks faults [] = ([], true)
write_chunks [] (c ∷ cs) = let (done, ok) = write_chunks [] cs in (c ++ done, ok)
write_chunks (f ∷ fs) (c ∷ cs) =
    let (done, ok) = write_chunks fs cs in if f then ([], false) else (c ++ done, ok)

unfoldable pub write_touches : List Bool → List UnihashMark → List UnihashMark × Bool
unfolding by_backend chunks write_chunks
write_touches faults due = write_chunks faults (all_chunks (by_backend due []))

-- Where a call of flush stands, with its local variables.
pub data Phase : Type 0 where
  idle : Phase
  partitioning : Tick → List UnihashMark → Phase  -- after the swap
  handing : List UnihashMark → Phase  -- after the fold
  writing : List UnihashMark → Phase  -- the batch is in `flushing`
  written : List UnihashMark → Bool → Phase
  merging : List UnihashMark → Phase  -- `flushing` is nil, the batch failed

abbrev after_fold : List UnihashMark → Phase
after_fold [] = written [] true
after_fold (m ∷ ms) = handing (m ∷ ms)

pub record Moved : Type 0 where
  pub toucher : Toucher
  pub phase : Phase
  pub wrote : List UnihashMark

-- The next section of a call of flush, and what it wrote. An idle flusher starts one.
unfoldable pub move : Tick → List Bool → Toucher → Phase → Moved
unfolding partition_marks merge write_touches merge_back
move tick faults t idle = record {
  toucher = record t { marks = []; flushing = t.marks };
  phase = partitioning tick t.marks;
  wrote = [];
}
move _ faults t (partitioning tick old) =
    let (due, not_due) = partition_marks tick old in
    record {
      toucher = record t { marks = merge t.marks not_due };
      phase = after_fold due;
      wrote = [];
    }
move tick faults t (handing due) = record {
  toucher = record t { flushing = due };
  phase = writing due;
  wrote = [];
}
move tick faults t (writing due) =
    let (done, ok) = write_touches faults due in
    record { toucher = t; phase = written due ok; wrote = done }
move tick faults t (written due ok) = record {
  toucher = record t { flushing = [] };
  phase = if ok then idle else merging due;
  wrote = [];
}
move tick faults t (merging due) = record { toucher = merge_back due t; phase = idle; wrote = [] }

-- Calls of flush that run at once, one phase each.
pub record System : Type 0 where
  pub toucher : Toucher
  pub phases : List Phase

pub data Action : Type 0 where
  read : UnihashKey → ℕ → Action  -- mark, at a time
  advance : ℕ → Tick → List Bool → Action  -- the flusher of this index, and which statements fail

abbrev pub moved_first : Moved → List Phase → System × List UnihashMark
moved_first m ps = (record { toucher = m.toucher; phases = m.phase ∷ ps }, m.wrote)

abbrev pub under : Phase → System × List UnihashMark → System × List UnihashMark
under p (s, wrote) = (record s { phases = p ∷ s.phases }, wrote)

unfoldable pub advance_at : ℕ → Tick → List Bool → Toucher → List Phase → System × List UnihashMark
unfolding move
advance_at i tick faults t [] = (record { toucher = t; phases = [] }, [])
advance_at zero tick faults t (p ∷ ps) = moved_first (move tick faults t p) ps
advance_at (suc i) tick faults t (p ∷ ps) = under p (advance_at i tick faults t ps)

unfoldable pub act : Action → System → System × List UnihashMark
unfolding mark advance_at
act (read k now) s = (record s { toucher = mark k now s.toucher }, [])
act (advance i tick faults) s = advance_at i tick faults s.toucher s.phases

-- A run, and all that it wrote.
unfoldable pub run : List Action → System → System × List UnihashMark
unfolding act
run [] s = (s, [])
run (a ∷ as') s = let (s', wrote) = act a s in let (s'', more) = run as' s' in (s'', wrote ++ more)
