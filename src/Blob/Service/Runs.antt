-- ===== src/Blob/Service/Runs.antt =====
-- The cache after every interleaving of requests.
use bakery.Base.{
  ℕ, suc, ◌<◌, ◌^◌, ◌≡◌, refl, sym, ◌∙◌, false, Option, none, some, List, [], ◌∷◌, Bytes, contains,
  get_elem?, arith, length,
}
use bakery.Blob.Lru.Entries.{Meta}
use bakery.Blob.Lru.{new_shard, get, lookup}
use bakery.Blob.Lru.Runs.{new_shard-IsValid}
use bakery.Blob.Lru.Contents.{view}
use bakery.Blob.Service.{
  Object, query_object, System, Event, hits, begins, answers, lands, commits_put, commits_delete,
  publishes, act, act_all,
}
use bakery.Blob.Service.Publications.{finish-IsCoherent}
use bakery.Blob.Service.Coherence.{
  fact, is_writing, IsCoherent, hits-IsCoherent, begins-IsCoherent, answers-IsCoherent,
}
use bakery.Blob.Service.Writes.{lands-IsCoherent, commits_put-IsCoherent, commits_delete-IsCoherent}

-- The clock is past its epoch at a read, and a write commits when no write of its key is unpublished.
abbrev pub IsOrdered : Event → System → Type 0
IsOrdered (hits k now) s = 0 < now
IsOrdered (commits_put k o created) s = is_writing s.writing k ≡ false
IsOrdered (commits_delete k) s = is_writing s.writing k ≡ false
IsOrdered _ s = Unit {0}

abbrev pub AllOrdered : List Event → System → Type 0
AllOrdered [] s = Unit {0}
AllOrdered (e ∷ es) s = IsOrdered e s × AllOrdered es (act e s)

act-IsCoherent :
    (n : ℕ) (e : Event) (s : System) → IsOrdered e s → IsCoherent (suc n) s → IsCoherent n (act e s)
act-IsCoherent n (hits k now) s t c = hits-IsCoherent n k now s t c
act-IsCoherent n (begins k) s t c = begins-IsCoherent n k s c
act-IsCoherent n (answers i) s t c = answers-IsCoherent n i s c
act-IsCoherent n (lands i now) s t c = lands-IsCoherent n i now s c
act-IsCoherent n (commits_put k o created) s t c = commits_put-IsCoherent n k o created s t c
act-IsCoherent n (commits_delete k) s t c = commits_delete-IsCoherent n k s t c
act-IsCoherent n (publishes i now) s t c =
    unfold act in finish-IsCoherent n i now s (get_elem? s.writing i) refl c

act_all-IsCoherent :
    (es : List Event) (s : System)
    → AllOrdered es s
    → IsCoherent (length es) s
    → IsCoherent 0 (act_all es s)
unfolding act_all
act_all-IsCoherent [] s t c = c
act_all-IsCoherent (e ∷ es) s t c =
    act_all-IsCoherent es (act e s) t.1 (act-IsCoherent (length es) e s t.0 c)

-- A process that starts over a database.
abbrev pub start : (Bytes → Option Object) → ℕ → System
start db capacity = record { db = db; shard = new_shard capacity; probes = []; writing = [] }

new_shard-shape :
    (capacity : ℕ)
    → ((new_shard capacity).gen ≡ 0)
      × (0 < (new_shard capacity).cap)
      × ((k : Bytes) → view (new_shard capacity) k ≡ none)
unfolding new_shard get lookup contains
new_shard-shape capacity = (refl, ground arith, λ k. refl)

start-IsCoherent :
    (db : Bytes → Option Object) (capacity n : ℕ) → n < 2 ^ 64 → IsCoherent n (start db capacity)
start-IsCoherent db capacity n h =
    let (gen, cap, nothing) = new_shard-shape capacity in
    record {
      valid = new_shard-IsValid capacity;
      room = cap;
      counted = omega (arith, gen);
      cached = λ k m e. absurd (none-some (sym (nothing k) ∙ e));
      current = tt;
      fresh = tt;
    }
  where
    none-some : {m : Meta} → none ≡ some m → ⊥
    none-some h = cc

-- However requests interleave, an answer of the cache tells the committed row of its key, save while
-- a committed write of that key is unpublished: no probe that a write has overtaken fills the cache.
-- The clock is past its epoch, fewer than 2^64 events happen, and a write of a key commits when no
-- other write of that key is between its commit and its publication.
pub cache_never_stale :
    (db : Bytes → Option Object) (capacity : ℕ) (es : List Event) (k : Bytes) (m : Meta)
    → AllOrdered es (start db capacity)
    → length es < 2 ^ 64
    → view (act_all es (start db capacity)).shard k ≡ some m
    → is_writing (act_all es (start db capacity)).writing k ≡ false
    → fact m ≡ fact (query_object ((act_all es (start db capacity)).db k))
cache_never_stale db capacity es k m t few h o =
    let c =
      act_all-IsCoherent es (start db capacity) t (start-IsCoherent db capacity (length es) few) in
    c.cached k m h o
