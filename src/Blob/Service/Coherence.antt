-- ===== src/Blob/Service/Coherence.antt =====
-- When the cache and the rows of the database agree, and the events that write neither.
use bakery.Base.{
  ℕ, zero, suc, ◌+◌, ◌<◌, ◌≤◌, ◌^◌, ◌≡◌, sym, ap, ◌∙◌, Bool, false, Option, none, some, List, [],
  ◌∷◌, Bytes, eq_bytes, arith, ◌||◌, All,
}
use bakery.Blob.Lru.Entries.{Meta}
use bakery.Blob.Lru.{Shard, get, insert_locked, seq}
use bakery.Blob.Lru.Invariant.{IsValid, get-IsValid}
use bakery.Blob.Lru.Contents.{view}
use bakery.Blob.Service.{
  Object, query_object, Probe, Publication, stored, dropped, gone, System, answer_at, hits, begins,
  answers, act,
}
use bakery.Blob.Service.Views.{view-get}

-- What a Meta says of an object, but for the time: a Put publishes the time of the server.
abbrev pub fact : Meta → Bool × Bytes × ℕ × Bytes
fact m = (m.exists, m.digest, m.size, m.content_type)

-- The answer is that of the row.
abbrev pub Tells : (Bytes → Option Object) → Bytes → Meta → Type 0
Tells db k m = fact m ≡ fact (query_object (db k))

abbrev pub key_of : Publication → Bytes
key_of (stored k o) = k
key_of (dropped k) = k
key_of (gone k) = k

-- A committed write of this key is still unpublished.
abbrev pub is_writing : List Publication → Bytes → Bool
is_writing [] k = false
is_writing (w ∷ ws) k = eq_bytes (key_of w) k || is_writing ws k

-- The row is still the one that the write left.
abbrev pub IsCurrent : (Bytes → Option Object) → Publication → Type 0
IsCurrent db (stored k o) = db k ≡ some o
IsCurrent db (dropped k) = Unit {0}
IsCurrent db (gone k) = db k ≡ none

-- A probe that would land tells the row.
abbrev pub IsFresh : (Bytes → Option Object) → List Publication → ℕ → Probe → Type 0
IsFresh db w gen p =
    (p.seq ≤ gen)
    × ((m : Meta) → p.answer ≡ some m → p.seq ≡ gen → is_writing w p.key ≡ false → Tells db p.key m)

abbrev pub AllCached : (Bytes → Option Object) → List Publication → Shard → Type 0
AllCached db w s =
    (k : Bytes) (m : Meta) → view s k ≡ some m → is_writing w k ≡ false → Tells db k m

-- `left` more events keep the generation below 2^64.
pub record IsCoherent (left : ℕ) (s : System) : Type 0 where
  pub valid : IsValid s.shard
  pub room : 0 < s.shard.cap
  pub counted : s.shard.gen + left < 2 ^ 64
  pub cached : AllCached s.db s.writing s.shard
  pub current : All (IsCurrent s.db) s.writing
  pub fresh : All (IsFresh s.db s.writing s.shard.gen) s.probes

get-shape :
    (k : Bytes) (now : ℕ) (s : Shard)
    → ((get k now s).1.gen ≡ s.gen) × ((get k now s).1.cap ≡ s.cap)
unfolding get
get-shape k now s = (ground arith, ground arith)

pub insert_locked-shape :
    (k : Bytes) (m : Meta) (at : ℕ) (s : Shard)
    → ((insert_locked k m at s).0.gen ≡ s.gen) × ((insert_locked k m at s).0.cap ≡ s.cap)
unfolding insert_locked
insert_locked-shape k m at s = (ground arith, ground arith)

pub hits-IsCoherent :
    (n : ℕ) (k : Bytes) (now : ℕ) (s : System)
    → 0 < now
    → IsCoherent (suc n) s
    → IsCoherent n (act (hits k now) s)
unfolding act
hits-IsCoherent n k now s pos c = record {
  valid = get-IsValid k now s.shard pos c.valid;
  room = omega (arith, c.room, (get-shape k now s.shard).1);
  counted = omega (arith, c.counted, (get-shape k now s.shard).0);
  cached = λ j m h. c.cached j m (sym (view-get s.shard k j now pos c.valid) ∙ h);
  current = c.current;
  fresh = rw ((get-shape k now s.shard).0) c.fresh;
}

pub begins-IsCoherent :
    (n : ℕ) (k : Bytes) (s : System) → IsCoherent (suc n) s → IsCoherent n (act (begins k) s)
unfolding act seq
begins-IsCoherent n k s c = record {
  valid = c.valid;
  room = c.room;
  counted = omega (arith, c.counted);
  cached = c.cached;
  current = c.current;
  fresh = ((omega arith, λ m h. cc), c.fresh);
}

answer_at-IsFresh :
    (db : Bytes → Option Object) (w : List Publication) (gen i : ℕ) (ps : List Probe)
    → All (IsFresh db w gen) ps
    → All (IsFresh db w gen) (answer_at db i ps)
unfolding answer_at
answer_at-IsFresh db w gen i [] a = tt
answer_at-IsFresh db w gen zero (p ∷ ps) a = ((a.0.0, λ m h e o. ap fact (the_answer h)), a.1)
  where
    the_answer : {m : Meta} → some (query_object (db p.key)) ≡ some m → m ≡ query_object (db p.key)
    the_answer h = cc
answer_at-IsFresh db w gen (suc i) (p ∷ ps) a = (a.0, answer_at-IsFresh db w gen i ps a.1)

pub answers-IsCoherent :
    (n i : ℕ) (s : System) → IsCoherent (suc n) s → IsCoherent n (act (answers i) s)
unfolding act
answers-IsCoherent n i s c = record {
  valid = c.valid;
  room = c.room;
  counted = omega (arith, c.counted);
  cached = c.cached;
  current = c.current;
  fresh = answer_at-IsFresh s.db s.writing s.shard.gen i s.probes c.fresh;
}
