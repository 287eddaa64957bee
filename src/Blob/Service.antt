-- ===== src/Blob/Service.antt =====
-- internal/blob/blob.go: how Stat, Put and Delete share the object cache with the database. The
-- committed rows of the database are a function of the cache key. A request is cut where another
-- one can come in between: a probe reads the generation, asks the database and fills the cache; a
-- write commits its transaction and then publishes to the cache.
pub mod Views
pub mod Coherence
pub mod Writes
pub mod Publications
pub mod Runs
mod Tests
use bakery.Base.{
  ℕ, zero, suc, Bool, true, false, Option, none, some, List, [], ◌∷◌, Bytes, eq_bytes, get_elem?,
  if◌then◌else◌,
}
use bakery.Blob.Lru.Entries.{Meta}
use bakery.Blob.Lru.{Shard, get, put, del, seq, put_if_unchanged}

-- The columns of cache_objects that StatObject returns.
pub record Object : Type 0 where
  pub digest : Bytes
  pub size : ℕ
  pub updated_at : ℕ
  pub content_type : Bytes

abbrev pub absent : Meta
absent = record { exists = false; digest = []; size = 0; updated_at = 0; content_type = [] }

abbrev pub present : ℕ → Object → Meta
present updated_at o = record {
  exists = true;
  digest = o.digest;
  size = o.size;
  updated_at = updated_at;
  content_type = o.content_type;
}

-- queryObject: what it makes of the row, pgx.ErrNoRows being `none`. Other errors fill nothing.
unfoldable pub query_object : Option Object → Meta
query_object none = absent
query_object (some o) = present o.updated_at o

-- A flight of statDB: the key, `seq`, and the answer of the database once it is there.
pub record Probe : Type 0 where
  pub key : Bytes
  pub seq : ℕ
  pub answer : Option Meta

-- What a write that has committed is still to do to the cache: after a Put that created its row,
-- after a Put that found another's row, and after a Delete.
pub data Publication : Type 0 where
  stored : Bytes → Object → Publication
  dropped : Bytes → Publication
  gone : Bytes → Publication

-- `writing` holds the writes between their commit and their publication.
pub record System : Type 0 where
  pub db : Bytes → Option Object
  pub shard : Shard
  pub probes : List Probe
  pub writing : List Publication

unfoldable pub set_row : Bytes → Option Object → (Bytes → Option Object) → Bytes → Option Object
set_row key row db k = if eq_bytes key k then row else db k

unfoldable pub answer_at : (Bytes → Option Object) → ℕ → List Probe → List Probe
answer_at db i [] = []
answer_at db zero (p ∷ ps) = record p { answer = some (query_object (db p.key)) } ∷ ps
answer_at db (suc i) (p ∷ ps) = p ∷ answer_at db i ps

unfoldable pub remove_at {ℓ} : {A : Type ℓ} → ℕ → List A → List A
remove_at i [] = []
remove_at zero (x ∷ xs) = xs
remove_at (suc i) (x ∷ xs) = x ∷ remove_at i xs

-- `cache`, and the last lines of Delete.
unfoldable pub publish : ℕ → Publication → Shard → Shard
publish now (stored key o) s = (put key (present now o) s).0
publish now (dropped key) s = del key s
publish now (gone key) s = (put key absent s).0

abbrev pub fill : ℕ → Probe → Option Meta → Shard → Shard
fill now p none s = s
fill now p (some meta) s = (put_if_unchanged p.key meta p.seq now s).1

-- The end of statDB: nothing lands before the answer is there.
unfoldable pub land : ℕ → Probe → Shard → Shard
land now p s = fill now p p.answer s

pub data Event : Type 0 where
  hits : Bytes → ℕ → Event
  begins : Bytes → Event
  answers : ℕ → Event
  lands : ℕ → ℕ → Event
  commits_put : Bytes → Object → Bool → Event
  commits_delete : Bytes → Event
  publishes : ℕ → ℕ → Event

abbrev land_at : ℕ → ℕ → Option Probe → System → System
land_at i now none s = s
land_at i now (some p) s = record s { shard = land now p s.shard; probes = remove_at i s.probes }

abbrev pub commit : Bytes → Option Object → Publication → System → System
commit key row w s = record s { db = set_row key row s.db; writing = w ∷ s.writing }

abbrev pub finish : ℕ → ℕ → Option Publication → System → System
finish i now none s = s
finish i now (some w) s = record s {
  shard = publish now w s.shard;
  writing = remove_at i s.writing;
}

unfoldable pub act : Event → System → System
act (hits key now) s = record s { shard = (get key now s.shard).1 }
act (begins key) s = record s {
  probes = record { key = key; seq = seq s.shard; answer = none } ∷ s.probes;
}
act (answers i) s = record s { probes = answer_at s.db i s.probes }
act (lands i now) s = land_at i now (get_elem? s.probes i) s
act (commits_put key o created) s =
    if created then commit key (some o) (stored key o) s else commit key (s.db key) (dropped key) s
act (commits_delete key) s = commit key none (gone key) s
act (publishes i now) s = finish i now (get_elem? s.writing i) s

unfoldable pub act_all : List Event → System → System
act_all [] s = s
act_all (e ∷ es) s = act_all es (act e s)
