-- ===== src/Blob/Lru/Tests.antt =====
-- The shard of internal/blob/lru.go at concrete inputs.
use bakery.Base.{
  ◌<◌, ◌≡◌, refl, true, false, none, some, List, [], ◌∷◌, Bytes, codes, eq_bytes, if◌then◌else◌,
  arith, contains,
}
use bakery.Blob.Lru.Entries.{Meta, back, find, remove, remove_back}
use bakery.Blob.Lru.{Shard, new_shard, get, put, put_if_unchanged, insert_locked, seq, TouchMark}
use bakery.Blob.Lru.Invariant.{IsValid}
use bakery.Blob.Lru.Runs.{Call, gets, puts, fills, step, run, AllClocked, run-IsValid}
use bakery.Blob.Lru.Contents.{view, evicts, view-put}
use bakery.Blob.Lru.Fills.{fill_lands_iff}

abbrev object : Meta
object = record {
  exists = true;
  digest = codes "d1";
  size = 12;
  updated_at = 3;
  content_type = codes "text/plain";
}

abbrev absent : Meta
absent = record { exists = false; digest = []; size = 0; updated_at = 0; content_type = [] }

abbrev x : Bytes
x = codes "1/cas/x"

abbrev y : Bytes
y = codes "1/cas/y"

abbrev z : Bytes
z = codes "1/ac/z"

-- Two objects and a cached absence pass through a shard of two places, with two reads and a fill.
abbrev calls : List Call
calls = puts x object ∷ gets x 7 ∷ fills y object 1 9 ∷ gets y 11 ∷ puts z absent ∷ gets z 12 ∷ []

abbrev shard : Shard
shard = run calls (new_shard 128)

abbrev calls_AllClocked : AllClocked calls
calls_AllClocked = (tt, (omega arith, (tt, (omega arith, (tt, (omega arith, tt))))))

abbrev shard_IsValid : IsValid shard
shard_IsValid = run-IsValid 128 calls calls_AllClocked

run-IsValid_example : IsValid (run calls (new_shard 128))
run-IsValid_example = run-IsValid 128 calls calls_AllClocked

-- The third key pushes the first out of the two places.
shard_fields : (shard.cap ≡ 2) × (shard.gen ≡ 2) × (shard.marked ≡ 1) × (shard.m ≡ z ∷ y ∷ [])
unfolding run step put insert_locked get put_if_unchanged new_shard back find remove remove_back
    contains
shard_fields = (refl, refl, refl, refl)

abbrev shard_cap_positive : 0 < shard.cap
shard_cap_positive = omega (arith, shard_fields.0)

view-put_example :
    view (put x object shard).0 y
    ≡ (if eq_bytes x y then some object else if evicts shard x y then none else view shard y)
view-put_example = view-put shard x y object shard_cap_positive shard_IsValid

-- A write to another key came between the probe and its answer.
abbrev between : List Call
between = gets y 15 ∷ puts z object ∷ []

fill_lands_iff_example :
    put_if_unchanged x object (seq shard) 20 (run between shard)
    ≡ (false, run between shard, false, false)
fill_lands_iff_example =
    fill_lands_iff shard between x object 20 (omega (arith, shard_fields.1)) (omega arith)

abbrev reported : List TouchMark
reported = record { ck = y; marked_at = 9 } ∷ record { ck = z; marked_at = 3 } ∷ []
