-- ===== src/Blob/Service/Tests.antt =====
-- Requests of internal/blob/blob.go that interleave.
use bakery.Base.{
  ◌≡◌, refl, true, false, Option, none, some, List, [], ◌∷◌, Bytes, codes, arith, eq_bytes,
  contains,
}
use bakery.Blob.Lru.Entries.{find, remove, back, remove_back}
use bakery.Blob.Lru.{new_shard, get, put, put_if_unchanged, seq, insert_locked}
use bakery.Blob.Lru.Contents.{view}
use bakery.Blob.Service.{
  Object, absent, present, query_object, Event, begins, answers, lands, commits_put, commits_delete,
  publishes, act, act_all, set_row, answer_at, remove_at, publish, land,
}
use bakery.Blob.Service.Coherence.{fact, is_writing}
use bakery.Blob.Service.Runs.{AllOrdered, start, cache_never_stale}

abbrev key : Bytes
key = codes "1"

abbrev object : Object
object = record {
  digest = codes "d1";
  size = 12;
  updated_at = 3;
  content_type = codes "text/plain";
}

abbrev empty_db : Bytes → Option Object
empty_db k = none

-- A probe of an absent key is overtaken by a Put.
abbrev overtaken : List Event
overtaken = begins key ∷ answers 0 ∷ commits_put key object true ∷ publishes 0 7 ∷ lands 0 9 ∷ []

abbrev overtaken_AllOrdered : AllOrdered overtaken (start empty_db 64)
overtaken_AllOrdered = unfold act answer_at in (tt, (tt, (refl, (tt, (tt, tt)))))

abbrev overtaken_view :
    view (act_all overtaken (start empty_db 64)).shard key ≡ some (present 7 object)
overtaken_view =
    unfold act_all act answer_at remove_at publish land put put_if_unchanged get seq insert_locked
      new_shard find remove back remove_back contains eq_bytes in
    refl

abbrev overtaken_published : is_writing (act_all overtaken (start empty_db 64)).writing key ≡ false
overtaken_published = unfold act_all act answer_at remove_at in refl

cache_never_stale_example :
    fact (present 7 object) ≡ fact (query_object ((act_all overtaken (start empty_db 64)).db key))
cache_never_stale_example =
    cache_never_stale empty_db 64 overtaken key (present 7 object) overtaken_AllOrdered
      (omega arith) overtaken_view overtaken_published

-- A Delete that commits before a Put of the same key and publishes after it: the row is there, and
-- the cache says that it is not.
abbrev crossed : List Event
crossed = commits_delete key ∷ commits_put key object true ∷ publishes 0 7 ∷ publishes 0 8 ∷ []

crossed_is_stale :
    (view (act_all crossed (start empty_db 64)).shard key ≡ some absent)
    × ((act_all crossed (start empty_db 64)).db key ≡ some object)
unfolding act_all act remove_at publish put get insert_locked new_shard find remove back remove_back
    contains eq_bytes set_row
crossed_is_stale = (refl, refl)
