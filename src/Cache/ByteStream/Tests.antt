-- ===== src/Cache/ByteStream/Tests.antt =====
-- A read of internal/cache/bazel/bytestream.go in the middle of a blob.
use bakery.Base.{◌≡◌, refl, none, some, List, [], ◌∷◌, codes, true, false, split, join, eq_bytes}
use bakery.Cache.Resource.{
  ResourceName, ok, parse_resource_name, parse_segments, parse_marker, parse_blob_tail, digest,
  parse_size, parse_unsigned, is_hex, is_decimal, decimal_from,
}
use bakery.Cache.ByteStream.{
  Env, found, Attempt, offers, breaks, ReadRequest, streamed, read, pump, is_empty_blob,
  zero_size_but_not_empty,
}
use bakery.Cache.ByteStream.Upload.{Reader, consume, fill, eof, Reads, consume-Reads}
use bakery.Cache.ByteStream.Slices.{Keeps, promise, read-Keeps}

abbrev env : Env
env = record { authorize = λ name. none; get = λ name hash. found (codes "0123456789") }

-- The reader gives two bytes, none, one, and then breaks.
abbrev plan : List Attempt
plan = offers 2 ∷ offers 0 ∷ offers 1 ∷ breaks ∷ []

abbrev request : ReadRequest
request = record {
  resource_name = codes "blobs/00ff/10";
  read_offset = some 3;
  read_limit = some 5;
}

abbrev named : ResourceName
named = record { instance_name = []; hash = codes "00ff"; size = 10 }

is_named : parse_resource_name request.resource_name ≡ ok named
unfolding parse_resource_name parse_segments parse_marker parse_blob_tail digest parse_size
    parse_unsigned is_hex is_decimal decimal_from split eq_bytes join
is_named = refl

sent :
    read env plan request
    ≡ streamed (record { frames = codes "34" ∷ codes "5" ∷ []; complete = false })
unfolding read pump is_empty_blob zero_size_but_not_empty parse_resource_name parse_segments
    parse_marker parse_blob_tail digest parse_size parse_unsigned is_hex is_decimal decimal_from
    split eq_bytes join
sent = refl

read-Keeps_example : Keeps plan (read env plan request) (promise env plan named 3 5)
read-Keeps_example = read-Keeps env plan request named 3 5 is_named refl refl refl

-- Two frames, the second of which finishes the write, and one that comes too late.
abbrev upload : Reader
upload = record {
  buf = codes "ab";
  done = false;
  frames =
      record { content = []; finish_write = false }
      ∷ record { content = codes "cde"; finish_write = true }
      ∷ record { content = codes "late"; finish_write = false }
      ∷ [];
}

consumed : consume true (1 ∷ 4 ∷ 2 ∷ 2 ∷ 2 ∷ []) upload ≡ record { got = codes "abcde"; how = eof }
unfolding consume fill
consumed = refl

consume-Reads_example :
    Reads true (1 ∷ 4 ∷ 2 ∷ 2 ∷ 2 ∷ []) upload (consume true (1 ∷ 4 ∷ 2 ∷ 2 ∷ 2 ∷ []) upload)
consume-Reads_example = consume-Reads true (1 ∷ 4 ∷ 2 ∷ 2 ∷ 2 ∷ []) upload
