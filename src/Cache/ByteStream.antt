-- ===== src/Cache/ByteStream.antt =====
-- Read, discard and pump of internal/cache/bazel/bytestream.go, with empty.go: the download of a blob.
-- The authorization and the object store are arguments. A reader of a blob gives as many bytes at a
-- time as it likes, and may break.
pub mod Slices
pub mod Upload
mod Tests
use bakery.Base.{
  ℕ, zero, suc, ◌+◌, ◌*◌, Bool, true, false, not, ◌&&◌, Option, none, some, List, [], ◌∷◌, Bytes,
  codes, eq_bytes, ltb, ◌==◌, if◌then◌else◌, length, take, drop,
}
use bakery.Cache.Resource.{
  ResourceName, Parsed, ok, invalid_resource, compressed_resource, parse_resource_name,
}

pub data Status : Type 0 where
  invalid_argument unimplemented out_of_range not_found unauthorized internal : Status

abbrev pub read_chunk : ℕ
read_chunk = 64 * 1024

abbrev pub empty_sha256_hex : Bytes
empty_sha256_hex = codes "e3b0c44298fc1c149afbf4c8996fb92427ae41e4649b934ca495991b7852b855"

unfoldable pub is_empty_blob : Bytes → ℕ → Bool
is_empty_blob hash size = size == 0 && eq_bytes hash empty_sha256_hex

unfoldable pub zero_size_but_not_empty : Bytes → ℕ → Bool
zero_size_but_not_empty hash size = size == 0 && not (eq_bytes hash empty_sha256_hex)

-- What blob.Service.Get answers for a hash of an instance, an error by the status of grpcError.
pub data Got : Type 0 where
  missing : Got
  broken : Status → Got
  found : Bytes → Got

pub record Env : Type 0 where
  pub authorize : Bytes → Option Status
  pub get : Bytes → Bytes → Got

-- A number that is negative is none.
pub record ReadRequest : Type 0 where
  pub resource_name : Bytes
  pub read_offset : Option ℕ
  pub read_limit : Option ℕ

-- A call of the reader, or of the sender: how many bytes it offers, or that it fails. A discard that
-- fails is a first call that does.
pub data Attempt : Type 0 where
  offers : ℕ → Attempt
  breaks : Attempt

-- The messages that are sent, and whether the stream ends without an error.
pub record Sent : Type 0 where
  pub frames : List Bytes
  pub complete : Bool

pub data Answer : Type 0 where
  refused : Status → Answer
  streamed : Sent → Answer

abbrev pub nothing_sent : Bool → Sent
nothing_sent complete = record { frames = []; complete = complete }

abbrev pub send : Bytes → Sent → Sent
send frame s = record s { frames = frame ∷ s.frames }

abbrev pub is_empty : Bytes → Bool
is_empty [] = true
is_empty (_ ∷ _) = false

abbrev pub at_most : ℕ → ℕ → ℕ
at_most n m = if ltb n m then n else m

-- The loop of pump; the number is fuel. Without a plan the reader fills the buffer. Where the read is
-- capped, an io.LimitReader ends the stream after its last byte without a call of the reader, which
-- else may still break there.
unfoldable pub pump : Bool → ℕ → List Attempt → Bytes → Sent
pump capped zero plan s = nothing_sent false
pump capped (suc fuel) [] s =
    let rest = pump capped fuel [] (drop read_chunk s) in
    if is_empty s then nothing_sent true else send (take read_chunk s) rest
pump capped (suc fuel) (breaks ∷ plan) s = nothing_sent (is_empty s && capped)
pump capped (suc fuel) (offers n ∷ plan) s =
    let size = at_most n read_chunk in
    let rest = pump capped fuel plan (drop size s) in
    if is_empty s then nothing_sent true else if size == 0 then rest else send (take size s) rest

abbrev pub limited : ℕ → Bytes → Bytes
limited limit s = if ltb 0 limit then take limit s else s

-- Whether the limit is reached within these bytes.
abbrev pub is_capped : ℕ → Bytes → Bool
is_capped limit s = ltb 0 limit && not (ltb (length s) limit)

module _ (e : Env) (plan : List Attempt) where
  abbrev pub pumped : Bool → Bytes → Sent
  pumped capped s = pump capped (suc (length plan + length s)) plan s

  abbrev pub served : ℕ → ℕ → Got → Answer
  served offset limit missing = refused not_found
  served offset limit (broken status) = refused status
  served offset limit (found content) =
      if ltb (length content) offset
      then refused out_of_range
      else if offset == length content
      then streamed (nothing_sent true)
      else let rest = drop offset content in
        streamed (pumped (is_capped limit rest) (limited limit rest))

  abbrev pub read_blob : ResourceName → Option ℕ → Option ℕ → Answer
  read_blob r none limit = refused invalid_argument
  read_blob r (some offset) none = refused invalid_argument
  read_blob r (some offset) (some limit) =
      if is_empty_blob r.hash r.size
      then (if ltb 0 offset then refused out_of_range else streamed (nothing_sent true))
      else if zero_size_but_not_empty r.hash r.size
      then refused invalid_argument
      else served offset limit (e.get r.instance_name r.hash)

  abbrev pub authorized : ResourceName → Option ℕ → Option ℕ → Option Status → Answer
  authorized r offset limit (some status) = refused status
  authorized r offset limit none = read_blob r offset limit

  abbrev pub parsed : ReadRequest → Parsed → Answer
  parsed req invalid_resource = refused invalid_argument
  parsed req compressed_resource = refused unimplemented
  parsed req (ok r) = authorized r req.read_offset req.read_limit (e.authorize r.instance_name)

  unfoldable pub read : ReadRequest → Answer
  unfolding is_empty_blob zero_size_but_not_empty pump
  read req = parsed req (parse_resource_name req.resource_name)
