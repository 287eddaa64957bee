-- ===== src/Cache/Resource.antt =====
-- internal/cache/bazel/resource.go: ByteStream resource names.
pub mod Laws
pub mod Numerals
pub mod Soundness
mod Tests
use bakery.Base.{
  ℕ, zero, suc, ◌+◌, ◌-◌, ◌*◌, ◌^◌, Bool, true, false, not, ◌&&◌, ◌||◌, Option, none, some, List,
  [], ◌∷◌, ◌++◌, Bytes, codes, all, eq_bytes, split, join, leb, ltb, ◌==◌, if◌then◌else◌,
}

pub record ResourceName : Type 0 where
  pub instance_name : Bytes
  pub hash : Bytes
  pub size : ℕ

pub data Parsed : Type 0 where
  ok : ResourceName → Parsed
  invalid_resource compressed_resource : Parsed

abbrev pub is_digit : ℕ → Bool
is_digit c = leb b'0' c && leb c b'9'

abbrev pub is_hex_byte : ℕ → Bool
is_hex_byte c = is_digit c || (leb b'a' c && leb c b'f') || (leb b'A' c && leb c b'F')

abbrev pub is_nonempty : Bytes → Bool
is_nonempty [] = false
is_nonempty (_ ∷ _) = true

unfoldable pub is_hex : Bytes → Bool
is_hex s = is_nonempty s && all is_hex_byte s

unfoldable pub is_decimal : Bytes → Bool
is_decimal s = is_nonempty s && all is_digit s

unfoldable pub decimal_from : ℕ → Bytes → ℕ
decimal_from n [] = n
decimal_from n (c ∷ s) = decimal_from (10 * n + (c - b'0')) s

-- The values of an int64.
pub data ℤ : Type 0 where
  pos negsuc : ℕ → ℤ

-- strconv.ParseInt(s, 10, 64): none where it fails.
unfoldable pub parse_unsigned : Bytes → Option ℕ
parse_unsigned s =
    if is_decimal s && ltb (decimal_from 0 s) (2 ^ 63) then some (decimal_from 0 s) else none

abbrev pub negated : ℕ → ℤ
negated zero = pos 0
negated (suc n) = negsuc n

abbrev pub positive : Option ℕ → Option ℤ
positive none = none
positive (some n) = some (pos n)

abbrev pub parse_negative : Bytes → Option ℤ
parse_negative s =
    if is_decimal s && leb (decimal_from 0 s) (2 ^ 63)
    then some (negated (decimal_from 0 s))
    else none

abbrev pub parse_int : Bytes → Option ℤ
parse_int [] = none
parse_int (c ∷ s) =
    if c == b'+'
    then positive (parse_unsigned s)
    else if c == b'-'
    then parse_negative s
    else positive (parse_unsigned (c ∷ s))

-- The size, where it is not negative.
abbrev pub non_negative : Option ℤ → Option ℕ
non_negative none = none
non_negative (some (pos n)) = some n
non_negative (some (negsuc n)) = none

unfoldable pub parse_size : Bytes → Option ℕ
parse_size s = non_negative (parse_int s)

abbrev pub with_size : Bytes → Bytes → Option ℕ → Parsed
with_size instance_name hash none = invalid_resource
with_size instance_name hash (some size) =
    ok (record { instance_name = instance_name; hash = hash; size = size })

-- The checks on the hash and the size, once they are found.
unfoldable pub digest : Bytes → Bytes → Bytes → Parsed
digest instance_name hash size =
    if not (is_hex hash) then invalid_resource else with_size instance_name hash (parse_size size)

unfoldable pub parse_blob_tail : Bytes → List Bytes → Parsed
parse_blob_tail instance_name [] = invalid_resource
parse_blob_tail instance_name (a ∷ []) = invalid_resource
parse_blob_tail instance_name (a ∷ b ∷ []) =
    if is_hex a && is_decimal b then digest instance_name a b else invalid_resource
parse_blob_tail instance_name (a ∷ b ∷ c ∷ rest) =
    if is_hex a && is_decimal b then digest instance_name a b else digest instance_name b c

abbrev pub is_marker : Bytes → Bool
is_marker s =
    eq_bytes s (codes "uploads")
    || eq_bytes s (codes "blobs")
    || eq_bytes s (codes "compressed-blobs")

-- What stands behind an "uploads" marker.
unfoldable pub parse_upload : Bytes → List Bytes → Parsed
parse_upload instance_name (uuid ∷ kind ∷ tail) =
    if eq_bytes kind (codes "compressed-blobs")
    then compressed_resource
    else if eq_bytes kind (codes "blobs")
    then parse_blob_tail instance_name tail
    else invalid_resource
parse_upload instance_name _ = invalid_resource

unfoldable pub parse_marker : Bytes → Bytes → List Bytes → Parsed
parse_marker instance_name marker tail =
    if eq_bytes marker (codes "compressed-blobs")
    then compressed_resource
    else if eq_bytes marker (codes "uploads")
    then parse_upload instance_name tail
    else parse_blob_tail instance_name tail

-- The scan for the first marker: the segments before it are the instance.
unfoldable pub parse_segments : List Bytes → List Bytes → Parsed
parse_segments before [] = invalid_resource
parse_segments before (s ∷ segs) =
    let rest = parse_segments (before ++ s ∷ []) segs in
    if is_marker s then parse_marker (join b'/' before) s segs else rest

unfoldable pub parse_resource_name : Bytes → Parsed
parse_resource_name name = parse_segments [] (split b'/' name)
