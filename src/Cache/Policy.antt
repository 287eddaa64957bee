-- ===== src/Cache/Policy.antt =====
-- internal/cache/httpblob/policy.go: which keys the plain HTTP mounts accept.
pub mod Laws
mod Tests
use bakery.Base.{
  ℕ, Bool, true, false, not, ◌&&◌, ◌||◌, List, [], ◌∷◌, Bytes, codes, all, any, eq_bytes, has_byte,
  starts_with, leb, ltb, ◌==◌, if◌then◌else◌, length, split,
}

abbrev pub is_lower_hex_byte : ℕ → Bool
is_lower_hex_byte c = (leb b'0' c && leb c b'9') || (leb b'a' c && leb c b'f')

abbrev pub is_hex_byte : ℕ → Bool
is_hex_byte c = is_lower_hex_byte c || (leb b'A' c && leb c b'F')

abbrev pub is_lower_hex : Bytes → Bool
is_lower_hex s = all is_lower_hex_byte s

abbrev pub is_hex : Bytes → Bool
is_hex s = all is_hex_byte s

abbrev pub max_ac_key_len : ℕ
max_ac_key_len = 128

-- The label of the metrics that a key falls under.
pub data KeyKind : Type 0 where
  siginfo object file cas ac sccache : KeyKind

-- What a Classify function returns: the kind and the key, or errBadKey.
pub data Classified : Type 0 where
  accepted : KeyKind → Bytes → Classified
  bad_key : Classified

abbrev pub is_empty : Bytes → Bool
is_empty [] = true
is_empty (_ ∷ _) = false

-- strings.HasSuffix
unfoldable pub has_suffix : Bytes → Bytes → Bool
has_suffix p [] = eq_bytes [] p
has_suffix p (b ∷ s) = eq_bytes (b ∷ s) p || has_suffix p s

-- A segment that would leave the namespace or break a key of the database.
unfoldable pub bad_segment : Bytes → Bool
bad_segment seg =
    is_empty seg
    || eq_bytes seg (codes ".")
    || eq_bytes seg (codes "..")
    || has_byte b'\\' seg
    || has_byte 0 seg

unfoldable pub bad_path : Bytes → Bool
bad_path decoded =
    is_empty decoded || starts_with (codes "/") decoded || any bad_segment (split b'/' decoded)

unfoldable pub classify_sstate : Bytes → Classified
classify_sstate decoded =
    if bad_path decoded
    then bad_key
    else if has_suffix (codes ".siginfo") decoded || has_suffix (codes ".sig") decoded
    then accepted siginfo decoded
    else accepted object decoded

unfoldable pub classify_downloads : Bytes → Classified
classify_downloads decoded =
    if is_empty decoded
      || eq_bytes decoded (codes ".")
      || eq_bytes decoded (codes "..")
      || has_byte b'/' decoded
      || has_byte b'\\' decoded
      || has_byte 0 decoded
    then bad_key
    else accepted file decoded

unfoldable pub classify_cas : Bytes → Classified
classify_cas decoded =
    if not (length decoded == 64) || not (is_lower_hex decoded)
    then bad_key
    else accepted cas decoded

unfoldable pub classify_ac : Bytes → Classified
classify_ac decoded =
    if length decoded == 0 || ltb max_ac_key_len (length decoded) || not (is_hex decoded)
    then bad_key
    else accepted ac decoded

unfoldable pub classify_sccache : Bytes → Classified
classify_sccache decoded = if bad_path decoded then bad_key else accepted sccache decoded
