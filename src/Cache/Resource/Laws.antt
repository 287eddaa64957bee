-- ===== src/Cache/Resource/Laws.antt =====
-- Which resource names parse, and to what.
use mathlib.Core.List.{append_assoc, append-nil}
use bakery.Base.{
  ℕ, ◌<◌, ◌^◌, ◌≡◌, refl, true, false, some, List, [], ◌∷◌, ◌++◌, Bytes, codes, all, eq_bytes,
  eq_bytes_iff, split, join, ◌==◌, arith, Free, split-join, ap, ◌∙◌, has_byte, contains, Bool-cases,
  inl, inr,
}
use bakery.Slug.{valid, reserved}
use bakery.Slug.Laws.{valid_shape}
use bakery.Cache.Resource.{
  ok, is_digit, is_hex_byte, is_hex, is_decimal, decimal_from, parse_unsigned, parse_size, digest,
  parse_blob_tail, is_marker, parse_upload, parse_marker, parse_segments, parse_resource_name,
}

-- Segments of an instance name: no slash in any, and none is a marker.
abbrev pub IsInstance : List Bytes → Type 0
IsInstance [] = Unit {0}
IsInstance (s ∷ segs) = (has_byte b'/' s ≡ false) × (is_marker s ≡ false) × IsInstance segs

Free-append : (ws vs : List Bytes) → IsInstance ws → Free b'/' vs → Free b'/' (ws ++ vs)
Free-append [] vs h f = f
Free-append (w ∷ ws) vs h f = (h.0, Free-append ws vs h.2 f)

parse_segments-skip :
    (before ws : List Bytes) (m : Bytes) (tail : List Bytes)
    → IsInstance ws
    → is_marker m ≡ true
    → parse_segments before (ws ++ m ∷ tail) ≡ parse_marker (join b'/' (before ++ ws)) m tail
unfolding parse_segments
parse_segments-skip before [] m tail h k = rw k (rw append-nil)
parse_segments-skip before (w ∷ ws) m tail h k = rw h.1 (
    parse_segments-skip (before ++ w ∷ []) ws m tail h.2 k
    ∙ ap (λ i. parse_marker (join b'/' i) m tail) (append_assoc before (w ∷ []) ws))

split-segments :
    (w : Bytes) (ws vs : List Bytes)
    → IsInstance (w ∷ ws)
    → Free b'/' vs
    → split b'/' (join b'/' (w ∷ ws ++ vs)) ≡ w ∷ ws ++ vs
split-segments w ws vs h f = split-join b'/' w (ws ++ vs) (Free-append (w ∷ ws) vs h f)

byte_not : (c d : ℕ) → is_digit c ≡ true → is_digit d ≡ false → (c == d) ≡ false
byte_not c d h k = ground arith

-- A run of digits that fits an int64 is its value.
parse_size-decimal :
    (s : Bytes)
    → is_decimal s ≡ true
    → decimal_from 0 s < 2 ^ 63
    → parse_size s ≡ some (decimal_from 0 s)
unfolding parse_size parse_unsigned
parse_size-decimal [] d h = unfold is_decimal in cc
parse_size-decimal (c ∷ s) d h =
    let c_IsDigit : is_digit c ≡ true = unfold is_decimal in ground arith in
    rw (byte_not c b'+' c_IsDigit refl, byte_not c b'-' c_IsDigit refl, d) (ground arith)

digest-ok :
    (i hash size : Bytes)
    → is_hex hash ≡ true
    → is_decimal size ≡ true
    → decimal_from 0 size < 2 ^ 63
    → digest i hash size
      ≡ ok (record { instance_name = i; hash = hash; size = decimal_from 0 size })
unfolding digest
digest-ok i hash size x d h = rw x (rw (parse_size-decimal size d h) refl)

all_digits-slash : (s : Bytes) → all is_digit s ≡ true → has_byte b'/' s ≡ false
unfolding has_byte
all_digits-slash [] h = refl
all_digits-slash (c ∷ s) h = ground (arith, all_digits-slash s)

all_hex-slash : (s : Bytes) → all is_hex_byte s ≡ true → has_byte b'/' s ≡ false
unfolding has_byte
all_hex-slash [] h = refl
all_hex-slash (c ∷ s) h = ground (arith, all_hex-slash s)

is_hex-slash : (s : Bytes) → is_hex s ≡ true → has_byte b'/' s ≡ false
unfolding is_hex
is_hex-slash s h = ground (arith, all_hex-slash s)

is_decimal-slash : (s : Bytes) → is_decimal s ≡ true → has_byte b'/' s ≡ false
unfolding is_decimal
is_decimal-slash s h = ground (arith, all_digits-slash s)

-- The tail of a name in the SHA256 form, whatever follows it.
parse_blob_tail-sha256 :
    (i hash size : Bytes) (meta : List Bytes)
    → is_hex hash ≡ true
    → is_decimal size ≡ true
    → decimal_from 0 size < 2 ^ 63
    → parse_blob_tail i (hash ∷ size ∷ meta)
      ≡ ok (record { instance_name = i; hash = hash; size = decimal_from 0 size })
unfolding parse_blob_tail
parse_blob_tail-sha256 i hash size [] x d h = rw (x, d) (digest-ok i hash size x d h)
parse_blob_tail-sha256 i hash size (m ∷ meta) x d h = rw (x, d) (digest-ok i hash size x d h)

-- The tail of a name that states its digest function, whatever follows it.
parse_blob_tail-function :
    (i fn hash size : Bytes) (meta : List Bytes)
    → is_hex fn ≡ false
    → is_hex hash ≡ true
    → is_decimal size ≡ true
    → decimal_from 0 size < 2 ^ 63
    → parse_blob_tail i (fn ∷ hash ∷ size ∷ meta)
      ≡ ok (record { instance_name = i; hash = hash; size = decimal_from 0 size })
unfolding parse_blob_tail
parse_blob_tail-function i fn hash size meta f x d h = rw (f) (digest-ok i hash size x d h)

-- A read of {instance}/blobs/{hash}/{size} names that instance, hash and size, where the instance
-- has one or more segments, none of them with a slash or equal to a marker, the hash is of hex
-- digits, and the size is of decimal digits and below 2^63.
pub read_name :
    (w : Bytes) (ws : List Bytes) (hash size : Bytes)
    → IsInstance (w ∷ ws)
    → is_hex hash ≡ true
    → is_decimal size ≡ true
    → decimal_from 0 size < 2 ^ 63
    → parse_resource_name (join b'/' (w ∷ ws ++ codes "blobs" ∷ hash ∷ size ∷ []))
      ≡ ok (record { instance_name = join b'/' (w ∷ ws); hash = hash; size = decimal_from 0 size })
unfolding parse_resource_name parse_marker eq_bytes has_byte
read_name w ws hash size i x d h =
    ap (λ s. parse_segments [] s)
      (split-segments w ws _ i (refl, (is_hex-slash hash x, (is_decimal-slash size d, tt))))
    ∙ parse_segments-skip [] (w ∷ ws) (codes "blobs") (hash ∷ size ∷ []) i refl
    ∙ parse_blob_tail-sha256 (join b'/' (w ∷ ws)) hash size [] x d h

-- A write of {instance}/uploads/{uuid}/blobs/{fn}/{hash}/{size} and any metadata names that
-- instance, hash and size whatever the uuid is, where the instance, the hash and the size are as
-- for a read, no other segment has a slash, and the name of the digest function is not all hex
-- digits.
pub write_name :
    (w : Bytes) (ws : List Bytes) (uuid fn hash size : Bytes) (meta : List Bytes)
    → IsInstance (w ∷ ws)
    → has_byte b'/' uuid ≡ false
    → has_byte b'/' fn ≡ false
    → Free b'/' meta
    → is_hex fn ≡ false
    → is_hex hash ≡ true
    → is_decimal size ≡ true
    → decimal_from 0 size < 2 ^ 63
    → parse_resource_name
        (join b'/' (w ∷ ws ++ codes "uploads" ∷ uuid ∷ codes "blobs" ∷ fn ∷ hash ∷ size ∷ meta))
      ≡ ok (record { instance_name = join b'/' (w ∷ ws); hash = hash; size = decimal_from 0 size })
unfolding parse_resource_name parse_marker parse_upload eq_bytes has_byte
write_name w ws uuid fn hash size meta i u f m n x d h =
    ap (λ s. parse_segments [] s)
      (split-segments w ws _ i
        (refl, (u, (refl, (f, (is_hex-slash hash x, (is_decimal-slash size d, m)))))))
    ∙ parse_segments-skip [] (w ∷ ws) (codes "uploads")
        (uuid ∷ codes "blobs" ∷ fn ∷ hash ∷ size ∷ meta) i refl
    ∙ parse_blob_tail-function (join b'/' (w ∷ ws)) fn hash size meta n x d h

slug-slash : (s : Bytes) → valid s ≡ true → has_byte b'/' s ≡ false
slug-slash s h = (valid_shape s h).2 b'/' refl

-- A word that is not in a list is none of its words.
contains-eq_bytes :
    (s t : Bytes) (ts : List Bytes)
    → contains t ts ≡ true
    → contains s ts ≡ false
    → eq_bytes s t ≡ false
contains-eq_bytes s t ts h k = elim (Bool-cases (eq_bytes s t)) [
  | inl e ↦ let same = (eq_bytes_iff s t).0 e in cc
  | inr e ↦ e
]

reserved-not_marker : (s : Bytes) → contains s reserved ≡ false → is_marker s ≡ false
reserved-not_marker s h =
    rw
      (
        contains-eq_bytes s (codes "uploads") reserved (unfold contains eq_bytes in refl) h,
        contains-eq_bytes s (codes "blobs") reserved (unfold contains eq_bytes in refl) h,
        contains-eq_bytes s (codes "compressed-blobs") reserved (unfold contains eq_bytes in refl)
            h,
      )
      refl

slug-not_marker : (s : Bytes) → valid s ≡ true → is_marker s ≡ false
slug-not_marker s h = reserved-not_marker s (valid_shape s h).3

-- Two valid slugs are the segments of an instance name.
pub slugs-IsInstance :
    (org project : Bytes)
    → valid org ≡ true
    → valid project ≡ true
    → IsInstance (org ∷ project ∷ [])
slugs-IsInstance org project o p =
    (slug-slash org o, slug-not_marker org o, (slug-slash project p, slug-not_marker project p, tt))
