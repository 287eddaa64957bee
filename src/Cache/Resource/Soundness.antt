-- ===== src/Cache/Resource/Soundness.antt =====
-- What a resource name that parses states (internal/cache/bazel/resource.go).
use bakery.Base.{
  ℕ, ◌<◌, ◌^◌, ◌≡◌, ◌≢◌, refl, sym, ap, ◌∙◌, Bool, true, false, ◌&&◌, Option, none, some, List, [],
  ◌∷◌, ◌++◌, Bytes, eq_bytes, eq_bytes_iff, codes, split, join, All, if◌then◌else◌, arith,
  Bool-cases, ◌⊎◌, inl, inr,
}
use mathlib.Core.List.{append_assoc, append-nil}
use bakery.Cache.Resource.{
  ResourceName, Parsed, ok, invalid_resource, compressed_resource, is_hex, is_decimal, with_size,
  parse_size, digest, parse_blob_tail, is_marker, parse_upload, parse_marker, parse_segments,
  parse_resource_name,
}
use bakery.Cache.Resource.Numerals.{IsHexDigit, SizeText, hex_digits, size_text}

-- The hash and the size that are stated are two segments of the tail, one behind the other.
pub record States (r : ResourceName) (tail : List Bytes) : Type 0 where
  pub front : List Bytes
  pub text : Bytes
  pub back : List Bytes
  pub whole : tail ≡ front ++ r.hash ∷ text ∷ back
  pub hash_digits : All IsHexDigit r.hash
  pub some_hash : r.hash ≢ []
  pub size_text : SizeText text r.size
  pub bound : r.size < 2 ^ 63

abbrev Tail : Bytes → List Bytes → Parsed → Type 0
Tail i tail (ok r) = (r.instance_name ≡ i) × States r tail
Tail i tail invalid_resource = Unit {0}
Tail i tail compressed_resource = Unit {0}

is_hex_nonempty : (s : Bytes) → is_hex s ≡ true → s ≢ []
unfolding is_hex
is_hex_nonempty [] h = absurd (cc)
is_hex_nonempty (c ∷ s) h = cc

with_size-Tail :
    (i hash size : Bytes) (front back : List Bytes) (o : Option ℕ)
    → is_hex hash ≡ true
    → parse_size size ≡ o
    → Tail i (front ++ hash ∷ size ∷ back) (with_size i hash o)
unfolding is_hex
with_size-Tail i hash size front back none x e = tt
with_size-Tail i hash size front back (some n) x e =
    let (text, bound) = size_text size n e in
    (
      refl,
      record {
        front = front;
        text = size;
        back = back;
        whole = refl;
        hash_digits = hex_digits hash (ground (arith, x));
        some_hash = is_hex_nonempty hash x;
        size_text = text;
        bound = bound;
      },
    )

if-Tail :
    (i : Bytes) (tail : List Bytes) (b : Bool) (x y : Parsed)
    → Tail i tail x
    → Tail i tail y
    → Tail i tail (if b then x else y)
if-Tail i tail true x y h k = h
if-Tail i tail false x y h k = k

digest-Tail :
    (i hash size : Bytes) (front back : List Bytes)
    → Tail i (front ++ hash ∷ size ∷ back) (digest i hash size)
unfolding digest
digest-Tail i hash size front back = elim (Bool-cases (is_hex hash)) [
  | inl x ↦ rw x (with_size-Tail i hash size front back (parse_size size) x refl)
  | inr x ↦ rw x tt
]

parse_blob_tail-Tail : (i : Bytes) (tail : List Bytes) → Tail i tail (parse_blob_tail i tail)
unfolding parse_blob_tail
parse_blob_tail-Tail i [] = tt
parse_blob_tail-Tail i (a ∷ []) = tt
parse_blob_tail-Tail i (a ∷ b ∷ []) =
    if-Tail i (a ∷ b ∷ []) (is_hex a && is_decimal b) (digest i a b) invalid_resource
      (digest-Tail i a b [] []) tt
parse_blob_tail-Tail i (a ∷ b ∷ c ∷ rest) =
    if-Tail i (a ∷ b ∷ c ∷ rest) (is_hex a && is_decimal b) (digest i a b) (digest i b c)
      (digest-Tail i a b [] (c ∷ rest)) (digest-Tail i b c (a ∷ []) rest)

-- Two more segments in front.
behind : (i a b : Bytes) (tail : List Bytes) (q : Parsed) → Tail i tail q → Tail i (a ∷ b ∷ tail) q
behind i a b tail (ok r) (same, s) = (
  same,
  record {
    front = a ∷ b ∷ s.front;
    text = s.text;
    back = s.back;
    whole = ap (λ t. a ∷ b ∷ t) s.whole;
    hash_digits = s.hash_digits;
    some_hash = s.some_hash;
    size_text = s.size_text;
    bound = s.bound;
  },
)
behind i a b tail invalid_resource h = tt
behind i a b tail compressed_resource h = tt

parse_upload-Tail : (i : Bytes) (tail : List Bytes) → Tail i tail (parse_upload i tail)
unfolding parse_upload
parse_upload-Tail i [] = tt
parse_upload-Tail i (uuid ∷ []) = tt
parse_upload-Tail i (uuid ∷ kind ∷ tail) =
    let all = uuid ∷ kind ∷ tail in
    let blobs =
      if-Tail i all (eq_bytes kind (codes "blobs")) (parse_blob_tail i tail) invalid_resource
        (behind i uuid kind tail (parse_blob_tail i tail) (parse_blob_tail-Tail i tail)) tt in
    if-Tail i all (eq_bytes kind (codes "compressed-blobs")) compressed_resource _ tt blobs

parse_marker-Tail : (i m : Bytes) (tail : List Bytes) → Tail i tail (parse_marker i m tail)
unfolding parse_marker
parse_marker-Tail i m tail =
    let plain =
      if-Tail i tail (eq_bytes m (codes "uploads")) (parse_upload i tail) (parse_blob_tail i tail)
        (parse_upload-Tail i tail) (parse_blob_tail-Tail i tail) in
    if-Tail i tail (eq_bytes m (codes "compressed-blobs")) compressed_resource _ tt plain

-- The instance is what stands before the marker, and the tail what stands behind.
pub record IsRead (r : ResourceName) (before segs : List Bytes) : Type 0 where
  pub skipped : List Bytes
  pub marker : Bytes
  pub tail : List Bytes
  pub segments : segs ≡ skipped ++ marker ∷ tail
  pub marked : (marker ≡ codes "uploads") ⊎ (marker ≡ codes "blobs")
  pub instance_is : r.instance_name ≡ join b'/' (before ++ skipped)
  pub states : States r tail

abbrev pub IsSound : List Bytes → List Bytes → Parsed → Type 0
IsSound before segs (ok r) = IsRead r before segs
IsSound before segs invalid_resource = Unit {0}
IsSound before segs compressed_resource = Unit {0}

at_marker :
    (before : List Bytes) (m : Bytes) (tail : List Bytes) (q : Parsed)
    → (m ≡ codes "uploads") ⊎ (m ≡ codes "blobs")
    → Tail (join b'/' before) tail q
    → IsSound before (m ∷ tail) q
at_marker before m tail (ok r) k (same, s) = record {
  skipped = [];
  marker = m;
  tail = tail;
  segments = refl;
  marked = k;
  instance_is = same ∙ ap (join b'/') (sym (append-nil before));
  states = s;
}
at_marker before m tail invalid_resource k h = tt
at_marker before m tail compressed_resource k h = tt

past_segment :
    (before : List Bytes) (s : Bytes) (segs : List Bytes) (q : Parsed)
    → IsSound (before ++ s ∷ []) segs q
    → IsSound before (s ∷ segs) q
past_segment before s segs (ok r) h = record {
  skipped = s ∷ h.skipped;
  marker = h.marker;
  tail = h.tail;
  segments = ap (λ t. s ∷ t) h.segments;
  marked = h.marked;
  instance_is = h.instance_is ∙ ap (join b'/') (append_assoc before (s ∷ []) h.skipped);
  states = h.states;
}
past_segment before s segs invalid_resource h = tt
past_segment before s segs compressed_resource h = tt

marked_by :
    (s : Bytes)
    → is_marker s ≡ true
    → eq_bytes s (codes "compressed-blobs") ≡ false
    → (s ≡ codes "uploads") ⊎ (s ≡ codes "blobs")
marked_by s h n = elim (Bool-cases (eq_bytes s (codes "uploads"))) [
  | inl u ↦ inl ((eq_bytes_iff s (codes "uploads")).0 u)
  | inr u ↦ inr ((eq_bytes_iff s (codes "blobs")).0 (ground (arith, h, n, u)))
]

marker-IsSound :
    (before : List Bytes) (s : Bytes) (segs : List Bytes)
    → is_marker s ≡ true
    → IsSound before (s ∷ segs) (parse_marker (join b'/' before) s segs)
marker-IsSound before s segs h = elim (Bool-cases (eq_bytes s (codes "compressed-blobs"))) [
  | inl c ↦ unfold parse_marker in rw c tt
  | inr c ↦
      at_marker before s segs (parse_marker (join b'/' before) s segs) (marked_by s h c)
        (parse_marker-Tail (join b'/' before) s segs)
]

segments-IsSound : (before segs : List Bytes) → IsSound before segs (parse_segments before segs)
unfolding parse_segments
segments-IsSound before [] = tt
segments-IsSound before (s ∷ segs) = elim (Bool-cases (is_marker s)) [
  | inl m ↦ rw m (marker-IsSound before s segs m)
  | inr m ↦ rw m (
      past_segment before s segs (parse_segments (before ++ s ∷ []) segs)
        (segments-IsSound (before ++ s ∷ []) segs))
]

-- A parse that succeeds read its parts off the segments of the name: the instance is the segments
-- before a marker "uploads" or "blobs", joined, and behind that marker the hash and the size stand
-- one behind the other. The hash is not empty and of hexadecimal digits. The size is the number that
-- its text writes in base ten, with a plus sign or none, or zero behind a minus sign, and is below
-- 2^63.
pub parse_resource_name-IsSound :
    (name : Bytes) → IsSound [] (split b'/' name) (parse_resource_name name)
unfolding parse_resource_name
parse_resource_name-IsSound name = segments-IsSound [] (split b'/' name)
