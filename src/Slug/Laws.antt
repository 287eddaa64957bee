-- ===== src/Slug/Laws.antt =====
-- What the grammar promises to the code that builds and parses URLs.
use bakery.Base.{
  ℕ, ◌≤◌, ◌≡◌, refl, ◌↔◌, Bool, true, false, not, ◌&&◌, [], ◌∷◌, Bytes, contains, has_byte, length,
  leb, arith, &&-true,
}
use bakery.Slug.{
  is_alnum, is_inner, ends_alnum, matches, reserved, is_reserved, valid, check, accepted,
}

-- Check accepts exactly the slugs that Valid accepts.
pub check-valid : (s : Bytes) → (check s ≡ accepted) ↔ (valid s ≡ true)
unfolding check valid
check-valid s = ground arith

not-true : (b : Bool) → not b ≡ true → b ≡ false
not-true true h = cc
not-true false h = refl

ends_alnum-has_byte :
    (c : ℕ) (s : Bytes) → is_inner c ≡ false → ends_alnum s ≡ true → has_byte c s ≡ false
unfolding ends_alnum has_byte
ends_alnum-has_byte c [] o h = cc
ends_alnum-has_byte c (d ∷ []) o h = ground arith
ends_alnum-has_byte c (d ∷ e ∷ s) o h = ground (arith, ends_alnum-has_byte c (e ∷ s) o)

matches_shape :
    (s : Bytes)
    → matches s ≡ true
    → (length s ≤ 63) × (1 ≤ length s) × ((c : ℕ) → is_inner c ≡ false → has_byte c s ≡ false)
unfolding matches has_byte
matches_shape [] h = cc
matches_shape (c ∷ []) h = (omega arith, omega arith, λ x o. ground arith)
matches_shape (c ∷ d ∷ s) h =
    let (start, ends) = &&-true (is_alnum c && leb (length (d ∷ s)) 62) (ends_alnum (d ∷ s)) h in
    let (first, few) = &&-true (is_alnum c) (leb (length (d ∷ s)) 62) start in
    (ground arith, omega arith, λ x o. ground (arith, ends_alnum-has_byte x (d ∷ s) o ends))

-- A valid slug has 1 to 63 bytes, each a lowercase letter, a digit or a hyphen, and is none of the
-- reserved words.
pub valid_shape :
    (s : Bytes)
    → valid s ≡ true
    → (length s ≤ 63)
      × (1 ≤ length s)
      × ((c : ℕ) → is_inner c ≡ false → has_byte c s ≡ false)
      × (contains s reserved ≡ false)
unfolding valid is_reserved
valid_shape s h =
    let (m, r) = &&-true (matches s) _ h in
    let (short, long, bytes) = matches_shape s m in
    (short, long, bytes, not-true (contains s reserved) r)
