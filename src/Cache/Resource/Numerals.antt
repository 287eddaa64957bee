-- ===== src/Cache/Resource/Numerals.antt =====
-- The texts of hashes and sizes in resource names (internal/cache/bazel/resource.go).
use bakery.Base.{
  ℕ, zero, suc, Option, none, ◌+◌, ◌*◌, ◌-◌, ◌<◌, ◌^◌, ◌≡◌, ◌≢◌, ◌∙◌, refl, sym, ap, true, ◌&&◌,
  some, [], ◌∷◌, ◌++◌, Bytes, ◌==◌, ==_iff, all, All, leb, arith, Bool-cases, inl, inr,
}
use mathlib.Core.Path.{subst}
use mathlib.Core.List.{append_assoc, append-nil}
use bakery.Cache.Resource.{
  is_digit, is_hex_byte, is_decimal, decimal_from, parse_unsigned, parse_negative, parse_size,
  negated, positive, non_negative,
}

pub data IsHexDigit (c : ℕ) : Type 0 where
  numeric : (d : ℕ) → d < 10 → c ≡ b'0' + d → IsHexDigit c
  lower : (d : ℕ) → d < 6 → c ≡ b'a' + d → IsHexDigit c
  upper : (d : ℕ) → d < 6 → c ≡ b'A' + d → IsHexDigit c

-- A numeral in base ten, digit by digit.
pub data Numeral : Bytes → ℕ → Type 0 where
  none_yet : Numeral [] 0
  digit_more :
      (s : Bytes) (n d : ℕ) (t : Bytes) (m : ℕ)
      → Numeral s n
      → d < 10
      → t ≡ s ++ (b'0' + d) ∷ []
      → m ≡ 10 * n + d
      → Numeral t m

-- The texts of a size: digits, with a plus sign or none, or a zero behind a minus sign.
pub data SizeText (t : Bytes) (n : ℕ) : Type 0 where
  plain : t ≢ [] → Numeral t n → SizeText t n
  plus : (s : Bytes) → t ≡ b'+' ∷ s → s ≢ [] → Numeral s n → SizeText t n
  minus_zero : (s : Bytes) → t ≡ b'-' ∷ s → s ≢ [] → Numeral s 0 → n ≡ 0 → SizeText t n

hex_digit : (c : ℕ) → is_hex_byte c ≡ true → IsHexDigit c
hex_digit c h = elim (Bool-cases (is_digit c)) [
  | inl d ↦ numeric (c - b'0') (ground (arith, d)) (ground (arith, d))
  | inr n ↦ elim (Bool-cases (leb b'a' c && leb c b'f')) [
    | inl l ↦ lower (c - b'a') (ground (arith, l)) (ground (arith, l))
    | inr m ↦ upper (c - b'A') (ground (arith, h, n, m)) (ground (arith, h, n, m))
  ]
]

pub hex_digits : (s : Bytes) → all is_hex_byte s ≡ true → All IsHexDigit s
hex_digits [] h = tt
hex_digits (c ∷ s) h = (hex_digit c (ground (arith, h)), hex_digits s (ground (arith, h)))

Numeral-append :
    (s : Bytes) (n : ℕ) (t : Bytes)
    → Numeral s n
    → all is_digit t ≡ true
    → Numeral (s ++ t) (decimal_from n t)
unfolding decimal_from
Numeral-append s n [] k h = subst (λ u. Numeral u n) (sym (append-nil s)) k
Numeral-append s n (c ∷ t) k h =
    let d = c - b'0' in
    let digit : is_digit c ≡ true = ground (arith, h) in
    let is : s ++ c ∷ [] ≡ s ++ (b'0' + d) ∷ [] = ap (λ b. s ++ b ∷ []) (ground (arith, digit)) in
    let next = digit_more s n d (s ++ c ∷ []) (10 * n + d) k (ground (arith, digit)) is refl in
    subst (λ u. Numeral u (decimal_from (10 * n + d) t)) (append_assoc s (c ∷ []) t)
      (Numeral-append (s ++ c ∷ []) (10 * n + d) t next (ground (arith, h)))

numeral : (s : Bytes) → is_decimal s ≡ true → (s ≢ []) × Numeral s (decimal_from 0 s)
unfolding is_decimal
numeral [] h = absurd (cc)
numeral (c ∷ s) h = (cc, Numeral-append [] 0 (c ∷ s) none_yet h)

unsigned : (s : Bytes) (n : ℕ) → parse_unsigned s ≡ some n → (s ≢ []) × Numeral s n × (n < 2 ^ 63)
unfolding parse_unsigned
unsigned s n h =
    let (some_digit, value) = numeral s (ground (arith, h)) in
    let same : decimal_from 0 s ≡ n = ground (arith, h) in
    (some_digit, subst (Numeral s) same value, ground (arith, h))

non_negative-positive : (o : Option ℕ) → non_negative (positive o) ≡ o
non_negative-positive none = refl
non_negative-positive (some n) = refl

-- Behind a minus sign only zero is not negative.
zero_negated : (v n : ℕ) → non_negative (some (negated v)) ≡ some n → (v ≡ 0) × (n ≡ 0)
zero_negated zero n h = (refl, ground (arith, h))
zero_negated (suc v) n h = absurd (cc)

zero_negative :
    (s : Bytes) (n : ℕ)
    → non_negative (parse_negative s) ≡ some n
    → (s ≢ []) × Numeral s 0 × (n ≡ 0)
zero_negative s n h = elim (Bool-cases (is_decimal s && leb (decimal_from 0 s) (2 ^ 63))) [
  | inr d ↦ absurd (ground (arith, h, d))
  | inl d ↦
      let (some_digit, value) = numeral s (ground (arith, d)) in
      let (zero_text, zero_size) = zero_negated (decimal_from 0 s) n (ground (arith, h, d)) in
      (some_digit, subst (Numeral s) zero_text value, zero_size)
]

pub size_text : (t : Bytes) (n : ℕ) → parse_size t ≡ some n → SizeText t n × (n < 2 ^ 63)
unfolding parse_size
size_text [] n h = absurd (cc)
size_text (c ∷ s) n h = elim (Bool-cases (c == b'+')) [
  | inl p ↦
      let (some_digit, value, bound) =
        unsigned s n (sym (non_negative-positive (parse_unsigned s)) ∙ ground (arith, h, p)) in
      (plus s (ap (λ b. b ∷ s) ((==_iff c b'+').0 p)) some_digit value, bound)
  | inr p ↦ elim (Bool-cases (c == b'-')) [
    | inl m ↦
        let (some_digit, value, zero_size) = zero_negative s n (ground (arith, h, p, m)) in
        (
          minus_zero s (ap (λ b. b ∷ s) ((==_iff c b'-').0 m)) some_digit value zero_size,
          omega (arith, zero_size),
        )
    | inr m ↦
        let (some_digit, value, bound) =
          unsigned (c ∷ s) n
            (sym (non_negative-positive (parse_unsigned (c ∷ s))) ∙ ground (arith, h, p, m)) in
        (plain some_digit value, bound)
  ]
]
