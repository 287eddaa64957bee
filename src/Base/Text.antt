-- ===== src/Base/Text.antt =====
-- Text as the program reads it: a Go string is a list of bytes.
use Prim.Native.Char.{code}
use Prim.Native.Nat.{ℕ}
use Prim.Native.String.{String}
use mathlib.Core.Path.{◌≡◌, refl, sym, ap, ◌∙◌}
use mathlib.Core.Logic.{◌↔◌, ◌≢◌, inl, inr}
use mathlib.Core.Bool.{Bool, true, false, ◌&&◌, ◌||◌}
use mathlib.Core.List.{List, [], ◌∷◌, ◌++◌}
use native.Mathlib.Omega.{arith}
use bakery.Base.Tests.{◌==◌, ==_iff, Bool-cases, if◌then◌else◌}

abbrev pub Bytes : Type 0
Bytes = List ℕ

-- The bytes of an ASCII literal.
abbrev pub codes : String → Bytes
codes String.[] = []
codes (String.◌∷◌ c s) = code c ∷ codes s

-- s == t on Go strings
unfoldable pub eq_bytes : Bytes → Bytes → Bool
eq_bytes [] [] = true
eq_bytes [] (_ ∷ _) = false
eq_bytes (_ ∷ _) [] = false
eq_bytes (a ∷ s) (b ∷ t) = a == b && eq_bytes s t

pub eq_bytes_iff : (s t : Bytes) → (eq_bytes s t ≡ true) ↔ (s ≡ t)
unfolding eq_bytes
eq_bytes_iff [] [] = ground arith
eq_bytes_iff [] (_ ∷ _) = ground arith
eq_bytes_iff (_ ∷ _) [] = ground arith
eq_bytes_iff (a ∷ s) (b ∷ t) = ground (arith, eq_bytes_iff s t)

pub eq_bytes_refl : (s : Bytes) → eq_bytes s s ≡ true
eq_bytes_refl s = (eq_bytes_iff s s).1 refl

-- slices.Contains
unfoldable pub contains : Bytes → List Bytes → Bool
unfolding eq_bytes
contains s [] = false
contains s (t ∷ ts) = eq_bytes t s || contains s ts

-- strings.ContainsRune for one byte
unfoldable pub has_byte : ℕ → Bytes → Bool
has_byte c [] = false
has_byte c (b ∷ s) = b == c || has_byte c s

unfoldable pub starts_with : Bytes → Bytes → Bool
starts_with [] s = true
starts_with (c ∷ p) [] = false
starts_with (c ∷ p) (b ∷ s) = b == c && starts_with p s

abbrev pub push_byte : ℕ → List Bytes → List Bytes
push_byte b [] = (b ∷ []) ∷ []
push_byte b (w ∷ ws) = (b ∷ w) ∷ ws

-- strings.Split by one byte
unfoldable pub split : ℕ → Bytes → List Bytes
split c [] = [] ∷ []
split c (b ∷ s) = if b == c then [] ∷ split c s else push_byte b (split c s)

-- strings.Join with one byte
unfoldable pub join : ℕ → List Bytes → Bytes
join c [] = []
join c (w ∷ []) = w
join c (w ∷ v ∷ ws) = w ++ c ∷ join c (v ∷ ws)

pub split-one : (c : ℕ) (w : Bytes) → has_byte c w ≡ false → split c w ≡ w ∷ []
unfolding split has_byte
split-one c [] h = refl
split-one c (b ∷ w) h = ground (arith, split-one c w)

pub split-append :
    (c : ℕ) (w s : Bytes) → has_byte c w ≡ false → split c (w ++ c ∷ s) ≡ w ∷ split c s
unfolding split has_byte
split-append c [] s h = ground arith
split-append c (b ∷ w) s h = ground (arith, split-append c w s)

-- No word of the list has the byte.
abbrev pub Free : ℕ → List Bytes → Type 0
Free c [] = Unit {0}
Free c (w ∷ ws) = (has_byte c w ≡ false) × Free c ws

-- Splitting undoes joining, where no word has the separator.
pub split-join :
    (c : ℕ) (w : Bytes) (ws : List Bytes) → Free c (w ∷ ws) → split c (join c (w ∷ ws)) ≡ w ∷ ws
unfolding join
split-join c w [] f = split-one c w f.0
split-join c w (v ∷ ws) f =
    split-append c w (join c (v ∷ ws)) f.0 ∙ ap (λ r. w ∷ r) (split-join c v ws f.1)

push_byte-join : (c b : ℕ) (ws : List Bytes) → ws ≢ [] → join c (push_byte b ws) ≡ b ∷ join c ws
unfolding join
push_byte-join c b [] h = absurd (h refl)
push_byte-join c b (w ∷ []) h = refl
push_byte-join c b (w ∷ v ∷ ws) h = refl

push_byte_nonempty :
    (b : ℕ) (t : Bool) (us ws : List Bytes) → (if t then [] ∷ us else push_byte b ws) ≢ []
push_byte_nonempty b true us ws h = cc
push_byte_nonempty b false us [] h = cc
push_byte_nonempty b false us (w ∷ ws) h = cc

cons-join : (c : ℕ) (ws : List Bytes) → ws ≢ [] → join c ([] ∷ ws) ≡ c ∷ join c ws
unfolding join
cons-join c [] h = absurd (h refl)
cons-join c (w ∷ ws) h = refl

split_nonempty : (c : ℕ) (s : Bytes) → split c s ≢ []
unfolding split
split_nonempty c [] h = cc
split_nonempty c (b ∷ s) h = push_byte_nonempty b (b == c) (split c s) (split c s) h

-- Joining undoes splitting.
pub join-split : (c : ℕ) (s : Bytes) → join c (split c s) ≡ s
unfolding split
join-split c [] = unfold join in refl
join-split c (b ∷ s) = elim (Bool-cases (b == c)) [
  | inl e ↦
      rw (e, cons-join c (split c s) (split_nonempty c s), join-split c s)
        (ap (λ d. d ∷ s) (sym ((==_iff b c).0 e)))
  | inr e ↦ rw (e, push_byte-join c b (split c s) (split_nonempty c s), join-split c s) refl
]
