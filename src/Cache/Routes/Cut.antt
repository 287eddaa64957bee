-- ===== src/Cache/Routes/Cut.antt =====
-- The cuts of package strings that internal/cache/oci/routes.go calls.
use mathlib.Core.Option.{map}
use bakery.Base.{
  ℕ, ◌≡◌, refl, ap, ◌∙◌, Bool, true, false, Option, none, some, [], ◌∷◌, ◌++◌, Bytes, drop,
  drop-length-append, eq_bytes, eq_bytes_iff, eq_bytes_refl, starts_with, if◌then◌else◌, length,
  length-append, arith, ◌⊎◌, inl, inr, Bool-cases, ◌↔◌,
}
use bakery.Cache.Routes.Find.{starts_with-append, starts_with-drop}

-- strings.CutPrefix
unfoldable pub cut_prefix : Bytes → Bytes → Option Bytes
cut_prefix p s = if starts_with p s then some (drop (length p) s) else none

-- strings.CutSuffix
unfoldable pub cut_suffix : Bytes → Bytes → Option Bytes
cut_suffix p [] = if eq_bytes [] p then some [] else none
cut_suffix p (b ∷ s) = if eq_bytes (b ∷ s) p then some [] else map (λ r. b ∷ r) (cut_suffix p s)

if-some :
    (b : Bool) (a : Bytes) (o : Option Bytes) (r : Bytes)
    → (if b then some a else o) ≡ some r
    → ((b ≡ true) × (a ≡ r)) ⊎ ((b ≡ false) × (o ≡ some r))
if-some true a o r h = inl (refl, cc)
if-some false a o r h = inr (refl, h)

map-some :
    (b : ℕ) (o : Option Bytes) (r : Bytes)
    → map (λ s. b ∷ s) o ≡ some r
    → (s : Bytes) × (o ≡ some s) × (b ∷ s ≡ r)
map-some b none r h = cc
map-some b (some s) r h = (s, refl, cc)

-- What a cut suffix says of the text.
pub cut_suffix-found : (p s r : Bytes) → cut_suffix p s ≡ some r → s ≡ r ++ p
unfolding cut_suffix
cut_suffix-found p [] r h = elim (if-some (eq_bytes [] p) [] none r h) [
  | inl (e, f) ↦ (eq_bytes_iff [] p).0 e ∙ ap (λ a. a ++ p) f
  | inr (e, f) ↦ cc
]
cut_suffix-found p (b ∷ s) r h =
    elim (if-some (eq_bytes (b ∷ s) p) [] (map (λ r. b ∷ r) (cut_suffix p s)) r h) [
      | inl (e, f) ↦ (eq_bytes_iff (b ∷ s) p).0 e ∙ ap (λ a. a ++ p) f
      | inr (e, f) ↦
          let (t, g, k) = map-some b (cut_suffix p s) r f in
          ap (λ a. b ∷ a) (cut_suffix-found p s t g) ∙ ap (λ a. a ++ p) k
    ]

eq_bytes-longer : (r p : Bytes) (b : ℕ) → eq_bytes (b ∷ r ++ p) p ≡ false
eq_bytes-longer r p b = elim (Bool-cases (eq_bytes (b ∷ r ++ p) p)) [
  | inl e ↦
      let same = ap length ((eq_bytes_iff (b ∷ r ++ p) p).0 e) in
      absurd (omega (arith, length-append r p, same))
  | inr e ↦ e
]

pub cut_suffix-append : (p r : Bytes) → cut_suffix p (r ++ p) ≡ some r
unfolding cut_suffix
cut_suffix-append [] [] = unfold eq_bytes in refl
cut_suffix-append (c ∷ p) [] = rw (eq_bytes_refl (c ∷ p)) refl
cut_suffix-append p (b ∷ r) = rw (eq_bytes-longer r p b, cut_suffix-append p r) refl

pub cut_prefix_iff : (p s r : Bytes) → (cut_prefix p s ≡ some r) ↔ (s ≡ p ++ r)
unfolding cut_prefix
cut_prefix_iff p s r = (
  λ h. elim (if-some (starts_with p s) (drop (length p) s) none r h) [
    | inl (e, f) ↦ starts_with-drop p s e ∙ ap (λ a. p ++ a) f
    | inr (e, f) ↦ cc
  ],
  λ h. rw (h, starts_with-append p r, drop-length-append p r) refl,
)
