-- ===== src/Cache/Routes/Find.antt =====
-- The searches of package strings that internal/cache/oci/routes.go calls.
use bakery.Base.{
  ℕ, zero, suc, ◌+◌, ◌<◌, ◌≡◌, refl, sym, ap, ◌∙◌, Bool, true, false, ◌||◌, Option, none, some, [],
  ◌∷◌, ◌++◌, Bytes, take, drop, has_byte, starts_with, if◌then◌else◌, length, arith, is_some, ◌⊎◌,
  inl, inr,
}

abbrev pub later : Bool → Option ℕ → Option ℕ
later here (some i) = some (suc i)
later here none = if here then some 0 else none

-- strings.LastIndex(s, p), none for -1
unfoldable pub last_index : Bytes → Bytes → Option ℕ
last_index p [] = later (starts_with p []) none
last_index p (b ∷ s) = later (starts_with p (b ∷ s)) (last_index p s)

pub starts_with-append : (p s : Bytes) → starts_with p (p ++ s) ≡ true
unfolding starts_with
starts_with-append [] s = refl
starts_with-append (c ∷ p) s = ground (arith, starts_with-append p s)

pub starts_with-drop : (p s : Bytes) → starts_with p s ≡ true → s ≡ p ++ drop (length p) s
unfolding starts_with
starts_with-drop [] s h = refl
starts_with-drop (c ∷ p) [] h = cc
starts_with-drop (c ∷ p) (b ∷ s) h = ground (arith, starts_with-drop p s)

-- Behind a text in which it occurs, an occurrence shifts.
pub last_index-append :
    (p n t : Bytes) (k : ℕ) → last_index p t ≡ some k → last_index p (n ++ t) ≡ some (length n + k)
unfolding last_index
last_index-append p [] t k h = h ∙ ap some (omega arith)
last_index-append p (b ∷ n) t k h = rw (last_index-append p n t k h) (ap some (omega arith))

later-some :
    (b : Bool) (o : Option ℕ) (k : ℕ)
    → later b o ≡ some k
    → (o ≡ none) × (k ≡ 0) ⊎ ((i : ℕ) × (o ≡ some i) × (k ≡ suc i))
later-some true none k h = inl (refl, cc)
later-some false none k h = cc
later-some b (some i) k h = inr (i, refl, cc)

-- Behind a text in which it does not, it is found before that text.
pub last_index-before :
    (p n t : Bytes) (k : ℕ) → last_index p t ≡ none → last_index p (n ++ t) ≡ some k → k < length n
unfolding last_index
last_index-before p [] t k h e = cc
last_index-before p (b ∷ n) t k h e =
    elim (later-some (starts_with p (b ∷ n ++ t)) (last_index p (n ++ t)) k e) [
      | inl (_, z) ↦ omega arith
      | inr (i, f, z) ↦ omega (arith, last_index-before p n t i h f)
    ]

later-none : (b : Bool) (o : Option ℕ) → b ≡ false → o ≡ none → later b o ≡ none
later-none b o h k = rw (h, k) refl

-- A pattern that starts with a slash is not found where there is none.
pub last_index-none : (q r : Bytes) → has_byte b'/' r ≡ false → last_index (b'/' ∷ q) r ≡ none
unfolding last_index starts_with has_byte
last_index-none q [] h = refl
last_index-none q (b ∷ r) h =
    later-none _ (last_index (b'/' ∷ q) r) (ground arith) (last_index-none q r (ground arith))

-- Nor across a text without a slash.
pub last_index-skip :
    (q r t : Bytes)
    → has_byte b'/' r ≡ false
    → last_index (b'/' ∷ q) t ≡ none
    → last_index (b'/' ∷ q) (r ++ t) ≡ none
unfolding last_index starts_with has_byte
last_index-skip q [] t h k = k
last_index-skip q (b ∷ r) t h k =
    later-none _ (last_index (b'/' ∷ q) (r ++ t)) (ground arith)
      (last_index-skip q r t (ground arith) k)

later-here : (b : Bool) (k : ℕ) → later b none ≡ some k → b ≡ true
later-here true k h = refl
later-here false k h = cc

-- What an index says of the text.
last_index-starts_with :
    (p s : Bytes) (k : ℕ) → last_index p s ≡ some k → starts_with p (drop k s) ≡ true
unfolding last_index
last_index-starts_with p [] k h = elim (later-some (starts_with p []) none k h) [
  | inl (f, z) ↦ rw (z) (later-here _ k h)
  | inr (i, f, z) ↦ cc
]
last_index-starts_with p (b ∷ s) k h =
    elim (later-some (starts_with p (b ∷ s)) (last_index p s) k h) [
      | inl (f, z) ↦ rw (z) (later-here _ k (ap (λ o. later (starts_with p (b ∷ s)) o) (sym f) ∙ h))
      | inr (i, f, z) ↦ rw (z) (last_index-starts_with p s i f)
    ]

take-drop : (k : ℕ) (s : Bytes) → s ≡ take k s ++ drop k s
take-drop zero s = refl
take-drop (suc k) [] = refl
take-drop (suc k) (b ∷ s) = ap (λ r. b ∷ r) (take-drop k s)

drop-nil : (k : ℕ) → drop {A = ℕ} k [] ≡ []
drop-nil zero = refl
drop-nil (suc k) = refl

drop-drop : (k m : ℕ) (s : Bytes) → drop m (drop k s) ≡ drop (k + m) s
drop-drop zero m s = ap (λ i. drop i s) (omega arith)
drop-drop (suc k) m [] = drop-nil m ∙ sym (drop-nil (suc k + m))
drop-drop (suc k) m (b ∷ s) =
    drop-drop k m s ∙ (let e : suc (k + m) ≡ suc k + m = omega arith in ap (λ i. drop i (b ∷ s)) e)

pub last_index-found :
    (p s : Bytes) (k : ℕ) → last_index p s ≡ some k → s ≡ take k s ++ (p ++ drop (k + length p) s)
last_index-found p s k h =
    take-drop k s
    ∙ ap (λ r. take k s ++ r)
        (starts_with-drop p (drop k s) (last_index-starts_with p s k h)
          ∙ ap (λ r. p ++ r) (drop-drop k (length p) s))

is_some-later : (b : Bool) (o : Option ℕ) → b || is_some o ≡ true → is_some (later b o) ≡ true
is_some-later true none h = refl
is_some-later false none h = h
is_some-later b (some i) h = refl

or-true : (b : Bool) → b || true ≡ true
or-true true = refl
or-true false = refl

is_some-last_index-start : (p s : Bytes) → starts_with p s ≡ true → is_some (last_index p s) ≡ true
unfolding last_index
is_some-last_index-start p [] h = is_some-later _ none (rw h refl)
is_some-last_index-start p (b ∷ s) h = is_some-later _ (last_index p s) (rw h refl)

-- A text that occurs is found.
pub is_some-last_index-append : (p n s : Bytes) → is_some (last_index p (n ++ (p ++ s))) ≡ true
unfolding last_index
is_some-last_index-append p [] s = is_some-last_index-start p (p ++ s) (starts_with-append p s)
is_some-last_index-append p (b ∷ n) s =
    is_some-later _ (last_index p (n ++ (p ++ s)))
      (rw (is_some-last_index-append p n s) (or-true _))
