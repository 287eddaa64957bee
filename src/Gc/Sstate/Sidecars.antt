-- ===== src/Gc/Sstate/Sidecars.antt =====
-- The sidecar suffixes of internal/gc/sstate.go.
use bakery.Base.{
  ℕ, zero, suc, ◌-◌, ◌≤◌, ◌≡◌, ◌≢◌, refl, sym, ap, ◌∙◌, false, Option, none, some, [], ◌∷◌, ◌++◌,
  Bytes, codes, has_byte, length, length-append, arith,
}
use bakery.Cache.Routes.Cut.{cut_suffix, cut_suffix-found, cut_suffix-append}
use bakery.Gc.Sstate.{
  Sidecar, siginfo, sig, done, suffix, or_else, strip_one, strip, after_last, derive_unihash,
}

abbrev last_byte : ℕ → Bytes → ℕ
last_byte d [] = d
last_byte d (b ∷ s) = last_byte b s

last_byte-append :
    (d : ℕ) (s : Bytes) (b : ℕ) (t : Bytes) → last_byte d (s ++ b ∷ t) ≡ last_byte b t
last_byte-append d [] b t = refl
last_byte-append d (c ∷ s) b t = last_byte-append c s b t

-- Two texts that end in different bytes.
other_suffix :
    (s : Bytes) (a b : ℕ) (p q : Bytes)
    → last_byte a p ≢ last_byte b q
    → cut_suffix (a ∷ p) (s ++ b ∷ q) ≡ none
other_suffix s a b p q n = by (cut_suffix (a ∷ p) (s ++ b ∷ q)) refl
  where
    by : (o : Option Bytes) → cut_suffix (a ∷ p) (s ++ b ∷ q) ≡ o → o ≡ none
    by none e = refl
    by (some r) e = absurd (
        n (
          sym (last_byte-append 0 r a p)
          ∙ ap (last_byte 0) (sym (cut_suffix-found (a ∷ p) (s ++ b ∷ q) r e))
          ∙ last_byte-append 0 s b q))

pub strip_one-suffix : (s : Bytes) (c : Sidecar) → strip_one (s ++ suffix c) ≡ some s
unfolding strip_one
strip_one-suffix s siginfo = rw (cut_suffix-append (suffix siginfo) s) refl
strip_one-suffix s sig =
    rw
      (
        other_suffix s b'.' b'.' (codes "siginfo") (codes "sig") (omega arith),
        cut_suffix-append (suffix sig) s,
      )
      refl
strip_one-suffix s done =
    rw
      (
        other_suffix s b'.' b'.' (codes "siginfo") (codes "done") (omega arith),
        other_suffix s b'.' b'.' (codes "sig") (codes "done") (omega arith),
        cut_suffix-append (suffix done) s,
      )
      refl

stripped :
    (s r : Bytes) (a b c : Option Bytes)
    → cut_suffix (suffix siginfo) s ≡ a
    → cut_suffix (suffix sig) s ≡ b
    → cut_suffix (suffix done) s ≡ c
    → or_else a (or_else b c) ≡ some r
    → (x : Sidecar) × (s ≡ r ++ suffix x)
stripped s r (some t) b c e f g h = (siginfo, cut_suffix-found (suffix siginfo) s r (e ∙ h))
stripped s r none (some t) c e f g h = (sig, cut_suffix-found (suffix sig) s r (f ∙ h))
stripped s r none none c e f g h = (done, cut_suffix-found (suffix done) s r (g ∙ h))

strip_one-found : (s r : Bytes) → strip_one s ≡ some r → (x : Sidecar) × (s ≡ r ++ suffix x)
unfolding strip_one
strip_one-found s r h =
    stripped s r (cut_suffix (suffix siginfo) s) (cut_suffix (suffix sig) s)
      (cut_suffix (suffix done) s) refl refl refl h

length-suffix : (x : Sidecar) → 1 ≤ length (suffix x)
length-suffix siginfo = omega arith
length-suffix sig = omega arith
length-suffix done = omega arith

strip_one-length : (s r : Bytes) → strip_one s ≡ some r → suc (length r) ≤ length s
strip_one-length s r h =
    let (x, e) = strip_one-found s r h in
    omega (arith, ap length e, length-append r (suffix x), length-suffix x)

pub strip-none : (n : ℕ) (s : Bytes) → strip_one s ≡ none → strip n s ≡ s
unfolding strip
strip-none zero s e = refl
strip-none (suc n) s e = ground (arith, e)

strip-some : (n : ℕ) (s r : Bytes) → strip_one s ≡ some r → strip (suc n) s ≡ strip n r
unfolding strip
strip-some n s r e = ground (arith, e)

-- Fuel for each byte is enough.
strip-enough :
    (n m : ℕ) (s : Bytes) (o : Option Bytes)
    → strip_one s ≡ o
    → length s ≤ n
    → length s ≤ m
    → strip n s ≡ strip m s
strip-enough n m s none e h k = strip-none n s e ∙ sym (strip-none m s e)
strip-enough zero m s (some r) e h k = absurd (omega (arith, strip_one-length s r e))
strip-enough (suc n) zero s (some r) e h k = absurd (omega (arith, strip_one-length s r e))
strip-enough (suc n) (suc m) s (some r) e h k =
    let shorter = strip_one-length s r e in
    strip-some n s r e
    ∙ strip-enough n m r (strip_one r) refl (omega (arith, shorter)) (omega (arith, shorter))
    ∙ sym (strip-some m s r e)

-- What is left of a name has no sidecar suffix.
pub strip_lem :
    (n : ℕ) (s : Bytes) (o : Option Bytes)
    → strip_one s ≡ o
    → length s ≤ n
    → strip_one (strip n s) ≡ none
strip_lem n s none e h = rw (strip-none n s e) e
strip_lem zero s (some r) e h = absurd (omega (arith, strip_one-length s r e))
strip_lem (suc n) s (some r) e h =
    rw (strip-some n s r e)
      (strip_lem n r (strip_one r) refl (omega (arith, strip_one-length s r e)))

pub strip-suffix :
    (s : Bytes) (x : Sidecar) → strip (length (s ++ suffix x)) (s ++ suffix x) ≡ strip (length s) s
strip-suffix s x =
    let n = length (s ++ suffix x) in
    let e : n ≡ suc (n - 1) = omega (arith, length-append s (suffix x), length-suffix x) in
    let longer : length s ≤ n - 1 = omega (arith, length-append s (suffix x), length-suffix x) in
    ap (λ k. strip k (s ++ suffix x)) e
    ∙ strip-some (n - 1) (s ++ suffix x) s (strip_one-suffix s x)
    ∙ strip-enough (n - 1) (length s) s (strip_one s) refl longer (omega arith)

pub has_byte-append :
    (c : ℕ) (s t : Bytes) → has_byte c t ≡ false → has_byte c (s ++ t) ≡ has_byte c s
unfolding has_byte
has_byte-append c [] t h = h
has_byte-append c (b ∷ s) t h = ground (arith, has_byte-append c s t h)

pub after_last-free : (c : ℕ) (s : Bytes) → has_byte c s ≡ false → after_last c s ≡ s
unfolding after_last has_byte
after_last-free c [] h = refl
after_last-free c (b ∷ s) h = ground (arith, h)

after_last-append :
    (c : ℕ) (s t : Bytes) → has_byte c t ≡ false → after_last c (s ++ t) ≡ after_last c s ++ t
unfolding after_last
after_last-append c [] t h = after_last-free c t h
after_last-append c (b ∷ s) t h = ground (arith, after_last-append c s t h, has_byte-append c s t h)

suffix-free : (x : Sidecar) → has_byte b'/' (suffix x) ≡ false
unfolding has_byte
suffix-free siginfo = refl
suffix-free sig = refl
suffix-free done = refl

-- A key and the key of any of its sidecars derive the same unihash, or neither derives one, however
-- many suffixes the key has already.
pub derive_unihash-suffix :
    (key : Bytes) (x : Sidecar) → derive_unihash (key ++ suffix x) ≡ derive_unihash key
unfolding derive_unihash
derive_unihash-suffix key x =
    rw (after_last-append b'/' key (suffix x) (suffix-free x), strip-suffix (after_last b'/' key) x)
      refl
