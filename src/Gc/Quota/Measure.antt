-- ===== src/Gc/Quota/Measure.antt =====
-- What a measured usage says of the rows that were observed.
use bakery.Base.{
  ℕ, ◌+◌, ◌≤◌, ◌≡◌, Bool, true, false, not, ◌&&◌, ◌||◌, some, List, [], ◌∷◌, leb, if◌then◌else◌,
  arith, All, Bool-cases, inl, inr,
}
use bakery.Gc.Quota.{Row, Usage, liveness_of, is_aged, bucket_from, zeros, add_at, observe, cutoff}

-- The usage after a pass over the surviving rows.
unfoldable pub measure : ℕ → Usage → List (ℕ × Row) → Usage
measure now u [] = u
measure now u (r ∷ rs) = measure now (observe now u r) rs

-- The bytes of the rows that pass a test.
unfoldable pub sum_where : (ℕ × Row → Bool) → List (ℕ × Row) → ℕ
sum_where p [] = 0
sum_where p (r ∷ rs) = (if p r then r.1.size_bytes else 0) + sum_where p rs

abbrev pub IsPast : ℕ → ℕ × Row → Type 0
IsPast now r = liveness_of r.1 ≤ now

pub sum_where_mono :
    (P : ℕ × Row → Type 0) (p q : ℕ × Row → Bool)
    → ((r : ℕ × Row) → P r → p r ≡ true → q r ≡ true)
    → (rs : List (ℕ × Row)) → All P rs
    → sum_where p rs ≤ sum_where q rs
unfolding sum_where
sum_where_mono P p q h [] a = omega arith
sum_where_mono P p q h (r ∷ rs) a = ground (arith, h r a.0, sum_where_mono P p q h rs a.1)

-- A sum is the sum of two where one of two tests passes for each row that counts.
pub sum_where-split :
    (p a b : ℕ × Row → Bool)
    → ((r : ℕ × Row) → p r ≡ (a r || b r))
    → ((r : ℕ × Row) → (a r && b r) ≡ false)
    → (rs : List (ℕ × Row)) → sum_where p rs ≡ sum_where a rs + sum_where b rs
unfolding sum_where
sum_where-split p a b h k [] = omega arith
sum_where-split p a b h k (r ∷ rs) = ground (arith, h r, k r, sum_where-split p a b h k rs)

-- The buckets after the rows that pass `c`.
unfoldable pub place : (ℕ × Row → Bool) → ℕ → List ℕ → List ℕ → List (ℕ × Row) → List ℕ
place c now bounds acc [] = acc
place c now bounds acc (r ∷ rs) =
    place c now bounds
      (if c r then add_at (bucket_from now (liveness_of r.1) bounds) r.1.size_bytes acc else acc) rs

abbrev pub old : (ℕ × Row → Bool) → ℕ → ℕ → ℕ × Row → Bool
old c now bound r = c r && is_aged now (liveness_of r.1) bound

abbrev pub young : (ℕ × Row → Bool) → ℕ → ℕ → ℕ × Row → Bool
young c now bound r = c r && not (is_aged now (liveness_of r.1) bound)

-- The first bucket holds the rows that meet its bound, the others the rest.
place-cons :
    (c : ℕ × Row → Bool) (now b n : ℕ) (bs : List ℕ) (x : ℕ) (xs : List ℕ) (rs : List (ℕ × Row))
    → place c now (b ∷ n ∷ bs) (x ∷ xs) rs
      ≡ (x + sum_where (old c now b) rs) ∷ place (young c now b) now (n ∷ bs) xs rs
unfolding place sum_where bucket_from add_at
place-cons c now b n bs x xs [] = ground arith
place-cons c now b n bs x xs (r ∷ rs) = elim (Bool-cases (c r)) [
  | inr out ↦ rw out (ground (arith, place-cons c now b n bs x xs rs))
  | inl counted ↦ elim (Bool-cases (is_aged now (liveness_of r.1) b)) [
    | inl aged ↦
        rw counted (rw aged (ground (arith, place-cons c now b n bs (x + r.1.size_bytes) xs rs)))
    | inr fresh ↦ rw counted (
        rw fresh (
          ground (
            arith,
            place-cons c now b n bs x
                (add_at (bucket_from now (liveness_of r.1) (n ∷ bs)) r.1.size_bytes xs) rs,
          )))
  ]
]

place-one :
    (c : ℕ × Row → Bool) (now b x : ℕ) (rs : List (ℕ × Row))
    → place c now (b ∷ []) (x ∷ []) rs ≡ (x + sum_where c rs) ∷ []
unfolding place sum_where bucket_from add_at
place-one c now b x [] = ground arith
place-one c now b x (r ∷ rs) =
    ground (arith, place-one c now b x rs, place-one c now b (x + r.1.size_bytes) rs)

-- The bounds fall, down to 0.
abbrev pub Falls : List ℕ → Type 0
Falls [] = ⊥
Falls (b ∷ []) = b ≡ 0
Falls (b ∷ n ∷ bs) = (n ≤ b) × Falls (n ∷ bs)

abbrev pub head_or : ℕ → List ℕ → ℕ
head_or d [] = d
head_or d (x ∷ xs) = x

old-joins :
    (c : ℕ × Row → Bool) (now b bound : ℕ)
    → bound ≤ b
    → (rs : List (ℕ × Row))
    → sum_where (old c now b) rs + sum_where (old (young c now b) now bound) rs
      ≤ sum_where (old c now bound) rs
unfolding sum_where
old-joins c now b bound le [] = omega arith
old-joins c now b bound le (r ∷ rs) = ground (arith, old-joins c now b bound le rs)

-- The loop over the buckets finds a bound, and the rows that meet it free the target, where all the
-- rows together would.
pub cutoff-frees :
    (c : ℕ × Row → Bool) (now target freed : ℕ) (bounds : List ℕ) (rs : List (ℕ × Row))
    → Falls bounds
    → All (IsPast now) rs
    → target ≤ freed + sum_where c rs
    → (bound : ℕ) × (cutoff target freed (place c now bounds (zeros bounds) rs) bounds ≡ some bound)
      × (target ≤ freed + sum_where (old c now bound) rs)
      × (bound ≤ head_or 0 bounds)
unfolding cutoff
cutoff-frees c now target freed [] rs f a h = absurd f
cutoff-frees c now target freed (b ∷ []) rs f a h =
    let all_old = sum_where_mono (IsPast now) c (old c now b) (λ r p e. ground arith) rs a in
    rw (place-one c now b 0 rs) (b, ground (arith, h), omega (arith, all_old), omega arith)
cutoff-frees c now target freed (b ∷ n ∷ bs) rs f a h =
    rw (place-cons c now b n bs 0 (zeros (n ∷ bs)) rs)
      (elim (Bool-cases (leb target (freed + (0 + sum_where (old c now b) rs)))) [
        | inl enough ↦ (b, rw enough, ground arith, omega arith)
        | inr more ↦
            let parts = split rs in
            let (bound, found, frees, le) =
              cutoff-frees (young c now b) now target (freed + (0 + sum_where (old c now b) rs))
                (n ∷ bs) rs f.1 a (omega (arith, parts)) in
            let joined = old-joins c now b bound (omega arith) rs in
            (bound, rw more found, omega (arith, joined), omega arith)
      ])
  where
    split :
        (rs : List (ℕ × Row))
        → sum_where c rs ≡ sum_where (old c now b) rs + sum_where (young c now b) rs
    split = sum_where-split c (old c now b) (young c now b) (λ r. ground arith) (λ r. ground arith)
