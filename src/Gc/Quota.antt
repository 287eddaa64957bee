-- ===== src/Gc/Quota.antt =====
-- internal/gc/quota.go: measuring a backend and planning its eviction. Sizes and times are
-- numbers: sums stay below 2^63 by assumption. `keep_target` is int64(float64(quota) * 0.9).
pub mod Measure
pub mod Stages
pub mod Eviction
pub mod Order
mod Tests
use bakery.Base.{
  ℕ, zero, suc, ◌+◌, ◌-◌, ◌*◌, Bool, true, false, not, ◌&&◌, ◌||◌, Option, none, some, List, [],
  ◌∷◌, length, leb, ltb, ◌==◌, if◌then◌else◌,
}

-- time.Hour
abbrev pub hour : ℕ
hour = 3_600_000_000_000

unfoldable pub age_buckets : List ℕ
age_buckets =
    365 * 24 * hour
    ∷ 180 * 24 * hour
    ∷ 90 * 24 * hour
    ∷ 60 * 24 * hour
    ∷ 30 * 24 * hour
    ∷ 14 * 24 * hour
    ∷ 7 * 24 * hour
    ∷ 3 * 24 * hour
    ∷ 24 * hour
    ∷ 12 * hour
    ∷ 6 * hour
    ∷ hour
    ∷ 0
    ∷ []

-- repository.ScanObjectsForGCRow, what the quota reads of it.
pub record Row : Type 0 where
  pub size_bytes : ℕ
  pub accessed_at : Option ℕ
  pub created_at : ℕ

pub record StageUsage : Type 0 where
  pub objects : ℕ
  pub bytes : ℕ
  pub bucket_bytes : List ℕ

pub record Usage : Type 0 where
  pub objects : ℕ
  pub bytes : ℕ
  pub stages : List StageUsage

unfoldable pub liveness_of : Row → ℕ
liveness_of row = elim row.accessed_at [ none ↦ row.created_at | some t ↦ t ]

-- now.Sub(liveness) >= bound, where the age may be negative.
abbrev pub is_aged : ℕ → ℕ → ℕ → Bool
is_aged now live bound = leb (live + bound) now

-- The index of the first bound that the age meets, the last index if none.
unfoldable pub bucket_from : ℕ → ℕ → List ℕ → ℕ
bucket_from now live [] = 0
bucket_from now live (bound ∷ []) = 0
bucket_from now live (bound ∷ next ∷ bounds) =
    if is_aged now live bound then 0 else suc (bucket_from now live (next ∷ bounds))

unfoldable pub bucket_of : ℕ → ℕ → ℕ
bucket_of now live = bucket_from now live age_buckets

abbrev pub zeros : List ℕ → List ℕ
zeros [] = []
zeros (_ ∷ bounds) = 0 ∷ zeros bounds

abbrev pub new_stages : ℕ → List StageUsage
new_stages zero = []
new_stages (suc n) =
    record { objects = 0; bytes = 0; bucket_bytes = zeros age_buckets } ∷ new_stages n

unfoldable pub new_usage : ℕ → Usage
new_usage stages = record { objects = 0; bytes = 0; stages = new_stages stages }

-- xs[i] += n, nothing out of range
unfoldable pub add_at : ℕ → ℕ → List ℕ → List ℕ
add_at i n [] = []
add_at zero n (x ∷ xs) = (x + n) ∷ xs
add_at (suc i) n (x ∷ xs) = x ∷ add_at i n xs

unfoldable pub observe_stage : ℕ → Row → StageUsage → StageUsage
observe_stage now row s = record {
  objects = s.objects + 1;
  bytes = s.bytes + row.size_bytes;
  bucket_bytes = add_at (bucket_of now (liveness_of row)) row.size_bytes s.bucket_bytes;
}

unfoldable pub observe_stages : ℕ → ℕ → Row → List StageUsage → List StageUsage
observe_stages now i row [] = []
observe_stages now zero row (s ∷ ss) = observe_stage now row s ∷ ss
observe_stages now (suc i) row (s ∷ ss) = s ∷ observe_stages now i row ss

-- A stage index is a loop index, never negative; one out of range counts in the totals only.
unfoldable pub observe : ℕ → Usage → ℕ × Row → Usage
observe now u (stage_idx, row) = record {
  objects = u.objects + 1;
  bytes = u.bytes + row.size_bytes;
  stages = observe_stages now stage_idx row u.stages;
}

-- evictionPlan; `partial` is the -1 or the index.
pub record EvictionPlan : Type 0 where
  pub full_stages : ℕ
  pub partial : Option ℕ
  pub min_age : ℕ

abbrev pub no_plan : EvictionPlan
no_plan = record { full_stages = 0; partial = none; min_age = 0 }

abbrev is_stage : ℕ → Option ℕ → Bool
is_stage i none = false
is_stage i (some p) = i == p

unfoldable pub empty : EvictionPlan → Bool
empty p = p.full_stages == 0 && elim p.partial [ none ↦ true | some _ ↦ false ]

unfoldable pub doomed : EvictionPlan → ℕ → ℕ × Row → Bool
doomed p now (stage_idx, row) =
    if ltb stage_idx p.full_stages
    then true
    else if not (is_stage stage_idx p.partial)
    then false
    else is_aged now (liveness_of row) p.min_age

-- The loop over a stage's buckets: the bound at which the freed bytes meet the target.
unfoldable pub cutoff : ℕ → ℕ → List ℕ → List ℕ → Option ℕ
cutoff target freed [] bounds = none
cutoff target freed (b ∷ bs) [] = none
cutoff target freed (b ∷ bs) (bound ∷ bounds) =
    let rest = cutoff target (freed + b) bs bounds in
    if leb target (freed + b) then some bound else rest

-- The loop once the target is negative, which only a stage whose buckets do not add up leads to.
unfoldable pub plan_overdrawn : ℕ → List StageUsage → EvictionPlan
plan_overdrawn i [] = record { full_stages = i; partial = none; min_age = 0 }
plan_overdrawn i (s ∷ ss) =
    let rest = plan_overdrawn (suc i) ss in
    elim (cutoff 0 0 s.bucket_bytes age_buckets) [
      | none ↦ rest
      | some bound ↦ record { full_stages = i; partial = some i; min_age = bound }
    ]

-- The loop over the stages, at stage `i` with this target left.
unfoldable pub plan_from : ℕ → ℕ → List StageUsage → EvictionPlan
plan_from i target [] = record { full_stages = i; partial = none; min_age = 0 }
plan_from i target (s ∷ ss) =
    let rest = plan_from (suc i) (target - s.bytes) ss in
    if leb s.bytes target
    then (if target - s.bytes == 0
        then record { full_stages = suc i; partial = none; min_age = 0 }
        else rest)
    else elim (cutoff target 0 s.bucket_bytes age_buckets) [
      | some bound ↦ record { full_stages = i; partial = some i; min_age = bound }
      | none ↦ plan_overdrawn (suc i) ss
    ]

unfoldable pub plan_eviction : (ℕ → ℕ) → Usage → ℕ → EvictionPlan
plan_eviction keep_target u quota =
    if quota == 0 || leb u.bytes quota
    then no_plan
    else if leb u.bytes (keep_target quota)
    then no_plan
    else plan_from 0 (u.bytes - keep_target quota) u.stages
