-- ===== src/Gc/Quota/Eviction.antt =====
-- What an eviction plan of internal/gc/quota.go frees.
use bakery.Base.{
  ℕ, zero, suc, ◌+◌, ◌-◌, ◌<◌, ◌≤◌, ◌≡◌, refl, Bool, true, false, not, ◌&&◌, none, some, List, [],
  ◌∷◌, leb, ◌==◌, arith, All, Bool-cases, inl, inr, ◌∙◌, sym,
}
use bakery.Gc.Quota.{
  Row, StageUsage, Usage, EvictionPlan, age_buckets, zeros, new_stages, new_usage, plan_from,
  plan_eviction, doomed, no_plan,
}
use bakery.Gc.Quota.Measure.{
  measure, sum_where, sum_where_mono, sum_where-split, place, old, IsPast, cutoff-frees,
}
use bakery.Gc.Quota.Stages.{
  in_stage, from_stage, stage_usages, bytes-stage_usage, bucket_bytes-stage_usage, stages-measure,
  bytes-measure, age_buckets-Falls, sum_where-false,
}

-- What is freed in the stages from `i` on.
abbrev freed_from : EvictionPlan → ℕ → ℕ → ℕ × Row → Bool
freed_from p now i r = from_stage i r && doomed p now r

abbrev Frees : ℕ → ℕ → ℕ → List (ℕ × Row) → EvictionPlan → Type 0
Frees now i target rs p = (i ≤ p.full_stages) × (target ≤ sum_where (freed_from p now i) rs)

module _ (now : ℕ) (rs : List (ℕ × Row)) (past : All (IsPast now) rs) where
  from_stage-split :
      (i : ℕ)
      → sum_where (from_stage i) rs ≡ sum_where (in_stage i) rs + sum_where (from_stage (suc i)) rs
  from_stage-split i =
      sum_where-split (from_stage i) (in_stage i) (from_stage (suc i)) (λ r. ground arith)
        (λ r. ground arith) rs

  -- A stage that goes whole, and what goes after it.
  full-Frees :
      (i target : ℕ) (p : EvictionPlan)
      → Frees now (suc i) target rs p
      → Frees now i (sum_where (in_stage i) rs + target) rs p
  full-Frees i target p (full, frees) =
      let parts =
        sum_where-split (freed_from p now i) (in_stage i) (freed_from p now (suc i))
          (λ r. unfold doomed in ground arith) (λ r. ground arith) rs in
      (omega arith, omega (arith, parts))

  last-Frees :
      (i : ℕ)
      → Frees now i
          (sum_where (in_stage i) rs)
          rs
          (record { full_stages = suc i; partial = none; min_age = 0 })
  last-Frees i = (
    omega arith,
    sum_where_mono (IsPast now) (in_stage i)
        (freed_from (record { full_stages = suc i; partial = none; min_age = 0 }) now i)
        (λ r past e. unfold doomed in ground arith) rs past,
  )

  partial-Frees :
      (i bound : ℕ)
      → Frees now i
          (sum_where (old (in_stage i) now bound) rs)
          rs
          (record { full_stages = i; partial = some i; min_age = bound })
  partial-Frees i bound = (
    omega arith,
    sum_where_mono (IsPast now) (old (in_stage i) now bound)
        (freed_from (record { full_stages = i; partial = some i; min_age = bound }) now i)
        (λ r past e. unfold doomed in ground arith) rs past,
  )

  plan_cons-Frees :
      (i target : ℕ) (s : StageUsage) (ss : List StageUsage)
      → s.bytes ≡ sum_where (in_stage i) rs
      → s.bucket_bytes ≡ place (in_stage i) now age_buckets (zeros age_buckets) rs
      → (s.bytes < target
          → Frees now (suc i) (target - s.bytes) rs (plan_from (suc i) (target - s.bytes) ss))
      → Frees now i target rs (plan_from i target (s ∷ ss))
  unfolding plan_from
  plan_cons-Frees i target s ss eb ebb rest = elim (Bool-cases (leb s.bytes target)) [
    | inr over ↦
        let (bound, found, frees, _) =
          cutoff-frees (in_stage i) now target 0 age_buckets rs age_buckets-Falls past
            (ground arith) in
        let (full, freed) = partial-Frees i bound in rw over (rw ebb (rw found (full, omega arith)))
    | inl fits ↦ elim (Bool-cases (target - s.bytes == 0)) [
      | inl exact ↦
          let (full, freed) = last-Frees i in rw fits (rw exact (full, ground (arith, freed, eb)))
      | inr more ↦
          let (full, freed) = full-Frees i (target - s.bytes) _ (rest (ground arith)) in
          rw fits (rw more (full, ground (arith, freed, eb)))
    ]
  ]

  plan_from-Frees :
      (i target n : ℕ)
      → 0 < target
      → target ≤ sum_where (from_stage i) rs
      → All (λ r. r.0 < i + n) rs
      → Frees now i target rs (plan_from i target (stage_usages now i rs (new_stages n)))
  unfolding stage_usages
  plan_from-Frees i target zero pos le inside = absurd (
      omega (
        arith,
        sum_where_mono (λ r. r.0 < i + 0) (from_stage i) (λ r. false) (λ r a b. ground arith) rs
            inside,
        sum_where-false rs,
      ))
  plan_from-Frees i target (suc n) pos le inside =
      let eb =
        bytes-stage_usage now i rs
          (record { objects = 0; bytes = 0; bucket_bytes = zeros age_buckets }) in
      plan_cons-Frees i target _ _ (omega arith)
        (bucket_bytes-stage_usage now i rs
          (record { objects = 0; bytes = 0; bucket_bytes = zeros age_buckets }))
        (λ more.
          plan_from-Frees (suc i) _ n (omega arith) (omega (arith, from_stage-split i))
            (shift rs inside))
    where
      shift : (rs : List (ℕ × Row)) → All (λ r. r.0 < i + suc n) rs → All (λ r. r.0 < suc i + n) rs
      shift [] a = tt
      shift (r ∷ rs) a = (omega arith, shift rs a.1)

-- The bytes that a plan leaves.
abbrev pub left_by : EvictionPlan → ℕ → List (ℕ × Row) → ℕ
left_by p now = sum_where (λ r. not (doomed p now r))

left-split :
    (p : EvictionPlan) (now : ℕ) (rs : List (ℕ × Row))
    → sum_where (λ r. true) rs ≡ sum_where (freed_from p now 0) rs + left_by p now rs
left-split p now rs =
    sum_where-split (λ r. true) (freed_from p now 0) (λ r. not (doomed p now r)) (λ r. ground arith)
      (λ r. ground arith) rs

left_by-no_plan :
    (now : ℕ) (rs : List (ℕ × Row)) → left_by no_plan now rs ≡ sum_where (λ r. true) rs
unfolding sum_where doomed
left_by-no_plan now [] = refl
left_by-no_plan now (r ∷ rs) = ground (arith, left_by-no_plan now rs)

from_zero : (rs : List (ℕ × Row)) → sum_where (from_stage 0) rs ≡ sum_where (λ r. true) rs
unfolding sum_where
from_zero [] = refl
from_zero (r ∷ rs) = ground (arith, from_zero rs)

bytes-new_usage :
    (now stages : ℕ) (rs : List (ℕ × Row))
    → (measure now (new_usage stages) rs).bytes ≡ sum_where (λ r. true) rs
unfolding new_usage
bytes-new_usage now stages rs = omega (arith, bytes-measure now (new_usage stages) rs)

plan_fits :
    (keep_target : ℕ → ℕ) (u : Usage) (quota : ℕ)
    → leb u.bytes quota ≡ true
    → plan_eviction keep_target u quota ≡ no_plan
unfolding plan_eviction
plan_fits keep_target u quota h = ground arith

plan_exceeds :
    (keep_target : ℕ → ℕ) (u : Usage) (quota : ℕ)
    → leb u.bytes quota ≡ false
    → keep_target quota ≤ quota
    → 0 < quota
    → plan_eviction keep_target u quota ≡ plan_from 0 (u.bytes - keep_target quota) u.stages
unfolding plan_eviction
plan_exceeds keep_target u quota h kt pos = ground arith

plan_over :
    (keep_target : ℕ → ℕ) (stages now quota : ℕ) (rs : List (ℕ × Row))
    → keep_target quota ≤ quota
    → 0 < quota
    → All (IsPast now) rs
    → All (λ r. r.0 < stages) rs
    → let u = measure now (new_usage stages) rs in
      let p = plan_eviction keep_target u quota in
      leb u.bytes quota ≡ false → u.bytes - keep_target quota ≤ sum_where (freed_from p now 0) rs
unfolding new_usage
plan_over keep_target stages now quota rs kt pos past inside over =
    let u = measure now (new_usage stages) rs in
    let total = bytes-new_usage now stages rs in
    rw (plan_exceeds keep_target u quota over kt pos) (
      rw (stages-measure now (new_usage stages) rs)
        (plan_from-Frees now rs past 0 (u.bytes - keep_target quota) stages (ground arith)
          (omega (arith, total, from_zero rs)) (shift rs inside)).1)
  where
    shift : (rs : List (ℕ × Row)) → All (λ r. r.0 < stages) rs → All (λ r. r.0 < 0 + stages) rs
    shift [] a = tt
    shift (r ∷ rs) a = (omega arith, shift rs a.1)

-- A backend is measured over its surviving rows, none of them younger than `now` and each of a
-- stage of the backend, and planned for its quota, a positive one that is at least the target. Over
-- the quota, the rows that the plan leaves hold at most the target; within it, the plan deletes
-- nothing. So what is left is always within the quota.
pub evicts_to_target :
    (keep_target : ℕ → ℕ) (stages now quota : ℕ) (rs : List (ℕ × Row))
    → keep_target quota ≤ quota
    → 0 < quota
    → All (IsPast now) rs
    → All (λ r. r.0 < stages) rs
    → let u = measure now (new_usage stages) rs in
      let p = plan_eviction keep_target u quota in
      (quota < u.bytes → left_by p now rs ≤ keep_target quota)
      × (u.bytes ≤ quota → left_by p now rs ≡ u.bytes)
      × (left_by p now rs ≤ quota)
evicts_to_target keep_target stages now quota rs kt pos past inside =
    let u = measure now (new_usage stages) rs in
    let total = bytes-new_usage now stages rs in
    elim (Bool-cases (leb u.bytes quota)) [
      | inl fits ↦ rw (plan_fits keep_target u quota fits) (
        λ h. absurd (ground arith),
        λ h. left_by-no_plan now rs ∙ sym total,
        ground (arith, total, left_by-no_plan now rs),
      )
      | inr over ↦
          let frees = plan_over keep_target stages now quota rs kt pos past inside over in
          let parts = left-split (plan_eviction keep_target u quota) now rs in
          (
            λ h. omega (arith, parts, frees, total),
            λ h. absurd (ground arith),
            omega (arith, parts, frees, total, kt),
          )
    ]
