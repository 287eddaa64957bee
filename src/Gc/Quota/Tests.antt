-- ===== src/Gc/Quota/Tests.antt =====
-- The eviction of internal/gc/quota.go at a concrete backend.
use bakery.Base.{ℕ, ◌-◌, ◌*◌, ◌/◌, ◌<◌, ◌≤◌, ◌≡◌, refl, true, some, List, [], ◌∷◌, All, arith}
use bakery.Gc.Quota.{
  Row, new_usage, plan_eviction, doomed, hour, liveness_of, observe, observe_stages, observe_stage,
  add_at, bucket_of, bucket_from, age_buckets, cutoff, plan_from,
}
use bakery.Gc.Quota.Measure.{IsPast, measure}
use bakery.Gc.Quota.Eviction.{left_by, evicts_to_target}

abbrev now : ℕ
now = 1000 * hour

-- The bytes, and the hours since the last read.
abbrev row : ℕ → ℕ → Row
row bytes age = record { size_bytes = bytes; accessed_at = some (now - age * hour); created_at = 0 }

-- Two stages of a backend with 100 bytes.
abbrev rows : List (ℕ × Row)
rows = (0, row 10 500) ∷ (0, row 20 1) ∷ (1, row 40 100) ∷ (1, row 30 2) ∷ []

abbrev tenths : ℕ → ℕ
tenths quota = quota * 9 / 10

abbrev rows_IsPast : All (IsPast now) rows
rows_IsPast = unfold liveness_of in (omega arith, (omega arith, (omega arith, (omega arith, tt))))

abbrev rows_staged : All (λ r. r.0 < 2) rows
rows_staged = (omega arith, (omega arith, (omega arith, (omega arith, tt))))

evicts_to_target_example :
    let u = measure now (new_usage 2) rows in
    let p = plan_eviction tenths u 80 in
    (80 < u.bytes → left_by p now rows ≤ 72)
    × (u.bytes ≤ 80 → left_by p now rows ≡ u.bytes)
    × (left_by p now rows ≤ 80)
evicts_to_target_example =
    evicts_to_target tenths 2 now 80 rows (omega arith) (omega arith) rows_IsPast rows_staged

abbrev old_doomed :
    doomed (plan_eviction tenths (measure now (new_usage 2) rows) 50) now (1, row 40 100) ≡ true
old_doomed =
    unfold doomed plan_eviction measure new_usage observe observe_stages observe_stage add_at
      bucket_of bucket_from age_buckets cutoff plan_from liveness_of in
    refl
