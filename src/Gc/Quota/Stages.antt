-- ===== src/Gc/Quota/Stages.antt =====
-- The rows of a stage and the usage that is measured of it.
use bakery.Base.{
  ℕ, zero, suc, ◌+◌, ◌<◌, ◌≡◌, refl, Bool, true, false, List, [], ◌∷◌, leb, ◌==◌, if◌then◌else◌,
  arith, ◌∙◌, sym,
}
use bakery.Gc.Quota.{
  Row, StageUsage, Usage, bucket_of, age_buckets, observe_stage, observe_stages, observe,
}
use bakery.Gc.Quota.Measure.{measure, sum_where, place, Falls}

abbrev pub in_stage : ℕ → ℕ × Row → Bool
in_stage i r = r.0 == i

abbrev pub from_stage : ℕ → ℕ × Row → Bool
from_stage i r = leb i r.0

-- One stage's usage after the rows of stage `i`.
unfoldable pub stage_usage : ℕ → ℕ → List (ℕ × Row) → StageUsage → StageUsage
stage_usage now i [] s = s
stage_usage now i (r ∷ rs) s =
    stage_usage now i rs (if in_stage i r then observe_stage now r.1 s else s)

-- The stages' usages after the rows, the first stage having index `i`.
unfoldable pub stage_usages : ℕ → ℕ → List (ℕ × Row) → List StageUsage → List StageUsage
stage_usages now i rs [] = []
stage_usages now i rs (s ∷ ss) = stage_usage now i rs s ∷ stage_usages now (suc i) rs ss

pub bytes-stage_usage :
    (now i : ℕ) (rs : List (ℕ × Row)) (s : StageUsage)
    → (stage_usage now i rs s).bytes ≡ s.bytes + sum_where (in_stage i) rs
unfolding stage_usage sum_where observe_stage
bytes-stage_usage now i [] s = omega arith
bytes-stage_usage now i (r ∷ rs) s =
    ground (arith, bytes-stage_usage now i rs (if in_stage i r then observe_stage now r.1 s else s))

pub bucket_bytes-stage_usage :
    (now i : ℕ) (rs : List (ℕ × Row)) (s : StageUsage)
    → (stage_usage now i rs s).bucket_bytes ≡ place (in_stage i) now age_buckets s.bucket_bytes rs
unfolding stage_usage place observe_stage bucket_of
bucket_bytes-stage_usage now i [] s = refl
bucket_bytes-stage_usage now i (r ∷ rs) s = ground (
  arith,
  bucket_bytes-stage_usage now i rs (observe_stage now r.1 s),
  bucket_bytes-stage_usage now i rs s,
)

stage_usages-below :
    (now i : ℕ) (r : ℕ × Row) (rs : List (ℕ × Row)) (ss : List StageUsage)
    → r.0 < i
    → stage_usages now i (r ∷ rs) ss ≡ stage_usages now i rs ss
unfolding stage_usages stage_usage
stage_usages-below now i r rs [] h = refl
stage_usages-below now i r rs (s ∷ ss) h = ground (arith, stage_usages-below now (suc i) r rs ss)

stage_usages-at :
    (now i d : ℕ) (r : ℕ × Row) (rs : List (ℕ × Row)) (ss : List StageUsage)
    → r.0 ≡ i + d
    → stage_usages now i (r ∷ rs) ss ≡ stage_usages now i rs (observe_stages now d r.1 ss)
unfolding stage_usages stage_usage observe_stages
stage_usages-at now i zero r rs [] h = refl
stage_usages-at now i (suc d) r rs [] h = refl
stage_usages-at now i zero r rs (s ∷ ss) h = ground (arith, stage_usages-below now (suc i) r rs ss)
stage_usages-at now i (suc d) r rs (s ∷ ss) h =
    ground (arith, stage_usages-at now (suc i) d r rs ss)

stage_usages-none : (now i : ℕ) (ss : List StageUsage) → stage_usages now i [] ss ≡ ss
unfolding stage_usages stage_usage
stage_usages-none now i [] = refl
stage_usages-none now i (s ∷ ss) = rw (stage_usages-none now (suc i) ss)

pub stages-measure :
    (now : ℕ) (u : Usage) (rs : List (ℕ × Row))
    → (measure now u rs).stages ≡ stage_usages now 0 rs u.stages
unfolding measure observe
stages-measure now u [] = sym (stage_usages-none now 0 u.stages)
stages-measure now u (r ∷ rs) =
    stages-measure now (observe now u r) rs
    ∙ sym (stage_usages-at now 0 r.0 r rs u.stages (omega arith))

pub bytes-measure :
    (now : ℕ) (u : Usage) (rs : List (ℕ × Row))
    → (measure now u rs).bytes ≡ u.bytes + sum_where (λ r. true) rs
unfolding measure observe sum_where
bytes-measure now u [] = omega arith
bytes-measure now u (r ∷ rs) = ground (arith, bytes-measure now (observe now u r) rs)

pub age_buckets-Falls : Falls age_buckets
unfolding age_buckets
age_buckets-Falls = omega arith

pub sum_where-false : (rs : List (ℕ × Row)) → sum_where (λ r. false) rs ≡ 0
unfolding sum_where
sum_where-false [] = refl
sum_where-false (r ∷ rs) = omega (arith, sum_where-false rs)
