-- ===== src/Gc/Quota/Order.antt =====
-- The order in which an eviction takes the stages.
use bakery.Base.{ℕ, suc, ◌-◌, ◌<◌, ◌≡◌, refl, true, none, some, List, [], ◌∷◌, arith, inl, ◌⊎◌}
use bakery.Gc.Quota.{
  Row, StageUsage, Usage, EvictionPlan, plan_from, plan_overdrawn, plan_eviction, doomed,
}

IsOrdered : EvictionPlan → Type 0
IsOrdered p = (p.partial ≡ none) ⊎ (p.partial ≡ some p.full_stages)

plan_overdrawn-IsOrdered : (i : ℕ) (ss : List StageUsage) → IsOrdered (plan_overdrawn i ss)
unfolding plan_overdrawn IsOrdered
plan_overdrawn-IsOrdered i [] = inl refl
plan_overdrawn-IsOrdered i (s ∷ ss) = ground (arith, plan_overdrawn-IsOrdered (suc i) ss)

plan_from-IsOrdered : (i target : ℕ) (ss : List StageUsage) → IsOrdered (plan_from i target ss)
unfolding plan_from IsOrdered
plan_from-IsOrdered i target [] = inl refl
plan_from-IsOrdered i target (s ∷ ss) =
    ground (
      arith,
      plan_from-IsOrdered (suc i) (target - s.bytes) ss,
      plan_overdrawn-IsOrdered (suc i) ss,
    )

-- Eviction exhausts a stage before it touches the next: where a row of one stage goes, every row
-- of every earlier stage goes.
pub eviction_in_order :
    (keep_target : ℕ → ℕ) (u : Usage) (quota now i j : ℕ) (row earlier : Row)
    → let p = plan_eviction keep_target u quota in
      doomed p now (j, row) ≡ true → i < j → doomed p now (i, earlier) ≡ true
unfolding plan_eviction doomed IsOrdered
eviction_in_order keep_target u quota now i j row earlier h lt =
    ground (arith, plan_from-IsOrdered 0 (u.bytes - keep_target quota) u.stages)
