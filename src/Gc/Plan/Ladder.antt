-- ===== src/Gc/Plan/Ladder.antt =====
-- The order of the windows of internal/gc/plan.go.
use Prim.Native.Nat.{max}
use bakery.Base.{
  ℕ, ◌^◌, ◌<◌, ◌≤◌, ◌≡◌, ◌≢◌, refl, Bool, true, false, not, ◌&&◌, List, [], ◌∷◌, ◌==◌,
  if◌then◌else◌, arith,
}
use bakery.Gc.Plan.{
  BackendKind, sstate, downloads, bazel, oci, registry, hashserv, unknown, is_downloads, Row,
  disabled_backend_ceiling, duration_of, effective_window, Stage, stages_for, hashserv_of,
  window_of, sstate_rung, plan_of,
}

-- Every stage's window is at least the window of the stage before it.
abbrev pub Climbs : List Stage → Type 0
Climbs [] = Unit {0}
Climbs (s ∷ []) = Unit {0}
Climbs (s ∷ t ∷ ss) = (s.window ≤ t.window) × Climbs (t ∷ ss)

stages_for-Climbs : (k : BackendKind) (w : ℕ) → w < 2 ^ 62 → Climbs (stages_for k w)
unfolding stages_for
stages_for-Climbs sstate w h = omega arith
stages_for-Climbs downloads w h = omega arith
stages_for-Climbs bazel w h = omega arith
stages_for-Climbs oci w h = omega arith
stages_for-Climbs registry w h = omega arith
stages_for-Climbs hashserv w h = omega arith
stages_for-Climbs unknown w h = omega arith

-- In the plan of any backend the windows climb from stage to stage, so an object is kept at least
-- as long as the objects that name it, where the window is under 2^62 ns (146 years).
pub plan_of-Climbs :
    (rows : List Row) (r : Row) → (plan_of rows r).window < 2 ^ 62 → Climbs (plan_of rows r).stages
unfolding plan_of
plan_of-Climbs rows r h = stages_for-Climbs r.kind _ h

-- A window that is off is 0.
abbrev pub IsWindow : ℕ × Bool → Type 0
IsWindow (w, has) = has ≡ false → w ≡ 0

effective_window-IsWindow : (r : Row) → IsWindow (effective_window r)
unfolding effective_window duration_of
effective_window-IsWindow r = ground arith

window_of-IsWindow :
    (id : ℕ) (found : ℕ × Bool) (rows : List Row)
    → IsWindow found
    → IsWindow (window_of id found rows)
unfolding window_of
window_of-IsWindow id found [] h = h
window_of-IsWindow id found (r ∷ rs) h =
    window_of-IsWindow id (if r.id == id then effective_window r else found) rs
      (ground (arith, effective_window-IsWindow r))

-- An sstate backend with a paired hashserv backend is kept as long as the longer of the two
-- windows, and for ever if either is kept for ever.
pub sstate_outlives_unihash :
    (rows : List Row) (r : Row)
    → r.kind ≡ sstate
    → hashserv_of r.project_id 0 rows ≢ 0
    → let p = plan_of rows r in
      let own = window_of r.id (0, false) rows in
      let paired = window_of p.hashserv (0, false) rows in
      (p.has_window ≡ (own.1 && paired.1))
      × (p.window ≡ (if own.1 && paired.1 then max own.0 paired.0 else 0))
unfolding plan_of sstate_rung
sstate_outlives_unihash rows r k h =
    let own = window_of-IsWindow r.id (0, false) rows (λ e. refl) in
    (ground arith, ground (arith, own))

-- A disabled backend is kept for at most 30 days and never longer than if it were enabled, save
-- that a downloads backend with no window is kept for ever in both states.
pub disabled_clamp :
    (r : Row)
    → r.enabled ≡ false
    → let off = effective_window r in
      let on = effective_window (record r { enabled = true }) in
      (off.1 ≡ not (is_downloads r.kind && not on.1))
      × (off.1 ≡ true → off.0 ≤ disabled_backend_ceiling)
      × (off.1 ≡ true → on.1 ≡ true → off.0 ≤ on.0)
unfolding effective_window
disabled_clamp r h = (ground arith, ground arith, ground arith)
