-- ===== src/Gc/Engine/Tests.antt =====
-- Calls of internal/gc/sweep.go that overlap.
use bakery.Base.{◌≡◌, refl, true, false, List, [], ◌∷◌, if◌then◌else◌}
use bakery.Gc.Engine.{
  Config, Step, enter, started, swept, already_running, step, after, may_run, entered, at_call,
}
use bakery.Gc.Engine.OneSweep.{real_sweeps, one_real_sweep}

abbrev config : Config
config = record { enabled = true; allow_multi_instance = false }

-- A sweep runs, a second call is refused, a dry run enters, and the sweep ends; the last step first.
abbrev steps : List Step
steps = swept 0 ∷ enter true false ∷ enter false true ∷ started 0 true ∷ enter false false ∷ []

refused : (after config steps).refusals ≡ already_running ∷ []
unfolding after step may_run entered at_call
refused = refl

one_real_sweep_example :
    real_sweeps (after config steps).calls ≡ (if (after config steps).running then 1 else 0)
one_real_sweep_example = one_real_sweep config steps
