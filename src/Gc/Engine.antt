-- ===== src/Gc/Engine.antt =====
-- Run, TriggerAsync and mayRun of internal/gc/sweep.go: who may sweep, and the flag that admits one
-- sweep at a time. Each compare-and-swap, each answer of StartGCRun and each end of a sweep is a
-- step, and a run is a sequence of steps of any number of calls.
pub mod OneSweep
mod Tests
use bakery.Base.{
  ℕ, zero, suc, Bool, true, false, not, ◌&&◌, ◌+◌, Option, none, some, List, [], ◌∷◌, ◌++◌,
  if◌then◌else◌,
}

pub record Config : Type 0 where
  pub enabled : Bool
  pub allow_multi_instance : Bool

pub data Refusal : Type 0 where
  disabled multi_instance already_running : Refusal

unfoldable pub may_run : Config → Option Refusal
may_run cfg =
    if not cfg.enabled
    then some disabled
    else if cfg.allow_multi_instance
    then some multi_instance
    else none

-- A call past the flag waits for StartGCRun, then sweeps, then is over.
pub data Phase : Type 0 where
  starting sweeping over : Phase

-- `detached` is a call of TriggerAsync, whose sweep outlives it.
pub record Call : Type 0 where
  pub dry_run : Bool
  pub detached : Bool
  pub phase : Phase

pub record Engine : Type 0 where
  pub running : Bool
  pub calls : List Call
  pub refusals : List Refusal

pub data Step : Type 0 where
  enter : Bool → Bool → Step
  started : ℕ → Bool → Step
  swept : ℕ → Step

abbrev pub idle : Engine
idle = record { running = false; calls = []; refusals = [] }

abbrev pub refuse : Refusal → Engine → Engine
refuse r e = record e { refusals = r ∷ e.refusals }

abbrev pub admit : Bool → Bool → Engine → Engine
admit dry detached e = record e {
  calls = e.calls ++ record { dry_run = dry; detached = detached; phase = starting } ∷ [];
}

-- The gate of Run and of TriggerAsync, with the compare-and-swap.
unfoldable pub entered : Option Refusal → Bool → Bool → Engine → Engine
entered (some r) dry detached e = refuse r e
entered none true detached e = admit true detached e
entered none false detached e =
    if e.running
    then refuse already_running e
    else admit false detached (record e { running = true })

-- running.Store(false), of a call that is no dry run
abbrev pub released : Bool → Call → Bool
released running c = if not c.dry_run then false else running

abbrev pub ended : Bool → Call → Bool × Call
ended running c = (released running c, record c { phase = over })

-- What StartGCRun and the sweep do to a call and to the flag.
abbrev pub on_started : Bool → Bool → Call → Phase → Bool × Call
on_started ok running c starting =
    if ok then (running, record c { phase = sweeping }) else ended running c
on_started ok running c sweeping = (running, c)
on_started ok running c over = (running, c)

abbrev pub on_swept : Bool → Call → Phase → Bool × Call
on_swept running c sweeping = ended running c
on_swept running c starting = (running, c)
on_swept running c over = (running, c)

unfoldable pub at_call : (Call → Bool × Call) → Bool → ℕ → List Call → Bool × List Call
at_call f running i [] = (running, [])
at_call f running zero (c ∷ cs) = ((f c).0, (f c).1 ∷ cs)
at_call f running (suc i) (c ∷ cs) = let rest = at_call f running i cs in (rest.0, c ∷ rest.1)

abbrev pub updated : Engine → Bool × List Call → Engine
updated e r = record e { running = r.0; calls = r.1 }

unfoldable pub step : Config → Step → Engine → Engine
unfolding may_run entered at_call
step cfg (enter dry detached) e = entered (may_run cfg) dry detached e
step cfg (started i ok) e =
    updated e (at_call (λ c. on_started ok e.running c c.phase) e.running i e.calls)
step cfg (swept i) e = updated e (at_call (λ c. on_swept e.running c c.phase) e.running i e.calls)

-- The engine after some steps, the last step first.
unfoldable pub after : Config → List Step → Engine
unfolding step
after cfg [] = idle
after cfg (s ∷ ss) = step cfg s (after cfg ss)
