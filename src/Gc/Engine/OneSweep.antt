-- ===== src/Gc/Engine/OneSweep.antt =====
-- How many sweeps of internal/gc/sweep.go run at once.
use bakery.Base.{
  ℕ, zero, suc, ◌+◌, ◌≤◌, ◌≡◌, refl, Bool, true, false, not, ◌&&◌, Option, none, some, List, [],
  ◌∷◌, ◌++◌, if◌then◌else◌, arith,
}
use bakery.Gc.Engine.{
  Config, Refusal, may_run, Phase, starting, sweeping, over, Call, Engine, Step, enter, started,
  swept, entered, on_started, on_swept, at_call, updated, step, after,
}

abbrev is_over : Phase → Bool
is_over over = true
is_over starting = false
is_over sweeping = false

-- 1 for a call that has the flag.
abbrev holding : Call → ℕ
holding c = if not c.dry_run && not (is_over c.phase) then 1 else 0

-- The calls that sweep, or are about to, and delete.
unfoldable pub real_sweeps : List Call → ℕ
real_sweeps [] = 0
real_sweeps (c ∷ cs) = holding c + real_sweeps cs

abbrev as_number : Bool → ℕ
as_number b = if b then 1 else 0

real_sweeps-append :
    (cs : List Call) (c : Call) → real_sweeps (cs ++ c ∷ []) ≡ real_sweeps cs + holding c
unfolding real_sweeps
real_sweeps-append [] c = omega arith
real_sweeps-append (d ∷ cs) c = omega (arith, real_sweeps-append cs c)

-- A step of a call that has the flag, or of one that has not, keeps what the two add up to.
abbrev Balanced : (Call → Bool × Call) → Bool → Type 0
Balanced f running =
    (c : Call)
    → holding c ≤ as_number running
    → as_number running + holding (f c).1 ≡ as_number (f c).0 + holding c

started-Balanced : (ok running : Bool) → Balanced (λ c. on_started ok running c c.phase) running
started-Balanced ok running c h = by c.phase refl
  where
    by :
        (p : Phase)
        → c.phase ≡ p
        → as_number running + holding (on_started ok running c p).1
          ≡ as_number (on_started ok running c p).0 + holding c
    by starting e = ground (arith, h, e)
    by sweeping e = ground (arith, h, e)
    by over e = ground (arith, h, e)

swept-Balanced : (running : Bool) → Balanced (λ c. on_swept running c c.phase) running
swept-Balanced running c h = by c.phase refl
  where
    by :
        (p : Phase)
        → c.phase ≡ p
        → as_number running + holding (on_swept running c p).1
          ≡ as_number (on_swept running c p).0 + holding c
    by starting e = ground (arith, h, e)
    by sweeping e = ground (arith, h, e)
    by over e = ground (arith, h, e)

at_call-Balanced :
    (f : Call → Bool × Call) (running : Bool) (i : ℕ) (cs : List Call)
    → Balanced f running
    → real_sweeps cs ≤ as_number running
    → as_number running + real_sweeps (at_call f running i cs).1
      ≡ as_number (at_call f running i cs).0 + real_sweeps cs
unfolding at_call real_sweeps
at_call-Balanced f running i [] b h = refl
at_call-Balanced f running zero (c ∷ cs) b h = omega (arith, h, b c (omega (arith, h)))
at_call-Balanced f running (suc i) (c ∷ cs) b h =
    omega (arith, h, at_call-Balanced f running i cs b (omega (arith, h)))

-- The flag is set exactly while one call has it.
abbrev Exact : Engine → Type 0
Exact e = real_sweeps e.calls ≡ as_number e.running

updated-Exact :
    (f : Call → Bool × Call) (i : ℕ) (e : Engine)
    → Balanced f e.running
    → Exact e
    → Exact (updated e (at_call f e.running i e.calls))
updated-Exact f i e b h =
    omega (arith, at_call-Balanced f e.running i e.calls b (omega (arith, h)), h)

entered-Exact :
    (o : Option Refusal) (dry detached : Bool) (e : Engine)
    → Exact e
    → Exact (entered o dry detached e)
unfolding entered
entered-Exact (some r) dry detached e h = h
entered-Exact none true detached e h = ground (
  arith,
  h,
  real_sweeps-append e.calls (record { dry_run = true; detached = detached; phase = starting }),
)
entered-Exact none false detached e h = ground (
  arith,
  h,
  real_sweeps-append e.calls (record { dry_run = false; detached = detached; phase = starting }),
)

step-Exact : (cfg : Config) (s : Step) (e : Engine) → Exact e → Exact (step cfg s e)
unfolding step
step-Exact cfg (enter dry detached) e h = entered-Exact (may_run cfg) dry detached e h
step-Exact cfg (started i ok) e h = updated-Exact _ i e (started-Balanced ok e.running) h
step-Exact cfg (swept i) e h = updated-Exact _ i e (swept-Balanced e.running) h

-- However the calls of Run and TriggerAsync interleave, whatever starts fail: at most one sweep that
-- deletes is under way, and the flag is set exactly while it is, so that no end of a call leaves it
-- set and no call is refused by the flag after the last one has ended.
pub one_real_sweep :
    (cfg : Config) (ss : List Step)
    → real_sweeps (after cfg ss).calls ≡ (if (after cfg ss).running then 1 else 0)
unfolding after
one_real_sweep cfg [] = unfold real_sweeps in refl
one_real_sweep cfg (s ∷ ss) = step-Exact cfg s (after cfg ss) (one_real_sweep cfg ss)
