-- ===== src/Cache/Hashserv/Session/Loop.antt =====
-- The loop of serve in internal/cache/hashserv/conn.go, which ends because every round reads a message.
use bakery.Base.{
  ℕ, zero, suc, ◌+◌, ◌-◌, ◌≤◌, ◌≡◌, refl, sym, ap, ◌∙◌, List, [], ◌∷◌, Bytes, length, arith,
}
use native.Mathlib.Nat.{add-zero, add-suc}
use bakery.Cache.Hashserv.Exec.{closed, Result, ok, err, Error, resume, ◌>>=◌}
use bakery.Cache.Hashserv.Exec.Keeps.{Keeps}
use bakery.Cache.Hashserv.World.{World, receive}
use bakery.Cache.Hashserv.World.Keeps.{On}
use bakery.Cache.Hashserv.Session.{Env, dispatch_or_fail, serve_loop, serve_all}
use bakery.Cache.Hashserv.Session.Serves.{dispatch_or_fail-Keeps}
use bakery.Cache.Hashserv.Session.Tenants.{OthersStand, others_steps, remove-OthersStand}

dispatch_or_fail-short :
    (env : Env) (msg : Bytes) (w : World)
    → length (dispatch_or_fail env msg w).1.conn.inbox ≤ length w.conn.inbox
dispatch_or_fail-short env msg w =
    let left = length w.conn.inbox in
    let b = env.route.backend_id in
    let k : Keeps (On (OthersStand b w.tables) left) (dispatch_or_fail env msg) =
      dispatch_or_fail-Keeps env (others_steps b w.tables left) (remove-OthersStand b) msg in
    (k.after w (record {
      holds = record { same_tasks = refl; same_outputs = refl };
      short = omega arith;
    })).short

-- A state with this inbox.
abbrev with_inbox : List Bytes → World → World
with_inbox ms w = record w { conn = record w.conn { inbox = ms } }

next-short :
    (env : Env) (msg : Bytes) (ms : List Bytes) (w : World)
    → length (dispatch_or_fail env msg (with_inbox ms w)).1.conn.inbox ≤ length ms
next-short env msg ms w = dispatch_or_fail-short env msg (with_inbox ms w)

continue_more :
    (env : Env) (n : ℕ) (r : Result (Unit {0})) (w : World)
    → serve_loop env n w ≡ serve_loop env (suc n) w
    → resume r (λ _. serve_loop env n) w ≡ resume r (λ _. serve_loop env (suc n)) w
continue_more env n (ok a) w e = e
continue_more env n (err x) w e = refl

-- Rounds beyond the length of the inbox are never run.
serve_loop_more :
    (env : Env) (n : ℕ) (ms : List Bytes) (w : World)
    → length ms ≤ n
    → serve_loop env n (with_inbox ms w) ≡ serve_loop env (suc n) (with_inbox ms w)
unfolding serve_loop ◌>>=◌ receive
serve_loop_more env zero [] w h = refl
serve_loop_more env zero (m ∷ ms) w h = absurd (omega arith)
serve_loop_more env (suc n) [] w h = refl
serve_loop_more env (suc n) (m ∷ ms) w h =
    let (r, w') = dispatch_or_fail env m (with_inbox ms w) in
    continue_more env n r w'
      (serve_loop_more env n w'.conn.inbox w' (omega (arith, next-short env m ms w)))

serve_loop_enough :
    (env : Env) (d : ℕ) (w : World)
    → serve_loop env (length w.conn.inbox + d) w ≡ serve_loop env (length w.conn.inbox) w
serve_loop_enough env zero w = rw add-zero refl
serve_loop_enough env (suc d) w = rw add-suc (
    sym (serve_loop_more env (length w.conn.inbox + d) w.conn.inbox w (omega arith))
    ∙ serve_loop_enough env d w)

serve_loop-eq-serve_all :
    (env : Env) (n : ℕ) (w : World) → length w.conn.inbox ≤ n → serve_loop env n w ≡ serve_all env w
unfolding serve_all ◌>>=◌
serve_loop-eq-serve_all env n w h =
    ap (λ (k : ℕ). serve_loop env k w) (split n (length w.conn.inbox) h)
    ∙ serve_loop_enough env (n - length w.conn.inbox) w
  where
    split : (n m : ℕ) → m ≤ n → n ≡ m + (n - m)
    split n m h = omega arith

continue_all :
    (env : Env) (n : ℕ) (r : Result (Unit {0})) (w : World)
    → length w.conn.inbox ≤ n
    → resume r (λ _. serve_loop env n) w ≡ resume r (λ _. serve_all env) w
continue_all env n (ok a) w h = serve_loop-eq-serve_all env n w h
continue_all env n (err e) w h = refl

round :
    (env : Env) (ms : List Bytes) (w : World)
    → serve_all env (with_inbox ms w)
      ≡ (receive >>= λ msg. dispatch_or_fail env msg >>= λ _. serve_all env) (with_inbox ms w)
unfolding serve_all serve_loop ◌>>=◌ receive
round env [] w = refl
round env (m ∷ ms) w =
    let (r, w') = dispatch_or_fail env m (with_inbox ms w) in
    continue_all env (length ms) r w' (next-short env m ms w)

serve_all_round :
    (env : Env) (w : World)
    → serve_all env w ≡ (receive >>= λ msg. dispatch_or_fail env msg >>= λ _. serve_all env) w
serve_all_round env w = round env w.conn.inbox w

-- The loop of `serve` as the source has it, with no bound: it ends at the first error, after some
-- rounds that answer without one. `Serves env n w e w'` is a loop of n such rounds.
pub data Serves (env : Env) : ℕ → World → Error → World → Type 0 where
  unread : (w : World) (e : Error) (w' : World) → receive w ≡ (err e, w') → Serves env 0 w e w'
  unanswered :
      (w : World) (msg : Bytes) (w' : World) (e : Error) (w'' : World)
      → receive w ≡ (ok msg, w')
      → dispatch_or_fail env msg w' ≡ (err e, w'')
      → Serves env 0 w e w''
  answered :
      (n : ℕ) (w : World) (msg : Bytes) (w' w'' : World) (e : Error) (last : World)
      → receive w ≡ (ok msg, w')
      → dispatch_or_fail env msg w' ≡ (ok tt, w'')
      → Serves env n w'' e last
      → Serves env (suc n) w e last

-- What a finite loop of the source comes to, and what serve_all does.
pub record Ends (env : Env) (w : World) (left : ℕ) : Type 0 where
  pub rounds : ℕ
  pub error : Error
  pub last : World
  pub serves : Serves env rounds w error last
  pub few : rounds ≤ left
  pub same : serve_all env w ≡ (err error, last)

one_round :
    (env : Env) (m : Bytes) (ms : List Bytes) (w : World) (r : Result (Unit {0})) (w' : World)
    → dispatch_or_fail env m (with_inbox ms w) ≡ (r, w')
    → serve_all env (with_inbox (m ∷ ms) w) ≡ resume r (λ _. serve_all env) w'
unfolding ◌>>=◌ receive
one_round env m ms w r w' d =
    round env (m ∷ ms) w
    ∙ ap (λ (x : Result (Unit {0}) × World). resume x.0 (λ _. serve_all env) x.1) d

Ends-later :
    (env : Env) (left : ℕ) (m : Bytes) (ms : List Bytes) (w : World) (r : Result (Unit {0}))
    (w' : World)
    → dispatch_or_fail env m (with_inbox ms w) ≡ (r, w')
    → ((e : Unit {0}) → r ≡ ok e → Ends env w' left)
    → Ends env (with_inbox (m ∷ ms) w) (suc left)
unfolding receive
Ends-later env left m ms w (err e) w' d ih = record {
  rounds = 0;
  error = e;
  last = w';
  serves = unanswered (with_inbox (m ∷ ms) w) m (with_inbox ms w) e w' refl d;
  few = omega arith;
  same = one_round env m ms w (err e) w' d;
}
Ends-later env left m ms w (ok a) w' d ih =
    let later = ih a refl in
    record {
      rounds = suc later.rounds;
      error = later.error;
      last = later.last;
      serves =
          answered later.rounds (with_inbox (m ∷ ms) w) m (with_inbox ms w) w' later.error
            later.last refl d later.serves;
      few = omega (arith, later.few);
      same = one_round env m ms w (ok a) w' d ∙ later.same;
    }

Ends-in :
    (env : Env) (n left : ℕ) (ms : List Bytes) (w : World)
    → length ms ≤ left
    → left ≤ n
    → Ends env (with_inbox ms w) left
unfolding receive
Ends-in env n left [] w h k = record {
  rounds = 0;
  error = closed;
  last = with_inbox [] w;
  serves = unread (with_inbox [] w) closed (with_inbox [] w) refl;
  few = omega arith;
  same = unfold serve_all serve_loop ◌>>=◌ in refl;
}
Ends-in env n zero (m ∷ ms) w h k = absurd (omega (arith, h))
Ends-in env zero (suc left) (m ∷ ms) w h k = absurd (omega (arith, k))
Ends-in env (suc n) (suc left) (m ∷ ms) w h k =
    let (r, w') = dispatch_or_fail env m (with_inbox ms w) in
    Ends-later env left m ms w r w' refl (λ e f.
      Ends-in env n left w'.conn.inbox w' (omega (arith, h, next-short env m ms w))
        (omega (arith, k)))

-- The loop of `serve` ends on every inbox, with an error, after at most as many rounds as there are
-- messages: the loop of the source, which has no bound and goes on after every round that answers
-- without an error, has a finite run from every state, and serve_all ends with the error and in the
-- state of that run.
pub serve_all_lem : (env : Env) (w : World) → Ends env w (length w.conn.inbox)
serve_all_lem env w =
    Ends-in env (length w.conn.inbox) (length w.conn.inbox) w.conn.inbox w (omega arith)
      (omega arith)
