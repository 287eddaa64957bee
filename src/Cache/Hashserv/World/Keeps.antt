-- ===== src/Cache/Hashserv/World/Keeps.antt =====
-- Invariants of the tables and the permissions under the steps of a session of
-- internal/cache/hashserv.
use bakery.Base.{◌≤◌, arith, length, ℕ, zero, suc, Bool, true, false, List, [], ◌∷◌, Bytes}
use bakery.Cache.Hashserv.Exec.{modify}
use bakery.Cache.Hashserv.Exec.Keeps.{Keeps, Ensures, Post}
use bakery.Cache.Hashserv.Perms.{Perms}
use bakery.Cache.Hashserv.Protocol.{Message}
use bakery.Cache.Hashserv.Tables.{Tables}
use bakery.Cache.Hashserv.World.{
  World, received, delivered, queried, receive, send, query, ask, touch,
}

-- A property of the tables and the permissions, as one of the whole state, with a bound on the
-- messages that are left to read.
pub record On (P : Tables → Perms → Type 0) (left : ℕ) (w : World) : Type 0 where
  pub holds : P w.tables w.perms
  pub short : length w.conn.inbox ≤ left

module _ {P : Tables → Perms → Type 0} {left : ℕ} where
  receive_at :
      (ms : List Bytes) (w : World) → length ms ≤ left → On P left w → On P left (received ms w).1
  receive_at [] w s h = h
  receive_at (m ∷ ms) w s h = record { holds = h.holds; short = omega (arith, s) }

  pub receive-Keeps : Keeps (On P left) receive
  unfolding receive
  receive-Keeps = record { after = λ w h. receive_at w.conn.inbox w h.short h }

  send_at : (m : Message) (n : ℕ) (w : World) → On P left w → On P left (delivered m n w).1
  send_at m zero w h = h
  send_at m (suc n) w h = record { holds = h.holds; short = h.short }

  pub send-Keeps : (m : Message) → Keeps (On P left) (send m)
  unfolding send
  send-Keeps m = record { after = λ w h. send_at m w.conn.room w h }

  pub touch-Keeps : (method taskhash : Bytes) → Keeps (On P left) (touch method taskhash)
  unfolding touch
  touch-Keeps method taskhash = record {
    after = λ w h. record { holds = h.holds; short = h.short };
  }

  pub modify-Keeps :
      (f : World → World)
      → ((w : World) → P w.tables w.perms → P (f w).tables (f w).perms)
      → ((w : World) → length w.conn.inbox ≤ left → length (f w).conn.inbox ≤ left)
      → Keeps (On P left) (modify f)
  unfolding modify
  modify-Keeps f k s = record { after = λ w h. record { holds = k w h.holds; short = s w h.short } }

module _ {P : Tables → Perms → Type 0} {left : ℕ} {A : Type 0} where
  pub ask-Keeps : (f : ℕ → A) → Keeps (On P left) (ask f)
  unfolding ask
  ask-Keeps f = record { after = λ w h. record { holds = h.holds; short = h.short } }

  query_at :
      (Q : A → Type 0) (q : Tables → A × Tables) (fs : List Bool) (w : World)
      → ((t : Tables) (p : Perms) → P t p → P (q t).1 p × Q (q t).0)
      → On P left w
      → On P left (queried q fs w).1 × Post Q (queried q fs w).0
  query_at Q q [] w k h =
      let (p, r) = k w.tables w.perms h.holds in (record { holds = p; short = h.short }, r)
  query_at Q q (true ∷ fs) w k h = (record { holds = h.holds; short = h.short }, tt)
  query_at Q q (false ∷ fs) w k h =
      let (p, r) = k w.tables w.perms h.holds in (record { holds = p; short = h.short }, r)

  pub query-Ensures :
      (Q : A → Type 0) (q : Tables → A × Tables)
      → ((t : Tables) (p : Perms) → P t p → P (q t).1 p × Q (q t).0)
      → Ensures (On P left) Q (query q)
  unfolding query
  query-Ensures Q q k = record { after = λ w h. query_at Q q w.faults w k h }

  pub query-Keeps :
      (q : Tables → A × Tables)
      → ((t : Tables) (p : Perms) → P t p → P (q t).1 p)
      → Keeps (On P left) (query q)
  query-Keeps q k = record {
    after = λ w h. ((query-Ensures (λ a. Unit {0}) q (λ t p h. (k t p h, tt))).after w h).0;
  }
