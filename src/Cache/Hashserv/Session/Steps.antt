-- ===== src/Cache/Hashserv/Session/Steps.antt =====
-- Invariants of the tables under the steps that the handlers of internal/cache/hashserv/handlers.go
-- are made of: messages, queries that only read, and streams.
use bakery.Base.{ℕ, zero, suc, ◌≡◌, true, Option, none, some, Bytes}
use bakery.Cache.Hashserv.Exec.{Refusal, Result, ok, err}
use bakery.Cache.Hashserv.Exec.Keeps.{
  Keeps, Keeps-bind, Keeps-pure, Keeps-fail, Keeps-read_state, Keeps-if, Keeps-attempt, keeps_rules,
}
use bakery.Cache.Hashserv.Perms.{Perms}
use bakery.Cache.Hashserv.Protocol.{valid_unihash, ReportRequest}
use bakery.Cache.Hashserv.Tables.{Tables, Details}
use bakery.Cache.Hashserv.World.{M, query}
use bakery.Cache.Hashserv.World.Keeps.{
  On, receive-Keeps, send-Keeps, touch-Keeps, modify-Keeps, ask-Keeps, query-Keeps,
}
use bakery.Cache.Hashserv.Store
use bakery.Cache.Hashserv.Store.{Upstream}
use bakery.Cache.Hashserv.Framing.{lift, stream_loop, run_stream}
use bakery.Cache.Hashserv.Session.{decoded, or_refuse, require}

-- A property that the two insertions keep, and that does not depend on the permissions.
pub record Steps (b left : ℕ) (P : Tables → Perms → Type 0) : Type 0 where
  pub insert_unihash :
      (m k u : Bytes) → valid_unihash u ≡ true → Keeps (On P left) (Store.insert_unihash b m k u)
  pub insert_outhash :
      (m k o : Bytes) (d : Details) → Keeps (On P left) (Store.insert_outhash b m k o d)
  pub report :
      (req : ReportRequest) (up : Option Upstream)
      → valid_unihash req.unihash ≡ true
      → Keeps (On P left) (Store.report b req up)
  pub freely : (t : Tables) (p q : Perms) → P t p → P t q

module _ {P : Tables → Perms → Type 0} {left : ℕ} where
  module _ {A : Type 0} where
    pub lift-Keeps : (r : Result A) → Keeps (On P left) (lift r)
    lift-Keeps (ok a) = Keeps-pure a
    lift-Keeps (err e) = Keeps-fail e

    pub decoded-Keeps : (o : Option A) → Keeps (On P left) (decoded o)
    decoded-Keeps none = Keeps-fail _
    decoded-Keeps (some a) = Keeps-pure a

    pub or_refuse-Keeps :
        (r : Refusal) (m : M A) → Keeps (On P left) m → Keeps (On P left) (or_refuse r m)
    unfolding or_refuse
    or_refuse-Keeps r m k = record { after = k.after }

    -- A query that writes nothing.
    pub read-Keeps : (f : Tables → A) → Keeps (On P left) (query (λ t. (f t, t)))
    read-Keeps f = query-Keeps _ (λ t p h. h)

  pub require-Keeps : (want : Perms) → Keeps (On P left) (require want)
  unfolding require
  require-Keeps want = search keeps_rules

pub ruleset io_rules = (
  keeps_rules, receive-Keeps, send-Keeps, touch-Keeps, ask-Keeps, lift-Keeps, decoded-Keeps,
  or_refuse-Keeps, require-Keeps,
)

module _ {P : Tables → Perms → Type 0} {left : ℕ} where
  stream_loop-Keeps :
      (h : Bytes → M Bytes) (fuel : ℕ)
      → ((line : Bytes) → Keeps (On P left) (h line))
      → Keeps (On P left) (stream_loop h fuel)
  unfolding stream_loop
  stream_loop-Keeps h zero k = search io_rules
  stream_loop-Keeps h (suc fuel) k = let rest = stream_loop-Keeps h fuel k in search io_rules

  pub run_stream-Keeps :
      (h : Bytes → M Bytes)
      → ((line : Bytes) → Keeps (On P left) (h line))
      → Keeps (On P left) (run_stream h)
  unfolding run_stream
  run_stream-Keeps h k = search (io_rules, stream_loop-Keeps)

  module _ (b : ℕ) where
    pub get_unihash-Keeps : (m k : Bytes) → Keeps (On P left) (Store.get_unihash b m k)
    unfolding Store.get_unihash
    get_unihash-Keeps m k = read-Keeps _

    pub unihash_exists-Keeps : (u : Bytes) → Keeps (On P left) (Store.unihash_exists b u)
    unfolding Store.unihash_exists
    unihash_exists-Keeps u = read-Keeps _

    pub get_outhash-Keeps : (m o : Bytes) → Keeps (On P left) (Store.get_outhash b m o)
    unfolding Store.get_outhash
    get_outhash-Keeps m o = read-Keeps _

    pub get_outhash_raw-Keeps : (m o : Bytes) → Keeps (On P left) (Store.get_outhash_raw b m o)
    unfolding Store.get_outhash_raw
    get_outhash_raw-Keeps m o = read-Keeps _

    pub get_unihash_full-Keeps : (m k : Bytes) → Keeps (On P left) (Store.get_unihash_full b m k)
    unfolding Store.get_unihash_full
    get_unihash_full-Keeps m k = read-Keeps _

    pub report_read_only-Keeps :
        (req : ReportRequest) → Keeps (On P left) (Store.report_read_only b req)
    unfolding Store.report_read_only
    report_read_only-Keeps req = search (io_rules, get_outhash-Keeps)

pub ruleset read_rules = (
  io_rules, get_unihash-Keeps, unihash_exists-Keeps, get_outhash-Keeps, get_outhash_raw-Keeps,
  get_unihash_full-Keeps, report_read_only-Keeps, run_stream-Keeps,
)
