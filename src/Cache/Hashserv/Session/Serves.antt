-- ===== src/Cache/Hashserv/Session/Serves.antt =====
-- Invariants of the tables over a whole connection of internal/cache/hashserv: conn.go's serve.
use bakery.Base.{ℕ, zero, suc, Bytes, List}
use bakery.Cache.Hashserv.Exec.{Error, invoke, Result, ok, err}
use bakery.Cache.Hashserv.Exec.Keeps.{Keeps, Keeps-bind, Keeps-fail, Keeps-pure}
use bakery.Cache.Hashserv.Perms.{Perms}
use bakery.Cache.Hashserv.Tables.{Tables}
use bakery.Cache.Hashserv.World.Keeps.{On}
use bakery.Cache.Hashserv.Framing.{Headers, read_headers, reply_headers, handshake}
use bakery.Cache.Hashserv.Store
use bakery.Cache.Hashserv.Session.{
  Env, failing, ended, dispatch, dispatch_or_fail, serve_loop, serve_all, serve, serve_stream,
}
use bakery.Cache.Hashserv.Session.Steps.{Steps, io_rules}
use bakery.Cache.Hashserv.Session.Writes.{handle-Keeps, set_perms-Keeps}

module _ {P : Tables → Perms → Type 0} {left : ℕ} where
  read_headers-Keeps : (fuel : ℕ) (hs : Headers) → Keeps (On P left) (read_headers fuel hs)
  unfolding read_headers
  read_headers-Keeps zero hs = search io_rules
  read_headers-Keeps (suc fuel) hs = search (io_rules, read_headers-Keeps fuel)

  reply_headers-Keeps : (hs : Headers) → Keeps (On P left) (reply_headers hs)
  unfolding reply_headers
  reply_headers-Keeps hs = search io_rules

  handshake-Keeps : Keeps (On P left) handshake
  unfolding handshake
  handshake-Keeps = search (io_rules, read_headers-Keeps, reply_headers-Keeps)

-- The deletions keep the property too.
abbrev pub Removes : ℕ → ℕ → (Tables → Perms → Type 0) → Type 0
Removes b left P = (filter : List (Bytes × Bytes)) → Keeps (On P left) (Store.remove b filter)

module _ {P : Tables → Perms → Type 0} {left : ℕ} (env : Env) where
  failing-Keeps : (e : Error) → Keeps (On P left) (failing env e)
  failing-Keeps (invoke r) = search io_rules
  failing-Keeps _ = Keeps-fail _

  ended-Keeps : (r : Result (Unit {0})) → Keeps (On P left) (ended env r)
  ended-Keeps (ok a) = Keeps-pure tt
  ended-Keeps (err e) = failing-Keeps e

  dispatch-Keeps :
      Steps env.route.backend_id left P
      → Removes env.route.backend_id left P
      → (msg : Bytes) → Keeps (On P left) (dispatch env msg)
  unfolding dispatch
  dispatch-Keeps s r msg =
      Keeps-bind _ _ (search io_rules) λ (rpc, payload). handle-Keeps env s rpc payload (λ e. r)

  pub dispatch_or_fail-Keeps :
      Steps env.route.backend_id left P
      → Removes env.route.backend_id left P
      → (msg : Bytes) → Keeps (On P left) (dispatch_or_fail env msg)
  unfolding dispatch_or_fail
  dispatch_or_fail-Keeps s r msg = record {
    after = λ w h.
        let (res, w') = dispatch env msg w in
        (ended-Keeps res).after w' ((dispatch-Keeps s r msg).after w h);
  }

  serve_loop-Keeps :
      Steps env.route.backend_id left P
      → Removes env.route.backend_id left P
      → (fuel : ℕ) → Keeps (On P left) (serve_loop env fuel)
  unfolding serve_loop
  serve_loop-Keeps s r zero = search io_rules
  serve_loop-Keeps s r (suc fuel) =
      let rest = serve_loop-Keeps s r fuel in search (io_rules, dispatch_or_fail-Keeps)

  -- A whole connection keeps what the insertions and the deletions keep.
  pub serve_stream-Keeps :
      Steps env.route.backend_id left P
      → Removes env.route.backend_id left P
      → Keeps (On P left) (serve_stream env)
  unfolding serve_stream serve serve_all
  serve_stream-Keeps s r = search (io_rules, handshake-Keeps, set_perms-Keeps, serve_loop-Keeps)
