-- ===== src/Cache/Hashserv/Session/Roots.antt =====
-- The stored unihashes of a backend of internal/cache/hashserv, which root its sstate objects.
use bakery.Base.{ℕ, length, arith, ◌≡◌, ◌≢◌, true, some, Bytes, refl}
use bakery.Cache.Hashserv.Exec.Keeps.{Keeps}
use bakery.Cache.Hashserv.Protocol.{Rpc, valid_unihash}
use bakery.Cache.Hashserv.Tables.{Tables, find_unihash}
use bakery.Cache.Hashserv.World.{World}
use bakery.Cache.Hashserv.World.Keeps.{On}
use bakery.Cache.Hashserv.Store.Grows.{
  Grows, Since, insert_unihash-Grows, insert_outhash-Grows, report-Grows,
}
use bakery.Cache.Hashserv.Session.{Env, handle}
use bakery.Cache.Hashserv.Session.Steps.{Steps}
use bakery.Cache.Hashserv.Session.Writes.{handle-Keeps}

grows_steps : (b left : ℕ) (t₀ : Tables) → Steps b left (Since b t₀)
grows_steps b left t₀ = record {
  insert_unihash = insert_unihash-Grows b;
  insert_outhash = insert_outhash-Grows b;
  report = report-Grows b;
  freely = λ t p q h. h;
}

-- Every stored unihash has the form of a hash.
abbrev pub AllValid : Tables → Type 0
AllValid t =
    (c : ℕ) (m k u : Bytes) → find_unihash c m k t.unihashes ≡ some u → valid_unihash u ≡ true

-- Whatever a request carries, whatever the upstream answers and whichever statements fail, a command
-- other than `remove`, on tables whose unihashes all have 1 to 64 hexadecimal digits, changes or
-- drops no stored unihash of any backend, adds none to another backend than its own, and leaves
-- tables whose unihashes all have 1 to 64 hexadecimal digits.
pub handle_never_remaps :
    (env : Env) (rpc : Rpc) (payload : Bytes) (w : World)
    → rpc ≢ Rpc.remove
    → AllValid w.tables
    → Grows env.route.backend_id w.tables (handle env rpc payload w).1.tables
handle_never_remaps env rpc payload w other valid =
    let k : Keeps (On (Since env.route.backend_id w.tables) (length w.conn.inbox))
        (handle env rpc payload) =
      handle-Keeps env (grows_steps env.route.backend_id (length w.conn.inbox) w.tables) rpc payload
        (λ e. absurd (other e)) in
    (k.after w (record { holds = start; short = omega arith })).holds
  where
    start : Grows env.route.backend_id w.tables w.tables
    start = record { kept = λ c m k u h. h; others = λ c m k h. refl; valid = valid }
