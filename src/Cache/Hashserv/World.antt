-- ===== src/Cache/Hashserv/World.antt =====
-- What a connection of internal/cache/hashserv reads and writes: conn.go and framing.go's msgConn, the
-- tables, and the queues behind the session. Errors come from outside: the connection takes
-- `room` more messages, its inbox ends in a disconnect, and `faults` says which queries fail.
pub mod Keeps
use bakery.Base.{ℕ, zero, suc, ◌+◌, Bool, true, false, List, [], ◌∷◌, ◌++◌, Bytes}
use bakery.Cache.Hashserv.Exec.{closed, failed, ok, err, Exec}
use bakery.Cache.Hashserv.Perms.{Perms}
use bakery.Cache.Hashserv.Protocol.{Message}
use bakery.Cache.Hashserv.Tables.{Tables}

pub record Conn : Type 0 where
  pub inbox : List Bytes
  pub sent : List Message
  pub room : ℕ

-- `asked` counts the calls of the upstream and the authenticator; `touched` holds the marks of
-- the toucher, the latest first, and `queued` the backfill queue.
pub record World : Type 0 where
  pub conn : Conn
  pub tables : Tables
  pub faults : List Bool
  pub asked : ℕ
  pub touched : List (Bytes × Bytes)
  pub queued : List (Bytes × Bytes)
  pub perms : Perms

abbrev pub M : Type 0 → Type 0
M A = Exec World A

abbrev received : List Bytes → M Bytes
received [] w = (err closed, w)
received (m ∷ ms) w = (ok m, record w { conn = record w.conn { inbox = ms } })

-- msgConn.Read
unfoldable pub receive : M Bytes
receive w = received w.conn.inbox w

abbrev delivered : Message → ℕ → M (Unit {0})
delivered m zero w = (err closed, w)
delivered m (suc room) w =
    (ok tt, record w { conn = record w.conn { sent = w.conn.sent ++ m ∷ []; room = room } })

-- msgConn.Write
unfoldable pub send : Message → M (Unit {0})
send m w = delivered m w.conn.room w

abbrev pub queried : {A : Type 0} → (Tables → A × Tables) → List Bool → M A
queried q [] w = let (a, t) = q w.tables in (ok a, record w { tables = t })
queried q (true ∷ fs) w = (err failed, record w { faults = fs })
queried q (false ∷ fs) w = let (a, t) = q w.tables in (ok a, record w { tables = t; faults = fs })

-- One statement on the database.
unfoldable pub query : {A : Type 0} → (Tables → A × Tables) → M A
query q w = queried q w.faults w

-- A call of something whose answers change over time.
unfoldable pub ask : {A : Type 0} → (ℕ → A) → M A
ask f w = (ok (f w.asked), record w { asked = w.asked + 1 })

unfoldable pub touch : Bytes → Bytes → M (Unit {0})
touch method taskhash w = (ok tt, record w { touched = (method, taskhash) ∷ w.touched })
