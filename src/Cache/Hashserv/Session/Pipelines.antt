-- ===== src/Cache/Hashserv/Session/Pipelines.antt =====
-- The stream of lookups of internal/cache/hashserv/handlers.go, which clients pipeline.
use bakery.Base.{
  ℕ, suc, ◌≡◌, refl, Bool, true, Option, none, some, List, [], ◌∷◌, ◌++◌, Bytes, codes, length, map,
  All, arith,
}
use bakery.Cache.Hashserv.Exec.{Result, ok, err, ◌>>=◌}
use bakery.Cache.Hashserv.Perms.{has, perm_read}
use bakery.Cache.Hashserv.Protocol.{Message, raw, quoted_ok}
use bakery.Cache.Hashserv.World.{World}
use bakery.Cache.Hashserv.Store
use bakery.Cache.Hashserv.Store.{Upstream}
use bakery.Cache.Hashserv.Framing.{lift, ends_stream}
use bakery.Cache.Hashserv.Framing.Streams.{
  answer_all, on_conn, IsQuiet, IsLine, conn_of, room_for, run_stream-answers, length-answer_all,
}
use bakery.Cache.Hashserv.Framing.Quiet.{pure-IsQuiet, fail-IsQuiet, modify-IsQuiet, quiet_rules}
use bakery.Cache.Hashserv.Session.{
  Env, require, enqueue, keep_answer, ask_unihash, upstream_unihash, stored_or_upstream, resolve,
  get_stream_line, handle_get_stream,
}

lift-IsQuiet : {A : Type 0} (r : Result A) → IsQuiet (lift r)
lift-IsQuiet (ok a) = pure-IsQuiet a
lift-IsQuiet (err e) = fail-IsQuiet e

module _ (env : Env) where
  enqueue-IsQuiet : (size : Option ℕ) (m k : Bytes) → IsQuiet (enqueue env size m k)
  unfolding enqueue
  enqueue-IsQuiet none m k = search quiet_rules
  enqueue-IsQuiet (some size) m k = modify-IsQuiet _ (λ c w. ground arith)

  keep_answer-IsQuiet :
      (m k : Bytes) (through : Bool) (u : Option Bytes) → IsQuiet (keep_answer env m k through u)
  unfolding keep_answer Store.insert_unihash
  keep_answer-IsQuiet m k through none = search quiet_rules
  keep_answer-IsQuiet m k through (some u) = search (quiet_rules, enqueue-IsQuiet)

  ask_unihash-IsQuiet :
      (up : Option Upstream) (m k : Bytes) (through : Bool)
      → IsQuiet (ask_unihash env up m k through)
  unfolding ask_unihash
  ask_unihash-IsQuiet none m k through = search quiet_rules
  ask_unihash-IsQuiet (some up) m k through = search (quiet_rules, keep_answer-IsQuiet)

  stored_or_upstream-IsQuiet :
      (m k : Bytes) (through : Bool) (u : Option Bytes)
      → IsQuiet (stored_or_upstream env m k through u)
  unfolding stored_or_upstream upstream_unihash
  stored_or_upstream-IsQuiet m k through none = ask_unihash-IsQuiet env.up m k through
  stored_or_upstream-IsQuiet m k through (some u) = search quiet_rules

  get_stream_line-IsQuiet : (line : Bytes) → IsQuiet (get_stream_line env line)
  unfolding get_stream_line resolve Store.get_unihash
  get_stream_line-IsQuiet line = search (quiet_rules, lift-IsQuiet, stored_or_upstream-IsQuiet)

-- Where a connection may read, a stream of any number of lookups that arrives at once is read to its
-- terminator (END or an empty message) and no further, and the client is sent the quoted ok, one
-- reply for each line in the order of the lines, and the raw ok. The lookups are those that the
-- handler makes one after the other, each of which succeeds, and the connection takes the replies.
pub get_stream_answers :
    (env : Env) (lines : List Bytes) (stop : Bytes) (rest rs : List Bytes) (sent : List Message)
    (k : ℕ) (w w' : World)
    → has w.perms perm_read ≡ true
    → All IsLine lines
    → ends_stream stop ≡ true
    → answer_all (get_stream_line env) lines w ≡ (ok rs, w')
    → (handle_get_stream env
          (on_conn (conn_of (lines ++ stop ∷ rest) sent (suc (room_for lines (suc k)))) w)
        ≡ (
          ok tt,
          on_conn
              (conn_of rest ((sent ++ quoted_ok ∷ []) ++ map raw rs ++ raw (codes "ok") ∷ []) k)
              w',
        ))
      × (length rs ≡ length lines)
unfolding handle_get_stream require ◌>>=◌
get_stream_answers env lines stop rest rs sent k w w' may l s e = (
  rw
      (
        may,
        run_stream-answers (get_stream_line env) (get_stream_line-IsQuiet env) lines stop rest rs
            sent k w w' l s e,
      )
      refl,
  length-answer_all (get_stream_line env) lines rs w w' e,
)
