-- ===== src/Cache/Hashserv/Session.antt =====
-- internal/cache/hashserv/handlers.go, with serve and fail of conn.go and ServeStream's start in
-- backend.go: one connection, from the handshake to its end. Metrics and logs are left out.
pub mod Steps
pub mod Writes
pub mod Roots
pub mod Tenants
pub mod Serves
pub mod Denials
pub mod Loop
pub mod Pipelines
use bakery.Base.{
  ℕ, zero, suc, ◌≡◌, Bool, true, false, not, ◌&&◌, ◌||◌, Option, none, some, List, [], ◌∷◌, ◌++◌,
  Bytes, codes, eq_bytes, starts_with, ltb, if◌then◌else◌, length, keep,
}
use bakery.Cache.Hashserv.Exec.{
  Error, Refusal, invoke, unknown_rpc, closed, failed, bad_handshake, bad_line, not_authenticated,
  missing_read, missing_report, missing_db_admin, malformed, no_credential, no_access,
  invalid_unihash, bad_filter, Result, ok, err, pure, fail, read_state, modify, attempt, ◌>>=◌,
  ◌>>◌,
}
use bakery.Cache.Hashserv.Perms.{
  Perms, Principal, Route, perm_read, perm_report, perm_db_admin, has, is_none, grant, names,
}
use bakery.Cache.Hashserv.Protocol
use bakery.Cache.Hashserv.Protocol.{
  Rpc, Codec, GetRequest, GetOuthashRequest, ReportRequest, ReportEquivRequest, AuthRequest,
  RemoveRequest, UnihashResponse, OuthashResponse, Message, raw, quoted_ok, alive, null, unihash,
  outhash, authenticated, removed, tasks, invoke_error, valid_unihash, decode_request,
}
use bakery.Cache.Hashserv.World.{World, M, receive, send, ask, touch}
use bakery.Cache.Hashserv.Store
use bakery.Cache.Hashserv.Store.{Upstream}
use bakery.Cache.Hashserv.Framing.{lift, handshake, parse_get_stream_line, run_stream}

-- What a session is started with. `backfill` is the capacity of its queue, if it has one.
pub record Env : Type 0 where
  pub codec : Codec
  pub up : Option Upstream
  pub backfill : Option ℕ
  pub authenticate_token : Bytes → ℕ → Result Principal
  pub route : Route

-- hasTokenPrefix
has_token_prefix : Bytes → Bytes → Bool
has_token_prefix s prefix = starts_with prefix s && ltb (length prefix) (length s)

unfoldable pub looks_like_bakery_token : Bytes → Bool
unfolding has_token_prefix
looks_like_bakery_token s =
    has_token_prefix s (codes "bkry_")
    || has_token_prefix s (codes "bkru_")
    || has_token_prefix s (codes "bkro_")

module _ {A : Type 0} where
  abbrev refused : Refusal → Result A → Result A
  refused r (ok a) = ok a
  refused r (err e) = err (invoke r)

  -- An error of the action becomes this refusal.
  unfoldable pub or_refuse : Refusal → M A → M A
  or_refuse r m w = let (res, w') = m w in (refused r res, w')

  -- json.Unmarshal into a request
  abbrev pub decoded : Option A → M A
  decoded none = fail (invoke malformed)
  decoded (some a) = pure a

abbrev refusal : Perms → Perms → Refusal
refusal p want =
    if is_none p
    then not_authenticated
    else if want.db_admin
    then missing_db_admin
    else if want.report
    then missing_report
    else missing_read

unfoldable pub require : Perms → M (Unit {0})
require want = do
  p ← read_state (λ w. w.perms)
  if has p want then pure tt else fail (invoke (refusal p want))

module _ (env : Env) where
  abbrev backend : ℕ
  backend = env.route.backend_id

  -- The loop over the candidates.
  unfoldable pub try_tokens : List Bytes → M Principal
  try_tokens [] = fail failed
  try_tokens (token ∷ tokens) = do
    answer ← ask (env.authenticate_token token)
    elim answer [ ok p ↦ pure p | err e ↦ try_tokens tokens ]

  unfoldable pub candidates : AuthRequest → List Bytes
  unfolding looks_like_bakery_token
  candidates req = keep looks_like_bakery_token (req.token ∷ req.username ∷ [])

  unfoldable pub set_perms : Perms → M (Unit {0})
  set_perms p = modify (λ w. record w { perms = p })

  unfoldable pub handle_auth : Bytes → M (Unit {0})
  unfolding try_tokens candidates set_perms
  handle_auth payload = do
    req ← decoded (env.codec.auth_request payload)
    p ← or_refuse no_credential (try_tokens (candidates req))
    let perms = grant (some p) env.route
    set_perms perms
    if has perms perm_read
        then send (authenticated req.username (names perms))
        else fail (invoke no_access)

  -- b.bf.Enqueue: a full queue drops the item.
  unfoldable pub enqueue : Option ℕ → Bytes → Bytes → M (Unit {0})
  enqueue none method taskhash = pure tt
  enqueue (some size) method taskhash = modify λ w.
      if ltb (length w.queued) size
      then record w { queued = w.queued ++ (method, taskhash) ∷ [] }
      else w

  -- A well-formed answer of the upstream, for the caller to keep.
  abbrev well_formed : Result (Option Bytes) → Option Bytes
  well_formed (err e) = none
  well_formed (ok none) = none
  well_formed (ok (some u)) = if valid_unihash u then some u else none

  unfoldable pub keep_answer : Bytes → Bytes → Bool → Option Bytes → M (Unit {0})
  unfolding enqueue
  keep_answer method taskhash write_through none = pure tt
  keep_answer method taskhash write_through (some u) =
      if write_through
      then attempt (Store.insert_unihash backend method taskhash u)
      else enqueue env.backfill method taskhash

  unfoldable pub ask_unihash : Option Upstream → Bytes → Bytes → Bool → M (Option Bytes)
  unfolding keep_answer
  ask_unihash none method taskhash write_through = pure none
  ask_unihash (some up) method taskhash write_through = do
    answer ← ask (up.get_unihash method taskhash)
    keep_answer method taskhash write_through (well_formed answer)
    pure (well_formed answer)

  unfoldable pub upstream_unihash : Bytes → Bytes → Bool → M (Option Bytes)
  unfolding ask_unihash
  upstream_unihash method taskhash write_through = ask_unihash env.up method taskhash write_through

  -- The stored unihash, marked as used, or the upstream's.
  unfoldable pub stored_or_upstream : Bytes → Bytes → Bool → Option Bytes → M (Option Bytes)
  unfolding upstream_unihash
  stored_or_upstream method taskhash write_through (some u) = touch method taskhash >> pure (some u)
  stored_or_upstream method taskhash write_through none =
      upstream_unihash method taskhash write_through

  unfoldable pub resolve : Bytes → Bytes → Bool → M (Option Bytes)
  unfolding stored_or_upstream
  resolve method taskhash write_through = do
    stored ← Store.get_unihash backend method taskhash
    stored_or_upstream method taskhash write_through stored

  abbrev reply_unihash : Bytes → Bytes → Option Bytes → Message
  reply_unihash method taskhash none = null
  reply_unihash method taskhash (some u) =
      unihash (record { taskhash = taskhash; method = method; unihash = u })

  unfoldable pub answer_full : Bytes → Bytes → Option OuthashResponse → M (Unit {0})
  answer_full method taskhash none = send null
  answer_full method taskhash (some row) = touch method taskhash >> send (outhash row)

  unfoldable pub handle_get : Bytes → M (Unit {0})
  unfolding require resolve answer_full
  handle_get payload = do
    require perm_read
    req ← decoded (env.codec.get_request payload)
    if req.all
        then Store.get_unihash_full backend req.method req.taskhash
          >>= answer_full req.method req.taskhash
        else resolve req.method req.taskhash true >>= λ u.
            send (reply_unihash req.method req.taskhash u)

  abbrev reply_outhash : Option OuthashResponse → Message
  reply_outhash none = null
  reply_outhash (some row) = outhash row

  abbrev found : Result (Option OuthashResponse) → Option OuthashResponse
  found (err e) = none
  found (ok row) = row

  unfoldable pub persist : Option OuthashResponse → M (Unit {0})
  persist none = pure tt
  persist (some row) = attempt (Store.persist_upstream backend row)

  unfoldable pub ask_outhash : Option Upstream → GetOuthashRequest → M (Unit {0})
  unfolding persist
  ask_outhash none req = send null
  ask_outhash (some up) req = do
    answer ← ask (up.get_outhash req.method req.outhash req.taskhash)
    persist (found answer)
    send (reply_outhash (found answer))

  unfoldable pub answer_outhash : GetOuthashRequest → Option OuthashResponse → M (Unit {0})
  unfolding ask_outhash
  answer_outhash req none = ask_outhash env.up req
  answer_outhash req (some row) = touch req.method row.taskhash >> send (outhash row)

  -- with_unihash, true where the key is absent
  abbrev wants_unihash : Option Bool → Bool
  wants_unihash none = true
  wants_unihash (some b) = b

  unfoldable pub handle_get_outhash : Bytes → M (Unit {0})
  unfolding require answer_outhash
  handle_get_outhash payload = do
    require perm_read
    req ← decoded (env.codec.get_outhash_request payload)
    if wants_unihash req.with_unihash
        then Store.get_outhash backend req.method req.outhash >>= answer_outhash req
        else Store.get_outhash_raw backend req.method req.outhash >>= λ row.
            send (reply_outhash row)

  abbrev or_empty : Option Bytes → Bytes
  or_empty none = []
  or_empty (some u) = u

  unfoldable pub get_stream_line : Bytes → M Bytes
  unfolding resolve
  get_stream_line line = do
    (method, taskhash) ← lift (parse_get_stream_line line)
    u ← resolve method taskhash false
    pure (or_empty u)

  unfoldable pub handle_get_stream : M (Unit {0})
  unfolding require get_stream_line
  handle_get_stream = require perm_read >> run_stream get_stream_line

  abbrev holds : Result Bool → Bool
  holds (ok b) = b
  holds (err e) = false

  unfoldable pub exists_upstream : Option Upstream → Bytes → Bool → M Bool
  exists_upstream up line true = pure true
  exists_upstream none line false = pure false
  exists_upstream (some up) line false = do
    answer ← ask (up.unihash_exists line)
    pure (holds answer)

  unfoldable pub exists_stream_line : Bytes → M Bytes
  unfolding exists_upstream
  exists_stream_line line = do
    here ← Store.unihash_exists backend line
    somewhere ← exists_upstream env.up line here
    pure (if somewhere then codes "true" else codes "false")

  unfoldable pub handle_exists_stream : M (Unit {0})
  unfolding require exists_stream_line
  handle_exists_stream = require perm_read >> run_stream exists_stream_line

  -- The reply to a report whose unihash is well-formed, by the permissions of the connection.
  unfoldable pub reported : ReportRequest → Bool → M UnihashResponse
  reported req true = Store.report backend req env.up >>= λ r. pure r.0
  reported req false = Store.report_read_only backend req

  unfoldable pub handle_report : Bytes → M (Unit {0})
  unfolding require reported
  handle_report payload = do
    require perm_read
    req ← decoded (env.codec.report_request payload)
    if not (valid_unihash req.unihash) then fail (invoke invalid_unihash) else do
      p ← read_state (λ w. w.perms)
      resp ← reported req (has p perm_report)
      send (unihash resp)

  unfoldable pub reported_equiv : ReportEquivRequest → Bool → M UnihashResponse
  reported_equiv req true = Store.report_equiv backend req
  reported_equiv req false = do
    stored ← Store.get_unihash backend req.method req.taskhash
    pure (Store.unihash_response req.method req.taskhash (Store.get_or stored req.unihash))

  unfoldable pub handle_report_equiv : Bytes → M (Unit {0})
  unfolding require reported_equiv
  handle_report_equiv payload = do
    require perm_read
    req ← decoded (env.codec.report_equiv_request payload)
    if not (valid_unihash req.unihash) then fail (invoke invalid_unihash) else do
      p ← read_state (λ w. w.perms)
      resp ← reported_equiv req (has p perm_report)
      send (unihash resp)

  unfoldable pub handle_remove : Bytes → M (Unit {0})
  unfolding require
  handle_remove payload = do
    require perm_db_admin
    req ← decoded (env.codec.remove_request payload)
    count ← Store.remove backend req.filter
    send (removed count)

  unfoldable pub backfilled : Bytes → Bytes → Option Bytes → M (Unit {0})
  backfilled method taskhash none = pure tt
  backfilled method taskhash (some u) = attempt (Store.insert_unihash backend method taskhash u)

  -- Backfiller.process
  unfoldable pub process : Option Upstream → Bytes × Bytes → M (Unit {0})
  unfolding backfilled
  process none item = pure tt
  process (some up) (method, taskhash) = do
    answer ← ask (up.get_unihash method taskhash)
    backfilled method taskhash (well_formed answer)

  -- The workers empty the queue.
  unfoldable pub drain : List (Bytes × Bytes) → M (Unit {0})
  unfolding process
  drain [] = modify (λ w. record w { queued = [] })
  drain (item ∷ items) = do process env.up item; drain items

  -- Backfiller.Wait: the depth on entry, once the queue is empty.
  unfoldable pub wait : Option ℕ → M ℕ
  unfolding drain
  wait none = pure 0
  wait (some size) = do items ← read_state (λ w. w.queued); drain items; pure (length items)

  unfoldable pub handle_backfill_wait : M (Unit {0})
  unfolding require wait
  handle_backfill_wait = do require perm_read; depth ← wait env.backfill; send (tasks depth)

  unfoldable pub handle : Rpc → Bytes → M (Unit {0})
  unfolding handle_auth handle_get handle_get_outhash handle_get_stream handle_exists_stream
      handle_report handle_report_equiv handle_remove handle_backfill_wait
  handle Rpc.ping payload = send alive
  handle Rpc.auth payload = handle_auth payload
  handle Rpc.get payload = handle_get payload
  handle Rpc.get_outhash payload = handle_get_outhash payload
  handle Rpc.get_stream payload = handle_get_stream
  handle Rpc.exists_stream payload = handle_exists_stream
  handle Rpc.report payload = handle_report payload
  handle Rpc.report_equiv payload = handle_report_equiv payload
  handle Rpc.remove payload = handle_remove payload
  handle Rpc.backfill_wait payload = handle_backfill_wait

  unfoldable pub dispatch : Bytes → M (Unit {0})
  unfolding handle
  dispatch msg = do
    (rpc, payload) ← lift (decode_request (env.codec.object msg))
    handle rpc payload

  abbrev failing : Error → M (Unit {0})
  failing (invoke r) = send (invoke_error r) >> fail (invoke r)
  failing e = fail e

  abbrev ended : Result (Unit {0}) → M (Unit {0})
  ended (ok _) = pure tt
  ended (err e) = failing e

  -- `if err := s.dispatch(msg); err != nil { return s.fail(err) }`
  unfoldable pub dispatch_or_fail : Bytes → M (Unit {0})
  unfolding dispatch
  dispatch_or_fail msg w = let (r, w') = dispatch msg w in ended r w'

  -- The loop of `serve`: every round takes a message off the inbox.
  unfoldable pub serve_loop : ℕ → M (Unit {0})
  unfolding dispatch_or_fail
  serve_loop zero = do msg ← receive; fail bad_line
  serve_loop (suc fuel) = do msg ← receive; dispatch_or_fail msg; serve_loop fuel

  unfoldable pub serve_all : M (Unit {0})
  unfolding serve_loop
  serve_all = read_state (λ w. length w.conn.inbox) >>= serve_loop

  unfoldable pub serve : M (Unit {0})
  unfolding serve_all
  serve = handshake >>= λ headers. serve_all

  -- The permissions of a connection before any `auth`, and its life.
  unfoldable pub serve_stream : M (Unit {0})
  unfolding serve set_perms
  serve_stream = do set_perms (grant none env.route); serve
