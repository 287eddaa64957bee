-- ===== src/Cache/Hashserv/Session/Writes.antt =====
-- Invariants of the tables under the requests of internal/cache/hashserv/handlers.go: what the writes
-- of the store keep, every handler keeps.
use bakery.Base.{
  ℕ, ◌≡◌, refl, Bool, true, false, not, ◌||◌, Option, none, some, List, [], ◌∷◌, Bytes, eq_bytes,
  if◌then◌else◌, arith,
}
use bakery.Cache.Hashserv.Exec.{Result, ok, err, pure}
use bakery.Cache.Hashserv.Exec.Keeps.{Keeps, Keeps-bind, Keeps-pure, Keeps-attempt}
use bakery.Cache.Hashserv.Perms.{Perms, Principal}
use bakery.Cache.Hashserv.Protocol.{
  Rpc, valid_unihash, GetOuthashRequest, ReportRequest, ReportEquivRequest, OuthashResponse,
}
use bakery.Cache.Hashserv.Tables.{Tables}
use bakery.Cache.Hashserv.World.Keeps.{On, modify-Keeps}
use bakery.Cache.Hashserv.Store
use bakery.Cache.Hashserv.Store.{Upstream}
use bakery.Cache.Hashserv.Session.Steps.{Steps, io_rules, read_rules}
use bakery.Cache.Hashserv.Session.{
  Env, well_formed, try_tokens, set_perms, handle_auth, enqueue, keep_answer, ask_unihash,
  upstream_unihash, stored_or_upstream, resolve, answer_full, handle_get, persist, ask_outhash,
  answer_outhash, handle_get_outhash, get_stream_line, handle_get_stream, exists_upstream,
  exists_stream_line, handle_exists_stream, reported, handle_report, reported_equiv,
  handle_report_equiv, handle_remove, backfilled, process, drain, wait, handle_backfill_wait,
  handle,
}

abbrev IsFit : Option Bytes → Type 0
IsFit none = Unit {0}
IsFit (some u) = valid_unihash u ≡ true

well_formed-IsFit : (env : Env) (answer : Result (Option Bytes)) → IsFit (well_formed env answer)
well_formed-IsFit env (err e) = tt
well_formed-IsFit env (ok none) = tt
well_formed-IsFit env (ok (some u)) = fit (valid_unihash u) refl
  where
    fit : (v : Bool) → valid_unihash u ≡ v → IsFit (if v then some u else none)
    fit true e = e
    fit false e = tt

abbrev backend : Env → ℕ
backend env = env.route.backend_id

not-false : (b : Bool) → not b ≡ false → b ≡ true
not-false b h = ground arith

module _ {P : Tables → Perms → Type 0} {left : ℕ} (env : Env) where
  pub set_perms-Keeps :
      Steps (backend env) left P → (p : Perms) → Keeps (On P left) (set_perms env p)
  unfolding set_perms
  set_perms-Keeps s p = modify-Keeps _ (λ w h. s.freely w.tables w.perms p h) (λ w h. h)

  try_tokens-Keeps : (tokens : List Bytes) → Keeps (On P left) (try_tokens env tokens)
  unfolding try_tokens
  try_tokens-Keeps [] = search io_rules
  try_tokens-Keeps (token ∷ tokens) =
      Keeps-bind _ _ (search io_rules) λ answer. next answer (try_tokens-Keeps tokens)
    where
      next :
          (answer : Result Principal)
          → Keeps (On P left) (try_tokens env tokens)
          → Keeps (On P left) (elim answer [ ok p ↦ pure p | err e ↦ try_tokens env tokens ])
      next (ok p) k = Keeps-pure p
      next (err e) k = k

  handle_auth-Keeps :
      Steps (backend env) left P → (payload : Bytes) → Keeps (On P left) (handle_auth env payload)
  unfolding handle_auth
  handle_auth-Keeps s payload = search (io_rules, try_tokens-Keeps, set_perms-Keeps)

  enqueue-Keeps : (size : Option ℕ) (m k : Bytes) → Keeps (On P left) (enqueue env size m k)
  unfolding enqueue
  enqueue-Keeps none m k = search io_rules
  enqueue-Keeps (some size) m k = modify-Keeps _ (λ w h. ground arith) (λ w h. ground arith)

  keep_answer-Keeps :
      Steps (backend env) left P
      → (m k : Bytes) (through : Bool) (u : Option Bytes) → IsFit u
      → Keeps (On P left) (keep_answer env m k through u)
  unfolding keep_answer
  keep_answer-Keeps s m k through none v = search io_rules
  keep_answer-Keeps s m k true (some u) v = Keeps-attempt _ (s.insert_unihash m k u v)
  keep_answer-Keeps s m k false (some u) v = enqueue-Keeps env.backfill m k

  ask_unihash-Keeps :
      Steps (backend env) left P
      → (up : Option Upstream) (m k : Bytes) (through : Bool)
      → Keeps (On P left) (ask_unihash env up m k through)
  unfolding ask_unihash
  ask_unihash-Keeps s none m k through = search io_rules
  ask_unihash-Keeps s (some up) m k through = Keeps-bind _ _ (search io_rules) λ answer.
      Keeps-bind _ _
        (keep_answer-Keeps s m k through (well_formed env answer) (well_formed-IsFit env answer))
        λ _. Keeps-pure _

  stored_or_upstream-Keeps :
      Steps (backend env) left P
      → (m k : Bytes) (through : Bool) (u : Option Bytes)
      → Keeps (On P left) (stored_or_upstream env m k through u)
  unfolding stored_or_upstream upstream_unihash
  stored_or_upstream-Keeps s m k through none = ask_unihash-Keeps s env.up m k through
  stored_or_upstream-Keeps s m k through (some u) = search io_rules

  resolve-Keeps :
      Steps (backend env) left P
      → (m k : Bytes) (through : Bool) → Keeps (On P left) (resolve env m k through)
  unfolding resolve
  resolve-Keeps s m k through = search (read_rules, stored_or_upstream-Keeps)

  answer_full-Keeps :
      (m k : Bytes) (row : Option OuthashResponse) → Keeps (On P left) (answer_full env m k row)
  unfolding answer_full
  answer_full-Keeps m k none = search io_rules
  answer_full-Keeps m k (some row) = search io_rules

  handle_get-Keeps :
      Steps (backend env) left P → (payload : Bytes) → Keeps (On P left) (handle_get env payload)
  unfolding handle_get
  handle_get-Keeps s payload = search (read_rules, resolve-Keeps, answer_full-Keeps)

  persist_upstream-Keeps :
      Steps (backend env) left P
      → (row : OuthashResponse) → Keeps (On P left) (Store.persist_upstream (backend env) row)
  unfolding Store.persist_upstream
  persist_upstream-Keeps s row = search (read_rules, s.insert_unihash, s.insert_outhash, fit)
    where
      fit :
          not (valid_unihash row.unihash) || eq_bytes row.taskhash [] ≡ false
          → valid_unihash row.unihash ≡ true
      fit h = ground arith

  persist-Keeps :
      Steps (backend env) left P
      → (row : Option OuthashResponse) → Keeps (On P left) (persist env row)
  unfolding persist
  persist-Keeps s none = search io_rules
  persist-Keeps s (some row) = Keeps-attempt _ (persist_upstream-Keeps s row)

  ask_outhash-Keeps :
      Steps (backend env) left P
      → (up : Option Upstream) (req : GetOuthashRequest)
      → Keeps (On P left) (ask_outhash env up req)
  unfolding ask_outhash
  ask_outhash-Keeps s none req = search io_rules
  ask_outhash-Keeps s (some up) req = search (io_rules, persist-Keeps)

  answer_outhash-Keeps :
      Steps (backend env) left P
      → (req : GetOuthashRequest) (row : Option OuthashResponse)
      → Keeps (On P left) (answer_outhash env req row)
  unfolding answer_outhash
  answer_outhash-Keeps s req none = ask_outhash-Keeps s env.up req
  answer_outhash-Keeps s req (some row) = search io_rules

  handle_get_outhash-Keeps :
      Steps (backend env) left P
      → (payload : Bytes) → Keeps (On P left) (handle_get_outhash env payload)
  unfolding handle_get_outhash
  handle_get_outhash-Keeps s payload = search (read_rules, answer_outhash-Keeps)

  get_stream_line-Keeps :
      Steps (backend env) left P → (line : Bytes) → Keeps (On P left) (get_stream_line env line)
  unfolding get_stream_line
  get_stream_line-Keeps s line = search (io_rules, resolve-Keeps)

  handle_get_stream-Keeps : Steps (backend env) left P → Keeps (On P left) (handle_get_stream env)
  unfolding handle_get_stream
  handle_get_stream-Keeps s = search (read_rules, get_stream_line-Keeps)

  exists_upstream-Keeps :
      (up : Option Upstream) (line : Bytes) (here : Bool)
      → Keeps (On P left) (exists_upstream env up line here)
  unfolding exists_upstream
  exists_upstream-Keeps up line true = Keeps-pure true
  exists_upstream-Keeps none line false = Keeps-pure false
  exists_upstream-Keeps (some up) line false = search io_rules

  exists_stream_line-Keeps : (line : Bytes) → Keeps (On P left) (exists_stream_line env line)
  unfolding exists_stream_line
  exists_stream_line-Keeps line = search (read_rules, exists_upstream-Keeps)

  handle_exists_stream-Keeps : Keeps (On P left) (handle_exists_stream env)
  unfolding handle_exists_stream
  handle_exists_stream-Keeps = search (read_rules, exists_stream_line-Keeps)

  reported-Keeps :
      Steps (backend env) left P
      → (req : ReportRequest) (may : Bool) → valid_unihash req.unihash ≡ true
      → Keeps (On P left) (reported env req may)
  unfolding reported
  reported-Keeps s req true v = Keeps-bind _ _ (s.report req env.up v) (λ r. Keeps-pure r.0)
  reported-Keeps s req false v = search read_rules

  handle_report-Keeps :
      Steps (backend env) left P → (payload : Bytes) → Keeps (On P left) (handle_report env payload)
  unfolding handle_report
  handle_report-Keeps s payload = search (io_rules, reported-Keeps, not-false) depth 9

  reported_equiv-Keeps :
      Steps (backend env) left P
      → (req : ReportEquivRequest) (may : Bool) → valid_unihash req.unihash ≡ true
      → Keeps (On P left) (reported_equiv env req may)
  unfolding reported_equiv Store.report_equiv
  reported_equiv-Keeps s req true v = search (read_rules, s.insert_unihash)
  reported_equiv-Keeps s req false v = search read_rules

  handle_report_equiv-Keeps :
      Steps (backend env) left P
      → (payload : Bytes) → Keeps (On P left) (handle_report_equiv env payload)
  unfolding handle_report_equiv
  handle_report_equiv-Keeps s payload = search (io_rules, reported_equiv-Keeps, not-false) depth 9

  backfilled-Keeps :
      Steps (backend env) left P
      → (m k : Bytes) (u : Option Bytes) → IsFit u
      → Keeps (On P left) (backfilled env m k u)
  unfolding backfilled
  backfilled-Keeps s m k none v = search io_rules
  backfilled-Keeps s m k (some u) v = Keeps-attempt _ (s.insert_unihash m k u v)

  process-Keeps :
      Steps (backend env) left P
      → (up : Option Upstream) (item : Bytes × Bytes) → Keeps (On P left) (process env up item)
  unfolding process
  process-Keeps s none item = search io_rules
  process-Keeps s (some up) (m, k) =
      Keeps-bind _ _ (search io_rules)
        λ answer. backfilled-Keeps s m k (well_formed env answer) (well_formed-IsFit env answer)

  drain-Keeps :
      Steps (backend env) left P
      → (items : List (Bytes × Bytes)) → Keeps (On P left) (drain env items)
  unfolding drain
  drain-Keeps s [] = modify-Keeps _ (λ w h. h) (λ w h. h)
  drain-Keeps s (item ∷ items) = let rest = drain-Keeps s items in search (io_rules, process-Keeps)

  wait-Keeps : Steps (backend env) left P → (size : Option ℕ) → Keeps (On P left) (wait env size)
  unfolding wait
  wait-Keeps s none = search io_rules
  wait-Keeps s (some size) = search (io_rules, drain-Keeps)

  handle_backfill_wait-Keeps :
      Steps (backend env) left P → Keeps (On P left) (handle_backfill_wait env)
  unfolding handle_backfill_wait
  handle_backfill_wait-Keeps s = search (io_rules, wait-Keeps)

  handle_remove-Keeps :
      ((filter : List (Bytes × Bytes)) → Keeps (On P left) (Store.remove (backend env) filter))
      → (payload : Bytes) → Keeps (On P left) (handle_remove env payload)
  unfolding handle_remove
  handle_remove-Keeps r payload = search io_rules

  -- Every command keeps what the insertions keep; `remove` keeps it if the deletions do.
  pub handle-Keeps :
      Steps (backend env) left P
      → (rpc : Rpc) (payload : Bytes)
      → (rpc ≡ Rpc.remove
          → (filter : List (Bytes × Bytes)) → Keeps (On P left) (Store.remove (backend env) filter))
      → Keeps (On P left) (handle env rpc payload)
  unfolding handle
  handle-Keeps s Rpc.ping payload r = search io_rules
  handle-Keeps s Rpc.auth payload r = handle_auth-Keeps s payload
  handle-Keeps s Rpc.get payload r = handle_get-Keeps s payload
  handle-Keeps s Rpc.get_outhash payload r = handle_get_outhash-Keeps s payload
  handle-Keeps s Rpc.get_stream payload r = handle_get_stream-Keeps s
  handle-Keeps s Rpc.exists_stream payload r = handle_exists_stream-Keeps
  handle-Keeps s Rpc.report payload r = handle_report-Keeps s payload
  handle-Keeps s Rpc.report_equiv payload r = handle_report_equiv-Keeps s payload
  handle-Keeps s Rpc.remove payload r = handle_remove-Keeps (r refl) payload
  handle-Keeps s Rpc.backfill_wait payload r = handle_backfill_wait-Keeps s
