-- ===== src/Cache/Hashserv/Session/Denials.antt =====
-- What internal/cache/hashserv/handlers.go refuses, and how conn.go ends the connection then.
use bakery.Base.{ℕ, suc, ◌≡◌, ◌≢◌, refl, false, not, length, arith, [], ◌∷◌, ◌++◌, Bytes}
use bakery.Cache.Hashserv.Exec.{invoke, not_authenticated, ok, err, read_state, ◌>>=◌}
use bakery.Cache.Hashserv.Exec.Keeps.{
  Keeps, Ensures, Ensures-bind, Keeps-bind, Keeps-if, Keeps-fail,
}
use bakery.Cache.Hashserv.Perms.{Perms, no_perms, perm_report, has}
use bakery.Cache.Hashserv.Protocol.{
  Rpc, Message, invoke_error, decode_request, valid_unihash, ReportRequest, ReportEquivRequest,
}
use bakery.Cache.Hashserv.Tables.{Tables}
use bakery.Cache.Hashserv.World.{World, M, send}
use bakery.Cache.Hashserv.World.Keeps.{On}
use bakery.Cache.Hashserv.Session.{
  Env, require, handle_get, handle_get_outhash, handle_get_stream, handle_exists_stream,
  handle_report, handle_report_equiv, handle_remove, handle_backfill_wait, handle, dispatch,
  dispatch_or_fail, reported, reported_equiv,
}
use bakery.Cache.Hashserv.Session.Steps.{io_rules, read_rules}

handle_denied :
    (env : Env) (rpc : Rpc) (payload : Bytes) (w : World)
    → rpc ≢ Rpc.ping
    → rpc ≢ Rpc.auth
    → w.perms ≡ no_perms
    → handle env rpc payload w ≡ (err (invoke not_authenticated), w)
unfolding handle handle_get handle_get_outhash handle_get_stream handle_exists_stream handle_report
    handle_report_equiv handle_remove handle_backfill_wait require has ◌>>=◌
handle_denied env Rpc.ping payload w p a e = absurd (p refl)
handle_denied env Rpc.auth payload w p a e = absurd (a refl)
handle_denied env Rpc.get payload w p a e = rw e refl
handle_denied env Rpc.get_outhash payload w p a e = rw e refl
handle_denied env Rpc.get_stream payload w p a e = rw e refl
handle_denied env Rpc.exists_stream payload w p a e = rw e refl
handle_denied env Rpc.report payload w p a e = rw e refl
handle_denied env Rpc.report_equiv payload w p a e = rw e refl
handle_denied env Rpc.remove payload w p a e = rw e refl
handle_denied env Rpc.backfill_wait payload w p a e = rw e refl

-- On a connection without any permission every command but `ping` and `auth` is refused in band: the
-- client is sent one message, the error that halts its build, the loop ends, and neither the
-- tables nor the queues change.
pub denied_loudly :
    (env : Env) (msg : Bytes) (rpc : Rpc) (payload : Bytes) (w : World) (room : ℕ)
    → decode_request (env.codec.object msg) ≡ ok (rpc, payload)
    → rpc ≢ Rpc.ping
    → rpc ≢ Rpc.auth
    → w.perms ≡ no_perms
    → w.conn.room ≡ suc room
    → dispatch_or_fail env msg w ≡ (
      err (invoke not_authenticated),
      record w {
        conn = record w.conn {
          sent = w.conn.sent ++ invoke_error not_authenticated ∷ [];
          room = room;
        };
      },
    )
unfolding dispatch_or_fail dispatch ◌>>=◌ send
denied_loudly env msg rpc payload w room d p a e r =
    rw (d, handle_denied env rpc payload w p a e, r) refl

abbrev Frozen : Tables → Perms → Tables → Perms → Type 0
Frozen t₀ p₀ t p = (t ≡ t₀) × (p ≡ p₀)

module _ (env : Env) (t₀ : Tables) (p₀ : Perms) (left : ℕ)
    (reader : has p₀ perm_report ≡ false) where
  perms_read : Ensures (On (Frozen t₀ p₀) left) (λ p. p ≡ p₀) (read_state (λ w. w.perms))
  unfolding read_state
  perms_read = record { after = λ w h. (h, h.holds.1) }

  reported-Frozen :
      (req : ReportRequest) (p : Perms)
      → p ≡ p₀
      → Keeps (On (Frozen t₀ p₀) left) (reported env req (has p perm_report))
  unfolding reported
  reported-Frozen req p e = rw (e, reader) (search read_rules)

  reported_equiv-Frozen :
      (req : ReportEquivRequest) (p : Perms)
      → p ≡ p₀
      → Keeps (On (Frozen t₀ p₀) left) (reported_equiv env req (has p perm_report))
  unfolding reported_equiv
  reported_equiv-Frozen req p e = rw (e, reader) (search read_rules)

  answered-Frozen :
      {R : Type 0} (f : Perms → M R) (reply : R → Message)
      → ((p : Perms) → p ≡ p₀ → Keeps (On (Frozen t₀ p₀) left) (f p))
      → Keeps
          (On (Frozen t₀ p₀) left)
          (read_state (λ w. w.perms) >>= λ p. f p >>= λ r. send (reply r))
  answered-Frozen f reply k =
      Ensures-bind (λ p. p ≡ p₀) _ _ perms_read λ p e. Keeps-bind _ _ (k p e) (λ r. search io_rules)

  handle_report-Frozen :
      (payload : Bytes) → Keeps (On (Frozen t₀ p₀) left) (handle_report env payload)
  unfolding handle_report
  handle_report-Frozen payload = Keeps-bind _ _ (search io_rules) λ _.
      Keeps-bind _ _ (search io_rules) λ req.
        Keeps-if (not (valid_unihash req.unihash)) _ _ (λ _. Keeps-fail _)
          λ _.
            answered-Frozen (λ p. reported env req (has p perm_report)) Message.unihash
              (reported-Frozen req)

  handle_report_equiv-Frozen :
      (payload : Bytes) → Keeps (On (Frozen t₀ p₀) left) (handle_report_equiv env payload)
  unfolding handle_report_equiv
  handle_report_equiv-Frozen payload = Keeps-bind _ _ (search io_rules) λ _.
      Keeps-bind _ _ (search io_rules) λ req.
        Keeps-if (not (valid_unihash req.unihash)) _ _ (λ _. Keeps-fail _)
          λ _.
            answered-Frozen (λ p. reported_equiv env req (has p perm_report)) Message.unihash
              (reported_equiv-Frozen req)

-- A connection that may not report writes nothing to the tables by its reports, with an outhash or
-- without, whatever they carry, and keeps its permissions.
pub reader_reports_nothing :
    (env : Env) (payload : Bytes) (w : World)
    → has w.perms perm_report ≡ false
    → ((handle_report env payload w).1.tables ≡ w.tables)
      × ((handle_report_equiv env payload w).1.tables ≡ w.tables)
      × ((handle_report env payload w).1.perms ≡ w.perms)
      × ((handle_report_equiv env payload w).1.perms ≡ w.perms)
reader_reports_nothing env payload w h =
    let start : On (Frozen w.tables w.perms) (length w.conn.inbox) w = record {
      holds = (refl, refl);
      short = omega arith;
    } in
    let a =
      (handle_report-Frozen env w.tables w.perms (length w.conn.inbox) h payload).after w start in
    let b =
      (handle_report_equiv-Frozen env w.tables w.perms (length w.conn.inbox) h payload).after w
        start in
    (a.holds.0, b.holds.0, a.holds.1, b.holds.1)
