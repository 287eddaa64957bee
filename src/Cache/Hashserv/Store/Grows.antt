-- ===== src/Cache/Hashserv/Store/Grows.antt =====
-- What the writes of internal/cache/hashserv/store.go leave alone: stored unihashes, other backends,
-- and the form of a unihash.
use bakery.Base.{
  ℕ, ◌≡◌, refl, Bool, true, false, not, ◌||◌, ◌==◌, Option, none, some, [], Bytes, eq_bytes, arith,
}
use bakery.Cache.Hashserv.Exec.{Result, ok, err}
use bakery.Cache.Hashserv.Exec.Keeps.{
  Keeps, Ensures, Ensures-bind, Ensures-chain, Ensures-pure, Keeps-Ensures, Keeps-bind, Keeps-pure,
  keeps_rules,
}
use bakery.Cache.Hashserv.Perms.{Perms}
use bakery.Cache.Hashserv.Protocol.{
  valid_unihash, ReportRequest, ReportEquivRequest, OuthashResponse,
}
use bakery.Cache.Hashserv.Tables
use bakery.Cache.Hashserv.Tables.{
  Tables, UnihashRow, OuthashRow, Details, find_unihash, first_joined,
}
use bakery.Cache.Hashserv.Tables.Laws.{find_unihash-insert, at_task_other, first_joined-found}
use bakery.Cache.Hashserv.World.Keeps.{On, query-Keeps, query-Ensures, ask-Keeps}
use bakery.Cache.Hashserv.Store.{
  Upstream, adopted_from, get_unihash, insert_unihash, insert_outhash, adopt, resolve_unihash,
  map_task, report, persist_upstream, report_equiv,
}

-- Since `t₀`, no stored unihash has changed or gone, the tasks of other backends are as they were, and
-- every unihash is well-formed.
pub record Grows (b : ℕ) (t₀ t : Tables) : Type 0 where
  pub kept :
      (c : ℕ) (m k u : Bytes)
      → find_unihash c m k t₀.unihashes ≡ some u
      → find_unihash c m k t.unihashes ≡ some u
  pub others :
      (c : ℕ) (m k : Bytes)
      → (c == b) ≡ false
      → find_unihash c m k t.unihashes ≡ find_unihash c m k t₀.unihashes
  pub valid :
      (c : ℕ) (m k u : Bytes) → find_unihash c m k t.unihashes ≡ some u → valid_unihash u ≡ true

module _ (b : ℕ) (t₀ : Tables) where
  insert-Grows :
      (t : Tables) (r : UnihashRow)
      → r.backend_id ≡ b
      → valid_unihash r.unihash ≡ true
      → Grows b t₀ t
      → Grows b t₀ (record t { unihashes = (Tables.insert_unihash r t.unihashes).0 })
  insert-Grows t r e v g = record {
    kept = λ c m k u h. ground (arith, g.kept c m k u h, find_unihash-insert c m k r t.unihashes);
    others = λ c m k o.
        ground
          (arith, g.others c m k o, find_unihash-insert c m k r t.unihashes, at_task_other c m k r);
    valid = λ c m k u h. ground (arith, g.valid c m k u, find_unihash-insert c m k r t.unihashes);
  }

-- The property of a session's state.
abbrev pub Since : ℕ → Tables → Tables → Perms → Type 0
Since b t₀ t p = Grows b t₀ t

-- A unihash that goes with a task is well-formed.
abbrev IsFit : Bytes × Bool → Type 0
IsFit r = valid_unihash r.0 ≡ true

abbrev IsFitRow : Option (OuthashRow × Bytes) → Type 0
IsFitRow none = Unit {0}
IsFitRow (some r) = valid_unihash r.1 ≡ true

adopted_from-IsFit :
    (minted : Bytes) (answer : Result (Option OuthashResponse))
    → valid_unihash minted ≡ true
    → IsFit (adopted_from minted answer)
adopted_from-IsFit minted (err e) v = v
adopted_from-IsFit minted (ok none) v = v
adopted_from-IsFit minted (ok (some row)) v = ground arith

joined-IsFitRow :
    (b : ℕ) (t₀ t : Tables) (r : Option (OuthashRow × Bytes)) (test : OuthashRow → Bool)
    → Grows b t₀ t
    → first_joined test t.unihashes t.outhashes ≡ r
    → IsFitRow r
joined-IsFitRow b t₀ t none test g h = tt
joined-IsFitRow b t₀ t (some (o, u)) test g h =
    g.valid o.backend_id o.method o.taskhash u
      (first_joined-found test t.unihashes t.outhashes o u h).1

module _ (b : ℕ) {t₀ : Tables} {left : ℕ} where
  get_unihash-Grows : (m k : Bytes) → Keeps (On (Since b t₀) left) (get_unihash b m k)
  unfolding get_unihash
  get_unihash-Grows m k = query-Keeps _ (λ t p h. h)

  pub insert_unihash-Grows :
      (m k u : Bytes)
      → valid_unihash u ≡ true
      → Keeps (On (Since b t₀) left) (insert_unihash b m k u)
  unfolding insert_unihash
  insert_unihash-Grows m k u v = query-Keeps _ (λ t p h. insert-Grows b t₀ t _ refl v h)

  pub insert_outhash-Grows :
      (m k o : Bytes) (d : Details) → Keeps (On (Since b t₀) left) (insert_outhash b m k o d)
  unfolding insert_outhash
  insert_outhash-Grows m k o d =
      query-Keeps _ (λ t p h. record { kept = h.kept; others = h.others; valid = h.valid })

  adopt-IsFit :
      (req : ReportRequest) (up : Option Upstream) (row : Option (OuthashRow × Bytes))
      → valid_unihash req.unihash ≡ true
      → IsFitRow row
      → Ensures (On (Since b t₀) left) IsFit (adopt b req up row)
  unfolding adopt
  adopt-IsFit req up (some (o, u)) v r = Ensures-pure IsFit (u, true) r
  adopt-IsFit req none none v r = Ensures-pure IsFit (req.unihash, false) v
  adopt-IsFit req (some up) none v r =
      Ensures-chain (λ a. Unit {0}) IsFit _ _ (Keeps-Ensures _ (ask-Keeps _))
        λ a q. Ensures-pure IsFit _ (adopted_from-IsFit req.unihash a v)

  resolve_unihash-IsFit :
      (req : ReportRequest) (up : Option Upstream)
      → valid_unihash req.unihash ≡ true
      → Ensures (On (Since b t₀) left) IsFit (resolve_unihash b req up)
  unfolding resolve_unihash Tables.get_equivalent
  resolve_unihash-IsFit req up v =
      Ensures-chain IsFitRow IsFit _ _
        (query-Ensures IsFitRow _ (λ t p h. (h, joined-IsFitRow b t₀ t _ _ h refl)))
        λ row r. adopt-IsFit req up row v r

  map_task-Grows :
      (req : ReportRequest) (up : Option Upstream)
      → valid_unihash req.unihash ≡ true
      → Keeps (On (Since b t₀) left) (map_task b req up)
  unfolding map_task
  map_task-Grows req up v =
      Ensures-bind IsFit _ _ (resolve_unihash-IsFit req up v) λ r q.
        Keeps-bind _ _ (insert_unihash-Grows req.method req.taskhash r.0 q) (λ n. Keeps-pure _)

  ruleset grows_rules =
      (keeps_rules, get_unihash-Grows, insert_unihash-Grows, insert_outhash-Grows, map_task-Grows)

  pub report-Grows :
      (req : ReportRequest) (up : Option Upstream)
      → valid_unihash req.unihash ≡ true
      → Keeps (On (Since b t₀) left) (report b req up)
  unfolding report
  report-Grows req up v = search grows_rules

  pub persist_upstream-Grows :
      (row : OuthashResponse) → Keeps (On (Since b t₀) left) (persist_upstream b row)
  unfolding persist_upstream
  persist_upstream-Grows row = search (grows_rules, fit)
    where
      fit :
          not (valid_unihash row.unihash) || eq_bytes row.taskhash [] ≡ false
          → valid_unihash row.unihash ≡ true
      fit h = ground arith

  pub report_equiv-Grows :
      (req : ReportEquivRequest)
      → valid_unihash req.unihash ≡ true
      → Keeps (On (Since b t₀) left) (report_equiv b req)
  unfolding report_equiv
  report_equiv-Grows req v = search grows_rules
