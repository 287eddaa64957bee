-- ===== src/Cache/Hashserv/Store.antt =====
-- internal/cache/hashserv/store.go: the store over the two tables, bound to one backend.
pub mod Grows
pub mod Answers
pub mod Equivalence
use bakery.Base.{
  ℕ, ◌+◌, Bool, true, false, not, ◌&&◌, ◌||◌, ◌==◌, Option, none, some, List, [], ◌∷◌, Bytes, codes,
  eq_bytes, if◌then◌else◌,
}
use bakery.Cache.Hashserv.Exec.{invoke, bad_filter, Result, ok, err, pure, fail, ◌>>=◌, ◌>>◌}
use bakery.Cache.Hashserv.Tables
use bakery.Cache.Hashserv.Tables.{Tables, UnihashRow, OuthashRow, Details}
use bakery.Cache.Hashserv.Protocol.{
  valid_unihash, ReportRequest, ReportEquivRequest, UnihashResponse, OuthashResponse,
}
use bakery.Cache.Hashserv.World.{M, query, ask}

-- upstreamLookup: a call fails, misses or answers, and its answers change from call to call.
pub record Upstream : Type 0 where
  pub get_unihash : Bytes → Bytes → ℕ → Result (Option Bytes)
  pub get_outhash : Bytes → Bytes → Bytes → ℕ → Result (Option OuthashResponse)
  pub unihash_exists : Bytes → ℕ → Result Bool

abbrev pub get_or : Option Bytes → Bytes → Bytes
get_or none d = d
get_or (some u) d = u

abbrev response : OuthashRow × Bytes → OuthashResponse
response (o, u) = record {
  method = o.method;
  taskhash = o.taskhash;
  outhash = o.outhash;
  details = o.details;
  unihash = u;
}

abbrev responses : Option (OuthashRow × Bytes) → Option OuthashResponse
responses none = none
responses (some r) = some (response r)

abbrev raw_response : Option OuthashRow → Option OuthashResponse
raw_response none = none
raw_response (some o) = some (response (o, []))

abbrev pub unihash_response : Bytes → Bytes → Bytes → UnihashResponse
unihash_response method taskhash unihash = record {
  taskhash = taskhash;
  method = method;
  unihash = unihash;
}

-- An answer of the upstream is adopted if it is well-formed; else the client's unihash is minted.
abbrev pub adopted_from : Bytes → Result (Option OuthashResponse) → Bytes × Bool
adopted_from minted (err e) = (minted, false)
adopted_from minted (ok none) = (minted, false)
adopted_from minted (ok (some row)) =
    if valid_unihash row.unihash then (row.unihash, true) else (minted, false)

abbrev pub no_row : {A : Type 0} → A → Bool
no_row r = false

module _ (backend_id : ℕ) where
  unfoldable pub get_unihash : Bytes → Bytes → M (Option Bytes)
  get_unihash method taskhash =
      query λ t. (Tables.find_unihash backend_id method taskhash t.unihashes, t)

  unfoldable pub unihash_exists : Bytes → M Bool
  unihash_exists unihash = query λ t. (Tables.unihash_exists backend_id unihash t.unihashes, t)

  abbrev insert_unihash_into : UnihashRow → Tables → Bool × Tables
  insert_unihash_into r t =
      let (rows, n) = Tables.insert_unihash r t.unihashes in (n == 1, record t { unihashes = rows })

  unfoldable pub insert_unihash : Bytes → Bytes → Bytes → M Bool
  insert_unihash method taskhash unihash = query (
      insert_unihash_into (record {
        backend_id = backend_id;
        method = method;
        taskhash = taskhash;
        unihash = unihash;
      }))

  abbrev insert_outhash_into : OuthashRow → Tables → Bool × Tables
  insert_outhash_into r t =
      let (rows, n) = Tables.insert_outhash r t.outhashes in (n == 1, record t { outhashes = rows })

  unfoldable pub insert_outhash : Bytes → Bytes → Bytes → Details → M Bool
  insert_outhash method taskhash outhash details = query (
      insert_outhash_into (record {
        backend_id = backend_id;
        method = method;
        taskhash = taskhash;
        outhash = outhash;
        details = details;
      }))

  unfoldable pub adopt :
      ReportRequest → Option Upstream → Option (OuthashRow × Bytes) → M (Bytes × Bool)
  adopt req up (some (o, unihash)) = pure (unihash, true)
  adopt req none none = pure (req.unihash, false)
  adopt req (some up) none = do
    answer ← ask (up.get_outhash req.method req.outhash req.taskhash)
    pure (adopted_from req.unihash answer)

  unfoldable pub resolve_unihash : ReportRequest → Option Upstream → M (Bytes × Bool)
  unfolding adopt
  resolve_unihash req up = do
    row ← query λ t. (Tables.get_equivalent backend_id req.method req.outhash req.taskhash t, t)
    adopt req up row

  -- What a new outhash row brings: the unihash that the task takes, and whether it was adopted.
  unfoldable pub map_task : ReportRequest → Option Upstream → M Bool
  unfolding resolve_unihash insert_unihash
  map_task req up = do
    resolved ← resolve_unihash req up
    inserted ← insert_unihash req.method req.taskhash resolved.0
    pure resolved.1

  unfoldable pub report : ReportRequest → Option Upstream → M (UnihashResponse × Bool)
  unfolding insert_outhash map_task get_unihash
  report req up = do
    new_row ← insert_outhash req.method req.taskhash req.outhash req.details
    equivalent ← if new_row then map_task req up else pure false
    stored ← get_unihash req.method req.taskhash
    pure (unihash_response req.method req.taskhash (get_or stored req.unihash), equivalent)

  unfoldable pub persist_upstream : OuthashResponse → M Bool
  unfolding insert_unihash insert_outhash
  persist_upstream row =
      if not (valid_unihash row.unihash) || eq_bytes row.taskhash [] then pure false else do
        inserted ← insert_unihash row.method row.taskhash row.unihash
        insert_outhash row.method row.taskhash row.outhash row.details

  unfoldable pub report_equiv : ReportEquivRequest → M UnihashResponse
  unfolding insert_unihash get_unihash
  report_equiv req = do
    inserted ← insert_unihash req.method req.taskhash req.unihash
    stored ← get_unihash req.method req.taskhash
    pure (unihash_response req.method req.taskhash (get_or stored req.unihash))

  unfoldable pub get_outhash : Bytes → Bytes → M (Option OuthashResponse)
  get_outhash method outhash =
      query λ t. (responses (Tables.get_outhash_with_unihash backend_id method outhash t), t)

  unfoldable pub get_outhash_raw : Bytes → Bytes → M (Option OuthashResponse)
  get_outhash_raw method outhash =
      query λ t. (raw_response (Tables.get_outhash backend_id method outhash t.outhashes), t)

  unfoldable pub get_unihash_full : Bytes → Bytes → M (Option OuthashResponse)
  get_unihash_full method taskhash =
      query λ t. (responses (Tables.get_unihash_full backend_id method taskhash t), t)

  abbrev known_or : Option OuthashResponse → Bytes → Bytes
  known_or none d = d
  known_or (some row) d = row.unihash

  unfoldable pub report_read_only : ReportRequest → M UnihashResponse
  unfolding get_outhash
  report_read_only req = do
    row ← get_outhash req.method req.outhash
    pure (unihash_response req.method req.taskhash (known_or row req.unihash))

  abbrev pub delete : (UnihashRow → Bool) → (OuthashRow → Bool) → M ℕ
  delete p q = query λ t. let (t', n) = Tables.delete_rows p q t in (n, t')

  unfoldable pub delete_both : (UnihashRow → Bool) → (OuthashRow → Bool) → M ℕ
  delete_both p q = do
    uni ← delete (λ r. r.backend_id == backend_id && p r) no_row
    out ← delete no_row (λ o. o.backend_id == backend_id && q o)
    pure (uni + out)

  -- Each statement deletes from one table; a failure of the second leaves the first done.
  unfoldable pub remove_by : Bytes → Bytes → M ℕ
  unfolding delete_both
  remove_by col val =
      if eq_bytes col (codes "taskhash")
      then delete_both (λ r. eq_bytes r.taskhash val) (λ o. eq_bytes o.taskhash val)
      else if eq_bytes col (codes "method")
      then delete_both (λ r. eq_bytes r.method val) (λ o. eq_bytes o.method val)
      else if eq_bytes col (codes "unihash")
      then delete (λ r. r.backend_id == backend_id && eq_bytes r.unihash val) no_row
      else if eq_bytes col (codes "outhash")
      then delete no_row (λ o. o.backend_id == backend_id && eq_bytes o.outhash val)
      else fail (invoke bad_filter)

  unfoldable pub remove : List (Bytes × Bytes) → M ℕ
  unfolding remove_by
  remove [] = fail (invoke bad_filter)
  remove ((col, val) ∷ []) = remove_by col val
  remove (_ ∷ _ ∷ _) = fail (invoke bad_filter)
