-- ===== src/Blob/Service/Views.antt =====
-- What the answers of a shard become under each operation.
use bakery.Base.{
  ℕ, ◌<◌, ◌≡◌, none, some, Bytes, eq_bytes, eq_bytes_iff, if◌then◌else◌, arith, Option-cases, inl,
  inr,
}
use bakery.Blob.Lru.Entries.{Meta, find, find-remove, key-find}
use bakery.Blob.Lru.{Shard, get, get_hit, insert_locked}
use bakery.Blob.Lru.Invariant.{IsValid, lookup-eq-find, get-IsValid, insert_locked-IsValid}
use bakery.Blob.Lru.Contents.{
  view, evicts, view-eq-find, insert_present, insert_absent, find-insert_new, find-refresh,
}

-- An insertion is read back at its key, and leaves every other key as it was but the evicted one.
pub view-insert_locked :
    (s : Shard) (k j : Bytes) (meta : Meta) (at : ℕ)
    → 0 < s.cap
    → IsValid s
    → view (insert_locked k meta at s).0 j
      ≡ (if eq_bytes k j then some meta else if evicts s k j then none else view s j)
view-insert_locked s k j meta at pos v =
    rw (view-eq-find (insert_locked k meta at s).0 (insert_locked-IsValid k meta at s v) j) (
      rw (view-eq-find s v j, view-eq-find s v k)
        (elim (Option-cases (find k s.ll)) [
          | inl e ↦
              rw (e, insert_absent s k meta at v e)
                (ground (arith, find-insert_new s k j meta at pos v e))
          | inr (e, p) ↦
              rw (p, insert_present s k meta at v e p)
                (ground (arith, find-refresh s k j meta at e v p))
        ]))

-- A read answers as before.
pub view-get :
    (s : Shard) (k j : Bytes) (now : ℕ) → 0 < now → IsValid s → view (get k now s).1 j ≡ view s j
view-get s k j now pos v =
    rw (view-eq-find (get k now s).1 (get-IsValid k now s pos v) j, view-eq-find s v j)
      (elim (Option-cases (find k s.ll)) [
        | inl e ↦ unfold get in ground (arith, lookup-eq-find s v.agrees k, e)
        | inr (e, p) ↦
            unfold get get_hit find in
            ground (
              arith,
              lookup-eq-find s v.agrees k,
              p,
              key-find k s.ll e p,
              find-remove k j s.ll v.distinct,
              eq_bytes_iff e.key j,
              eq_bytes_iff k j,
            )
      ])
