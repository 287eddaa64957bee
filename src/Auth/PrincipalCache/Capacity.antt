-- ===== src/Auth/PrincipalCache/Capacity.antt =====
-- The size of a shard of internal/auth/principalcache.go.
use bakery.Base.{
  ℕ, zero, suc, ◌-◌, ◌≤◌, ◌≡◌, Bool, not, Option, none, some, List, [], ◌∷◌, length, keep, arith,
}
use bakery.Auth.PrincipalCache.{
  entries_per_shard, Entry, Filled, found, no_user, failing, Load, is_key, lookup, is_expired,
  from_entry, get, delete_at, delete_some, evict, put, after_fill, after_get, load, after,
}

module _ {A : Type 0} where
  length-keep : (q : Entry A → Bool) (es : List (Entry A)) → length (keep q es) ≤ length es
  length-keep q [] = omega arith
  length-keep q (e ∷ es) = ground (arith, length-keep q es)

  length-delete_at : (i : ℕ) (es : List (Entry A)) → length (delete_at i es) ≡ length es - 1
  length-delete_at i [] = omega arith
  length-delete_at i (e ∷ []) = omega arith
  length-delete_at zero (e ∷ f ∷ es) = omega arith
  length-delete_at (suc i) (e ∷ f ∷ es) = omega (arith, length-delete_at i (f ∷ es))

  length-delete_some :
      (n : ℕ) (order : List ℕ) (es : List (Entry A))
      → length (delete_some n order es) ≡ length es - n
  length-delete_some zero order es = omega arith
  length-delete_some (suc n) [] es =
      omega (arith, length-delete_some n [] (delete_at 0 es), length-delete_at 0 es)
  length-delete_some (suc n) (i ∷ order) es =
      omega (arith, length-delete_some n order (delete_at i es), length-delete_at i es)

  length-put :
      (now : ℕ) (order : List ℕ) (user epoch : ℕ) (authz : Option A) (es : List (Entry A))
      → length (put now order user epoch authz es) ≤ entries_per_shard
  unfolding put evict
  length-put now order user epoch authz es =
      let live = keep (λ e. not (is_expired now e)) es in
      let evicted = delete_some (suc (length live) - entries_per_shard) order live in
      let other : Entry A → Bool = λ e. not (is_key user epoch e) in
      ground (
        arith,
        length-keep other evicted,
        length-keep other es,
        length-delete_some (suc (length live) - entries_per_shard) order live,
      )

  length-from_entry :
      (now user epoch : ℕ) (es : List (Entry A)) (o : Option (Entry A))
      → length (from_entry now user epoch es o).1 ≤ length es
  length-from_entry now user epoch es none = omega arith
  length-from_entry now user epoch es (some e) =
      ground (arith, length-keep (λ e. not (is_key user epoch e)) es)

  length-after_fill :
      (l : Load A) (es : List (Entry A)) (f : Filled A)
      → length es ≤ entries_per_shard
      → length (after_fill l es f).1 ≤ entries_per_shard
  length-after_fill l es (found a) h = length-put l.put_at l.order l.user_id l.epoch (some a) es
  length-after_fill l es no_user h = length-put l.put_at l.order l.user_id l.epoch none es
  length-after_fill l es failing h = h

  length-after_get :
      (l : Load A) (g : Option (Option A) × List (Entry A))
      → length g.1 ≤ entries_per_shard
      → length (after_get l g).1 ≤ entries_per_shard
  length-after_get l (some a, es) h = h
  length-after_get l (none, es) h = length-after_fill l es l.filled h

-- A shard holds at most its 512 entries, whatever is loaded and evicted.
pub capacity_kept : {A : Type 0} (ls : List (Load A)) → length (after ls) ≤ entries_per_shard
unfolding after load get
capacity_kept [] = omega arith
capacity_kept (l ∷ ls) =
    let kept = lookup l.user_id l.epoch (after ls) in
    length-after_get l (from_entry l.got_at l.user_id l.epoch (after ls) kept) (
      omega (arith, length-from_entry l.got_at l.user_id l.epoch (after ls) kept, capacity_kept ls))
