-- ===== src/Auth/PrincipalCache.antt =====
-- internal/auth/principalcache.go: one shard of the cache of user authorizations. An authorization is
-- a value of any type, and a user that does not exist is cached as none. A Go map is a list in the
-- order in which a loop yields it; every reading of the clock is an argument.
pub mod Staleness
pub mod Capacity
mod Tests
use bakery.Base.{
  ℕ, zero, suc, ◌+◌, ◌-◌, ◌≡◌, Bool, true, false, not, ◌&&◌, Option, none, some, List, [], ◌∷◌,
  ◌==◌, ltb, leb, if◌then◌else◌, length, keep,
}

-- 30 * time.Second
abbrev pub ttl : ℕ
ttl = 30_000_000_000

abbrev pub entries_per_shard : ℕ
entries_per_shard = 512

pub record Entry (A : Type 0) : Type 0 where
  pub user_id : ℕ
  pub epoch : ℕ
  pub authz : Option A
  pub expires : ℕ

-- What `fill` returns: `no_user` is an error that is pgx.ErrNoRows.
pub data Filled (A : Type 0) : Type 0 where
  found : A → Filled A
  no_user failing : Filled A

pub record Load (A : Type 0) : Type 0 where
  pub user_id : ℕ
  pub epoch : ℕ
  pub got_at : ℕ
  pub put_at : ℕ
  pub filled : Filled A
  pub order : List ℕ  -- the indexes that the loop of evictLocked yields

module _ {A : Type 0} where
  unfoldable pub is_key : ℕ → ℕ → Entry A → Bool
  is_key user epoch e = e.user_id == user && e.epoch == epoch

  abbrev pub lookup : ℕ → ℕ → List (Entry A) → Option (Entry A)
  lookup user epoch [] = none
  lookup user epoch (e ∷ es) = if is_key user epoch e then some e else lookup user epoch es

  -- delete(m, key)
  abbrev pub remove : ℕ → ℕ → List (Entry A) → List (Entry A)
  remove user epoch es = keep (λ e. not (is_key user epoch e)) es

  abbrev is_expired : ℕ → Entry A → Bool
  is_expired now e = ltb e.expires now

  abbrev pub from_entry :
      ℕ → ℕ → ℕ → List (Entry A) → Option (Entry A) → Option (Option A) × List (Entry A)
  from_entry now user epoch es none = (none, es)
  from_entry now user epoch es (some e) =
      if is_expired now e then (none, remove user epoch es) else (some e.authz, es)

  unfoldable pub get : ℕ → ℕ → ℕ → List (Entry A) → Option (Option A) × List (Entry A)
  unfolding is_key
  get now user epoch es = from_entry now user epoch es (lookup user epoch es)

  -- Past the end it deletes the last.
  abbrev pub delete_at : ℕ → List (Entry A) → List (Entry A)
  delete_at i [] = []
  delete_at i (e ∷ []) = []
  delete_at zero (e ∷ f ∷ es) = f ∷ es
  delete_at (suc i) (e ∷ f ∷ es) = e ∷ delete_at i (f ∷ es)

  -- `n` deletions, in any order.
  abbrev pub delete_some : ℕ → List ℕ → List (Entry A) → List (Entry A)
  delete_some zero order es = es
  delete_some (suc n) [] es = delete_some n [] (delete_at 0 es)
  delete_some (suc n) (i ∷ order) es = delete_some n order (delete_at i es)

  -- The expired entries go, then others until there is room for one.
  unfoldable pub evict : ℕ → List ℕ → List (Entry A) → List (Entry A)
  evict now order es =
      let live = keep (λ e. not (is_expired now e)) es in
      delete_some (suc (length live) - entries_per_shard) order live

  unfoldable pub put : ℕ → List ℕ → ℕ → ℕ → Option A → List (Entry A) → List (Entry A)
  unfolding is_key evict
  put now order user epoch authz es =
      let room = if leb entries_per_shard (length es) then evict now order es else es in
      record { user_id = user; epoch = epoch; authz = authz; expires = now + ttl }
      ∷ remove user epoch room

  -- The answer, none being an error, and the entries.
  abbrev pub after_fill : Load A → List (Entry A) → Filled A → Option (Option A) × List (Entry A)
  after_fill l es (found a) = (some (some a), put l.put_at l.order l.user_id l.epoch (some a) es)
  after_fill l es no_user = (some none, put l.put_at l.order l.user_id l.epoch none es)
  after_fill l es failing = (none, es)

  abbrev pub after_get :
      Load A → Option (Option A) × List (Entry A) → Option (Option A) × List (Entry A)
  after_get l (some a, es) = (some a, es)
  after_get l (none, es) = after_fill l es l.filled

  unfoldable pub load : Load A → List (Entry A) → Option (Option A) × List (Entry A)
  unfolding get put
  load l es = after_get l (get l.got_at l.user_id l.epoch es)

  -- The entries after some loads of an empty shard, the last load first.
  unfoldable pub after : List (Load A) → List (Entry A)
  unfolding load
  after [] = []
  after (l ∷ ls) = (load l (after ls)).1
