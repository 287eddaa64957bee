-- ===== src/Auth/PrincipalCache/Staleness.antt =====
-- How old an answer of internal/auth/principalcache.go may be.
use bakery.Base.{
  ℕ, zero, suc, ◌+◌, ◌≤◌, ◌≡◌, refl, sym, ap, ◌∙◌, Bool, not, Option, none, some, List, [], ◌∷◌,
  ==_iff, leb, if◌then◌else◌, length, keep, All, get_elem?, arith, Bool-cases, inl, inr,
}
use mathlib.Core.Path.{subst}
use bakery.Auth.PrincipalCache.{
  ttl, Entry, Filled, found, no_user, failing, Load, is_key, lookup, remove, is_expired, get, evict,
  delete_at, delete_some, entries_per_shard, put, from_entry, after_fill, after_get, load, after,
}

module _ {A : Type 0} where
  abbrev pub answer : Filled A → Option (Option A)
  answer (found a) = some (some a)
  answer no_user = some none
  answer failing = none

  -- One of the loads filled this value for the user and epoch.
  pub record Filling (ls : List (Load A)) (user epoch : ℕ) (authz : Option A) (expires : ℕ)
      : Type 0 where
    pub index : ℕ
    pub one : Load A
    pub among : get_elem? ls index ≡ some one
    pub same_user : one.user_id ≡ user
    pub same_epoch : one.epoch ≡ epoch
    pub answered : answer one.filled ≡ some authz
    pub kept : expires ≡ one.put_at + ttl

  abbrev Justified : List (Load A) → Entry A → Type 0
  Justified ls e = Filling ls e.user_id e.epoch e.authz e.expires

  weaken : (l : Load A) (ls : List (Load A)) (e : Entry A) → Justified ls e → Justified (l ∷ ls) e
  weaken l ls e j = record {
    index = suc j.index;
    one = j.one;
    among = j.among;
    same_user = j.same_user;
    same_epoch = j.same_epoch;
    answered = j.answered;
    kept = j.kept;
  }

  All-weaken :
      (l : Load A) (ls : List (Load A)) (es : List (Entry A))
      → All (Justified ls) es
      → All (Justified (l ∷ ls)) es
  All-weaken l ls [] h = tt
  All-weaken l ls (e ∷ es) h = (weaken l ls e h.0, All-weaken l ls es h.1)

  All-keep :
      (P : Entry A → Type 0) (q : Entry A → Bool) (es : List (Entry A))
      → All P es
      → All P (keep q es)
  All-keep P q [] h = tt
  All-keep P q (e ∷ es) h = elim (Bool-cases (q e)) [
    | inl t ↦ rw t (h.0, All-keep P q es h.1)
    | inr t ↦ rw t (All-keep P q es h.1)
  ]

  All-delete_at :
      (P : Entry A → Type 0) (i : ℕ) (es : List (Entry A)) → All P es → All P (delete_at i es)
  All-delete_at P i [] h = tt
  All-delete_at P i (e ∷ []) h = tt
  All-delete_at P zero (e ∷ f ∷ es) h = h.1
  All-delete_at P (suc i) (e ∷ f ∷ es) h = (h.0, All-delete_at P i (f ∷ es) h.1)

  All-delete_some :
      (P : Entry A → Type 0) (n : ℕ) (order : List ℕ) (es : List (Entry A))
      → All P es
      → All P (delete_some n order es)
  All-delete_some P zero order es h = h
  All-delete_some P (suc n) [] es h = All-delete_some P n [] _ (All-delete_at P 0 es h)
  All-delete_some P (suc n) (i ∷ order) es h = All-delete_some P n order _ (All-delete_at P i es h)

  All-put :
      (P : Entry A → Type 0) (now : ℕ) (order : List ℕ) (user epoch : ℕ) (authz : Option A)
      (es : List (Entry A))
      → All P es
      → P (record { user_id = user; epoch = epoch; authz = authz; expires = now + ttl })
      → All P (put now order user epoch authz es)
  unfolding put evict
  All-put P now order user epoch authz es h p =
      let evicted : All P (evict now order es) =
        All-delete_some P _ order _ (All-keep P (λ e. not (is_expired now e)) es h) in
      elim (Bool-cases (leb entries_per_shard (length es))) [
        | inl t ↦ rw t (p, All-keep P _ _ evicted)
        | inr t ↦ rw t (p, All-keep P _ es h)
      ]

  lookup-All :
      (P : Entry A → Type 0) (user epoch : ℕ) (es : List (Entry A)) (e : Entry A)
      → All P es
      → lookup user epoch es ≡ some e
      → P e × (e.user_id ≡ user) × (e.epoch ≡ epoch)
  unfolding is_key
  lookup-All P user epoch [] e h l = absurd (cc)
  lookup-All P user epoch (x ∷ es) e h l = elim (Bool-cases (is_key user epoch x)) [
    | inl t ↦
        let same : x ≡ e = ground (arith, l) in
        (
          subst P same h.0,
          ground (arith, ==_iff e.user_id user),
          ground (arith, ==_iff e.epoch epoch),
        )
    | inr t ↦ lookup-All P user epoch es e h.1 (ground (arith, l))
  ]

  entry-All :
      (P : Entry A → Type 0) (now user epoch : ℕ) (es : List (Entry A)) (o : Option (Entry A))
      → All P es
      → All P (from_entry now user epoch es o).1
  entry-All P now user epoch es none h = h
  entry-All P now user epoch es (some e) h = elim (Bool-cases (is_expired now e)) [
    | inl t ↦ rw t (All-keep P _ es h)
    | inr t ↦ rw t h
  ]

  fill-Justified :
      (ls : List (Load A)) (l : Load A) (es : List (Entry A)) (f : Filled A)
      → l.filled ≡ f
      → All (Justified (l ∷ ls)) es
      → All (Justified (l ∷ ls)) (after_fill l es f).1
  fill-Justified ls l es (found a) e h =
      All-put (Justified (l ∷ ls)) l.put_at l.order l.user_id l.epoch (some a) es h (record {
        index = 0;
        one = l;
        among = refl;
        same_user = refl;
        same_epoch = refl;
        answered = rw e refl;
        kept = refl;
      })
  fill-Justified ls l es no_user e h =
      All-put (Justified (l ∷ ls)) l.put_at l.order l.user_id l.epoch none es h (record {
        index = 0;
        one = l;
        among = refl;
        same_user = refl;
        same_epoch = refl;
        answered = rw e refl;
        kept = refl;
      })
  fill-Justified ls l es failing e h = h

  got-Justified :
      (ls : List (Load A)) (l : Load A) (g : Option (Option A) × List (Entry A))
      → All (Justified (l ∷ ls)) g.1
      → All (Justified (l ∷ ls)) (after_get l g).1
  got-Justified ls l (some a, es) h = h
  got-Justified ls l (none, es) h = fill-Justified ls l es l.filled refl h

  after-Justified : (ls : List (Load A)) → All (Justified ls) (after ls)
  unfolding after load get
  after-Justified [] = tt
  after-Justified (l ∷ ls) =
      let kept = lookup l.user_id l.epoch (after ls) in
      got-Justified ls l (from_entry l.got_at l.user_id l.epoch (after ls) kept) (
        entry-All (Justified (l ∷ ls)) l.got_at l.user_id l.epoch (after ls) kept
          (All-weaken l ls (after ls) (after-Justified ls)))

  -- What a load answers without an error.
  pub data Answered (ls : List (Load A)) (l : Load A) (a : Option A) : Type 0 where
    now : answer l.filled ≡ some a → Answered ls l a
    cached :
        (expires : ℕ)
        → Filling ls l.user_id l.epoch a expires
        → l.got_at ≤ expires
        → Answered ls l a

  fill-Answered :
      (ls : List (Load A)) (l : Load A) (es : List (Entry A)) (f : Filled A) (a : Option A)
      → l.filled ≡ f
      → (after_fill l es f).0 ≡ some a
      → Answered ls l a
  fill-Answered ls l es (found b) a e h = now (rw e h)
  fill-Answered ls l es no_user a e h = now (rw e h)
  fill-Answered ls l es failing a e h = absurd (cc)

  entry-Answered :
      (ls : List (Load A)) (l : Load A) (es : List (Entry A)) (o : Option (Entry A)) (a : Option A)
      → All (Justified ls) es
      → lookup l.user_id l.epoch es ≡ o
      → (after_get l (from_entry l.got_at l.user_id l.epoch es o)).0 ≡ some a
      → Answered ls l a
  entry-Answered ls l es none a j e h = fill-Answered ls l es l.filled a refl h
  entry-Answered ls l es (some x) a j e h =
      let (found_in, user, epoch) = lookup-All (Justified ls) l.user_id l.epoch es x j e in
      let at : Bool → Option (Option A) = λ b.
        (after_get l (if b then (none, remove l.user_id l.epoch es) else (some x.authz, es))).0 in
      elim (Bool-cases (is_expired l.got_at x)) [
        | inl t ↦
            fill-Answered ls l (remove l.user_id l.epoch es) l.filled a refl (sym (ap at t) ∙ h)
        | inr t ↦
            let same : some x.authz ≡ some a = sym (ap at t) ∙ h in
            cached x.expires
              (record {
                index = found_in.index;
                one = found_in.one;
                among = found_in.among;
                same_user = found_in.same_user ∙ user;
                same_epoch = found_in.same_epoch ∙ epoch;
                answered = found_in.answered ∙ same;
                kept = found_in.kept;
              })
              (ground (arith, t))
      ]

-- After any loads of an empty shard, whatever it evicts, a load that answers without an error answers
-- what its own fill does, or what an earlier load of the same user and the same epoch was filled
-- with no longer than the time to live before this load.
pub load_answers :
    {A : Type 0} (ls : List (Load A)) (l : Load A) (a : Option A)
    → (load l (after ls)).0 ≡ some a
    → Answered ls l a
unfolding load get
load_answers ls l a h =
    entry-Answered ls l (after ls) (lookup l.user_id l.epoch (after ls)) a (after-Justified ls) refl
      h
