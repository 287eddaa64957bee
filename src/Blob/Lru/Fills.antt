-- ===== src/Blob/Lru/Fills.antt =====
-- The write generation: which database answers may still be cached when they arrive.
use bakery.Base.{
  ℕ, suc, ◌+◌, ◌%◌, ◌^◌, ◌<◌, ◌≡◌, ◌==◌, refl, true, false, List, [], ◌∷◌, Bytes, if◌then◌else◌,
  arith,
}
use bakery.Blob.Lru.Entries.{Meta}
use bakery.Blob.Lru.{
  Shard, get, insert_locked, bump, put, seq, put_if_unchanged, drop_key, del, drop_keys, del_batch,
  clear_mark, clear_marks, TouchMark,
}
use bakery.Blob.Lru.Runs.{Call, gets, puts, fills, dels, del_batches, clears, step, run}

-- The authoritative writes among some calls: each bumps the generation once.
abbrev pub writes : List Call → ℕ
writes [] = 0
writes (puts k meta ∷ cs) = suc (writes cs)
writes (dels k ∷ cs) = suc (writes cs)
writes (del_batches (k ∷ ks) ∷ cs) = suc (writes cs)
writes (_ ∷ cs) = writes cs

gen-insert_locked :
    (k : Bytes) (meta : Meta) (at : ℕ) (s : Shard) → (insert_locked k meta at s).0.gen ≡ s.gen
unfolding insert_locked
gen-insert_locked k meta at s = ground arith

gen-drop_key : (k : Bytes) (s : Shard) → (drop_key k s).gen ≡ s.gen
unfolding drop_key
gen-drop_key k s = ground arith

gen-drop_keys : (ks : List Bytes) (s : Shard) → (drop_keys ks s).gen ≡ s.gen
unfolding drop_keys
gen-drop_keys [] s = refl
gen-drop_keys (k ∷ ks) s = ground (arith, gen-drop_keys ks (drop_key k s), gen-drop_key k s)

gen-clear_marks : (ts : List TouchMark) (s : Shard) → (clear_marks ts s).gen ≡ s.gen
unfolding clear_marks clear_mark
gen-clear_marks [] s = refl
gen-clear_marks (t ∷ ts) s = ground (arith, gen-clear_marks ts (clear_mark t s))

abbrev bumps : Call → ℕ
bumps (puts k meta) = 1
bumps (dels k) = 1
bumps (del_batches (k ∷ ks)) = 1
bumps _ = 0

gen-step : (c : Call) (s : Shard) → s.gen < 2 ^ 64 → (step c s).gen ≡ (s.gen + bumps c) % 2 ^ 64
unfolding step
gen-step (gets k now) s h = unfold get in ground arith
gen-step (puts k meta) s h = unfold put bump in omega (arith, gen-insert_locked k meta 0 (bump s))
gen-step (fills k meta seq now) s h =
    unfold put_if_unchanged in
    ground (arith, gen-insert_locked k meta (if meta.exists then now else 0) s)
gen-step (dels k) s h = unfold del bump in omega (arith, gen-drop_key k (bump s))
gen-step (del_batches []) s h = unfold del_batch in omega arith
gen-step (del_batches (k ∷ ks)) s h =
    unfold del_batch bump in omega (arith, gen-drop_keys (k ∷ ks) (bump s))
gen-step (clears ts) s h = omega (arith, gen-clear_marks ts s)

writes-cons : (c : Call) (cs : List Call) → writes (c ∷ cs) ≡ bumps c + writes cs
writes-cons (gets k now) cs = omega arith
writes-cons (puts k meta) cs = omega arith
writes-cons (fills k meta seq now) cs = omega arith
writes-cons (dels k) cs = omega arith
writes-cons (del_batches []) cs = omega arith
writes-cons (del_batches (k ∷ ks)) cs = omega arith
writes-cons (clears ts) cs = omega arith

gen-run :
    (cs : List Call) (s : Shard) → s.gen < 2 ^ 64 → (run cs s).gen ≡ (s.gen + writes cs) % 2 ^ 64
unfolding run
gen-run [] s h = omega arith
gen-run (c ∷ cs) s h =
    omega (
      arith,
      gen-step c s h,
      gen-run cs (step c s) (omega (arith, gen-step c s h)),
      writes-cons c cs,
    )

-- A fill whose probe read the generation before some calls lands exactly when none of them was an
-- authoritative write to the shard, and one that does not land changes nothing. (Fewer than 2^64
-- writes happen during one probe.)
pub fill_lands_iff :
    (s : Shard) (cs : List Call) (k : Bytes) (meta : Meta) (now : ℕ)
    → s.gen < 2 ^ 64
    → writes cs < 2 ^ 64
    → let later = run cs s in
      let (s', added, evicted) = insert_locked k meta (if meta.exists then now else 0) later in
      put_if_unchanged k meta (seq s) now later
      ≡ (if writes cs == 0 then (true, s', added, evicted) else (false, later, false, false))
unfolding put_if_unchanged seq
fill_lands_iff s cs k meta now h few = ground (arith, gen-run cs s h)
