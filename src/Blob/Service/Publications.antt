-- ===== src/Blob/Service/Publications.antt =====
-- Publications, and the coherence of the cache with the rows.
use mathlib.Core.Path.{subst}
use bakery.Base.{
  ℕ, zero, suc, ◌+◌, ◌<◌, ◌^◌, ◌%◌, ◌≡◌, refl, sym, ap, ◌∙◌, false, Option, none, some, List, [],
  ◌∷◌, Bytes, eq_bytes, get_elem?, arith, inl, inr, All,
}
use bakery.Blob.Lru.Entries.{Meta}
use bakery.Blob.Lru.{Shard, bump, put, del, drop_key}
use bakery.Blob.Lru.Invariant.{IsValid}
use bakery.Blob.Lru.Runs.{put-IsValid, del-IsValid}
use bakery.Blob.Lru.Contents.{view, evicts, view-put, view-del}
use bakery.Blob.Service.{
  Object, absent, present, query_object, Probe, Publication, stored, dropped, gone, System, publish,
  finish, remove_at,
}
use bakery.Blob.Service.Coherence.{
  fact, Tells, key_of, is_writing, IsCurrent, IsFresh, AllCached, IsCoherent, insert_locked-shape,
}
use bakery.Blob.Service.Writes.{or-false, after-insert, after-removal, Tells-eq, waits}

put-shape :
    (k : Bytes) (m : Meta) (s : Shard)
    → ((put k m s).0.gen ≡ (s.gen + 1) % 2 ^ 64) × ((put k m s).0.cap ≡ s.cap)
unfolding put bump
put-shape k m s = insert_locked-shape k m 0 (bump s)

del-shape :
    (k : Bytes) (s : Shard) → ((del k s).gen ≡ (s.gen + 1) % 2 ^ 64) × ((del k s).cap ≡ s.cap)
unfolding del bump drop_key
del-shape k s = (ground arith, ground arith)

-- No probe from before a publication lands after it.
stale :
    (db : Bytes → Option Object) (w v : List Publication) (gen gen' : ℕ) (ps : List Probe)
    → gen < gen'
    → All (IsFresh db w gen) ps
    → All (IsFresh db v gen') ps
stale db w v gen gen' [] lt a = tt
stale db w v gen gen' (p ∷ ps) lt a = (
  (omega (arith, a.0.0), λ m h e o. absurd (omega (arith, a.0.0, e))),
  stale db w v gen gen' ps lt a.1,
)

is_writing-remove_at :
    (i : ℕ) (ws : List Publication) (w : Publication) (j : Bytes)
    → get_elem? ws i ≡ some w
    → is_writing (remove_at i ws) j ≡ false
    → eq_bytes (key_of w) j ≡ false
    → is_writing ws j ≡ false
unfolding remove_at
is_writing-remove_at i [] w j h e o = refl
is_writing-remove_at zero (v ∷ ws) w j h e o = let same : v ≡ w = cc in rw same (rw o e)
is_writing-remove_at (suc i) (v ∷ ws) w j h e o =
    let (a, b) = or-false (eq_bytes (key_of v) j) (is_writing (remove_at i ws) j) e in
    rw a (is_writing-remove_at i ws w j h b o)

remove_at-IsCurrent :
    (db : Bytes → Option Object) (i : ℕ) (ws : List Publication)
    → All (IsCurrent db) ws
    → All (IsCurrent db) (remove_at i ws)
unfolding remove_at
remove_at-IsCurrent db i [] a = tt
remove_at-IsCurrent db zero (w ∷ ws) a = a.1
remove_at-IsCurrent db (suc i) (w ∷ ws) a = (a.0, remove_at-IsCurrent db i ws a.1)

get_elem?-IsCurrent :
    (db : Bytes → Option Object) (i : ℕ) (ws : List Publication) (w : Publication)
    → All (IsCurrent db) ws
    → get_elem? ws i ≡ some w
    → IsCurrent db w
get_elem?-IsCurrent db i [] w a h = cc
get_elem?-IsCurrent db zero (v ∷ ws) w a h =
    let same : v ≡ w = cc in subst (λ x. IsCurrent db x) same a.0
get_elem?-IsCurrent db (suc i) (v ∷ ws) w a h = get_elem?-IsCurrent db i ws w a.1 h

module _ (db : Bytes → Option Object) (i : ℕ) (ws : List Publication) (w : Publication)
    (at : get_elem? ws i ≡ some w) (s : Shard) (v : IsValid s) (a : AllCached db ws s) where
  -- A publication of what the row says.
  put-cached :
      (new : Meta)
      → 0 < s.cap
      → Tells db (key_of w) new
      → AllCached db (remove_at i ws) (put (key_of w) new s).0
  put-cached new room t j m h o =
      elim (after-insert (eq_bytes (key_of w) j) (evicts s (key_of w) j) new (view s j) m
        (sym (view-put s (key_of w) j new room v) ∙ h)) [
          | inl (e, f) ↦ ap fact (sym f) ∙ Tells-eq db (key_of w) j new e t
          | inr (e, f) ↦ a j m f (is_writing-remove_at i ws w j at o e)
        ]

  del-cached : AllCached db (remove_at i ws) (del (key_of w) s)
  del-cached j m h o =
      let (e, f) =
        after-removal (eq_bytes (key_of w) j) (view s j) m (sym (view-del s (key_of w) j v) ∙ h) in
      a j m f (is_writing-remove_at i ws w j at o e)

Tells-row :
    (db : Bytes → Option Object) (k : Bytes) (row : Option Object) (m : Meta)
    → db k ≡ row
    → fact m ≡ fact (query_object row)
    → Tells db k m
Tells-row db k row m e t = t ∙ ap (λ r. fact (query_object r)) (sym e)

-- A shard that a publication leaves is coherent with the rows.
published :
    (n i : ℕ) (s : System) (new : Shard)
    → IsValid new
    → new.gen ≡ (s.shard.gen + 1) % 2 ^ 64
    → new.cap ≡ s.shard.cap
    → AllCached s.db (remove_at i s.writing) new
    → IsCoherent (suc n) s
    → IsCoherent n (record s { shard = new; writing = remove_at i s.writing })
published n i s new v gen cap a c =
    let grows : new.gen ≡ s.shard.gen + 1 = omega (arith, gen, c.counted) in
    record {
      valid = v;
      room = omega (arith, cap, c.room);
      counted = omega (arith, grows, c.counted);
      cached = a;
      current = remove_at-IsCurrent s.db i s.writing c.current;
      fresh =
          stale s.db s.writing (remove_at i s.writing) s.shard.gen new.gen s.probes
            (omega (arith, grows)) c.fresh;
    }

publish-IsCoherent :
    (n i now : ℕ) (w : Publication) (s : System)
    → get_elem? s.writing i ≡ some w
    → IsCoherent (suc n) s
    → IsCoherent n (record s { shard = publish now w s.shard; writing = remove_at i s.writing })
unfolding publish
publish-IsCoherent n i now (stored k o) s e c =
    let (gen, cap) = put-shape k (present now o) s.shard in
    let row = get_elem?-IsCurrent s.db i s.writing (stored k o) c.current e in
    published n i s (put k (present now o) s.shard).0
      (put-IsValid k (present now o) s.shard c.valid) gen cap
      (put-cached s.db i s.writing (stored k o) e s.shard c.valid c.cached (present now o) c.room
        (Tells-row s.db k (some o) (present now o) row (unfold query_object in refl)))
      c
publish-IsCoherent n i now (dropped k) s e c =
    let (gen, cap) = del-shape k s.shard in
    published n i s (del k s.shard) (del-IsValid k s.shard c.valid) gen cap
      (del-cached s.db i s.writing (dropped k) e s.shard c.valid c.cached) c
publish-IsCoherent n i now (gone k) s e c =
    let (gen, cap) = put-shape k absent s.shard in
    let row = get_elem?-IsCurrent s.db i s.writing (gone k) c.current e in
    published n i s (put k absent s.shard).0 (put-IsValid k absent s.shard c.valid) gen cap
      (put-cached s.db i s.writing (gone k) e s.shard c.valid c.cached absent c.room
        (Tells-row s.db k none absent row (unfold query_object in refl)))
      c

pub finish-IsCoherent :
    (n i now : ℕ) (s : System) (o : Option Publication)
    → get_elem? s.writing i ≡ o
    → IsCoherent (suc n) s
    → IsCoherent n (finish i now o s)
finish-IsCoherent n i now s none e c = waits n s c
finish-IsCoherent n i now s (some w) e c = publish-IsCoherent n i now w s e c
