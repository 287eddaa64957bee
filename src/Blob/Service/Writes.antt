-- ===== src/Blob/Service/Writes.antt =====
-- Fills and commits, and the coherence of the cache with the rows.
use bakery.Base.{
  ℕ, zero, suc, ◌<◌, ◌≡◌, ◌==◌, refl, sym, ap, ◌∙◌, Bool, true, false, Option, none, some, List, [],
  ◌∷◌, Bytes, eq_bytes, eq_bytes_iff, eq_bytes_refl, get_elem?, if◌then◌else◌, arith, Option-cases,
  Bool-cases, inl, inr, ◌⊎◌, ◌||◌, All,
}
use bakery.Blob.Lru.Entries.{Meta}
use bakery.Blob.Lru.{Shard, put_if_unchanged}
use bakery.Blob.Lru.Invariant.{IsValid}
use bakery.Blob.Lru.Runs.{put_if_unchanged-IsValid}
use bakery.Blob.Lru.Contents.{view, evicts}
use bakery.Blob.Service.{
  Object, query_object, Probe, Publication, stored, dropped, gone, commit, System, set_row,
  remove_at, fill, land, lands, commits_put, commits_delete, act,
}
use bakery.Blob.Service.Views.{view-insert_locked}
use bakery.Blob.Service.Coherence.{
  fact, Tells, key_of, is_writing, IsCurrent, IsFresh, AllCached, IsCoherent, insert_locked-shape,
}

-- An answer after an insertion is the inserted one or one from before.
pub after-insert :
    (b c : Bool) (new : Meta) (old : Option Meta) (m : Meta)
    → (if b then some new else if c then none else old) ≡ some m
    → ((b ≡ true) × (new ≡ m)) ⊎ ((b ≡ false) × (old ≡ some m))
after-insert true c new old m h = inl (refl, cc)
after-insert false true new old m h = cc
after-insert false false new old m h = inr (refl, h)

pub after-removal :
    (b : Bool) (old : Option Meta) (m : Meta)
    → (if b then none else old) ≡ some m
    → (b ≡ false) × (old ≡ some m)
after-removal true old m h = cc
after-removal false old m h = (refl, h)

-- An answer that tells the row of one key tells that of an equal key.
pub Tells-eq :
    (db : Bytes → Option Object) (k j : Bytes) (m : Meta)
    → eq_bytes k j ≡ true
    → Tells db k m
    → Tells db j m
Tells-eq db k j m e t = t ∙ ap (λ i. fact (query_object (db i))) ((eq_bytes_iff k j).0 e)

is_writing-eq :
    (w : List Publication) (k j : Bytes)
    → eq_bytes k j ≡ true
    → is_writing w j ≡ false
    → is_writing w k ≡ false
is_writing-eq w k j e h = ap (is_writing w) ((eq_bytes_iff k j).0 e) ∙ h

put_if_unchanged-shape :
    (k : Bytes) (m : Meta) (q now : ℕ) (s : Shard)
    → ((put_if_unchanged k m q now s).1.gen ≡ s.gen)
      × ((put_if_unchanged k m q now s).1.cap ≡ s.cap)
unfolding put_if_unchanged
put_if_unchanged-shape k m q now s =
    let (g, c) = insert_locked-shape k m (if m.exists then now else 0) s in
    elim (Bool-cases (s.gen == q)) [ inl e ↦ rw e (g, c) | inr e ↦ rw e (refl, refl) ]

-- A probe that finds its generation fills the cache with the row.
put_if_unchanged-cached :
    (db : Bytes → Option Object) (w : List Publication) (now : ℕ) (s : Shard) (k : Bytes) (q : ℕ)
    (meta : Meta)
    → 0 < s.cap
    → IsValid s
    → AllCached db w s
    → (q ≡ s.gen → is_writing w k ≡ false → Tells db k meta)
    → AllCached db w (put_if_unchanged k meta q now s).1
unfolding put_if_unchanged
put_if_unchanged-cached db w now s k q meta room v a f = elim (Bool-cases (s.gen == q)) [
  | inr e ↦ rw e a
  | inl e ↦ rw e (λ j m h o.
      elim (after-insert (eq_bytes k j) (evicts s k j) meta (view s j) m
        (sym (view-insert_locked s k j meta _ room v) ∙ h)) [
          | inl (same, new) ↦
              ap fact (sym new)
              ∙ Tells-eq db k j meta same (f (ground arith) (is_writing-eq w k j same o))
          | inr (other, old) ↦ a j m old o
        ])
]

remove_at-IsFresh :
    (db : Bytes → Option Object) (w : List Publication) (gen i : ℕ) (ps : List Probe)
    → All (IsFresh db w gen) ps
    → All (IsFresh db w gen) (remove_at i ps)
unfolding remove_at
remove_at-IsFresh db w gen i [] a = tt
remove_at-IsFresh db w gen zero (p ∷ ps) a = a.1
remove_at-IsFresh db w gen (suc i) (p ∷ ps) a = (a.0, remove_at-IsFresh db w gen i ps a.1)

get_elem?-IsFresh :
    (db : Bytes → Option Object) (w : List Publication) (gen i : ℕ) (ps : List Probe) (p : Probe)
    → All (IsFresh db w gen) ps
    → get_elem? ps i ≡ some p
    → IsFresh db w gen p
get_elem?-IsFresh db w gen i [] p a h = cc
get_elem?-IsFresh db w gen zero (q ∷ ps) p a h = let same : p ≡ q = cc in rw same a.0
get_elem?-IsFresh db w gen (suc i) (q ∷ ps) p a h = get_elem?-IsFresh db w gen i ps p a.1 h

-- The landing of one probe, whether its answer is there or not.
fill-IsCoherent :
    (n i now : ℕ) (s : System) (p : Probe) (o : Option Meta)
    → p.answer ≡ o
    → IsFresh s.db s.writing s.shard.gen p
    → IsCoherent (suc n) s
    → IsCoherent n (record s { shard = fill now p o s.shard; probes = remove_at i s.probes })
fill-IsCoherent n i now s p none e f c = record {
  valid = c.valid;
  room = c.room;
  counted = omega (arith, c.counted);
  cached = c.cached;
  current = c.current;
  fresh = remove_at-IsFresh s.db s.writing s.shard.gen i s.probes c.fresh;
}
fill-IsCoherent n i now s p (some meta) e f c =
    let (gen, cap) = put_if_unchanged-shape p.key meta p.seq now s.shard in
    record {
      valid = put_if_unchanged-IsValid p.key meta p.seq now s.shard c.valid;
      room = omega (arith, c.room, cap);
      counted = omega (arith, c.counted, gen);
      cached =
          put_if_unchanged-cached s.db s.writing now s.shard p.key p.seq meta c.room c.valid
            c.cached (f.1 meta e);
      current = c.current;
      fresh = rw gen (remove_at-IsFresh s.db s.writing s.shard.gen i s.probes c.fresh);
    }

pub waits : (n : ℕ) (s : System) → IsCoherent (suc n) s → IsCoherent n s
waits n s c = record {
  valid = c.valid;
  room = c.room;
  counted = omega (arith, c.counted);
  cached = c.cached;
  current = c.current;
  fresh = c.fresh;
}

pub lands-IsCoherent :
    (n i now : ℕ) (s : System) → IsCoherent (suc n) s → IsCoherent n (act (lands i now) s)
unfolding act land
lands-IsCoherent n i now s c = elim (Option-cases (get_elem? s.probes i)) [
  | inl e ↦ rw e (waits n s c)
  | inr (p, e) ↦ rw e (
      fill-IsCoherent n i now s p p.answer refl
        (get_elem?-IsFresh s.db s.writing s.shard.gen i s.probes p c.fresh e) c)
]

pub or-false : (a b : Bool) → (a || b) ≡ false → (a ≡ false) × (b ≡ false)
or-false true b h = absurd (ground arith)
or-false false b h = (refl, h)

eq_bytes-false : (s t : Bytes) → eq_bytes s t ≡ false → eq_bytes t s ≡ false
eq_bytes-false s t h = ground (arith, eq_bytes_iff s t, eq_bytes_iff t s)

set_row-same :
    (key : Bytes) (row : Option Object) (db : Bytes → Option Object) → set_row key row db key ≡ row
unfolding set_row
set_row-same key row db = rw (eq_bytes_refl key) refl

set_row-other :
    (key k : Bytes) (row : Option Object) (db : Bytes → Option Object)
    → eq_bytes key k ≡ false
    → set_row key row db k ≡ db k
unfolding set_row
set_row-other key k row db o = rw o refl

Tells-other :
    (key k : Bytes) (row : Option Object) (db : Bytes → Option Object) (m : Meta)
    → eq_bytes key k ≡ false
    → Tells db k m
    → Tells (set_row key row db) k m
Tells-other key k row db m o t =
    t ∙ ap (λ r. fact (query_object r)) (sym (set_row-other key k row db o))

module _ (key : Bytes) (row : Option Object) (db : Bytes → Option Object) where
  IsCurrent-other :
      (w : Publication)
      → eq_bytes (key_of w) key ≡ false
      → IsCurrent db w
      → IsCurrent (set_row key row db) w
  IsCurrent-other (stored k o) e c = set_row-other key k row db (eq_bytes-false k key e) ∙ c
  IsCurrent-other (dropped k) e c = tt
  IsCurrent-other (gone k) e c = set_row-other key k row db (eq_bytes-false k key e) ∙ c

  IsCurrent-others :
      (ws : List Publication)
      → is_writing ws key ≡ false
      → All (IsCurrent db) ws
      → All (IsCurrent (set_row key row db)) ws
  IsCurrent-others [] e c = tt
  IsCurrent-others (w ∷ ws) e c =
      let (a, b) = or-false (eq_bytes (key_of w) key) (is_writing ws key) e in
      (IsCurrent-other w a c.0, IsCurrent-others ws b c.1)

  -- A probe that is fresh stays so for the keys that are not being written.
  commit-IsFresh :
      (w : Publication) (ws : List Publication) (gen : ℕ) (ps : List Probe)
      → key_of w ≡ key
      → All (IsFresh db ws gen) ps
      → All (IsFresh (set_row key row db) (w ∷ ws) gen) ps
  commit-IsFresh w ws gen [] k a = tt
  commit-IsFresh w ws gen (p ∷ ps) k a = (
    (
      a.0.0,
      λ m h e o.
          let (x, y) = or-false (eq_bytes (key_of w) p.key) (is_writing ws p.key) o in
          Tells-other key p.key row db m (ap (λ i. eq_bytes i p.key) (sym k) ∙ x) (a.0.1 m h e y),
    ),
    commit-IsFresh w ws gen ps k a.1,
  )

commit-IsCoherent :
    (n : ℕ) (key : Bytes) (row : Option Object) (w : Publication) (s : System)
    → key_of w ≡ key
    → is_writing s.writing key ≡ false
    → IsCurrent (set_row key row s.db) w
    → IsCoherent (suc n) s
    → IsCoherent n (commit key row w s)
commit-IsCoherent n key row w s k free t c = record {
  valid = c.valid;
  room = c.room;
  counted = omega (arith, c.counted);
  cached = λ j m h o.
      let (x, y) = or-false (eq_bytes (key_of w) j) (is_writing s.writing j) o in
      Tells-other key j row s.db m (ap (λ i. eq_bytes i j) (sym k) ∙ x) (c.cached j m h y);
  current = (t, IsCurrent-others key row s.db s.writing free c.current);
  fresh = commit-IsFresh key row s.db w s.writing s.shard.gen s.probes k c.fresh;
}

pub commits_put-IsCoherent :
    (n : ℕ) (key : Bytes) (o : Object) (created : Bool) (s : System)
    → is_writing s.writing key ≡ false
    → IsCoherent (suc n) s
    → IsCoherent n (act (commits_put key o created) s)
unfolding act
commits_put-IsCoherent n key o true s free c =
    commit-IsCoherent n key (some o) (stored key o) s refl free (set_row-same key (some o) s.db) c
commits_put-IsCoherent n key o false s free c =
    commit-IsCoherent n key (s.db key) (dropped key) s refl free tt c

pub commits_delete-IsCoherent :
    (n : ℕ) (key : Bytes) (s : System)
    → is_writing s.writing key ≡ false
    → IsCoherent (suc n) s
    → IsCoherent n (act (commits_delete key) s)
unfolding act
commits_delete-IsCoherent n key s free c =
    commit-IsCoherent n key none (gone key) s refl free (set_row-same key none s.db) c
