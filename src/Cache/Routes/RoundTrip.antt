-- ===== src/Cache/Routes/RoundTrip.antt =====
-- Registry paths and the references they name.
use mathlib.Core.List.{append_assoc}
use bakery.Base.{
  ℕ, ◌+◌, ◌≡◌, refl, sym, ap, ◌∙◌, true, false, Option, none, some, [], ◌∷◌, ◌++◌, Bytes, codes,
  drop, take-length-append, drop-length-append, length-append, has_byte, starts_with, ltb, length,
  arith, is_some,
}
use bakery.Cache.Routes.{
  Kind, manifests, blobs, kind_name, marker, push_marker, Reference, found, push_path, trim_slash,
  is_empty, checked, cut_at, choose, unless_push, split_ref,
}
use bakery.Cache.Routes.Find.{
  last_index, last_index-append, last_index-before, last_index-none, is_some-last_index-append,
}

-- A name that splitRef is given as it stands: it is not empty and does not start with a slash.
abbrev pub IsName : Bytes → Type 0
IsName name = (is_empty name ≡ false) × (starts_with (codes "/") name ≡ false)

-- A reference fills one segment.
abbrev pub IsRef : Bytes → Type 0
IsRef ref = (is_empty ref ≡ false) × (has_byte b'/' ref ≡ false)

trim-append : (name s : Bytes) → IsName name → trim_slash (name ++ s) ≡ name ++ s
unfolding trim_slash starts_with
trim-append [] s h = cc
trim-append (c ∷ name) s h = ground (arith, h.1)

starts_with-slash :
    (q r : Bytes) → has_byte b'/' q ≡ true → has_byte b'/' r ≡ false → starts_with q r ≡ false
unfolding starts_with has_byte
starts_with-slash [] r h k = cc
starts_with-slash (c ∷ q) [] h k = refl
starts_with-slash (c ∷ q) (b ∷ r) h k = ground (arith, starts_with-slash q r)

-- The marker of a path's kind is its last: the reference behind it has no slash.
marker-last :
    (k : Kind) (ref : Bytes)
    → has_byte b'/' ref ≡ false
    → last_index (marker k) (marker k ++ ref) ≡ some 0
unfolding last_index starts_with has_byte
marker-last manifests ref h =
    rw
      (
        last_index-none (codes "manifests/") ref h,
        starts_with-slash (codes "manifests/") ref refl h,
      )
      refl
marker-last blobs ref h =
    rw (last_index-none (codes "blobs/") ref h, starts_with-slash (codes "blobs/") ref refl h) refl

abbrev other : Kind → Kind
other manifests = blobs
other blobs = manifests

marker-other :
    (k : Kind) (ref : Bytes)
    → has_byte b'/' ref ≡ false
    → last_index (marker (other k)) (marker k ++ ref) ≡ none
unfolding last_index starts_with has_byte
marker-other manifests ref h =
    rw (last_index-none (codes "blobs/") ref h, starts_with-slash (codes "blobs/") ref refl h) refl
marker-other blobs ref h =
    rw
      (
        last_index-none (codes "manifests/") ref h,
        starts_with-slash (codes "manifests/") ref refl h,
      )
      refl

pub length-marker : (k : Kind) → length (marker k) ≡ length (kind_name k) + 2
length-marker manifests = refl
length-marker blobs = refl

drop-marker : (name m ref : Bytes) → drop (length name + length m) (name ++ (m ++ ref)) ≡ ref
drop-marker name m ref =
    ap (λ i. drop i (name ++ (m ++ ref))) (sym (length-append name m))
    ∙ ap (λ s. drop (length (name ++ m)) s) (sym (append_assoc name m ref))
    ∙ drop-length-append (name ++ m) ref

checked-found :
    (name : Bytes) (k : Kind) (ref : Bytes)
    → is_empty name ≡ false
    → IsRef ref
    → checked name k ref ≡ found name k ref
unfolding checked
checked-found name k ref n r = rw (n, r.0, r.1) refl

cut_at-marker :
    (name ref : Bytes) (k : Kind)
    → IsName name
    → IsRef ref
    → cut_at (name ++ (marker k ++ ref)) (length name) k ≡ found name k ref
unfolding cut_at
cut_at-marker name ref k n r =
    let i : length name + length (kind_name k) + 2 ≡ length name + length (marker k) =
      omega (arith, length-marker k) in
    rw (take-length-append name (marker k ++ ref), i, drop-marker name (marker k) ref)
      (checked-found name k ref n.0 r)

marker-at :
    (name : Bytes) (k : Kind) (ref : Bytes)
    → has_byte b'/' ref ≡ false
    → last_index (marker k) (name ++ (marker k ++ ref)) ≡ some (length name)
marker-at name k ref h =
    last_index-append (marker k) name (marker k ++ ref) 0 (marker-last k ref h)
    ∙ ap some (omega arith)

choose-marker :
    (name ref : Bytes) (k : Kind) (o : Option ℕ)
    → last_index (marker (other k)) (name ++ (marker k ++ ref)) ≡ o
    → IsName name
    → IsRef ref
    → choose
        (name ++ (marker k ++ ref))
        (last_index (marker manifests) (name ++ (marker k ++ ref)))
        (last_index (marker blobs) (name ++ (marker k ++ ref)))
      ≡ found name k ref
unfolding choose
choose-marker name ref manifests none e n r =
    rw (e, marker-at name manifests ref r.1) (cut_at-marker name ref manifests n r)
choose-marker name ref manifests (some b) e n r =
    let before =
      last_index-before (marker blobs) name (marker manifests ++ ref) b
        (marker-other manifests ref r.1) e in
    let first : ltb b (length name) ≡ true = ground arith in
    rw (e, marker-at name manifests ref r.1, first) (cut_at-marker name ref manifests n r)
choose-marker name ref blobs none e n r =
    rw (e, marker-at name blobs ref r.1) (cut_at-marker name ref blobs n r)
choose-marker name ref blobs (some m) e n r =
    let before =
      last_index-before (marker manifests) name (marker blobs ++ ref) m (marker-other blobs ref r.1)
        e in
    let last : ltb (length name) m ≡ false = ground arith in
    rw (e, marker-at name blobs ref r.1, last) (cut_at-marker name ref blobs n r)

-- A name and a reference are read back from the path that joins them by a marker, whatever markers
-- the name holds, where the name is not empty and starts with no slash, the reference is one
-- segment that is not empty, and the path holds no /blobs/uploads.
pub split_ref-path :
    (name : Bytes) (k : Kind) (ref : Bytes)
    → IsName name
    → IsRef ref
    → last_index push_marker (name ++ (marker k ++ ref)) ≡ none
    → split_ref (name ++ (marker k ++ ref)) ≡ found name k ref
unfolding split_ref
split_ref-path name k ref n r p =
    rw (trim-append name (marker k ++ ref) n, p) (choose-marker name ref k _ refl n r)

unless_push-some : (o : Option ℕ) (r : Reference) → is_some o ≡ true → unless_push o r ≡ push_path
unless_push-some none r h = cc
unless_push-some (some i) r h = refl

-- Every path that holds /blobs/uploads behind a name is refused as a push, whatever comes after it;
-- the name is not empty and starts with no slash.
pub split_ref-push :
    (name rest : Bytes) → IsName name → split_ref (name ++ (push_marker ++ rest)) ≡ push_path
unfolding split_ref
split_ref-push name rest n =
    rw (trim-append name (push_marker ++ rest) n)
      (unless_push-some _ _ (is_some-last_index-append push_marker name rest))
