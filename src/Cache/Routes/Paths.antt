-- ===== src/Cache/Routes/Paths.antt =====
-- What a registry path that parses is made of.
use mathlib.Core.List.{append_assoc}
use bakery.Base.{
  ℕ, ◌+◌, ◌≡◌, ◌≢◌, refl, sym, ap, ◌∙◌, Bool, true, false, ◌||◌, Option, none, some, [], ◌∷◌, ◌++◌,
  Bytes, codes, take, drop, has_byte, ltb, if◌then◌else◌, length, arith, ◌⊎◌, inl, inr,
  Option-cases, ◌↔◌,
}
use bakery.Cache.Routes.{
  Kind, manifests, blobs, kind_name, marker, push_marker, Reference, found, bad_ref, trim_slash,
  is_empty, checked, cut_at, choose, unless_push, split_ref, tags_suffix, nonempty, split_tags_list,
}
use bakery.Cache.Routes.Find.{last_index, last_index-found}
use bakery.Cache.Routes.RoundTrip.{length-marker}
use bakery.Cache.Routes.Cut.{cut_suffix, cut_suffix-found, cut_suffix-append}

-- The path is the name, the marker and the reference, and the last two checks were passed.
abbrev pub IsSplit : Bytes → Bytes → Kind → Bytes → Type 0
IsSplit path name k ref =
    (path ≡ name ++ (marker k ++ ref))
    × (is_empty name ≡ false)
    × (is_empty ref ≡ false)
    × (has_byte b'/' ref ≡ false)

if-found :
    (a b c : Bool) (n : Bytes) (k : Kind) (r name : Bytes) (kind : Kind) (ref : Bytes)
    → (if a || b || c then bad_ref else found n k r) ≡ found name kind ref
    → (n ≡ name) × (k ≡ kind) × (r ≡ ref) × (a ≡ false) × (b ≡ false) × (c ≡ false)
if-found true b c n k r name kind ref h = cc
if-found false true c n k r name kind ref h = cc
if-found false false true n k r name kind ref h = cc
if-found false false false n k r name kind ref h = (cc, cc, cc, refl, refl, refl)

if-either : (b : Bool) (x y z : Reference) → (if b then x else y) ≡ z → (x ≡ z) ⊎ (y ≡ z)
if-either true x y z h = inl h
if-either false x y z h = inr h

checked-found :
    (n : Bytes) (k : Kind) (r name : Bytes) (kind : Kind) (ref : Bytes)
    → checked n k r ≡ found name kind ref
    → (n ≡ name)
      × (k ≡ kind)
      × (r ≡ ref)
      × (is_empty n ≡ false)
      × (is_empty r ≡ false)
      × (has_byte b'/' r ≡ false)
unfolding checked
checked-found n k r name kind ref h =
    if-found (is_empty n) (is_empty r) (has_byte b'/' r) n k r name kind ref h

cut_at-IsSplit :
    (path : Bytes) (i : ℕ) (k : Kind) (name : Bytes) (kind : Kind) (ref : Bytes)
    → last_index (marker k) path ≡ some i
    → cut_at path i k ≡ found name kind ref
    → IsSplit path name kind ref
unfolding cut_at
cut_at-IsSplit path i k name kind ref h e =
    let rest = drop (i + length (kind_name k) + 2) path in
    let (n, same, r, some_name, some_ref, one) =
      checked-found (take i path) k rest name kind ref e in
    let at : i + length (marker k) ≡ i + length (kind_name k) + 2 =
      omega (arith, length-marker k) in
    (
      last_index-found (marker k) path i h
          ∙ ap (λ j. take i path ++ (marker k ++ drop j path)) at
          ∙ ap (λ a. a ++ (marker k ++ rest)) n
          ∙ ap (λ a. name ++ (marker a ++ rest)) same
          ∙ ap (λ a. name ++ (marker kind ++ a)) r,
      ap is_empty (sym n) ∙ some_name,
      ap is_empty (sym r) ∙ some_ref,
      ap (has_byte b'/') (sym r) ∙ one,
    )

choose-IsSplit :
    (path : Bytes) (m b : Option ℕ) (name : Bytes) (kind : Kind) (ref : Bytes)
    → last_index (marker manifests) path ≡ m
    → last_index (marker blobs) path ≡ b
    → choose path m b ≡ found name kind ref
    → IsSplit path name kind ref
unfolding choose
choose-IsSplit path none none name kind ref e f h = cc
choose-IsSplit path (some m) none name kind ref e f h =
    cut_at-IsSplit path m manifests name kind ref e h
choose-IsSplit path none (some b) name kind ref e f h =
    cut_at-IsSplit path b blobs name kind ref f h
choose-IsSplit path (some m) (some b) name kind ref e f h =
    elim (if-either (ltb b m) (cut_at path m manifests) (cut_at path b blobs) _ h) [
      | inl g ↦ cut_at-IsSplit path m manifests name kind ref e g
      | inr g ↦ cut_at-IsSplit path b blobs name kind ref f g
    ]

unless_push-found :
    (o : Option ℕ) (r : Reference) (name : Bytes) (k : Kind) (ref : Bytes)
    → unless_push o r ≡ found name k ref
    → r ≡ found name k ref
unless_push-found none r name k ref h = h
unless_push-found (some i) r name k ref h = cc

-- A path that splitRef accepts is the name, the marker of its kind and the reference, none of them
-- empty, and the reference is one segment.
pub split_ref-IsSplit :
    (rest name : Bytes) (k : Kind) (ref : Bytes)
    → split_ref rest ≡ found name k ref
    → IsSplit (trim_slash rest) name k ref
unfolding split_ref
split_ref-IsSplit rest name k ref h =
    choose-IsSplit (trim_slash rest) _ _ name k ref refl refl
      (unless_push-found (last_index push_marker (trim_slash rest)) _ name k ref h)

nonempty_iff :
    (o : Option Bytes) (name : Bytes)
    → (nonempty o ≡ some name) ↔ ((o ≡ some name) × (is_empty name ≡ false))
nonempty_iff none name = (λ h. cc, λ h. cc)
nonempty_iff (some []) [] = (λ h. cc, λ h. cc)
nonempty_iff (some []) (c ∷ s) = (λ h. cc, λ h. cc)
nonempty_iff (some (c ∷ s)) [] = (λ h. cc, λ h. cc)
nonempty_iff (some (c ∷ s)) (d ∷ t) = (λ h. (h, refl), λ h. h.0)

-- splitTagsList accepts exactly the paths that are a name with the suffix behind it.
pub split_tags_list_iff :
    (rest name : Bytes)
    → (split_tags_list rest ≡ some name)
      ↔ ((trim_slash rest ≡ name ++ tags_suffix) × (is_empty name ≡ false))
unfolding split_tags_list
split_tags_list_iff rest name =
    let cut = nonempty_iff (cut_suffix tags_suffix (trim_slash rest)) name in
    (
      λ h. (cut_suffix-found tags_suffix (trim_slash rest) name (cut.0 h).0, (cut.0 h).1),
      λ h. cut.1 (ap (cut_suffix tags_suffix) h.0 ∙ cut_suffix-append tags_suffix name, h.1),
    )

has_byte-append : (c : ℕ) (x r : Bytes) → has_byte c (x ++ c ∷ r) ≡ true
unfolding has_byte
has_byte-append c [] r = ground arith
has_byte-append c (b ∷ x) r = ground (arith, has_byte-append c x r)

last_slash_unique :
    (x y r t : Bytes)
    → has_byte b'/' r ≡ false
    → has_byte b'/' t ≡ false
    → x ++ b'/' ∷ r ≡ y ++ b'/' ∷ t
    → (x ≡ y) × (r ≡ t)
last_slash_unique [] [] r t h k e = (refl, cc)
last_slash_unique [] (d ∷ y) r t h k e =
    let f : r ≡ y ++ b'/' ∷ t = cc in let g = has_byte-append b'/' y t in cc
last_slash_unique (c ∷ x) [] r t h k e =
    let f : t ≡ x ++ b'/' ∷ r = cc in let g = has_byte-append b'/' x r in cc
last_slash_unique (c ∷ x) (d ∷ y) r t h k e =
    let (f, g) = last_slash_unique x y r t h k cc in (cc, g)

-- The segment before the last is the kind of one path and "tags" in the other.
path-tags :
    (name ref n : Bytes) (k : Kind)
    → has_byte b'/' ref ≡ false
    → name ++ (marker k ++ ref) ≢ n ++ tags_suffix
unfolding has_byte
path-tags name ref n manifests h e =
    let same =
      append_assoc name (codes "/manifests") (b'/' ∷ ref)
      ∙ e
      ∙ sym (append_assoc n (codes "/tags") (codes "/list")) in
    let before =
      (last_slash_unique (name ++ codes "/manifests") (n ++ codes "/tags") ref (codes "list") h refl
        same).0 in
    let word = (last_slash_unique name n (codes "manifests") (codes "tags") refl refl before).1 in
    cc
path-tags name ref n blobs h e =
    let same =
      append_assoc name (codes "/blobs") (b'/' ∷ ref)
      ∙ e
      ∙ sym (append_assoc n (codes "/tags") (codes "/list")) in
    let before =
      (last_slash_unique (name ++ codes "/blobs") (n ++ codes "/tags") ref (codes "list") h refl
        same).0 in
    let word = (last_slash_unique name n (codes "blobs") (codes "tags") refl refl before).1 in cc

-- No path that splitRef accepts is one that splitTagsList accepts.
pub split_ref-split_tags_list :
    (rest name : Bytes) (k : Kind) (ref : Bytes)
    → split_ref rest ≡ found name k ref
    → split_tags_list rest ≡ none
split_ref-split_tags_list rest name k ref h =
    let (path, _, _, one) = split_ref-IsSplit rest name k ref h in
    elim (Option-cases (split_tags_list rest)) [
      | inl e ↦ e
      | inr (n, e) ↦
          let (tags, _) = (split_tags_list_iff rest n).0 e in
          absurd (path-tags name ref n k one (sym path ∙ tags))
    ]
