-- ===== src/Cache/Policy/Laws.antt =====
-- The keys that internal/cache/httpblob/policy.go accepts, as paths.
use mathlib.Core.List.{append-nil}
use bakery.Base.{
  ℕ, ◌≡◌, refl, sym, ap, ◌∙◌, Bool, true, false, ◌||◌, List, [], ◌∷◌, ◌++◌, Bytes, codes, any,
  eq_bytes, has_byte, starts_with, ltb, ◌==◌, if◌then◌else◌, length, split, join, arith, split-one,
  join-split,
}
use bakery.Cache.Policy.{
  is_hex_byte, is_lower_hex, is_hex, max_ac_key_len, KeyKind, siginfo, object, cas, ac, file,
  sccache, Classified, accepted, bad_key, is_empty, bad_segment, bad_path, classify_sstate,
  classify_downloads, classify_cas, classify_ac, classify_sccache,
}

abbrev parent : List Bytes → List Bytes
parent [] = []
parent (_ ∷ above) = above

-- One step of the lexical resolution of a path, on the segments that are resolved, the last first:
-- "" and "." stay, ".." goes up and at the root stays.
unfoldable pub enter : List Bytes → Bytes → List Bytes
enter dir seg =
    if is_empty seg || eq_bytes seg (codes ".")
    then dir
    else if eq_bytes seg (codes "..")
    then parent dir
    else seg ∷ dir

-- The directory that a path leads to.
unfoldable pub resolve : List Bytes → List Bytes → List Bytes
resolve dir [] = dir
resolve dir (s ∷ segs) = resolve (enter dir s) segs

abbrev pub onto : List Bytes → List Bytes → List Bytes
onto [] dir = dir
onto (s ∷ segs) dir = onto segs (s ∷ dir)

-- The shortest path that leads to the same place, below the root.
abbrev pub clean : Bytes → Bytes
clean path = join b'/' (onto (resolve [] (split b'/' path)) [])

or-false : (a b : Bool) → (a || b) ≡ false → (a ≡ false) × (b ≡ false)
or-false true b h = absurd (ground arith)
or-false false b h = (refl, h)

enter-good : (dir : List Bytes) (s : Bytes) → bad_segment s ≡ false → enter dir s ≡ s ∷ dir
unfolding enter bad_segment
enter-good dir s h = ground arith

resolve-good :
    (dir segs : List Bytes) → any bad_segment segs ≡ false → resolve dir segs ≡ onto segs dir
unfolding resolve
resolve-good dir [] h = refl
resolve-good dir (s ∷ segs) h =
    let (good, rest) = or-false (bad_segment s) _ h in
    rw (enter-good dir s good) (resolve-good (s ∷ dir) segs rest)

onto-onto : (segs dir end : List Bytes) → onto (onto segs dir) end ≡ onto dir (segs ++ end)
onto-onto [] dir end = refl
onto-onto (s ∷ segs) dir end = onto-onto segs (s ∷ dir) end

bad_path-clean : (s : Bytes) → bad_path s ≡ false → clean s ≡ s
unfolding bad_path
bad_path-clean s h =
    let (_, good) = or-false (is_empty s || starts_with (codes "/") s) _ h in
    rw
      (
        resolve-good [] (split b'/' s) good,
        onto-onto (split b'/' s) [] [],
        append-nil (split b'/' s),
      )
      (join-split b'/' s)

if-accepted :
    (b : Bool) (x : Classified) (k : KeyKind) (key : Bytes)
    → (if b then bad_key else x) ≡ accepted k key
    → (b ≡ false) × (x ≡ accepted k key)
if-accepted true x k key h = cc
if-accepted false x k key h = (refl, h)

-- A key of a mount that takes paths is kept as it stands.
kept-clean :
    (decoded key : Bytes)
    → bad_path decoded ≡ false
    → key ≡ decoded
    → (key ≡ decoded) × (clean key ≡ key)
kept-clean decoded key h e = (e, ap clean e ∙ bad_path-clean decoded h ∙ sym e)

if-key :
    (b : Bool) (k l m : KeyKind) (key decoded : Bytes)
    → (if b then accepted k decoded else accepted l decoded) ≡ accepted m key
    → key ≡ decoded
if-key true k l m key decoded h = cc
if-key false k l m key decoded h = cc

-- An accepted sstate key is the path as it was decoded, and the lexical resolution of its segments,
-- where "" and "." stay and ".." goes up, gives back the key itself.
pub classify_sstate-clean :
    (decoded : Bytes) (k : KeyKind) (key : Bytes)
    → classify_sstate decoded ≡ accepted k key
    → (key ≡ decoded) × (clean key ≡ key)
unfolding classify_sstate
classify_sstate-clean decoded k key h =
    let (good, kept) = if-accepted (bad_path decoded) _ k key h in
    kept-clean decoded key good (if-key _ siginfo object k key decoded kept)

-- The same holds for an accepted sccache key.
pub classify_sccache-clean :
    (decoded : Bytes) (k : KeyKind) (key : Bytes)
    → classify_sccache decoded ≡ accepted k key
    → (key ≡ decoded) × (clean key ≡ key)
unfolding classify_sccache
classify_sccache-clean decoded k key h =
    let (good, kept) = if-accepted (bad_path decoded) _ k key h in kept-clean decoded key good cc

hex_has_byte : (c : ℕ) (s : Bytes) → is_hex_byte c ≡ false → is_hex s ≡ true → has_byte c s ≡ false
unfolding has_byte
hex_has_byte c [] o h = refl
hex_has_byte c (b ∷ s) o h = ground (arith, hex_has_byte c s)

lower_hex-hex : (s : Bytes) → is_lower_hex s ≡ true → is_hex s ≡ true
lower_hex-hex [] h = refl
lower_hex-hex (b ∷ s) h = ground (arith, lower_hex-hex s)

-- A key of /cas is a key of /ac.
pub classify_cas-classify_ac :
    (decoded key : Bytes)
    → classify_cas decoded ≡ accepted cas key
    → classify_ac decoded ≡ accepted ac key
unfolding classify_cas classify_ac
classify_cas-classify_ac decoded key h = ground (arith, lower_hex-hex decoded)

no_dot :
    (s : Bytes)
    → has_byte b'.' s ≡ false
    → (eq_bytes s (codes ".") ≡ false) × (eq_bytes s (codes "..") ≡ false)
unfolding has_byte eq_bytes
no_dot [] h = (refl, refl)
no_dot (b ∷ s) h = ground arith

hex-bad_segment : (s : Bytes) → is_empty s ≡ false → is_hex s ≡ true → bad_segment s ≡ false
unfolding bad_segment
hex-bad_segment s e x =
    let (dot, dots) = no_dot s (hex_has_byte b'.' s refl x) in
    rw (e, dot, dots, hex_has_byte b'\\' s refl x, hex_has_byte 0 s refl x) refl

no_slash : (s : Bytes) → has_byte b'/' s ≡ false → starts_with (codes "/") s ≡ false
unfolding has_byte starts_with
no_slash [] h = refl
no_slash (b ∷ s) h = ground arith

hex-bad_path : (s : Bytes) → is_empty s ≡ false → is_hex s ≡ true → bad_path s ≡ false
unfolding bad_path
hex-bad_path s e x =
    let slash = hex_has_byte b'/' s refl x in
    rw (e, no_slash s slash, split-one b'/' s slash, hex-bad_segment s e x) refl

length-is_empty : (s : Bytes) → (length s == 0) ≡ false → is_empty s ≡ false
length-is_empty [] h = ground arith
length-is_empty (c ∷ s) h = refl

-- A key that /ac accepts is accepted as it stands by the download mirror, which takes single names,
-- and by the mount of sccache, which takes paths.
pub classify_ac-contained :
    (decoded key : Bytes)
    → classify_ac decoded ≡ accepted ac key
    → (classify_downloads decoded ≡ accepted file key)
      × (classify_sccache decoded ≡ accepted sccache key)
unfolding classify_ac classify_downloads classify_sccache
classify_ac-contained decoded key h =
    let (good, kept) = if-accepted _ _ ac key h in
    let (a, b) = or-false (length decoded == 0 || ltb max_ac_key_len (length decoded)) _ good in
    let e = length-is_empty decoded (or-false (length decoded == 0) _ a).0 in
    let x : is_hex decoded ≡ true = ground arith in
    let (dot, dots) = no_dot decoded (hex_has_byte b'.' decoded refl x) in
    let same : decoded ≡ key = cc in
    (
      rw
          (
            e,
            dot,
            dots,
            hex_has_byte b'/' decoded refl x,
            hex_has_byte b'\\' decoded refl x,
            hex_has_byte 0 decoded refl x,
          )
          (ap (accepted file) same),
      rw (hex-bad_path decoded e x) (ap (accepted sccache) same),
    )
