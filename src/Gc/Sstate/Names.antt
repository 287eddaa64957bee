-- ===== src/Gc/Sstate/Names.antt =====
-- The names that sstate.bbclass gives its objects, as internal/gc/sstate.go reads them back.
use bakery.Base.{
  ℕ, suc, ◌≡◌, refl, ap, ◌∙◌, true, false, none, some, List, [], ◌∷◌, ◌++◌, Bytes, codes, all,
  has_byte, length, arith,
}
use bakery.Cache.Routes.Cut.{cut_prefix_iff}
use bakery.Gc.Sstate.{
  Sidecar, suffix, strip_one, after_last, after_first, before_first, skip_fields, hash_field,
  pkgspec, is_hex_digit, is_unihash, named_unihash, derive_unihash,
}
use bakery.Gc.Sstate.Sidecars.{derive_unihash-suffix, after_last-free, strip-none}

-- sstate:<pn>:<target>:<pv>:<pr>:<arch>:<version>:<unihash>_<task>
pub record Spec : Type 0 where
  pub pn : Bytes
  pub target : Bytes
  pub pv : Bytes
  pub pr : Bytes
  pub arch : Bytes
  pub version : Bytes
  pub unihash : Bytes
  pub task : Bytes

abbrev pub hash_part : Spec → Bytes
hash_part n = (n.version ++ b':' ∷ n.unihash) ++ b'_' ∷ n.task

abbrev pub field_part : Spec → Bytes
field_part n =
    n.pn
    ++ b':' ∷ (n.target ++ b':' ∷ (n.pv ++ b':' ∷ (n.pr ++ b':' ∷ (n.arch ++ b':' ∷ hash_part n))))

abbrev pub spec_name : Spec → Bytes
spec_name n = codes "sstate:" ++ field_part n

-- The version may hold colons, the task name anything but a slash or a sidecar suffix.
pub record IsSpec (n : Spec) : Type 0 where
  pub pn_free : has_byte b':' n.pn ≡ false
  pub target_free : has_byte b':' n.target ≡ false
  pub pv_free : has_byte b':' n.pv ≡ false
  pub pr_free : has_byte b':' n.pr ≡ false
  pub arch_free : has_byte b':' n.arch ≡ false
  pub version_free : has_byte b'_' n.version ≡ false
  pub hex : is_unihash n.unihash ≡ true
  pub one_name : has_byte b'/' (spec_name n) ≡ false
  pub no_sidecar : strip_one (spec_name n) ≡ none

abbrev pub with_sidecars : Bytes → List Sidecar → Bytes
with_sidecars key [] = key
with_sidecars key (x ∷ xs) = with_sidecars (key ++ suffix x) xs

after_first-field :
    (c : ℕ) (w s : Bytes) → has_byte c w ≡ false → after_first c (w ++ c ∷ s) ≡ some s
unfolding after_first has_byte
after_first-field c [] s h = ground arith
after_first-field c (b ∷ w) s h = ground (arith, after_first-field c w s)

before_first-field :
    (c : ℕ) (w s : Bytes) → has_byte c w ≡ false → before_first c (w ++ c ∷ s) ≡ some w
unfolding before_first has_byte
before_first-field c [] s h = ground arith
before_first-field c (b ∷ w) s h = ground (arith, before_first-field c w s)

has_byte-middle : (c : ℕ) (w s : Bytes) → has_byte c (w ++ c ∷ s) ≡ true
unfolding has_byte
has_byte-middle c [] s = ground arith
has_byte-middle c (b ∷ w) s = ground (arith, has_byte-middle c w s)

after_last-part : (c : ℕ) (w s : Bytes) → has_byte c s ≡ false → after_last c (w ++ c ∷ s) ≡ s
unfolding after_last
after_last-part c [] s h = ground (arith, h)
after_last-part c (b ∷ w) s h = ground (arith, after_last-part c w s, has_byte-middle c w s)

-- No hexadecimal digit is a colon or an underscore.
hex-free :
    (s : Bytes) → all is_hex_digit s ≡ true → (has_byte b':' s ≡ false) × (has_byte b'_' s ≡ false)
unfolding has_byte
hex-free [] h = (refl, refl)
hex-free (b ∷ s) h =
    let (colon, underscore) = hex-free s (ground (arith, h)) in
    (ground (arith, h, colon), ground (arith, h, underscore))

skip_fields-step :
    (n : ℕ) (w s : Bytes)
    → has_byte b':' w ≡ false
    → skip_fields (suc n) (w ++ b':' ∷ s) ≡ skip_fields n s
unfolding skip_fields
skip_fields-step n w s h = ground (arith, after_first-field b':' w s h)

skipped : (n : Spec) → IsSpec n → skip_fields 5 (field_part n) ≡ some (hash_part n)
skipped n w =
    skip_fields-step 4 n.pn _ w.pn_free
    ∙ skip_fields-step 3 n.target _ w.target_free
    ∙ skip_fields-step 2 n.pv _ w.pv_free
    ∙ skip_fields-step 1 n.pr _ w.pr_free
    ∙ skip_fields-step 0 n.arch _ w.arch_free
    ∙ (unfold skip_fields in refl)

has_byte-join :
    (c : ℕ) (s t : Bytes)
    → has_byte c s ≡ false
    → has_byte c t ≡ false
    → has_byte c (s ++ t) ≡ false
unfolding has_byte
has_byte-join c [] t h k = k
has_byte-join c (b ∷ s) t h k = ground (arith, has_byte-join c s t)

digits : (n : Spec) → IsSpec n → all is_hex_digit n.unihash ≡ true
unfolding is_unihash
digits n w = ground (arith, w.hex)

hash_field_lem : (n : Spec) → IsSpec n → hash_field (some (hash_part n)) ≡ some n.unihash
hash_field_lem n w =
    let (colon, underscore) = hex-free n.unihash (digits n w) in
    let separator : has_byte b'_' (b':' ∷ n.unihash) ≡ false = unfold has_byte in underscore in
    let free = has_byte-join b'_' n.version (b':' ∷ n.unihash) w.version_free separator in
    rw
      (
        before_first-field b'_' (n.version ++ b':' ∷ n.unihash) n.task free,
        has_byte-middle b':' n.version n.unihash,
        after_last-part b':' n.version n.unihash colon,
      )
      refl

pkgspec-spec_name : (n : Spec) → IsSpec n → pkgspec (spec_name n) ≡ some n.unihash
unfolding pkgspec
pkgspec-spec_name n w =
    let cut = (cut_prefix_iff (codes "sstate:") (spec_name n) (field_part n)).1 refl in
    rw (cut, skipped n w) (hash_field_lem n w)

named : (n : Spec) → IsSpec n → named_unihash (spec_name n) ≡ some n.unihash
named n w =
    rw (strip-none (length (spec_name n)) (spec_name n) w.no_sidecar, pkgspec-spec_name n w, w.hex)
      refl

derive_unihash-with_sidecars :
    (key : Bytes) (xs : List Sidecar) → derive_unihash (with_sidecars key xs) ≡ derive_unihash key
derive_unihash-with_sidecars key [] = refl
derive_unihash-with_sidecars key (x ∷ xs) =
    derive_unihash-with_sidecars (key ++ suffix x) xs ∙ derive_unihash-suffix key x

-- The unihash in a name of sstate.bbclass is what is derived from the key of the object and of all
-- its sidecars, under any directory or none, whatever the other fields hold: empty fields, a version
-- with colons, and a task name that does not end in a sidecar suffix.
pub derive_unihash-spec_name :
    (n : Spec) (dir : Bytes) (xs : List Sidecar)
    → IsSpec n
    → (derive_unihash (with_sidecars (spec_name n) xs) ≡ some n.unihash)
      × (derive_unihash (with_sidecars (dir ++ b'/' ∷ spec_name n) xs) ≡ some n.unihash)
unfolding derive_unihash
derive_unihash-spec_name n dir xs w = (
  derive_unihash-with_sidecars (spec_name n) xs
      ∙ ap named_unihash (after_last-free b'/' (spec_name n) w.one_name)
      ∙ named n w,
  derive_unihash-with_sidecars (dir ++ b'/' ∷ spec_name n) xs
      ∙ ap named_unihash (after_last-part b'/' dir (spec_name n) w.one_name)
      ∙ named n w,
)
