-- ===== src/Cache/Routes.antt =====
-- internal/cache/oci/routes.go: the registry paths.
pub mod Find
pub mod Cut
pub mod RoundTrip
pub mod Paths
pub mod Digests
mod Tests
use bakery.Base.{
  ℕ, ◌+◌, Bool, true, false, not, ◌&&◌, ◌||◌, Option, none, some, List, [], ◌∷◌, ◌++◌, Bytes, codes,
  all, take, drop, eq_bytes, has_byte, starts_with, leb, ltb, ◌==◌, if◌then◌else◌, length,
}
use Find.{last_index}
use Cut.{cut_prefix, cut_suffix}

pub data Kind : Type 0 where
  manifests blobs : Kind

abbrev pub kind_name : Kind → Bytes
kind_name manifests = codes "manifests"
kind_name blobs = codes "blobs"

-- "/" + kind + "/"
abbrev pub marker : Kind → Bytes
marker manifests = codes "/manifests/"
marker blobs = codes "/blobs/"

abbrev pub push_marker : Bytes
push_marker = codes "/blobs/uploads"

-- What splitRef returns: the three strings, errBadRef or errPushPath.
pub data Reference : Type 0 where
  found : Bytes → Kind → Bytes → Reference
  bad_ref push_path : Reference

-- strings.TrimPrefix(rest, "/")
unfoldable pub trim_slash : Bytes → Bytes
trim_slash [] = []
trim_slash (c ∷ s) = if c == b'/' then s else c ∷ s

abbrev pub is_empty : Bytes → Bool
is_empty [] = true
is_empty (_ ∷ _) = false

-- The last checks, on the name and the reference.
unfoldable pub checked : Bytes → Kind → Bytes → Reference
checked name kind ref =
    if is_empty name || is_empty ref || has_byte b'/' ref then bad_ref else found name kind ref

unfoldable pub cut_at : Bytes → ℕ → Kind → Reference
cut_at rest idx kind = checked (take idx rest) kind (drop (idx + length (kind_name kind) + 2) rest)

-- The marker furthest right wins: an index of -1 is none.
unfoldable pub choose : Bytes → Option ℕ → Option ℕ → Reference
choose rest none none = bad_ref
choose rest (some mi) none = cut_at rest mi manifests
choose rest none (some bi) = cut_at rest bi blobs
choose rest (some mi) (some bi) =
    if ltb bi mi then cut_at rest mi manifests else cut_at rest bi blobs

abbrev pub unless_push : Option ℕ → Reference → Reference
unless_push (some _) r = push_path
unless_push none r = r

abbrev pub split_trimmed : Bytes → Reference
split_trimmed rest =
    unless_push (last_index push_marker rest)
      (choose rest (last_index (marker manifests) rest) (last_index (marker blobs) rest))

unfoldable pub split_ref : Bytes → Reference
split_ref rest = split_trimmed (trim_slash rest)

abbrev pub tags_suffix : Bytes
tags_suffix = codes "/tags/list"

abbrev pub nonempty : Option Bytes → Option Bytes
nonempty none = none
nonempty (some []) = none
nonempty (some (c ∷ s)) = some (c ∷ s)

unfoldable pub split_tags_list : Bytes → Option Bytes
split_tags_list rest = nonempty (cut_suffix tags_suffix (trim_slash rest))

abbrev pub is_lower_hex_byte : ℕ → Bool
is_lower_hex_byte c = (leb b'0' c && leb c b'9') || (leb b'a' c && leb c b'f')

abbrev pub bare_hex : Option Bytes → Option Bytes
bare_hex none = none
bare_hex (some hex) = if length hex == 64 && all is_lower_hex_byte hex then some hex else none

unfoldable pub digest_hex : Bytes → Option Bytes
digest_hex ref = bare_hex (cut_prefix (codes "sha256:") ref)

unfoldable pub is_digest_ref : Bytes → Bool
is_digest_ref ref = has_byte b':' ref
