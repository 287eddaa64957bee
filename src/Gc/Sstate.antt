-- ===== src/Gc/Sstate.antt =====
-- internal/gc/sstate.go: the unihash that the name of an sstate object carries. The two regular
-- expressions are written out, the first by its leftmost and greedy match.
pub mod Sidecars
pub mod Names
mod Tests
use bakery.Base.{
  ℕ, zero, suc, ◌≡◌, Bool, true, false, not, ◌&&◌, ◌||◌, Option, none, some, List, [], ◌∷◌, ◌++◌,
  Bytes, codes, all, has_byte, length, leb, ◌==◌, if◌then◌else◌,
}
use bakery.Cache.Routes.Cut.{cut_prefix, cut_suffix}

-- sstateSidecars
pub data Sidecar : Type 0 where
  siginfo sig done : Sidecar

abbrev pub suffix : Sidecar → Bytes
suffix siginfo = codes ".siginfo"
suffix sig = codes ".sig"
suffix done = codes ".done"

abbrev or_else : Option Bytes → Option Bytes → Option Bytes
or_else none o = o
or_else (some s) o = some s

-- One round of the loop over sstateSidecars.
unfoldable pub strip_one : Bytes → Option Bytes
strip_one name =
    or_else (cut_suffix (suffix siginfo) name)
      (or_else (cut_suffix (suffix sig) name) (cut_suffix (suffix done) name))

-- The loop; the first argument is fuel.
unfoldable pub strip : ℕ → Bytes → Bytes
unfolding strip_one
strip zero name = name
strip (suc n) name = elim (strip_one name) [ none ↦ name | some shorter ↦ strip n shorter ]

-- What follows the last such byte, or all.
unfoldable pub after_last : ℕ → Bytes → Bytes
after_last c [] = []
after_last c (b ∷ s) = if has_byte c s then after_last c s else if b == c then s else b ∷ s

unfoldable pub after_first : ℕ → Bytes → Option Bytes
after_first c [] = none
after_first c (b ∷ s) = if b == c then some s else after_first c s

-- What comes before the first such byte, where there is one.
unfoldable pub before_first : ℕ → Bytes → Option Bytes
before_first c [] = none
before_first c (b ∷ s) =
    let rest = before_first c s in
    if b == c then some [] else elim rest [ none ↦ none | some w ↦ some (b ∷ w) ]

-- `[^:]*:`, that many times
unfoldable pub skip_fields : ℕ → Bytes → Option Bytes
unfolding after_first
skip_fields zero s = some s
skip_fields (suc n) s = elim (after_first b':' s) [ none ↦ none | some rest ↦ skip_fields n rest ]

-- `[^_]*:([^_]*)_`
abbrev pub last_field : Option Bytes → Option Bytes
last_field none = none
last_field (some s) = if has_byte b':' s then some (after_last b':' s) else none

abbrev pub hash_field : Option Bytes → Option Bytes
hash_field none = none
hash_field (some s) = last_field (before_first b'_' s)

abbrev pub fields : Option Bytes → Option Bytes
fields none = none
fields (some s) = hash_field (skip_fields 5 s)

-- sstatePkgspec: the submatch
unfoldable pub pkgspec : Bytes → Option Bytes
unfolding skip_fields before_first after_last
pkgspec name = fields (cut_prefix (codes "sstate:") name)

abbrev pub is_hex_digit : ℕ → Bool
is_hex_digit c = (leb b'0' c && leb c b'9') || (leb b'a' c && leb c b'f')

-- sstateUnihash
unfoldable pub is_unihash : Bytes → Bool
is_unihash s = leb 1 (length s) && leb (length s) 64 && all is_hex_digit s

abbrev pub if_unihash : Option Bytes → Option Bytes
if_unihash none = none
if_unihash (some u) = if is_unihash u then some u else none

abbrev pub named_unihash : Bytes → Option Bytes
named_unihash name = if_unihash (pkgspec (strip (length name) name))

unfoldable pub derive_unihash : Bytes → Option Bytes
unfolding strip pkgspec is_unihash
derive_unihash key = named_unihash (after_last b'/' key)
