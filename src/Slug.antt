-- ===== src/Slug.antt =====
-- internal/slug/slug.go: the grammar of org and project slugs.
pub mod Laws
mod Tests
use bakery.Base.{
  ℕ, Bool, true, false, not, ◌&&◌, ◌||◌, List, [], ◌∷◌, Bytes, codes, contains, length, leb, ◌==◌,
  if◌then◌else◌,
}

-- [a-z0-9]
abbrev pub is_alnum : ℕ → Bool
is_alnum c = (leb b'a' c && leb c b'z') || (leb b'0' c && leb c b'9')

-- [a-z0-9-]
abbrev pub is_inner : ℕ → Bool
is_inner c = is_alnum c || c == b'-'

-- [a-z0-9-]*[a-z0-9]
unfoldable pub ends_alnum : Bytes → Bool
ends_alnum [] = false
ends_alnum (c ∷ []) = is_alnum c
ends_alnum (c ∷ d ∷ s) = is_inner c && ends_alnum (d ∷ s)

-- Pattern: [a-z0-9]([a-z0-9-]{0,61}[a-z0-9])?
unfoldable pub matches : Bytes → Bool
unfolding ends_alnum
matches [] = false
matches (c ∷ []) = is_alnum c
matches (c ∷ d ∷ s) = is_alnum c && leb (length (d ∷ s)) 62 && ends_alnum (d ∷ s)

abbrev pub reserved : List Bytes
reserved =
    codes "blobs"
    ∷ codes "uploads"
    ∷ codes "actions"
    ∷ codes "actionresults"
    ∷ codes "operations"
    ∷ codes "capabilities"
    ∷ codes "compressed-blobs"
    ∷ codes "ac"
    ∷ codes "cas"
    ∷ codes "v2"
    ∷ codes "api"
    ∷ codes "cache"
    ∷ codes "token"
    ∷ []

unfoldable pub is_reserved : Bytes → Bool
unfolding contains
is_reserved s = contains s reserved

unfoldable pub valid : Bytes → Bool
valid s = matches s && not (is_reserved s)

-- The error of Check: nil, one that wraps ErrInvalid, or one that wraps ErrReserved.
pub data Verdict : Type 0 where
  accepted invalid_slug reserved_slug : Verdict

unfoldable pub check : Bytes → Verdict
check s =
    if not (matches s) then invalid_slug else if is_reserved s then reserved_slug else accepted
