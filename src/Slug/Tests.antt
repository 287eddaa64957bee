-- ===== src/Slug/Tests.antt =====
-- The grammar of internal/slug/slug.go at concrete slugs.
use bakery.Base.{◌≡◌, refl, codes, contains, true, eq_bytes}
use bakery.Slug.{valid, check, reserved_slug, invalid_slug, matches, ends_alnum, is_reserved}

check_reserved : check (codes "compressed-blobs") ≡ reserved_slug
unfolding check matches ends_alnum is_reserved contains eq_bytes
check_reserved = refl

check_trailing : check (codes "acme-") ≡ invalid_slug
unfolding check matches ends_alnum
check_trailing = refl

abbrev acme_valid : valid (codes "acme-1") ≡ true
acme_valid = unfold valid matches ends_alnum is_reserved contains eq_bytes in refl
