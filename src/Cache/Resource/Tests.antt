-- ===== src/Cache/Resource/Tests.antt =====
-- The resource names of internal/cache/bazel/resource.go at concrete names.
use bakery.Base.{
  ◌<◌, ◌^◌, ◌≡◌, refl, true, List, [], ◌∷◌, ◌++◌, Bytes, codes, join, split, eq_bytes, has_byte,
  contains, arith,
}
use bakery.Slug.{valid, matches, ends_alnum, is_reserved}
use bakery.Cache.Resource.{
  ok, compressed_resource, parse_resource_name, parse_segments, parse_marker, is_hex, is_decimal,
  decimal_from,
}
use bakery.Cache.Resource.Laws.{IsInstance, write_name, slugs-IsInstance}
use bakery.Cache.Resource.Soundness.{IsSound, parse_resource_name-IsSound}

abbrev acme : Bytes
acme = codes "acme"

abbrev store : Bytes
store = codes "blobstore"

abbrev hash : Bytes
hash = codes "00ffaa"

abbrev size : Bytes
size = codes "42"

abbrev acme_valid : valid acme ≡ true
acme_valid = unfold valid matches ends_alnum is_reserved contains eq_bytes in refl

abbrev store_valid : valid store ≡ true
store_valid = unfold valid matches ends_alnum is_reserved contains eq_bytes in refl

abbrev hash_hex : is_hex hash ≡ true
hash_hex = unfold is_hex in refl

abbrev size_decimal : is_decimal size ≡ true
size_decimal = unfold is_decimal in refl

abbrev size_value : decimal_from 0 size ≡ 42
size_value = unfold decimal_from in refl

abbrev size_fits : decimal_from 0 size < 2 ^ 63
size_fits = omega (arith, size_value)

abbrev instance_IsInstance : IsInstance (acme ∷ store ∷ [])
instance_IsInstance = slugs-IsInstance acme store acme_valid store_valid

compressed_name :
    parse_resource_name (codes "acme/app/compressed-blobs/zstd/00ff/4") ≡ compressed_resource
unfolding parse_resource_name parse_segments parse_marker split join eq_bytes
compressed_name = refl

abbrev uuid : Bytes
uuid = codes "6f1e-77"

abbrev blake : Bytes
blake = codes "blake3"

abbrev metadata : List Bytes
metadata = codes "x" ∷ codes "blobs" ∷ []

write_name_example :
    parse_resource_name (
      join b'/' (
        acme ∷ (store ∷ [])
        ++ codes "uploads" ∷ uuid ∷ codes "blobs" ∷ blake ∷ hash ∷ size ∷ metadata))
    ≡ ok (record {
      instance_name = join b'/' (acme ∷ store ∷ []);
      hash = hash;
      size = decimal_from 0 size;
    })
write_name_example =
    write_name acme (store ∷ []) uuid blake hash size metadata instance_IsInstance
      (unfold has_byte in refl) (unfold has_byte in refl) (unfold has_byte in (refl, (refl, tt)))
      (unfold is_hex in refl) hash_hex size_decimal size_fits

parse_resource_name-IsSound_example :
    IsSound []
      (split b'/' (codes "acme/app/blobs/00ff/4"))
      (parse_resource_name (codes "acme/app/blobs/00ff/4"))
parse_resource_name-IsSound_example = parse_resource_name-IsSound (codes "acme/app/blobs/00ff/4")
