-- ===== src/Cache/Routes/Tests.antt =====
-- The registry paths of internal/cache/oci/routes.go at concrete paths.
use bakery.Base.{◌≡◌, refl, none, ◌++◌, Bytes, codes, has_byte, starts_with}
use bakery.Cache.Routes.{
  manifests, blobs, marker, push_marker, found, push_path, trim_slash, split_ref, checked, cut_at,
  choose,
}
use bakery.Cache.Routes.Find.{last_index}
use bakery.Cache.Routes.RoundTrip.{split_ref-path, split_ref-push}

-- A repository whose name holds the other marker.
abbrev name : Bytes
name = codes "acme/blobs/manifests/alpine"

abbrev tag : Bytes
tag = codes "1.0"

abbrev not_push : last_index push_marker (name ++ (marker manifests ++ tag)) ≡ none
not_push = unfold last_index starts_with in refl

split_ref-path_example : split_ref (name ++ (marker manifests ++ tag)) ≡ found name manifests tag
split_ref-path_example =
    split_ref-path name manifests tag (refl, unfold starts_with in refl)
      (refl, unfold has_byte in refl) not_push

-- A pull of tag 1.0 of the repository acme/blobs/uploads-archive.
split_ref-push_example :
    split_ref (codes "acme" ++ (push_marker ++ codes "-archive/manifests/1.0")) ≡ push_path
split_ref-push_example =
    split_ref-push (codes "acme") (codes "-archive/manifests/1.0")
      (refl, unfold starts_with in refl)

abbrev path : Bytes
path = codes "/acme/alpine/blobs/x"

abbrev path_found : split_ref path ≡ found (codes "acme/alpine") blobs (codes "x")
path_found =
    unfold split_ref trim_slash last_index starts_with choose cut_at checked has_byte in refl

abbrev address : Bytes
address = codes "00112233445566778899aabbccddeeff00112233445566778899aabbccddeeff"
