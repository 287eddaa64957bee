-- ===== src/Gc/Sstate/Tests.antt =====
-- An sstate object of internal/gc/sstate.go with its sidecars.
use bakery.Base.{◌≡◌, refl, none, some, [], ◌∷◌, ◌++◌, codes, has_byte, starts_with, eq_bytes}
use bakery.Cache.Routes.Cut.{cut_prefix, cut_suffix}
use bakery.Gc.Sstate.{
  siginfo, sig, done, suffix, strip_one, strip, after_last, after_first, before_first, skip_fields,
  pkgspec, is_unihash, derive_unihash,
}
use bakery.Gc.Sstate.Sidecars.{derive_unihash-suffix}
use bakery.Gc.Sstate.Names.{Spec, IsSpec, spec_name, with_sidecars, derive_unihash-spec_name}

-- A name with empty fields, as do_populate_lic has them.
abbrev zlib : Spec
zlib = record {
  pn = codes "zlib";
  target = [];
  pv = codes "1.3.1";
  pr = codes "r0";
  arch = [];
  version = codes "14";
  unihash = codes "9f3c";
  task = codes "populate_lic.tar.zst";
}

zlib-IsSpec : IsSpec zlib
unfolding has_byte is_unihash strip_one cut_suffix eq_bytes
zlib-IsSpec = record {
  pn_free = refl;
  target_free = refl;
  pv_free = refl;
  pr_free = refl;
  arch_free = refl;
  version_free = refl;
  hex = refl;
  one_name = refl;
  no_sidecar = refl;
}

derive_unihash-spec_name_example :
    (derive_unihash (with_sidecars (spec_name zlib) (siginfo ∷ done ∷ [])) ≡ some (codes "9f3c"))
    × (derive_unihash
          (with_sidecars (codes "universal/9f" ++ b'/' ∷ spec_name zlib) (siginfo ∷ done ∷ []))
        ≡ some (codes "9f3c"))
derive_unihash-spec_name_example =
    derive_unihash-spec_name zlib (codes "universal/9f") (siginfo ∷ done ∷ []) zlib-IsSpec

derive_unihash-suffix_example :
    derive_unihash (codes "9f/sstate:zlib.tgz" ++ suffix sig)
    ≡ derive_unihash (codes "9f/sstate:zlib.tgz")
derive_unihash-suffix_example = derive_unihash-suffix (codes "9f/sstate:zlib.tgz") sig

-- A hash that is no hexadecimal number names no unihash.
no_unihash : derive_unihash (codes "sstate:a:b:c:d:e:f:xyz_task.tgz") ≡ none
unfolding derive_unihash strip strip_one cut_suffix pkgspec cut_prefix skip_fields after_first
    before_first after_last is_unihash has_byte starts_with eq_bytes
no_unihash = refl
