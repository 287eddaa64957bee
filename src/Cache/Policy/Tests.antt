-- ===== src/Cache/Policy/Tests.antt =====
-- The keys of internal/cache/httpblob/policy.go at concrete keys.
use bakery.Base.{◌≡◌, refl, Bytes, codes, eq_bytes, has_byte, starts_with, split}
use bakery.Cache.Policy.{
  object, ac, accepted, bad_key, bad_path, bad_segment, has_suffix, classify_sstate, classify_ac,
}

abbrev key : Bytes
key = codes "universal/00/ff/sstate:x.tar"

abbrev key_accepted : classify_sstate key ≡ accepted object key
key_accepted =
    unfold classify_sstate bad_path bad_segment has_suffix eq_bytes has_byte starts_with split in
    refl

climbing : classify_sstate (codes "universal/../../etc") ≡ bad_key
unfolding classify_sstate bad_path bad_segment eq_bytes has_byte starts_with split
climbing = refl

abbrev address : Bytes
address = codes "00112233445566778899aabbccddeeff00112233445566778899aabbccddeeff"

abbrev action_accepted : classify_ac address ≡ accepted ac address
action_accepted = unfold classify_ac in refl
