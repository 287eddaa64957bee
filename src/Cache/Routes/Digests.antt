-- ===== src/Cache/Routes/Digests.antt =====
-- Which references are digests that the proxy serves.
use bakery.Base.{
  ◌≡◌, refl, sym, ap, ◌∙◌, true, Option, none, some, ◌++◌, Bytes, codes, all, length, ◌==◌, inl,
  inr, Bool-cases, ◌↔◌, ◌&&◌, &&-true, ==_iff,
}
use bakery.Cache.Routes.{digest_hex, bare_hex, is_lower_hex_byte}
use bakery.Cache.Routes.Cut.{cut_prefix, cut_prefix_iff}

bare_hex_iff :
    (o : Option Bytes) (hex : Bytes)
    → (bare_hex o ≡ some hex)
      ↔ ((o ≡ some hex) × (length hex ≡ 64) × (all is_lower_hex_byte hex ≡ true))
bare_hex_iff none hex = (λ h. cc, λ h. cc)
bare_hex_iff (some t) hex = (
  λ h. elim (Bool-cases (length t == 64 && all is_lower_hex_byte t)) [
    | inl e ↦
        let same : some t ≡ some hex = sym (rw (e) refl) ∙ h in
        let (l, x) = &&-true (length t == 64) (all is_lower_hex_byte t) e in
        let eq : t ≡ hex = cc in
        (
          same,
          ap length (sym eq) ∙ (==_iff (length t) 64).0 l,
          ap (all is_lower_hex_byte) (sym eq) ∙ x,
        )
    | inr e ↦ let never : none ≡ some hex = sym (rw (e) refl) ∙ h in cc
  ],
  λ h.
      let same : t ≡ hex = cc in
      let l : (length t == 64) ≡ true = (==_iff (length t) 64).1 (ap length same ∙ h.1) in
      rw (l, ap (all is_lower_hex_byte) same ∙ h.2) h.0,
)

-- digestHex accepts exactly "sha256:" with 64 lowercase hex digits behind it, and returns these.
pub digest_hex_iff :
    (ref hex : Bytes)
    → (digest_hex ref ≡ some hex)
      ↔ ((ref ≡ codes "sha256:" ++ hex) × (length hex ≡ 64) × (all is_lower_hex_byte hex ≡ true))
unfolding digest_hex
digest_hex_iff ref hex =
    let cut = cut_prefix_iff (codes "sha256:") ref hex in
    let bare = bare_hex_iff (cut_prefix (codes "sha256:") ref) hex in
    (λ h. (cut.0 (bare.0 h).0, (bare.0 h).1, (bare.0 h).2), λ h. bare.1 (cut.1 h.0, h.1, h.2))
