-- ===== src/Cache/Hashserv/Framing/Lines.antt =====
-- The lines of a stream in internal/cache/hashserv/framing.go.
use bakery.Base.{ℕ, ◌≡◌, refl, ap, ◌∙◌, true, false, [], ◌∷◌, ◌++◌, Bytes, All, arith}
use mathlib.Core.List.{append-nil}
use bakery.Cache.Hashserv.Exec.{ok}
use bakery.Cache.Hashserv.Framing.{is_space, fields_from, fields, two, parse_get_stream_line}

abbrev pub IsBlank : Bytes → Type 0
IsBlank s = All (λ b. is_space b ≡ true) s

abbrev pub IsWord : Bytes → Type 0
IsWord s = All (λ b. is_space b ≡ false) s

fields_from-word :
    (w s : Bytes) → IsWord w → fields_from (w ++ s) ≡ (w ++ (fields_from s).0, (fields_from s).1)
unfolding fields_from
fields_from-word [] s h = refl
fields_from-word (b ∷ w) s h = ground (arith, fields_from-word w s h.1)

fields_from-space : (b : ℕ) (s : Bytes) → is_space b ≡ true → fields_from (b ∷ s) ≡ ([], fields s)
unfolding fields_from fields
fields_from-space b s h = ground arith

fields-blank : (p s : Bytes) → IsBlank p → fields (p ++ s) ≡ fields s
unfolding fields
fields-blank [] s h = refl
fields-blank (b ∷ p) s h =
    rw (fields_from-space b (p ++ s) h.0) (unfold fields in fields-blank p s h.1)

-- A first word, and the fields after the blank that ends it.
fields-word :
    (b : ℕ) (w : Bytes) (c : ℕ) (s : Bytes)
    → IsWord (b ∷ w)
    → is_space c ≡ true
    → fields ((b ∷ w) ++ c ∷ s) ≡ (b ∷ w) ∷ fields s
unfolding fields
fields-word b w c s h k =
    rw (fields_from-word (b ∷ w) (c ∷ s) h, fields_from-space c s k, append-nil) refl

fields_from-blank : (r : Bytes) → IsBlank r → fields_from r ≡ ([], [])
unfolding fields_from
fields_from-blank [] h = refl
fields_from-blank (b ∷ r) h = ground (arith, fields_from-blank r h.1)

fields-last :
    (b : ℕ) (w r : Bytes) → IsWord (b ∷ w) → IsBlank r → fields ((b ∷ w) ++ r) ≡ (b ∷ w) ∷ []
unfolding fields
fields-last b w r h k = rw (fields_from-word (b ∷ w) r h, fields_from-blank r k, append-nil) refl

-- A line of two words with blanks around and between them is read as the method and the task hash.
pub parse_get_stream_line-words :
    (p : Bytes) (m₀ : ℕ) (m : Bytes) (c : ℕ) (q : Bytes) (t₀ : ℕ) (t r : Bytes)
    → IsBlank p
    → IsWord (m₀ ∷ m)
    → is_space c ≡ true
    → IsBlank q
    → IsWord (t₀ ∷ t)
    → IsBlank r
    → parse_get_stream_line (p ++ ((m₀ ∷ m) ++ c ∷ (q ++ ((t₀ ∷ t) ++ r)))) ≡ ok (m₀ ∷ m, t₀ ∷ t)
unfolding parse_get_stream_line
parse_get_stream_line-words p m₀ m c q t₀ t r hp hm hc hq ht hr = ap two (
    fields-blank p ((m₀ ∷ m) ++ c ∷ (q ++ ((t₀ ∷ t) ++ r))) hp
    ∙ fields-word m₀ m c (q ++ ((t₀ ∷ t) ++ r)) hm hc
    ∙ ap (λ ws. (m₀ ∷ m) ∷ ws) (fields-blank q ((t₀ ∷ t) ++ r) hq ∙ fields-last t₀ t r ht hr))
