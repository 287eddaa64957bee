-- ===== src/Cache/Hashserv/Framing/Streams.antt =====
-- Stream mode of internal/cache/hashserv/framing.go: the replies against the lines.
use bakery.Base.{
  ℕ, zero, suc, ◌<◌, ◌≡◌, refl, ap, ◌∙◌, true, false, List, [], ◌∷◌, ◌++◌, Bytes, codes, length,
  length-append, map, arith, All,
}
use mathlib.Core.List.{append_assoc, append-nil}
use bakery.Cache.Hashserv.Exec.{Result, ok, err, resume, pure, ◌>>=◌}
use bakery.Cache.Hashserv.Protocol.{Message, raw, quoted_ok}
use bakery.Cache.Hashserv.World.{World, Conn, M, receive, send}
use bakery.Cache.Hashserv.Framing.{ends_stream, stream_loop, run_stream}

-- The answers to the lines, one after the other.
abbrev pub answer_all : (Bytes → M Bytes) → List Bytes → M (List Bytes)
answer_all h [] = pure []
answer_all h (line ∷ lines) = h line >>= λ r. answer_all h lines >>= λ rs. pure (r ∷ rs)

abbrev pub on_conn : Conn → World → World
on_conn c w = record w { conn = c }

-- The action neither reads nor writes the connection.
pub record IsQuiet {A : Type 0} (m : M A) : Type 0 where
  pub at : (c : Conn) (w : World) → m (on_conn c w) ≡ ((m w).0, on_conn c (m w).1)

abbrev pub IsLine : Bytes → Type 0
IsLine line = ends_stream line ≡ false

abbrev pub conn_of : List Bytes → List Message → ℕ → Conn
conn_of ms sent room = record { inbox = ms; sent = sent; room = room }

-- Room for a message to each line, and for `k` more.
abbrev pub room_for : List Bytes → ℕ → ℕ
room_for [] k = k
room_for (line ∷ lines) k = suc (room_for lines k)

ok-inj :
    {A : Type 0} (a b : A) (v w : World)
    → ◌≡◌ {A = Result A × World} (ok a, v) (ok b, w)
    → (a ≡ b) × (v ≡ w)
ok-inj a b v w e = (cc, cc)

rest-inv :
    (r : Bytes) (res : Result (List Bytes)) (w₁ w' : World) (rs : List Bytes)
    → resume res (λ rs'. pure (r ∷ rs')) w₁ ≡ (ok rs, w')
    → (rs' : List Bytes) × (res ≡ ok rs') × (w₁ ≡ w') × (rs ≡ r ∷ rs')
unfolding pure
rest-inv r (ok rs') w₁ w' rs e = (rs', refl, cc, cc)
rest-inv r (err x) w₁ w' rs e = absurd (cc)

-- A first answer, and the others.
answer_all-inv :
    (h : Bytes → M Bytes) (lines rs : List Bytes) (res : Result Bytes) (w₁ w' : World)
    → resume res (λ r. answer_all h lines >>= λ rs'. pure (r ∷ rs')) w₁ ≡ (ok rs, w')
    → (r : Bytes) × (rs' : List Bytes) × (res ≡ ok r)
      × (answer_all h lines w₁ ≡ (ok rs', w'))
      × (rs ≡ r ∷ rs')
unfolding ◌>>=◌
answer_all-inv h lines rs (err x) w₁ w' e = absurd (cc)
answer_all-inv h lines rs (ok r) w₁ w' e =
    let (res, w₂) = answer_all h lines w₁ in
    let (rs', a, b, c) = rest-inv r res w₂ w' rs e in (r, rs', refl, cc, c)

longer :
    (lines : List Bytes) (stop : Bytes) (rest : List Bytes)
    → length lines < length (lines ++ stop ∷ rest)
longer lines stop rest = omega (arith, length-append lines (stop ∷ rest))

module _ (h : Bytes → M Bytes) (quiet : (line : Bytes) → IsQuiet (h line)) where
  stream_loop-answers :
      (n : ℕ) (lines : List Bytes) (stop : Bytes) (rest rs : List Bytes) (sent : List Message)
      (k : ℕ) (w w' : World)
      → length lines < n
      → All IsLine lines
      → ends_stream stop ≡ true
      → answer_all h lines w ≡ (ok rs, w')
      → stream_loop h n (on_conn (conn_of (lines ++ stop ∷ rest) sent (room_for lines k)) w)
        ≡ (ok tt, on_conn (conn_of rest (sent ++ map raw rs) k) w')
  unfolding stream_loop ◌>>=◌ receive send
  stream_loop-answers zero lines stop rest rs sent k w w' few l s e = absurd (omega arith)
  stream_loop-answers (suc n) [] stop rest rs sent k w w' few l s e =
      let (a, b) = ok-inj [] rs w w' e in rw (s, ← a, ← b, append-nil) refl
  stream_loop-answers (suc n) (line ∷ lines) stop rest rs sent k w w' few l s e =
      let (res, w₁) = h line w in
      let (r, rs', a, b, c) = answer_all-inv h lines rs res w₁ w' e in
      rw
        (
          l.0,
          (quiet line).at (conn_of (lines ++ stop ∷ rest) sent (room_for (line ∷ lines) k)) w,
          a,
          c,
        )
        (stream_loop-answers n lines stop rest rs' (sent ++ raw r ∷ []) k w₁ w' (omega arith) l.1 s
            b
          ∙ rw append_assoc refl)

  -- A stream with room for its replies is entered by the quoted reply, answered line by line and in
  -- order, and left by the raw one.
  pub run_stream-answers :
      (lines : List Bytes) (stop : Bytes) (rest rs : List Bytes) (sent : List Message) (k : ℕ)
      (w w' : World)
      → All IsLine lines
      → ends_stream stop ≡ true
      → answer_all h lines w ≡ (ok rs, w')
      → run_stream h
          (on_conn (conn_of (lines ++ stop ∷ rest) sent (suc (room_for lines (suc k)))) w)
        ≡ (
          ok tt,
          on_conn
              (conn_of rest ((sent ++ quoted_ok ∷ []) ++ map raw rs ++ raw (codes "ok") ∷ []) k)
              w',
        )
  unfolding run_stream ◌>>=◌ send
  run_stream-answers lines stop rest rs sent k w w' l s e =
      rw
        (stream_loop-answers (length (lines ++ stop ∷ rest)) lines stop rest rs
          (sent ++ quoted_ok ∷ []) (suc k) w w' (longer lines stop rest) l s e)
        refl

pub length-answer_all :
    (h : Bytes → M Bytes) (lines rs : List Bytes) (w w' : World)
    → answer_all h lines w ≡ (ok rs, w')
    → length rs ≡ length lines
unfolding ◌>>=◌
length-answer_all h [] rs w w' e = let (a, b) = ok-inj [] rs w w' e in rw (← a) refl
length-answer_all h (line ∷ lines) rs w w' e =
    let (res, w₁) = h line w in
    let (r, rs', a, b, c) = answer_all-inv h lines rs res w₁ w' e in
    rw c (ap suc (length-answer_all h lines rs' w₁ w' b))
