-- ===== src/Cache/Hashserv/Framing.antt =====
-- internal/cache/hashserv/framing.go: the opening exchange and the stream mode, over messages. Text
-- is ASCII where Go's strings functions look at characters (TrimSpace, ToLower, Fields).
pub mod Lines
pub mod Streams
pub mod Quiet
use bakery.Base.{
  ℕ, ◌+◌, Bool, true, false, not, ◌&&◌, ◌||◌, ◌==◌, Option, none, some, List, [], ◌∷◌, Bytes, codes,
  leb, eq_bytes, if◌then◌else◌, zero, suc, length,
}
use bakery.Cache.Hashserv.Exec.{
  Error, bad_handshake, bad_line, Result, ok, err, pure, fail, read_state, ◌>>=◌, ◌>>◌,
}
use bakery.Cache.Hashserv.Protocol.{Message, raw, quoted_ok}
use bakery.Cache.Hashserv.World.{World, M, receive, send}

abbrev pub is_space : ℕ → Bool
is_space b = leb 9 b && leb b 13 || b == 32

-- strings.Cut by one byte
unfoldable pub cut : ℕ → Bytes → Option (Bytes × Bytes)
cut c [] = none
cut c (b ∷ s) =
    let rest = cut c s in
    if b == c
    then some ([], s)
    else elim rest [ some (before, after) ↦ some (b ∷ before, after) | none ↦ none ]

unfoldable pub trim_left : Bytes → Bytes
trim_left [] = []
trim_left (b ∷ s) = let rest = trim_left s in if is_space b then rest else b ∷ s

abbrev keep_nonblank : ℕ → Bytes → Bytes
keep_nonblank b [] = if is_space b then [] else b ∷ []
keep_nonblank b (c ∷ s) = b ∷ c ∷ s

unfoldable pub trim_right : Bytes → Bytes
trim_right [] = []
trim_right (b ∷ s) = keep_nonblank b (trim_right s)

unfoldable pub trim_space : Bytes → Bytes
unfolding trim_left trim_right
trim_space s = trim_right (trim_left s)

abbrev lower_byte : ℕ → ℕ
lower_byte b = if leb 65 b && leb b 90 then b + 32 else b

unfoldable pub to_lower : Bytes → Bytes
to_lower [] = []
to_lower (b ∷ s) = lower_byte b ∷ to_lower s

abbrev push : Bytes → List Bytes → List Bytes
push [] ws = ws
push (b ∷ w) ws = (b ∷ w) ∷ ws

-- The fields of a text whose first word is begun: the rest of that word, and the later fields.
unfoldable pub fields_from : Bytes → Bytes × List Bytes
fields_from [] = ([], [])
fields_from (b ∷ s) =
    let (w, ws) = fields_from s in if is_space b then ([], push w ws) else (b ∷ w, ws)

-- strings.Fields
unfoldable pub fields : Bytes → List Bytes
unfolding fields_from
fields s = let (w, ws) = fields_from s in push w ws

abbrev two : List Bytes → Result (Bytes × Bytes)
two (m ∷ t ∷ []) = ok (m, t)
two _ = err bad_line

unfoldable pub parse_get_stream_line : Bytes → Result (Bytes × Bytes)
unfolding fields
parse_get_stream_line line = two (fields line)

abbrev pub Headers : Type 0
Headers = List (Bytes × Bytes)

-- headers[k]; a later header of a name is ahead of an earlier one.
unfoldable pub header : Bytes → Headers → Bytes
header k [] = []
header k ((j, v) ∷ hs) = if eq_bytes j k then v else header k hs

accept_proto_version : Bytes → Bool
unfolding eq_bytes
accept_proto_version v = eq_bytes v (codes "1.1")

-- The tests on the greeting.
unfoldable pub greeted : Option (Bytes × Bytes) → Bool
unfolding accept_proto_version
greeted none = false
greeted (some (name, version)) = eq_bytes name (codes "OEHASHEQUIV") && accept_proto_version version

-- What a header line adds.
unfoldable pub header_of : Bytes → Result (Bytes × Bytes)
unfolding cut trim_space to_lower
header_of line = elim (cut b':' line) [
  | none ↦ err bad_handshake
  | some (tag, value) ↦ ok (to_lower (trim_space tag), trim_space value)
]

abbrev pub lift : {A : Type 0} → Result A → M A
lift (ok a) = pure a
lift (err e) = fail e

-- The loop of `handshake` reads a message each round, so `fuel` is the length of the inbox, with
-- one round more for the read that finds it empty.
unfoldable pub read_headers : ℕ → Headers → M Headers
unfolding header_of
read_headers zero hs = do line ← receive; fail bad_handshake
read_headers (suc fuel) hs = do
  line ← receive
  if eq_bytes line [] then pure hs else do h ← lift (header_of line); read_headers fuel (h ∷ hs)

-- The empty reply to a client that asks for headers.
unfoldable pub reply_headers : Headers → M Headers
unfolding header
reply_headers headers =
    if eq_bytes (header (codes "needs-headers") headers) (codes "true")
    then send (raw []) >> pure headers
    else pure headers

unfoldable pub handshake : M Headers
unfolding greeted read_headers reply_headers
handshake = do
  greeting ← receive
  n ← read_state (λ w. length w.conn.inbox)
  if greeted (cut 32 greeting) then read_headers n [] >>= reply_headers else fail bad_handshake

abbrev pub ends_stream : Bytes → Bool
ends_stream line = eq_bytes line [] || eq_bytes line (codes "END")

-- The loop of `runStream`, over the lines in the inbox.
unfoldable pub stream_loop : (Bytes → M Bytes) → ℕ → M (Unit {0})
stream_loop h zero = do line ← receive; fail bad_line
stream_loop h (suc fuel) = do
  line ← receive
  if ends_stream line then pure tt else do resp ← h line; send (raw resp); stream_loop h fuel

unfoldable pub run_stream : (Bytes → M Bytes) → M (Unit {0})
unfolding stream_loop
run_stream h = do
  send quoted_ok
  n ← read_state (λ w. length w.conn.inbox)
  stream_loop h n
  send (raw (codes "ok"))
