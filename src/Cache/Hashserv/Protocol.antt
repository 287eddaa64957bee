-- ===== src/Cache/Hashserv/Protocol.antt =====
-- internal/cache/hashserv/protocol.go: the commands, the requests and the replies. The decoding of
-- JSON (encoding/json) is an argument, as a map from keys to payloads and a reader per request; a
-- reply is the value that is encoded.
use bakery.Base.{
  ℕ, Bool, ◌&&◌, ◌||◌, Option, none, some, List, [], ◌∷◌, Bytes, codes, leb, all, length,
}
use bakery.Cache.Hashserv.Exec.{Refusal, unknown_rpc, failed, Result, ok, err}
use bakery.Cache.Hashserv.Tables.{Details}

pub data Rpc : Type 0 where
  ping auth get get_outhash get_stream exists_stream report report_equiv remove backfill_wait : Rpc

unfoldable pub rpc_name : Rpc → Bytes
rpc_name ping = codes "ping"
rpc_name auth = codes "auth"
rpc_name get = codes "get"
rpc_name get_outhash = codes "get-outhash"
rpc_name get_stream = codes "get-stream"
rpc_name exists_stream = codes "exists-stream"
rpc_name report = codes "report"
rpc_name report_equiv = codes "report-equiv"
rpc_name remove = codes "remove"
rpc_name backfill_wait = codes "backfill-wait"

abbrev pub rpc_order : List Rpc
rpc_order =
    ping ∷ auth ∷ get ∷ get_outhash ∷ get_stream ∷ exists_stream ∷ report ∷ report_equiv ∷ remove
    ∷ backfill_wait ∷ []

-- The loop over `order`: the first name with a payload.
unfoldable pub first_rpc : List Rpc → (Bytes → Option Bytes) → Result (Rpc × Bytes)
first_rpc [] raw = err unknown_rpc
first_rpc (r ∷ rs) raw =
    let rest = first_rpc rs raw in
    elim (raw (rpc_name r)) [ some payload ↦ ok (r, payload) | none ↦ rest ]

unfoldable pub decode_request : Option (Bytes → Option Bytes) → Result (Rpc × Bytes)
unfolding first_rpc
decode_request none = err failed
decode_request (some raw) = first_rpc rpc_order raw

abbrev pub is_hex : ℕ → Bool
is_hex b = leb b'0' b && leb b b'9' || leb b'a' b && leb b b'f'

-- ^[0-9a-f]{1,64}$
unfoldable pub valid_unihash : Bytes → Bool
valid_unihash s = leb 1 (length s) && leb (length s) 64 && all is_hex s

pub record GetRequest : Type 0 where
  pub method : Bytes
  pub taskhash : Bytes
  pub all : Bool

pub record GetOuthashRequest : Type 0 where
  pub method : Bytes
  pub outhash : Bytes
  pub taskhash : Bytes
  pub with_unihash : Option Bool

pub record ReportRequest : Type 0 where
  pub method : Bytes
  pub taskhash : Bytes
  pub outhash : Bytes
  pub unihash : Bytes
  pub details : Details

pub record ReportEquivRequest : Type 0 where
  pub method : Bytes
  pub taskhash : Bytes
  pub unihash : Bytes

pub record AuthRequest : Type 0 where
  pub username : Bytes
  pub token : Bytes

-- The filter of a `remove`: a map from columns to values.
pub record RemoveRequest : Type 0 where
  pub filter : List (Bytes × Bytes)

pub record UnihashResponse : Type 0 where
  pub taskhash : Bytes
  pub method : Bytes
  pub unihash : Bytes

-- Without `created`, the text of the row's time.
pub record OuthashResponse : Type 0 where
  pub method : Bytes
  pub taskhash : Bytes
  pub outhash : Bytes
  pub details : Details
  pub unihash : Bytes

-- What json.Unmarshal makes of a message, and of the payload of each command.
pub record Codec : Type 0 where
  pub object : Bytes → Option (Bytes → Option Bytes)
  pub get_request : Bytes → Option GetRequest
  pub get_outhash_request : Bytes → Option GetOuthashRequest
  pub report_request : Bytes → Option ReportRequest
  pub report_equiv_request : Bytes → Option ReportEquivRequest
  pub auth_request : Bytes → Option AuthRequest
  pub remove_request : Bytes → Option RemoveRequest

-- A message to the client: raw text, or a value as JSON (`quoted_ok` is the text "ok" in quotes).
pub data Message : Type 0 where
  raw : Bytes → Message
  quoted_ok alive null : Message
  unihash : UnihashResponse → Message
  outhash : OuthashResponse → Message
  authenticated : Bytes → List Bytes → Message
  removed : ℕ → Message
  tasks : ℕ → Message
  invoke_error : Refusal → Message
