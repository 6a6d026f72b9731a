-- ===== src/Protocol.antt =====
-- The control messages of packages/protocol/src/bridge-protocol.ts: their types, the constants, the
-- objects that are sent for them, and `decodeServerMessage` on a parsed value.
pub mod RoundTrip
mod Tests
use shuvtunnel.Common.{
  ℕ, List, [], ◌∷◌, Option, none, some, Bool, true, false, if◌then◌else◌, Text, codes, same, leb,
  ◌^◌, ◌-◌,
}
use shuvtunnel.Json.{
  Number, nat, other, Json, null, boolean, number, string, array, object, Items, nil, cons, Fields,
  end, field, get, as_string, as_number, strings, from_strings,
}

-- The largest `ConnID`, 0xffffffff.
abbrev pub max_conn_id : ℕ
max_conn_id = 4294967295

pub record ClientInfo : Type 0 where
  pub version : Text
  pub max_conns : Number

pub data ClientControlMessage : Type 0 where
  attach : Text → ClientInfo → Option (List Text) → ClientControlMessage
  ping pong : Number → ClientControlMessage
  drain : Text → ClientControlMessage
  finish : ℕ → ClientControlMessage
  reset : ℕ → Text → ClientControlMessage

-- `end` is a message of the source; the name is a constructor of the JSON fields here.
pub data ServerControlMessage : Type 0 where
  attached : Text → List Text → Number → Number → ServerControlMessage
  attach_error : Text → ServerControlMessage
  ping pong : Number → ServerControlMessage
  drain : Text → ServerControlMessage
  opened : ℕ → Text → Text → Text → ServerControlMessage
  finish : ℕ → ServerControlMessage
  reset : ℕ → Text → ServerControlMessage

-- `WEBSOCKET_SUBPROTOCOL`
abbrev pub websocket_subprotocol : Text
websocket_subprotocol = codes "shuvtunnel"

-- `BridgeErrorCode`
pub data BridgeErrorCode : Type 0 where
  bad_attach bad_token tunnel_not_bound cert_not_ready replaced : BridgeErrorCode
  upstream_connect_failed upstream_io_error client_io_error idle_timeout : BridgeErrorCode
  route_conflict invalid_route unknown_route : BridgeErrorCode

abbrev pub error_code : BridgeErrorCode → Text
error_code bad_attach = codes "bad_attach"
error_code bad_token = codes "bad_token"
error_code tunnel_not_bound = codes "tunnel_not_bound"
error_code cert_not_ready = codes "cert_not_ready"
error_code replaced = codes "replaced"
error_code upstream_connect_failed = codes "upstream_connect_failed"
error_code upstream_io_error = codes "upstream_io_error"
error_code client_io_error = codes "client_io_error"
error_code idle_timeout = codes "idle_timeout"
error_code route_conflict = codes "route_conflict"
error_code invalid_route = codes "invalid_route"
error_code unknown_route = codes "unknown_route"

-- `BridgeTiming`
abbrev pub heartbeat_ms : ℕ
heartbeat_ms = 15000

abbrev pub idle_timeout_ms : ℕ
idle_timeout_ms = 45000

abbrev pub connect_timeout_ms : ℕ
connect_timeout_ms = 10000

abbrev pub reconnect_backoff_min_ms : ℕ
reconnect_backoff_min_ms = 250

abbrev pub reconnect_backoff_max_ms : ℕ
reconnect_backoff_max_ms = 30000

-- The object of a server message, in the source's order of fields.
abbrev typed : Text → Fields → Json
typed type fields = object (field (codes "type") (string type) fields)

unfoldable pub server_json : ServerControlMessage → Json
unfolding from_strings
server_json (attached session routes heartbeat idle) = typed (codes "attached") (
    field (codes "session") (string session) (
      field (codes "routes") (array (from_strings routes)) (
        field (codes "heartbeat_ms") (number heartbeat)
          (field (codes "idle_timeout_ms") (number idle) end))))
server_json (attach_error code) =
    typed (codes "attach_error") (field (codes "code") (string code) end)
server_json (ping time) = typed (codes "ping") (field (codes "time_sent") (number time) end)
server_json (pong time) = typed (codes "pong") (field (codes "time_sent") (number time) end)
server_json (drain reason) = typed (codes "drain") (field (codes "reason") (string reason) end)
server_json (opened conn peer sni alpn) = typed (codes "open") (
    field (codes "conn") (number (nat conn)) (
      field (codes "peer") (string peer)
        (field (codes "sni") (string sni) (field (codes "alpn") (string alpn) end))))
server_json (finish conn) = typed (codes "end") (field (codes "conn") (number (nat conn)) end)
server_json (reset conn code) =
    typed (codes "reset")
      (field (codes "conn") (number (nat conn)) (field (codes "code") (string code) end))

infixl 5 ◌>>=◌
abbrev ◌>>=◌ {ℓ κ} : {A : Type ℓ} {B : Type κ} → Option A → (A → Option B) → Option B
none >>= f = none
some a >>= f = f a

-- `ConnID`: an integer from 0 to 0xffffffff.
conn_id : Option Json → Option ℕ
conn_id (some (number (nat n))) = if leb n max_conn_id then some n else none
conn_id _ = none

-- `Schema.Array(Schema.String)`: every item is a string.
string_items : Items → Option (List Text)
string_items nil = some []
string_items (cons (string s) rest) = do ss ← string_items rest; some (s ∷ ss)
string_items (cons _ rest) = none

string_array : Option Json → Option (List Text)
unfolding string_items
string_array (some (array items)) = string_items items
string_array _ = none

-- One decoder for each member of the union.
decode_attached : Json → Option ServerControlMessage
unfolding string_array
decode_attached value = do
  session ← as_string (get (codes "session") value)
  routes ← string_array (get (codes "routes") value)
  heartbeat ← as_number (get (codes "heartbeat_ms") value)
  idle ← as_number (get (codes "idle_timeout_ms") value)
  some (attached session routes heartbeat idle)

decode_attach_error : Json → Option ServerControlMessage
decode_attach_error value = do code ← as_string (get (codes "code") value); some (attach_error code)

decode_ping : Json → Option ServerControlMessage
decode_ping value = do time ← as_number (get (codes "time_sent") value); some (ping time)

decode_pong : Json → Option ServerControlMessage
decode_pong value = do time ← as_number (get (codes "time_sent") value); some (pong time)

decode_drain : Json → Option ServerControlMessage
decode_drain value = do reason ← as_string (get (codes "reason") value); some (drain reason)

decode_open : Json → Option ServerControlMessage
unfolding conn_id
decode_open value = do
  conn ← conn_id (get (codes "conn") value)
  peer ← as_string (get (codes "peer") value)
  sni ← as_string (get (codes "sni") value)
  alpn ← as_string (get (codes "alpn") value)
  some (opened conn peer sni alpn)

decode_end : Json → Option ServerControlMessage
unfolding conn_id
decode_end value = do conn ← conn_id (get (codes "conn") value); some (finish conn)

decode_reset : Json → Option ServerControlMessage
unfolding conn_id
decode_reset value = do
  conn ← conn_id (get (codes "conn") value)
  code ← as_string (get (codes "code") value)
  some (reset conn code)

-- `decodeUnknownOption(ServerControlMessage)`: the member of the union that `type` names, with all
-- its fields; fields of no member are ignored.
decode_typed : Text → Json → Option ServerControlMessage
unfolding decode_attached decode_attach_error decode_ping decode_pong decode_drain decode_open
    decode_end decode_reset
decode_typed type value =
    if same type (codes "attached")
    then decode_attached value
    else if same type (codes "attach_error")
    then decode_attach_error value
    else if same type (codes "ping")
    then decode_ping value
    else if same type (codes "pong")
    then decode_pong value
    else if same type (codes "drain")
    then decode_drain value
    else if same type (codes "open")
    then decode_open value
    else if same type (codes "end")
    then decode_end value
    else if same type (codes "reset")
    then decode_reset value
    else none

unfoldable pub decode_server_message : Json → Option ServerControlMessage
unfolding decode_typed
decode_server_message value = do
  type ← as_string (get (codes "type") value)
  decode_typed type value
