-- ===== src/Protocol/RoundTrip.antt =====
-- What the server sends is what the client decodes.
use shuvtunnel.Common.{◌≤◌, ◌≡◌, refl, List, [], ◌∷◌, some, Text, same, le→leb}
use shuvtunnel.Json.{get, from_strings}
use shuvtunnel.Protocol.{
  ServerControlMessage, attached, attach_error, opened, max_conn_id, server_json, string_items,
  decode_server_message,
}

-- The connection of a message, if it names one, is a `ConnID`.
abbrev pub HasConnId : ServerControlMessage → Type 0
HasConnId (opened conn peer sni alpn) = conn ≤ max_conn_id
HasConnId (ServerControlMessage.finish conn) = conn ≤ max_conn_id
HasConnId (ServerControlMessage.reset conn code) = conn ≤ max_conn_id
HasConnId _ = Unit

string_items-from_strings : (ss : List Text) → string_items (from_strings ss) ≡ some ss
unfolding string_items from_strings
string_items-from_strings [] = refl
string_items-from_strings (s ∷ ss) = rw (string_items-from_strings ss)

-- A server message whose connection number, if it has one, is a `ConnID`, is decoded from its
-- JSON to itself.
pub decode-server_json :
    (m : ServerControlMessage) → HasConnId m → decode_server_message (server_json m) ≡ some m
unfolding decode_server_message server_json get same
decode-server_json (attached session routes heartbeat idle) h =
    rw (string_items-from_strings routes)
decode-server_json (attach_error code) h = refl
decode-server_json (ServerControlMessage.ping t) h = refl
decode-server_json (ServerControlMessage.pong t) h = refl
decode-server_json (ServerControlMessage.drain r) h = refl
decode-server_json (opened conn peer sni alpn) h = rw (le→leb conn max_conn_id h)
decode-server_json (ServerControlMessage.finish conn) h = rw (le→leb conn max_conn_id h)
decode-server_json (ServerControlMessage.reset conn code) h = rw (le→leb conn max_conn_id h)
