-- ===== src/TunnelObject/Bridge.antt =====
-- The bridge's WebSocket in packages/server/src/tunnel-object.ts: `fetch`, `upgradeBridge`,
-- `webSocketMessage`, `webSocketClose` and `webSocketError`.
pub mod Attach
use shuvtunnel.Common.{
  ℕ, ◌+◌, List, [], ◌∷◌, ◌++◌, map, Option, none, some, Bool, true, false, ◌&&◌, ◌||◌, not, ◌==◌,
  if◌then◌else◌, Text, codes, same, includes, any, take, lower, split, trim, suc,
}
use shuvtunnel.Frame.{Bytes, DataFrame, parse_data_frame}
use shuvtunnel.Json.{
  Number, Json, array, object, null, boolean, number, string, get, as_string, as_number, strings,
}
use shuvtunnel.Protocol.{ServerControlMessage, websocket_subprotocol}
use shuvtunnel.Store.{StoredTunnel, offline}
use shuvtunnel.TunnelObject.{
  World, BridgeSocket, Attachment, Sent, control, Channel, Outcome, ended, aborted, open_state,
  is_open, live, save, send, close, find_socket, find_channel, finish_channel, is_attached,
}
use Attach.{Platform, attach}

-- The headers of the upgrade request that the object reads.
pub record UpgradeRequest : Type 0 where
  pub upgrade : Option Text
  pub protocols : Option Text

-- The status of the response; 101 comes with the client's end of the new socket.
pub data Upgrade : Type 0 where
  response : ℕ → Upgrade
  switching : ℕ → Upgrade

abbrev is_websocket : Option Text → Bool
is_websocket none = false
is_websocket (some value) = same (lower value) (codes "websocket")

abbrev offers_protocol : Option Text → Bool
offers_protocol none = false
offers_protocol (some value) = includes (map trim (split b',' value)) websocket_subprotocol

-- `acceptWebSocket(server, ["bridge"])`, with an attachment that is not attached yet.
abbrev pub new_socket : ℕ → BridgeSocket
new_socket id = record {
  id = id;
  ready_state = open_state;
  attachment =
      some (record { kind = codes "bridge"; attached = false; session = none; routes = none });
  sent = [];
}

abbrev pub accept : World → World
accept w = record w {
  sockets = w.sockets ++ new_socket w.next_socket ∷ [];
  next_socket = suc w.next_socket;
}

unfoldable pub fetch : UpgradeRequest → World → World × Upgrade
fetch request w = elim (live w.stored) [
  | none ↦ (w, response 404)
  | some r ↦
      if not (is_websocket request.upgrade)
      then (w, response 426)
      else if not (offers_protocol request.protocols)
      then (w, response 426)
      else (accept w, switching w.next_socket)
]

-- `channel.writer.write(payload)` on the channel of `conn`.
unfoldable pub write_channel : ℕ → Bytes → List (ℕ × Channel) → List (ℕ × Channel)
write_channel conn payload [] = []
write_channel conn payload ((k, c) ∷ rest) =
    (k, if k == conn then record c { written = c.written ++ payload ∷ [] } else c)
    ∷ write_channel conn payload rest

-- `channel?.bridge === socket`
abbrev pub is_on_bridge : ℕ → Option Channel → Bool
is_on_bridge id none = false
is_on_bridge id (some c) = c.bridge == id

unfoldable pub on_data : ℕ → Attachment → Bytes → World → World
unfolding write_channel
on_data id a bytes w =
    if not a.attached
    then close w id 1008 (codes "attach required")
    else elim (parse_data_frame bytes) [
      | none ↦ w
      | some frame ↦
          if is_on_bridge id (find_channel frame.conn w.channels)
          then record w { channels = write_channel frame.conn frame.payload w.channels }
          else w
    ]

-- `String(control.code ?? "reset")`; a value that is no string is printed by the platform.
abbrev reset_code : (Json → Text) → Option Json → Text
reset_code print none = codes "reset"
reset_code print (some null) = codes "reset"
reset_code print (some (string s)) = s
reset_code print (some (boolean b)) = print (boolean b)
reset_code print (some (number n)) = print (number n)
reset_code print (some (array items)) = print (array items)
reset_code print (some (object fields)) = print (object fields)

-- The connection that a number names in the map `channels`, whose keys are natural numbers.
abbrev conn_of : Option Number → Option ℕ
conn_of (some (Number.nat n)) = some n
conn_of _ = none

unfoldable pub finish_on_bridge : ℕ → Option ℕ → Outcome → World → World
finish_on_bridge id none outcome w = w
finish_on_bridge id (some conn) outcome w =
    if is_on_bridge id (find_channel conn w.channels) then finish_channel w conn outcome else w

unfoldable pub on_ping : ℕ → Option Number → World → World
on_ping id none w = w
on_ping id (some time) w = send w id (control (ServerControlMessage.pong time))

-- A control message on an attached socket.
unfoldable pub on_control : (Json → Text) → ℕ → Text → Json → World → World
unfolding finish_on_bridge on_ping
on_control print id type value w =
    let conn = conn_of (as_number (get (codes "conn") value)) in
    if same type (codes "ping")
    then on_ping id (as_number (get (codes "time_sent") value)) w
    else if same type (codes "end")
    then finish_on_bridge id conn ended w
    else if same type (codes "reset")
    then finish_on_bridge id conn (aborted (reset_code print (get (codes "code") value))) w
    else w

-- `parseControl` keeps objects and arrays; an array has no `type`, so it is refused as well.
unfoldable pub on_text : Platform → ℕ → Attachment → Option Json → World → World
on_text p id a parsed w = elim parsed [
  | none ↦ close w id 1008 (codes "invalid control")
  | some value ↦ elim (as_string (get (codes "type") value)) [
    | none ↦ close w id 1008 (codes "invalid control")
    | some type ↦
        if a.attached then on_control p.print id type value w else attach p id type value w
  ]
]

pub data Message : Type 0 where
  text : Text → Message
  binary : Bytes → Message

abbrev attachment_of : Option BridgeSocket → Option Attachment
attachment_of none = none
attachment_of (some s) = s.attachment

unfoldable pub web_socket_message : Platform → ℕ → Message → World → World
web_socket_message p id message w = elim (attachment_of (find_socket id w.sockets)) [
  | none ↦ close w id 1008 (codes "invalid session")
  | some a ↦
      if not (same a.kind (codes "bridge"))
      then close w id 1008 (codes "invalid session")
      else elim message [
        | binary bytes ↦ on_data id a bytes w
        | text message ↦ on_text p id a (p.parse message) w
      ]
]

-- Every channel of the bridge, in the order of the map.
unfoldable pub finish_all : ℕ → Text → List (ℕ × Channel) → World → World
finish_all id reason [] w = w
finish_all id reason ((conn, c) ∷ rest) w =
    finish_all id reason rest (if c.bridge == id then finish_channel w conn (aborted reason) else w)

-- Another open socket that is attached.
abbrev pub is_other_attached : ℕ → BridgeSocket → Bool
is_other_attached id s = not (s.id == id) && (is_open s.ready_state && is_attached s)

abbrev has_session : Option Attachment → Bool
has_session none = false
has_session (some a) = elim a.session [ none ↦ false | some s ↦ not (same s []) ]

unfoldable pub go_offline : ℕ → World → World
go_offline id w = elim (live w.stored) [
  | none ↦ w
  | some r ↦
      if any (is_other_attached id) w.sockets then w else save w (record r { state = offline })
]

unfoldable pub web_socket_close : ℕ → World → World
web_socket_close id w =
    if has_session (attachment_of (find_socket id w.sockets))
    then go_offline id (finish_all id (codes "Bridge disconnected") w.channels w)
    else w

-- `error.message.slice(0, 120)`; `none` is an error that is no `Error`.
unfoldable pub web_socket_error : ℕ → Option Text → World → World
web_socket_error id none w = close w id 1011 (codes "bridge error")
web_socket_error id (some message) w = close w id 1011 (take 120 message)
