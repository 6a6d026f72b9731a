-- ===== src/TunnelObject/Relay.antt =====
-- Public connections in packages/server/src/tunnel-object.ts: `connect`. The reads of the public
-- socket are a list of events; `connect` is the part up to the first reads after the ClientHello,
-- and `upload` one round of the upload loop that follows.
pub mod Allocate
pub mod Connect
pub mod Delivery
use shuvtunnel.Common.{
  ℕ, zero, suc, ◌+◌, ◌*◌, ◌%◌, ◌^◌, List, [], ◌∷◌, ◌++◌, map, Option, none, some, Bool, true, false,
  ◌&&◌, ◌||◌, not, ◌==◌, ltb, leb, if◌then◌else◌, Text, codes, same, includes, has_unit, ends_with,
  drop_end, length,
}
use shuvtunnel.Frame.{Bytes, build_data_frame}
use shuvtunnel.Hello.{
  ClientHelloResult, incomplete, invalid, complete, out_of_range, parse_client_hello, concat_bytes,
}
use shuvtunnel.Names.{root_route}
use shuvtunnel.Protocol.{ServerControlMessage, opened, error_code, client_io_error}
use shuvtunnel.Store.{StoredTunnel, ready_expiry}
use shuvtunnel.TunnelObject.{
  World, BridgeSocket, Sent, control, frame, send_on, Channel, Outcome, aborted, live, send,
  change_socket, is_attached, routes_of, find_channel, finish_channel, is_open, find_socket,
}

pub data ReadEvent : Type 0 where
  chunk : Bytes → ReadEvent
  done : ReadEvent

-- `initial`, `sni` and `alpn` after the first loop.
pub record Initial : Type 0 where
  pub chunks : List Bytes
  pub sni : Option Text
  pub alpn : Text

abbrev pub hello_limit : ℕ
hello_limit = 65536

-- After one more chunk: go on, or leave the loop.
abbrev after_chunk : List Bytes → ClientHelloResult → Option Initial → Option Initial
after_chunk chunks incomplete more = more
after_chunk chunks (invalid reason) more = some (record { chunks = chunks; sni = none; alpn = [] })
after_chunk chunks (complete hello) more =
    some (record { chunks = chunks; sni = some hello.server_name; alpn = hello.alpn })
after_chunk chunks out_of_range more = none

-- `none`: the next read has not ended yet.
unfoldable pub read_initial : (Bytes → Text) → List ReadEvent → List Bytes → ℕ → Option Initial
read_initial decode [] chunks size =
    if ltb size hello_limit then none else some (record { chunks = chunks; sni = none; alpn = [] })
read_initial decode (done ∷ rest) chunks size =
    some (record { chunks = chunks; sni = none; alpn = [] })
read_initial decode (chunk bytes ∷ rest) chunks size =
    let gathered = chunks ++ bytes ∷ [] in
    let more = read_initial decode rest gathered (size + length bytes) in
    if ltb size hello_limit
    then after_chunk gathered (parse_client_hello decode (concat_bytes gathered)) more
    else some (record { chunks = chunks; sni = none; alpn = [] })

-- The route of an SNI under the tunnel's hostname; `none` is `undefined`.
unfoldable pub route_of_sni : Text → Option Text → Option Text
route_of_sni hostname none = none
route_of_sni hostname (some sni) =
    if same sni hostname
    then some root_route
    else if ends_with sni (b'.' ∷ hostname)
    then some (drop_end sni (suc (length hostname)))
    else none

-- `!route || route.includes(".")`
abbrev pub is_bad_route : Text → Bool
is_bad_route [] = true
is_bad_route (c ∷ cs) = has_unit (c ∷ cs) b'.'

-- `.find((candidate) => … attached.routes?.includes(route))`
unfoldable pub find_bridge : Text → List BridgeSocket → Option BridgeSocket
find_bridge route [] = none
find_bridge route (s ∷ ss) =
    if is_attached s && includes (routes_of s) route then some s else find_bridge route ss

abbrev pub has_channel : ℕ → List (ℕ × Channel) → Bool
has_channel conn channels = elim (find_channel conn channels) [ none ↦ false | some c ↦ true ]

-- `conn === 0 || this.channels.has(conn)`
abbrev pub is_taken : ℕ → List (ℕ × Channel) → Bool
is_taken conn channels = (conn == 0) || has_channel conn channels

-- `this.sequence++ >>> 0`, again while the number is taken.
unfoldable pub allocate : ℕ → ℕ → List (ℕ × Channel) → Option (ℕ × ℕ)
allocate zero sequence channels = none
allocate (suc fuel) sequence channels =
    let again = allocate fuel (suc sequence) channels in
    if is_taken (sequence % 4294967296) channels
    then again
    else some (sequence % 4294967296, suc sequence)

pub data Connected : Type 0 where
  -- The ClientHello is not read yet.
  waiting : Connected
  refused : Connected
  -- the connection and its bridge
  relayed : ℕ → ℕ → Connected
  -- `bridge.send` throws, with the channel in the map.
  failed : ℕ → ℕ → Connected

-- The messages for a new connection: `open`, then the bytes read so far.
abbrev pub opening : ℕ → Text → Text → Text → List Bytes → List Sent
opening conn peer sni alpn chunks =
    control (opened conn peer sni alpn) ∷ map (λ c. frame (build_data_frame conn c)) chunks

abbrev pub send_all_on : List Sent → BridgeSocket → BridgeSocket
send_all_on messages s = record s { sent = s.sent ++ messages }

unfoldable pub open_channel : Text → Text → Initial → BridgeSocket → World → World × Connected
open_channel peer sni initial bridge w =
    elim (allocate (length w.channels + 2) w.sequence w.channels) [
      | none ↦ (w, refused)
      | some (conn, next) ↦
          let v = record w {
            sequence = next;
            channels = w.channels ++ (conn, record { bridge = bridge.id; written = [] }) ∷ [];
          } in
          let messages = opening conn peer sni initial.alpn initial.chunks in
          if is_open bridge.ready_state
          then (
            record v { sockets = change_socket bridge.id (send_all_on messages) v.sockets },
            relayed conn bridge.id,
          )
          else (v, failed conn bridge.id)
    ]

-- The checks on the record, the route and the bridge. `peer` is `info.remoteAddress ?? "unknown"`.
unfoldable pub route_connection : Text → Initial → World → World × Connected
route_connection peer initial w = elim (live w.stored) [
  | none ↦ (w, refused)
  | some r ↦ elim (ready_expiry r.certificate) [
    | none ↦ (w, refused)
    | some expiry ↦ elim initial.sni [
      | none ↦ (w, refused)
      | some sni ↦ elim (route_of_sni r.hostname (some sni)) [
        | none ↦ (w, refused)
        | some route ↦
            if is_bad_route route then (w, refused) else elim (find_bridge route w.sockets) [
              | none ↦ (w, refused)
              | some bridge ↦ open_channel peer sni initial bridge w
            ]
      ]
    ]
  ]
]

unfoldable pub connect : (Bytes → Text) → Text → List ReadEvent → World → World × Connected
connect decode peer events w = elim (read_initial decode events [] 0) [
  | none ↦ (w, waiting)
  | some initial ↦ route_connection peer initial w
]

-- One round of the upload loop. With a chunk comes `bridge.bufferedAmount` at that time.
pub data UploadEvent : Type 0 where
  upload_chunk : Bytes → ℕ → UploadEvent
  upload_done : UploadEvent
  upload_failed : Text → UploadEvent

abbrev pub backpressure_limit : ℕ
backpressure_limit = 16777216

abbrev give_up : ℕ → ℕ → Text → World → World
give_up conn bridge reason w =
    finish_channel
      (send w bridge (control (ServerControlMessage.reset conn (error_code client_io_error)))) conn
      (aborted reason)

abbrev pub upload_open : ℕ → ℕ → UploadEvent → World → World
upload_open conn bridge (upload_chunk bytes buffered) w =
    if ltb backpressure_limit buffered
    then give_up conn bridge (codes "Bridge backpressure limit") w
    else send w bridge (frame (build_data_frame conn bytes))
upload_open conn bridge upload_done w = send w bridge (control (ServerControlMessage.finish conn))
upload_open conn bridge (upload_failed reason) w = give_up conn bridge reason w

-- Whether `bridge.send` does not throw.
abbrev pub can_send : ℕ → World → Bool
can_send id w = elim (find_socket id w.sockets) [ none ↦ false | some s ↦ is_open s.ready_state ]

-- When the bridge is not open, `bridge.send` throws, and the `catch` throws at its own
-- `bridge.send` before `channel.finish`.
unfoldable pub upload : ℕ → ℕ → UploadEvent → World → World
upload conn bridge event w = if can_send bridge w then upload_open conn bridge event w else w
