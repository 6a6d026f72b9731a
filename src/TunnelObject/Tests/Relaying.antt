-- ===== src/TunnelObject/Tests/Relaying.antt =====
-- The theorems on public connections and their channels at concrete inputs.
use shuvtunnel.Common.{
  ℕ, ◌≡◌, refl, inr, [], ◌∷◌, ◌++◌, none, some, false, true, codes, arith, any, same, includes,
  ends_with, drop_end, has_unit,
}
use shuvtunnel.TunnelObject.{
  closing_state, control, frame, World, BridgeSocket, find_socket, live, find_channel,
}
use shuvtunnel.TunnelObject.Bridge.{web_socket_message}
use shuvtunnel.TunnelObject.Relay.{
  route_connection, route_of_sni, find_bridge, open_channel, relayed, failed, allocate,
}
use shuvtunnel.TunnelObject.Relay.Allocate.{IsFree, allocate-total}
use shuvtunnel.TunnelObject.Relay.Connect.{Called, carries, Admitted, relayed→Admitted}
use shuvtunnel.TunnelObject.Relay.Delivery.{route_connection-relays, route_connection-closing}
use shuvtunnel.TunnelObject.Channels.{message_keeps_others, message_delivers}
use shuvtunnel.Protocol.{opened}
use shuvtunnel.Frame.{build_data_frame}
use shuvtunnel.TunnelObject.{Channel}
use shuvtunnel.TunnelObject.Bridge.{binary}
use shuvtunnel.TunnelObject.Tests.{bridge_attachment, host, platform, tunnel, bridge, busy, initial}

-- The next number is in use, and the one before it is 0.
allocate-total_example :
    (conn : ℕ) × (next : ℕ) × (allocate 3 4294967296 busy.channels ≡ some (conn, next))
    × IsFree conn busy.channels
allocate-total_example = allocate-total 4294967296 busy.channels (omega arith)

busy_relays : (route_connection (codes "1.2.3.4") initial busy).1 ≡ relayed 2 0
unfolding route_connection live route_of_sni ends_with drop_end same has_unit find_bridge includes
    open_channel allocate find_channel
busy_relays = refl

relayed-Admitted_example : Admitted busy initial 2 0
relayed-Admitted_example = relayed→Admitted (codes "1.2.3.4") initial busy 2 0 busy_relays

busy_is_live : live busy.stored ≡ some tunnel
unfolding live
busy_is_live = refl

api_is_Called : Called (codes "api.t1.shuv.zip") host (codes "api")
unfolding has_unit
api_is_Called = inr (refl, refl)

-- A bridge without the route, the one that has it, and the first one once more under another number.
abbrev api_bridge : BridgeSocket
api_bridge = record bridge { id = 4 }

abbrev idle_bridge : BridgeSocket
idle_bridge = record bridge { id = 3; attachment = none }

abbrev busy_bridges : World
busy_bridges = record busy { sockets = idle_bridge ∷ api_bridge ∷ bridge ∷ [] }

api_is_carried : carries (codes "api") api_bridge ≡ true
unfolding includes same
api_is_carried = refl

idle_carries_nothing : any (carries (codes "api")) (idle_bridge ∷ []) ≡ false
idle_carries_nothing = refl

route_connection-relays_example :
    (conn : ℕ) × (next : ℕ) × IsFree conn busy_bridges.channels
    × (route_connection (codes "1.2.3.4") initial busy_bridges ≡ (
      record busy_bridges {
        sequence = next;
        channels = busy_bridges.channels ++ (conn, record { bridge = 4; written = [] }) ∷ [];
        sockets =
            idle_bridge
            ∷ record api_bridge {
              sent =
                  control (opened conn (codes "1.2.3.4") (codes "api.t1.shuv.zip") (codes "h2"))
                  ∷ frame (build_data_frame conn (22 ∷ 3 ∷ []))
                  ∷ [];
            }
            ∷ bridge
            ∷ [];
      },
      relayed conn 4,
    ))
route_connection-relays_example =
    route_connection-relays (codes "1.2.3.4") (codes "api.t1.shuv.zip") (codes "api") 9000000000
      initial tunnel busy_bridges (idle_bridge ∷ []) (bridge ∷ []) api_bridge (omega arith)
      busy_is_live refl refl api_is_Called refl idle_carries_nothing api_is_carried refl refl refl

-- The same with the bridge closing, and an open one behind it that has the route too.
abbrev closing_bridge : BridgeSocket
closing_bridge = record api_bridge { ready_state = closing_state }

abbrev closing_bridges : World
closing_bridges = record busy { sockets = closing_bridge ∷ bridge ∷ [] }

closing_is_carried : carries (codes "api") closing_bridge ≡ true
unfolding includes same
closing_is_carried = refl

route_connection-closing_example :
    (conn : ℕ) × (next : ℕ) × IsFree conn closing_bridges.channels
    × (route_connection (codes "1.2.3.4") initial closing_bridges ≡ (
      record closing_bridges {
        sequence = next;
        channels = closing_bridges.channels ++ (conn, record { bridge = 4; written = [] }) ∷ [];
      },
      failed conn 4,
    ))
route_connection-closing_example =
    route_connection-closing (codes "1.2.3.4") (codes "api.t1.shuv.zip") (codes "api") 9000000000
      initial tunnel closing_bridges [] (bridge ∷ []) closing_bridge (omega arith) busy_is_live refl
      refl api_is_Called refl refl closing_is_carried refl

abbrev first_channel : Channel
first_channel = record { bridge = 0; written = [] }

busy_channel : find_channel 1 busy.channels ≡ some first_channel
unfolding find_channel
busy_channel = refl

busy_socket : find_socket 0 busy.sockets ≡ some bridge
unfolding find_socket
busy_socket = refl

abbrev two_bridges : World
two_bridges = record busy { sockets = bridge ∷ record bridge { id = 1 } ∷ [] }

-- Another bridge sends data for the connection of the first one.
message_keeps_others_example :
    find_channel 1
      (web_socket_message platform 1 (binary (build_data_frame 1 (104 ∷ []))) two_bridges).channels
    ≡ some first_channel
message_keeps_others_example =
    message_keeps_others platform 1 1 first_channel (binary (build_data_frame 1 (104 ∷ [])))
      two_bridges busy_channel (λ e. absurd (ground arith))

message_delivers_example :
    find_channel 1
      (web_socket_message platform 0 (binary (build_data_frame 1 (104 ∷ []))) busy).channels
    ≡ some (record { bridge = 0; written = (104 ∷ []) ∷ [] })
message_delivers_example =
    message_delivers platform 0 1 bridge bridge_attachment (104 ∷ []) first_channel busy busy_socket
      refl refl refl (omega arith) busy_channel refl
