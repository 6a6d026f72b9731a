-- ===== src/TunnelObject/Routes/Messages.antt =====
-- The events of packages/server/src/tunnel-object.ts that attach no bridge.
use shuvtunnel.Common.{
  ℕ, refl, List, [], ◌∷◌, Option, none, some, ◌==◌, Text, arith, Bool-cases, Option-cases, inl, inr,
  codes, length, ltb, ◌+◌,
}
use shuvtunnel.Frame.{Bytes}
use shuvtunnel.Json.{Json, Number}
use shuvtunnel.TunnelObject.{
  World, BridgeSocket, Attachment, Channel, Outcome, aborted, close_on, send, finish_channel,
  is_open,
}
use shuvtunnel.TunnelObject.Registry.{remove}
use shuvtunnel.TunnelObject.Bridge.{
  on_data, on_control, finish_on_bridge, on_ping, finish_all, web_socket_close, go_offline,
  web_socket_error,
}
use shuvtunnel.TunnelObject.Bridge.Attach.{refuse}
use shuvtunnel.TunnelObject.Relay.{
  ReadEvent, UploadEvent, upload_chunk, upload_done, upload_failed, Initial, connect,
  route_connection, open_channel, upload, upload_open, can_send, send_all_on, opening, allocate,
  backpressure_limit,
}
use shuvtunnel.TunnelObject.Routes.{
  Quiet, Quiet-refl, Quiet-trans, send-Quiet, close-Quiet, map-Weakened, close_on-Weakens,
  Weakened-refl, change_socket-Weakened,
}

finish_channel-Quiet : (w : World) (conn : ℕ) (o : Outcome) → Quiet w (finish_channel w conn o)
unfolding finish_channel
finish_channel-Quiet w conn o = ground (arith, Weakened-refl w.sockets)

pub on_data-Quiet :
    (id : ℕ) (a : Attachment) (bytes : Bytes) (w : World) → Quiet w (on_data id a bytes w)
unfolding on_data
on_data-Quiet id a bytes w =
    ground (arith, Weakened-refl w.sockets, close-Quiet w id 1008 (codes "attach required"))

finish_on_bridge-Quiet :
    (id : ℕ) (conn : Option ℕ) (o : Outcome) (w : World) → Quiet w (finish_on_bridge id conn o w)
unfolding finish_on_bridge
finish_on_bridge-Quiet id none o w = Quiet-refl w
finish_on_bridge-Quiet id (some conn) o w =
    ground (arith, Weakened-refl w.sockets, finish_channel-Quiet w conn o)

on_ping-Quiet : (id : ℕ) (time : Option Number) (w : World) → Quiet w (on_ping id time w)
unfolding on_ping
on_ping-Quiet id none w = Quiet-refl w
on_ping-Quiet id (some time) w = send-Quiet w w id _ refl refl

pub on_control-Quiet :
    (print : Json → Text) (id : ℕ) (type : Text) (value : Json) (w : World)
    → Quiet w (on_control print id type value w)
unfolding on_control
on_control-Quiet print id type value w =
    grind (arith, Quiet-refl, on_ping-Quiet, finish_on_bridge-Quiet)

finish_all-Quiet :
    (id : ℕ) (reason : Text) (channels : List (ℕ × Channel)) (w : World)
    → Quiet w (finish_all id reason channels w)
unfolding finish_all
finish_all-Quiet id reason [] w = Quiet-refl w
finish_all-Quiet id reason ((conn, c) ∷ rest) w = elim (Bool-cases (c.bridge == id)) [
  | inl hit ↦ rw hit (
      Quiet-trans w (finish_channel w conn (aborted reason)) _
        (finish_channel-Quiet w conn (aborted reason))
        (finish_all-Quiet id reason rest (finish_channel w conn (aborted reason))))
  | inr miss ↦ rw miss (finish_all-Quiet id reason rest w)
]

go_offline-Quiet : (id : ℕ) (w : World) → Quiet w (go_offline id w)
unfolding go_offline
go_offline-Quiet id w = ground (arith, Weakened-refl w.sockets)

pub web_socket_close-Quiet : (id : ℕ) (w : World) → Quiet w (web_socket_close id w)
unfolding web_socket_close
web_socket_close-Quiet id w =
    let finished = finish_all id (codes "Bridge disconnected") w.channels w in
    ground (
      arith,
      Weakened-refl w.sockets,
      Quiet-trans w finished (go_offline id finished)
          (finish_all-Quiet id (codes "Bridge disconnected") w.channels w)
          (go_offline-Quiet id finished),
    )

pub web_socket_error-Quiet :
    (id : ℕ) (message : Option Text) (w : World) → Quiet w (web_socket_error id message w)
unfolding web_socket_error
web_socket_error-Quiet id none w = close-Quiet w id 1011 _
web_socket_error-Quiet id (some message) w = close-Quiet w id 1011 _

pub refuse-Quiet : (w : World) (id : ℕ) (code reason : Text) → Quiet w (refuse w id code reason)
refuse-Quiet w id code reason =
    Quiet-trans w (send w id _) _ (send-Quiet w w id _ refl refl)
      (close-Quiet (send w id _) id 1008 reason)

upload_open-Quiet :
    (conn bridge : ℕ) (event : UploadEvent) (w : World) → Quiet w (upload_open conn bridge event w)
upload_open-Quiet conn bridge upload_done w = send-Quiet w w bridge _ refl refl
upload_open-Quiet conn bridge (upload_failed reason) w =
    Quiet-trans w (send w bridge _) _ (send-Quiet w w bridge _ refl refl)
      (finish_channel-Quiet _ conn _)
upload_open-Quiet conn bridge (upload_chunk bytes buffered) w =
    elim (Bool-cases (ltb backpressure_limit buffered)) [
      | inl over ↦ rw over (
          Quiet-trans w (send w bridge _) _ (send-Quiet w w bridge _ refl refl)
            (finish_channel-Quiet _ conn _))
      | inr fits ↦ rw fits (send-Quiet w w bridge _ refl refl)
    ]

pub upload-Quiet :
    (conn bridge : ℕ) (event : UploadEvent) (w : World) → Quiet w (upload conn bridge event w)
unfolding upload
upload-Quiet conn bridge event w = elim (Bool-cases (can_send bridge w)) [
  | inl can ↦ rw can (upload_open-Quiet conn bridge event w)
  | inr cannot ↦ rw cannot (Quiet-refl w)
]

open_channel-Quiet :
    (peer sni : Text) (initial : Initial) (bridge : BridgeSocket) (w : World)
    → Quiet w (open_channel peer sni initial bridge w).0
unfolding open_channel
open_channel-Quiet peer sni initial bridge w =
    elim (Option-cases (allocate (length w.channels + 2) w.sequence w.channels)) [
      | inl e ↦ rw (e, open_channel) (Quiet-refl w)
      | inr ((conn, next), e) ↦ elim (Bool-cases (is_open bridge.ready_state)) [
        | inl ready ↦
            rw (e, open_channel, ready)
              (record {
                weakened =
                    change_socket-Weakened
                      (send_all_on (opening conn peer sni initial.alpn initial.chunks))
                      (λ s. (refl, λ h. h, λ h. refl)) bridge.id w.sockets;
                next_socket = refl;
              })
        | inr closing ↦
            rw (e, open_channel, closing)
              (record { weakened = Weakened-refl w.sockets; next_socket = refl })
      ]
    ]

pub connect-Quiet :
    (decode : Bytes → Text) (peer : Text) (events : List ReadEvent) (w : World)
    → Quiet w (connect decode peer events w).0
unfolding connect route_connection
connect-Quiet decode peer events w = grind (arith, Quiet-refl, open_channel-Quiet)

pub remove-Quiet :
    (hash : Text → Text) (now : ℕ) (token : Text) (w : World) → Quiet w (remove hash now token w).0
unfolding remove
remove-Quiet hash now token w = ground (
  arith,
  Weakened-refl w.sockets,
  map-Weakened (close_on 1000 (codes "deleted")) (close_on-Weakens 1000 (codes "deleted"))
      w.sockets,
)
