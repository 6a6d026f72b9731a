-- ===== src/TunnelObject/Deletion.antt =====
-- The events of packages/server/src/tunnel-object.ts that keep the record and ask for no certificate,
-- and what `remove` leaves.
use shuvtunnel.Common.{
  ℕ, ◌≡◌, refl, ◌∙◌, List, [], ◌∷◌, map, Option, none, some, false, ◌==◌, Text, arith, any,
  Bool-cases, inl, inr, codes,
}
use shuvtunnel.Frame.{Bytes}
use shuvtunnel.Json.{Json, Number}
use shuvtunnel.TunnelObject.{
  World, BridgeSocket, Attachment, Channel, Outcome, aborted, live, finish_channel, close_on,
  is_open,
}
use shuvtunnel.TunnelObject.Registry.{remove, RemoveResult}
use shuvtunnel.TunnelObject.Bridge.{
  on_data, on_control, on_ping, finish_on_bridge, finish_all, web_socket_error,
}
use shuvtunnel.TunnelObject.Relay.{
  ReadEvent, UploadEvent, upload_chunk, upload_done, upload_failed, open_channel, route_connection,
  connect, upload,
}

-- The record and the workflow calls are as they were.
pub record Steady (v w : World) : Type 0 where
  pub stored : w.stored ≡ v.stored
  pub calls : w.calls ≡ v.calls

Steady-refl : (w : World) → Steady w w
Steady-refl w = record { stored = refl; calls = refl }

Steady-trans : (u v w : World) → Steady u v → Steady v w → Steady u w
Steady-trans u v w p q = record { stored = q.stored ∙ p.stored; calls = q.calls ∙ p.calls }

finish_channel-Steady : (w : World) (conn : ℕ) (o : Outcome) → Steady w (finish_channel w conn o)
unfolding finish_channel
finish_channel-Steady w conn o = ground arith

finish_on_bridge-Steady :
    (id : ℕ) (conn : Option ℕ) (o : Outcome) (w : World) → Steady w (finish_on_bridge id conn o w)
unfolding finish_on_bridge
finish_on_bridge-Steady id none o w = Steady-refl w
finish_on_bridge-Steady id (some conn) o w = ground (arith, finish_channel-Steady w conn o)

on_ping-Steady : (id : ℕ) (time : Option Number) (w : World) → Steady w (on_ping id time w)
unfolding on_ping
on_ping-Steady id none w = Steady-refl w
on_ping-Steady id (some time) w = record { stored = refl; calls = refl }

pub on_control-Steady :
    (print : Json → Text) (id : ℕ) (type : Text) (value : Json) (w : World)
    → Steady w (on_control print id type value w)
unfolding on_control
on_control-Steady print id type value w =
    grind (arith, Steady-refl, on_ping-Steady, finish_on_bridge-Steady)

pub on_data-Steady :
    (id : ℕ) (a : Attachment) (bytes : Bytes) (w : World) → Steady w (on_data id a bytes w)
unfolding on_data
on_data-Steady id a bytes w = ground arith

pub finish_all-Steady :
    (id : ℕ) (reason : Text) (channels : List (ℕ × Channel)) (w : World)
    → Steady w (finish_all id reason channels w)
unfolding finish_all
finish_all-Steady id reason [] w = Steady-refl w
finish_all-Steady id reason ((conn, c) ∷ rest) w = elim (Bool-cases (c.bridge == id)) [
  | inl hit ↦ rw hit (
      Steady-trans w (finish_channel w conn (aborted reason)) _
        (finish_channel-Steady w conn (aborted reason))
        (finish_all-Steady id reason rest (finish_channel w conn (aborted reason))))
  | inr miss ↦ rw miss (finish_all-Steady id reason rest w)
]

pub web_socket_error-Steady :
    (id : ℕ) (message : Option Text) (w : World) → Steady w (web_socket_error id message w)
unfolding web_socket_error
web_socket_error-Steady id none w = record { stored = refl; calls = refl }
web_socket_error-Steady id (some message) w = record { stored = refl; calls = refl }

pub upload-Steady :
    (conn bridge : ℕ) (event : UploadEvent) (w : World) → Steady w (upload conn bridge event w)
unfolding upload finish_channel
upload-Steady conn bridge upload_done w = ground arith
upload-Steady conn bridge (upload_failed reason) w = ground arith
upload-Steady conn bridge (upload_chunk bytes buffered) w = ground arith

pub connect-Steady :
    (decode : Bytes → Text) (peer : Text) (events : List ReadEvent) (w : World)
    → Steady w (connect decode peer events w).0
unfolding connect route_connection open_channel
connect-Steady decode peer events w = ground arith

-- When `remove` answers ok, no live record is left, the map of channels is empty, and no bridge
-- socket is open.
pub remove-gone :
    (hash : Text → Text) (now : ℕ) (token : Text) (w : World)
    → (remove hash now token w).1 ≡ RemoveResult.ok
    → (live (remove hash now token w).0.stored ≡ none)
      × ((remove hash now token w).0.channels ≡ [])
      × (any (λ s. is_open s.ready_state) (remove hash now token w).0.sockets ≡ false)
unfolding remove live
remove-gone hash now token w ok = ground (arith, closed w.sockets)
  where
    closed :
        (ss : List BridgeSocket)
        → any (λ s. is_open s.ready_state) (map (close_on 1000 (codes "deleted")) ss) ≡ false
    closed [] = refl
    closed (s ∷ ss) = ground (arith, closed ss)
