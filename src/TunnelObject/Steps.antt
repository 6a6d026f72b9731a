-- ===== src/TunnelObject/Steps.antt =====
-- The events that reach the object of packages/server/src/tunnel-object.ts, each handled to its end
-- before the next, and what the platform does around a handler.
use shuvtunnel.Common.{ℕ, List, [], ◌∷◌, Option, none, Bool, Text, ◌==◌, if◌then◌else◌}
use shuvtunnel.Frame.{Bytes}
use shuvtunnel.Store.{CertificateState}
use shuvtunnel.TunnelObject.{World, BridgeSocket}
use shuvtunnel.TunnelObject.Registry.{initialize, remove}
use shuvtunnel.TunnelObject.Certificates.{update_certificate, alarm}
use shuvtunnel.TunnelObject.Binding.{CertificateRequest, Workflows, bind_certificate}
use shuvtunnel.TunnelObject.Bridge.Attach.{Platform}
use shuvtunnel.TunnelObject.Bridge.{
  UpgradeRequest, fetch, Message, web_socket_message, web_socket_close, web_socket_error,
}
use shuvtunnel.TunnelObject.Relay.{ReadEvent, UploadEvent, connect, upload}

pub data Event : Type 0 where
  initializes : ℕ → Text → Text → Text → Event
  updates : ℕ → Text → CertificateState → Event
  alarms : ℕ → Text → Bool → Event
  binds :
      (Text → Text) → (Text → Option CertificateRequest) → Workflows → Text → Text → Text → Event
  removes : (Text → Text) → ℕ → Text → Event
  fetches : UpgradeRequest → Event
  messages : Platform → ℕ → Message → Event
  closes : ℕ → Event
  errors : ℕ → Option Text → Event
  connects : (Bytes → Text) → Text → List ReadEvent → Event
  uploads : ℕ → ℕ → UploadEvent → Event

-- A socket whose close event was handled is no longer among `getWebSockets`.
unfoldable pub drop_socket : ℕ → List BridgeSocket → List BridgeSocket
drop_socket id [] = []
drop_socket id (s ∷ ss) = if s.id == id then drop_socket id ss else s ∷ drop_socket id ss

unfoldable pub step : World → Event → World
step w (initializes now id hostname token_hash) = (initialize now id hostname token_hash w).0
step w (updates now id input) = (update_certificate now id input w).0
-- The alarm is no longer set when its handler runs.
step w (alarms now uuid create_fails) = alarm now uuid create_fails (record w { alarm_at = none })
step w (binds hash parse wf uuid token csr) = (bind_certificate hash parse wf uuid token csr w).0
step w (removes hash now token) = (remove hash now token w).0
step w (fetches request) = (fetch request w).0
step w (messages p id message) = web_socket_message p id message w
step w (closes id) =
    let w' = web_socket_close id w in record w' { sockets = drop_socket id w'.sockets }
step w (errors id message) = web_socket_error id message w
step w (connects decode peer events) = (connect decode peer events w).0
step w (uploads conn bridge event) = upload conn bridge event w

unfoldable pub run : World → List Event → World
run w [] = w
run w (e ∷ es) = run (step w e) es
