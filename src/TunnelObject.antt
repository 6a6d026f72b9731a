-- ===== src/TunnelObject.antt =====
-- packages/server/src/tunnel-object.ts: the state of one tunnel's Durable Object, and the small
-- operations on it that the handlers share. The handlers stand in `Registry` (create, read, remove),
-- `Certificates` (updates, renewal, alarm), `Binding` (a CSR), `Bridge` (the bridge's WebSocket) and
-- `Relay` (public connections). Each is one function from the state before to the state after.
pub mod Registry
pub mod Certificates
pub mod Binding
pub mod Bridge
pub mod Relay
pub mod Steps
pub mod Sockets
pub mod Untouched
pub mod Routes
pub mod Tokens
pub mod Deletion
pub mod Pending
pub mod Issuance
pub mod Renewals
pub mod Channels
pub mod Serving
mod Tests
use shuvtunnel.Common.{
  ℕ, zero, suc, ◌+◌, ◌*◌, ◌%◌, ◌^◌, ◌≤◌, List, [], ◌∷◌, ◌++◌, map, Option, none, some, Bool, true,
  false, ◌&&◌, not, ◌==◌, if◌then◌else◌, Text, codes, same, any, leb, ltb,
}
use shuvtunnel.Frame.{Bytes}
use shuvtunnel.Protocol.{ServerControlMessage}
use shuvtunnel.Store.{StoredTunnel, Renewal, ready_expiry}

-- `DAY_MS`, `RENEW_BEFORE_MS`, `ACTIVE_WINDOW_MS`, `RENEWAL_RETRY_MS`, `RENEWAL_STALE_MS`
abbrev pub day_ms : ℕ
day_ms = 86400000

abbrev pub renew_before_ms : ℕ
renew_before_ms = 2592000000

abbrev pub active_window_ms : ℕ
active_window_ms = 7776000000

abbrev pub renewal_retry_ms : ℕ
renewal_retry_ms = 3600000

abbrev pub renewal_stale_ms : ℕ
renewal_stale_ms = 86400000

pub data ReadyState : Type 0 where
  open_state closing_state : ReadyState

abbrev pub is_open : ReadyState → Bool
is_open open_state = true
is_open closing_state = false

-- `BridgeAttachment`
pub record Attachment : Type 0 where
  pub kind : Text
  pub attached : Bool
  pub session : Option Text
  pub routes : Option (List Text)

-- What the object sends on a bridge: a control message, a binary frame, or the close frame.
pub data Sent : Type 0 where
  control : ServerControlMessage → Sent
  frame : Bytes → Sent
  close_frame : ℕ → Text → Sent

-- A hibernating server WebSocket. Its `id` is the identity that the source compares by `===`.
pub record BridgeSocket : Type 0 where
  pub id : ℕ
  pub ready_state : ReadyState
  pub attachment : Option Attachment
  pub sent : List Sent

-- A public connection: its bridge, and what was written to it.
pub record Channel : Type 0 where
  pub bridge : ℕ
  pub written : List Bytes

-- How a channel was finished: closed, or aborted with an error.
pub data Outcome : Type 0 where
  ended : Outcome
  aborted : Text → Outcome

-- `CertificateWorkflowParams`, and the calls of the workflow binding that the object makes.
pub record WorkflowParams : Type 0 where
  pub tunnel_id : Text
  pub certificate_id : Text
  pub hostname : Text
  pub identifiers : List Text
  pub csr : Text

pub data WorkflowCall : Type 0 where
  create : WorkflowParams → WorkflowCall
  restart : Text → WorkflowCall

pub record World : Type 0 where
  pub stored : Option StoredTunnel
  pub alarm_at : Option ℕ
  -- `ctx.getWebSockets("bridge")`, in its order
  pub sockets : List BridgeSocket
  pub next_socket : ℕ
  -- the map `channels`, in insertion order, and the channels that were finished
  pub channels : List (ℕ × Channel)
  pub finished : List (ℕ × Channel × Outcome)
  pub sequence : ℕ
  pub calls : List WorkflowCall

-- A new object: nothing stored, no sockets, `sequence = 1`.
abbrev pub empty_world : World
empty_world = record {
  stored = none;
  alarm_at = none;
  sockets = [];
  next_socket = 0;
  channels = [];
  finished = [];
  sequence = 1;
  calls = [];
}

-- `this.save(record)`
abbrev pub save : World → StoredTunnel → World
save w r = record w { stored = some r }

-- `ctx.storage.setAlarm(at)`
abbrev pub set_alarm : World → ℕ → World
set_alarm w at = record w { alarm_at = some at }

abbrev pub log_call : World → WorkflowCall → World
log_call w c = record w { calls = w.calls ++ c ∷ [] }

-- `!record || record.deletedAt`, and the token check that follows it in the handlers.
pub data Access : Type 0 where
  missing denied : Access
  granted : StoredTunnel → Access

unfoldable pub access : (Text → Text) → Option StoredTunnel → Text → Access
access hash none token = missing
access hash (some r) token = elim r.deleted_at [
  | some at ↦ missing
  | none ↦ if same (hash token) r.token_hash then granted r else denied
]

-- The live record: `none` for no record, and for a deleted one.
unfoldable pub live : Option StoredTunnel → Option StoredTunnel
live none = none
live (some r) = elim r.deleted_at [ some at ↦ none | none ↦ some r ]

unfoldable pub find_socket : ℕ → List BridgeSocket → Option BridgeSocket
find_socket id [] = none
find_socket id (s ∷ ss) = if s.id == id then some s else find_socket id ss

unfoldable pub change_socket :
    ℕ → (BridgeSocket → BridgeSocket) → List BridgeSocket → List BridgeSocket
change_socket id f [] = []
change_socket id f (s ∷ ss) = (if s.id == id then f s else s) ∷ change_socket id f ss

-- `socket.send`, and `socket.close(code, reason)`, which an open socket takes once.
abbrev pub send_on : Sent → BridgeSocket → BridgeSocket
send_on m s = record s { sent = s.sent ++ m ∷ [] }

abbrev pub close_on : ℕ → Text → BridgeSocket → BridgeSocket
close_on code reason s =
    if is_open s.ready_state
    then record s { ready_state = closing_state; sent = s.sent ++ close_frame code reason ∷ [] }
    else s

abbrev pub send : World → ℕ → Sent → World
send w id m = record w { sockets = change_socket id (send_on m) w.sockets }

abbrev pub close : World → ℕ → ℕ → Text → World
close w id code reason = record w { sockets = change_socket id (close_on code reason) w.sockets }

-- `(socket.deserializeAttachment() as BridgeAttachment | null)?.attached === true`
abbrev pub is_attached : BridgeSocket → Bool
is_attached s = elim s.attachment [ none ↦ false | some a ↦ a.attached ]

-- `existing.routes` of an attached socket; no routes otherwise.
abbrev pub routes_of : BridgeSocket → List Text
routes_of s = elim s.attachment [ none ↦ [] | some a ↦ elim a.routes [ none ↦ [] | some rs ↦ rs ] ]

unfoldable pub find_channel : ℕ → List (ℕ × Channel) → Option Channel
find_channel conn [] = none
find_channel conn ((k, c) ∷ rest) = if k == conn then some c else find_channel conn rest

unfoldable pub remove_channel : ℕ → List (ℕ × Channel) → List (ℕ × Channel)
remove_channel conn [] = []
remove_channel conn ((k, c) ∷ rest) =
    if k == conn then remove_channel conn rest else (k, c) ∷ remove_channel conn rest

-- `channel.finish(error)` for the channel of `conn`: it leaves the map, once.
unfoldable pub finish_channel : World → ℕ → Outcome → World
finish_channel w conn outcome = elim (find_channel conn w.channels) [
  | none ↦ w
  | some c ↦ record w {
    channels = remove_channel conn w.channels;
    finished = w.finished ++ (conn, c, outcome) ∷ [];
  }
]
