-- ===== src/Client/Session/Events.antt =====
-- The other events of a session: its socket and timers, `sendData`, and what the streams of a channel
-- report; and their sequence, packages/client/src/effect/tunnel.ts.
use shuvtunnel.Common.{
  ℕ, ◌-◌, List, [], ◌∷◌, ◌++◌, Option, none, some, Bool, true, false, ◌&&◌, ◌||◌, not,
  if◌then◌else◌, Text, codes, ltb,
}
use shuvtunnel.Json.{nat}
use shuvtunnel.Frame.{Bytes, send_data}
use shuvtunnel.Protocol.{
  ClientControlMessage, ServerControlMessage, error_code, upstream_io_error,
  upstream_connect_failed,
}
use shuvtunnel.Client.{Routes, names_of, sort_names, SessionEnd, retry}
use shuvtunnel.Client.Session.{
  Sent, Channel, Session, is_open, is_opening, send_control, finish_channel, destroy, run_waiters,
  end_session, socket_opening, socket_open, socket_closing, frame,
}
use shuvtunnel.Client.Session.Channels.{on_data, on_control}

-- The socket opens.
abbrev pub version : Text
version = codes "0.1.0"

abbrev pub max_conns : ℕ
max_conns = 256

unfoldable pub on_open : Text → Session → Session
on_open token s =
    if is_opening s.socket
    then send_control
        (ClientControlMessage.attach token (record { version = version; max_conns = nat max_conns })
          (some (sort_names (names_of s.routes))))
        (record s { socket = socket_open })
    else s

-- The timer of the heartbeat.
unfoldable pub on_heartbeat : ℕ → Session → Session
on_heartbeat now s = elim s.heartbeat [
  | none ↦ s
  | some (period, idle) ↦
      if ltb idle (now - s.last_received)
      then end_session (retry (codes "bridge idle timeout") true) s
      else send_control (ClientControlMessage.ping (nat now)) s
]

unfoldable pub on_attach_timeout : Session → Session
on_attach_timeout s =
    if s.attach_timer then end_session (retry (codes "bridge attach timed out") false) s else s

-- The socket is closed, for this reason.
unfoldable pub on_close : Text → Session → Session
on_close reason s =
    end_session (retry (codes "bridge closed: " ++ reason) s.is_attached)
      (record s { socket = socket_closing })

abbrev pub high_water_mark : ℕ
high_water_mark = 1048576

abbrev pub low_water_mark : ℕ
low_water_mark = 262144

abbrev pub has_ended : Option SessionEnd → Bool
has_ended none = false
has_ended (some e) = true

abbrev pub as_frames : List Bytes → List Sent
as_frames [] = []
as_frames (b ∷ bs) = frame b ∷ as_frames bs

-- `sendData`, where the socket has `buffered` bytes waiting after the frames and `done` is a number.
unfoldable pub send_bytes : ℕ → Bytes → ℕ → ℕ → Session → Session
send_bytes conn bytes buffered done s =
    if has_ended s.ended || not (is_open s.socket)
    then record s { called = s.called ++ (done, true) ∷ [] }
    else let queued = record s { sent = s.sent ++ as_frames (send_data conn bytes) } in
      if ltb buffered high_water_mark
      then record queued { called = s.called ++ (done, false) ∷ [] }
      else record queued { waiters = s.waiters ++ done ∷ []; drain_timer = true }

-- The timer of the drain, with what the socket has waiting.
unfoldable pub on_drain_timer : ℕ → Session → Session
on_drain_timer buffered s =
    if not s.drain_timer || (ltb low_water_mark buffered && not (has_ended s.ended))
    then s
    else run_waiters (record s { drain_timer = false })

-- What the streams of a channel report.
unfoldable pub on_upstream_error : ℕ → Bool → Text → Session → Session
on_upstream_error id connecting message s =
    destroy id (error_code (if connecting then upstream_connect_failed else upstream_io_error)) true
      message s

unfoldable pub on_tls_error : ℕ → Text → Session → Session
on_tls_error id message s = destroy id (error_code upstream_io_error) true message s

-- The end of the local side sends `end`.
unfoldable pub on_local_end : ℕ → Session → Session
on_local_end id s = send_control (ClientControlMessage.finish (s.objects id).conn) s

-- A socket gives its messages only while it is open.
pub data SessionEvent : Type 0 where
  opens_socket : Text → SessionEvent
  receives_control : Text → Routes → ServerControlMessage → ℕ → SessionEvent
  receives_data : Bytes → ℕ → ℕ → SessionEvent
  beats : ℕ → SessionEvent
  times_out : SessionEvent
  closes_socket : Text → SessionEvent
  is_ended : SessionEnd → SessionEvent
  sends : ℕ → Bytes → ℕ → ℕ → SessionEvent
  drains : ℕ → SessionEvent
  upstream_fails : ℕ → Bool → Text → SessionEvent
  tls_fails : ℕ → Text → SessionEvent
  tls_closes : ℕ → SessionEvent
  ends_locally : ℕ → SessionEvent

unfoldable pub session_step : Session → SessionEvent → Session
session_step s (opens_socket token) = on_open token s
session_step s (receives_control hostname routes m now) =
    if is_open s.socket then on_control hostname routes m (record s { last_received = now }) else s
session_step s (receives_data bytes buffered now) =
    if is_open s.socket then on_data bytes buffered (record s { last_received = now }) else s
session_step s (beats now) = on_heartbeat now s
session_step s times_out = on_attach_timeout s
session_step s (closes_socket reason) = on_close reason s
session_step s (is_ended e) = end_session e s
session_step s (sends conn bytes buffered done) = send_bytes conn bytes buffered done s
session_step s (drains buffered) = on_drain_timer buffered s
session_step s (upstream_fails id connecting message) = on_upstream_error id connecting message s
session_step s (tls_fails id message) = on_tls_error id message s
session_step s (tls_closes id) = finish_channel id none s
session_step s (ends_locally id) = on_local_end id s

-- `run`, once its socket is made.
abbrev pub nothing : Channel
nothing = record {
  conn = 0;
  route = [];
  target = record { host = []; port = 0 };
  is_done = true;
  inbound = [];
}

abbrev pub new_session : Routes → ℕ → Session
new_session routes now = record {
  routes = routes;
  socket = socket_opening;
  sent = [];
  ended = none;
  is_attached = false;
  objects = λ id. nothing;
  next_object = 0;
  channels = [];
  waiters = [];
  called = [];
  drain_timer = false;
  heartbeat = none;
  attach_timer = true;
  last_received = now;
  hooks = [];
}

unfoldable pub session_run : Session → List SessionEvent → Session
session_run s [] = s
session_run s (e ∷ es) = session_run (session_step s e) es
