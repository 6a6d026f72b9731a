-- ===== src/Client/Session.antt =====
-- The classes `Session` and `Channel` of packages/client/src/effect/tunnel.ts: one bridge WebSocket and
-- the public connections on it. Channels are objects in a store, which the map of the session refers to;
-- TLS, the sockets of the targets and the timers' clocks are events. What a callback of a stream does
-- further is an event of its own.
pub mod Table
pub mod Kept
pub mod Closings
pub mod Emptying
pub mod Ending
pub mod Invariant
pub mod Steps
pub mod Channels
pub mod Events
mod Examples
use shuvtunnel.Common.{
  ℕ, ◌+◌, ◌-◌, max, List, [], ◌∷◌, ◌++◌, Option, none, some, Bool, true, false, ◌&&◌, ◌||◌, not,
  if◌then◌else◌, Text, codes, same, length, leb, ltb, ◌==◌,
}
use shuvtunnel.Json.{Number, nat, other}
use shuvtunnel.Frame.{Bytes, DataFrame, parse_data_frame, send_data}
use shuvtunnel.Names.{Target, parse_target, route_for_sni}
use shuvtunnel.Protocol.{
  ClientInfo, ClientControlMessage, ServerControlMessage, attached, attach_error, drain, opened,
  error_code, unknown_route, upstream_io_error, upstream_connect_failed,
}
use shuvtunnel.Client.{
  Routes, target_for, names_of, sort_names, SessionEnd, shutdown, routes_changed, fatal, retry,
  is_fatal_code, ClientEvent, connected, connection_opened, connection_closed,
}
use shuvtunnel.Client.Session.Table.{find, put, drop_key, entries}

pub data SocketState : Type 0 where
  socket_opening socket_open socket_closing : SocketState

-- What is sent on the socket.
pub data Sent : Type 0 where
  control : ClientControlMessage → Sent
  frame : Bytes → Sent

-- The calls of the tunnel's hooks.
pub data Hook : Type 0 where
  on_attach : Text → Hook
  on_count : ℕ → Hook
  on_event : ClientEvent → Hook

-- A `Channel`; `inbound` is what was pushed to its TLS side, `none` for the end.
pub record Channel : Type 0 where
  pub conn : ℕ
  pub route : Text
  pub target : Target
  pub is_done : Bool
  pub inbound : List (Option Bytes)

pub record Session : Type 0 where
  pub routes : Routes
  pub socket : SocketState
  pub sent : List Sent
  pub ended : Option SessionEnd
  pub is_attached : Bool
  pub objects : ℕ → Channel
  pub next_object : ℕ
  pub channels : List (ℕ × ℕ)
  pub waiters : List ℕ
  -- the callbacks that ran, with an error or without
  pub called : List (ℕ × Bool)
  pub drain_timer : Bool
  -- the interval of the heartbeat and the idle timeout
  pub heartbeat : Option (ℕ × ℕ)
  pub attach_timer : Bool
  pub last_received : ℕ
  pub hooks : List Hook

abbrev pub set_object : ℕ → Channel → Session → Session
set_object id c s = record s { objects = λ j. if j == id then c else s.objects j }

-- `sendControl`
abbrev pub is_open : SocketState → Bool
is_open socket_opening = false
is_open socket_open = true
is_open socket_closing = false

abbrev pub is_opening : SocketState → Bool
is_opening socket_opening = true
is_opening socket_open = false
is_opening socket_closing = false

abbrev pub send_control : ClientControlMessage → Session → Session
send_control m s = if is_open s.socket then record s { sent = s.sent ++ control m ∷ [] } else s

abbrev pub refers : ℕ → Option ℕ → Bool
refers id none = false
refers id (some j) = j == id

abbrev pub report_size : ClientEvent → Session → Session
report_size e s = record s { hooks = s.hooks ++ on_count (length s.channels) ∷ on_event e ∷ [] }

-- `Session.closed`: only for the channel that the map has under that number.
unfoldable pub closed : ℕ → Option Text → Session → Session
closed id error s =
    let c = s.objects id in
    if refers id (find c.conn s.channels)
    then report_size (connection_closed c.conn c.route error)
        (record s { channels = drop_key c.conn s.channels })
    else s

-- `Channel.finish`
unfoldable pub finish_channel : ℕ → Option Text → Session → Session
unfolding closed
finish_channel id error s =
    if (s.objects id).is_done
    then s
    else closed id error (set_object id (record (s.objects id) { is_done = true }) s)

-- `Channel.destroy`
unfoldable pub destroy : ℕ → Text → Bool → Text → Session → Session
unfolding finish_channel
destroy id code notify error s =
    if (s.objects id).is_done
    then s
    else finish_channel id (some error)
        (if notify then send_control (ClientControlMessage.reset (s.objects id).conn code) s else s)

-- `for (const channel of [...this.channels.values()]) channel.destroy("bridge disconnected")`
pub destroy_all : List (ℕ × ℕ) → Session → Session
unfolding destroy
destroy_all [] s = s
destroy_all ((conn, id) ∷ rest) s =
    destroy_all rest (destroy id (codes "bridge disconnected") true (codes "bridge disconnected") s)

-- `for (const waiter of this.drainWaiters.splice(0)) waiter()`
abbrev pub run_waiters : Session → Session
run_waiters s = record s { waiters = []; called = s.called ++ entries s.waiters }

abbrev pub close_socket : SocketState → SocketState
close_socket s = socket_closing

-- `end`, for a session that has not ended.
unfoldable pub finish : SessionEnd → Session → Session
unfolding destroy_all
finish e s =
    let woken =
      run_waiters (record s {
        ended = some e;
        attach_timer = false;
        heartbeat = none;
        drain_timer = false;
      }) in
    let emptied = destroy_all woken.channels woken in
    record emptied { socket = close_socket emptied.socket }

unfoldable pub end_session : SessionEnd → Session → Session
end_session e s = elim s.ended [ none ↦ finish e s | some first ↦ s ]
