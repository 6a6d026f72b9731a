-- ===== src/Client/Session/Steps.antt =====
-- Every event of a session keeps its map and its channels in agreement,
-- packages/client/src/effect/tunnel.ts.
use shuvtunnel.Common.{
  ℕ, ◌-◌, refl, ◌∙◌, List, [], ◌∷◌, ◌++◌, Option, none, some, Bool, true, false, ◌&&◌, ◌||◌, not,
  if◌then◌else◌, Text, codes, ltb,
}
use shuvtunnel.Frame.{Bytes, DataFrame, parse_data_frame}
use shuvtunnel.Json.{nat}
use shuvtunnel.Names.{Target, route_for_sni}
use shuvtunnel.Protocol.{
  ClientControlMessage, ServerControlMessage, attached, attach_error, drain, opened, error_code,
  upstream_io_error, upstream_connect_failed, unknown_route,
}
use shuvtunnel.Client.{Routes, target_for, fatal, retry, connected, is_fatal_code}
use shuvtunnel.Client.Session.Table.{find}
use shuvtunnel.Client.Session.{
  on_attach, on_event, Session, is_open, send_control, destroy, run_waiters, end_session,
}
use shuvtunnel.Client.Session.Channels.{
  stalled_channel_bytes, push_inbound, push, end_inbound, on_data, accept, open_connection,
}
use shuvtunnel.Client.Session.Events.{low_water_mark, high_water_mark, has_ended}
use shuvtunnel.Client.Session.{SocketState, socket_opening, socket_open, socket_closing}
use shuvtunnel.Client.Session.Channels.{
  on_attaching, on_message, on_control, with_channel, parsed_target,
}
use shuvtunnel.Client.Session.Events.{
  on_open, on_heartbeat, on_attach_timeout, on_close, send_bytes, on_drain_timer, on_upstream_error,
  on_tls_error, on_local_end, SessionEvent, opens_socket, receives_control, receives_data, beats,
  times_out, closes_socket, is_ended, sends, drains, upstream_fails, tls_fails, tls_closes,
  ends_locally, session_step, session_run, new_session,
}
use shuvtunnel.Client.Session.Invariant.{
  Consistent, finish_channel-Consistent, destroy-Consistent, accept-Consistent,
  push_inbound-Consistent, send_control-Consistent, end_session-Consistent, reported-append,
}

either : (b : Bool) (s u : Session) → Consistent s → Consistent u → Consistent (if b then s else u)
either true s u c d = c
either false s u c d = d

push-Consistent :
    (id : ℕ) (payload : Bytes) (buffered : ℕ) (s : Session)
    → Consistent s
    → Consistent (push id payload buffered s)
unfolding push
push-Consistent id payload buffered s c =
    let reason = error_code upstream_io_error in
    let stalled = codes "local connection stalled" in
    let dead = destroy id reason true stalled s in
    let pushed = push_inbound id (some payload) s in
    either ((s.objects id).is_done) s (if ltb stalled_channel_bytes buffered then dead else pushed)
      c
      (either (ltb stalled_channel_bytes buffered) dead pushed
        (destroy-Consistent id reason true stalled s c)
        (push_inbound-Consistent id (some payload) s c))

end_inbound-Consistent : (id : ℕ) (s : Session) → Consistent s → Consistent (end_inbound id s)
unfolding end_inbound
end_inbound-Consistent id s c =
    either ((s.objects id).is_done) s (push_inbound id none s) c
      (push_inbound-Consistent id none s c)

with_channel-Consistent :
    (conn : ℕ) (f : ℕ → Session → Session) (s : Session)
    → ((id : ℕ) → Consistent (f id s))
    → Consistent s
    → Consistent (with_channel conn f s)
with_channel-Consistent conn f s h c =
    elim (find conn s.channels)
      as (λ (o : Option ℕ). Consistent (elim o [ none ↦ s | some id ↦ f id s ])) [
        | none ↦ c
        | some id ↦ h id
      ]

on_data-Consistent :
    (bytes : Bytes) (buffered : ℕ) (s : Session)
    → Consistent s
    → Consistent (on_data bytes buffered s)
unfolding on_data
on_data-Consistent bytes buffered s c =
    elim (parse_data_frame bytes)
      as (λ (o : Option DataFrame). Consistent (elim o [
        | none ↦ s
        | some parsed ↦ elim (find parsed.conn s.channels) [
          | none ↦ s
          | some id ↦ push id parsed.payload buffered s
        ]
      ])) [
        | none ↦ c
        | some parsed ↦
            with_channel-Consistent parsed.conn (λ id u. push id parsed.payload buffered u) s
              (λ id. push-Consistent id parsed.payload buffered s c) c
      ]

open_connection-Consistent :
    (hostname : Text) (routes : Routes) (conn : ℕ) (sni peer : Text) (s : Session)
    → Consistent s
    → Consistent (open_connection hostname routes conn sni peer s)
unfolding open_connection
open_connection-Consistent hostname routes conn sni peer s c =
    let refuse = ClientControlMessage.reset conn (error_code unknown_route) in
    let refused = send_control-Consistent refuse s c in
    elim (route_for_sni sni hostname)
      as (λ (o : Option Text). Consistent (elim o [
        | none ↦ send_control refuse s
        | some route ↦ elim (parsed_target (target_for route routes)) [
          | none ↦ send_control refuse s
          | some target ↦ accept conn route peer target s
        ]
      ])) [
        | none ↦ refused
        | some route ↦
            elim (parsed_target (target_for route routes))
              as (λ (t : Option Target). Consistent (elim t [
                | none ↦ send_control refuse s
                | some target ↦ accept conn route peer target s
              ])) [ none ↦ refused | some target ↦ accept-Consistent conn route peer target s c ]
      ]

on_attaching-Consistent :
    (m : ServerControlMessage) (s : Session) → Consistent s → Consistent (on_attaching m s)
unfolding on_attaching
on_attaching-Consistent (attached session routes heartbeat idle) s c = record {
  distinct = c.distinct;
  live = c.live;
  counted =
      reported-append 0 s.hooks (on_attach session ∷ on_event (connected session routes) ∷ [])
      ∙ c.counted;
}
on_attaching-Consistent (attach_error code) s c =
    end_session-Consistent
      (if is_fatal_code code then fatal code else retry (codes "attach failed: " ++ code) false) s c
on_attaching-Consistent (ServerControlMessage.ping time) s c = c
on_attaching-Consistent (ServerControlMessage.pong time) s c = c
on_attaching-Consistent (drain reason) s c = c
on_attaching-Consistent (opened conn peer sni alpn) s c = c
on_attaching-Consistent (ServerControlMessage.finish conn) s c = c
on_attaching-Consistent (ServerControlMessage.reset conn code) s c = c

on_message-Consistent :
    (hostname : Text) (routes : Routes) (m : ServerControlMessage) (s : Session)
    → Consistent s
    → Consistent (on_message hostname routes m s)
unfolding on_message
on_message-Consistent hostname routes (opened conn peer sni alpn) s c =
    open_connection-Consistent hostname routes conn sni peer s c
on_message-Consistent hostname routes (ServerControlMessage.finish conn) s c =
    with_channel-Consistent conn end_inbound s (λ id. end_inbound-Consistent id s c) c
on_message-Consistent hostname routes (ServerControlMessage.reset conn code) s c =
    with_channel-Consistent conn (λ id u. destroy id code false code u) s
      (λ id. destroy-Consistent id code false code s c) c
on_message-Consistent hostname routes (ServerControlMessage.ping time) s c =
    send_control-Consistent (ClientControlMessage.pong time) s c
on_message-Consistent hostname routes (drain reason) s c =
    end_session-Consistent (retry (codes "server draining: " ++ reason) true) s c
on_message-Consistent hostname routes (attached session names heartbeat idle) s c = c
on_message-Consistent hostname routes (attach_error code) s c = c
on_message-Consistent hostname routes (ServerControlMessage.pong time) s c = c

on_control-Consistent :
    (hostname : Text) (routes : Routes) (m : ServerControlMessage) (s : Session)
    → Consistent s
    → Consistent (on_control hostname routes m s)
unfolding on_control
on_control-Consistent hostname routes m s c =
    either s.is_attached (on_message hostname routes m s) (on_attaching m s)
      (on_message-Consistent hostname routes m s c) (on_attaching-Consistent m s c)

on_heartbeat-Consistent : (now : ℕ) (s : Session) → Consistent s → Consistent (on_heartbeat now s)
unfolding on_heartbeat
on_heartbeat-Consistent now s c =
    elim (s.heartbeat)
      as (λ (h : Option (ℕ × ℕ)). Consistent (elim h [
        | none ↦ s
        | some (period, idle) ↦
            if ltb idle (now - s.last_received)
            then end_session (retry (codes "bridge idle timeout") true) s
            else send_control (ClientControlMessage.ping (nat now)) s
      ])) [
        | none ↦ c
        | some (period, idle) ↦
            either (ltb idle (now - s.last_received))
              (end_session (retry (codes "bridge idle timeout") true) s)
              (send_control (ClientControlMessage.ping (nat now)) s)
              (end_session-Consistent (retry (codes "bridge idle timeout") true) s c)
              (send_control-Consistent (ClientControlMessage.ping (nat now)) s c)
      ]

on_open-Consistent : (token : Text) (s : Session) → Consistent s → Consistent (on_open token s)
unfolding on_open
on_open-Consistent token s c =
    elim (s.socket) as (λ (k : SocketState). Consistent (on_open token (record s { socket = k }))) [
      | socket_opening ↦ record { distinct = c.distinct; live = c.live; counted = c.counted }
      | socket_open ↦ record { distinct = c.distinct; live = c.live; counted = c.counted }
      | socket_closing ↦ record { distinct = c.distinct; live = c.live; counted = c.counted }
    ]

send_bytes-Consistent :
    (conn : ℕ) (bytes : Bytes) (buffered done : ℕ) (s : Session)
    → Consistent s
    → Consistent (send_bytes conn bytes buffered done s)
unfolding send_bytes
send_bytes-Consistent conn bytes buffered done s c =
    either (has_ended s.ended || not (is_open s.socket)) _ _
      (record { distinct = c.distinct; live = c.live; counted = c.counted })
      (either (ltb buffered high_water_mark) _ _
        (record { distinct = c.distinct; live = c.live; counted = c.counted })
        (record { distinct = c.distinct; live = c.live; counted = c.counted }))

on_drain_timer-Consistent :
    (buffered : ℕ) (s : Session) → Consistent s → Consistent (on_drain_timer buffered s)
unfolding on_drain_timer
on_drain_timer-Consistent buffered s c =
    either (not s.drain_timer || (ltb low_water_mark buffered && not (has_ended s.ended))) s
      (run_waiters (record s { drain_timer = false })) c
      (record { distinct = c.distinct; live = c.live; counted = c.counted })

-- The state after a message or its time came.
received : ℕ → Session → Session
received now s = record s { last_received = now }

received-Consistent : (now : ℕ) (s : Session) → Consistent s → Consistent (received now s)
unfolding received
received-Consistent now s c = record { distinct = c.distinct; live = c.live; counted = c.counted }

on_close-Consistent : (reason : Text) (s : Session) → Consistent s → Consistent (on_close reason s)
unfolding on_close
on_close-Consistent reason s c =
    end_session-Consistent (retry (codes "bridge closed: " ++ reason) s.is_attached)
      (record s { socket = socket_closing })
      (record { distinct = c.distinct; live = c.live; counted = c.counted })

session_step-Consistent :
    (s : Session) (e : SessionEvent) → Consistent s → Consistent (session_step s e)
unfolding session_step received on_upstream_error on_tls_error on_local_end on_attach_timeout
session_step-Consistent s (opens_socket token) c = on_open-Consistent token s c
session_step-Consistent s (receives_control hostname routes m now) c =
    either (is_open s.socket) (on_control hostname routes m (received now s)) s
      (on_control-Consistent hostname routes m (received now s) (received-Consistent now s c)) c
session_step-Consistent s (receives_data bytes buffered now) c =
    either (is_open s.socket) (on_data bytes buffered (received now s)) s
      (on_data-Consistent bytes buffered (received now s) (received-Consistent now s c)) c
session_step-Consistent s (beats now) c = on_heartbeat-Consistent now s c
session_step-Consistent s times_out c =
    either s.attach_timer (end_session (retry (codes "bridge attach timed out") false) s) s
      (end_session-Consistent (retry (codes "bridge attach timed out") false) s c) c
session_step-Consistent s (closes_socket reason) c = on_close-Consistent reason s c
session_step-Consistent s (is_ended e) c = end_session-Consistent e s c
session_step-Consistent s (sends conn bytes buffered done) c =
    send_bytes-Consistent conn bytes buffered done s c
session_step-Consistent s (drains buffered) c = on_drain_timer-Consistent buffered s c
session_step-Consistent s (upstream_fails id connecting message) c =
    destroy-Consistent id
      (error_code (if connecting then upstream_connect_failed else upstream_io_error)) true message
      s c
session_step-Consistent s (tls_fails id message) c =
    destroy-Consistent id (error_code upstream_io_error) true message s c
session_step-Consistent s (tls_closes id) c = finish_channel-Consistent id none s c
session_step-Consistent s (ends_locally id) c =
    send_control-Consistent (ClientControlMessage.finish (s.objects id).conn) s c

session_run-Consistent :
    (s : Session) (es : List SessionEvent) → Consistent s → Consistent (session_run s es)
unfolding session_run
session_run-Consistent s [] c = c
session_run-Consistent s (e ∷ es) c =
    session_run-Consistent (session_step s e) es (session_step-Consistent s e c)

new_session-Consistent : (routes : Routes) (now : ℕ) → Consistent (new_session routes now)
unfolding find
new_session-Consistent routes now = record { distinct = tt; live = λ k id h. cc; counted = refl }

-- In every state that events lead a new session to, no number is twice in the map, each number
-- leads to a channel object that is not done and has that number, and the number of connections
-- reported last is the size of the map.
pub reachable-Consistent :
    (routes : Routes) (now : ℕ) (es : List SessionEvent)
    → Consistent (session_run (new_session routes now) es)
reachable-Consistent routes now es =
    session_run-Consistent (new_session routes now) es (new_session-Consistent routes now)
