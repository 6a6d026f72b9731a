-- ===== src/Client/Session/Channels.antt =====
-- What a session does with the messages of its bridge: `onControl`, `onData` and `open` of the class
-- `Session`, `push` and `endInbound` of the class `Channel`, packages/client/src/effect/tunnel.ts.
use shuvtunnel.Common.{
  ℕ, ◌+◌, max, [], ◌∷◌, ◌++◌, Option, none, some, true, false, if◌then◌else◌, Text, codes, ltb,
}
use shuvtunnel.Json.{Number, nat, other}
use shuvtunnel.Frame.{Bytes, parse_data_frame}
use shuvtunnel.Names.{Target, parse_target, route_for_sni}
use shuvtunnel.Protocol.{
  ClientControlMessage, ServerControlMessage, attached, attach_error, drain, opened, error_code,
  unknown_route, upstream_io_error,
}
use shuvtunnel.Client.{
  Routes, target_for, fatal, retry, is_fatal_code, connected, connection_opened,
}
use shuvtunnel.Client.Session.Table.{find, put}
use shuvtunnel.Client.Session.{
  Channel, Session, set_object, send_control, report_size, destroy, end_session, on_attach,
  on_event,
}

-- `Channel.push`; `buffered` is what its TLS side has not taken yet.
abbrev pub stalled_channel_bytes : ℕ
stalled_channel_bytes = 8388608

unfoldable pub push_inbound : ℕ → Option Bytes → Session → Session
push_inbound id chunk s =
    let c = s.objects id in set_object id (record c { inbound = c.inbound ++ chunk ∷ [] }) s

unfoldable pub push : ℕ → Bytes → ℕ → Session → Session
unfolding push_inbound
push id payload buffered s =
    if (s.objects id).is_done
    then s
    else if ltb stalled_channel_bytes buffered
    then destroy id (error_code upstream_io_error) true (codes "local connection stalled") s
    else push_inbound id (some payload) s

-- `Channel.endInbound`
unfoldable pub end_inbound : ℕ → Session → Session
unfolding push_inbound
end_inbound id s = if (s.objects id).is_done then s else push_inbound id none s

-- `onData`
unfoldable pub on_data : Bytes → ℕ → Session → Session
on_data bytes buffered s = elim (parse_data_frame bytes) [
  | none ↦ s
  | some parsed ↦ elim (find parsed.conn s.channels) [
    | none ↦ s
    | some id ↦ push id parsed.payload buffered s
  ]
]

-- `open`: `target` is the target of the route, if there is one that parses.
unfoldable pub accept : ℕ → Text → Text → Target → Session → Session
accept conn route peer target s =
    let c : Channel = record {
      conn = conn;
      route = route;
      target = target;
      is_done = false;
      inbound = [];
    } in
    report_size (connection_opened conn route peer) (record (set_object s.next_object c s) {
      next_object = s.next_object + 1;
      channels = put conn s.next_object s.channels;
    })

abbrev pub parsed_target : Option Text → Option Target
parsed_target none = none
parsed_target (some target) = parse_target target

unfoldable pub open_connection : Text → Routes → ℕ → Text → Text → Session → Session
unfolding accept
open_connection hostname routes conn sni peer s = elim (route_for_sni sni hostname) [
  | none ↦ send_control (ClientControlMessage.reset conn (error_code unknown_route)) s
  | some route ↦ elim (parsed_target (target_for route routes)) [
    | none ↦ send_control (ClientControlMessage.reset conn (error_code unknown_route)) s
    | some target ↦ accept conn route peer target s
  ]
]

-- The periods that the server sends are natural numbers; others are not modelled.
abbrev pub milliseconds : Number → ℕ
milliseconds (nat n) = n
milliseconds (other t) = 0

-- The message `attached` or `attach_error`, before the session is attached; others are ignored.
unfoldable pub on_attaching : ServerControlMessage → Session → Session
on_attaching (attached session routes heartbeat idle) s = record s {
  is_attached = true;
  attach_timer = false;
  heartbeat = some (max (milliseconds heartbeat) 1000, max (milliseconds idle) 5000);
  hooks = s.hooks ++ on_attach session ∷ on_event (connected session routes) ∷ [];
}
on_attaching (attach_error code) s =
    end_session
      (if is_fatal_code code then fatal code else retry (codes "attach failed: " ++ code) false) s
on_attaching (ServerControlMessage.ping time) s = s
on_attaching (ServerControlMessage.pong time) s = s
on_attaching (drain reason) s = s
on_attaching (opened conn peer sni alpn) s = s
on_attaching (ServerControlMessage.finish conn) s = s
on_attaching (ServerControlMessage.reset conn code) s = s

abbrev pub with_channel : ℕ → (ℕ → Session → Session) → Session → Session
with_channel conn f s = elim (find conn s.channels) [ none ↦ s | some id ↦ f id s ]

unfoldable pub on_message : Text → Routes → ServerControlMessage → Session → Session
on_message hostname routes (opened conn peer sni alpn) s =
    open_connection hostname routes conn sni peer s
on_message hostname routes (ServerControlMessage.finish conn) s = with_channel conn end_inbound s
on_message hostname routes (ServerControlMessage.reset conn code) s =
    with_channel conn (λ id. destroy id code false code) s
on_message hostname routes (ServerControlMessage.ping time) s =
    send_control (ClientControlMessage.pong time) s
on_message hostname routes (drain reason) s =
    end_session (retry (codes "server draining: " ++ reason) true) s
on_message hostname routes (attached session names heartbeat idle) s = s
on_message hostname routes (attach_error code) s = s
on_message hostname routes (ServerControlMessage.pong time) s = s

-- `onControl`, for a message that decodes; the routes are those of the tunnel now.
unfoldable pub on_control : Text → Routes → ServerControlMessage → Session → Session
on_control hostname routes m s =
    if s.is_attached then on_message hostname routes m s else on_attaching m s
