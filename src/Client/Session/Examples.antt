-- ===== src/Client/Session/Examples.antt =====
-- A session with two connections, for the theorems of the class `Session`.
use shuvtunnel.Common.{
  ◌≡◌, ◌++◌, refl, List, [], ◌∷◌, none, Text, codes, same, lower, ends_with, drop_end, split_last,
}
use shuvtunnel.Json.{nat}
use shuvtunnel.Names.{route_for_sni, parse_target, is_label}
use shuvtunnel.Protocol.{attached, opened}
use shuvtunnel.Client.{Routes, target_for}
use shuvtunnel.Client.Session.Channels.{on_control, on_attaching, on_message, open_connection}
use shuvtunnel.Client.Session.Events.{
  SessionEvent, sends, opens_socket, receives_control, on_open, session_step, session_run,
  new_session,
}
use shuvtunnel.Client.Session.Table.{put}
use shuvtunnel.Client.Session.Invariant.{Consistent}
use shuvtunnel.Client.Session.Steps.{reachable-Consistent}

abbrev web_routes : Routes
web_routes = (codes "web", codes "localhost:3000") ∷ []

abbrev host : Text
host = codes "t.example.com"

abbrev connection_events : List SessionEvent
connection_events =
    opens_socket (codes "token")
    ∷ receives_control host web_routes
        (attached (codes "s1") (codes "web" ∷ []) (nat 15000) (nat 45000)) 10
    ∷ receives_control host web_routes (opened 7 (codes "peer") (codes "web.t.example.com") []) 20
    ∷ receives_control host web_routes (opened 8 (codes "peer") (codes "web.t.example.com") []) 30
    ∷ []

open_test :
    (session_run (new_session web_routes 0) connection_events).channels ≡ (7, 0) ∷ (8, 1) ∷ []
unfolding session_run session_step on_open on_control on_attaching on_message open_connection
    route_for_sni parse_target is_label target_for same lower ends_with drop_end split_last put
open_test = refl

running_test : (session_run (new_session web_routes 0) connection_events).ended ≡ none
unfolding session_run session_step on_open on_control on_attaching on_message open_connection
    route_for_sni parse_target is_label target_for same lower ends_with drop_end split_last put
running_test = refl

reachable-Consistent_example : Consistent (session_run (new_session web_routes 0) connection_events)
reachable-Consistent_example = reachable-Consistent web_routes 0 connection_events

-- The session with a callback that waits for the socket to drain.
abbrev waiting_events : List SessionEvent
waiting_events = connection_events ++ sends 7 (104 ∷ []) 2000000 5 ∷ []
