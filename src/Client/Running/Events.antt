-- ===== src/Client/Running/Events.antt =====
-- The constructor of the class `Tunnel`, and its events in sequence,
-- packages/client/src/effect/tunnel.ts.
use shuvtunnel.Common.{ℕ, List, [], ◌∷◌, Option, none, some, true, false, Text, ◌⊎◌, inl, inr}
use shuvtunnel.Client.{
  Routes, Identity, SessionEnd, connection_opened, connection_closed, RouteError, validate_routes,
}
use shuvtunnel.Client.Running.{
  Tunnel, enter, end_session, wake, set_routes, close, on_attached, on_connections,
  on_session_error, resume, connecting_state, waiting, pending,
}
use shuvtunnel.Client.Running.Certificates.{CertificateAnswer, on_checked, on_check_timer}

abbrev pub fresh : Identity → Routes → Tunnel
fresh identity routes = record {
  routes = routes;
  identity = identity;
  is_shutdown = false;
  phase = waiting;
  attempt = 0;
  status = record {
    state = connecting_state;
    session = none;
    connections = 0;
    last_error = none;
    connected_at = none;
  };
  emitted = [];
  ready = pending;
  closed = pending;
  checking = true;
  refresh_timer = none;
}

-- The constructor, which starts the loop and the first certificate check.
unfoldable pub construct : Identity → Routes → Tunnel ⊎ RouteError
construct identity routes = elim (validate_routes routes) [
  | some error ↦ inr error
  | none ↦ inl (enter (fresh identity routes))
]

pub data Event : Type 0 where
  attaches : Text → List Text → ℕ → Event
  opens : ℕ → ℕ → Text → Text → Event
  drops : ℕ → ℕ → Text → Option Text → Event
  ends : SessionEnd → Event
  throws : Text → Event
  resumes : ℕ → Event
  wakes : Event
  sets : Routes → Event
  closes : Event
  checks : CertificateAnswer → ℕ → Event
  check_timer : Event

unfoldable pub step : Tunnel → Event → Tunnel
step t (attaches session routes now) = on_attached session routes now t
step t (opens n connection route peer) =
    on_connections n (connection_opened connection route peer) t
step t (drops n connection route error) =
    on_connections n (connection_closed connection route error) t
step t (ends e) = end_session e t
step t (throws message) = on_session_error message t
step t (resumes random) = resume random t
step t wakes = wake t
step t (sets routes) = (set_routes routes t).0
step t closes = close t
step t (checks answer now) = on_checked answer now t
step t check_timer = on_check_timer t

unfoldable pub run : Tunnel → List Event → Tunnel
run t [] = t
run t (e ∷ es) = run (step t e) es
