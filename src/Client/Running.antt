-- ===== src/Client/Running.antt =====
-- The class `Tunnel` of packages/client/src/effect/tunnel.ts: one session at a time, again with a
-- growing delay until it is closed or an attach fails for good. The state is that between two turns of
-- the event loop; a call and the microtasks that it starts are one event. `Session` is the class that
-- runs while the phase is `running`; its hooks are events here.
pub mod Diagram
pub mod Certificates
pub mod Events
pub mod Facts
mod Phases
mod Kept
pub mod Invariant
pub mod Closing
use shuvtunnel.Common.{
  ℕ, suc, ◌+◌, List, [], ◌∷◌, ◌++◌, Option, none, some, Bool, true, false, ◌&&◌, not, if◌then◌else◌,
  Text, codes, same, ltb, ◌⊎◌, inl, inr,
}
use shuvtunnel.Client.{
  Routes, Identity, SessionEnd, shutdown, routes_changed, fatal, retry, ClientEvent, connecting,
  connected, disconnected, reconnecting, connection_opened, connection_closed, certificate_renewed,
  stopped, attach_failed, RouteError, validate_routes, same_names, backoff,
}

-- `ShuvTunnelStatus["state"]`
pub data TunnelState : Type 0 where
  waiting_routes connecting_state connected_state reconnecting_state stopped_state : TunnelState

-- Where `run` waits: for a wake-up without routes, for the session, for the turn after the session
-- ended, for the delay or a wake-up, or for nothing any more.
pub data Phase : Type 0 where
  waiting running : Phase
  ending : SessionEnd → Phase
  sleeping : ℕ → Phase
  halted : Phase

-- The promises `ready` and `closed`.
pub data Settled : Type 0 where
  pending resolved : Settled
  rejected : Text → Settled

-- `ShuvTunnelStatus`, less the hostname, which never changes, and the routes, which are the tunnel's.
pub record Status : Type 0 where
  pub state : TunnelState
  pub session : Option Text
  pub connections : ℕ
  pub last_error : Option Text
  pub connected_at : Option ℕ

pub record Tunnel : Type 0 where
  pub routes : Routes
  pub identity : Identity
  pub is_shutdown : Bool
  pub phase : Phase
  pub attempt : ℕ
  pub status : Status
  pub emitted : List ClientEvent
  pub ready : Settled
  pub closed : Settled
  -- a certificate check is under way; the delay of the timer for the next one
  pub checking : Bool
  pub refresh_timer : Option ℕ

abbrev pub settle : Settled → Settled → Settled
settle pending s = s
settle resolved s = resolved
settle (rejected e) s = rejected e

abbrev pub emit : ClientEvent → Tunnel → Tunnel
emit e t = record t { emitted = t.emitted ++ e ∷ [] }

abbrev pub set_state : TunnelState → Status → Status
set_state s status = record status { state = s }

-- The loop ends: `stopped`, and both promises resolve.
pub halt : Tunnel → Tunnel
halt t = record t {
  phase = halted;
  status = set_state stopped_state t.status;
  emitted = t.emitted ++ stopped none ∷ [];
  ready = settle t.ready resolved;
  closed = settle t.closed resolved;
}

-- The `catch` of `run`, for an error with this message.
pub give_up : Text → Tunnel → Tunnel
give_up message t = record t {
  phase = halted;
  status = record t.status { state = stopped_state; last_error = some message };
  emitted = t.emitted ++ stopped (some message) ∷ [];
  ready = settle t.ready (rejected message);
  closed = settle t.closed (rejected message);
}

wait_for_routes : Tunnel → Tunnel
wait_for_routes t = record t { phase = waiting; status = set_state waiting_routes t.status }

start_session : Tunnel → Tunnel
start_session t = record t {
  phase = running;
  status = set_state connecting_state t.status;
  emitted = t.emitted ++ connecting t.attempt ∷ [];
}

-- From the top of `while (!this.shutdown)` to the next `await`.
unfoldable pub enter : Tunnel → Tunnel
unfolding halt wait_for_routes start_session
enter t =
    if t.is_shutdown
    then halt t
    else elim t.routes [ [] ↦ wait_for_routes t | entry ∷ rest ↦ start_session t ]

-- What follows `await session.run()` for each end; `random` is the draw of `backoff`.
pub clear_session : Tunnel → Tunnel
clear_session t = record t { status = record t.status { session = none; connections = 0 } }

pub schedule_retry : ℕ → Text → ℕ → Tunnel → Tunnel
schedule_retry random error attempt t = record t {
  phase = sleeping (backoff random attempt);
  attempt = attempt + 1;
  status = record t.status { state = reconnecting_state; last_error = some error };
  emitted =
      t.emitted ++ disconnected error ∷ reconnecting (attempt + 1) (backoff random attempt) ∷ [];
}

unfoldable pub after_session : ℕ → SessionEnd → Tunnel → Tunnel
unfolding clear_session schedule_retry halt give_up
after_session random shutdown t = halt (clear_session t)
after_session random (fatal code) t = give_up (attach_failed code) (clear_session t)
after_session random routes_changed t =
    enter (record (emit (disconnected (codes "routes changed")) (clear_session t)) { attempt = 0 })
after_session random (retry error attached) t =
    schedule_retry random error (if attached then 0 else t.attempt) (clear_session t)

-- `this.session?.end(end)`: only a session that has not ended yet.
unfoldable pub end_session : SessionEnd → Tunnel → Tunnel
end_session e t = elim t.phase [
  | waiting ↦ t
  | running ↦ record t { phase = ending e }
  | ending first ↦ t
  | sleeping ms ↦ t
  | halted ↦ t
]

-- `this.wake?.()`, or the timer of `sleep`.
unfoldable pub wake : Tunnel → Tunnel
wake t = elim t.phase [
  | waiting ↦ enter t
  | running ↦ t
  | ending e ↦ t
  | sleeping ms ↦ enter t
  | halted ↦ t
]

-- `setRoutes` after its check, up to the wake-up: other names end the session.
pub replace_routes : Routes → Tunnel → Tunnel
replace_routes routes t =
    let replaced = record t { routes = routes } in
    if not (same_names t.routes routes) then end_session routes_changed replaced else replaced

unfoldable pub set_routes : Routes → Tunnel → Tunnel × Option RouteError
unfolding replace_routes
set_routes routes t = elim (validate_routes routes) [
  | some error ↦ (t, some error)
  | none ↦ (wake (replace_routes routes t), none)
]

-- `close`, up to the wake-up.
pub stop_session : Tunnel → Tunnel
stop_session t = end_session shutdown (record t { is_shutdown = true; refresh_timer = none })

unfoldable pub close : Tunnel → Tunnel
unfolding stop_session
close t = wake (stop_session t)

-- The session's hooks `attached` and `emit`, on the message `attached`.
unfoldable pub on_attached : Text → List Text → ℕ → Tunnel → Tunnel
on_attached session routes now t = elim t.phase [
  | running ↦ record t {
    status = record t.status {
      state = connected_state;
      session = some session;
      last_error = none;
      connected_at = some now;
    };
    ready = settle t.ready resolved;
    emitted = t.emitted ++ connected session routes ∷ [];
  }
  | waiting ↦ t
  | ending e ↦ t
  | sleeping ms ↦ t
  | halted ↦ t
]

-- The hooks `connections` and `emit` of a connection; an ending session closes its connections so. A
-- session that is not attached has none.
pub count_connection : ℕ → ClientEvent → Tunnel → Tunnel
count_connection count e t = elim t.status.session [
  | none ↦ t
  | some session ↦ emit e (record t { status = record t.status { connections = count } })
]

unfoldable pub on_connections : ℕ → ClientEvent → Tunnel → Tunnel
unfolding count_connection
on_connections count e t = elim t.phase [
  | running ↦ count_connection count e t
  | ending end ↦ count_connection count e t
  | waiting ↦ t
  | sleeping ms ↦ t
  | halted ↦ t
]

-- `session.run()` rejects, as for a malformed URL: before its socket exists.
unfoldable pub on_session_error : Text → Tunnel → Tunnel
unfolding give_up
on_session_error message t = elim t.phase [
  | running ↦ elim t.status.session [ none ↦ give_up message t | some session ↦ t ]
  | waiting ↦ t
  | ending e ↦ t
  | sleeping ms ↦ t
  | halted ↦ t
]

unfoldable pub resume : ℕ → Tunnel → Tunnel
resume random t = elim t.phase [
  | ending e ↦ after_session random e t
  | waiting ↦ t
  | running ↦ t
  | sleeping ms ↦ t
  | halted ↦ t
]
