-- ===== src/Client/Running/Diagram.antt =====
-- The state diagram of a tunnel, packages/client/src/effect/types.ts, and that its loop follows it.
use shuvtunnel.Common.{ℕ, ◌≡◌, ◌≢◌, ◌⊎◌, inl, inr, refl, sym, ap, List, none, Text, codes, arith}
use shuvtunnel.Client.{
  Routes, validate_routes, SessionEnd, shutdown, routes_changed, fatal, retry, ClientEvent,
  disconnected, connection_opened, connection_closed,
}
use shuvtunnel.Client.Running.{
  TunnelState, waiting_routes, connecting_state, connected_state, reconnecting_state, stopped_state,
  Phase, waiting, running, ending, sleeping, halted, Status, Tunnel, emit, halt, give_up, enter,
  clear_session, schedule_retry, after_session, end_session, wake, replace_routes, set_routes,
  stop_session, close, on_attached, count_connection, on_connections, on_session_error, resume,
}
use shuvtunnel.Client.Running.Events.{
  Event, attaches, opens, drops, ends, throws, resumes, wakes, sets, closes, checks, check_timer,
  step,
}
use shuvtunnel.Client.Running.Facts.{At, Consistent, InSession}
use shuvtunnel.Client.Running.Phases.{
  on_checked-Served, on_check_timer-Served, resume-ending, wake-waiting, wake-sleeping,
  set_routes-keeps, Wakeable, At-Wakeable, replace_routes-Wakeable, stop_session-Wakeable,
}

infix 20 ◌⟶◌
-- The edges of the diagram.
pub data ◌⟶◌ : TunnelState → TunnelState → Type 0 where
  attaches_ok : connecting_state ⟶ connected_state
  fails_attach : connecting_state ⟶ reconnecting_state
  drops_out : connected_state ⟶ reconnecting_state
  loses_routes : connecting_state ⟶ waiting_routes
  loses_routes_online : connected_state ⟶ waiting_routes
  loses_routes_offline : reconnecting_state ⟶ waiting_routes
  gains_routes : waiting_routes ⟶ connecting_state
  changes_routes : connected_state ⟶ connecting_state
  tries_again : reconnecting_state ⟶ connecting_state
  stops_waiting : waiting_routes ⟶ stopped_state
  stops_connecting : connecting_state ⟶ stopped_state
  stops_online : connected_state ⟶ stopped_state
  stops_offline : reconnecting_state ⟶ stopped_state

abbrev pub Follows : TunnelState → TunnelState → Type 0
Follows s s' = (s ≡ s') ⊎ (s ⟶ s')

-- A session's state can turn to each state but back to connected.
leave_session :
    (s s' : TunnelState)
    → (s ≡ connecting_state) ⊎ (s ≡ connected_state)
    → s' ≢ connected_state
    → Follows s s'
leave_session connecting_state waiting_routes h n = inr loses_routes
leave_session connecting_state connecting_state h n = inl refl
leave_session connecting_state connected_state h n = inr attaches_ok
leave_session connecting_state reconnecting_state h n = inr fails_attach
leave_session connecting_state stopped_state h n = inr stops_connecting
leave_session connected_state waiting_routes h n = inr loses_routes_online
leave_session connected_state connecting_state h n = inr changes_routes
leave_session connected_state connected_state h n = inl refl
leave_session connected_state reconnecting_state h n = inr drops_out
leave_session connected_state stopped_state h n = inr stops_online
leave_session waiting_routes s' h n = ground (arith, h)
leave_session reconnecting_state s' h n = ground (arith, h)
leave_session stopped_state s' h n = ground (arith, h)

-- A waiting loop goes on to a session, to waiting for routes or to its end.
leave_wait :
    (s s' : TunnelState)
    → (s ≡ waiting_routes) ⊎ (s ≡ reconnecting_state)
    → s' ≢ connected_state
    → s' ≢ reconnecting_state
    → Follows s s'
leave_wait waiting_routes waiting_routes h n m = inl refl
leave_wait waiting_routes connecting_state h n m = inr gains_routes
leave_wait waiting_routes connected_state h n m = absurd (n refl)
leave_wait waiting_routes reconnecting_state h n m = absurd (m refl)
leave_wait waiting_routes stopped_state h n m = inr stops_waiting
leave_wait reconnecting_state waiting_routes h n m = inr loses_routes_offline
leave_wait reconnecting_state connecting_state h n m = inr tries_again
leave_wait reconnecting_state connected_state h n m = absurd (n refl)
leave_wait reconnecting_state reconnecting_state h n m = inl refl
leave_wait reconnecting_state stopped_state h n m = inr stops_offline
leave_wait connecting_state s' h n m = ground (arith, h)
leave_wait connected_state s' h n m = ground (arith, h)
leave_wait stopped_state s' h n m = ground (arith, h)

state_of : Tunnel → TunnelState
state_of t = t.status.state

enter-disconnected :
    (t : Tunnel)
    → (state_of (enter t) ≢ connected_state) × (state_of (enter t) ≢ reconnecting_state)
unfolding state_of enter halt
enter-disconnected t = ground arith

after_session-disconnected :
    (random : ℕ) (e : SessionEnd) (t : Tunnel)
    → state_of (after_session random e t) ≢ connected_state
unfolding state_of after_session halt give_up clear_session schedule_retry
after_session-disconnected random shutdown t = ground arith
after_session-disconnected random (fatal code) t = ground arith
after_session-disconnected random routes_changed t =
    (enter-disconnected
      (record (emit (disconnected (codes "routes changed")) (clear_session t)) { attempt = 0 })).0
after_session-disconnected random (retry error attached) t = ground arith

wake-Follows :
    (t : Tunnel) (p : Phase) → t.phase ≡ p → Wakeable p t → Follows (state_of t) (state_of (wake t))
unfolding state_of wake
wake-Follows t waiting h w = rw (wake-waiting t h) (
    leave_wait t.status.state (state_of (enter t)) (inl w.0.0) (enter-disconnected t).0
      (enter-disconnected t).1)
wake-Follows t (sleeping ms) h w = rw (wake-sleeping ms t h) (
    leave_wait t.status.state (state_of (enter t)) (inr w.0.0) (enter-disconnected t).0
      (enter-disconnected t).1)
wake-Follows t running h w = inl (ground arith)
wake-Follows t (ending e) h w = inl (ground arith)
wake-Follows t halted h w = inl (ground arith)

in_session :
    (t : Tunnel) → InSession t → (state_of t ≡ connecting_state) ⊎ (state_of t ≡ connected_state)
unfolding state_of
in_session t (inl a) = inl a.0
in_session t (inr a) = inr a.0

connects :
    (s : TunnelState) → (s ≡ connecting_state) ⊎ (s ≡ connected_state) → Follows s connected_state
connects s (inl h) = rw h (inr attaches_ok)
connects s (inr h) = inl h

on_attached-state :
    (session : Text) (routes : List Text) (now : ℕ) (t : Tunnel)
    → t.phase ≡ running
    → state_of (on_attached session routes now t) ≡ connected_state
unfolding on_attached state_of
on_attached-state session routes now t h = ground (arith, h)

on_attached-Follows :
    (session : Text) (routes : List Text) (now : ℕ) (t : Tunnel) (p : Phase)
    → t.phase ≡ p
    → At p t
    → Follows (state_of t) (state_of (on_attached session routes now t))
unfolding on_attached state_of
on_attached-Follows session routes now t running h a =
    rw (on_attached-state session routes now t h) (connects (state_of t) (in_session t a.0))
on_attached-Follows session routes now t waiting h a = inl (ground arith)
on_attached-Follows session routes now t (ending e) h a = inl (ground arith)
on_attached-Follows session routes now t (sleeping ms) h a = inl (ground arith)
on_attached-Follows session routes now t halted h a = inl (ground arith)

on_connections-state :
    (count : ℕ) (e : ClientEvent) (t : Tunnel) → state_of t ≡ state_of (on_connections count e t)
unfolding on_connections count_connection state_of
on_connections-state count e t = ground arith

end_session-state : (e : SessionEnd) (t : Tunnel) → state_of t ≡ state_of (end_session e t)
unfolding end_session state_of
end_session-state e t = ground arith

on_session_error-state :
    (message : Text) (t : Tunnel)
    → (state_of (on_session_error message t) ≡ state_of t)
      ⊎ (state_of (on_session_error message t) ≡ stopped_state)
unfolding on_session_error give_up state_of
on_session_error-state message t = ground arith

on_session_error-Follows :
    (message : Text) (t : Tunnel) (p : Phase)
    → t.phase ≡ p
    → At p t
    → Follows (state_of t) (state_of (on_session_error message t))
unfolding on_session_error give_up state_of
on_session_error-Follows message t running h a = elim (on_session_error-state message t) [
  | inl e ↦ inl (sym e)
  | inr e ↦ rw e (leave_session (state_of t) stopped_state (in_session t a.0) (ground arith))
]
on_session_error-Follows message t waiting h a = inl (ground arith)
on_session_error-Follows message t (ending e) h a = inl (ground arith)
on_session_error-Follows message t (sleeping ms) h a = inl (ground arith)
on_session_error-Follows message t halted h a = inl (ground arith)

resume-Follows :
    (random : ℕ) (t : Tunnel) (p : Phase)
    → t.phase ≡ p
    → At p t
    → Follows (state_of t) (state_of (resume random t))
unfolding resume state_of
resume-Follows random t (ending e) h a = rw (resume-ending random e t h) (
    leave_session (state_of t) (state_of (after_session random e t)) (in_session t a.0)
      (after_session-disconnected random e t))
resume-Follows random t waiting h a = inl (ground arith)
resume-Follows random t running h a = inl (ground arith)
resume-Follows random t (sleeping ms) h a = inl (ground arith)
resume-Follows random t halted h a = inl (ground arith)

replace_routes-state :
    (routes : Routes) (t : Tunnel) → state_of t ≡ state_of (replace_routes routes t)
unfolding replace_routes end_session state_of
replace_routes-state routes t = ground arith

stop_session-state : (t : Tunnel) → state_of t ≡ state_of (stop_session t)
unfolding stop_session end_session state_of
stop_session-state t = ground arith

set_routes-Follows :
    (routes : Routes) (t : Tunnel)
    → At t.phase t
    → Follows (state_of t) (state_of ((set_routes routes t).0))
set_routes-Follows routes t a =
    set_routes-keeps (λ (u : Tunnel). Follows (state_of t) (state_of u)) routes t (inl refl)
      (λ (v : validate_routes routes ≡ none).
        let u = replace_routes routes t in
        rw (replace_routes-state routes t)
          (wake-Follows u u.phase refl (replace_routes-Wakeable routes t t.phase refl a)))

close-Follows : (t : Tunnel) → At t.phase t → Follows (state_of t) (state_of (close t))
unfolding close
close-Follows t a =
    let u = stop_session t in
    rw (stop_session-state t) (wake-Follows u u.phase refl (stop_session-Wakeable t t.phase refl a))

-- From a tunnel that satisfies the invariant, every event leaves the state as it was or follows
-- an edge of the state diagram: only connecting leads to connected, waiting-routes leads to
-- connecting and stopped only, and nothing leads out of stopped.
pub step-Follows :
    (t : Tunnel) (e : Event) → Consistent t → Follows t.status.state (step t e).status.state
unfolding step state_of
step-Follows t (attaches session routes now) c =
    on_attached-Follows session routes now t t.phase refl c.at_phase
step-Follows t (opens n connection route peer) c =
    inl (on_connections-state n (connection_opened connection route peer) t)
step-Follows t (drops n connection route error) c =
    inl (on_connections-state n (connection_closed connection route error) t)
step-Follows t (ends e) c = inl (end_session-state e t)
step-Follows t (throws message) c = on_session_error-Follows message t t.phase refl c.at_phase
step-Follows t (resumes random) c = resume-Follows random t t.phase refl c.at_phase
step-Follows t wakes c = wake-Follows t t.phase refl (At-Wakeable t.phase t c.at_phase)
step-Follows t (sets routes) c = set_routes-Follows routes t c.at_phase
step-Follows t closes c = close-Follows t c.at_phase
step-Follows t (checks answer now) c =
    inl (ap (λ (s : Status). s.state) (sym (on_checked-Served answer now t).status_same))
step-Follows t check_timer c =
    inl (ap (λ (s : Status). s.state) (sym (on_check_timer-Served t).status_same))
