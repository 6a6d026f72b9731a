-- ===== src/Client/Running/Kept.antt =====
-- What the loop of the class `Tunnel` leaves alone: the routes, `shutdown` and the certificate check.
use shuvtunnel.Common.{ℕ, ◌≡◌, List, Text, codes, arith}
use shuvtunnel.Client.{
  SessionEnd, shutdown, routes_changed, fatal, retry, ClientEvent, disconnected,
}
use shuvtunnel.Client.Running.{
  Phase, waiting, running, ending, sleeping, halted, Tunnel, emit, halt, give_up, enter,
  after_session, clear_session, schedule_retry, count_connection, end_session, wake, on_attached,
  on_connections, on_session_error, resume,
}

-- What the loop leaves alone between two events.
pub record Kept (t u : Tunnel) : Type 0 where
  pub routes_kept : u.routes ≡ t.routes
  pub shutdown_kept : u.is_shutdown ≡ t.is_shutdown
  pub checking_kept : u.checking ≡ t.checking
  pub timer_kept : u.refresh_timer ≡ t.refresh_timer

pub enter-Kept : (t : Tunnel) → Kept t (enter t)
unfolding enter
enter-Kept t = ground arith

pub wake-Kept : (t : Tunnel) → Kept t (wake t)
unfolding wake
wake-Kept t = ground (arith, enter-Kept t)

pub end_session-Kept : (e : SessionEnd) (t : Tunnel) → Kept t (end_session e t)
unfolding end_session
end_session-Kept e t = ground arith

pub after_session-Kept :
    (random : ℕ) (e : SessionEnd) (t : Tunnel) → Kept t (after_session random e t)
unfolding after_session halt give_up clear_session schedule_retry
after_session-Kept random shutdown t = ground arith
after_session-Kept random (fatal code) t = ground arith
after_session-Kept random routes_changed t = ground (
  arith,
  enter-Kept
      (record (emit (disconnected (codes "routes changed")) (clear_session t)) { attempt = 0 }),
)
after_session-Kept random (retry error attached) t = ground arith

pub resume-Kept : (random : ℕ) (t : Tunnel) → Kept t (resume random t)
unfolding resume
resume-Kept random t =
    elim (t.phase)
      as (λ (p : Phase). Kept t (elim p [
        | ending e ↦ after_session random e t
        | waiting ↦ t
        | running ↦ t
        | sleeping ms ↦ t
        | halted ↦ t
      ])) [
        | ending e ↦ after_session-Kept random e t
        | waiting ↦ ground arith
        | running ↦ ground arith
        | sleeping ms ↦ ground arith
        | halted ↦ ground arith
      ]

pub on_attached-Kept :
    (session : Text) (routes : List Text) (now : ℕ) (t : Tunnel)
    → Kept t (on_attached session routes now t)
unfolding on_attached
on_attached-Kept session routes now t = ground arith

pub on_connections-Kept :
    (count : ℕ) (e : ClientEvent) (t : Tunnel) → Kept t (on_connections count e t)
unfolding on_connections count_connection
on_connections-Kept count e t = ground arith

pub on_session_error-Kept : (message : Text) (t : Tunnel) → Kept t (on_session_error message t)
unfolding on_session_error give_up
on_session_error-Kept message t = ground arith
