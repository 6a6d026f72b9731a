-- ===== src/Client/Running/Invariant.antt =====
-- The invariant of the class `Tunnel`, in every state that events can lead to.
use shuvtunnel.Common.{
  ℕ, ◌≡◌, inl, refl, sym, ap, subst, ◌∙◌, List, [], ◌∷◌, none, true, false, arith,
}
use shuvtunnel.Client.{
  Routes, Identity, shutdown, connection_opened, connection_closed, validate_routes,
}
use shuvtunnel.Client.Running.{
  Tunnel, enter, end_session, wake, replace_routes, set_routes, stop_session, close, on_attached,
  on_connections, on_session_error, resume,
}
use shuvtunnel.Client.Running.Certificates.{CertificateAnswer, on_checked, on_check_timer}
use shuvtunnel.Client.Running.Events.{
  fresh, construct, Event, attaches, opens, drops, ends, throws, resumes, wakes, sets, closes,
  checks, check_timer, step, run,
}
use shuvtunnel.Client.Running.Facts.{Refreshing, Consistent}
use shuvtunnel.Client.Running.Phases.{
  enter-At, step-At, take_certificate-Served, on_checked-Served, on_check_timer-Served,
  set_routes-keeps,
}
use shuvtunnel.Client.Running.Kept.{
  Kept, enter-Kept, wake-Kept, end_session-Kept, resume-Kept, on_attached-Kept, on_connections-Kept,
  on_session_error-Kept,
}

-- The routes are valid and the certificate check goes on.
Sound : Tunnel → Type 0
Sound t = (validate_routes t.routes ≡ none) × Refreshing t

Kept-Sound : (t u : Tunnel) → Kept t u → Sound t → Sound u
unfolding Sound
Kept-Sound t u k s = (
  ap validate_routes k.routes_kept ∙ s.0,
  λ (h : u.is_shutdown ≡ false).
      ground (arith, k.checking_kept, k.timer_kept, s.1 (sym k.shutdown_kept ∙ h)),
)

replace_routes-Kept :
    (routes : Routes) (t : Tunnel) → Kept (record t { routes = routes }) (replace_routes routes t)
unfolding replace_routes end_session
replace_routes-Kept routes t = ground arith

replace_routes-Sound :
    (routes : Routes) (t : Tunnel)
    → validate_routes routes ≡ none
    → Sound t
    → Sound (replace_routes routes t)
unfolding Sound
replace_routes-Sound routes t h s =
    Kept-Sound (record t { routes = routes }) (replace_routes routes t)
      (replace_routes-Kept routes t) (h, s.1)

set_routes-Sound : (routes : Routes) (t : Tunnel) → Sound t → Sound ((set_routes routes t).0)
set_routes-Sound routes t s =
    set_routes-keeps Sound routes t s (λ (h : validate_routes routes ≡ none).
      Kept-Sound (replace_routes routes t) (wake (replace_routes routes t))
        (wake-Kept (replace_routes routes t)) (replace_routes-Sound routes t h s))

stop_session-Sound : (t : Tunnel) → Sound t → Sound (stop_session t)
unfolding Sound stop_session
stop_session-Sound t s =
    let stopping = record t { is_shutdown = true; refresh_timer = none } in
    Kept-Sound stopping (end_session shutdown stopping) (end_session-Kept shutdown stopping)
      (s.0, λ (h : true ≡ false). cc)

close-Sound : (t : Tunnel) → Sound t → Sound (close t)
unfolding close
close-Sound t s =
    Kept-Sound (stop_session t) (wake (stop_session t)) (wake-Kept (stop_session t))
      (stop_session-Sound t s)

on_checked-Refreshing :
    (answer : CertificateAnswer) (now : ℕ) (t : Tunnel)
    → Refreshing t
    → Refreshing (on_checked answer now t)
unfolding on_checked
on_checked-Refreshing answer now t r h = ground (arith, r, take_certificate-Served answer t)

on_checked-Sound :
    (answer : CertificateAnswer) (now : ℕ) (t : Tunnel) → Sound t → Sound (on_checked answer now t)
unfolding Sound
on_checked-Sound answer now t s =
    let served = on_checked-Served answer now t in
    (ap validate_routes served.routes_same ∙ s.0, on_checked-Refreshing answer now t s.1)

on_check_timer-valid :
    (t : Tunnel)
    → validate_routes t.routes ≡ none
    → validate_routes (on_check_timer t).routes ≡ none
on_check_timer-valid t v = ap validate_routes (on_check_timer-Served t).routes_same ∙ v

on_check_timer-Refreshing : (t : Tunnel) → Refreshing t → Refreshing (on_check_timer t)
unfolding on_check_timer
on_check_timer-Refreshing t r h = ground (arith, r)

on_check_timer-Sound : (t : Tunnel) → Sound t → Sound (on_check_timer t)
unfolding Sound
on_check_timer-Sound t s = (on_check_timer-valid t s.0, on_check_timer-Refreshing t s.1)

step-Sound : (t : Tunnel) (e : Event) → Sound t → Sound (step t e)
unfolding step
step-Sound t (attaches session routes now) s =
    Kept-Sound t (on_attached session routes now t) (on_attached-Kept session routes now t) s
step-Sound t (opens n connection route peer) s =
    let e = connection_opened connection route peer in
    Kept-Sound t (on_connections n e t) (on_connections-Kept n e t) s
step-Sound t (drops n connection route error) s =
    let e = connection_closed connection route error in
    Kept-Sound t (on_connections n e t) (on_connections-Kept n e t) s
step-Sound t (ends e) s = Kept-Sound t (end_session e t) (end_session-Kept e t) s
step-Sound t (throws message) s =
    Kept-Sound t (on_session_error message t) (on_session_error-Kept message t) s
step-Sound t (resumes random) s = Kept-Sound t (resume random t) (resume-Kept random t) s
step-Sound t wakes s = Kept-Sound t (wake t) (wake-Kept t) s
step-Sound t (sets routes) s = set_routes-Sound routes t s
step-Sound t closes s = close-Sound t s
step-Sound t (checks answer now) s = on_checked-Sound answer now t s
step-Sound t check_timer s = on_check_timer-Sound t s

pub step-Consistent : (t : Tunnel) (e : Event) → Consistent t → Consistent (step t e)
unfolding Sound
step-Consistent t e c =
    let sound = step-Sound t e (c.valid, c.refreshing) in
    record { at_phase = step-At t e c.at_phase; valid = sound.0; refreshing = sound.1 }

pub run-Consistent : (t : Tunnel) (es : List Event) → Consistent t → Consistent (run t es)
unfolding run
run-Consistent t [] c = c
run-Consistent t (e ∷ es) c = run-Consistent (step t e) es (step-Consistent t e c)

construct-valid :
    (identity : Identity) (routes : Routes) (t : Tunnel)
    → construct identity routes ≡ inl t
    → validate_routes routes ≡ none
unfolding construct
construct-valid identity routes t h = ground arith

construct-entered :
    (identity : Identity) (routes : Routes) (t : Tunnel)
    → construct identity routes ≡ inl t
    → enter (fresh identity routes) ≡ t
unfolding construct
construct-entered identity routes t h = ground arith

fresh-Consistent :
    (identity : Identity) (routes : Routes)
    → validate_routes routes ≡ none
    → Consistent (enter (fresh identity routes))
unfolding Sound
fresh-Consistent identity routes v =
    let start = fresh identity routes in
    let sound =
      Kept-Sound start (enter start) (enter-Kept start) (v, λ (h : false ≡ false). inl refl) in
    record {
      at_phase = enter-At start (refl, refl) refl refl;
      valid = sound.0;
      refreshing = sound.1;
    }

pub construct-Consistent :
    (identity : Identity) (routes : Routes) (t : Tunnel)
    → construct identity routes ≡ inl t
    → Consistent t
construct-Consistent identity routes t h =
    subst Consistent (construct-entered identity routes t h)
      (fresh-Consistent identity routes (construct-valid identity routes t h))

-- Let a tunnel be constructed, and let any events follow. Then its routes are valid; unless it is
-- closed, a certificate check is under way or has its timer; and its status fits its phase: a
-- waiting tunnel has no routes, the state waiting-routes, no session and no connections; one with
-- a session is connecting without a session identifier or connected with one; one between
-- sessions is reconnecting without a session and connections; a halted one is stopped likewise,
-- with both promises settled and exactly one `stopped` event. Before it has halted, `closed` is
-- pending and there is no `stopped` event.
pub construct-run-Consistent :
    (identity : Identity) (routes : Routes) (es : List Event) (t : Tunnel)
    → construct identity routes ≡ inl t
    → Consistent (run t es)
construct-run-Consistent identity routes es t h =
    run-Consistent t es (construct-Consistent identity routes t h)
