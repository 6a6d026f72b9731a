-- ===== src/Client/Running/Phases.antt =====
-- Each operation of the class `Tunnel` leads to a phase with the facts of that phase.
use shuvtunnel.Common.{
  ℕ, ◌+◌, ◌≡◌, inl, inr, refl, sym, subst, List, [], ◌∷◌, none, some, if◌then◌else◌, Text, codes,
  arith, Option-cases,
}
use shuvtunnel.Client.{
  Routes, SessionEnd, shutdown, routes_changed, fatal, retry, ClientEvent, connecting, connected,
  disconnected, reconnecting, connection_opened, connection_closed, certificate_renewed, stopped,
  attach_failed, RouteError, validate_routes, backoff,
}
use shuvtunnel.Client.Running.{
  waiting_routes, Phase, waiting, running, ending, sleeping, halted, Tunnel, emit, halt, give_up,
  enter, after_session, clear_session, schedule_retry, count_connection, end_session, wake,
  replace_routes, set_routes, stop_session, close, on_attached, on_connections, on_session_error,
  resume,
}
use shuvtunnel.Client.Running.Certificates.{
  CertificateAnswer, no_certificate, ready_certificate, take_certificate, on_checked,
  on_check_timer,
}
use shuvtunnel.Client.Running.Events.{
  Event, attaches, opens, drops, ends, throws, resumes, wakes, sets, closes, checks, check_timer,
  step,
}
use shuvtunnel.Client.Running.Facts.{stops, stops-append, Idle, Unfinished, At, Quiet}

pub enter-At :
    (t : Tunnel)
    → Unfinished t
    → t.status.session ≡ none
    → t.status.connections ≡ 0
    → At (enter t).phase (enter t)
unfolding enter
enter-At t u s c = ground (
  arith,
  stops-append t.emitted (stopped none ∷ []),
  stops-append t.emitted (connecting t.attempt ∷ []),
)

pub after_session-At :
    (random : ℕ) (e : SessionEnd) (t : Tunnel)
    → Unfinished t
    → At (after_session random e t).phase (after_session random e t)
unfolding after_session halt give_up clear_session schedule_retry
after_session-At random shutdown t u = ground (arith, stops-append t.emitted (stopped none ∷ []))
after_session-At random (fatal code) t u =
    ground (arith, stops-append t.emitted (stopped (some (attach_failed code)) ∷ []))
after_session-At random routes_changed t u =
    enter-At
      (record (emit (disconnected (codes "routes changed")) (clear_session t)) { attempt = 0 })
      (ground (arith, stops-append t.emitted (disconnected (codes "routes changed") ∷ []))) refl
      refl
after_session-At random (retry error attached) t u =
    let delay = backoff random (if attached then 0 else t.attempt) in
    let next = (if attached then 0 else t.attempt) + 1 in
    (
      (refl, refl, refl),
      (
        u.0,
        omega (
          arith,
          u.1,
          stops-append t.emitted (disconnected error ∷ reconnecting next delay ∷ []),
        ),
      ),
    )

pub end_session-At :
    (e : SessionEnd) (t : Tunnel) (p : Phase)
    → t.phase ≡ p
    → At p t
    → At (end_session e t).phase (end_session e t)
unfolding end_session
end_session-At e t waiting h a = ground arith
end_session-At e t running h a = ground arith
end_session-At e t (ending x) h a = ground arith
end_session-At e t (sleeping ms) h a = ground arith
end_session-At e t halted h a = ground arith

pub wake-waiting : (t : Tunnel) → t.phase ≡ waiting → wake t ≡ enter t
unfolding wake enter
wake-waiting t h = ground arith

pub wake-sleeping : (ms : ℕ) (t : Tunnel) → t.phase ≡ sleeping ms → wake t ≡ enter t
unfolding wake enter
wake-sleeping ms t h = ground arith

-- What a wake-up needs: the routes and `shutdown` may have changed since the loop went to wait.
abbrev pub Wakeable : Phase → Tunnel → Type 0
Wakeable waiting t = Idle waiting_routes t × Unfinished t
Wakeable running t = At running t
Wakeable (ending e) t = At (ending e) t
Wakeable (sleeping ms) t = At (sleeping ms) t
Wakeable halted t = At halted t

pub At-Wakeable : (p : Phase) (t : Tunnel) → At p t → Wakeable p t
At-Wakeable waiting t a = (a.0, a.1)
At-Wakeable running t a = a
At-Wakeable (ending e) t a = a
At-Wakeable (sleeping ms) t a = a
At-Wakeable halted t a = a

pub wake-At : (t : Tunnel) (p : Phase) → t.phase ≡ p → Wakeable p t → At (wake t).phase (wake t)
unfolding wake
wake-At t waiting h a = rw (wake-waiting t h) (enter-At t a.1 a.0.1 a.0.2)
wake-At t running h a = ground arith
wake-At t (ending x) h a = ground arith
wake-At t (sleeping ms) h a = rw (wake-sleeping ms t h) (enter-At t a.1 a.0.1 a.0.2)
wake-At t halted h a = ground arith

pub replace_routes-Wakeable :
    (routes : Routes) (t : Tunnel) (p : Phase)
    → t.phase ≡ p
    → At p t
    → Wakeable (replace_routes routes t).phase (replace_routes routes t)
unfolding replace_routes end_session
replace_routes-Wakeable routes t waiting h a = ground arith
replace_routes-Wakeable routes t running h a = ground arith
replace_routes-Wakeable routes t (ending x) h a = ground arith
replace_routes-Wakeable routes t (sleeping ms) h a = ground arith
replace_routes-Wakeable routes t halted h a = ground arith

pub stop_session-Wakeable :
    (t : Tunnel) (p : Phase)
    → t.phase ≡ p
    → At p t
    → Wakeable (stop_session t).phase (stop_session t)
unfolding stop_session end_session
stop_session-Wakeable t waiting h a = ground arith
stop_session-Wakeable t running h a = ground arith
stop_session-Wakeable t (ending x) h a = ground arith
stop_session-Wakeable t (sleeping ms) h a = ground arith
stop_session-Wakeable t halted h a = ground arith

pub on_attached-At :
    (session : Text) (routes : List Text) (now : ℕ) (t : Tunnel) (p : Phase)
    → t.phase ≡ p
    → At p t
    → At (on_attached session routes now t).phase (on_attached session routes now t)
unfolding on_attached
on_attached-At session routes now t waiting h a = ground arith
on_attached-At session routes now t running h a =
    ground (arith, stops-append t.emitted (connected session routes ∷ []))
on_attached-At session routes now t (ending x) h a = ground arith
on_attached-At session routes now t (sleeping ms) h a = ground arith
on_attached-At session routes now t halted h a = ground arith

pub on_connections-At :
    (count : ℕ) (e : ClientEvent) (t : Tunnel) (p : Phase)
    → Quiet e
    → t.phase ≡ p
    → At p t
    → At (on_connections count e t).phase (on_connections count e t)
unfolding on_connections count_connection
on_connections-At count e t waiting q h a = ground arith
on_connections-At count e t running q h a = ground (arith, stops-append t.emitted (e ∷ []))
on_connections-At count e t (ending x) q h a = ground (arith, stops-append t.emitted (e ∷ []))
on_connections-At count e t (sleeping ms) q h a = ground arith
on_connections-At count e t halted q h a = ground arith

pub on_session_error-At :
    (message : Text) (t : Tunnel) (p : Phase)
    → t.phase ≡ p
    → At p t
    → At (on_session_error message t).phase (on_session_error message t)
unfolding on_session_error give_up
on_session_error-At message t waiting h a = ground arith
on_session_error-At message t running h a =
    ground (arith, stops-append t.emitted (stopped (some message) ∷ []))
on_session_error-At message t (ending x) h a = ground arith
on_session_error-At message t (sleeping ms) h a = ground arith
on_session_error-At message t halted h a = ground arith

pub resume-ending :
    (random : ℕ) (e : SessionEnd) (t : Tunnel)
    → t.phase ≡ ending e
    → resume random t ≡ after_session random e t
unfolding resume
resume-ending random e t h = ground arith

pub resume-halted : (random : ℕ) (t : Tunnel) → t.phase ≡ halted → resume random t ≡ t
unfolding resume
resume-halted random t h = ground (arith, h)

pub wake-halted : (t : Tunnel) → t.phase ≡ halted → wake t ≡ t
unfolding wake
wake-halted t h = ground (arith, h)

pub resume-At :
    (random : ℕ) (t : Tunnel) (p : Phase)
    → t.phase ≡ p
    → At p t
    → At (resume random t).phase (resume random t)
unfolding resume
resume-At random t waiting h a = ground arith
resume-At random t running h a = ground arith
resume-At random t (ending x) h a =
    rw (resume-ending random x t h) (after_session-At random x t a.1)
resume-At random t (sleeping ms) h a = ground arith
resume-At random t halted h a = ground arith

pub wakes-At : (t : Tunnel) → At t.phase t → At (wake t).phase (wake t)
wakes-At t a = wake-At t t.phase refl (At-Wakeable t.phase t a)

pub set_routes-refused :
    (routes : Routes) (t : Tunnel) (e : RouteError)
    → validate_routes routes ≡ some e
    → (set_routes routes t).0 ≡ t
unfolding set_routes
set_routes-refused routes t e h = ground (arith, h)

pub set_routes-accepted :
    (routes : Routes) (t : Tunnel)
    → validate_routes routes ≡ none
    → (set_routes routes t).0 ≡ wake (replace_routes routes t)
unfolding set_routes
set_routes-accepted routes t h = ground (arith, h)

-- What holds before `setRoutes`, and after it where the routes are valid.
pub set_routes-keeps :
    (P : Tunnel → Type 0) (routes : Routes) (t : Tunnel)
    → P t
    → (validate_routes routes ≡ none → P (wake (replace_routes routes t)))
    → P ((set_routes routes t).0)
set_routes-keeps P routes t before after = elim (Option-cases (validate_routes routes)) [
  | inr h ↦ rw (set_routes-refused routes t h.0 h.1) before
  | inl h ↦ rw (set_routes-accepted routes t h) (after h)
]

pub set_routes-At :
    (routes : Routes) (t : Tunnel)
    → At t.phase t
    → At ((set_routes routes t).0).phase ((set_routes routes t).0)
set_routes-At routes t a =
    set_routes-keeps (λ (u : Tunnel). At u.phase u) routes t a
      (λ (h : validate_routes routes ≡ none).
        wake-At (replace_routes routes t) (replace_routes routes t).phase refl
          (replace_routes-Wakeable routes t t.phase refl a))

pub close-At : (t : Tunnel) → At t.phase t → At (close t).phase (close t)
unfolding close
close-At t a =
    wake-At (stop_session t) (stop_session t).phase refl (stop_session-Wakeable t t.phase refl a)

-- What a certificate check leaves alone.
pub record Served (t u : Tunnel) : Type 0 where
  pub phase_same : u.phase ≡ t.phase
  pub status_same : u.status ≡ t.status
  pub routes_same : u.routes ≡ t.routes
  pub shutdown_same : u.is_shutdown ≡ t.is_shutdown
  pub ready_same : u.ready ≡ t.ready
  pub closed_same : u.closed ≡ t.closed
  pub stops_same : stops u.emitted ≡ stops t.emitted

pub Served-At : (t u : Tunnel) (p : Phase) → Served t u → At p t → At p u
Served-At t u waiting s a = ground (arith, s.status_same)
Served-At t u running s a = ground (arith, s.status_same)
Served-At t u (ending e) s a = ground (arith, s.status_same)
Served-At t u (sleeping ms) s a = ground (arith, s.status_same)
Served-At t u halted s a = ground (arith, s.status_same)

Served-kept : (t u : Tunnel) → Served t u → At t.phase t → At u.phase u
Served-kept t u s a = subst (λ (p : Phase). At p u) (sym (s.phase_same)) (Served-At t u t.phase s a)

pub take_certificate-Served :
    (answer : CertificateAnswer) (t : Tunnel) → Served t (take_certificate answer t)
unfolding take_certificate
take_certificate-Served no_certificate t = ground arith
take_certificate-Served (ready_certificate [] chain expiry) t = ground arith
take_certificate-Served (ready_certificate (c ∷ cs) chain expiry) t =
    ground (arith, stops-append t.emitted (certificate_renewed expiry ∷ []))

pub on_checked-Served :
    (answer : CertificateAnswer) (now : ℕ) (t : Tunnel) → Served t (on_checked answer now t)
unfolding on_checked
on_checked-Served answer now t = ground (arith, take_certificate-Served answer t)

pub on_check_timer-Served : (t : Tunnel) → Served t (on_check_timer t)
unfolding on_check_timer
on_check_timer-Served t = ground arith

pub step-At : (t : Tunnel) (e : Event) → At t.phase t → At (step t e).phase (step t e)
unfolding step
step-At t (attaches session routes now) a = on_attached-At session routes now t t.phase refl a
step-At t (opens n connection route peer) a =
    on_connections-At n (connection_opened connection route peer) t t.phase refl refl a
step-At t (drops n connection route error) a =
    on_connections-At n (connection_closed connection route error) t t.phase refl refl a
step-At t (ends e) a = end_session-At e t t.phase refl a
step-At t (throws message) a = on_session_error-At message t t.phase refl a
step-At t (resumes random) a = resume-At random t t.phase refl a
step-At t wakes a = wakes-At t a
step-At t (sets routes) a = set_routes-At routes t a
step-At t closes a = close-At t a
step-At t (checks answer now) a =
    Served-kept t (on_checked answer now t) (on_checked-Served answer now t) a
step-At t check_timer a = Served-kept t (on_check_timer t) (on_check_timer-Served t) a
