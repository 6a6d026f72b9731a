-- ===== src/Client/Running/Closing.antt =====
-- `close` of packages/client/src/effect/tunnel.ts ends the loop, in whatever phase it is.
use shuvtunnel.Common.{
  ℕ, ◌≡◌, ◌≢◌, refl, ap, ◌∙◌, subst, List, [], ◌∷◌, ◌++◌, none, Bool, true, false, arith,
}
use shuvtunnel.Client.{Routes, validate_routes, SessionEnd, shutdown, routes_changed, fatal, retry}
use shuvtunnel.Client.Running.{
  stopped_state, Phase, waiting, running, ending, sleeping, halted, pending, Tunnel, halt, give_up,
  enter, clear_session, schedule_retry, after_session, end_session, wake, replace_routes,
  stop_session, close, on_attached, on_connections, on_session_error, resume,
}
use shuvtunnel.Client.Running.Events.{
  Event, attaches, opens, drops, ends, throws, resumes, wakes, sets, closes, checks, check_timer,
  step, run,
}
use shuvtunnel.Client.Running.Facts.{stops, At, Consistent}
use shuvtunnel.Client.Running.Phases.{
  resume-ending, resume-halted, wake-halted, on_checked-Served, on_check_timer-Served,
  set_routes-keeps,
}
use shuvtunnel.Client.Running.Kept.{end_session-Kept}
use shuvtunnel.Client.Running.Invariant.{run-Consistent}

shut-enter : (t : Tunnel) → t.is_shutdown ≡ true → (enter t).phase ≡ halted
unfolding enter halt
shut-enter t h = ground (arith, h)

abbrev rests : Phase → Bool
rests waiting = false
rests running = false
rests (ending e) = false
rests (sleeping ms) = true
rests halted = true

abbrev leaves : Phase → Bool
leaves waiting = false
leaves running = false
leaves (ending e) = true
leaves (sleeping ms) = true
leaves halted = true

-- After `close` the session, if there was one, has ended.
Leaving : Tunnel → Type 0
Leaving t = (t.is_shutdown ≡ true) × (leaves t.phase ≡ true)

-- Once the loop has seen the end, it is over, or waits for a delay that it had begun.
Resting : Tunnel → Type 0
Resting t = (t.is_shutdown ≡ true) × (rests t.phase ≡ true)

Resting-Leaving : (t : Tunnel) → Resting t → Leaving t
unfolding Resting Leaving
Resting-Leaving t r = ground (arith, r)

wake-Leaving : (t : Tunnel) → t.is_shutdown ≡ true → t.phase ≢ running → Leaving (wake t)
unfolding Leaving wake enter halt
wake-Leaving t s h = ground (arith, s, h)

wake-Resting : (t : Tunnel) → Resting t → Resting (wake t)
unfolding Resting wake enter halt
wake-Resting t r = ground (arith, r)

stop_session-quits : (t : Tunnel) → (stop_session t).phase ≢ running
unfolding stop_session end_session
stop_session-quits t h = ground (arith, h)

close-Leaving : (t : Tunnel) → Leaving (close t)
unfolding close stop_session
close-Leaving t =
    wake-Leaving (stop_session t)
      (end_session-Kept shutdown
        (record t { is_shutdown = true; refresh_timer = none })).shutdown_kept
      (stop_session-quits t)

close-Resting : (t : Tunnel) → Resting t → Resting (close t)
unfolding Resting close stop_session end_session wake enter halt
close-Resting t r = ground (arith, r)

after_session-Resting :
    (random : ℕ) (e : SessionEnd) (t : Tunnel)
    → t.is_shutdown ≡ true
    → Resting (after_session random e t)
unfolding Resting after_session halt give_up clear_session schedule_retry enter
after_session-Resting random shutdown t s = ground (arith, s)
after_session-Resting random (fatal code) t s = ground (arith, s)
after_session-Resting random routes_changed t s = ground (arith, s)
after_session-Resting random (retry error attached) t s = ground (arith, s)

resume-sleeping : (random ms : ℕ) (t : Tunnel) → t.phase ≡ sleeping ms → resume random t ≡ t
unfolding resume
resume-sleeping random ms t h = ground (arith, h)

resume-Resting : (random : ℕ) (t : Tunnel) → Leaving t → Resting (resume random t)
unfolding Leaving Resting
resume-Resting random t (s, l) = resumed t.phase refl l
  where
    resumed : (p : Phase) → t.phase ≡ p → leaves p ≡ true → Resting (resume random t)
    resumed waiting h k = cc
    resumed running h k = cc
    resumed (ending e) h k = rw (resume-ending random e t h) (after_session-Resting random e t s)
    resumed (sleeping ms) h k = rw (resume-sleeping random ms t h) (s, ap rests h)
    resumed halted h k = rw (resume-halted random t h) (s, ap rests h)

wake-halts : (t : Tunnel) → Resting t → (wake t).phase ≡ halted
unfolding Resting wake enter halt
wake-halts t r = ground (arith, r)

replace_routes-Leaving :
    (routes : Routes) (t : Tunnel) → Leaving t → Leaving (wake (replace_routes routes t))
unfolding Leaving replace_routes end_session wake enter halt
replace_routes-Leaving routes t l = ground (arith, l)

replace_routes-Resting :
    (routes : Routes) (t : Tunnel) → Resting t → Resting (wake (replace_routes routes t))
unfolding Resting replace_routes end_session wake enter halt
replace_routes-Resting routes t l = ground (arith, l)

step-Leaving : (t : Tunnel) (e : Event) → Leaving t → Leaving (step t e)
unfolding step Leaving on_attached on_connections end_session on_session_error
step-Leaving t (attaches session routes now) l = ground (arith, l)
step-Leaving t (opens n connection route peer) l = ground (arith, l)
step-Leaving t (drops n connection route error) l = ground (arith, l)
step-Leaving t (ends e) l = ground (arith, l)
step-Leaving t (throws message) l = ground (arith, l)
step-Leaving t (resumes random) l = Resting-Leaving (resume random t) (resume-Resting random t l)
step-Leaving t wakes l = wake-Leaving t l.0 (λ (h : t.phase ≡ running). ground (arith, l, h))
step-Leaving t (sets routes) l =
    set_routes-keeps Leaving routes t l
      (λ (h : validate_routes routes ≡ none). replace_routes-Leaving routes t l)
step-Leaving t closes l = close-Leaving t
step-Leaving t (checks answer now) l = ground (arith, l, on_checked-Served answer now t)
step-Leaving t check_timer l = ground (arith, l, on_check_timer-Served t)

step-Resting : (t : Tunnel) (e : Event) → Resting t → Resting (step t e)
unfolding step Resting on_attached on_connections end_session on_session_error
step-Resting t (attaches session routes now) l = ground (arith, l)
step-Resting t (opens n connection route peer) l = ground (arith, l)
step-Resting t (drops n connection route error) l = ground (arith, l)
step-Resting t (ends e) l = ground (arith, l)
step-Resting t (throws message) l = ground (arith, l)
step-Resting t (resumes random) l = resume-Resting random t (Resting-Leaving t l)
step-Resting t wakes l = wake-Resting t l
step-Resting t (sets routes) l =
    set_routes-keeps Resting routes t l
      (λ (h : validate_routes routes ≡ none). replace_routes-Resting routes t l)
step-Resting t closes l = close-Resting t l
step-Resting t (checks answer now) l = ground (arith, l, on_checked-Served answer now t)
step-Resting t check_timer l = ground (arith, l, on_check_timer-Served t)

replace_routes-halted :
    (routes : Routes) (t : Tunnel)
    → t.phase ≡ halted
    → (wake (replace_routes routes t)).phase ≡ halted
unfolding replace_routes end_session wake
replace_routes-halted routes t h = ground (arith, h)

close-halted : (t : Tunnel) → t.phase ≡ halted → (close t).phase ≡ halted
unfolding close stop_session end_session wake
close-halted t h = ground (arith, h)

step-halted : (t : Tunnel) (e : Event) → t.phase ≡ halted → (step t e).phase ≡ halted
unfolding step on_attached on_connections end_session on_session_error
step-halted t (attaches session routes now) h = ground (arith, h)
step-halted t (opens n connection route peer) h = ground (arith, h)
step-halted t (drops n connection route error) h = ground (arith, h)
step-halted t (ends e) h = ground (arith, h)
step-halted t (throws message) h = ground (arith, h)
step-halted t (resumes random) h = rw (resume-halted random t h) h
step-halted t wakes h = rw (wake-halted t h) h
step-halted t (sets routes) h =
    set_routes-keeps (λ (u : Tunnel). u.phase ≡ halted) routes t h
      (λ (v : validate_routes routes ≡ none). replace_routes-halted routes t h)
step-halted t closes h = close-halted t h
step-halted t (checks answer now) h = (on_checked-Served answer now t).phase_same ∙ h
step-halted t check_timer h = (on_check_timer-Served t).phase_same ∙ h

run-Leaving : (t : Tunnel) (es : List Event) → Leaving t → Leaving (run t es)
unfolding run
run-Leaving t [] l = l
run-Leaving t (e ∷ es) l = run-Leaving (step t e) es (step-Leaving t e l)

run-Resting : (t : Tunnel) (es : List Event) → Resting t → Resting (run t es)
unfolding run
run-Resting t [] l = l
run-Resting t (e ∷ es) l = run-Resting (step t e) es (step-Resting t e l)

run-halted : (t : Tunnel) (es : List Event) → t.phase ≡ halted → (run t es).phase ≡ halted
unfolding run
run-halted t [] h = h
run-halted t (e ∷ es) h = run-halted (step t e) es (step-halted t e h)

run-append : (t : Tunnel) (es fs : List Event) → run t (es ++ fs) ≡ run (run t es) fs
unfolding run
run-append t [] fs = refl
run-append t (e ∷ es) fs = run-append (step t e) es fs

close_halts :
    (t : Tunnel) (random : ℕ) (es fs gs : List Event)
    → (run t (closes ∷ (es ++ resumes random ∷ (fs ++ wakes ∷ gs)))).phase ≡ halted
unfolding run step
close_halts t random es fs gs =
    let left = run (close t) es in
    let rested = run (resume random left) fs in
    rw
      (
        run-append (close t) es (resumes random ∷ (fs ++ wakes ∷ gs)),
        run-append (resume random left) fs (wakes ∷ gs),
      )
      (run-halted (wake rested) gs (
        wake-halts rested (
          run-Resting (resume random left) fs
            (resume-Resting random left (run-Leaving (close t) es (close-Leaving t))))))

-- What the application sees of a tunnel that has stopped.
abbrev pub Stopped : Tunnel → Type 0
Stopped t =
    (t.status.state ≡ stopped_state)
    × (t.status.session ≡ none)
    × (t.status.connections ≡ 0)
    × (t.ready ≢ pending)
    × (t.closed ≢ pending)
    × (stops t.emitted ≡ 1)

halted-Stopped : (t : Tunnel) → t.phase ≡ halted → At t.phase t → Stopped t
halted-Stopped t h a =
    let b = subst (λ (p : Phase). At p t) h a in (b.0.0, b.0.1, b.0.2, b.2, b.1, b.3)

-- Let a tunnel satisfy the invariant. After `close`, any events, the turn after the end of the
-- session, any events, a timer or wake-up, and any events, it is stopped: no session, no
-- connections, both promises settled, and exactly one `stopped` event.
pub close_stops :
    (t : Tunnel) (random : ℕ) (es fs gs : List Event)
    → Consistent t
    → Stopped (run t (closes ∷ (es ++ resumes random ∷ (fs ++ wakes ∷ gs))))
close_stops t random es fs gs c =
    let all = closes ∷ (es ++ resumes random ∷ (fs ++ wakes ∷ gs)) in
    halted-Stopped (run t all) (close_halts t random es fs gs) (run-Consistent t all c).at_phase
