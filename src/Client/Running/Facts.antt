-- ===== src/Client/Running/Facts.antt =====
-- What holds of the running tunnel of packages/client/src/effect/tunnel.ts between two events.
use shuvtunnel.Common.{ℕ, suc, ◌+◌, ◌≡◌, ◌≢◌, ◌⊎◌, List, [], ◌∷◌, ◌++◌, none, true, false, arith}
use shuvtunnel.Client.{
  ClientEvent, connecting, connected, disconnected, reconnecting, connection_opened,
  connection_closed, certificate_renewed, stopped, validate_routes,
}
use shuvtunnel.Client.Running.{
  TunnelState, waiting_routes, connecting_state, connected_state, reconnecting_state, stopped_state,
  Phase, waiting, running, ending, sleeping, halted, pending, Tunnel,
}

-- How many `stopped` events were emitted.
abbrev pub stops : List ClientEvent → ℕ
stops [] = 0
stops (stopped e ∷ es) = suc (stops es)
stops (connecting n ∷ es) = stops es
stops (connected s r ∷ es) = stops es
stops (disconnected r ∷ es) = stops es
stops (reconnecting n d ∷ es) = stops es
stops (connection_opened c r p ∷ es) = stops es
stops (connection_closed c r e ∷ es) = stops es
stops (certificate_renewed x ∷ es) = stops es

pub stops-append : (es fs : List ClientEvent) → stops (es ++ fs) ≡ stops es + stops fs
stops-append [] fs = omega arith
stops-append (stopped e ∷ es) fs = omega (arith, stops-append es fs)
stops-append (connecting n ∷ es) fs = stops-append es fs
stops-append (connected s r ∷ es) fs = stops-append es fs
stops-append (disconnected r ∷ es) fs = stops-append es fs
stops-append (reconnecting n d ∷ es) fs = stops-append es fs
stops-append (connection_opened c r p ∷ es) fs = stops-append es fs
stops-append (connection_closed c r e ∷ es) fs = stops-append es fs
stops-append (certificate_renewed x ∷ es) fs = stops-append es fs

-- The status while no session runs.
abbrev pub Idle : TunnelState → Tunnel → Type 0
Idle s t = (t.status.state ≡ s) × (t.status.session ≡ none) × (t.status.connections ≡ 0)

abbrev pub Unfinished : Tunnel → Type 0
Unfinished t = (t.closed ≡ pending) × (stops t.emitted ≡ 0)

abbrev pub InSession : Tunnel → Type 0
InSession t =
    ((t.status.state ≡ connecting_state) × (t.status.session ≡ none) × (t.status.connections ≡ 0))
    ⊎ ((t.status.state ≡ connected_state) × (t.status.session ≢ none))

-- What the status, the promises and the events say in each phase.
abbrev pub At : Phase → Tunnel → Type 0
At waiting t = Idle waiting_routes t × Unfinished t × (t.routes ≡ []) × (t.is_shutdown ≡ false)
At running t = InSession t × Unfinished t × (t.is_shutdown ≡ false)
At (ending e) t = InSession t × Unfinished t
At (sleeping ms) t = Idle reconnecting_state t × Unfinished t
At halted t =
    Idle stopped_state t × (t.closed ≢ pending) × (t.ready ≢ pending) × (stops t.emitted ≡ 1)

-- The next certificate check is under way or has its timer.
abbrev pub Refreshing : Tunnel → Type 0
Refreshing t = t.is_shutdown ≡ false → (t.checking ≡ true) ⊎ (t.refresh_timer ≢ none)

pub record Consistent (t : Tunnel) : Type 0 where
  pub at_phase : At t.phase t
  pub valid : validate_routes t.routes ≡ none
  pub refreshing : Refreshing t

-- The hook `emit` is given the events of a connection only.
abbrev pub Quiet : ClientEvent → Type 0
Quiet e = stops (e ∷ []) ≡ 0
