-- ===== src/TunnelObject/Certificates.antt =====
-- `updateCertificate`, `alarm`, `scheduleRenewal`, `isActive`, `startRenewal` and `onAttached` of
-- packages/server/src/tunnel-object.ts. `now` is `Date.now()` during the call, `uuid` what
-- `crypto.randomUUID()` returns, and `create_fails` says how the workflow binding answers `create`.
-- Where the source subtracts from an instant, the models add to the other side.
use shuvtunnel.Common.{
  ℕ, ◌+◌, ◌-◌, max, List, [], ◌∷◌, ◌++◌, Option, none, some, Bool, true, false, ◌&&◌, not, leb, ltb,
  if◌then◌else◌, Text, codes, same, any,
}
use shuvtunnel.Store.{
  CertificateState, challenge, issuing, ready, failed, StoredTunnel, Renewal, ready_expiry,
}
use shuvtunnel.TunnelObject.{
  World, WorkflowParams, create, live, save, set_alarm, log_call, is_attached, renew_before_ms,
  active_window_ms, renewal_retry_ms, renewal_stale_ms,
}

-- `setAlarm(Math.max(renewAt, Date.now() + 60_000))`, for a live record with a ready certificate.
unfoldable pub schedule_renewal : ℕ → StoredTunnel → World → World
schedule_renewal now r w = elim r.deleted_at [
  | some at ↦ w
  | none ↦ elim (ready_expiry r.certificate) [
    | none ↦ w
    | some expiry ↦ set_alarm w (max (expiry - renew_before_ms) (now + 60000))
  ]
]

-- `attachedBridges().length > 0`
unfoldable pub has_attached : World → Bool
has_attached w = any is_attached w.sockets

unfoldable pub is_active : ℕ → StoredTunnel → World → Bool
unfolding has_attached
is_active now r w =
    if has_attached w
    then true
    else elim r.last_connected_at [ none ↦ false | some at ↦ ltb now (at + active_window_ms) ]

abbrev pub cert_id : Text → Text
cert_id uuid = codes "cert_" ++ uuid

abbrev pub or_hostname : StoredTunnel → List Text
or_hostname r = elim r.certificate_identifiers [ none ↦ r.hostname ∷ [] | some ids ↦ ids ]

abbrev pub params_of : StoredTunnel → Text → List Text → Text → WorkflowParams
params_of r id identifiers csr = record {
  tunnel_id = r.id;
  certificate_id = id;
  hostname = r.hostname;
  identifiers = identifiers;
  csr = csr;
}

-- The renewal is saved first; if the workflow does not start, it is taken back and tried later.
unfoldable pub start_renewal : ℕ → Text → Bool → StoredTunnel → World → World
start_renewal now uuid create_fails r w = elim r.certificate_csr [
  | none ↦ w
  | some csr ↦
      let id = cert_id uuid in
      let begun = record r { renewal = some (record { certificate_id = id; started_at = now }) } in
      let asked = log_call (save w begun) (create (params_of r id (or_hostname r) csr)) in
      if create_fails
      then set_alarm (save asked (record r { renewal = none })) (now + renewal_retry_ms)
      else asked
]

-- `Date.now() - Date.parse(record.renewal.startedAt) >= RENEWAL_STALE_MS`
abbrev pub is_stale : ℕ → Renewal → Bool
is_stale now v = leb (v.started_at + renewal_stale_ms) now

abbrev pub renewal_running : ℕ → StoredTunnel → Bool
renewal_running now r = elim r.renewal [ none ↦ false | some v ↦ not (is_stale now v) ]

-- `Date.parse(state.expiry) - RENEW_BEFORE_MS <= Date.now()`
abbrev pub is_due : ℕ → ℕ → Bool
is_due now expiry = leb expiry (now + renew_before_ms)

unfoldable pub alarm : ℕ → Text → Bool → World → World
unfolding schedule_renewal is_active start_renewal
alarm now uuid create_fails w = elim (live w.stored) [
  | none ↦ w
  | some r ↦ elim (ready_expiry r.certificate) [
    | none ↦ w
    | some expiry ↦
        if renewal_running now r
        then w
        else if not (is_due now expiry)
        then schedule_renewal now r w
        else if is_active now r w
        then start_renewal now uuid create_fails r w
        else w
  ]
]

unfoldable pub on_attached : ℕ → Text → Bool → StoredTunnel → World → World
unfolding schedule_renewal start_renewal
on_attached now uuid create_fails r w = elim (ready_expiry r.certificate) [
  | none ↦ w
  | some expiry ↦
      if not (renewal_running now r) && is_due now expiry
      then start_renewal now uuid create_fails r w
      else elim w.alarm_at [ some at ↦ w | none ↦ schedule_renewal now r w ]
]

abbrev pub is_renewal_of : Text → Option Renewal → Bool
is_renewal_of id none = false
is_renewal_of id (some v) = same v.certificate_id id

-- `String(record.certificateID) === id`
abbrev pub is_current : Text → Option Text → Bool
is_current id none = same (codes "undefined") id
is_current id (some current) = same current id

abbrev pub renewed_record : StoredTunnel → Text → CertificateState → StoredTunnel
renewed_record r id state = record r {
  certificate_id = some id;
  certificate = some (record { id = id; state = state });
  renewal = none;
}

abbrev pub updated_record : StoredTunnel → Text → CertificateState → StoredTunnel
updated_record r id state = record r { certificate = some (record { id = id; state = state }) }

-- An update of the renewal: only `ready` and `failed` change anything.
unfoldable pub update_renewal : ℕ → Text → CertificateState → StoredTunnel → World → World
unfolding schedule_renewal
update_renewal now id (ready certificate chain expiry) r w =
    let renewed = renewed_record r id (ready certificate chain expiry) in
    schedule_renewal now renewed (save w renewed)
update_renewal now id (failed reason) r w =
    set_alarm (save w (record r { renewal = none })) (now + renewal_retry_ms)
update_renewal now id issuing r w = w
update_renewal now id (challenge token key) r w = w

unfoldable pub update_current : ℕ → Text → CertificateState → StoredTunnel → World → World
unfolding schedule_renewal
update_current now id state r w =
    let updated = updated_record r id state in schedule_renewal now updated (save w updated)

unfoldable pub update_certificate : ℕ → Text → CertificateState → World → World × Bool
unfolding update_renewal update_current
update_certificate now id input w = elim (live w.stored) [
  | none ↦ (w, false)
  | some r ↦
      if is_renewal_of id r.renewal
      then (update_renewal now id input r w, true)
      else if is_current id r.certificate_id
      then (update_current now id input r w, true)
      else (w, false)
]
