-- ===== src/TunnelObject/Issuance.antt =====
-- The identifiers that packages/server/src/tunnel-object.ts asks the workflow for: the operations
-- that change the record or create a workflow.
pub mod Run
use shuvtunnel.Common.{
  ℕ, suc, ◌+◌, ◌≡◌, ◌≢◌, refl, sym, ap, ◌∙◌, List, [], ◌∷◌, ◌++◌, map, Option, none, some, Bool,
  true, false, ◌&&◌, not, ◌==◌, if◌then◌else◌, Text, arith, any, Bool-cases, Option-cases, inl, inr,
  codes, All, All-append, same, same_refl, same→eq,
}
use shuvtunnel.Json.{Json, Number, get, nat}
use shuvtunnel.Store.{
  StoredTunnel, CertificateInfo, CertificateState, challenge, issuing, ready, failed, online,
  ready_expiry,
}
use shuvtunnel.Protocol.{attached, heartbeat_ms, idle_timeout_ms}
use shuvtunnel.TunnelObject.{
  World, WorkflowCall, WorkflowParams, create, restart, Access, access, granted, live, save,
  set_alarm, log_call, send, control, change_socket, empty_world,
}
use shuvtunnel.TunnelObject.Tokens.{access-granted}
use shuvtunnel.TunnelObject.Deletion.{
  Steady, on_control-Steady, on_data-Steady, finish_all-Steady, web_socket_error-Steady,
  upload-Steady, connect-Steady,
}
use shuvtunnel.TunnelObject.Registry.{initialize, remove}
use shuvtunnel.TunnelObject.Certificates.{
  schedule_renewal, start_renewal, alarm, on_attached, update_renewal, update_current,
  update_certificate, or_hostname, params_of, cert_id, renewed_record, updated_record,
}
use shuvtunnel.TunnelObject.Binding.{
  Workflows, CertificateRequest, is_foreign, wildcard, ensure_workflow, issue_certificate,
  issuing_record, rebind, bind_checked, bind_request, bind_certificate, identifiers_of,
}
use shuvtunnel.TunnelObject.Bridge.Attach.{
  Platform, attach, attach_token, attach_routes, commit_attach, attachment_for, set_attachment,
  refuse, requested_routes,
}
use shuvtunnel.TunnelObject.Bridge.{
  UpgradeRequest, fetch, on_text, Message, web_socket_message, web_socket_close, go_offline,
  finish_all,
}
use shuvtunnel.TunnelObject.Steps.{
  Event, initializes, updates, alarms, binds, removes, fetches, messages, closes, errors, connects,
  uploads, step, run,
}

-- Only the hostname itself and its wildcard.
abbrev pub AreOwn : Text → List Text → Type 0
AreOwn hostname identifiers = any (is_foreign hostname) identifiers ≡ false

abbrev pub AsksOwn : WorkflowCall → Type 0
AsksOwn (create p) = AreOwn p.hostname p.identifiers
AsksOwn (restart id) = Unit

-- The identifiers that a renewal of the record would ask for.
abbrev pub RecordOwn : StoredTunnel → Type 0
RecordOwn r = AreOwn r.hostname (or_hostname r)

abbrev pub StoredOwn : Option StoredTunnel → Type 0
StoredOwn none = Unit
StoredOwn (some r) = RecordOwn r

pub record IssuanceInv (w : World) : Type 0 where
  pub calls : All AsksOwn w.calls
  pub stored : StoredOwn w.stored

abbrev Inv : World → Type 0
Inv w = IssuanceInv w

pub Inv-Steady : (v w : World) → Steady v w → Inv v → Inv w
Inv-Steady v w s i = record { calls = rw s.calls i.calls; stored = rw s.stored i.stored }

pub StoredOwn-live :
    (o : Option StoredTunnel) (r : StoredTunnel) → live o ≡ some r → StoredOwn o → RecordOwn r
unfolding live
StoredOwn-live none r e h = cc
StoredOwn-live (some r') r e h = ground arith

own_hostname : (hostname : Text) → AreOwn hostname (hostname ∷ [])
own_hostname hostname = rw (same_refl hostname)

calls-log :
    (w : World) (c : WorkflowCall)
    → All AsksOwn w.calls
    → AsksOwn c
    → All AsksOwn (log_call w c).calls
calls-log w c h k = All-append AsksOwn w.calls (c ∷ []) h (k, tt)

schedule_renewal-Inv :
    (now : ℕ) (r : StoredTunnel) (w : World) → Inv w → Inv (schedule_renewal now r w)
unfolding schedule_renewal
schedule_renewal-Inv now r w i = ground arith

start_renewal-Inv :
    (now : ℕ) (uuid : Text) (fails : Bool) (r : StoredTunnel) (w : World)
    → RecordOwn r
    → Inv w
    → Inv (start_renewal now uuid fails r w)
unfolding start_renewal
start_renewal-Inv now uuid fails r w own i = elim (Option-cases r.certificate_csr) [
  | inl e ↦ rw (e, start_renewal) i
  | inr (csr, e) ↦
      let logged : All AsksOwn
          (w.calls ++ create (params_of r (cert_id uuid) (or_hostname r) csr) ∷ []) =
        calls-log w (create (params_of r (cert_id uuid) (or_hostname r) csr)) i.calls own in
      rw (e, start_renewal) (ground (arith, logged))
]

pub alarm-Inv :
    (now : ℕ) (uuid : Text) (fails : Bool) (w : World) → Inv w → Inv (alarm now uuid fails w)
unfolding alarm
alarm-Inv now uuid fails w i =
    grind
      (arith, start_renewal-Inv now uuid fails, schedule_renewal-Inv now, StoredOwn-live w.stored)

pub on_attached-Inv :
    (now : ℕ) (uuid : Text) (fails : Bool) (r : StoredTunnel) (w : World)
    → RecordOwn r
    → Inv w
    → Inv (on_attached now uuid fails r w)
unfolding on_attached
on_attached-Inv now uuid fails r w own i =
    grind (arith, start_renewal-Inv now uuid fails, schedule_renewal-Inv now)

pub initialize-Inv :
    (now : ℕ) (id hostname hash : Text) (w : World)
    → Inv w
    → Inv (initialize now id hostname hash w).0
unfolding initialize
initialize-Inv now id hostname hash w i = ground (arith, own_hostname hostname)

update_renewal-Inv :
    (now : ℕ) (id : Text) (s : CertificateState) (r : StoredTunnel) (w : World)
    → RecordOwn r
    → Inv w
    → Inv (update_renewal now id s r w)
unfolding update_renewal
update_renewal-Inv now id (ready certificate chain expiry) r w own i =
    schedule_renewal-Inv now renewed (save w renewed) (record { calls = i.calls; stored = own })
  where
    renewed : StoredTunnel
    renewed = renewed_record r id (ready certificate chain expiry)
update_renewal-Inv now id (failed reason) r w own i = record { calls = i.calls; stored = own }
update_renewal-Inv now id _ r w own i = i

update_current-Inv :
    (now : ℕ) (id : Text) (s : CertificateState) (r : StoredTunnel) (w : World)
    → RecordOwn r
    → Inv w
    → Inv (update_current now id s r w)
unfolding update_current
update_current-Inv now id s r w own i =
    let updated : StoredTunnel = updated_record r id s in
    schedule_renewal-Inv now updated (save w updated) (record { calls = i.calls; stored = own })

pub update-Inv :
    (now : ℕ) (id : Text) (s : CertificateState) (w : World)
    → Inv w
    → Inv (update_certificate now id s w).0
unfolding update_certificate
update-Inv now id s w i = elim (Option-cases (live w.stored)) [
  | inl e ↦ rw (e, update_certificate) i
  | inr (r, e) ↦
      let own = StoredOwn-live w.stored r e i.stored in
      rw (e, update_certificate)
        (grind
          (arith, update_renewal-Inv now id s r w own i, update_current-Inv now id s r w own i))
]

ensure_workflow-Inv :
    (wf : Workflows) (r : StoredTunnel) (csr : Text) (ids : List Text) (w : World)
    → AreOwn r.hostname ids
    → Inv w
    → Inv (ensure_workflow wf r csr ids w).0
unfolding ensure_workflow
ensure_workflow-Inv wf r csr ids w own i = elim (Option-cases r.certificate_id) [
  | inl e ↦ rw (e, ensure_workflow) i
  | inr (id, e) ↦
      let created : All AsksOwn (w.calls ++ create (params_of r id ids csr) ∷ []) =
        calls-log w (create (params_of r id ids csr)) i.calls own in
      let restarted : All AsksOwn (w.calls ++ restart id ∷ []) =
        calls-log w (restart id) i.calls tt in
      rw (e, ensure_workflow) (ground (arith, created, restarted))
]

issue_certificate-Inv :
    (wf : Workflows) (uuid : Text) (r : StoredTunnel) (csr : Text) (ids : List Text) (w : World)
    → AreOwn r.hostname ids
    → Inv w
    → Inv (issue_certificate wf uuid r csr ids w).0
unfolding issue_certificate
issue_certificate-Inv wf uuid r csr ids w own i = after
  where
    begun : StoredTunnel
    begun = issuing_record r (cert_id uuid) csr ids

    ensured : Inv (ensure_workflow wf begun csr ids (save w begun)).0
    ensured =
        ensure_workflow-Inv wf begun csr ids (save w begun) own
          (record { calls = i.calls; stored = own })

    after : Inv (issue_certificate wf uuid r csr ids w).0
    after = ground (arith, ensured)

rebind-Inv :
    (wf : Workflows) (r : StoredTunnel) (csr : Text) (ids : List Text) (c : CertificateInfo)
    (w : World)
    → AreOwn r.hostname ids
    → Inv w
    → Inv (rebind wf r csr ids c w).0
unfolding rebind
rebind-Inv wf r csr ids c w own i = ground (arith, ensure_workflow-Inv wf r csr ids w own i)

bind_checked-Inv :
    (wf : Workflows) (uuid : Text) (r : StoredTunnel) (csr : Text) (ids : List Text) (w : World)
    → AreOwn r.hostname ids
    → Inv w
    → Inv (bind_checked wf uuid r csr ids w).0
unfolding bind_checked
bind_checked-Inv wf uuid r csr ids w own i =
    grind (arith, issue_certificate-Inv wf uuid r csr ids w own i, rebind-Inv)

bind_request-Inv :
    (wf : Workflows) (uuid : Text) (r : StoredTunnel) (csr : Text) (q : CertificateRequest)
    (w : World)
    → Inv w
    → Inv (bind_request wf uuid r csr q w).0
unfolding bind_request
bind_request-Inv wf uuid r csr q w i =
    elim (Bool-cases (any (is_foreign r.hostname) (identifiers_of q))) [
      | inl foreign ↦ rw foreign (ground arith)
      | inr own ↦ rw own (ground (arith, bind_checked-Inv wf uuid r csr (identifiers_of q) w own i))
    ]

pub bind-Inv :
    (hash : Text → Text) (parse : Text → Option CertificateRequest) (wf : Workflows)
    (uuid token csr : Text) (w : World)
    → Inv w
    → Inv (bind_certificate hash parse wf uuid token csr w).0
unfolding bind_certificate
bind-Inv hash parse wf uuid token csr w i = grind (arith, bind_request-Inv wf uuid)
