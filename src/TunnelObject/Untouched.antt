-- ===== src/TunnelObject/Untouched.antt =====
-- What the handlers of packages/server/src/tunnel-object.ts leave alone.
use shuvtunnel.Common.{ℕ, ◌≡◌, refl, List, Option, Bool, Text, arith}
use shuvtunnel.Store.{CertificateState, ready, StoredTunnel, CertificateInfo}
use shuvtunnel.TunnelObject.{World}
use shuvtunnel.TunnelObject.Registry.{initialize}
use shuvtunnel.TunnelObject.Certificates.{
  schedule_renewal, start_renewal, alarm, on_attached, update_renewal, update_certificate,
}
use shuvtunnel.TunnelObject.Binding.{
  Workflows, CertificateRequest, issue_certificate, rebind, bind_checked, bind_request,
  bind_certificate, identifiers_of,
}

-- Only the record, the alarm and the workflow calls may differ.
pub record KeepsBridges (v w : World) : Type 0 where
  pub sockets : w.sockets ≡ v.sockets
  pub next_socket : w.next_socket ≡ v.next_socket
  pub channels : w.channels ≡ v.channels
  pub finished : w.finished ≡ v.finished
  pub sequence : w.sequence ≡ v.sequence

pub KeepsBridges-refl : (w : World) → KeepsBridges w w
KeepsBridges-refl w = record {
  sockets = refl;
  next_socket = refl;
  channels = refl;
  finished = refl;
  sequence = refl;
}

schedule_renewal-KeepsBridges :
    (now : ℕ) (r : StoredTunnel) (w : World) → KeepsBridges w (schedule_renewal now r w)
unfolding schedule_renewal
schedule_renewal-KeepsBridges now r w = ground arith

start_renewal-KeepsBridges :
    (now : ℕ) (uuid : Text) (fails : Bool) (r : StoredTunnel) (w : World)
    → KeepsBridges w (start_renewal now uuid fails r w)
unfolding start_renewal
start_renewal-KeepsBridges now uuid fails r w = ground arith

pub initialize-KeepsBridges :
    (now : ℕ) (id hostname hash : Text) (w : World)
    → KeepsBridges w (initialize now id hostname hash w).0
unfolding initialize
initialize-KeepsBridges now id hostname hash w = ground arith

pub alarm-KeepsBridges :
    (now : ℕ) (uuid : Text) (fails : Bool) (w : World) → KeepsBridges w (alarm now uuid fails w)
unfolding alarm
alarm-KeepsBridges now uuid fails w = ground arith

pub on_attached-KeepsBridges :
    (now : ℕ) (uuid : Text) (fails : Bool) (r : StoredTunnel) (w : World)
    → KeepsBridges w (on_attached now uuid fails r w)
unfolding on_attached
on_attached-KeepsBridges now uuid fails r w = ground arith

update_renewal-KeepsBridges :
    (now : ℕ) (id : Text) (s : CertificateState) (r : StoredTunnel) (w : World)
    → KeepsBridges w (update_renewal now id s r w)
unfolding update_renewal
update_renewal-KeepsBridges now id (ready certificate chain expiry) r w = ground arith
update_renewal-KeepsBridges now id _ r w = ground arith

pub update-KeepsBridges :
    (now : ℕ) (id : Text) (s : CertificateState) (w : World)
    → KeepsBridges w (update_certificate now id s w).0
unfolding update_certificate
update-KeepsBridges now id (ready certificate chain expiry) w = ground arith
update-KeepsBridges now id _ w = ground arith

issue_certificate-KeepsBridges :
    (wf : Workflows) (uuid : Text) (r : StoredTunnel) (csr : Text) (ids : List Text) (w : World)
    → KeepsBridges w (issue_certificate wf uuid r csr ids w).0
unfolding issue_certificate
issue_certificate-KeepsBridges wf uuid r csr ids w = ground arith

rebind-KeepsBridges :
    (wf : Workflows) (r : StoredTunnel) (csr : Text) (ids : List Text) (c : CertificateInfo)
    (w : World)
    → KeepsBridges w (rebind wf r csr ids c w).0
unfolding rebind
rebind-KeepsBridges wf r csr ids c w = ground arith

bind_checked-KeepsBridges :
    (wf : Workflows) (uuid : Text) (r : StoredTunnel) (csr : Text) (ids : List Text) (w : World)
    → KeepsBridges w (bind_checked wf uuid r csr ids w).0
unfolding bind_checked
bind_checked-KeepsBridges wf uuid r csr ids w =
    grind (arith, issue_certificate-KeepsBridges, rebind-KeepsBridges, KeepsBridges-refl)

bind_request-KeepsBridges :
    (wf : Workflows) (uuid : Text) (r : StoredTunnel) (csr : Text) (request : CertificateRequest)
    (w : World)
    → KeepsBridges w (bind_request wf uuid r csr request w).0
unfolding bind_request
bind_request-KeepsBridges wf uuid r csr request w =
    ground (arith, bind_checked-KeepsBridges wf uuid r csr (identifiers_of request) w)

pub bind-KeepsBridges :
    (hash : Text → Text) (parse : Text → Option CertificateRequest) (wf : Workflows)
    (uuid token csr : Text) (w : World)
    → KeepsBridges w (bind_certificate hash parse wf uuid token csr w).0
unfolding bind_certificate
bind-KeepsBridges hash parse wf uuid token csr w =
    grind (arith, bind_request-KeepsBridges, KeepsBridges-refl)
