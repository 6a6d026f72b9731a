-- ===== src/TunnelObject/Pending.antt =====
-- A `remove` that is handled while the workflow call of `bindCertificate` is pending, in
-- packages/server/src/tunnel-object.ts. `issue_certificate` runs to its end at once; here its two parts,
-- the record that it saves before the call and the `catch` after it, stand around a removal.
use shuvtunnel.Common.{◌≡◌, refl, List, [], some, none, Option, Text, ℕ, arith, ap, ◌∙◌, same_refl}
use shuvtunnel.Store.{StoredTunnel, tunnel_view, failed}
use shuvtunnel.TunnelObject.{World, granted, access, save}
use shuvtunnel.TunnelObject.Registry.{info, remove, RemoveResult, TunnelInfoResult}
use shuvtunnel.TunnelObject.Certificates.{cert_id}
use shuvtunnel.TunnelObject.Binding.{
  Workflows, issuing_record, ensure_workflow, fail_issue, issue_certificate, workflow_unavailable,
}
use shuvtunnel.TunnelObject.Tokens.{access-granted}

-- The object while the workflow call is pending.
abbrev pub while_pending : Workflows → Text → StoredTunnel → Text → List Text → World → World
while_pending wf uuid r csr ids w =
    let begun = issuing_record r (cert_id uuid) csr ids in
    (ensure_workflow wf begun csr ids (save w begun)).0

while_pending-stored :
    (wf : Workflows) (uuid : Text) (r : StoredTunnel) (csr : Text) (ids : List Text) (w : World)
    → (while_pending wf uuid r csr ids w).stored ≡ some (issuing_record r (cert_id uuid) csr ids)
unfolding ensure_workflow
while_pending-stored wf uuid r csr ids w = ground arith

access-alive :
    (hash : Text → Text) (token : Text) (r : StoredTunnel)
    → r.deleted_at ≡ none
    → hash token ≡ r.token_hash
    → access hash (some r) token ≡ granted r
unfolding access
access-alive hash token r alive right = simp (access, alive, right, same_refl r.token_hash)

granted-alive :
    (hash : Text → Text) (token : Text) (stored : Option StoredTunnel) (r : StoredTunnel)
    → access hash stored token ≡ granted r
    → r.deleted_at ≡ none
unfolding access
granted-alive hash token none r h = cc
granted-alive hash token (some r') r h = ground arith

issue_certificate-fails :
    (wf : Workflows) (uuid csr reason : Text) (ids : List Text) (r : StoredTunnel) (w : World)
    → (let begun = issuing_record r (cert_id uuid) csr ids in
        (ensure_workflow wf begun csr ids (save w begun)).1 ≡ some reason)
    → (let begun = issuing_record r (cert_id uuid) csr ids in
        issue_certificate wf uuid r csr ids w ≡ (
          fail_issue begun (cert_id uuid) reason (while_pending wf uuid r csr ids w),
          workflow_unavailable reason,
        ))
unfolding issue_certificate
issue_certificate-fails wf uuid csr reason ids r w fails = rw (fails, issue_certificate) refl

-- Let a token be right for the tunnel, and let the workflow call for a new certificate fail.
-- Without interruption, bindCertificate then saves the failure in the state in which the call was
-- pending. A `remove` with that token in that state answers ok, and then `info` answers not
-- found. When the call fails after that, the record that is saved makes `info` answer with the
-- tunnel again, in the state that it had and with the new certificate identifier, while no
-- channel is left.
pub late_failure-revives :
    (wf : Workflows) (hash : Text → Text) (now : ℕ) (uuid token csr reason : Text) (ids : List Text)
    (r : StoredTunnel) (w : World)
    → access hash w.stored token ≡ granted r
    → (let begun = issuing_record r (cert_id uuid) csr ids in
        (ensure_workflow wf begun csr ids (save w begun)).1 ≡ some reason)
    → (let pending = while_pending wf uuid r csr ids w in
        let removal = remove hash now token pending in
        let begun = issuing_record r (cert_id uuid) csr ids in
        let late = fail_issue begun (cert_id uuid) reason removal.0 in
        (issue_certificate wf uuid r csr ids w
          ≡ (fail_issue begun (cert_id uuid) reason pending, workflow_unavailable reason))
        × (removal.1 ≡ RemoveResult.ok)
        × (info hash token removal.0 ≡ TunnelInfoResult.not_found)
        × (info hash token late
            ≡ TunnelInfoResult.ok (record {
              id = r.id;
              hostname = r.hostname;
              state = r.state;
              certificate_id = some (cert_id uuid);
            }))
        × (late.channels ≡ []))
unfolding remove info tunnel_view access
late_failure-revives wf hash now uuid token csr reason ids r w grants fails =
    let right : hash token ≡ r.token_hash = (access-granted hash token w.stored r grants).2 in
    let alive : r.deleted_at ≡ none = granted-alive hash token w.stored r grants in
    let begun = issuing_record r (cert_id uuid) csr ids in
    let failing : StoredTunnel = record begun {
      certificate = some (record { id = cert_id uuid; state = failed reason });
    } in
    let seen : access hash (while_pending wf uuid r csr ids w).stored token ≡ granted begun =
      ap (λ s. access hash s token) (while_pending-stored wf uuid r csr ids w)
      ∙ access-alive hash token begun alive right in
    let seen_late : access hash (some failing) token ≡ granted failing =
      access-alive hash token failing alive right in
    (
      issue_certificate-fails wf uuid csr reason ids r w fails,
      rw (seen, remove) refl,
      rw (seen, remove) refl,
      rw (seen_late, info) refl,
      rw (seen, remove) refl,
    )
