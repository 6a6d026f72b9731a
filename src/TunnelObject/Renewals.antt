-- ===== src/TunnelObject/Renewals.antt =====
-- The updates of a running renewal, and the alarm that starts the next one, in
-- packages/server/src/tunnel-object.ts.
use shuvtunnel.Common.{
  ℕ, ◌+◌, ◌-◌, ◌≤◌, ◌≡◌, refl, max, [], ◌∷◌, ◌++◌, Option, none, some, true, false, Text, arith,
  same_refl,
}
use shuvtunnel.Store.{
  CertificateState, challenge, issuing, ready, failed, CertificateInfo, StoredTunnel, Renewal,
}
use shuvtunnel.TunnelObject.{World, create, live, save, set_alarm, renew_before_ms}
use shuvtunnel.TunnelObject.Certificates.{
  schedule_renewal, has_attached, is_active, cert_id, or_hostname, params_of, start_renewal, alarm,
  update_renewal, update_certificate, renewed_record,
}

pub live-alive :
    (o : Option StoredTunnel) (r : StoredTunnel)
    → live o ≡ some r
    → (o ≡ some r) × (r.deleted_at ≡ none)
unfolding live
live-alive none r e = cc
live-alive (some r') r e = ground arith

abbrev renewal_at : ℕ → ℕ → ℕ
renewal_at now expiry = max (expiry - renew_before_ms) (now + 60000)

-- What an update does to a renewal: only `ready` replaces the certificate.
abbrev pub certificate_after : Renewal → CertificateState → StoredTunnel → Option CertificateInfo
certificate_after v (ready certificate chain expiry) r =
    some (record { id = v.certificate_id; state = ready certificate chain expiry })
certificate_after v (failed reason) r = r.certificate
certificate_after v issuing r = r.certificate
certificate_after v (challenge token key) r = r.certificate

abbrev pub certificate_of : Option StoredTunnel → Option CertificateInfo
certificate_of none = none
certificate_of (some r) = r.certificate

-- An update of the running renewal of a live tunnel is accepted in each of the four states;
-- `ready` replaces the certificate, the other three leave the one that the tunnel had.
pub renewal_update :
    (now : ℕ) (s : CertificateState) (v : Renewal) (r : StoredTunnel) (w : World)
    → live w.stored ≡ some r
    → r.renewal ≡ some v
    → ((update_certificate now v.certificate_id s w).1 ≡ true)
      × (certificate_of (update_certificate now v.certificate_id s w).0.stored
          ≡ certificate_after v s r)
unfolding update_certificate update_renewal schedule_renewal
renewal_update now s v r w alive running =
    let (stored, undeleted) = live-alive w.stored r alive in
    ground (arith, same_refl v.certificate_id)

update-ready :
    (now : ℕ) (certificate chain : Text) (expiry : ℕ) (v : Renewal) (r : StoredTunnel) (w : World)
    → live w.stored ≡ some r
    → r.renewal ≡ some v
    → (update_certificate now v.certificate_id (ready certificate chain expiry) w).0
      ≡ set_alarm
          (save w (renewed_record r v.certificate_id (ready certificate chain expiry)))
          (renewal_at now expiry)
unfolding update_certificate update_renewal schedule_renewal
update-ready now certificate chain expiry v r w alive running =
    let (stored, undeleted) = live-alive w.stored r alive in
    ground (arith, same_refl v.certificate_id)

-- Let the tunnel be live with a running renewal, a stored CSR and an attached bridge, and let an
-- update report that renewal ready. Then the alarm is set to the later of 30 days before the new
-- expiry and a minute from now, and the alarm run at that time or later, with `create`
-- succeeding, asks for one more certificate with the stored CSR, hostname and identifiers.
pub renewal_again :
    (now later : ℕ) (uuid certificate chain csr : Text) (expiry : ℕ) (v : Renewal)
    (r : StoredTunnel) (w : World)
    → live w.stored ≡ some r
    → r.renewal ≡ some v
    → r.certificate_csr ≡ some csr
    → has_attached w ≡ true
    → max (expiry - renew_before_ms) (now + 60000) ≤ later
    → ((update_certificate now v.certificate_id (ready certificate chain expiry) w).0.alarm_at
        ≡ some (max (expiry - renew_before_ms) (now + 60000)))
      × ((alarm later uuid false
            (update_certificate now v.certificate_id (ready certificate chain expiry) w).0).calls
          ≡ w.calls ++ create (params_of r (cert_id uuid) (or_hostname r) csr) ∷ [])
unfolding alarm start_renewal live is_active has_attached
renewal_again now later uuid certificate chain csr expiry v r w alive running has_csr bridges late =
    let (stored, undeleted) = live-alive w.stored r alive in
    rw (update-ready now certificate chain expiry v r w alive running) (refl, ground (arith))
