-- ===== src/Client/Running/Certificates.antt =====
-- The certificate check of the class `Tunnel`, `refreshCertificate` of
-- packages/client/src/effect/tunnel.ts.
use shuvtunnel.Common.{
  ℕ, ◌+◌, [], ◌∷◌, ◌++◌, Option, none, some, false, not, if◌then◌else◌, Text, same, ltb,
}
use shuvtunnel.Client.{Identity, certificate_renewed}
use shuvtunnel.Client.Running.{Tunnel}

-- The answer of the certificate check: a ready state with its certificate, its chain and its expiry
-- (as an instant), or anything else, an error included.
pub data CertificateAnswer : Type 0 where
  no_certificate : CertificateAnswer
  ready_certificate : Text → Option Text → ℕ → CertificateAnswer

abbrev pub or_empty : Option Text → Text
or_empty none = []
or_empty (some t) = t

abbrev pub renewed_identity : Text → Option Text → ℕ → Identity → Identity
renewed_identity certificate chain expiry i = record i {
  certificate = certificate;
  chain = or_empty chain;
  certificate_expiry = expiry;
}

unfoldable pub take_certificate : CertificateAnswer → Tunnel → Tunnel
take_certificate no_certificate t = t
take_certificate (ready_certificate [] chain expiry) t = t
take_certificate (ready_certificate (c ∷ cs) chain expiry) t =
    if same (c ∷ cs) t.identity.certificate then t else record t {
      identity = renewed_identity (c ∷ cs) chain expiry t.identity;
      emitted = t.emitted ++ certificate_renewed expiry ∷ [];
    }

-- `RENEWAL_WINDOW_MS`, `CERTIFICATE_CHECK_DUE_MS`, `CERTIFICATE_CHECK_FRESH_MS`
abbrev pub renewal_window_ms : ℕ
renewal_window_ms = 2592000000

abbrev pub check_due_ms : ℕ
check_due_ms = 60000

abbrev pub check_fresh_ms : ℕ
check_fresh_ms = 43200000

abbrev pub check_delay : ℕ → ℕ → ℕ
check_delay expiry now =
    if ltb expiry (now + renewal_window_ms) then check_due_ms else check_fresh_ms

-- `refreshCertificate` from the answer on.
unfoldable pub on_checked : CertificateAnswer → ℕ → Tunnel → Tunnel
unfolding take_certificate
on_checked answer now t =
    if not t.checking
    then t
    else let taken = take_certificate answer t in
      if t.is_shutdown then record taken { checking = false } else record taken {
        checking = false;
        refresh_timer = some (check_delay taken.identity.certificate_expiry now);
      }

-- The timer calls `refreshCertificate` again.
unfoldable pub on_check_timer : Tunnel → Tunnel
on_check_timer t = elim t.refresh_timer [
  | none ↦ t
  | some ms ↦ record t { refresh_timer = none; checking = not t.is_shutdown }
]

-- The tunnel before its loop starts.
