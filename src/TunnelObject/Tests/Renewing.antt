-- ===== src/TunnelObject/Tests/Renewing.antt =====
-- The theorems on renewals at concrete inputs.
use shuvtunnel.Common.{◌≡◌, refl, [], ◌∷◌, none, some, true, false, codes, arith}
use shuvtunnel.Store.{StoredTunnel, CertificateState, Renewal, ready}
use shuvtunnel.TunnelObject.{World, live, create}
use shuvtunnel.TunnelObject.Certificates.{
  has_attached, cert_id, or_hostname, params_of, update_certificate, alarm,
}
use shuvtunnel.TunnelObject.Renewals.{certificate_of, renewal_update, renewal_again}
use shuvtunnel.TunnelObject.Tests.{tunnel, busy}

-- A renewal is running.
abbrev renewing : Renewal
renewing = record { certificate_id = codes "cert_r1"; started_at = 6408000000 }

abbrev renewing_tunnel : StoredTunnel
renewing_tunnel = record tunnel { renewal = some renewing }

abbrev renewing_world : World
renewing_world = record busy { stored = some renewing_tunnel; alarm_at = none }

renewing_is_live : live renewing_world.stored ≡ some renewing_tunnel
unfolding live
renewing_is_live = refl

renewing_has_bridges : has_attached renewing_world ≡ true
unfolding has_attached
renewing_has_bridges = refl

renewal_update_example :
    ((update_certificate 6408000100
        (codes "cert_r1")
        (CertificateState.failed (codes "x"))
        renewing_world).1
      ≡ true)
    × (certificate_of
          (update_certificate 6408000100
            (codes "cert_r1")
            (CertificateState.failed (codes "x"))
            renewing_world).0.stored
        ≡ tunnel.certificate)
renewal_update_example =
    renewal_update 6408000100 (CertificateState.failed (codes "x")) renewing renewing_tunnel
      renewing_world renewing_is_live refl

renewal_again_example :
    ((update_certificate 6408000100
        (codes "cert_r1")
        (ready (codes "p2") (codes "c2") 16000000000)
        renewing_world).0.alarm_at
      ≡ some 13408000000)
    × ((alarm 13408000000
          (codes "r2")
          false
          (update_certificate 6408000100
            (codes "cert_r1")
            (ready (codes "p2") (codes "c2") 16000000000)
            renewing_world).0).calls
        ≡ create (
            params_of renewing_tunnel
              (cert_id (codes "r2"))
              (or_hostname renewing_tunnel)
              (codes "csr"))
          ∷ [])
renewal_again_example =
    renewal_again 6408000100 13408000000 (codes "r2") (codes "p2") (codes "c2") (codes "csr")
      16000000000 renewing renewing_tunnel renewing_world renewing_is_live refl refl
      renewing_has_bridges (omega arith)
