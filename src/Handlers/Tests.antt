-- ===== src/Handlers/Tests.antt =====
-- The life of one tunnel at concrete inputs.
use shuvtunnel.Common.{◌≡◌, refl, none, Text, codes, arith}
use shuvtunnel.TunnelObject.{World, empty_world, live}
use shuvtunnel.Handlers.{
  ApiError, hostname_unavailable, tunnel_not_found, certificate_not_found, answers, fails,
  create_tunnel, get_tunnel, get_certificate, remove_tunnel,
}
use shuvtunnel.Handlers.Lifecycle.{created_info, lifecycle}

abbrev plain : Text → Text
plain t = t

abbrev domain : Text
domain = codes "shuv.zip"

abbrev after_create : World
after_create = (create_tunnel plain 1000 domain none (codes "t1") (codes "tok") empty_world).0

nothing_live : live empty_world.stored ≡ none
unfolding live
nothing_live = refl

lifecycle_example :
    ((create_tunnel plain 1000 domain none (codes "t1") (codes "tok") empty_world).1
      ≡ answers (created_info (codes "t1") domain, codes "tok"))
    × (get_tunnel plain (codes "t1") (codes "tok") after_create
        ≡ answers (created_info (codes "t1") domain))
    × (get_tunnel plain (codes "t1") (codes "bad") after_create
        ≡ fails (ApiError.unauthorized (codes "Invalid bearer token")))
    × (get_certificate plain (codes "t1") (codes "tok") after_create
        ≡ fails (certificate_not_found (codes "t1") (codes "Certificate not found")))
    × (create_tunnel plain 2000 domain none (codes "t1") (codes "bad") after_create ≡ (
      after_create,
      fails (hostname_unavailable (codes "t1") (codes "Hostname is unavailable")),
    ))
    × ((remove_tunnel plain 2000 (codes "t1") (codes "tok") after_create).1 ≡ answers tt)
    × (get_tunnel plain
          (codes "t1")
          (codes "tok")
          (remove_tunnel plain 2000 (codes "t1") (codes "tok") after_create).0
        ≡ fails (tunnel_not_found (codes "t1") (codes "Tunnel not found")))
lifecycle_example =
    lifecycle plain 1000 2000 domain (codes "t1") (codes "tok") (codes "bad") empty_world
      nothing_live (λ e. absurd (ground arith))
