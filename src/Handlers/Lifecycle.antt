-- ===== src/Handlers/Lifecycle.antt =====
-- The life of one tunnel as the HTTP API of packages/server/src/handlers/tunnel.ts shows it.
use shuvtunnel.Common.{ℕ, ◌≡◌, ◌≢◌, ◌∷◌, ◌++◌, none, Text, codes, arith, same_refl, same-false}
use shuvtunnel.Store.{TunnelInfo, offline, tunnel_view}
use shuvtunnel.TunnelObject.{World, access, live}
use shuvtunnel.TunnelObject.Registry.{initialize, info, certificate, remove}
use shuvtunnel.Handlers.{
  ApiError, hostname_unavailable, tunnel_not_found, certificate_not_found, answers, fails,
  create_tunnel, get_tunnel, get_certificate, remove_tunnel,
}

abbrev pub created_info : Text → Text → TunnelInfo
created_info id domain = record {
  id = id;
  hostname = id ++ b'.' ∷ domain;
  state = offline;
  certificate_id = none;
}

module _ (hash : Text → Text) (now later : ℕ) (domain id token other : Text) (w : World) where
  abbrev created : World
  created = (create_tunnel hash now domain none id token w).0

  -- Let the object of an id hold no live record, and let another token have another digest. Then
  -- `tunnel.create` without a name answers with the offline tunnel `id.domain` and the token;
  -- after it, `tunnel.get` gives that tunnel for the token and Unauthorized for the other one,
  -- `tunnel.getCertificate` finds no certificate, a second create for that id fails and changes
  -- nothing, and `tunnel.remove` with the token succeeds, after which `tunnel.get` finds no
  -- tunnel.
  pub lifecycle :
      live w.stored ≡ none
      → hash other ≢ hash token
      → ((create_tunnel hash now domain none id token w).1
          ≡ answers (created_info id domain, token))
        × (get_tunnel hash id token created ≡ answers (created_info id domain))
        × (get_tunnel hash id other created
            ≡ fails (ApiError.unauthorized (codes "Invalid bearer token")))
        × (get_certificate hash id token created
            ≡ fails (certificate_not_found id (codes "Certificate not found")))
        × (create_tunnel hash later domain none id other created
            ≡ (created, fails (hostname_unavailable id (codes "Hostname is unavailable"))))
        × ((remove_tunnel hash later id token created).1 ≡ answers tt)
        × (get_tunnel hash id token (remove_tunnel hash later id token created).0
            ≡ fails (tunnel_not_found id (codes "Tunnel not found")))
  unfolding create_tunnel get_tunnel get_certificate remove_tunnel initialize info certificate
      remove access live tunnel_view
  lifecycle free wrong =
      ground (arith, same_refl (hash token), same-false (hash other) (hash token) wrong)
