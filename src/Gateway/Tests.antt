-- ===== src/Gateway/Tests.antt =====
-- Runs of the gateway's functions, and the theorems about them at concrete inputs.
use shuvtunnel.Common.{
  ◌≡◌, ◌↔◌, refl, inr, List, [], ◌∷◌, ◌++◌, map, take, drop, none, some, false, codes, arith, lower,
  split, ends_with, drop_end, has_unit, same,
}
use shuvtunnel.Frame.{Bytes}
use shuvtunnel.Hello.{ClientHello, complete, parse_client_hello, concat_bytes}
use shuvtunnel.Hello.Tests.{ascii, one_record, parse_tests}
use shuvtunnel.Names.{is_label, route_for_sni}
use shuvtunnel.Names.Routing.{under}
use shuvtunnel.TunnelObject.Relay.{chunk, done, read_initial, route_of_sni, is_bad_route}
use shuvtunnel.Gateway.{arrived, timed_out, routed, route_tcp, tunnel_id_from_hostname}
use shuvtunnel.Gateway.Naming.{Belongs, tunnel_id_from_hostname_iff, IsNameOf, parts_agree}
use shuvtunnel.Gateway.Reading.{Reads, readers_agree}

tunnel_id_tests :
    (tunnel_id_from_hostname (codes "t1.shuv.zip") (codes "Shuv.zip") ≡ some (codes "t1"))
    × (tunnel_id_from_hostname (codes "api.t1.shuv.zip") (codes "shuv.zip") ≡ some (codes "t1"))
    × (tunnel_id_from_hostname (codes "a.b.t1.shuv.zip") (codes "shuv.zip") ≡ none)
    × (tunnel_id_from_hostname (codes "shuv.zip") (codes "shuv.zip") ≡ none)
    × (tunnel_id_from_hostname (codes ".shuv.zip") (codes "shuv.zip") ≡ none)
    × (tunnel_id_from_hostname (codes "a.b") (codes "b") ≡ some (codes "a"))
unfolding tunnel_id_from_hostname lower split ends_with drop_end same
tunnel_id_tests = (refl, refl, refl, refl, refl, refl)

tunnel_id_from_hostname_iff_example :
    (tunnel_id_from_hostname (codes "api.t1.shuv.zip") (codes "shuv.zip") ≡ some (codes "t1"))
    ↔ Belongs (codes "api.t1.shuv.zip") (lower (codes "shuv.zip")) (codes "t1")
tunnel_id_from_hostname_iff_example =
    tunnel_id_from_hostname_iff (codes "api.t1.shuv.zip") (codes "shuv.zip") (codes "t1")

t1_is_plain : has_unit (codes "t1") b'.' ≡ false
unfolding has_unit
t1_is_plain = refl

api_IsNameOf :
    IsNameOf (codes "api.t1.shuv.zip") (under (codes "t1") (lower (codes "Shuv.zip"))) (codes "api")
unfolding lower is_label
api_IsNameOf = inr (refl, refl)

parts_agree_example :
    (tunnel_id_from_hostname (codes "api.t1.shuv.zip") (codes "Shuv.zip") ≡ some (codes "t1"))
    × (route_of_sni (under (codes "t1") (lower (codes "Shuv.zip"))) (some (codes "api.t1.shuv.zip"))
        ≡ some (codes "api"))
    × (is_bad_route (codes "api") ≡ false)
    × (route_for_sni (codes "api.t1.shuv.zip") (under (codes "t1") (lower (codes "Shuv.zip")))
        ≡ some (codes "api"))
parts_agree_example =
    parts_agree (codes "api.t1.shuv.zip") (codes "Shuv.zip") (codes "t1") (codes "api") (λ e. cc)
      t1_is_plain api_IsNameOf

abbrev sample_hello : ClientHello
sample_hello = record { server_name = codes "a.b"; alpn = codes "h2" }

-- The gateway reads the hello in two chunks, the object in three.
readers_agree_example :
    (taken : List Bytes) × (seen : List Bytes) × (route_tcp ascii
        (codes "b")
        (map arrived (take 10 one_record ∷ drop 10 one_record ∷ []) ++ timed_out ∷ [])
        []
        0
      ≡ routed (codes "a") (codes "a.b") (codes "h2") taken)
    × Reads
        (read_initial ascii
          (map chunk (take 3 one_record ∷ take 30 (drop 3 one_record) ∷ drop 33 one_record ∷ [])
            ++ done ∷ [])
          []
          0)
        sample_hello
        seen
unfolding concat_bytes
readers_agree_example =
    readers_agree ascii sample_hello (codes "b") (codes "a")
      (take 10 one_record ∷ drop 10 one_record ∷ [])
      (take 3 one_record ∷ take 30 (drop 3 one_record) ∷ drop 33 one_record ∷ []) (timed_out ∷ [])
      (done ∷ []) whole refl (omega arith) tunnel_id_tests.5
  where
    whole : parse_client_hello ascii one_record ≡ complete sample_hello
    whole = parse_tests.0
