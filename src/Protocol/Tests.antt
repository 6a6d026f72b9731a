-- ===== src/Protocol/Tests.antt =====
-- A message on the wire, and the round trip at it.
use shuvtunnel.Common.{◌≡◌, refl, none, some, codes, arith, same}
use shuvtunnel.Json.{null, number, nat, string, object, field, end, get}
use shuvtunnel.Protocol.{ServerControlMessage, opened, server_json, decode_server_message}
use shuvtunnel.Protocol.RoundTrip.{decode-server_json}

decode_tests :
    (decode_server_message null ≡ none)
    × (decode_server_message (object (field (codes "type") (string (codes "later")) end)) ≡ none)
    × (decode_server_message (
          object (
            field
              (codes "conn")
              (number (nat 4294967296))
              (field (codes "type") (string (codes "end")) end)))
        ≡ none)
    × (decode_server_message (
          object (
            field
              (codes "conn")
              (number (nat 5))
              (field (codes "type") (string (codes "end")) end)))
        ≡ some (ServerControlMessage.finish 5))
unfolding decode_server_message get same
decode_tests = (refl, refl, refl, refl)

decode-server_json_example :
    decode_server_message
      (server_json (opened 3 (codes "1.2.3.4") (codes "t1.shuv.zip") (codes "h2")))
    ≡ some (opened 3 (codes "1.2.3.4") (codes "t1.shuv.zip") (codes "h2"))
decode-server_json_example =
    decode-server_json (opened 3 (codes "1.2.3.4") (codes "t1.shuv.zip") (codes "h2")) (omega arith)
