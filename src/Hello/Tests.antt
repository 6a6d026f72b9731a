-- ===== src/Hello/Tests.antt =====
-- A ClientHello in one and in two TLS records, and the theorems at it.
use shuvtunnel.Common.{◌≡◌, ◌≢◌, refl, [], ◌∷◌, ◌++◌, Text, codes, replicate, lower}
use shuvtunnel.Frame.{Bytes}
use shuvtunnel.Hello.Reader.{expected_handshake_record, expected_client_hello, byte, uint16}
use shuvtunnel.Hello.{
  ClientHelloResult, incomplete, invalid, complete, out_of_range, parse_client_hello,
}
use shuvtunnel.Hello.Bounds.{parse_client_hello-in_range}
use shuvtunnel.Hello.Stability.{parse_client_hello-append}

-- ASCII bytes decode to themselves.
abbrev pub ascii : Bytes → Text
ascii bytes = bytes

-- The server name `A.b` and the protocol `h2`.
abbrev pub body : Bytes
body =
    3 ∷ 3 ∷ replicate 32 0
    ++ 0 ∷ 0 ∷ 2 ∷ 0x13 ∷ 1 ∷ 1 ∷ 0 ∷ 0 ∷ 21 ∷ 0 ∷ 0 ∷ 0 ∷ 8 ∷ 0 ∷ 6 ∷ 0 ∷ 0 ∷ 3 ∷ b'A' ∷ b'.'
      ∷ b'b' ∷ 0 ∷ 16 ∷ 0 ∷ 5 ∷ 0 ∷ 3 ∷ 2 ∷ b'h' ∷ b'2' ∷ []

abbrev pub one_record : Bytes
one_record = 0x16 ∷ 3 ∷ 1 ∷ 0 ∷ 68 ∷ 1 ∷ 0 ∷ 0 ∷ 64 ∷ body

abbrev two_records : Bytes
two_records = 0x16 ∷ 3 ∷ 1 ∷ 0 ∷ 2 ∷ 1 ∷ 0 ∷ 0x16 ∷ 3 ∷ 1 ∷ 0 ∷ 66 ∷ 0 ∷ 64 ∷ body

abbrev pub parsed : ClientHelloResult
parsed = complete (record { server_name = codes "a.b"; alpn = codes "h2" })

pub parse_tests :
    (parse_client_hello ascii one_record ≡ parsed)
    × (parse_client_hello ascii two_records ≡ parsed)
    × (parse_client_hello ascii (0x16 ∷ 3 ∷ 1 ∷ []) ≡ incomplete)
    × (parse_client_hello ascii (0x15 ∷ 3 ∷ 1 ∷ 0 ∷ 2 ∷ []) ≡ invalid expected_handshake_record)
    × (parse_client_hello ascii (0x16 ∷ 3 ∷ 1 ∷ 0 ∷ 4 ∷ 2 ∷ 0 ∷ 0 ∷ 0 ∷ [])
        ≡ invalid expected_client_hello)
unfolding parse_client_hello byte uint16 lower
parse_tests = (refl, refl, refl, refl, refl)

one_record-ne-incomplete : parse_client_hello ascii one_record ≢ incomplete
one_record-ne-incomplete e = cc (parse_tests.0)

parse_client_hello-append_example :
    parse_client_hello ascii (one_record ++ 0x17 ∷ 3 ∷ []) ≡ parse_client_hello ascii one_record
parse_client_hello-append_example =
    parse_client_hello-append ascii one_record (0x17 ∷ 3 ∷ []) one_record-ne-incomplete

parse_client_hello-in_range_example : parse_client_hello ascii two_records ≢ out_of_range
parse_client_hello-in_range_example = parse_client_hello-in_range ascii two_records
