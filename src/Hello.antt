-- ===== src/Hello.antt =====
-- packages/server/src/tls-client-hello.ts: `parseClientHello` and `concatBytes`.
-- `parseClientHello` is split where the source is: `records` is the loop over TLS records, with
-- `rest` for the data from `recordOffset` on; `parse_hello` reads the ClientHello itself.
pub mod Reader
pub mod Records
pub mod Bounds
pub mod Stability
pub mod Tests
use shuvtunnel.Common.{
  ℕ, zero, suc, ◌+◌, ◌-◌, ◌*◌, ◌≤◌, ◌<◌, ◌≡◌, List, [], ◌∷◌, ◌++◌, Option, none, some, Bool, true,
  false, arith, ltb, leb, ◌==◌, ◌&&◌, not, if◌then◌else◌, length, get_or, take, drop, Text, lower,
  min,
}
use shuvtunnel.Frame.{Bytes}
use Reader.{
  Reason, expected_handshake_record, expected_client_hello, truncated_client_hello, invalid_session,
  invalid_cipher_suites, no_sni, invalid_extensions, truncated_extensions, truncated_extension,
  Read, ok, reject, fault, ◌>>=◌, ◌>>◌, guard, byte, uint16,
}
use Records.{Scan, partial, malformed, hello, stuck, scan_records}

pub record ClientHello : Type 0 where
  pub server_name : Text
  pub alpn : Text

pub data ClientHelloResult : Type 0 where
  incomplete : ClientHelloResult
  invalid : Reason → ClientHelloResult
  complete : ClientHello → ClientHelloResult
  -- No result of the source: a read past the end of the ClientHello, or a loop without an end.
  out_of_range : ClientHelloResult

pub record Names : Type 0 where
  pub server_name : Text
  pub alpn : Text

-- `hello.subarray(start, start + size)`
abbrev subarray : Bytes → ℕ → ℕ → Bytes
subarray bytes start size = take size (drop start bytes)

module _ (decode : Bytes → Text) where
  -- The loop over the entries of the server name list.
  server_name_loop : ℕ → Bytes → ℕ → ℕ → Text → Read Text
  server_name_loop zero bytes list_end offset name = fault
  server_name_loop (suc fuel) bytes list_end offset name = elim (leb (offset + 3) list_end) [
    | false ↦ ok name
    | true ↦ do
      name_type ← byte bytes offset
      name_length ← uint16 bytes (offset + 1)
      let start = offset + 3
      elim (ltb list_end (start + name_length)) [
        | true ↦ ok name
        | false ↦ elim (name_type == 0) [
          | true ↦ ok (decode (subarray bytes start name_length))
          | false ↦ server_name_loop fuel bytes list_end (start + name_length) name
        ]
      ]
  ]

  -- The body of one extension at `offset`, which ends at `stop`.
  server_name_extension : Bytes → ℕ → ℕ → Names → Read Names
  unfolding server_name_loop
  server_name_extension bytes offset stop names = do
    size ← uint16 bytes offset
    name ←
        server_name_loop (suc (length bytes)) bytes (min stop (offset + 2 + size)) (offset + 2)
          names.server_name
    ok (record names { server_name = name })

  alpn_extension : Bytes → ℕ → ℕ → Names → Read Names
  alpn_extension bytes offset stop names = do
    size ← uint16 bytes offset
    protocol_length ← byte bytes (offset + 2)
    ok (
        if leb (offset + 3 + protocol_length) (min stop (offset + 2 + size))
        then record names { alpn = decode (subarray bytes (offset + 3) protocol_length) }
        else names)

  extension : Bytes → ℕ → ℕ → ℕ → Names → Read Names
  unfolding server_name_extension alpn_extension
  extension bytes type size offset names =
      if (type == 0) && leb 5 size
      then server_name_extension bytes offset (offset + size) names
      else if (type == 16) && leb 3 size
      then alpn_extension bytes offset (offset + size) names
      else ok names

  -- The loop over the extensions.
  extensions_loop : ℕ → Bytes → ℕ → ℕ → Names → Read Names
  unfolding extension
  extensions_loop zero bytes extensions_end offset names = fault
  extensions_loop (suc fuel) bytes extensions_end offset names =
      elim (leb (offset + 4) extensions_end) [
        | false ↦ ok names
        | true ↦ do
          type ← uint16 bytes offset
          size ← uint16 bytes (offset + 2)
          let start = offset + 4
          guard (leb (start + size) extensions_end) truncated_extension
          names' ← extension bytes type size start names
          extensions_loop fuel bytes extensions_end (start + size) names'
      ]

  -- From the extensions on, at `offset`.
  read_extensions : Bytes → ℕ → Read Names
  unfolding extensions_loop
  read_extensions bytes offset = do
    guard (not (offset == length bytes)) no_sni
    guard (leb (offset + 2) (length bytes)) invalid_extensions
    extensions_length ← uint16 bytes offset
    guard (leb (offset + 2 + extensions_length) (length bytes)) truncated_extensions
    extensions_loop (suc (length bytes)) bytes (offset + 2 + extensions_length) (offset + 2)
        (record { server_name = []; alpn = [] })

  -- The fixed fields, the session, the cipher suites and the compression methods.
  read_hello : Bytes → Read Names
  unfolding read_extensions
  read_hello bytes = do
    guard (leb 35 (length bytes)) truncated_client_hello
    session_length ← byte bytes 34
    let after_session = 34 + 1 + session_length
    guard (leb (after_session + 2) (length bytes)) invalid_session
    cipher_length ← uint16 bytes after_session
    let after_ciphers = after_session + 2 + cipher_length
    guard (ltb after_ciphers (length bytes)) invalid_cipher_suites
    compression_length ← byte bytes after_ciphers
    read_extensions bytes (after_ciphers + 1 + compression_length)

  -- `if (!serverName)`: a hello with no name, or an empty one, is invalid.
  conclude : Read Names → ClientHelloResult
  conclude fault = out_of_range
  conclude (reject r) = invalid r
  conclude (ok names) = elim names.server_name [
    | [] ↦ invalid no_sni
    | c ∷ cs ↦ complete (record { server_name = lower (c ∷ cs); alpn = names.alpn })
  ]

  pub parse_scan : Scan → ClientHelloResult
  unfolding conclude read_hello
  parse_scan partial = incomplete
  parse_scan (malformed r) = invalid r
  parse_scan (hello bytes) = conclude (read_hello bytes)
  parse_scan stuck = out_of_range

  unfoldable pub parse_client_hello : Bytes → ClientHelloResult
  unfolding parse_scan scan_records
  parse_client_hello bytes = parse_scan (scan_records bytes)

-- `concatBytes(chunks, length)` where `length` is the chunks' total: `output.set` at a growing offset.
unfoldable pub concat_bytes : List Bytes → Bytes
concat_bytes [] = []
concat_bytes (c ∷ cs) = c ++ concat_bytes cs
