-- ===== src/Gateway.antt =====
-- packages/server/src/index.ts: the tunnel behind a public hostname, and the part of `routeTcp` that
-- reads the ClientHello and picks the tunnel. The pipes that follow are the platform's.
pub mod Naming
pub mod Reading
mod Tests
use shuvtunnel.Common.{
  ℕ, ◌+◌, List, [], ◌∷◌, ◌++◌, Option, none, some, Bool, true, false, not, if◌then◌else◌, Text,
  lower, split, ends_with, drop_end, length, ltb,
}
use shuvtunnel.Frame.{Bytes}
use shuvtunnel.Hello.Reader.{Reason}
use shuvtunnel.Hello.{
  ClientHelloResult, incomplete, invalid, complete, out_of_range, parse_client_hello, concat_bytes,
}

-- `labels.at(-1) || undefined`, for one or two labels.
abbrev or_none : Text → Option Text
or_none [] = none
or_none (c ∷ cs) = some (c ∷ cs)

abbrev pub last_label : List Text → Option Text
last_label (a ∷ []) = or_none a
last_label (a ∷ b ∷ []) = or_none b
last_label _ = none

-- `tunnelIDFromHostname`
unfoldable pub tunnel_id_from_hostname : Text → Text → Option Text
tunnel_id_from_hostname hostname domain =
    let suffix = b'.' ∷ lower domain in
    if not (ends_with hostname suffix)
    then none
    else last_label (split b'.' (drop_end hostname (length suffix)))

-- How one `readWithTimeout` ends.
pub data TimedRead : Type 0 where
  arrived : Bytes → TimedRead
  finished timed_out : TimedRead

-- What `routeTcp` does: it waits for a read, throws, or connects to the object of a tunnel with the
-- hostname and the ALPN in the address, and replays the chunks.
pub data Routing : Type 0 where
  reading : Routing
  closed_early hello_timeout limit_exceeded not_a_hostname : Routing
  bad_hello : Reason → Routing
  -- A read outside the ClientHello, where the source would get `undefined`.
  broken : Routing
  routed : Text → Text → Text → List Bytes → Routing

abbrev pub client_hello_limit : ℕ
client_hello_limit = 65536

-- After the loop.
unfoldable pub pick_tunnel : Text → Text → Text → List Bytes → Routing
pick_tunnel domain [] alpn chunks = limit_exceeded
pick_tunnel domain (c ∷ cs) alpn chunks = elim (tunnel_id_from_hostname (c ∷ cs) domain) [
  | none ↦ not_a_hostname
  | some id ↦ routed id (c ∷ cs) alpn chunks
]

abbrev pub after_read : Text → List Bytes → ClientHelloResult → Routing → Routing
after_read domain chunks incomplete more = more
after_read domain chunks (invalid reason) more = bad_hello reason
after_read domain chunks (complete hello) more =
    pick_tunnel domain hello.server_name hello.alpn chunks
after_read domain chunks out_of_range more = broken

-- `while (length < CLIENT_HELLO_LIMIT)`
unfoldable pub route_tcp : (Bytes → Text) → Text → List TimedRead → List Bytes → ℕ → Routing
route_tcp decode domain [] chunks size =
    if ltb size client_hello_limit then reading else limit_exceeded
route_tcp decode domain (finished ∷ rest) chunks size =
    if ltb size client_hello_limit then closed_early else limit_exceeded
route_tcp decode domain (timed_out ∷ rest) chunks size =
    if ltb size client_hello_limit then hello_timeout else limit_exceeded
route_tcp decode domain (arrived bytes ∷ rest) chunks size =
    let gathered = chunks ++ bytes ∷ [] in
    let more = route_tcp decode domain rest gathered (size + length bytes) in
    if ltb size client_hello_limit
    then after_read domain gathered (parse_client_hello decode (concat_bytes gathered)) more
    else limit_exceeded
