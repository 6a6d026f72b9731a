-- ===== src/Gateway/Reading.antt =====
-- The two readers of a ClientHello: `routeTcp` of packages/server/src/index.ts, and `connect` of
-- packages/server/src/tunnel-object.ts, which reads the replayed bytes again.
use shuvtunnel.Common.{
  ◌+◌, ◌≤◌, ◌≡◌, ◌≢◌, refl, sym, ap, ◌∙◌, List, [], ◌∷◌, ◌++◌, map, Option, some, true, arith,
  tests, length, length-append, append_assoc, append-nil, Text, ltb, Bool-cases, inl, inr, ◌⊎◌,
  ends_with,
}
use shuvtunnel.Frame.{Bytes}
use shuvtunnel.Hello.{
  ClientHello, ClientHelloResult, incomplete, invalid, complete, out_of_range, parse_client_hello,
  concat_bytes,
}
use shuvtunnel.Hello.Stability.{parse_client_hello-append}
use shuvtunnel.TunnelObject.Relay.{ReadEvent, chunk, Initial, read_initial, hello_limit}
use shuvtunnel.Hello.Records.{scan_records}
use shuvtunnel.Gateway.{TimedRead, arrived, routed, route_tcp, pick_tunnel, tunnel_id_from_hostname}

concat_bytes-append : (a b : List Bytes) → concat_bytes (a ++ b) ≡ concat_bytes a ++ concat_bytes b
unfolding concat_bytes
concat_bytes-append [] b = refl
concat_bytes-append (c ∷ cs) b =
    ap (λ x. c ++ x) (concat_bytes-append cs b)
    ∙ sym (append_assoc c (concat_bytes cs) (concat_bytes b))

-- What the loop returns once it read a ClientHello.
abbrev pub Reads : Option Initial → ClientHello → List Bytes → Type 0
Reads o hello chunks =
    o ≡ some (record { chunks = chunks; sni = some hello.server_name; alpn = hello.alpn })

concat_bytes-last :
    (chunks : List Bytes) (c : Bytes) → concat_bytes (chunks ++ c ∷ []) ≡ concat_bytes chunks ++ c
unfolding concat_bytes
concat_bytes-last chunks c =
    concat_bytes-append chunks (c ∷ []) ∙ ap (λ x. concat_bytes chunks ++ x) (append-nil c)

-- One more chunk, in front of the chunks that are left.
next_bytes :
    (chunks rest : List Bytes) (c : Bytes)
    → concat_bytes (chunks ++ c ∷ []) ++ concat_bytes rest
      ≡ concat_bytes chunks ++ (c ++ concat_bytes rest)
next_bytes chunks rest c =
    ap (λ x. x ++ concat_bytes rest) (concat_bytes-last chunks c)
    ∙ append_assoc (concat_bytes chunks) c (concat_bytes rest)

next_size :
    (chunks : List Bytes) (c : Bytes)
    → length (concat_bytes (chunks ++ c ∷ [])) ≡ length (concat_bytes chunks) + length c
next_size chunks c = ap length (concat_bytes-last chunks c) ∙ length-append (concat_bytes chunks) c

empty_of_length : (bytes : Bytes) → length bytes ≤ 0 → bytes ≡ []
empty_of_length [] h = refl
empty_of_length (c ∷ cs) h = absurd (omega arith)

module _ (decode : Bytes → Text) (hello : ClientHello) where
  -- A reader with room for the whole hello is below the limit as long as the hello is not complete.
  below_limit :
      (bytes rest : Bytes)
      → parse_client_hello decode bytes ≡ incomplete
      → parse_client_hello decode (bytes ++ rest) ≡ complete hello
      → length (bytes ++ rest) ≤ hello_limit
      → ltb (length bytes) hello_limit ≡ true
  below_limit bytes rest partial whole small = elim (Bool-cases (ltb (length bytes) hello_limit)) [
    | inl below ↦ below
    | inr full ↦
        let none_left : rest ≡ [] =
          empty_of_length rest (omega (tests, length-append bytes rest)) in
        let at_end : bytes ++ rest ≡ bytes = ap (λ r. bytes ++ r) none_left ∙ append-nil bytes in
        let wrong : incomplete ≡ complete hello =
          sym partial ∙ ap (parse_client_hello decode) (sym at_end) ∙ whole in
        absurd (cc wrong)
  ]

  complete_now :
      (bytes rest : Bytes)
      → parse_client_hello decode bytes ≢ incomplete
      → parse_client_hello decode (bytes ++ rest) ≡ complete hello
      → parse_client_hello decode bytes ≡ complete hello
  complete_now bytes rest conclusive whole =
      sym (parse_client_hello-append decode bytes rest conclusive) ∙ whole

  incomplete-cases : (r : ClientHelloResult) → (r ≡ incomplete) ⊎ (r ≢ incomplete)
  incomplete-cases incomplete = inl refl
  incomplete-cases (invalid reason) = inr (λ e. cc)
  incomplete-cases (complete h) = inr (λ e. cc)
  incomplete-cases out_of_range = inr (λ e. cc)

  read_initial-from :
      (chunks gathered : List Bytes) (more : List ReadEvent)
      → parse_client_hello decode (concat_bytes gathered) ≡ incomplete
      → parse_client_hello decode (concat_bytes gathered ++ concat_bytes chunks) ≡ complete hello
      → length (concat_bytes gathered ++ concat_bytes chunks) ≤ hello_limit
      → (taken : List Bytes) × Reads
          (read_initial decode (map chunk chunks ++ more) gathered (length (concat_bytes gathered)))
          hello
          taken
  unfolding read_initial concat_bytes
  read_initial-from [] gathered more partial whole small =
      let wrong : incomplete ≡ complete hello =
        sym partial
        ∙ ap (parse_client_hello decode) (sym (append-nil (concat_bytes gathered)))
        ∙ whole in
      absurd (cc wrong)
  read_initial-from (c ∷ cs) gathered more partial whole small =
      rw (below_limit (concat_bytes gathered) (c ++ concat_bytes cs) partial whole small)
        (elim (incomplete-cases (parse_client_hello decode (concat_bytes next))) [
          | inl going ↦
              let (taken, out) = read_initial-from cs next more going whole_next small_next in
              (taken, rw going (rw (next_size gathered c) at out))
          | inr conclusive ↦ (
            next,
            rw (complete_now (concat_bytes next) (concat_bytes cs) conclusive whole_next) refl,
          )
        ])
    where
      next : List Bytes
      next = gathered ++ c ∷ []

      whole_next : parse_client_hello decode (concat_bytes next ++ concat_bytes cs) ≡ complete hello
      whole_next = ap (parse_client_hello decode) (next_bytes gathered cs c) ∙ whole

      small_next : length (concat_bytes next ++ concat_bytes cs) ≤ hello_limit
      small_next = rw (next_bytes gathered cs c) small

  route_tcp-from :
      (domain : Text) (chunks gathered : List Bytes) (later : List TimedRead)
      → parse_client_hello decode (concat_bytes gathered) ≡ incomplete
      → parse_client_hello decode (concat_bytes gathered ++ concat_bytes chunks) ≡ complete hello
      → length (concat_bytes gathered ++ concat_bytes chunks) ≤ hello_limit
      → (taken : List Bytes) × (route_tcp decode domain
            (map arrived chunks ++ later)
            gathered
            (length (concat_bytes gathered))
          ≡ pick_tunnel domain hello.server_name hello.alpn taken)
  unfolding route_tcp concat_bytes
  route_tcp-from domain [] gathered later partial whole small =
      let wrong : incomplete ≡ complete hello =
        sym partial
        ∙ ap (parse_client_hello decode) (sym (append-nil (concat_bytes gathered)))
        ∙ whole in
      absurd (cc wrong)
  route_tcp-from domain (c ∷ cs) gathered later partial whole small =
      rw (below_limit (concat_bytes gathered) (c ++ concat_bytes cs) partial whole small)
        (elim (incomplete-cases (parse_client_hello decode (concat_bytes next))) [
          | inl going ↦
              let (taken, out) = route_tcp-from domain cs next later going whole_next small_next in
              (taken, rw going (rw (next_size gathered c) at out))
          | inr conclusive ↦ (
            next,
            rw (complete_now (concat_bytes next) (concat_bytes cs) conclusive whole_next) refl,
          )
        ])
    where
      next : List Bytes
      next = gathered ++ c ∷ []

      whole_next : parse_client_hello decode (concat_bytes next ++ concat_bytes cs) ≡ complete hello
      whole_next = ap (parse_client_hello decode) (next_bytes gathered cs c) ∙ whole

      small_next : length (concat_bytes next ++ concat_bytes cs) ≤ hello_limit
      small_next = rw (next_bytes gathered cs c) small

  picked :
      (domain id name alpn : Text) (chunks : List Bytes)
      → tunnel_id_from_hostname name domain ≡ some id
      → pick_tunnel domain name alpn chunks ≡ routed id name alpn chunks
  unfolding pick_tunnel tunnel_id_from_hostname ends_with
  picked domain id [] alpn chunks e = ground arith
  picked domain id (c ∷ cs) alpn chunks e = rw (e, pick_tunnel) refl

  nothing_yet : parse_client_hello decode [] ≡ incomplete
  unfolding parse_client_hello scan_records
  nothing_yet = refl

  -- Let some chunks hold a whole ClientHello and at most 65536 bytes, let its name be that of a
  -- tunnel, and let the same bytes be replayed in chunks of any other sizes. Then the gateway,
  -- whatever it would read next, routes the connection to that tunnel with that name and
  -- protocol, and the object, whatever it would read next, takes the same name and protocol from
  -- the replayed chunks.
  pub readers_agree :
      (domain id : Text) (chunks replayed : List Bytes) (later : List TimedRead)
      (more : List ReadEvent)
      → parse_client_hello decode (concat_bytes chunks) ≡ complete hello
      → concat_bytes replayed ≡ concat_bytes chunks
      → length (concat_bytes chunks) ≤ hello_limit
      → tunnel_id_from_hostname hello.server_name domain ≡ some id
      → (taken : List Bytes) × (seen : List Bytes) × (route_tcp decode domain
            (map arrived chunks ++ later)
            []
            0
          ≡ routed id hello.server_name hello.alpn taken)
        × Reads (read_initial decode (map chunk replayed ++ more) [] 0) hello seen
  unfolding concat_bytes
  readers_agree domain id chunks replayed later more whole same_bytes small found =
      let (taken, gateway) = route_tcp-from domain chunks [] later nothing_yet whole small in
      let whole' : parse_client_hello decode (concat_bytes replayed) ≡ complete hello =
        rw same_bytes whole in
      let small' : length (concat_bytes replayed) ≤ hello_limit = rw same_bytes small in
      let (seen, object) = read_initial-from replayed [] more nothing_yet whole' small' in
      (taken, seen, gateway ∙ picked domain id hello.server_name hello.alpn taken found, object)
