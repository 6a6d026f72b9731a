-- ===== src/Hello/Records.antt =====
-- The loop of `parseClientHello` over TLS records, in packages/server/src/tls-client-hello.ts.
pub mod Progress
use shuvtunnel.Common.{
  ℕ, zero, suc, ◌+◌, ◌*◌, List, [], ◌∷◌, ◌++◌, Option, none, some, Bool, true, false, leb, ltb,
  ◌==◌, if◌then◌else◌, length, get_or, take, drop,
}
use shuvtunnel.Frame.{Bytes}
use shuvtunnel.Hello.Reader.{Reason, expected_handshake_record, expected_client_hello}

-- What the records hold: not enough yet, a wrong start, or the whole ClientHello. `stuck` is no
-- result of the source: the loop of the model ran out of fuel.
pub data Scan : Type 0 where
  partial : Scan
  malformed : Reason → Scan
  hello : Bytes → Scan
  stuck : Scan

pub data Header : Type 0 where
  short not_hello : Header
  declared : ℕ → Header

abbrev uint24 : ℕ → ℕ → ℕ → ℕ
uint24 a b c = a * 65536 + b * 256 + c

-- `handshakeLength ??= …`
abbrev or_length : Option ℕ → ℕ → ℕ
or_length none n = n
or_length (some m) n = m

-- The checks on the handshake bytes gathered so far.
pub header : Bytes → Option ℕ → Header
header (t ∷ a ∷ b ∷ c ∷ rest) known =
    if t == 1 then declared (or_length known (uint24 a b c)) else not_hello
header _ known = short

-- After the loop: `handshake.slice(4, handshakeLength + 4)`, if it is all there.
pub finish : Bytes → Option ℕ → Scan
finish handshake none = partial
finish handshake (some n) =
    if ltb (length handshake) (n + 4) then partial else hello (take n (drop 4 handshake))

-- One record at the front of the data: cut off, of another content type, or its fragment with the
-- data behind it.
pub data Record : Type 0 where
  cut_off wrong_type : Record
  fragment : Bytes → Bytes → Record

pub take_record : Bytes → Record
take_record (t ∷ _ ∷ _ ∷ high ∷ low ∷ body) =
    if t == 0x16
    then (if ltb (length body) (high * 256 + low)
        then cut_off
        else fragment (take (high * 256 + low) body) (drop (high * 256 + low) body))
    else wrong_type
take_record _ = cut_off

-- What the handshake bytes gathered so far decide: the end of the loop, or the known length.
pub data Absorbed : Type 0 where
  stop : Scan → Absorbed
  go_on : Option ℕ → Absorbed

pub absorb : Bytes → Option ℕ → Absorbed
unfolding header finish
absorb gathered known = elim (header gathered known) [
  | short ↦ go_on known
  | not_hello ↦ stop (malformed expected_client_hello)
  | declared n ↦ elim (leb (n + 4) (length gathered)) [
    | true ↦ stop (finish gathered (some n))
    | false ↦ go_on (some n)
  ]
]

-- `while (recordOffset < data.length)`
pub records : ℕ → Bytes → Bytes → Option ℕ → Scan
records fuel [] handshake known = finish handshake known
records zero (t ∷ rest) handshake known = stuck
records (suc fuel) (t ∷ rest) handshake known = elim (take_record (t ∷ rest)) [
  | cut_off ↦ partial
  | wrong_type ↦ malformed expected_handshake_record
  | fragment bytes next ↦ elim (absorb (handshake ++ bytes) known) [
    | stop result ↦ result
    | go_on known' ↦ records fuel next (handshake ++ bytes) known'
  ]
]

-- Each round passes the five bytes of a record's header, so the length is fuel enough (`Progress`).
unfoldable pub scan_records : Bytes → Scan
unfolding records finish take_record absorb
scan_records bytes = records (length bytes) bytes [] none
