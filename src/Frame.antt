-- ===== src/Frame.antt =====
-- Binary data frames of the bridge: packages/protocol/src/bridge-protocol.ts (`parseDataFrame`,
-- `buildDataFrame`) and the chunk loop of `Session.sendData` in packages/client/src/effect/tunnel.ts.
-- A Uint8Array is a list of numbers below 256.
pub mod RoundTrip
pub mod Chunks
mod Tests
use shuvtunnel.Common.{
  ℕ, zero, suc, ◌+◌, ◌-◌, ◌*◌, ◌/◌, ◌%◌, ◌^◌, ◌≤◌, ◌<◌, ◌≡◌, List, [], ◌∷◌, ◌++◌, Option, none,
  some, arith, ltb, if◌then◌else◌, length, get_or, take, drop, All,
}

abbrev pub Bytes : Type 0
Bytes = List ℕ

abbrev pub IsByte : ℕ → Type 0
IsByte b = b < 256

-- `DataFrame.CONN_ID_SIZE` and `DataFrame.MAX_PAYLOAD_SIZE`
abbrev pub conn_id_size : ℕ
conn_id_size = 4

abbrev pub max_payload_size : ℕ
max_payload_size = 32768

pub record DataFrame : Type 0 where
  pub conn : ℕ
  pub payload : Bytes

-- `view.getUint32(0, false)`
get_uint32 : Bytes → ℕ
get_uint32 b = get_or b 0 0 * 16777216 + get_or b 1 0 * 65536 + get_or b 2 0 * 256 + get_or b 3 0

-- `view.setUint32(0, conn, false)` stores `conn` modulo 2 ^ 32.
uint32_bytes : ℕ → Bytes
uint32_bytes n = n / 16777216 % 256 ∷ n / 65536 % 256 ∷ n / 256 % 256 ∷ n % 256 ∷ []

unfoldable pub parse_data_frame : Bytes → Option DataFrame
unfolding get_uint32
parse_data_frame bytes =
    if ltb (length bytes) conn_id_size
    then none
    else some (record { conn = get_uint32 bytes; payload = drop conn_id_size bytes })

unfoldable pub build_data_frame : ℕ → Bytes → Bytes
unfolding uint32_bytes
build_data_frame conn payload = uint32_bytes conn ++ payload

-- The loop of `sendData`: `offset` grows by the maximal payload until it reaches the end.
chunk_loop : ℕ → ℕ → Bytes → ℕ → List Bytes
chunk_loop zero conn bytes offset = []
chunk_loop (suc fuel) conn bytes offset =
    let rest = chunk_loop fuel conn bytes (offset + max_payload_size) in
    if ltb offset (length bytes)
    then build_data_frame conn (take max_payload_size (drop offset bytes)) ∷ rest
    else []

-- Each round passes a byte at least, so the length is fuel enough (`Chunks`).
unfoldable pub send_data : ℕ → Bytes → List Bytes
unfolding chunk_loop
send_data conn bytes = chunk_loop (length bytes) conn bytes 0
