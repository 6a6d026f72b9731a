-- ===== src/Frame/Chunks.antt =====
-- What the receiver of the frames of one `sendData` call sees.
use shuvtunnel.Common.{
  ℕ, zero, suc, ◌+◌, ◌^◌, ◌≤◌, ◌<◌, ◌≡◌, List, [], ◌∷◌, ◌++◌, Option, none, some, arith, ltb,
  if◌then◌else◌, length, take, drop, All, Bool-cases, inl, inr, drop_past, take-drop-append,
  length-take, length-drop, sym, ==_refl, ◌==◌, tests,
}
use shuvtunnel.Frame.{
  Bytes, DataFrame, max_payload_size, parse_data_frame, build_data_frame, chunk_loop, send_data,
}
use shuvtunnel.Frame.RoundTrip.{parse-build}

-- The bytes that one incoming frame adds to connection `conn`.
abbrev delivered : ℕ → Option DataFrame → Bytes
delivered conn none = []
delivered conn (some f) = if f.conn == conn then f.payload else []

-- The stream of `conn` after a list of frames, in order.
abbrev pub received : ℕ → List Bytes → Bytes
received conn [] = []
received conn (f ∷ fs) = delivered conn (parse_data_frame f) ++ received conn fs

delivered-build :
    (conn : ℕ) (p : Bytes)
    → conn < 2 ^ 32
    → delivered conn (parse_data_frame (build_data_frame conn p)) ≡ p
delivered-build conn p h = rw (parse-build conn p h) (rw (==_refl conn))

-- A frame of `sendData`: a header and 1 to 32768 bytes.
abbrev pub HasLegalSize : Bytes → Type 0
HasLegalSize f = (5 ≤ length f) × (length f ≤ 4 + max_payload_size)

chunk_loop-received :
    (fuel conn : ℕ) (bytes : Bytes) (offset : ℕ)
    → conn < 2 ^ 32
    → length bytes ≤ fuel + offset
    → received conn (chunk_loop fuel conn bytes offset) ≡ drop offset bytes
unfolding chunk_loop
chunk_loop-received zero conn bytes offset h enough = sym (drop_past offset bytes (omega arith))
chunk_loop-received (suc fuel) conn bytes offset h enough =
    elim (Bool-cases (ltb offset (length bytes))) [
      | inl more ↦
          rw
            (
              more,
              delivered-build conn (take max_payload_size (drop offset bytes)) h,
              chunk_loop-received fuel conn bytes (offset + max_payload_size) h (omega tests),
            )
            (take-drop-append offset max_payload_size bytes)
      | inr over ↦ rw over (sym (drop_past offset bytes (omega tests)))
    ]

build-HasLegalSize :
    (conn : ℕ) (p : Bytes)
    → 1 ≤ length p
    → length p ≤ max_payload_size
    → HasLegalSize (build_data_frame conn p)
unfolding build_data_frame
build-HasLegalSize conn p h k = omega arith

chunk_loop-HasLegalSize :
    (fuel conn : ℕ) (bytes : Bytes) (offset : ℕ)
    → All HasLegalSize (chunk_loop fuel conn bytes offset)
unfolding chunk_loop
chunk_loop-HasLegalSize zero conn bytes offset = tt
chunk_loop-HasLegalSize (suc fuel) conn bytes offset =
    elim (Bool-cases (ltb offset (length bytes))) [
      | inl more ↦ rw more (
        build-HasLegalSize conn (take max_payload_size (drop offset bytes))
            (omega
              (tests, length-take max_payload_size (drop offset bytes), length-drop offset bytes))
            (omega
              (tests, length-take max_payload_size (drop offset bytes), length-drop offset bytes)),
        chunk_loop-HasLegalSize fuel conn bytes (offset + max_payload_size),
      )
      | inr over ↦ rw over tt
    ]

-- For a connection below 2^32, the payloads of the frames that `sendData` sends, each parsed and
-- found to name that connection, make up the data in order, and each frame carries from 1 to
-- 32768 bytes.
pub received-send_data :
    (conn : ℕ) (bytes : Bytes)
    → conn < 2 ^ 32
    → (received conn (send_data conn bytes) ≡ bytes) × All HasLegalSize (send_data conn bytes)
unfolding send_data
received-send_data conn bytes h = (
  chunk_loop-received (length bytes) conn bytes 0 h (omega arith),
  chunk_loop-HasLegalSize (length bytes) conn bytes 0,
)
