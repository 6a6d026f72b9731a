-- ===== src/Frame/RoundTrip.antt =====
-- Parsing and building of one data frame are inverse to each other.
use shuvtunnel.Common.{ℕ, ◌^◌, ◌<◌, ◌≡◌, [], ◌∷◌, none, some, ◌↔◌, arith, length, All}
use shuvtunnel.Frame.{Bytes, IsByte, DataFrame, parse_data_frame, build_data_frame}

-- For a connection below 2^32, parsing a built frame gives the connection and the payload.
pub parse-build :
    (conn : ℕ) (payload : Bytes)
    → conn < 2 ^ 32
    → parse_data_frame (build_data_frame conn payload)
      ≡ some (record { conn = conn; payload = payload })
unfolding parse_data_frame build_data_frame
parse-build conn payload h = ground arith

-- If a list of bytes parses as a frame, then building the frame gives the same bytes, and its
-- connection is below 2^32.
pub build-parse :
    (bytes : Bytes) (f : DataFrame)
    → All IsByte bytes
    → parse_data_frame bytes ≡ some f
    → (build_data_frame f.conn f.payload ≡ bytes) × (f.conn < 2 ^ 32)
unfolding parse_data_frame build_data_frame
build-parse [] f h e = cc
build-parse (a ∷ []) f h e = cc
build-parse (a ∷ b ∷ []) f h e = cc
build-parse (a ∷ b ∷ c ∷ []) f h e = cc
build-parse (a ∷ b ∷ c ∷ d ∷ rest) f h e = ground arith

pub parse-none_iff : (bytes : Bytes) → (parse_data_frame bytes ≡ none) ↔ (length bytes < 4)
unfolding parse_data_frame
parse-none_iff bytes = ground arith
