-- ===== src/Frame/Tests.antt =====
-- Runs of the functions on data frames, and their theorems at concrete inputs.
use shuvtunnel.Common.{◌^◌, ◌≡◌, refl, [], ◌∷◌, none, some, arith, All, ◌<◌}
use shuvtunnel.Frame.{Bytes, DataFrame, parse_data_frame, build_data_frame, send_data}
use shuvtunnel.Frame.RoundTrip.{parse-build, build-parse}
use shuvtunnel.Frame.Chunks.{received, HasLegalSize, received-send_data}

abbrev sample : Bytes
sample = 0 ∷ 1 ∷ 2 ∷ 3 ∷ 104 ∷ 105 ∷ []

abbrev sample_frame : DataFrame
sample_frame = record { conn = 66051; payload = 104 ∷ 105 ∷ [] }

frame_tests :
    (parse_data_frame sample ≡ some sample_frame)
    × (build_data_frame 66051 (104 ∷ 105 ∷ []) ≡ sample)
    × (parse_data_frame (1 ∷ 2 ∷ 3 ∷ []) ≡ none)
    × (send_data 7 (1 ∷ 2 ∷ []) ≡ (0 ∷ 0 ∷ 0 ∷ 7 ∷ 1 ∷ 2 ∷ []) ∷ [])
unfolding parse_data_frame build_data_frame send_data
frame_tests = (refl, refl, refl, refl)

parse-build_example :
    parse_data_frame (build_data_frame 4294967295 (9 ∷ []))
    ≡ some (record { conn = 4294967295; payload = 9 ∷ [] })
parse-build_example = parse-build 4294967295 (9 ∷ []) (omega arith)

build-parse_example : (build_data_frame 66051 (104 ∷ 105 ∷ []) ≡ sample) × (66051 < 2 ^ 32)
build-parse_example = build-parse sample sample_frame (omega arith) frame_tests.0

received-send_data_example :
    (received 7 (send_data 7 sample) ≡ sample) × All HasLegalSize (send_data 7 sample)
received-send_data_example = received-send_data 7 sample (omega arith)
