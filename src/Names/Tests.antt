-- ===== src/Names/Tests.antt =====
-- Runs of the functions on names, and the theorems at concrete inputs.
use shuvtunnel.Common.{
  ◌≡◌, ◌↔◌, refl, ◌∷◌, ◌++◌, none, some, true, false, Text, codes, lower, same, ends_with, drop_end,
  split_last,
}
use shuvtunnel.Names.{is_label, is_valid_route, route_for_sni, Target, parse_target}
use shuvtunnel.Names.Label.{Matches, label_regex, is_label_iff}
use shuvtunnel.Names.Routing.{Serves, route_for_sni_iff}
use shuvtunnel.Names.Targets.{Spells, SpellsPort, parse_target_iff}

label_tests :
    (is_label (codes "api-1") ≡ true)
    × (is_label (codes "-api") ≡ false)
    × (is_label (codes "api-") ≡ false)
    × (is_label (codes "a.b") ≡ false)
    × (is_valid_route (codes "@") ≡ true)
unfolding is_label is_valid_route same
label_tests = (refl, refl, refl, refl, refl)

route_tests :
    (route_for_sni (codes "API.t1.Shuv.zip") (codes "t1.shuv.zip") ≡ some (codes "api"))
    × (route_for_sni (codes "t1.shuv.zip") (codes "T1.shuv.zip") ≡ some (codes "@"))
    × (route_for_sni (codes "a.b.t1.shuv.zip") (codes "t1.shuv.zip") ≡ none)
    × (route_for_sni (codes "xt1.shuv.zip") (codes "t1.shuv.zip") ≡ none)
unfolding route_for_sni same ends_with drop_end lower
route_tests = (refl, refl, refl, refl)

abbrev local_target : Target
local_target = record { host = codes "127.0.0.1"; port = 3000 }

target_tests :
    (parse_target (codes "127.0.0.1:3000") ≡ some local_target)
    × (parse_target (codes "[::1]:80") ≡ some (record { host = codes "::1"; port = 80 }))
    × (parse_target (codes "host:0") ≡ none)
    × (parse_target (codes "host:65536") ≡ none)
    × (parse_target (codes "host") ≡ none)
    × (parse_target (codes ":80") ≡ none)
unfolding parse_target split_last ends_with same drop_end
target_tests = (refl, refl, refl, refl, refl, refl)

is_label_iff_example : (is_label (codes "api-1") ≡ true) ↔ Matches label_regex (codes "api-1")
is_label_iff_example = is_label_iff (codes "api-1")

route_for_sni_iff_example :
    (route_for_sni (codes "api.t1.shuv.zip") (codes "t1.shuv.zip") ≡ some (codes "api"))
    ↔ Serves (lower (codes "api.t1.shuv.zip")) (lower (codes "t1.shuv.zip")) (codes "api")
route_for_sni_iff_example =
    route_for_sni_iff (codes "api.t1.shuv.zip") (codes "t1.shuv.zip") (codes "api")

parse_target_iff_example : (parse_target (codes "127.0.0.1:3000") ≡ some local_target) ↔ (
    (before : Text) × (port : Text) × (codes "127.0.0.1:3000" ≡ before ++ b':' ∷ port)
    × Spells before (codes "127.0.0.1")
    × SpellsPort port 3000)
parse_target_iff_example = parse_target_iff (codes "127.0.0.1:3000") local_target
