-- ===== src/Client/Tests.antt =====
-- Concrete instances of the theorems of the client, and tests.
use shuvtunnel.Common.{
  ◌≡◌, ◌↔◌, ◌≤◌, ◌/◌, inl, refl, [], ◌∷◌, ◌++◌, true, Text, codes, same, split_last, ends_with,
  drop_end, arith,
}
use shuvtunnel.Client.{
  Routes, Identity, routes_changed, retry, backoff, backoff_base, validate_routes, same_names,
}
use shuvtunnel.Names.{is_valid_route, is_label, parse_target}
use shuvtunnel.Client.Order.{count}
use shuvtunnel.Client.Routes.{same_names_iff}
use shuvtunnel.Client.Backoff.{backoff_bounds}
use shuvtunnel.Client.Running.{Tunnel, enter}
use shuvtunnel.Client.Running.Certificates.{no_certificate}
use shuvtunnel.Client.Running.Events.{
  fresh, construct, attaches, opens, ends, resumes, wakes, sets, closes, checks, step, run,
}
use shuvtunnel.Client.Running.Facts.{Consistent}
use shuvtunnel.Client.Running.Invariant.{step-Consistent, construct-run-Consistent}
use shuvtunnel.Client.Running.Closing.{Stopped, close_stops}
use shuvtunnel.Client.Running.Diagram.{Follows, step-Follows}

abbrev web_only : Routes
web_only = (codes "web", codes "localhost:3000") ∷ []

abbrev alice : Identity
alice = record {
  id = codes "t1";
  hostname = codes "abc.example.com";
  token = codes "secret";
  private_key = codes "key";
  certificate = codes "cert";
  chain = codes "chain";
  certificate_expiry = 1000;
}

abbrev alice_tunnel : Tunnel
alice_tunnel = enter (fresh alice web_only)

alice_starts : construct alice web_only ≡ inl alice_tunnel
unfolding construct validate_routes is_valid_route is_label same parse_target split_last ends_with
    drop_end
alice_starts = refl

construct-run-Consistent_example :
    Consistent
      (run alice_tunnel (attaches (codes "s1") (codes "web" ∷ []) 5 ∷ sets [] ∷ resumes 0 ∷ []))
construct-run-Consistent_example =
    construct-run-Consistent alice web_only
      (attaches (codes "s1") (codes "web" ∷ []) 5 ∷ sets [] ∷ resumes 0 ∷ []) alice_tunnel
      alice_starts

-- A tunnel with one open connection.
busy : Tunnel
busy =
    run alice_tunnel
      (attaches (codes "s1") (codes "web" ∷ []) 5 ∷ opens 1 7 (codes "web") (codes "peer") ∷ [])

busy-Consistent : Consistent busy
unfolding busy
busy-Consistent =
    construct-run-Consistent alice web_only
      (attaches (codes "s1") (codes "web" ∷ []) 5 ∷ opens 1 7 (codes "web") (codes "peer") ∷ [])
      alice_tunnel alice_starts

-- The session is lost just before the call of `close`, and a certificate check ends between.
close_stops_example : Stopped (
    run
      (step busy (ends (retry (codes "bridge idle timeout") true)))
      (closes ∷ (sets web_only ∷ []) ++ resumes 9 ∷ ((checks no_certificate 3 ∷ []) ++ wakes ∷ [])))
close_stops_example =
    close_stops (step busy (ends (retry (codes "bridge idle timeout") true))) 9 (sets web_only ∷ [])
      (checks no_certificate 3 ∷ []) []
      (step-Consistent busy (ends (retry (codes "bridge idle timeout") true)) busy-Consistent)

step-Follows_example : Follows busy.status.state (step busy (ends routes_changed)).status.state
step-Follows_example = step-Follows busy (ends routes_changed) busy-Consistent

backoff_bounds_example :
    (backoff_base 3 ≡ 2000)
    × (backoff_base 3 / 2 ≤ backoff 12345 3)
    × (backoff 12345 3 ≤ backoff_base 3)
    × (125 ≤ backoff 12345 3)
    × (backoff 12345 3 ≤ 30000)
backoff_bounds_example = backoff_bounds 12345 3 (omega arith)

-- The same names in another order, with other targets.
same_names_iff_example :
    (same_names
        ((codes "a", codes "h:1") ∷ (codes "b", codes "h:2") ∷ [])
        ((codes "b", codes "h:3") ∷ (codes "a", codes "h:4") ∷ [])
      ≡ true)
    ↔ ((t : Text) → count t (codes "a" ∷ codes "b" ∷ []) ≡ count t (codes "b" ∷ codes "a" ∷ []))
same_names_iff_example =
    same_names_iff ((codes "a", codes "h:1") ∷ (codes "b", codes "h:2") ∷ [])
      ((codes "b", codes "h:3") ∷ (codes "a", codes "h:4") ∷ [])
