-- ===== src/Client/Session/Closings.antt =====
-- The closed connections among the calls of the hooks, packages/client/src/effect/tunnel.ts.
use shuvtunnel.Common.{ℕ, suc, ◌+◌, ◌≡◌, refl, List, [], ◌∷◌, ◌++◌, Option, Text, arith}
use shuvtunnel.Client.{
  connecting, connected, disconnected, reconnecting, connection_opened, connection_closed,
  certificate_renewed, stopped,
}
use shuvtunnel.Client.Session.{Hook, on_attach, on_count, on_event}

-- How many closed connections were reported.
abbrev pub closings : List Hook → ℕ
closings [] = 0
closings (on_attach s ∷ hs) = closings hs
closings (on_count n ∷ hs) = closings hs
closings (on_event (connection_closed c r e) ∷ hs) = suc (closings hs)
closings (on_event (connection_opened c r p) ∷ hs) = closings hs
closings (on_event (connecting n) ∷ hs) = closings hs
closings (on_event (connected s r) ∷ hs) = closings hs
closings (on_event (disconnected r) ∷ hs) = closings hs
closings (on_event (reconnecting n d) ∷ hs) = closings hs
closings (on_event (certificate_renewed x) ∷ hs) = closings hs
closings (on_event (stopped e) ∷ hs) = closings hs

pub closings-closed :
    (hs : List Hook) (n c : ℕ) (r : Text) (e : Option Text)
    → closings (hs ++ on_count n ∷ on_event (connection_closed c r e) ∷ []) ≡ closings hs + 1
closings-closed [] n c r e = refl
closings-closed (on_attach s ∷ hs) n c r e = closings-closed hs n c r e
closings-closed (on_count m ∷ hs) n c r e = closings-closed hs n c r e
closings-closed (on_event (connection_closed a b d) ∷ hs) n c r e =
    omega (arith, closings-closed hs n c r e)
closings-closed (on_event (connection_opened a b p) ∷ hs) n c r e = closings-closed hs n c r e
closings-closed (on_event (connecting m) ∷ hs) n c r e = closings-closed hs n c r e
closings-closed (on_event (connected s b) ∷ hs) n c r e = closings-closed hs n c r e
closings-closed (on_event (disconnected b) ∷ hs) n c r e = closings-closed hs n c r e
closings-closed (on_event (reconnecting m d) ∷ hs) n c r e = closings-closed hs n c r e
closings-closed (on_event (certificate_renewed x) ∷ hs) n c r e = closings-closed hs n c r e
closings-closed (on_event (stopped x) ∷ hs) n c r e = closings-closed hs n c r e
