-- ===== src/Client/Session/Ending.antt =====
-- The end of a session, packages/client/src/effect/tunnel.ts: it happens once and closes every channel.
use shuvtunnel.Common.{
  if◌then◌else◌, ℕ, ◌+◌, ◌≡◌, [], ◌++◌, none, some, true, false, All, map, codes, length,
}
use shuvtunnel.Protocol.{ClientControlMessage}
use shuvtunnel.Client.{SessionEnd}
use shuvtunnel.Client.Session.{Session, is_open, socket_closing, run_waiters, control}
use shuvtunnel.Client.Session.Invariant.{reported}
use shuvtunnel.Client.Session.Closings.{closings}

-- The session in `end`, before its channels are destroyed.
woken : SessionEnd → Session → Session
woken e s =
    run_waiters
      (record s { ended = some e; attach_timer = false; heartbeat = none; drain_timer = false })

-- What holds once a session has ended.
abbrev pub Over : SessionEnd → Session → Session → Type 0
Over e s u =
    (u.ended ≡ some e)
    × (u.channels ≡ [])
    × (u.waiters ≡ [])
    × (reported 0 u.hooks ≡ 0)
    × (closings u.hooks ≡ closings s.hooks + length s.channels)
    × (u.called ≡ s.called ++ map (λ w. (w, false)) s.waiters)
    × All (λ (entry : ℕ × ℕ). (u.objects entry.1).is_done ≡ true) s.channels
    × (u.sent
        ≡ s.sent
          ++ (if is_open s.socket
              then map
                  (λ (entry : ℕ × ℕ).
                    control (ClientControlMessage.reset entry.0 (codes "bridge disconnected")))
                  s.channels
              else []))
    × (u.socket ≡ socket_closing)
    × (u.attach_timer ≡ false)
    × (u.drain_timer ≡ false)
    × (u.heartbeat ≡ none)
