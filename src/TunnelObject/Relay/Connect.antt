-- ===== src/TunnelObject/Relay/Connect.antt =====
-- Which public connections `connect` of packages/server/src/tunnel-object.ts relays, and to which
-- bridge.
use shuvtunnel.Common.{
  ℕ, ◌+◌, ◌≡◌, ◌⊎◌, refl, List, [], ◌∷◌, none, some, Bool, true, false, ◌&&◌, Text, arith, length,
  same, same_refl, same→eq, includes, any, has_unit, Bool-cases, Option-cases, inl, inr,
  ends_with-append, drop_end-append, ends_with→append,
}
use shuvtunnel.Names.{root_route}
use shuvtunnel.Names.Routing.{under, under-ne}
use shuvtunnel.Store.{StoredTunnel, ready_expiry}
use shuvtunnel.TunnelObject.{World, BridgeSocket, live, is_attached, routes_of, is_open}
use shuvtunnel.TunnelObject.Relay.{
  Initial, route_of_sni, is_bad_route, find_bridge, allocate, relayed, open_channel,
  route_connection,
}
use shuvtunnel.TunnelObject.Relay.Allocate.{IsFree, allocate-IsFree}

-- The name is the tunnel's hostname, or one part without a dot in front of it.
abbrev pub Called : Text → Text → Text → Type 0
Called name hostname route =
    ((name ≡ hostname) × (route ≡ root_route))
    ⊎ ((name ≡ under route hostname) × (is_bad_route route ≡ false))

route_of_sni→Called :
    (hostname name route : Text)
    → route_of_sni hostname (some name) ≡ some route
    → is_bad_route route ≡ false
    → Called name hostname route
unfolding route_of_sni
route_of_sni→Called hostname name route e good = elim (Bool-cases (same name hostname)) [
  | inl root ↦ inl (same→eq name hostname root, ground arith)
  | inr other ↦ inr (ground (arith, ends_with→append name (b'.' ∷ hostname)), good)
]

pub Called→route_of_sni :
    (hostname name route : Text)
    → Called name hostname route
    → (route_of_sni hostname (some name) ≡ some route) × (is_bad_route route ≡ false)
unfolding route_of_sni has_unit
Called→route_of_sni hostname name route (inl (e, root)) =
    rw (e, root, same_refl hostname) (refl, refl)
Called→route_of_sni hostname name route (inr (e, good)) = (
  rw
      (
        e,
        under-ne route hostname,
        ends_with-append route (b'.' ∷ hostname),
        drop_end-append route (b'.' ∷ hostname),
      )
      refl,
  good,
)

-- An attached socket that has the route.
abbrev pub carries : Text → BridgeSocket → Bool
carries route s = is_attached s && includes (routes_of s) route

find_bridge-carries :
    (route : Text) (ss : List BridgeSocket) (s : BridgeSocket)
    → find_bridge route ss ≡ some s
    → carries route s ≡ true
unfolding find_bridge
find_bridge-carries route [] s e = cc
find_bridge-carries route (t ∷ ts) s e = ground (arith, find_bridge-carries route ts s)

find_bridge-none :
    (route : Text) (ss : List BridgeSocket)
    → find_bridge route ss ≡ none
    → any (carries route) ss ≡ false
unfolding find_bridge
find_bridge-none route [] e = refl
find_bridge-none route (t ∷ ts) e = ground (arith, find_bridge-none route ts)

-- What a relayed connection had: a live tunnel with a ready certificate, a name under its hostname,
-- an attached bridge that has the route of that name, and a free connection number.
pub record Admitted (w : World) (initial : Initial) (conn id : ℕ) : Type 0 where
  pub tunnel : StoredTunnel
  pub expiry : ℕ
  pub name : Text
  pub route : Text
  pub bridge : BridgeSocket
  pub is_live : live w.stored ≡ some tunnel
  pub is_served : ready_expiry tunnel.certificate ≡ some expiry
  pub is_named : initial.sni ≡ some name
  pub is_called : Called name tunnel.hostname route
  pub is_found : find_bridge route w.sockets ≡ some bridge
  pub is_carried : carries route bridge ≡ true
  pub is_ready : is_open bridge.ready_state ≡ true
  pub is_same : bridge.id ≡ id
  pub is_free : IsFree conn w.channels

open_channel-relayed :
    (peer sni : Text) (initial : Initial) (bridge : BridgeSocket) (w : World) (conn id : ℕ)
    → (open_channel peer sni initial bridge w).1 ≡ relayed conn id
    → (is_open bridge.ready_state ≡ true) × (bridge.id ≡ id) × IsFree conn w.channels
unfolding open_channel
open_channel-relayed peer sni initial bridge w conn id e =
    elim (Option-cases (allocate (length w.channels + 2) w.sequence w.channels)) [
      | inl n ↦ absurd (ground arith)
      | inr ((c, next), k) ↦
          let free = allocate-IsFree (length w.channels + 2) w.sequence c next w.channels k in
          ground (arith, free)
    ]

-- If a connection is relayed, then the tunnel was live with a ready certificate, the SNI was its
-- hostname or one part without a dot under it, the bridge was the first attached one that has
-- that route and was open, and the number was nonzero, below 2^32 and without a channel.
pub relayed→Admitted :
    (peer : Text) (initial : Initial) (w : World) (conn id : ℕ)
    → (route_connection peer initial w).1 ≡ relayed conn id
    → Admitted w initial conn id
unfolding route_connection
relayed→Admitted peer initial w conn id e = of_record (Option-cases (live w.stored))
  where
    of_bridge :
        (r : StoredTunnel) (expiry : ℕ) (sni route : Text)
        → live w.stored ≡ some r
        → ready_expiry r.certificate ≡ some expiry
        → initial.sni ≡ some sni
        → route_of_sni r.hostname (some sni) ≡ some route
        → is_bad_route route ≡ false
        → Admitted w initial conn id
    of_bridge r expiry sni route a b c d good = elim (Option-cases (find_bridge route w.sockets)) [
      | inl n ↦ absurd (ground arith)
      | inr (bridge, f) ↦
          let out : (open_channel peer sni initial bridge w).1 ≡ relayed conn id = ground arith in
          let (ready, same_id, free) = open_channel-relayed peer sni initial bridge w conn id out in
          record {
            tunnel = r;
            expiry = expiry;
            name = sni;
            route = route;
            bridge = bridge;
            is_live = a;
            is_served = b;
            is_named = c;
            is_called = route_of_sni→Called r.hostname sni route d good;
            is_found = f;
            is_carried = find_bridge-carries route w.sockets bridge f;
            is_ready = ready;
            is_same = same_id;
            is_free = free;
          }
    ]

    of_route :
        (r : StoredTunnel) (expiry : ℕ) (sni : Text)
        → live w.stored ≡ some r
        → ready_expiry r.certificate ≡ some expiry
        → initial.sni ≡ some sni
        → Admitted w initial conn id
    of_route r expiry sni a b c = elim (Option-cases (route_of_sni r.hostname (some sni))) [
      | inl n ↦ absurd (ground arith)
      | inr (route, d) ↦ elim (Bool-cases (is_bad_route route)) [
        | inl bad ↦ absurd (ground arith)
        | inr good ↦ of_bridge r expiry sni route a b c d good
      ]
    ]

    of_record :
        (live w.stored ≡ none) ⊎ ((r : StoredTunnel) × (live w.stored ≡ some r))
        → Admitted w initial conn id
    of_record (inl n) = absurd (ground arith)
    of_record (inr (r, a)) = elim (Option-cases (ready_expiry r.certificate)) [
      | inl n ↦ absurd (ground arith)
      | inr (expiry, b) ↦ elim (Option-cases initial.sni) [
        | inl n ↦ absurd (ground arith)
        | inr (sni, c) ↦ of_route r expiry sni a b c
      ]
    ]
