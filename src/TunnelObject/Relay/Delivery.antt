-- ===== src/TunnelObject/Relay/Delivery.antt =====
-- What a public connection does to the object, in `connect` of
-- packages/server/src/tunnel-object.ts, when a bridge has the route of its name.
use shuvtunnel.Common.{
  ℕ, ◌+◌, ◌^◌, ◌≤◌, ◌≡◌, refl, ap, ◌∙◌, List, [], ◌∷◌, ◌++◌, some, true, false, Text, arith, length,
  any, map, ◌==◌,
}
use shuvtunnel.Frame.{build_data_frame}
use shuvtunnel.Protocol.{opened}
use shuvtunnel.Store.{StoredTunnel, ready_expiry}
use shuvtunnel.TunnelObject.{World, BridgeSocket, live, change_socket, is_open, control, frame}
use shuvtunnel.TunnelObject.Sockets.{change_socket-one}
use shuvtunnel.TunnelObject.Relay.{
  Initial, find_bridge, relayed, failed, opening, send_all_on, open_channel, route_connection,
}
use shuvtunnel.TunnelObject.Relay.Allocate.{IsFree, allocate-total}
use shuvtunnel.TunnelObject.Relay.Connect.{Called, carries, Called→route_of_sni}

find_bridge-first :
    (route : Text) (before after : List BridgeSocket) (bridge : BridgeSocket)
    → any (carries route) before ≡ false
    → carries route bridge ≡ true
    → find_bridge route (before ++ bridge ∷ after) ≡ some bridge
unfolding find_bridge
find_bridge-first route [] after bridge none_before carried = ground arith
find_bridge-first route (s ∷ before) after bridge none_before carried =
    ground (arith, find_bridge-first route before after bridge)

open_channel-opens :
    (peer sni : Text) (initial : Initial) (bridge : BridgeSocket) (w : World)
    → length w.channels + 2 ≤ 2 ^ 32
    → is_open bridge.ready_state ≡ true
    → (conn : ℕ) × (next : ℕ) × IsFree conn w.channels
      × (open_channel peer sni initial bridge w ≡ (
        record w {
          sequence = next;
          channels = w.channels ++ (conn, record { bridge = bridge.id; written = [] }) ∷ [];
          sockets =
              change_socket bridge.id
                (send_all_on (opening conn peer sni initial.alpn initial.chunks))
                w.sockets;
        },
        relayed conn bridge.id,
      ))
unfolding open_channel
open_channel-opens peer sni initial bridge w small ready =
    let (conn, next, e, free) = allocate-total w.sequence w.channels small in
    (conn, next, free, rw (e, open_channel, ready) refl)

open_channel-throws :
    (peer sni : Text) (initial : Initial) (bridge : BridgeSocket) (w : World)
    → length w.channels + 2 ≤ 2 ^ 32
    → is_open bridge.ready_state ≡ false
    → (conn : ℕ) × (next : ℕ) × IsFree conn w.channels
      × (open_channel peer sni initial bridge w ≡ (
        record w {
          sequence = next;
          channels = w.channels ++ (conn, record { bridge = bridge.id; written = [] }) ∷ [];
        },
        failed conn bridge.id,
      ))
unfolding open_channel
open_channel-throws peer sni initial bridge w small closing =
    let (conn, next, e, free) = allocate-total w.sequence w.channels small in
    (conn, next, free, rw (e, open_channel, closing) refl)

-- The first bridge with the route is the one that gets the connection.
route_connection-reaches :
    (peer name route : Text) (expiry : ℕ) (initial : Initial) (r : StoredTunnel) (w : World)
    (before after : List BridgeSocket) (bridge : BridgeSocket)
    → live w.stored ≡ some r
    → ready_expiry r.certificate ≡ some expiry
    → initial.sni ≡ some name
    → Called name r.hostname route
    → w.sockets ≡ before ++ bridge ∷ after
    → any (carries route) before ≡ false
    → carries route bridge ≡ true
    → route_connection peer initial w ≡ open_channel peer name initial bridge w
unfolding route_connection open_channel
route_connection-reaches peer name route expiry initial r w before after bridge alive served named
      called there first carried =
    let (d, good) = Called→route_of_sni r.hostname name route called in
    let found : find_bridge route w.sockets ≡ some bridge =
      rw there (find_bridge-first route before after bridge first carried) in
    rw (alive, route_connection, served, named, d, good, found) refl

-- Let the tunnel be live with a ready certificate, let the SNI be its hostname or one part
-- without a dot under it, let the sockets be some without an attached route of that name, then an
-- open attached bridge that has the route, then others, with no second socket of that bridge's
-- identity, and let the channels be fewer than 2^32 - 1. Then the connection is relayed to that
-- bridge under some number that is nonzero, below 2^32 and without a channel. The state after
-- differs only in this: the sequence goes on, that number has a new empty channel at the end of
-- the map, and the bridge has been sent the `open` message and then one frame for each chunk read
-- so far, in order.
pub route_connection-relays :
    (peer name route : Text) (expiry : ℕ) (initial : Initial) (r : StoredTunnel) (w : World)
    (before after : List BridgeSocket) (bridge : BridgeSocket)
    → length w.channels + 2 ≤ 2 ^ 32
    → live w.stored ≡ some r
    → ready_expiry r.certificate ≡ some expiry
    → initial.sni ≡ some name
    → Called name r.hostname route
    → w.sockets ≡ before ++ bridge ∷ after
    → any (carries route) before ≡ false
    → carries route bridge ≡ true
    → is_open bridge.ready_state ≡ true
    → any (λ s. s.id == bridge.id) before ≡ false
    → any (λ s. s.id == bridge.id) after ≡ false
    → (conn : ℕ) × (next : ℕ) × IsFree conn w.channels
      × (route_connection peer initial w ≡ (
        record w {
          sequence = next;
          channels = w.channels ++ (conn, record { bridge = bridge.id; written = [] }) ∷ [];
          sockets =
              before
              ++ record bridge {
                sent =
                    bridge.sent
                    ++ control (opened conn peer name initial.alpn)
                      ∷ map (λ c. frame (build_data_frame conn c)) initial.chunks;
              }
                ∷ after;
        },
        relayed conn bridge.id,
      ))
route_connection-relays peer name route expiry initial r w before after bridge small alive served
      named called there first carried ready apart_before apart_after =
    let (conn, next, free, out) = open_channel-opens peer name initial bridge w small ready in
    let reached =
      route_connection-reaches peer name route expiry initial r w before after bridge alive served
        named called there first carried in
    let changed =
      change_socket-one bridge.id (send_all_on (opening conn peer name initial.alpn initial.chunks))
        before after bridge refl apart_before apart_after in
    (
      conn,
      next,
      free,
      reached
          ∙ out
          ∙ ap
              (λ ss. (
                record w {
                  sequence = next;
                  channels = w.channels ++ (conn, record { bridge = bridge.id; written = [] }) ∷ [];
                  sockets = ss;
                },
                relayed conn bridge.id,
              ))
              (ap
                  (change_socket bridge.id
                    (send_all_on (opening conn peer name initial.alpn initial.chunks)))
                  there
                ∙ changed),
    )

-- Let the tunnel be live with a ready certificate, let the SNI be its hostname or one part
-- without a dot under it, let the first attached bridge that has the route of that name not be
-- open, whatever bridges follow it, and let the channels be fewer than 2^32 - 1. Then sending on
-- that bridge fails: the sequence goes on and a new empty channel on it stays in the map, and no
-- socket is sent anything.
pub route_connection-closing :
    (peer name route : Text) (expiry : ℕ) (initial : Initial) (r : StoredTunnel) (w : World)
    (before after : List BridgeSocket) (bridge : BridgeSocket)
    → length w.channels + 2 ≤ 2 ^ 32
    → live w.stored ≡ some r
    → ready_expiry r.certificate ≡ some expiry
    → initial.sni ≡ some name
    → Called name r.hostname route
    → w.sockets ≡ before ++ bridge ∷ after
    → any (carries route) before ≡ false
    → carries route bridge ≡ true
    → is_open bridge.ready_state ≡ false
    → (conn : ℕ) × (next : ℕ) × IsFree conn w.channels
      × (route_connection peer initial w ≡ (
        record w {
          sequence = next;
          channels = w.channels ++ (conn, record { bridge = bridge.id; written = [] }) ∷ [];
        },
        failed conn bridge.id,
      ))
route_connection-closing peer name route expiry initial r w before after bridge small alive served
      named called there first carried closing =
    let (conn, next, free, out) = open_channel-throws peer name initial bridge w small closing in
    (
      conn,
      next,
      free,
      route_connection-reaches peer name route expiry initial r w before after bridge alive served
            named called there first carried
          ∙ out,
    )
