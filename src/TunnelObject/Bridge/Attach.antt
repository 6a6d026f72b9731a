-- ===== src/TunnelObject/Bridge/Attach.antt =====
-- The attach message of `webSocketMessage` in packages/server/src/tunnel-object.ts.
use shuvtunnel.Common.{
  ℕ, List, [], ◌∷◌, ◌++◌, Option, none, some, Bool, true, ◌&&◌, ◌||◌, not, ◌==◌, if◌then◌else◌,
  Text, codes, same, includes, any,
}
use shuvtunnel.Json.{
  nat, Json, null, boolean, number, string, array, object, get, as_string, strings,
}
use shuvtunnel.Names.{root_route, is_label}
use shuvtunnel.Protocol.{
  attached, attach_error, error_code, bad_token, cert_not_ready, invalid_route, route_conflict,
  heartbeat_ms, idle_timeout_ms,
}
use shuvtunnel.Store.{StoredTunnel, online, ready_expiry}
use shuvtunnel.TunnelObject.{
  World, BridgeSocket, Attachment, control, is_open, missing, denied, granted, access, save, send,
  close, change_socket, is_attached, routes_of,
}
use shuvtunnel.TunnelObject.Binding.{dedupe}
use shuvtunnel.TunnelObject.Certificates.{on_attached}

-- What the handler takes from the platform: the digest of a token, `JSON.parse` (`none` where it
-- throws), `String` of a parsed value, the time, and two random identifiers.
pub record Platform : Type 0 where
  pub hash : Text → Text
  pub parse : Text → Option Json
  pub print : Json → Text
  pub now : ℕ
  pub uuid : Text
  pub renewal_uuid : Text
  pub create_fails : Bool

-- `validRoute` of the object, which repeats the test of names.ts.
unfoldable pub valid_route : Text → Bool
valid_route route = same route root_route || is_label route

-- `control.routes`: the strings of an array, each once; no array stands for the root route.
unfoldable pub requested_routes : Option Json → List Text
requested_routes none = root_route ∷ []
requested_routes (some (array items)) = dedupe (strings items)
requested_routes (some null) = root_route ∷ []
requested_routes (some (boolean b)) = root_route ∷ []
requested_routes (some (number n)) = root_route ∷ []
requested_routes (some (string s)) = root_route ∷ []
requested_routes (some (object fields)) = root_route ∷ []

-- `requestedRoutes.length === 0 || requestedRoutes.some((route) => !validRoute(route))`
unfoldable pub are_invalid : List Text → Bool
are_invalid [] = true
are_invalid (r ∷ rs) = any (λ route. not (valid_route route)) (r ∷ rs)

-- Another open socket that is attached for one of the routes.
abbrev pub takes_route : ℕ → List Text → BridgeSocket → Bool
takes_route id requested s =
    not (s.id == id)
    && (is_open s.ready_state && (is_attached s && any (includes requested) (routes_of s)))

unfoldable pub has_conflict : ℕ → List Text → List BridgeSocket → Bool
has_conflict id requested sockets = any (takes_route id requested) sockets

-- An attach error is sent, and the socket is closed.
abbrev pub refuse : World → ℕ → Text → Text → World
refuse w id code reason = close (send w id (control (attach_error code))) id 1008 reason

abbrev pub attachment_for : Text → List Text → Attachment
attachment_for session routes = record {
  kind = codes "bridge";
  attached = true;
  session = some session;
  routes = some routes;
}

abbrev pub set_attachment : Attachment → BridgeSocket → BridgeSocket
set_attachment a s = record s { attachment = some a }

-- After all checks: the attachment, the record, the answer, and a renewal that may be due.
unfoldable pub commit_attach : Platform → ℕ → StoredTunnel → List Text → World → World
commit_attach p id r routes w =
    let session = codes "sess_" ++ p.uuid in
    let connected = record r { state = online; last_connected_at = some p.now } in
    let attached_world = record w {
      sockets = change_socket id (set_attachment (attachment_for session routes)) w.sockets;
    } in
    let answer = attached session routes (nat heartbeat_ms) (nat idle_timeout_ms) in
    on_attached p.now p.renewal_uuid p.create_fails connected
      (send (save attached_world connected) id (control answer))

unfoldable pub attach_routes : Platform → ℕ → StoredTunnel → List Text → World → World
attach_routes p id r routes w =
    if are_invalid routes
    then refuse w id (error_code invalid_route) (codes "invalid route")
    else if has_conflict id routes w.sockets
    then refuse w id (error_code route_conflict) (codes "route conflict")
    else commit_attach p id r routes w

unfoldable pub attach_token : Platform → ℕ → Text → Json → World → World
attach_token p id token value w = elim (access p.hash w.stored token) [
  | missing ↦ refuse w id (error_code bad_token) (codes "bad token")
  | denied ↦ refuse w id (error_code bad_token) (codes "bad token")
  | granted r ↦ elim (ready_expiry r.certificate) [
    | none ↦ refuse w id (error_code cert_not_ready) (codes "certificate not ready")
    | some expiry ↦ attach_routes p id r (requested_routes (get (codes "routes") value)) w
  ]
]

unfoldable pub attach : Platform → ℕ → Text → Json → World → World
attach p id type value w =
    if not (same type (codes "attach"))
    then close w id 1008 (codes "attach required")
    else elim (as_string (get (codes "token") value)) [
      | none ↦ close w id 1008 (codes "attach required")
      | some token ↦ attach_token p id token value w
    ]
