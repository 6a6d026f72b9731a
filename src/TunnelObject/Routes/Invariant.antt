-- ===== src/TunnelObject/Routes/Invariant.antt =====
-- No event of packages/server/src/tunnel-object.ts makes two open bridges serve one route.
use shuvtunnel.Common.{
  ℕ, suc, ◌≡◌, ◌<◌, refl, List, [], ◌∷◌, ◌++◌, Option, none, false, ◌==◌, Text, arith, All,
  All-append, Bool-cases, inl, inr,
}
use shuvtunnel.Json.{Json}
use shuvtunnel.Store.{StoredTunnel}
use shuvtunnel.TunnelObject.{World, BridgeSocket, Attachment, empty_world}
use shuvtunnel.TunnelObject.Bridge.Attach.{
  Platform, has_conflict, are_invalid, attach_routes, attach_token, attach,
}
use shuvtunnel.TunnelObject.Bridge.{
  UpgradeRequest, new_socket, accept, fetch, on_text, Message, web_socket_message, web_socket_close,
}
use shuvtunnel.TunnelObject.Untouched.{
  KeepsBridges, initialize-KeepsBridges, update-KeepsBridges, alarm-KeepsBridges, bind-KeepsBridges,
}
use shuvtunnel.TunnelObject.Routes.{
  serves, Apart, Disjoint, RoutesInv, Quiet, Quiet-KeepsBridges, RoutesInv-Quiet, close-Quiet,
}
use shuvtunnel.TunnelObject.Routes.Messages.{
  on_data-Quiet, on_control-Quiet, refuse-Quiet, web_socket_close-Quiet, web_socket_error-Quiet,
  connect-Quiet, upload-Quiet, remove-Quiet,
}
use shuvtunnel.TunnelObject.Steps.{
  Event, initializes, updates, alarms, binds, removes, fetches, messages, closes, errors, connects,
  uploads, drop_socket, step, run,
}
use shuvtunnel.TunnelObject.Routes.Attaching.{commit_attach-RoutesInv}

quiet : (v w : World) → RoutesInv v → Quiet v w → RoutesInv w
quiet v w i q = RoutesInv-Quiet v w q i

attach_routes-RoutesInv :
    (p : Platform) (id : ℕ) (r : StoredTunnel) (routes : List Text) (w : World)
    → RoutesInv w
    → RoutesInv (attach_routes p id r routes w)
unfolding attach_routes
attach_routes-RoutesInv p id r routes w i = elim (Bool-cases (are_invalid routes)) [
  | inl bad ↦ rw bad (quiet w _ i (refuse-Quiet w id _ _))
  | inr good ↦ rw good (elim (Bool-cases (has_conflict id routes w.sockets)) [
    | inl taken ↦ rw taken (quiet w _ i (refuse-Quiet w id _ _))
    | inr free ↦ rw free (commit_attach-RoutesInv p id r routes w free i)
  ])
]

attach_token-RoutesInv :
    (p : Platform) (id : ℕ) (token : Text) (value : Json) (w : World)
    → RoutesInv w
    → RoutesInv (attach_token p id token value w)
unfolding attach_token
attach_token-RoutesInv p id token value w i =
    grind (arith, attach_routes-RoutesInv p id, quiet w, refuse-Quiet w id)

attach-RoutesInv :
    (p : Platform) (id : ℕ) (type : Text) (value : Json) (w : World)
    → RoutesInv w
    → RoutesInv (attach p id type value w)
unfolding attach
attach-RoutesInv p id type value w i =
    grind (arith, attach_token-RoutesInv p id, quiet w, close-Quiet w id)

on_text-RoutesInv :
    (p : Platform) (id : ℕ) (a : Attachment) (parsed : Option Json) (w : World)
    → RoutesInv w
    → RoutesInv (on_text p id a parsed w)
unfolding on_text
on_text-RoutesInv p id a parsed w i =
    grind (arith, attach-RoutesInv p id, quiet w, close-Quiet w id, on_control-Quiet)

message-RoutesInv :
    (p : Platform) (id : ℕ) (message : Message) (w : World)
    → RoutesInv w
    → RoutesInv (web_socket_message p id message w)
unfolding web_socket_message
message-RoutesInv p id message w i =
    grind (arith, on_text-RoutesInv p id, quiet w, close-Quiet w id, on_data-Quiet)

-- The new socket of an upgrade is not attached yet, and its id is new.
Disjoint-concat :
    (n : ℕ) (t : BridgeSocket) (ss : List BridgeSocket)
    → t.id ≡ n
    → serves t ≡ false
    → All (λ s. s.id < n) ss
    → Disjoint ss
    → Disjoint (ss ++ t ∷ [])
Disjoint-concat n t [] e v b d = (tt, tt)
Disjoint-concat n t (s ∷ ss) e v b d = (
  All-append (Apart s) ss (t ∷ []) d.0 ((λ k. omega (arith, b.0), λ _ u. cc), tt),
  Disjoint-concat n t ss e v b.1 d.1,
)

below-suc : (n : ℕ) (ss : List BridgeSocket) → All (λ s. s.id < n) ss → All (λ s. s.id < suc n) ss
below-suc n [] b = tt
below-suc n (s ∷ ss) b = (omega arith, below-suc n ss b.1)

accept-RoutesInv : (w : World) → RoutesInv w → RoutesInv (accept w)
accept-RoutesInv w i = record {
  disjoint =
      Disjoint-concat w.next_socket (new_socket w.next_socket) w.sockets refl refl i.below
        i.disjoint;
  below =
      All-append (λ s. s.id < suc w.next_socket) w.sockets (new_socket w.next_socket ∷ [])
        (below-suc w.next_socket w.sockets i.below) (omega arith, tt);
}

fetch-RoutesInv :
    (request : UpgradeRequest) (w : World) → RoutesInv w → RoutesInv (fetch request w).0
unfolding fetch
fetch-RoutesInv request w i = grind (arith, accept-RoutesInv w)

All-drop_socket {κ} :
    (P : BridgeSocket → Type κ) (id : ℕ) (ss : List BridgeSocket)
    → All P ss
    → All P (drop_socket id ss)
unfolding drop_socket
All-drop_socket P id [] a = tt
All-drop_socket P id (s ∷ ss) a = elim (Bool-cases (s.id == id)) [
  | inl hit ↦ rw hit (All-drop_socket P id ss a.1)
  | inr miss ↦ rw miss (a.0, All-drop_socket P id ss a.1)
]

Disjoint-drop_socket :
    (id : ℕ) (ss : List BridgeSocket) → Disjoint ss → Disjoint (drop_socket id ss)
unfolding drop_socket
Disjoint-drop_socket id [] d = tt
Disjoint-drop_socket id (s ∷ ss) d = elim (Bool-cases (s.id == id)) [
  | inl hit ↦ rw hit (Disjoint-drop_socket id ss d.1)
  | inr miss ↦ rw miss (All-drop_socket (Apart s) id ss d.0, Disjoint-drop_socket id ss d.1)
]

drop-RoutesInv :
    (id : ℕ) (w : World) → RoutesInv w → RoutesInv (record w { sockets = drop_socket id w.sockets })
drop-RoutesInv id w i = record {
  disjoint = Disjoint-drop_socket id w.sockets i.disjoint;
  below = All-drop_socket (λ s. s.id < w.next_socket) id w.sockets i.below;
}

kept : (v w : World) → RoutesInv v → KeepsBridges v w → RoutesInv w
kept v w i k = RoutesInv-Quiet v w (Quiet-KeepsBridges v w k) i

pub step-RoutesInv : (w : World) (e : Event) → RoutesInv w → RoutesInv (step w e)
unfolding step
step-RoutesInv w (initializes now id hostname hash) i =
    kept w _ i (initialize-KeepsBridges now id hostname hash w)
step-RoutesInv w (updates now id input) i = kept w _ i (update-KeepsBridges now id input w)
step-RoutesInv w (alarms now uuid fails) i =
    kept (record w { alarm_at = none }) _ (record { disjoint = i.disjoint; below = i.below })
      (alarm-KeepsBridges now uuid fails (record w { alarm_at = none }))
step-RoutesInv w (binds hash parse wf uuid token csr) i =
    kept w _ i (bind-KeepsBridges hash parse wf uuid token csr w)
step-RoutesInv w (removes hash now token) i = quiet w _ i (remove-Quiet hash now token w)
step-RoutesInv w (fetches request) i = fetch-RoutesInv request w i
step-RoutesInv w (messages p id message) i = message-RoutesInv p id message w i
step-RoutesInv w (closes id) i =
    drop-RoutesInv id (web_socket_close id w) (quiet w _ i (web_socket_close-Quiet id w))
step-RoutesInv w (errors id message) i = quiet w _ i (web_socket_error-Quiet id message w)
step-RoutesInv w (connects decode peer events) i = quiet w _ i (connect-Quiet decode peer events w)
step-RoutesInv w (uploads conn bridge event) i = quiet w _ i (upload-Quiet conn bridge event w)

run-RoutesInv : (w : World) (es : List Event) → RoutesInv w → RoutesInv (run w es)
unfolding run
run-RoutesInv w [] i = i
run-RoutesInv w (e ∷ es) i = run-RoutesInv (step w e) es (step-RoutesInv w e i)

-- After any sequence of events on a new object, any two of its bridge sockets have different
-- identities and, if both are open and attached, no route in common.
pub run-Disjoint : (es : List Event) → Disjoint (run empty_world es).sockets
run-Disjoint es = (run-RoutesInv empty_world es (record { disjoint = tt; below = tt })).disjoint
