-- ===== src/TunnelObject/Issuance/Run.antt =====
-- The identifiers that any run of the object in packages/server/src/tunnel-object.ts asks the
-- workflow for.
use shuvtunnel.Common.{
  ℕ, ◌≡◌, refl, List, [], ◌∷◌, none, some, Text, arith, Option-cases, inl, inr, codes, All,
}
use shuvtunnel.Frame.{Bytes}
use shuvtunnel.Json.{Json}
use shuvtunnel.Store.{StoredTunnel, online, offline}
use shuvtunnel.TunnelObject.{
  World, Attachment, Access, missing, denied, granted, access, live, save, empty_world,
}
use shuvtunnel.TunnelObject.Tokens.{access-granted}
use shuvtunnel.TunnelObject.Deletion.{
  on_control-Steady, on_data-Steady, finish_all-Steady, web_socket_error-Steady, upload-Steady,
  connect-Steady,
}
use shuvtunnel.TunnelObject.Registry.{remove}
use shuvtunnel.TunnelObject.Issuance.{
  AsksOwn, RecordOwn, IssuanceInv, Inv-Steady, StoredOwn-live, alarm-Inv, on_attached-Inv,
  initialize-Inv, update-Inv, bind-Inv,
}
use shuvtunnel.TunnelObject.Bridge.Attach.{
  Platform, attach, attach_token, attach_routes, commit_attach,
}
use shuvtunnel.TunnelObject.Bridge.{
  UpgradeRequest, fetch, on_text, on_control, on_data, Message, web_socket_message,
  web_socket_close, go_offline,
}
use shuvtunnel.TunnelObject.Steps.{
  Event, initializes, updates, alarms, binds, removes, fetches, messages, closes, errors, connects,
  uploads, step, run,
}

abbrev Inv : World → Type 0
Inv w = IssuanceInv w

commit_attach-Inv :
    (p : Platform) (id : ℕ) (r : StoredTunnel) (routes : List Text) (w : World)
    → RecordOwn r
    → Inv w
    → Inv (commit_attach p id r routes w)
unfolding commit_attach
commit_attach-Inv p id r routes w own i =
    on_attached-Inv p.now p.renewal_uuid p.create_fails connected _ own
      (record { calls = i.calls; stored = own })
  where
    connected : StoredTunnel
    connected = record r { state = online; last_connected_at = some p.now }

attach_routes-Inv :
    (p : Platform) (id : ℕ) (r : StoredTunnel) (routes : List Text) (w : World)
    → RecordOwn r
    → Inv w
    → Inv (attach_routes p id r routes w)
unfolding attach_routes
attach_routes-Inv p id r routes w own i = ground (arith, commit_attach-Inv p id r routes w own i)

access-own :
    (hash : Text → Text) (token : Text) (w : World) (r : StoredTunnel)
    → access hash w.stored token ≡ granted r
    → Inv w
    → RecordOwn r
access-own hash token w r e i =
    let (stored, alive, h) = access-granted hash token w.stored r e in
    StoredOwn-live w.stored r alive i.stored

attach_token-Inv :
    (p : Platform) (id : ℕ) (token : Text) (value : Json) (w : World)
    → Inv w
    → Inv (attach_token p id token value w)
unfolding attach_token
attach_token-Inv p id token value w i =
    grind (arith, attach_routes-Inv p id, access-own p.hash token w)

attach-Inv :
    (p : Platform) (id : ℕ) (type : Text) (value : Json) (w : World)
    → Inv w
    → Inv (attach p id type value w)
unfolding attach
attach-Inv p id type value w i = grind (arith, attach_token-Inv p id)

on_control-Inv :
    (print : Json → Text) (id : ℕ) (type : Text) (value : Json) (w : World)
    → Inv w
    → Inv (on_control print id type value w)
on_control-Inv print id type value w i = Inv-Steady w _ (on_control-Steady print id type value w) i

on_data-Inv :
    (id : ℕ) (a : Attachment) (bytes : Bytes) (w : World) → Inv w → Inv (on_data id a bytes w)
on_data-Inv id a bytes w i = Inv-Steady w _ (on_data-Steady id a bytes w) i

message-Inv :
    (p : Platform) (id : ℕ) (message : Message) (w : World)
    → Inv w
    → Inv (web_socket_message p id message w)
unfolding web_socket_message on_text
message-Inv p id message w i = grind (arith, attach-Inv p id, on_control-Inv, on_data-Inv)

go_offline-Inv : (id : ℕ) (w : World) → Inv w → Inv (go_offline id w)
unfolding go_offline
go_offline-Inv id w i = elim (Option-cases (live w.stored)) [
  | inl e ↦ rw (e, go_offline) i
  | inr (r, e) ↦
      let own : RecordOwn r = StoredOwn-live w.stored r e i.stored in
      let gone : Inv (save w (record r { state = offline })) = record {
        calls = i.calls;
        stored = own;
      } in
      rw (e, go_offline) (ground (arith, gone))
]

close-Inv : (id : ℕ) (w : World) → Inv w → Inv (web_socket_close id w)
unfolding web_socket_close
close-Inv id w i = ground (
  arith,
  go_offline-Inv id _
      (Inv-Steady w _ (finish_all-Steady id (codes "Bridge disconnected") w.channels w) i),
)

remove-Inv :
    (hash : Text → Text) (now : ℕ) (token : Text) (w : World)
    → Inv w
    → Inv (remove hash now token w).0
unfolding remove
remove-Inv hash now token w i = removed (access hash w.stored token) refl
  where
    removed : (a : Access) → access hash w.stored token ≡ a → Inv (remove hash now token w).0
    removed missing e = rw (e, remove) i
    removed denied e = rw (e, remove) i
    removed (granted r) e =
        let own : RecordOwn r = access-own hash token w r e i in
        rw (e, remove) (record { calls = i.calls; stored = own })

fetch-Inv : (request : UpgradeRequest) (w : World) → Inv w → Inv (fetch request w).0
unfolding fetch
fetch-Inv request w i = ground arith

step-Inv : (w : World) (e : Event) → Inv w → Inv (step w e)
unfolding step
step-Inv w (initializes now id hostname hash) i = initialize-Inv now id hostname hash w i
step-Inv w (updates now id input) i = update-Inv now id input w i
step-Inv w (alarms now uuid fails) i =
    alarm-Inv now uuid fails (record w { alarm_at = none })
      (record { calls = i.calls; stored = i.stored })
step-Inv w (binds hash parse wf uuid token csr) i = bind-Inv hash parse wf uuid token csr w i
step-Inv w (removes hash now token) i = remove-Inv hash now token w i
step-Inv w (fetches request) i = fetch-Inv request w i
step-Inv w (messages p id message) i = message-Inv p id message w i
step-Inv w (closes id) i =
    let after : Inv (web_socket_close id w) = close-Inv id w i in
    record { calls = after.calls; stored = after.stored }
step-Inv w (errors id message) i = Inv-Steady w _ (web_socket_error-Steady id message w) i
step-Inv w (connects decode peer events) i = Inv-Steady w _ (connect-Steady decode peer events w) i
step-Inv w (uploads conn bridge event) i = Inv-Steady w _ (upload-Steady conn bridge event w) i

run-Inv : (w : World) (es : List Event) → Inv w → Inv (run w es)
unfolding run
run-Inv w [] i = i
run-Inv w (e ∷ es) i = run-Inv (step w e) es (step-Inv w e i)

-- After any sequence of events on a new object, each certificate workflow that it created asks
-- only for the hostname in its own parameters and the wildcard under that hostname.
pub run-AsksOwn : (es : List Event) → All AsksOwn (run empty_world es).calls
run-AsksOwn es =
    let after : Inv (run empty_world es) =
      run-Inv empty_world es (record { calls = tt; stored = tt }) in
    after.calls
