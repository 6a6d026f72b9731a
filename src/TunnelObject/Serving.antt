-- ===== src/TunnelObject/Serving.antt =====
-- The events of packages/server/src/tunnel-object.ts that leave the certificate of the tunnel alone.
use shuvtunnel.Common.{
  ℕ, ◌≡◌, refl, sym, ap, ◌∙◌, List, [], ◌∷◌, Option, none, some, Bool, Text, arith, codes, All,
}
use shuvtunnel.Frame.{Bytes}
use shuvtunnel.Json.{Json}
use shuvtunnel.Store.{StoredTunnel, CertificateInfo, online}
use shuvtunnel.TunnelObject.{World, Attachment, granted, access, live}
use shuvtunnel.TunnelObject.Tokens.{access-granted}
use shuvtunnel.TunnelObject.Deletion.{
  Steady, on_control-Steady, on_data-Steady, finish_all-Steady, web_socket_error-Steady,
  upload-Steady, connect-Steady,
}
use shuvtunnel.TunnelObject.Registry.{remove}
use shuvtunnel.TunnelObject.Certificates.{schedule_renewal, start_renewal, alarm, on_attached}
use shuvtunnel.TunnelObject.Renewals.{certificate_of, live-alive}
use shuvtunnel.TunnelObject.Bridge.Attach.{
  Platform, attach, attach_token, attach_routes, commit_attach,
}
use shuvtunnel.TunnelObject.Bridge.{
  UpgradeRequest, fetch, on_text, on_control, on_data, Message, web_socket_message,
  web_socket_close, go_offline, finish_all,
}
use shuvtunnel.TunnelObject.Steps.{
  Event, initializes, updates, alarms, binds, removes, fetches, messages, closes, errors, connects,
  uploads, step, run,
}

-- The tunnel's certificate is `c`.
abbrev Serves : Option CertificateInfo → World → Type 0
Serves c w = certificate_of w.stored ≡ c

abbrev C : Type 0
C = Option CertificateInfo

Serves-Steady : (c : C) (v w : World) → Steady v w → Serves c v → Serves c w
Serves-Steady c v w s h = ap certificate_of s.stored ∙ h

live-certificate :
    (o : Option StoredTunnel) (r : StoredTunnel)
    → live o ≡ some r
    → certificate_of o ≡ r.certificate
live-certificate o r e = let (stored, alive) = live-alive o r e in ap certificate_of stored

schedule_renewal-Serves :
    (c : C) (now : ℕ) (r : StoredTunnel) (w : World)
    → Serves c w
    → Serves c (schedule_renewal now r w)
unfolding schedule_renewal
schedule_renewal-Serves c now r w h = ground arith

start_renewal-Serves :
    (c : C) (now : ℕ) (uuid : Text) (fails : Bool) (r : StoredTunnel) (w : World)
    → r.certificate ≡ c
    → Serves c w
    → Serves c (start_renewal now uuid fails r w)
unfolding start_renewal
start_renewal-Serves c now uuid fails r w own h = ground arith

alarm-Serves :
    (c : C) (now : ℕ) (uuid : Text) (fails : Bool) (w : World)
    → Serves c w
    → Serves c (alarm now uuid fails w)
unfolding alarm
alarm-Serves c now uuid fails w h = grind (
  arith,
  start_renewal-Serves c now uuid fails,
  schedule_renewal-Serves c now,
  live-certificate w.stored,
)

on_attached-Serves :
    (c : C) (now : ℕ) (uuid : Text) (fails : Bool) (r : StoredTunnel) (w : World)
    → r.certificate ≡ c
    → Serves c w
    → Serves c (on_attached now uuid fails r w)
unfolding on_attached
on_attached-Serves c now uuid fails r w own h =
    grind (arith, start_renewal-Serves c now uuid fails, schedule_renewal-Serves c now)

commit_attach-Serves :
    (c : C) (p : Platform) (id : ℕ) (r : StoredTunnel) (routes : List Text) (w : World)
    → r.certificate ≡ c
    → Serves c (commit_attach p id r routes w)
unfolding commit_attach
commit_attach-Serves c p id r routes w own =
    on_attached-Serves c p.now p.renewal_uuid p.create_fails connected _ own own
  where
    connected : StoredTunnel
    connected = record r { state = online; last_connected_at = some p.now }

attach_routes-Serves :
    (c : C) (p : Platform) (id : ℕ) (r : StoredTunnel) (routes : List Text) (w : World)
    → r.certificate ≡ c
    → Serves c w
    → Serves c (attach_routes p id r routes w)
unfolding attach_routes
attach_routes-Serves c p id r routes w own h =
    ground (arith, commit_attach-Serves c p id r routes w own)

access-certificate :
    (c : C) (hash : Text → Text) (token : Text) (w : World) (r : StoredTunnel)
    → access hash w.stored token ≡ granted r
    → Serves c w
    → r.certificate ≡ c
access-certificate c hash token w r e h =
    let (stored, alive, same_hash) = access-granted hash token w.stored r e in
    sym (ap certificate_of stored) ∙ h

attach-Serves :
    (c : C) (p : Platform) (id : ℕ) (type : Text) (value : Json) (w : World)
    → Serves c w
    → Serves c (attach p id type value w)
unfolding attach attach_token
attach-Serves c p id type value w h =
    grind (arith, attach_routes-Serves c p id, access-certificate c p.hash)

on_control-Serves :
    (c : C) (print : Json → Text) (id : ℕ) (type : Text) (value : Json) (w : World)
    → Serves c w
    → Serves c (on_control print id type value w)
on_control-Serves c print id type value w h =
    Serves-Steady c w _ (on_control-Steady print id type value w) h

on_data-Serves :
    (c : C) (id : ℕ) (a : Attachment) (bytes : Bytes) (w : World)
    → Serves c w
    → Serves c (on_data id a bytes w)
on_data-Serves c id a bytes w h = Serves-Steady c w _ (on_data-Steady id a bytes w) h

message-Serves :
    (c : C) (p : Platform) (id : ℕ) (message : Message) (w : World)
    → Serves c w
    → Serves c (web_socket_message p id message w)
unfolding web_socket_message on_text
message-Serves c p id message w h =
    grind (arith, attach-Serves c p id, on_control-Serves c, on_data-Serves c)

go_offline-Serves : (c : C) (id : ℕ) (w : World) → Serves c w → Serves c (go_offline id w)
unfolding go_offline
go_offline-Serves c id w h = grind (arith, live-certificate w.stored)

close-Serves : (c : C) (id : ℕ) (w : World) → Serves c w → Serves c (web_socket_close id w)
unfolding web_socket_close
close-Serves c id w h =
    let finished : World = finish_all id (codes "Bridge disconnected") w.channels w in
    let held : Serves c finished =
      Serves-Steady c w finished (finish_all-Steady id (codes "Bridge disconnected") w.channels w)
        h in
    ground (arith, go_offline-Serves c id finished held)

remove-Serves :
    (c : C) (hash : Text → Text) (now : ℕ) (token : Text) (w : World)
    → Serves c w
    → Serves c (remove hash now token w).0
unfolding remove
remove-Serves c hash now token w h = grind (arith, access-certificate c hash token w)

fetch-Serves :
    (c : C) (request : UpgradeRequest) (w : World) → Serves c w → Serves c (fetch request w).0
unfolding fetch
fetch-Serves c request w h = ground arith

-- The events that may set a certificate: a new tunnel, an update and a CSR.
abbrev pub IsNoIssue : Event → Type 0
IsNoIssue (initializes now id hostname hash) = ⊥
IsNoIssue (updates now id input) = ⊥
IsNoIssue (binds hash parse wf uuid token csr) = ⊥
IsNoIssue _ = Unit

step-Serves : (c : C) (w : World) (e : Event) → IsNoIssue e → Serves c w → Serves c (step w e)
unfolding step
step-Serves c w (initializes now id hostname hash) n h = absurd n
step-Serves c w (updates now id input) n h = absurd n
step-Serves c w (alarms now uuid fails) n h =
    alarm-Serves c now uuid fails (record w { alarm_at = none }) h
step-Serves c w (binds hash parse wf uuid token csr) n h = absurd n
step-Serves c w (removes hash now token) n h = remove-Serves c hash now token w h
step-Serves c w (fetches request) n h = fetch-Serves c request w h
step-Serves c w (messages p id message) n h = message-Serves c p id message w h
step-Serves c w (closes id) n h = close-Serves c id w h
step-Serves c w (errors id message) n h =
    Serves-Steady c w _ (web_socket_error-Steady id message w) h
step-Serves c w (connects decode peer events) n h =
    Serves-Steady c w _ (connect-Steady decode peer events w) h
step-Serves c w (uploads conn bridge event) n h =
    Serves-Steady c w _ (upload-Steady conn bridge event w) h

-- A sequence of events without `initialize`, `updateCertificate` and `bindCertificate` leaves the
-- certificate in the record as it was, whatever the alarms, bridges and connections in it do.
pub run_keeps_certificate :
    (w : World) (es : List Event)
    → All IsNoIssue es
    → certificate_of (run w es).stored ≡ certificate_of w.stored
unfolding run
run_keeps_certificate w [] n = refl
run_keeps_certificate w (e ∷ es) n =
    run_keeps_certificate (step w e) es n.1 ∙ step-Serves (certificate_of w.stored) w e n.0 refl
