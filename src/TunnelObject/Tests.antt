-- ===== src/TunnelObject/Tests.antt =====
-- Histories of one tunnel, the data that its tests share, and the theorems about any history.
mod Access
mod Relaying
mod Renewing
use shuvtunnel.Common.{
  ℕ, ◌≡◌, refl, inr, List, [], ◌∷◌, ◌++◌, map, none, some, Bool, true, false, Text, codes, arith,
  All, any, same, includes, lower, trim, split, ends_with, drop_end, has_unit,
}
use shuvtunnel.Json.{Json, string, object, array, nil, cons, field, end, get, strings}
use shuvtunnel.Store.{StoredTunnel, CertificateState, Renewal, ready, offline, online}
use shuvtunnel.Names.{is_label}
use shuvtunnel.Protocol.{error_code, bad_token}
use shuvtunnel.TunnelObject.{
  World, BridgeSocket, open_state, find_socket, change_socket, live, access, empty_world, create,
  find_channel, is_open, is_attached,
}
use shuvtunnel.TunnelObject.Registry.{
  initialize, info, certificate, remove, RemoveResult, TunnelInfoResult, CertificateResult,
}
use shuvtunnel.TunnelObject.Certificates.{
  has_attached, cert_id, or_hostname, params_of, update_certificate, alarm, on_attached,
  schedule_renewal, start_renewal, update_current,
}
use shuvtunnel.TunnelObject.Binding.{
  CertificateRequest, Workflows, BindResult, bind_certificate, instance_not_found, bind_request,
  identifiers_of, bind_checked, issue_certificate, dedupe, ensure_workflow, join,
}
use shuvtunnel.TunnelObject.Bridge.Attach.{
  Platform, attach_token, refuse, attach, attach_routes, are_invalid, requested_routes,
  commit_attach, has_conflict, valid_route,
}
use shuvtunnel.TunnelObject.Bridge.{
  UpgradeRequest, fetch, response, text, web_socket_message, on_text,
}
use shuvtunnel.TunnelObject.Relay.{
  Initial, route_connection, route_of_sni, find_bridge, open_channel, relayed, refused, allocate,
  opening, send_all_on,
}
use shuvtunnel.TunnelObject.Relay.Allocate.{IsFree, allocate-total}
use shuvtunnel.TunnelObject.Relay.Connect.{Called, carries, Admitted, relayed→Admitted}
use shuvtunnel.TunnelObject.Relay.Delivery.{route_connection-relays, route_connection-closing}
use shuvtunnel.TunnelObject.Channels.{message_keeps_others, message_delivers}
use shuvtunnel.Frame.{build_data_frame}
use shuvtunnel.TunnelObject.{Attachment, Channel}
use shuvtunnel.TunnelObject.Bridge.{binary}
use shuvtunnel.TunnelObject.Steps.{
  Event, initializes, updates, alarms, binds, fetches, messages, step, run,
}
use shuvtunnel.TunnelObject.Routes.{Disjoint}
use shuvtunnel.TunnelObject.Routes.Invariant.{run-Disjoint}
use shuvtunnel.TunnelObject.Tokens.{message-wrong_token}
use shuvtunnel.TunnelObject.Deletion.{remove-gone}
use shuvtunnel.TunnelObject.Issuance.{AsksOwn}
use shuvtunnel.TunnelObject.Issuance.Run.{run-AsksOwn}
use shuvtunnel.TunnelObject.Renewals.{certificate_of, renewal_update, renewal_again}
use shuvtunnel.TunnelObject.Steps.{alarms, closes}
use shuvtunnel.TunnelObject.Renewals.{certificate_of}
use shuvtunnel.TunnelObject.Serving.{run_keeps_certificate}

abbrev plain : Text → Text
plain t = t

abbrev host : Text
host = codes "t1.shuv.zip"

abbrev request : CertificateRequest
request = record {
  verified = true;
  common_name = host;
  alternative_names = some ((codes "dns", host) ∷ (codes "dns", codes "*.t1.shuv.zip") ∷ []);
}

abbrev workflows : Workflows
workflows = record { lookup = λ _. instance_not_found; create_error = none; restart_error = none }

abbrev attach_json : Json
attach_json = object (
    field (codes "type") (string (codes "attach")) (
      field (codes "token") (string (codes "tok")) (
        field (codes "routes") (array (cons (string (codes "@")) (cons (string (codes "api")) nil)))
          end)))

abbrev platform : Platform
platform = record {
  hash = plain;
  parse = λ _. some attach_json;
  print = λ _. [];
  now = 2000;
  uuid = codes "s1";
  renewal_uuid = codes "r1";
  create_fails = false;
}

abbrev upgrade : UpgradeRequest
upgrade = record { upgrade = some (codes "WebSocket"); protocols = some (codes "shuvtunnel") }

-- The tunnel is created, bound to a CSR, gets its certificate, and two bridges ask for one route.
abbrev history : List Event
history =
    initializes 1000 (codes "t1") host (codes "tok")
    ∷ binds plain (λ _. some request) workflows (codes "c1") (codes "tok") (codes "csr")
    ∷ updates 1500 (codes "cert_c1") (ready (codes "pem") (codes "chain") 9000000000)
    ∷ fetches upgrade
    ∷ messages platform 0 (text [])
    ∷ fetches upgrade
    ∷ messages platform 1 (text [])
    ∷ []

abbrev tunnel : StoredTunnel
tunnel = record {
  version = 1;
  id = codes "t1";
  hostname = host;
  state = online;
  certificate_id = some (codes "cert_c1");
  token_hash = codes "tok";
  created_at = 1000;
  deleted_at = none;
  certificate =
      some
        (record { id = codes "cert_c1"; state = ready (codes "pem") (codes "chain") 9000000000 });
  certificate_csr = some (codes "csr");
  certificate_identifiers = some (host ∷ codes "*.t1.shuv.zip" ∷ []);
  last_connected_at = some 2000;
  renewal = none;
}

abbrev bridge_attachment : Attachment
bridge_attachment = record {
  kind = codes "bridge";
  attached = true;
  session = some (codes "sess_s1");
  routes = some (codes "@" ∷ codes "api" ∷ []);
}

-- An attached bridge with one public connection.
abbrev bridge : BridgeSocket
bridge = record { id = 0; ready_state = open_state; attachment = some bridge_attachment; sent = [] }

abbrev busy : World
busy = record {
  stored = some tunnel;
  alarm_at = some 6408000000;
  sockets = bridge ∷ [];
  next_socket = 1;
  channels = (1, record { bridge = 0; written = [] }) ∷ [];
  finished = [];
  sequence = 2;
  calls = [];
}

abbrev summary : BridgeSocket → ℕ × Bool × Bool
summary s = (s.id, is_open s.ready_state, is_attached s)

history_test :
    (map summary (run empty_world history).sockets ≡ (0, true, true) ∷ (1, false, false) ∷ [])
    × ((run empty_world history).stored ≡ some tunnel)
    × ((run empty_world history).alarm_at ≡ some 6408000000)
unfolding run step initialize bind_certificate update_certificate fetch web_socket_message access
    live find_socket same bind_request identifiers_of includes bind_checked issue_certificate lower
    split trim on_text get attach attach_token attach_routes are_invalid requested_routes ends_with
    is_label strings dedupe ensure_workflow commit_attach has_conflict valid_route on_attached
    schedule_renewal start_renewal update_current change_socket join
history_test = (refl, refl, refl)

run-Disjoint_example : Disjoint (run empty_world history).sockets
run-Disjoint_example = run-Disjoint history

run-AsksOwn_example : All AsksOwn (run empty_world history).calls
run-AsksOwn_example = run-AsksOwn history

abbrev initial : Initial
initial = record {
  chunks = (22 ∷ 3 ∷ []) ∷ [];
  sni = some (codes "api.t1.shuv.zip");
  alpn = codes "h2";
}

run_keeps_certificate_example :
    certificate_of
      (run busy (
        alarms 6408000000 (codes "r1") false
        ∷ messages platform 0 (text [])
        ∷ closes 0
        ∷ [])).stored
    ≡ tunnel.certificate
run_keeps_certificate_example =
    run_keeps_certificate busy
      (alarms 6408000000 (codes "r1") false ∷ messages platform 0 (text []) ∷ closes 0 ∷ [])
      (tt, (tt, (tt, tt)))
