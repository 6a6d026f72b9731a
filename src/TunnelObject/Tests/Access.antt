-- ===== src/TunnelObject/Tests/Access.antt =====
-- The theorems on tokens and removal at concrete inputs.
use shuvtunnel.Common.{◌≡◌, ◌≢◌, refl, [], ◌∷◌, none, some, false, codes, arith, any, same}
use shuvtunnel.Json.{Json, string, object, field, end, get, as_string}
use shuvtunnel.Store.{StoredTunnel, online}
use shuvtunnel.Protocol.{attach_error}
use shuvtunnel.TunnelObject.{
  World, BridgeSocket, Attachment, open_state, closing_state, control, close_frame, live, access,
  granted, is_open, save,
}
use shuvtunnel.TunnelObject.Registry.{info, remove, RemoveResult, TunnelInfoResult}
use shuvtunnel.TunnelObject.Binding.{
  Workflows, issuing_record, ensure_workflow, issue_certificate, workflow_unavailable, fail_issue,
}
use shuvtunnel.TunnelObject.Pending.{while_pending, late_failure-revives}
use shuvtunnel.TunnelObject.Bridge.Attach.{Platform}
use shuvtunnel.TunnelObject.Bridge.{web_socket_message, text}
use shuvtunnel.TunnelObject.Tokens.{message-wrong_token}
use shuvtunnel.TunnelObject.Deletion.{remove-gone}
use shuvtunnel.TunnelObject.Tests.{plain, platform, workflows, tunnel, bridge, busy}

abbrev bad_json : Json
bad_json = object (
    field (codes "type") (string (codes "attach"))
      (field (codes "token") (string (codes "bad")) end))

bad_json_attaches : as_string (get (codes "type") bad_json) ≡ some (codes "attach")
unfolding get same
bad_json_attaches = refl

bad_json_token : as_string (get (codes "token") bad_json) ≡ some (codes "bad")
unfolding get same
bad_json_token = refl

abbrev intruder : Platform
intruder = record platform { parse = λ _. some bad_json }

-- A socket that was accepted and has not attached, behind the attached bridge.
abbrev fresh_attachment : Attachment
fresh_attachment = record { kind = codes "bridge"; attached = false; session = none; routes = none }

abbrev fresh_socket : BridgeSocket
fresh_socket = record {
  id = 1;
  ready_state = open_state;
  attachment = some fresh_attachment;
  sent = [];
}

abbrev two_sockets : World
two_sockets = record busy { sockets = bridge ∷ fresh_socket ∷ [] }

bad_is_wrong :
    (r : StoredTunnel) → live two_sockets.stored ≡ some r → plain (codes "bad") ≢ r.token_hash
unfolding live
bad_is_wrong r alive e = absurd (ground arith)

message-wrong_token_example :
    web_socket_message intruder 1 (text []) two_sockets ≡ record two_sockets {
      sockets =
          bridge
          ∷ record fresh_socket {
            ready_state = closing_state;
            sent =
                control (attach_error (codes "bad_token"))
                ∷ close_frame 1008 (codes "bad token")
                ∷ [];
          }
          ∷ [];
    }
message-wrong_token_example =
    message-wrong_token intruder [] (codes "bad") bad_json fresh_attachment two_sockets
      (bridge ∷ []) [] fresh_socket refl bad_json_attaches bad_json_token bad_is_wrong refl refl
      refl refl refl refl refl

busy_removed : (remove plain 4000 (codes "tok") busy).1 ≡ RemoveResult.ok
unfolding remove access same
busy_removed = refl

remove-gone_example :
    (live (remove plain 4000 (codes "tok") busy).0.stored ≡ none)
    × ((remove plain 4000 (codes "tok") busy).0.channels ≡ [])
    × (any (λ s. is_open s.ready_state) (remove plain 4000 (codes "tok") busy).0.sockets ≡ false)
remove-gone_example = remove-gone plain 4000 (codes "tok") busy busy_removed

busy_grants : access plain busy.stored (codes "tok") ≡ granted tunnel
unfolding access same
busy_grants = refl

abbrev unreachable : Workflows
unreachable = record workflows { create_error = some (codes "unavailable") }

unreachable_fails :
    (let begun = issuing_record tunnel (codes "cert_c2") (codes "csr2") (tunnel.hostname ∷ []) in
      (ensure_workflow unreachable begun (codes "csr2") (tunnel.hostname ∷ []) (save busy begun)).1
      ≡ some (codes "unavailable"))
unfolding ensure_workflow
unreachable_fails = refl

late_failure-revives_example :
    (let id = codes "cert_c2" in
      let pending =
        while_pending unreachable (codes "c2") tunnel (codes "csr2") (tunnel.hostname ∷ []) busy in
      let removal = remove plain 4000 (codes "tok") pending in
      let begun = issuing_record tunnel id (codes "csr2") (tunnel.hostname ∷ []) in
      let late = fail_issue begun id (codes "unavailable") removal.0 in
      (issue_certificate unreachable (codes "c2") tunnel (codes "csr2") (tunnel.hostname ∷ []) busy
        ≡ (
          fail_issue begun id (codes "unavailable") pending,
          workflow_unavailable (codes "unavailable"),
        ))
      × (removal.1 ≡ RemoveResult.ok)
      × (info plain (codes "tok") removal.0 ≡ TunnelInfoResult.not_found)
      × (info plain (codes "tok") late
          ≡ TunnelInfoResult.ok (record {
            id = tunnel.id;
            hostname = tunnel.hostname;
            state = online;
            certificate_id = some id;
          }))
      × (late.channels ≡ []))
late_failure-revives_example =
    late_failure-revives unreachable plain 4000 (codes "c2") (codes "tok") (codes "csr2")
      (codes "unavailable") (tunnel.hostname ∷ []) tunnel busy busy_grants unreachable_fails
