-- ===== src/TunnelObject/Tokens.antt =====
-- The token check of packages/server/src/tunnel-object.ts, and an attach message that fails it.
use shuvtunnel.Common.{
  ℕ, ◌≡◌, ◌≢◌, ◌⊎◌, refl, ap, ◌∙◌, List, [], ◌∷◌, ◌++◌, Option, none, some, false, ◌==◌, any, Text,
  arith, inl, inr, same→eq, same_refl, codes,
}
use shuvtunnel.Json.{Json, get, as_string}
use shuvtunnel.Protocol.{error_code, bad_token, attach_error}
use shuvtunnel.Store.{StoredTunnel}
use shuvtunnel.TunnelObject.{
  World, BridgeSocket, Attachment, Access, missing, denied, granted, access, live, open_state,
  closing_state, control, close_frame, send_on, close_on, change_socket, find_socket,
}
use shuvtunnel.TunnelObject.Bridge.{text, web_socket_message, on_text}
use shuvtunnel.TunnelObject.Bridge.Attach.{Platform, attach, attach_token, refuse}
use shuvtunnel.TunnelObject.Sockets.{change_socket-one, find_socket-one}

pub access-granted :
    (hash : Text → Text) (token : Text) (stored : Option StoredTunnel) (r : StoredTunnel)
    → access hash stored token ≡ granted r
    → (stored ≡ some r) × (live stored ≡ some r) × (hash token ≡ r.token_hash)
unfolding access live
access-granted hash token none r h = cc
access-granted hash token (some r') r h = ground (arith, same→eq (hash token) r'.token_hash)

Access-cases :
    (a : Access) → (a ≡ missing) ⊎ ((a ≡ denied) ⊎ ((r : StoredTunnel) × (a ≡ granted r)))
Access-cases missing = inl refl
Access-cases denied = inr (inl refl)
Access-cases (granted r) = inr (inr (r, refl))

-- A token that no live record has.
access-wrong :
    (hash : Text → Text) (token : Text) (stored : Option StoredTunnel)
    → ((r : StoredTunnel) → live stored ≡ some r → hash token ≢ r.token_hash)
    → (access hash stored token ≡ missing) ⊎ (access hash stored token ≡ denied)
access-wrong hash token stored wrong = elim (Access-cases (access hash stored token)) [
  | inl missed ↦ inl missed
  | inr (inl denies) ↦ inr denies
  | inr (inr (r, grants)) ↦
      let (there, alive, right) = access-granted hash token stored r grants in
      absurd (wrong r alive right)
]

attach_token-wrong :
    (p : Platform) (id : ℕ) (token : Text) (value : Json) (w : World)
    → ((r : StoredTunnel) → live w.stored ≡ some r → p.hash token ≢ r.token_hash)
    → attach_token p id token value w ≡ refuse w id (error_code bad_token) (codes "bad token")
unfolding attach_token
attach_token-wrong p id token value w wrong = elim (access-wrong p.hash token w.stored wrong) [
  | inl missed ↦ rw (missed, attach_token) refl
  | inr denies ↦ rw (denies, attach_token) refl
]

refuse-one :
    (w : World) (code reason : Text) (before after : List BridgeSocket) (s : BridgeSocket)
    → w.sockets ≡ before ++ s ∷ after
    → any (λ other. other.id == s.id) before ≡ false
    → any (λ other. other.id == s.id) after ≡ false
    → s.ready_state ≡ open_state
    → (refuse w s.id code reason).sockets
      ≡ before
        ++ record s {
          ready_state = closing_state;
          sent = (s.sent ++ control (attach_error code) ∷ []) ++ close_frame 1008 reason ∷ [];
        }
          ∷ after
refuse-one w code reason before after s there apart_before apart_after ready =
    let sends = send_on (control (attach_error code)) in
    let sent : change_socket s.id sends w.sockets ≡ before ++ sends s ∷ after =
      ap (change_socket s.id sends) there
      ∙ change_socket-one s.id sends before after s refl apart_before apart_after in
    ap (change_socket s.id (close_on 1008 reason)) sent
    ∙ change_socket-one s.id (close_on 1008 reason) before after (sends s) refl apart_before
        apart_after
    ∙ rw ready refl

text_message-attaches :
    (p : Platform) (id : ℕ) (token : Text) (value : Json) (a : Attachment) (w : World)
    → as_string (get (codes "type") value) ≡ some (codes "attach")
    → as_string (get (codes "token") value) ≡ some token
    → a.attached ≡ false
    → on_text p id a (some value) w ≡ attach_token p id token value w
unfolding on_text attach
text_message-attaches p id token value a w typed tokened fresh =
    rw (on_text, typed, fresh, attach, same_refl (codes "attach"), tokened) refl

text_message-reaches :
    (p : Platform) (message : Text) (value : Json) (a : Attachment) (s : BridgeSocket) (w : World)
    → p.parse message ≡ some value
    → find_socket s.id w.sockets ≡ some s
    → s.attachment ≡ some a
    → a.kind ≡ codes "bridge"
    → web_socket_message p s.id (text message) w ≡ on_text p s.id a (some value) w
unfolding web_socket_message
text_message-reaches p message value a s w parsed found attached kind =
    rw⁻¹ parsed (simp (web_socket_message, found, attached, kind, same_refl (codes "bridge")))

-- Let a text message on an open socket that is accepted and not attached parse as an attach
-- message with a token, let the stored record not be a live one with the digest of that token,
-- and let no other socket have this one's identity. Then the socket is sent the attach error
-- bad_token and the close frame 1008 and is closing, and nothing else of the object is changed.
pub message-wrong_token :
    (p : Platform) (message token : Text) (value : Json) (a : Attachment) (w : World)
    (before after : List BridgeSocket) (s : BridgeSocket)
    → p.parse message ≡ some value
    → as_string (get (codes "type") value) ≡ some (codes "attach")
    → as_string (get (codes "token") value) ≡ some token
    → ((r : StoredTunnel) → live w.stored ≡ some r → p.hash token ≢ r.token_hash)
    → w.sockets ≡ before ++ s ∷ after
    → any (λ other. other.id == s.id) before ≡ false
    → any (λ other. other.id == s.id) after ≡ false
    → s.ready_state ≡ open_state
    → s.attachment ≡ some a
    → a.kind ≡ codes "bridge"
    → a.attached ≡ false
    → web_socket_message p s.id (text message) w ≡ record w {
      sockets =
          before
          ++ record s {
            ready_state = closing_state;
            sent =
                (s.sent ++ control (attach_error (codes "bad_token")) ∷ [])
                ++ close_frame 1008 (codes "bad token") ∷ [];
          }
            ∷ after;
    }
message-wrong_token p message token value a w before after s parsed typed tokened wrong there
      apart_before apart_after ready attached kind fresh =
    let found : find_socket s.id w.sockets ≡ some s =
      ap (find_socket s.id) there ∙ find_socket-one before after s apart_before in
    text_message-reaches p message value a s w parsed found attached kind
    ∙ text_message-attaches p s.id token value a w typed tokened fresh
    ∙ attach_token-wrong p s.id token value w wrong
    ∙ ap (λ ss. record w { sockets = ss })
        (refuse-one w (error_code bad_token) (codes "bad token") before after s there apart_before
          apart_after ready)
