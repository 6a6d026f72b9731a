-- ===== src/TunnelObject/Channels.antt =====
-- Which channels a bridge's messages reach, in packages/server/src/tunnel-object.ts.
use shuvtunnel.Common.{
  ℕ, ◌≡◌, ◌≢◌, refl, sym, ap, ◌∙◌, List, [], ◌∷◌, ◌++◌, Option, none, some, true, Text, arith,
  Bool-cases, inl, inr, ==_iff, ==_refl, same_refl, codes, ◌<◌, ◌^◌,
}
use shuvtunnel.Frame.{Bytes, build_data_frame}
use shuvtunnel.Frame.RoundTrip.{parse-build}
use shuvtunnel.Json.{Json, Number}
use shuvtunnel.Store.{StoredTunnel}
use shuvtunnel.TunnelObject.{
  World, Attachment, Channel, Outcome, BridgeSocket, find_socket, find_channel, remove_channel,
  finish_channel,
}
use shuvtunnel.TunnelObject.Untouched.{on_attached-KeepsBridges}
use shuvtunnel.TunnelObject.Bridge.Attach.{
  Platform, attach, attach_token, attach_routes, commit_attach,
}
use shuvtunnel.TunnelObject.Bridge.{
  is_on_bridge, write_channel, on_data, finish_on_bridge, on_ping, on_control, on_text, Message,
  binary, web_socket_message,
}

-- The channels of other bridges are as they were.
abbrev pub KeepsOthers : ℕ → List (ℕ × Channel) → List (ℕ × Channel) → Type 0
KeepsOthers id before after =
    (conn : ℕ) (c : Channel)
    → find_channel conn before ≡ some c
    → c.bridge ≢ id
    → find_channel conn after ≡ some c

find-write_other :
    (conn other : ℕ) (payload : Bytes) (channels : List (ℕ × Channel))
    → other ≢ conn
    → find_channel other (write_channel conn payload channels) ≡ find_channel other channels
unfolding find_channel write_channel
find-write_other conn other payload [] n = refl
find-write_other conn other payload ((k, c) ∷ rest) n =
    ground (arith, find-write_other conn other payload rest n)

find-remove_other :
    (conn other : ℕ) (channels : List (ℕ × Channel))
    → other ≢ conn
    → find_channel other (remove_channel conn channels) ≡ find_channel other channels
unfolding find_channel remove_channel
find-remove_other conn other [] n = refl
find-remove_other conn other ((k, c) ∷ rest) n = ground (arith, find-remove_other conn other rest n)

-- A number whose channel is on this bridge is not that of a channel on another one.
other_number :
    (id conn other : ℕ) (c : Channel) (channels : List (ℕ × Channel))
    → is_on_bridge id (find_channel conn channels) ≡ true
    → find_channel other channels ≡ some c
    → c.bridge ≢ id
    → other ≢ conn
other_number id conn other c channels own found foreign e =
    let same_found : find_channel conn channels ≡ some c =
      ap (λ n. find_channel n channels) (sym e) ∙ found in
    ground (arith, ==_iff c.bridge id)

on_data-KeepsOthers :
    (id : ℕ) (a : Attachment) (bytes : Bytes) (w : World)
    → KeepsOthers id w.channels (on_data id a bytes w).channels
unfolding on_data
on_data-KeepsOthers id a bytes w conn c found foreign =
    grind (arith, find-write_other, other_number id)

finish_channel-KeepsOthers :
    (id conn : ℕ) (o : Outcome) (w : World)
    → is_on_bridge id (find_channel conn w.channels) ≡ true
    → KeepsOthers id w.channels (finish_channel w conn o).channels
unfolding finish_channel
finish_channel-KeepsOthers id conn o w own other c found foreign = ground (
  arith,
  find-remove_other conn other w.channels
      (other_number id conn other c w.channels own found foreign),
)

finish_on_bridge-KeepsOthers :
    (id : ℕ) (conn : Option ℕ) (o : Outcome) (w : World)
    → KeepsOthers id w.channels (finish_on_bridge id conn o w).channels
unfolding finish_on_bridge
finish_on_bridge-KeepsOthers id none o w other c found foreign = found
finish_on_bridge-KeepsOthers id (some conn) o w other c found foreign =
    elim (Bool-cases (is_on_bridge id (find_channel conn w.channels))) [
      | inl own ↦ rw own (finish_channel-KeepsOthers id conn o w own other c found foreign)
      | inr not_own ↦ rw not_own found
    ]

on_ping-channels :
    (id : ℕ) (time : Option Number) (w : World) → (on_ping id time w).channels ≡ w.channels
unfolding on_ping
on_ping-channels id none w = refl
on_ping-channels id (some time) w = refl

on_control-KeepsOthers :
    (print : Json → Text) (id : ℕ) (type : Text) (value : Json) (w : World)
    → KeepsOthers id w.channels (on_control print id type value w).channels
unfolding on_control
on_control-KeepsOthers print id type value w other c found foreign =
    grind (arith, on_ping-channels id, finish_on_bridge-KeepsOthers id)

commit_attach-channels :
    (p : Platform) (id : ℕ) (r : StoredTunnel) (routes : List Text) (w : World)
    → (commit_attach p id r routes w).channels ≡ w.channels
unfolding commit_attach
commit_attach-channels p id r routes w =
    (on_attached-KeepsBridges p.now p.renewal_uuid p.create_fails _ _).channels

attach_routes-channels :
    (p : Platform) (id : ℕ) (r : StoredTunnel) (routes : List Text) (w : World)
    → (attach_routes p id r routes w).channels ≡ w.channels
unfolding attach_routes
attach_routes-channels p id r routes w = ground (arith, commit_attach-channels p id r routes w)

attach-channels :
    (p : Platform) (id : ℕ) (type : Text) (value : Json) (w : World)
    → (attach p id type value w).channels ≡ w.channels
unfolding attach attach_token
attach-channels p id type value w = grind (arith, attach_routes-channels p id)

-- If the channel of a connection belongs to another bridge than the one that sends a message,
-- then it is the same after that message, whatever the message is.
pub message_keeps_others :
    (p : Platform) (id conn : ℕ) (c : Channel) (message : Message) (w : World)
    → find_channel conn w.channels ≡ some c
    → c.bridge ≢ id
    → find_channel conn (web_socket_message p id message w).channels ≡ some c
unfolding web_socket_message on_text
message_keeps_others p id conn c message w found foreign =
    grind (arith, attach-channels p id, on_control-KeepsOthers, on_data-KeepsOthers)

find-write :
    (conn : ℕ) (payload : Bytes) (c : Channel) (channels : List (ℕ × Channel))
    → find_channel conn channels ≡ some c
    → find_channel conn (write_channel conn payload channels)
      ≡ some (record c { written = c.written ++ payload ∷ [] })
unfolding find_channel write_channel
find-write conn payload c [] found = cc
find-write conn payload c ((k, d) ∷ rest) found = ground (arith, find-write conn payload c rest)

on_data-delivers :
    (id conn : ℕ) (a : Attachment) (payload : Bytes) (c : Channel) (w : World)
    → a.attached ≡ true
    → conn < 2 ^ 32
    → find_channel conn w.channels ≡ some c
    → c.bridge ≡ id
    → find_channel conn (on_data id a (build_data_frame conn payload) w).channels
      ≡ some (record c { written = c.written ++ payload ∷ [] })
unfolding on_data
on_data-delivers id conn a payload c w on small found mine =
    let own : is_on_bridge id (find_channel conn w.channels) ≡ true =
      rw (found, mine) (==_refl id) in
    rw (on, parse-build conn payload small, own) (find-write conn payload c w.channels found)

-- Let a bridge be attached, and let it have the channel of a connection below 2^32. When it sends
-- the data frame of that connection with some payload, the channel stays and the payload is
-- written to it behind what was written before.
pub message_delivers :
    (p : Platform) (id conn : ℕ) (s : BridgeSocket) (a : Attachment) (payload : Bytes) (c : Channel)
    (w : World)
    → find_socket id w.sockets ≡ some s
    → s.attachment ≡ some a
    → a.kind ≡ codes "bridge"
    → a.attached ≡ true
    → conn < 2 ^ 32
    → find_channel conn w.channels ≡ some c
    → c.bridge ≡ id
    → find_channel conn
        (web_socket_message p id (binary (build_data_frame conn payload)) w).channels
      ≡ some (record c { written = c.written ++ payload ∷ [] })
unfolding web_socket_message on_data
message_delivers p id conn s a payload c w socket attached_as kind on small found mine =
    let written : find_channel conn (on_data id a (build_data_frame conn payload) w).channels
        ≡ some (record c { written = c.written ++ payload ∷ [] }) =
      on_data-delivers id conn a payload c w on small found mine in
    rw (socket, web_socket_message, attached_as, kind, same_refl (codes "bridge")) written
