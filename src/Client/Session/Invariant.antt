-- ===== src/Client/Session/Invariant.antt =====
-- The map of a session and its channel objects agree, packages/client/src/effect/tunnel.ts.
use shuvtunnel.Common.{
  ℕ, ◌<◌, ◌≡◌, inl, inr, refl, sym, ap, ◌∙◌, subst, List, [], ◌∷◌, ◌++◌, Option, none, some, Bool,
  true, false, if◌then◌else◌, Text, codes, length, arith, Bool-cases,
}
use shuvtunnel.Frame.{Bytes}
use shuvtunnel.Names.{Target}
use shuvtunnel.Protocol.{ClientControlMessage}
use shuvtunnel.Client.{SessionEnd, connection_opened, connection_closed}
use shuvtunnel.Client.Session.Table.{
  find, put, drop_key, find-put, find-drop_key, Distinct, put-Distinct, drop_key-Distinct,
}
use shuvtunnel.Client.Session.{
  Hook, on_attach, on_count, on_event, Session, set_object, is_open, send_control, closed,
  finish_channel, destroy, destroy_all, run_waiters, finish, end_session,
}
use shuvtunnel.Client.Session.Channels.{push_inbound, accept}

-- The number of connections that the hooks reported last.
abbrev pub reported : ℕ → List Hook → ℕ
reported n [] = n
reported n (on_count m ∷ hs) = reported m hs
reported n (on_attach s ∷ hs) = reported n hs
reported n (on_event e ∷ hs) = reported n hs

pub reported-append :
    (n : ℕ) (hs gs : List Hook) → reported n (hs ++ gs) ≡ reported (reported n hs) gs
reported-append n [] gs = refl
reported-append n (on_count m ∷ hs) gs = reported-append m hs gs
reported-append n (on_attach s ∷ hs) gs = reported-append n hs gs
reported-append n (on_event e ∷ hs) gs = reported-append n hs gs

pub record Consistent (s : Session) : Type 0 where
  pub distinct : Distinct s.channels
  pub live :
      (k id : ℕ)
      → find k s.channels ≡ some id
      → ((s.objects id).is_done ≡ false) × ((s.objects id).conn ≡ k) × (id < s.next_object)
  pub counted : reported 0 s.hooks ≡ length s.channels

marked : ℕ → Session → Session
marked id s = set_object id (record (s.objects id) { is_done = true }) s

finish_channel-live :
    (id : ℕ) (error : Option Text) (s : Session) (k j : ℕ)
    → Consistent s
    → find k (finish_channel id error s).channels ≡ some j
    → (((finish_channel id error s).objects j).is_done ≡ false)
      × (((finish_channel id error s).objects j).conn ≡ k)
      × (j < (finish_channel id error s).next_object)
unfolding finish_channel closed
finish_channel-live id error s k j c h =
    ground (arith, h, c.live k j, find-drop_key k (s.objects id).conn s.channels)

finish_channel-Distinct :
    (id : ℕ) (error : Option Text) (s : Session)
    → Distinct s.channels
    → Distinct (finish_channel id error s).channels
unfolding finish_channel closed
finish_channel-Distinct id error s d =
    ground (arith, d, drop_key-Distinct (s.objects id).conn s.channels d)

finish_channel-counted :
    (id : ℕ) (error : Option Text) (s : Session)
    → reported 0 s.hooks ≡ length s.channels
    → reported 0 (finish_channel id error s).hooks ≡ length (finish_channel id error s).channels
unfolding finish_channel closed
finish_channel-counted id error s h =
    let c = s.objects id in
    let gone = drop_key c.conn s.channels in
    ground (
      arith,
      h,
      reported-append 0 s.hooks
          (on_count (length gone) ∷ on_event (connection_closed c.conn c.route error) ∷ []),
    )

pub finish_channel-Consistent :
    (id : ℕ) (error : Option Text) (s : Session)
    → Consistent s
    → Consistent (finish_channel id error s)
finish_channel-Consistent id error s c = record {
  distinct = finish_channel-Distinct id error s c.distinct;
  live = λ k j. finish_channel-live id error s k j c;
  counted = finish_channel-counted id error s c.counted;
}

-- What an operation that leaves the table alone keeps.
record Alike (s u : Session) : Type 0 where
  channels_same : u.channels ≡ s.channels
  done_same : (id : ℕ) → (u.objects id).is_done ≡ (s.objects id).is_done
  conn_same : (id : ℕ) → (u.objects id).conn ≡ (s.objects id).conn
  next_same : u.next_object ≡ s.next_object
  count_same : reported 0 u.hooks ≡ reported 0 s.hooks

Alike-live :
    (s u : Session) (k id : ℕ)
    → Alike s u
    → Consistent s
    → find k u.channels ≡ some id
    → ((u.objects id).is_done ≡ false) × ((u.objects id).conn ≡ k) × (id < u.next_object)
Alike-live s u k id a c h =
    let found = c.live k id (ap (λ (m : List (ℕ × ℕ)). find k m) (sym a.channels_same) ∙ h) in
    (a.done_same id ∙ found.0, a.conn_same id ∙ found.1, omega (arith, found.2, a.next_same))

Alike-Consistent : (s u : Session) → Alike s u → Consistent s → Consistent u
Alike-Consistent s u a c = record {
  distinct = subst Distinct (sym a.channels_same) c.distinct;
  live = λ k id. Alike-live s u k id a c;
  counted = a.count_same ∙ c.counted ∙ ap length (sym a.channels_same);
}

send_control-Alike : (m : ClientControlMessage) (s : Session) → Alike s (send_control m s)
send_control-Alike m s = elim (Bool-cases (is_open s.socket)) [
  | inl h ↦ rw h (record {
    channels_same = refl;
    done_same = λ id. refl;
    conn_same = λ id. refl;
    next_same = refl;
    count_same = refl;
  })
  | inr h ↦ rw h (record {
    channels_same = refl;
    done_same = λ id. refl;
    conn_same = λ id. refl;
    next_same = refl;
    count_same = refl;
  })
]

pub send_control-Consistent :
    (m : ClientControlMessage) (s : Session) → Consistent s → Consistent (send_control m s)
send_control-Consistent m s c = Alike-Consistent s (send_control m s) (send_control-Alike m s) c

-- The session once `destroy` has told the server, or not.
unfoldable pub told : ℕ → Text → Bool → Session → Session
told id code notify s =
    if notify then send_control (ClientControlMessage.reset (s.objects id).conn code) s else s

told-Consistent :
    (id : ℕ) (code : Text) (notify : Bool) (s : Session)
    → Consistent s
    → Consistent (told id code notify s)
unfolding told
told-Consistent id code true s c =
    send_control-Consistent (ClientControlMessage.reset (s.objects id).conn code) s c
told-Consistent id code false s c = c

pub destroy-done :
    (id : ℕ) (code : Text) (notify : Bool) (error : Text) (s : Session)
    → (s.objects id).is_done ≡ true
    → destroy id code notify error s ≡ s
unfolding destroy
destroy-done id code notify error s h = rw h refl

pub destroy-finishes :
    (id : ℕ) (code : Text) (notify : Bool) (error : Text) (s : Session)
    → (s.objects id).is_done ≡ false
    → destroy id code notify error s ≡ finish_channel id (some error) (told id code notify s)
unfolding destroy told
destroy-finishes id code notify error s h = rw h refl

pub destroy-Consistent :
    (id : ℕ) (code : Text) (notify : Bool) (error : Text) (s : Session)
    → Consistent s
    → Consistent (destroy id code notify error s)
destroy-Consistent id code notify error s c = elim (Bool-cases (s.objects id).is_done) [
  | inl h ↦ subst Consistent (sym (destroy-done id code notify error s h)) c
  | inr h ↦ subst Consistent (sym (destroy-finishes id code notify error s h)) (
      finish_channel-Consistent id (some error) (told id code notify s)
        (told-Consistent id code notify s c))
]

pub destroy_all-Consistent :
    (es : List (ℕ × ℕ)) (s : Session) → Consistent s → Consistent (destroy_all es s)
unfolding destroy_all
destroy_all-Consistent [] s c = c
destroy_all-Consistent ((conn, id) ∷ es) s c =
    let reason = codes "bridge disconnected" in
    destroy_all-Consistent es (destroy id reason true reason s)
      (destroy-Consistent id reason true reason s c)

accept-live :
    (conn : ℕ) (route peer : Text) (target : Target) (s : Session) (k j : ℕ)
    → Consistent s
    → find k (accept conn route peer target s).channels ≡ some j
    → (((accept conn route peer target s).objects j).is_done ≡ false)
      × (((accept conn route peer target s).objects j).conn ≡ k)
      × (j < (accept conn route peer target s).next_object)
unfolding accept
accept-live conn route peer target s k j c h =
    ground (arith, h, c.live k j, find-put k conn s.next_object s.channels)

pub accept-Consistent :
    (conn : ℕ) (route peer : Text) (target : Target) (s : Session)
    → Consistent s
    → Consistent (accept conn route peer target s)
unfolding accept
accept-Consistent conn route peer target s c =
    let more = put conn s.next_object s.channels in
    record {
      distinct = put-Distinct conn s.next_object s.channels c.distinct;
      live = λ k j. accept-live conn route peer target s k j c;
      counted =
          reported-append 0 s.hooks
            (on_count (length more) ∷ on_event (connection_opened conn route peer) ∷ []);
    }

push_inbound-Alike :
    (id : ℕ) (chunk : Option Bytes) (s : Session) → Alike s (push_inbound id chunk s)
unfolding push_inbound
push_inbound-Alike id chunk s = record {
  channels_same = refl;
  done_same = λ j. ground arith;
  conn_same = λ j. ground arith;
  next_same = refl;
  count_same = refl;
}

pub push_inbound-Consistent :
    (id : ℕ) (chunk : Option Bytes) (s : Session)
    → Consistent s
    → Consistent (push_inbound id chunk s)
push_inbound-Consistent id chunk s c =
    Alike-Consistent s (push_inbound id chunk s) (push_inbound-Alike id chunk s) c

finish-Consistent : (e : SessionEnd) (s : Session) → Consistent s → Consistent (finish e s)
unfolding finish
finish-Consistent e s c =
    let woken =
      run_waiters (record s {
        ended = some e;
        attach_timer = false;
        heartbeat = none;
        drain_timer = false;
      }) in
    let start : Consistent woken = record {
      distinct = c.distinct;
      live = c.live;
      counted = c.counted;
    } in
    let rest = destroy_all-Consistent s.channels woken start in
    record { distinct = rest.distinct; live = rest.live; counted = rest.counted }

pub end_session-Consistent :
    (e : SessionEnd) (s : Session) → Consistent s → Consistent (end_session e s)
unfolding end_session
end_session-Consistent e s c =
    elim (s.ended)
      as (λ (o : Option SessionEnd). Consistent (elim o [ none ↦ finish e s | some first ↦ s ])) [
        | none ↦ finish-Consistent e s c
        | some first ↦ c
      ]
