-- ===== src/Client/Session/Emptying.antt =====
-- Destroying all channels of a session: the map, the reports and the resets that are sent,
-- packages/client/src/effect/tunnel.ts.
use shuvtunnel.Common.{
  sym, append_assoc, append-nil, inl, inr, Bool-cases, ℕ, ◌+◌, ◌≡◌, refl, ap, ◌∙◌, subst, List, [],
  ◌∷◌, ◌++◌, Option, none, some, true, false, map, Text, codes, length, arith,
}
use shuvtunnel.Protocol.{ClientControlMessage}
use shuvtunnel.Client.Session.Table.{find, drop_key, Distinct, drop_key-absent}
use shuvtunnel.Client.Session.{
  Hook, Session, Channel, is_open, closed, finish_channel, destroy, destroy_all, Sent, control,
}
use shuvtunnel.Client.Session.Invariant.{Consistent, told, destroy-finishes, destroy-Consistent}
use shuvtunnel.Client.Session.Closings.{closings, closings-closed}
use shuvtunnel.Client.Session.Kept.{destroy-Kept}

told-keeps :
    (id : ℕ) (code : Text) (s : Session)
    → ((told id code true s).channels ≡ s.channels)
      × ((told id code true s).objects ≡ s.objects)
      × ((told id code true s).hooks ≡ s.hooks)
      × ((told id code true s).ended ≡ s.ended)
      × ((told id code true s).waiters ≡ s.waiters)
unfolding told
told-keeps id code s = elim (Bool-cases (is_open s.socket)) [
  | inl h ↦ rw h (refl, refl, refl, refl, refl)
  | inr h ↦ rw h (refl, refl, refl, refl, refl)
]

finish_channel-found :
    (id : ℕ) (error : Option Text) (s : Session)
    → (s.objects id).is_done ≡ false
    → find (s.objects id).conn s.channels ≡ some id
    → ((finish_channel id error s).channels ≡ drop_key (s.objects id).conn s.channels)
      × (closings (finish_channel id error s).hooks ≡ closings s.hooks + 1)
      × ((finish_channel id error s).ended ≡ s.ended)
      × ((finish_channel id error s).waiters ≡ s.waiters)
unfolding finish_channel closed
finish_channel-found id error s h k =
    let c = s.objects id in
    ground (
      arith,
      h,
      k,
      closings-closed s.hooks (length (drop_key c.conn s.channels)) c.conn c.route error,
    )

drop_key-head :
    (conn id : ℕ) (rest : List (ℕ × ℕ))
    → find conn rest ≡ none
    → drop_key conn ((conn, id) ∷ rest) ≡ rest
unfolding drop_key
drop_key-head conn id rest h = ground (arith, drop_key-absent conn rest h)

find-head : (conn id : ℕ) (rest : List (ℕ × ℕ)) → find conn ((conn, id) ∷ rest) ≡ some id
unfolding find
find-head conn id rest = ground arith

-- A `reset` for each entry of the map.
abbrev pub resets : List (ℕ × ℕ) → List Sent
resets es =
    map (λ (e : ℕ × ℕ). control (ClientControlMessage.reset e.0 (codes "bridge disconnected"))) es

-- The first channel of the map is destroyed.
head_gone :
    (conn id : ℕ) (rest : List (ℕ × ℕ)) (code error : Text) (s : Session)
    → Consistent s
    → s.channels ≡ (conn, id) ∷ rest
    → ((destroy id code true error s).channels ≡ rest)
      × (closings (destroy id code true error s).hooks ≡ closings s.hooks + 1)
      × ((destroy id code true error s).ended ≡ s.ended)
      × ((destroy id code true error s).waiters ≡ s.waiters)
unfolding find
head_gone conn id rest code error s c h =
    let found : find conn s.channels ≡ some id = rw h (ground arith) in
    let d : Distinct ((conn, id) ∷ rest) = subst Distinct h c.distinct in
    let l = c.live conn id found in
    let t = told id code true s in
    let (channels, objects, hooks, ended, waiters) = told-keeps id code s in
    let live : (t.objects id).is_done ≡ false =
      ap (λ (o : ℕ → Channel). (o id).is_done) objects ∙ l.0 in
    let number : (t.objects id).conn ≡ conn = ap (λ (o : ℕ → Channel). (o id).conn) objects ∙ l.1 in
    let there : find (t.objects id).conn t.channels ≡ some id = rw (number, channels) found in
    let f = finish_channel-found id (some error) t live there in
    rw (destroy-finishes id code true error s l.0) (
      f.0 ∙ rw (number, channels, h) (drop_key-head conn id rest d.0),
      f.1 ∙ ap (λ (hs : List Hook). closings hs + 1) hooks,
      f.2 ∙ ended,
      f.3 ∙ waiters,
    )

pub destroy_all-empties :
    (es : List (ℕ × ℕ)) (s : Session)
    → Consistent s
    → s.channels ≡ es
    → ((destroy_all es s).channels ≡ [])
      × (closings (destroy_all es s).hooks ≡ closings s.hooks + length es)
      × ((destroy_all es s).ended ≡ s.ended)
      × ((destroy_all es s).waiters ≡ s.waiters)
unfolding destroy_all
destroy_all-empties [] s c h = (h, omega arith, refl, refl)
destroy_all-empties ((conn, id) ∷ rest) s c h =
    let reason = codes "bridge disconnected" in
    let u = destroy id reason true reason s in
    let (gone, count, ended, waiters) = head_gone conn id rest reason reason s c h in
    let r = destroy_all-empties rest u (destroy-Consistent id reason true reason s c) gone in
    (r.0, omega (arith, r.1, count), r.2 ∙ ended, r.3 ∙ waiters)

destroy-sent :
    (conn id : ℕ) (code error : Text) (s : Session)
    → (s.objects id).is_done ≡ false
    → (s.objects id).conn ≡ conn
    → is_open s.socket ≡ true
    → (destroy id code true error s).sent
      ≡ s.sent ++ control (ClientControlMessage.reset conn code) ∷ []
unfolding destroy finish_channel closed
destroy-sent conn id code error s live number up = ground (arith, number)

pub destroy_all-sent :
    (es : List (ℕ × ℕ)) (s : Session)
    → Consistent s
    → s.channels ≡ es
    → is_open s.socket ≡ true
    → (destroy_all es s).sent ≡ s.sent ++ resets es
unfolding destroy_all
destroy_all-sent [] s c h up = sym (append-nil s.sent)
destroy_all-sent ((conn, id) ∷ rest) s c h up =
    let reason = codes "bridge disconnected" in
    let u = destroy id reason true reason s in
    let found : find conn s.channels ≡ some id = rw h (find-head conn id rest) in
    let (live, number, old) = c.live conn id found in
    let one = destroy-sent conn id reason reason s live number up in
    let gone = (head_gone conn id rest reason reason s c h).0 in
    let still : is_open u.socket ≡ true =
      ap is_open (destroy-Kept id reason true reason s).socket ∙ up in
    destroy_all-sent rest u (destroy-Consistent id reason true reason s c) gone still
    ∙ ap (λ (sent : List Sent). sent ++ resets rest) one
    ∙ append_assoc s.sent (control (ClientControlMessage.reset conn reason) ∷ []) (resets rest)

destroy-silent :
    (id : ℕ) (code error : Text) (s : Session)
    → is_open s.socket ≡ false
    → (destroy id code true error s).sent ≡ s.sent
unfolding destroy finish_channel closed
destroy-silent id code error s down = ground arith

pub destroy_all-silent :
    (es : List (ℕ × ℕ)) (s : Session) → is_open s.socket ≡ false → (destroy_all es s).sent ≡ s.sent
unfolding destroy_all
destroy_all-silent [] s down = refl
destroy_all-silent ((conn, id) ∷ rest) s down =
    let reason = codes "bridge disconnected" in
    let u = destroy id reason true reason s in
    let still : is_open u.socket ≡ false =
      ap is_open (destroy-Kept id reason true reason s).socket ∙ down in
    destroy_all-silent rest u still ∙ destroy-silent id reason reason s down
