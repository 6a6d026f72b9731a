-- ===== src/Client/Session/Kept.antt =====
-- What closing the channels of a session leaves alone, and that it finishes each of them,
-- packages/client/src/effect/tunnel.ts.
use shuvtunnel.Common.{ℕ, ◌≡◌, refl, ◌∙◌, List, [], ◌∷◌, Bool, true, Text, codes, All, arith}
use shuvtunnel.Client.Session.{Session, closed, finish_channel, destroy, destroy_all}

-- The socket, the end, the waiting callbacks and those that ran, and the timers.
pub record Kept (s u : Session) : Type 0 where
  pub socket : u.socket ≡ s.socket
  pub ended : u.ended ≡ s.ended
  pub waiters : u.waiters ≡ s.waiters
  pub called : u.called ≡ s.called
  pub drain_timer : u.drain_timer ≡ s.drain_timer
  pub heartbeat : u.heartbeat ≡ s.heartbeat
  pub attach_timer : u.attach_timer ≡ s.attach_timer

Kept-trans : (s u v : Session) → Kept s u → Kept u v → Kept s v
Kept-trans s u v p q = record {
  socket = q.socket ∙ p.socket;
  ended = q.ended ∙ p.ended;
  waiters = q.waiters ∙ p.waiters;
  called = q.called ∙ p.called;
  drain_timer = q.drain_timer ∙ p.drain_timer;
  heartbeat = q.heartbeat ∙ p.heartbeat;
  attach_timer = q.attach_timer ∙ p.attach_timer;
}

pub destroy-Kept :
    (id : ℕ) (code : Text) (notify : Bool) (error : Text) (s : Session)
    → Kept s (destroy id code notify error s)
unfolding destroy finish_channel closed
destroy-Kept id code notify error s = ground arith

pub destroy_all-Kept : (es : List (ℕ × ℕ)) (s : Session) → Kept s (destroy_all es s)
unfolding destroy_all
destroy_all-Kept [] s = record {
  socket = refl;
  ended = refl;
  waiters = refl;
  called = refl;
  drain_timer = refl;
  heartbeat = refl;
  attach_timer = refl;
}
destroy_all-Kept ((conn, id) ∷ rest) s =
    let reason = codes "bridge disconnected" in
    let u = destroy id reason true reason s in
    Kept-trans s u (destroy_all rest u) (destroy-Kept id reason true reason s)
      (destroy_all-Kept rest u)

-- A channel that is done stays done, and a destroyed one is.
destroy-done_stays :
    (id j : ℕ) (code : Text) (notify : Bool) (error : Text) (s : Session)
    → (s.objects j).is_done ≡ true
    → ((destroy id code notify error s).objects j).is_done ≡ true
unfolding destroy finish_channel closed
destroy-done_stays id j code notify error s h = ground (arith, h)

destroy-is_done :
    (id : ℕ) (code : Text) (notify : Bool) (error : Text) (s : Session)
    → ((destroy id code notify error s).objects id).is_done ≡ true
unfolding destroy finish_channel closed
destroy-is_done id code notify error s = ground arith

destroy_all-done_stays :
    (es : List (ℕ × ℕ)) (j : ℕ) (s : Session)
    → (s.objects j).is_done ≡ true
    → ((destroy_all es s).objects j).is_done ≡ true
unfolding destroy_all
destroy_all-done_stays [] j s h = h
destroy_all-done_stays ((conn, id) ∷ rest) j s h =
    let reason = codes "bridge disconnected" in
    destroy_all-done_stays rest j (destroy id reason true reason s)
      (destroy-done_stays id j reason true reason s h)

-- Every channel of the list is done in the end.
abbrev pub AllDone : List (ℕ × ℕ) → Session → Type 0
AllDone es u = All (λ (e : ℕ × ℕ). (u.objects e.1).is_done ≡ true) es

pub destroy_all-AllDone : (es : List (ℕ × ℕ)) (s : Session) → AllDone es (destroy_all es s)
unfolding destroy_all
destroy_all-AllDone [] s = tt
destroy_all-AllDone ((conn, id) ∷ rest) s =
    let reason = codes "bridge disconnected" in
    let u = destroy id reason true reason s in
    (
      destroy_all-done_stays rest id u (destroy-is_done id reason true reason s),
      destroy_all-AllDone rest u,
    )
