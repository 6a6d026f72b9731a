-- ===== src/TunnelObject/Routes/Attaching.antt =====
-- An attach that meets no conflict keeps the routes of open bridges apart.
use shuvtunnel.Common.{
  ℕ, ◌≡◌, ◌≢◌, ◌<◌, refl, sym, ap, ◌∙◌, List, [], ◌∷◌, ◌++◌, some, true, false, ◌||◌, ◌==◌, Text,
  arith, All, same_comm, includes, Bool-cases, inl, inr, codes, ==_iff,
}
use shuvtunnel.Json.{Number}
use shuvtunnel.Store.{StoredTunnel, online}
use shuvtunnel.Protocol.{attached, heartbeat_ms, idle_timeout_ms}
use shuvtunnel.TunnelObject.{World, BridgeSocket, routes_of, change_socket, control, send, save}
use shuvtunnel.TunnelObject.Bridge.Attach.{
  Platform, takes_route, has_conflict, attachment_for, set_attachment, commit_attach,
}
use shuvtunnel.TunnelObject.Untouched.{on_attached-KeepsBridges}
use shuvtunnel.TunnelObject.Routes.{
  serves, overlap, Apart, Disjoint, RoutesInv, Quiet-KeepsBridges, RoutesInv-Quiet, send-Quiet,
}

overlap-cons :
    (r : Text) (rs ts : List Text) → overlap (r ∷ rs) ts ≡ (includes ts r || overlap rs ts)
unfolding includes
overlap-cons r rs [] = refl
overlap-cons r rs (t ∷ ts) = ground (arith, same_comm r t, overlap-cons r rs ts)

overlap-nil : (ts : List Text) → overlap [] ts ≡ false
unfolding includes
overlap-nil [] = refl
overlap-nil (t ∷ ts) = overlap-nil ts

overlap_comm : (rs ts : List Text) → overlap rs ts ≡ overlap ts rs
overlap_comm [] ts = overlap-nil ts
overlap_comm (r ∷ rs) ts = overlap-cons r rs ts ∙ ap (λ b. includes ts r || b) (overlap_comm rs ts)

-- With no conflict, the new routes are apart from those of every other open attached socket.
apart_of_conflict :
    (id : ℕ) (requested : List Text) (s : BridgeSocket)
    → takes_route id requested s ≡ false
    → s.id ≢ id
    → serves s ≡ true
    → overlap requested (routes_of s) ≡ false
apart_of_conflict id requested s h n v = ground (arith, ==_iff s.id id)

module _ (id : ℕ) (session : Text) (requested : List Text) where
  attach_socket : BridgeSocket → BridgeSocket
  attach_socket = set_attachment (attachment_for session requested)

  Apart-attached :
      (s t : BridgeSocket)
      → s.id ≡ id
      → s.id ≢ t.id
      → takes_route id requested t ≡ false
      → Apart (attach_socket s) t
  unfolding attach_socket
  Apart-attached s t e n h = (n, λ _ v. apart_of_conflict id requested t h (λ k. n (e ∙ sym k)) v)

  Apart-other :
      (s t : BridgeSocket)
      → t.id ≡ id
      → s.id ≢ t.id
      → takes_route id requested s ≡ false
      → Apart s (attach_socket t)
  unfolding attach_socket
  Apart-other s t e n h = (
    n,
    λ v _.
        overlap_comm (routes_of s) requested
        ∙ apart_of_conflict id requested s h (λ k. n (k ∙ sym e)) v,
  )

  attach-head :
      (s : BridgeSocket) (ss : List BridgeSocket)
      → s.id ≡ id
      → All (Apart s) ss
      → has_conflict id requested ss ≡ false
      → All (Apart (attach_socket s)) (change_socket id attach_socket ss)
  unfolding change_socket has_conflict
  attach-head s [] e a h = tt
  attach-head s (t ∷ ts) e a h = elim (Bool-cases (t.id == id)) [
    | inl hit ↦ absurd (a.0.0 (e ∙ sym ((==_iff t.id id).0 hit)))
    | inr miss ↦
        rw miss (Apart-attached s t e a.0.0 (ground arith), attach-head s ts e a.1 (ground arith))
  ]

  attach-tail :
      (s : BridgeSocket) (ss : List BridgeSocket)
      → takes_route id requested s ≡ false
      → All (Apart s) ss
      → All (Apart s) (change_socket id attach_socket ss)
  unfolding change_socket
  attach-tail s [] h a = tt
  attach-tail s (t ∷ ts) h a = elim (Bool-cases (t.id == id)) [
    | inl hit ↦ rw hit (Apart-other s t ((==_iff t.id id).0 hit) a.0.0 h, attach-tail s ts h a.1)
    | inr miss ↦ rw miss (a.0, attach-tail s ts h a.1)
  ]

  Disjoint-attach :
      (ss : List BridgeSocket)
      → Disjoint ss
      → has_conflict id requested ss ≡ false
      → Disjoint (change_socket id attach_socket ss)
  unfolding change_socket has_conflict
  Disjoint-attach [] d h = tt
  Disjoint-attach (s ∷ ss) d h = elim (Bool-cases (s.id == id)) [
    | inl hit ↦ rw hit (
      attach-head s ss ((==_iff s.id id).0 hit) d.0 (ground arith),
      Disjoint-attach ss d.1 (ground arith),
    )
    | inr miss ↦
        rw miss (attach-tail s ss (ground arith) d.0, Disjoint-attach ss d.1 (ground arith))
  ]

  below-attach :
      (n : ℕ) (ss : List BridgeSocket)
      → All (λ s. s.id < n) ss
      → All (λ s. s.id < n) (change_socket id attach_socket ss)
  unfolding change_socket attach_socket
  below-attach n [] b = tt
  below-attach n (s ∷ ss) b = elim (Bool-cases (s.id == id)) [
    | inl hit ↦ rw hit (b.0, below-attach n ss b.1)
    | inr miss ↦ rw miss (b.0, below-attach n ss b.1)
  ]

pub commit_attach-RoutesInv :
    (p : Platform) (id : ℕ) (r : StoredTunnel) (routes : List Text) (w : World)
    → has_conflict id routes w.sockets ≡ false
    → RoutesInv w
    → RoutesInv (commit_attach p id r routes w)
unfolding commit_attach attach_socket
commit_attach-RoutesInv p id r routes w free i =
    RoutesInv-Quiet sent _
      (Quiet-KeepsBridges sent _
        (on_attached-KeepsBridges p.now p.renewal_uuid p.create_fails connected sent))
      (RoutesInv-Quiet changed sent (send-Quiet changed saved id _ refl refl) (record {
        disjoint = Disjoint-attach id session routes w.sockets i.disjoint free;
        below = below-attach id session routes w.next_socket w.sockets i.below;
      }))
  where
    session : Text
    session = codes "sess_" ++ p.uuid

    connected : StoredTunnel
    connected = record r { state = online; last_connected_at = some p.now }

    changed : World
    changed = record w {
      sockets = change_socket id (set_attachment (attachment_for session routes)) w.sockets;
    }

    saved : World
    saved = save changed connected

    sent : World
    sent =
        send saved id
          (control (attached session routes (Number.nat heartbeat_ms) (Number.nat idle_timeout_ms)))
