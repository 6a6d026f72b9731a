-- ===== src/TunnelObject/Routes.antt =====
-- Which bridge serves which route, in packages/server/src/tunnel-object.ts: the invariant that no
-- two open attached bridges share a route, and the events that cannot break it.
pub mod Messages
pub mod Attaching
pub mod Invariant
use shuvtunnel.Common.{
  ℕ, suc, ◌≡◌, ◌≢◌, ◌<◌, refl, sym, ap, ◌∙◌, List, [], ◌∷◌, ◌++◌, map, Option, none, some, Bool,
  true, false, ◌&&◌, ◌||◌, ◌==◌, if◌then◌else◌, Text, arith, any, All, same, same→eq, same_refl,
  includes, Bool-cases, inl, inr, and-left, and-right,
}
use shuvtunnel.TunnelObject.{
  World, BridgeSocket, ReadyState, open_state, closing_state, is_open, is_attached, routes_of,
  change_socket, send_on, close_on, Sent, send, close,
}
use shuvtunnel.TunnelObject.Untouched.{KeepsBridges}

-- An open bridge that is attached.
abbrev pub serves : BridgeSocket → Bool
serves s = is_open s.ready_state && is_attached s

abbrev pub overlap : List Text → List Text → Bool
overlap rs ts = any (includes rs) ts

abbrev pub Apart : BridgeSocket → BridgeSocket → Type 0
Apart s t =
    (s.id ≢ t.id)
    × (serves s ≡ true → serves t ≡ true → overlap (routes_of s) (routes_of t) ≡ false)

abbrev pub Disjoint : List BridgeSocket → Type 0
Disjoint [] = Unit {0}
Disjoint (s ∷ ss) = All (Apart s) ss × Disjoint ss

-- The sockets are told apart by their ids, the next id is new, and no two serve one route.
pub record RoutesInv (w : World) : Type 0 where
  pub disjoint : Disjoint w.sockets
  pub below : All (λ s. s.id < w.next_socket) w.sockets

-- `s'` serves at most what `s` serves.
abbrev pub Weakens : BridgeSocket → BridgeSocket → Type 0
Weakens s' s =
    (s'.id ≡ s.id)
    × (serves s' ≡ true → serves s ≡ true)
    × (serves s' ≡ true → routes_of s' ≡ routes_of s)

abbrev pub Weakened : List BridgeSocket → List BridgeSocket → Type 0
Weakened [] [] = Unit {0}
Weakened [] (t ∷ ts) = ⊥
Weakened (s ∷ ss) [] = ⊥
Weakened (s ∷ ss) (t ∷ ts) = Weakens s t × Weakened ss ts

Apart-Weakens : (s' t' s t : BridgeSocket) → Weakens s' s → Weakens t' t → Apart s t → Apart s' t'
Apart-Weakens s' t' s t (i, v, r) (j, u, q) (n, d) =
    (λ e. n (sym i ∙ e ∙ j), λ a b. rw (r a, q b) (d (v a) (u b)))

All-Apart-Weakened :
    (s' s : BridgeSocket) (ts' ts : List BridgeSocket)
    → Weakens s' s
    → Weakened ts' ts
    → All (Apart s) ts
    → All (Apart s') ts'
All-Apart-Weakened s' s [] [] h k a = tt
All-Apart-Weakened s' s [] (t ∷ ts) h k a = absurd k
All-Apart-Weakened s' s (t' ∷ ts') [] h k a = absurd k
All-Apart-Weakened s' s (t' ∷ ts') (t ∷ ts) h k a =
    (Apart-Weakens s' t' s t h k.0 a.0, All-Apart-Weakened s' s ts' ts h k.1 a.1)

Disjoint-Weakened : (ss' ss : List BridgeSocket) → Weakened ss' ss → Disjoint ss → Disjoint ss'
Disjoint-Weakened [] [] k d = tt
Disjoint-Weakened [] (t ∷ ts) k d = absurd k
Disjoint-Weakened (s' ∷ ss') [] k d = absurd k
Disjoint-Weakened (s' ∷ ss') (s ∷ ss) k d =
    (All-Apart-Weakened s' s ss' ss k.0 k.1 d.0, Disjoint-Weakened ss' ss k.1 d.1)

below-Weakened :
    (n : ℕ) (ss' ss : List BridgeSocket)
    → Weakened ss' ss
    → All (λ s. s.id < n) ss
    → All (λ s. s.id < n) ss'
below-Weakened n [] [] k d = tt
below-Weakened n [] (t ∷ ts) k d = absurd k
below-Weakened n (s' ∷ ss') [] k d = absurd k
below-Weakened n (s' ∷ ss') (s ∷ ss) k d = (rw (k.0.0) d.0, below-Weakened n ss' ss k.1 d.1)

-- The bridges of `w` serve at most what those of `v` do.
pub record Quiet (v w : World) : Type 0 where
  pub weakened : Weakened w.sockets v.sockets
  pub next_socket : w.next_socket ≡ v.next_socket

pub RoutesInv-Quiet : (v w : World) → Quiet v w → RoutesInv v → RoutesInv w
RoutesInv-Quiet v w q i = record {
  disjoint = Disjoint-Weakened w.sockets v.sockets q.weakened i.disjoint;
  below = rw q.next_socket (below-Weakened v.next_socket w.sockets v.sockets q.weakened i.below);
}

Weakens-refl : (s : BridgeSocket) → Weakens s s
Weakens-refl s = (refl, λ h. h, λ h. refl)

pub Weakened-refl : (ss : List BridgeSocket) → Weakened ss ss
Weakened-refl [] = tt
Weakened-refl (s ∷ ss) = (Weakens-refl s, Weakened-refl ss)

pub Quiet-refl : (w : World) → Quiet w w
Quiet-refl w = record { weakened = Weakened-refl w.sockets; next_socket = refl }

pub Quiet-KeepsBridges : (v w : World) → KeepsBridges v w → Quiet v w
Quiet-KeepsBridges v w k = record {
  weakened = rw k.sockets (Weakened-refl v.sockets);
  next_socket = k.next_socket;
}

module _ (f : BridgeSocket → BridgeSocket) (weakens : (s : BridgeSocket) → Weakens (f s) s) where
  pub map-Weakened : (ss : List BridgeSocket) → Weakened (map f ss) ss
  map-Weakened [] = tt
  map-Weakened (s ∷ ss) = (weakens s, map-Weakened ss)

  pub change_socket-Weakened :
      (id : ℕ) (ss : List BridgeSocket) → Weakened (change_socket id f ss) ss
  unfolding change_socket
  change_socket-Weakened id [] = tt
  change_socket-Weakened id (s ∷ ss) = elim (Bool-cases (s.id == id)) [
    | inl hit ↦ rw hit (weakens s, change_socket-Weakened id ss)
    | inr miss ↦ rw miss (Weakens-refl s, change_socket-Weakened id ss)
  ]

pub close_on-Weakens :
    (code : ℕ) (reason : Text) (s : BridgeSocket) → Weakens (close_on code reason s) s
close_on-Weakens code reason s = ground arith

pub send-Quiet :
    (v w : World) (id : ℕ) (m : Sent)
    → w.sockets ≡ v.sockets
    → w.next_socket ≡ v.next_socket
    → Quiet v (send w id m)
send-Quiet v w id m e n = record {
  weakened =
      rw e (change_socket-Weakened (send_on m) (λ s. (refl, λ h. h, λ h. refl)) id v.sockets);
  next_socket = n;
}

pub close-Quiet : (v : World) (id code : ℕ) (reason : Text) → Quiet v (close v id code reason)
close-Quiet v id code reason = record {
  weakened =
      change_socket-Weakened (close_on code reason) (close_on-Weakens code reason) id v.sockets;
  next_socket = refl;
}

Weakens-trans : (r s t : BridgeSocket) → Weakens r s → Weakens s t → Weakens r t
Weakens-trans r s t (i, v, a) (j, u, b) = (i ∙ j, λ h. u (v h), λ h. a h ∙ b (v h))

Weakened-trans : (rs ss ts : List BridgeSocket) → Weakened rs ss → Weakened ss ts → Weakened rs ts
Weakened-trans [] [] [] h k = tt
Weakened-trans [] [] (t ∷ ts) h k = k
Weakened-trans [] (s ∷ ss) ts h k = absurd h
Weakened-trans (r ∷ rs) [] ts h k = absurd h
Weakened-trans (r ∷ rs) (s ∷ ss) [] h k = absurd k
Weakened-trans (r ∷ rs) (s ∷ ss) (t ∷ ts) h k =
    (Weakens-trans r s t h.0 k.0, Weakened-trans rs ss ts h.1 k.1)

pub Quiet-trans : (u v w : World) → Quiet u v → Quiet v w → Quiet u w
Quiet-trans u v w p q = record {
  weakened = Weakened-trans w.sockets v.sockets u.sockets q.weakened p.weakened;
  next_socket = q.next_socket ∙ p.next_socket;
}
