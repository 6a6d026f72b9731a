-- ===== src/Client/Provision/Connecting.antt =====
-- `connect` of packages/client/src/effect/client.ts, up to the wait for the tunnel to be ready.
use shuvtunnel.Common.{ℕ, ◌≡◌, ◌⊎◌, inl, inr, refl, ◌++◌, Option, none, some, Text, codes, arith}
use shuvtunnel.Client.{Identity, Routes, RouteError, invalid_name, invalid_target, validate_routes}
use shuvtunnel.Client.Storage.{Storage}
use shuvtunnel.Client.Running.{Tunnel}
use shuvtunnel.Client.Running.Events.{construct}
use shuvtunnel.Client.Running.Facts.{Consistent}
use shuvtunnel.Client.Running.Invariant.{construct-Consistent}
use shuvtunnel.Client.Provision.{
  Remote, World, Result, done, raises, defect, waits, Action, pure, raise, ◌>>=◌, ensure,
}

-- The messages of `validateRoutes`.
abbrev pub route_message : RouteError → Text
route_message (invalid_name name) = codes "Invalid route name '" ++ (name ++ codes "'")
route_message (invalid_target target name) =
    codes "Invalid target '"
    ++ (target ++ (codes "' for route '" ++ (name ++ codes "': use host:port")))

module _ {S : Type 0} (storage : Storage S) (remote : Remote) where
  abbrev start : Routes → Identity → Action S Tunnel
  start routes i = elim (construct i routes) [ inl t ↦ pure t | inr e ↦ raise (route_message e) ]

  unfoldable pub connect : ℕ → Text → Routes → Action S Tunnel
  connect fuel profile routes = elim (validate_routes routes) [
    | some e ↦ raise (route_message e)
    | none ↦ do i ← ensure storage remote fuel profile; start routes i
  ]

  start-construct :
      (routes : Routes) (i : Identity) (w : World S) (t : Tunnel)
      → (start routes i w).0 ≡ done t
      → construct i routes ≡ inl t
  start-construct routes i w t h = started (construct i routes) refl
    where
      started : (c : Tunnel ⊎ RouteError) → construct i routes ≡ c → construct i routes ≡ inl t
      started (inl u) e = ground (arith, e, h)
      started (inr f) e = ground (arith, e, h)

  connected :
      (fuel : ℕ) (profile : Text) (routes : Routes) (w : World S) (t : Tunnel)
      → (connect fuel profile routes w).0 ≡ done t
      → (i : Identity) × ((ensure storage remote fuel profile w).0 ≡ done i)
        × (construct i routes ≡ inl t)
  unfolding connect
  connected fuel profile routes w t h =
      by_cases (validate_routes routes) refl (ensure storage remote fuel profile w).0 refl
    where
      by_cases :
          (v : Option RouteError)
          → validate_routes routes ≡ v
          → (r : Result Identity) → (ensure storage remote fuel profile w).0 ≡ r
          → (i : Identity) × ((ensure storage remote fuel profile w).0 ≡ done i)
            × (construct i routes ≡ inl t)
      by_cases none e (done i) k = (
        i,
        k,
        start-construct routes i (ensure storage remote fuel profile w).1 t
            (ground (arith, h, e, k)),
      )
      by_cases none e (raises f) k = ground (arith, h, e, k)
      by_cases none e defect k = ground (arith, h, e, k)
      by_cases none e waits k = ground (arith, h, e, k)
      by_cases (some f) e r k = ground (arith, h, e)

  pub connect-Consistent :
      (fuel : ℕ) (profile : Text) (routes : Routes) (w : World S) (t : Tunnel)
      → (connect fuel profile routes w).0 ≡ done t
      → Consistent t
  connect-Consistent fuel profile routes w t h =
      let (i, e, c) = connected fuel profile routes w t h in construct-Consistent i routes t c
