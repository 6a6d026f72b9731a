-- ===== src/Names/Routing.antt =====
-- `routeForSni` of packages/protocol/src/names.ts against the names that a tunnel serves.
use shuvtunnel.Common.{
  ◌≡◌, ◌↔◌, ◌⊎◌, inl, inr, ap, ◌∷◌, ◌++◌, some, true, false, arith, length, Text, lower, same,
  same_refl, same→eq, Bool-cases, ends_with-append, drop_end-append, ends_with→append,
  length-append, same-false,
}
use shuvtunnel.Names.{root_route, is_label, route_for_sni}

-- A hostname under `host` at route `r`.
abbrev pub under : Text → Text → Text
under r host = r ++ b'.' ∷ host

-- What the route of a name says of it: the host itself, or one label in front of it.
abbrev pub Serves : Text → Text → Text → Type 0
Serves name host r =
    ((name ≡ host) × (r ≡ root_route)) ⊎ ((is_label r ≡ true) × (name ≡ under r host))

route_for_sni→Serves :
    (sni hostname r : Text)
    → route_for_sni sni hostname ≡ some r
    → Serves (lower sni) (lower hostname) r
unfolding route_for_sni
route_for_sni→Serves sni hostname r e = elim (Bool-cases (same (lower sni) (lower hostname))) [
  | inl root ↦ inl (same→eq (lower sni) (lower hostname) root, ground arith)
  | inr other ↦
      inr (ground arith, ground (arith, ends_with→append (lower sni) (b'.' ∷ lower hostname)))
]

pub under-ne : (r host : Text) → same (under r host) host ≡ false
under-ne r host =
    same-false (under r host) host (λ e. omega (arith, ap length e, length-append r (b'.' ∷ host)))

Serves→route_for_sni :
    (sni hostname r : Text)
    → Serves (lower sni) (lower hostname) r
    → route_for_sni sni hostname ≡ some r
unfolding route_for_sni
Serves→route_for_sni sni hostname r (inl (e, root)) = rw (e, root, same_refl (lower hostname))
Serves→route_for_sni sni hostname r (inr (label, e)) = rw (
  e,
  under-ne r (lower hostname),
  ends_with-append r (b'.' ∷ lower hostname),
  drop_end-append r (b'.' ∷ lower hostname),
  label,
)

-- `routeForSni` gives a route exactly when the lower-case name is the lower-case hostname and the
-- route is the root, or the route is a label and the name is that label, a dot and the hostname.
pub route_for_sni_iff :
    (sni hostname r : Text)
    → (route_for_sni sni hostname ≡ some r) ↔ Serves (lower sni) (lower hostname) r
route_for_sni_iff sni hostname r =
    (route_for_sni→Serves sni hostname r, Serves→route_for_sni sni hostname r)
