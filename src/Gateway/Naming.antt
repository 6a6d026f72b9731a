-- ===== src/Gateway/Naming.antt =====
-- `tunnelIDFromHostname` of packages/server/src/index.ts against the names that a tunnel's object and
-- its client know.
use shuvtunnel.Common.{
  ℕ, ◌≡◌, ◌≢◌, ◌↔◌, ◌⊎◌, inl, inr, refl, sym, ap, ◌∙◌, List, [], ◌∷◌, ◌++◌, some, true, false,
  arith, length, Text, lower, has_unit, split, ends_with, drop_end, ends_with-append,
  drop_end-append, ends_with→append, split-no_unit, split-append, split-cons, Bool-cases,
  append_assoc, ◌==◌, lower-append,
}
use shuvtunnel.Names.{root_route, is_label, route_for_sni}
use shuvtunnel.Names.Routing.{under, route_for_sni_iff}
use shuvtunnel.Names.Label.{lower-label, has_unit-label, label-ne-nil}
use shuvtunnel.TunnelObject.Relay.{route_of_sni, is_bad_route}
use shuvtunnel.TunnelObject.Relay.Connect.{Called, Called→route_of_sni}
use shuvtunnel.Gateway.{tunnel_id_from_hostname, last_label}

-- The name `id.domain`, or a part without a dot in front of it.
abbrev pub Belongs : Text → Text → Text → Type 0
Belongs name domain id =
    (id ≢ [])
    × (has_unit id b'.' ≡ false)
    × ((name ≡ under id domain)
        ⊎ ((x : Text) × (has_unit x b'.' ≡ false) × (name ≡ under x (under id domain))))

split-one : (sep : ℕ) (s a : Text) → split sep s ≡ a ∷ [] → (s ≡ a) × (has_unit a sep ≡ false)
unfolding split has_unit
split-one sep [] a e = ground arith
split-one sep (c ∷ cs) a e =
    let (p, ps, k) = split-cons sep cs in ground (arith, split-one sep cs p)

split-two :
    (sep : ℕ) (s a b : Text)
    → split sep s ≡ a ∷ b ∷ []
    → (s ≡ a ++ sep ∷ b) × (has_unit a sep ≡ false) × (has_unit b sep ≡ false)
unfolding split has_unit
split-two sep [] a b e = ground arith
split-two sep (c ∷ cs) a b e =
    let (p, ps, k) = split-cons sep cs in
    elim (Bool-cases (c == sep)) [
      | inl hit ↦ ground (arith, split-one sep cs b)
      | inr miss ↦ ground (arith, split-two sep cs p b)
    ]

Belongs→tunnel_id :
    (name domain id : Text)
    → Belongs name (lower domain) id
    → tunnel_id_from_hostname name domain ≡ some id
unfolding tunnel_id_from_hostname
Belongs→tunnel_id name domain [] (filled, plain, b) = absurd (filled refl)
Belongs→tunnel_id name domain (c ∷ cs) (filled, plain, inl e) = rw (
  e,
  ends_with-append (c ∷ cs) (b'.' ∷ lower domain),
  drop_end-append (c ∷ cs) (b'.' ∷ lower domain),
  split-no_unit b'.' (c ∷ cs) plain,
)
Belongs→tunnel_id name domain (c ∷ cs) (filled, plain, inr (x, dotless, e)) = rw (
  e,
  sym (append_assoc x (b'.' ∷ c ∷ cs) (b'.' ∷ lower domain)),
  ends_with-append (x ++ b'.' ∷ c ∷ cs) (b'.' ∷ lower domain),
  drop_end-append (x ++ b'.' ∷ c ∷ cs) (b'.' ∷ lower domain),
  split-append b'.' x (c ∷ cs) dotless,
  split-no_unit b'.' (c ∷ cs) plain,
)

labels→Belongs :
    (name host id part : Text)
    → name ≡ part ++ b'.' ∷ host
    → (labels : List Text) → split b'.' part ≡ labels
    → last_label labels ≡ some id
    → Belongs name host id
labels→Belongs name host id part e [] k h = cc
labels→Belongs name host id part e ([] ∷ []) k h = cc
labels→Belongs name host id part e ((c ∷ cs) ∷ []) k h =
    let (same_part, plain) = split-one b'.' part (c ∷ cs) k in ground arith
labels→Belongs name host id part e (a ∷ [] ∷ []) k h = cc
labels→Belongs name host id part e (a ∷ (c ∷ cs) ∷ []) k h =
    let (same_part, dotless, plain) = split-two b'.' part a (c ∷ cs) k in
    let whole : name ≡ under a (under (c ∷ cs) host) =
      e ∙ ap (λ p. p ++ b'.' ∷ host) same_part ∙ append_assoc a (b'.' ∷ c ∷ cs) (b'.' ∷ host) in
    let found : c ∷ cs ≡ id = ground arith in rw⁻¹ found ((λ n. cc), plain, inr (a, dotless, whole))
labels→Belongs name host id part e (a ∷ b ∷ c ∷ rest) k h = cc

tunnel_id→Belongs :
    (name domain id : Text)
    → tunnel_id_from_hostname name domain ≡ some id
    → Belongs name (lower domain) id
unfolding tunnel_id_from_hostname
tunnel_id→Belongs name domain id e = elim (Bool-cases (ends_with name (b'.' ∷ lower domain))) [
  | inl hit ↦
      labels→Belongs name (lower domain) id (drop_end name (length (b'.' ∷ lower domain)))
        (sym (ends_with→append name (b'.' ∷ lower domain) hit))
        (split b'.' (drop_end name (length (b'.' ∷ lower domain)))) refl (ground arith)
  | inr miss ↦ absurd (ground arith)
]

-- `tunnelIDFromHostname` gives `id` exactly when `id` is nonempty without a dot and the hostname
-- is `id` followed by a dot and the lower-case domain, or that with one more part without a dot
-- and a dot in front.
pub tunnel_id_from_hostname_iff :
    (name domain id : Text)
    → (tunnel_id_from_hostname name domain ≡ some id) ↔ Belongs name (lower domain) id
tunnel_id_from_hostname_iff name domain id =
    (tunnel_id→Belongs name domain id, Belongs→tunnel_id name domain id)

-- The name of a route of the tunnel with hostname `host`.
abbrev pub IsNameOf : Text → Text → Text → Type 0
IsNameOf name host route =
    ((name ≡ host) × (route ≡ root_route)) ⊎ ((is_label route ≡ true) × (name ≡ under route host))

label-good : (r : Text) → is_label r ≡ true → is_bad_route r ≡ false
label-good [] h = absurd (label-ne-nil [] h refl)
label-good (c ∷ cs) h = has_unit-label (c ∷ cs) h

IsNameOf→Called : (name host r : Text) → IsNameOf name host r → Called name host r
IsNameOf→Called name host r (inl h) = inl h
IsNameOf→Called name host r (inr (label, e)) = inr (e, label-good r label)

IsNameOf→Belongs :
    (name domain id r : Text)
    → id ≢ []
    → has_unit id b'.' ≡ false
    → IsNameOf name (under id domain) r
    → Belongs name domain id
IsNameOf→Belongs name domain id r filled plain (inl (e, root)) = (filled, plain, inl e)
IsNameOf→Belongs name domain id r filled plain (inr (label, e)) =
    (filled, plain, inr (r, has_unit-label r label, e))

IsNameOf→client : (name host r : Text) → IsNameOf name host r → route_for_sni name host ≡ some r
unfolding lower
IsNameOf→client name host r (inl (e, root)) =
    (route_for_sni_iff name host r).1 (inl (ap lower e, root))
IsNameOf→client name host r (inr (label, e)) = (route_for_sni_iff name host r).1 (
    inr (
      label,
      ap lower e
          ∙ lower-append r (b'.' ∷ host)
          ∙ ap (λ x. x ++ b'.' ∷ lower host) (lower-label r label),
    ))

-- Let `id` be a nonempty text without a dot, and let a name be the hostname `id.domain`, with the
-- domain in lower case, or a label, a dot and that hostname. Then the gateway finds the tunnel
-- `id` for the name, and both the object and the client of a tunnel with that hostname find the
-- same route, the root or the label.
pub parts_agree :
    (name domain id route : Text)
    → id ≢ []
    → has_unit id b'.' ≡ false
    → IsNameOf name (under id (lower domain)) route
    → (tunnel_id_from_hostname name domain ≡ some id)
      × (route_of_sni (under id (lower domain)) (some name) ≡ some route)
      × (is_bad_route route ≡ false)
      × (route_for_sni name (under id (lower domain)) ≡ some route)
parts_agree name domain id route filled plain h =
    let host : Text = under id (lower domain) in
    let (object, good) = Called→route_of_sni host name route (IsNameOf→Called name host route h) in
    (
      Belongs→tunnel_id name domain id
          (IsNameOf→Belongs name (lower domain) id route filled plain h),
      object,
      good,
      IsNameOf→client name host route h,
    )
