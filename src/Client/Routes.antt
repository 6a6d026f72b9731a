-- ===== src/Client/Routes.antt =====
-- When `setRoutes` of packages/client/src/effect/tunnel.ts attaches again: `sameNames`.
use shuvtunnel.Common.{◌≡◌, ◌↔◌, sym, ap, ◌∙◌, true, Text}
use shuvtunnel.Client.{Routes, names_of, sort_names, same_names}
use shuvtunnel.Client.Order.{
  count, count-sort, sort-Sorted, Sorted-unique, all_same→eq, all_same_refl,
}

same_names→count :
    (left right : Routes)
    → same_names left right ≡ true
    → (t : Text) → count t (names_of left) ≡ count t (names_of right)
unfolding same_names
same_names→count left right h t =
    sym (count-sort t (names_of left))
    ∙ ap (count t) (all_same→eq (sort_names (names_of left)) (sort_names (names_of right)) h)
    ∙ count-sort t (names_of right)

count→same_names :
    (left right : Routes)
    → ((t : Text) → count t (names_of left) ≡ count t (names_of right))
    → same_names left right ≡ true
unfolding same_names
count→same_names left right h =
    let e : sort_names (names_of left) ≡ sort_names (names_of right) =
      Sorted-unique (sort_names (names_of left)) (sort_names (names_of right))
        (sort-Sorted (names_of left)) (sort-Sorted (names_of right))
        (λ u. count-sort u (names_of left) ∙ h u ∙ sym (count-sort u (names_of right))) in
    rw e (all_same_refl (sort_names (names_of right)))

-- `sameNames` holds exactly when every text occurs equally often among the names of both records.
pub same_names_iff :
    (left right : Routes)
    → (same_names left right ≡ true)
      ↔ ((t : Text) → count t (names_of left) ≡ count t (names_of right))
same_names_iff left right = (same_names→count left right, count→same_names left right)
