-- ===== src/Client/Maps.antt =====
-- Maps from texts as lists of entries, in the order of insertion like the `Map` of JavaScript, for
-- packages/client/src/effect/storage.ts.
use shuvtunnel.Common.{
  ◌≡◌, refl, List, [], ◌∷◌, Option, none, some, if◌then◌else◌, Text, arith, same, same_iff,
}

module _ {A : Type 0} where
  unfoldable pub lookup : Text → List (Text × A) → Option A
  lookup key [] = none
  lookup key ((k, v) ∷ rest) = if same k key then some v else lookup key rest

  -- `map.set(key, value)`: the entry keeps its place.
  unfoldable pub insert : Text → A → List (Text × A) → List (Text × A)
  insert key value [] = (key, value) ∷ []
  insert key value ((k, v) ∷ rest) =
      let others = insert key value rest in
      if same k key then (k, value) ∷ rest else (k, v) ∷ others

  -- `map.delete(key)`
  unfoldable pub delete : Text → List (Text × A) → List (Text × A)
  delete key [] = []
  delete key ((k, v) ∷ rest) =
      let others = delete key rest in if same k key then others else (k, v) ∷ others

  pub lookup-insert :
      (j key : Text) (value : A) (m : List (Text × A))
      → lookup j (insert key value m) ≡ (if same key j then some value else lookup j m)
  unfolding lookup insert
  lookup-insert j key value [] = refl
  lookup-insert j key value ((k, v) ∷ rest) =
      ground (arith, lookup-insert j key value rest, same_iff k key, same_iff k j, same_iff key j)

  pub lookup-delete :
      (j key : Text) (m : List (Text × A))
      → lookup j (delete key m) ≡ (if same key j then none else lookup j m)
  unfolding lookup delete
  lookup-delete j key [] = ground arith
  lookup-delete j key ((k, v) ∷ rest) =
      ground (arith, lookup-delete j key rest, same_iff k key, same_iff k j, same_iff key j)
