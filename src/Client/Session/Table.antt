-- ===== src/Client/Session/Table.antt =====
-- The map of a session from the numbers of connections to channel objects, in the order of insertion,
-- packages/client/src/effect/tunnel.ts.
use shuvtunnel.Common.{
  ℕ, ◌≡◌, refl, List, [], ◌∷◌, Option, none, some, Bool, false, if◌then◌else◌, arith, ◌==◌,
}

unfoldable pub find : ℕ → List (ℕ × ℕ) → Option ℕ
find key [] = none
find key ((k, v) ∷ rest) = if k == key then some v else find key rest

-- `map.set(key, value)`
unfoldable pub put : ℕ → ℕ → List (ℕ × ℕ) → List (ℕ × ℕ)
put key value [] = (key, value) ∷ []
put key value ((k, v) ∷ rest) =
    let others = put key value rest in if k == key then (k, value) ∷ rest else (k, v) ∷ others

-- `map.delete(key)`
unfoldable pub drop_key : ℕ → List (ℕ × ℕ) → List (ℕ × ℕ)
drop_key key [] = []
drop_key key ((k, v) ∷ rest) =
    let others = drop_key key rest in if k == key then others else (k, v) ∷ others

-- The calls of the callbacks, without an error.
abbrev pub entries : List ℕ → List (ℕ × Bool)
entries [] = []
entries (w ∷ ws) = (w, false) ∷ entries ws

pub find-put :
    (j key value : ℕ) (m : List (ℕ × ℕ))
    → find j (put key value m) ≡ (if key == j then some value else find j m)
unfolding find put
find-put j key value [] = refl
find-put j key value ((k, v) ∷ rest) = ground (arith, find-put j key value rest)

pub find-drop_key :
    (j key : ℕ) (m : List (ℕ × ℕ)) → find j (drop_key key m) ≡ (if key == j then none else find j m)
unfolding find drop_key
find-drop_key j key [] = ground arith
find-drop_key j key ((k, v) ∷ rest) = ground (arith, find-drop_key j key rest)

-- No number twice.
abbrev pub Distinct : List (ℕ × ℕ) → Type 0
Distinct [] = Unit
Distinct ((k, v) ∷ rest) = (find k rest ≡ none) × Distinct rest

pub drop_key-absent : (key : ℕ) (m : List (ℕ × ℕ)) → find key m ≡ none → drop_key key m ≡ m
unfolding find drop_key
drop_key-absent key [] h = refl
drop_key-absent key ((k, v) ∷ rest) h = ground (arith, h, drop_key-absent key rest)

pub put-Distinct : (key value : ℕ) (m : List (ℕ × ℕ)) → Distinct m → Distinct (put key value m)
unfolding put find
put-Distinct key value [] d = (refl, tt)
put-Distinct key value ((k, v) ∷ rest) d =
    ground (arith, d, find-put k key value rest, put-Distinct key value rest d.1)

pub drop_key-Distinct : (key : ℕ) (m : List (ℕ × ℕ)) → Distinct m → Distinct (drop_key key m)
unfolding drop_key find
drop_key-Distinct key [] d = tt
drop_key-Distinct key ((k, v) ∷ rest) d =
    ground (arith, d, find-drop_key k key rest, drop_key-Distinct key rest d.1)
