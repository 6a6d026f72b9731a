-- ===== src/Client/Order.antt =====
-- The order in which route names are sorted, and sorting by it.
use shuvtunnel.Common.{
  ℕ, ◌+◌, ◌<◌, ◌≡◌, refl, ap, List, [], ◌∷◌, true, false, if◌then◌else◌, Text, arith, All, same,
  same_refl, same→eq, Bool-cases, inl, inr,
}
use shuvtunnel.Client.{text_leb, insert_name, sort_names, all_same}

-- How often a name stands in a list.
abbrev pub count : Text → List Text → ℕ
count t [] = 0
count t (x ∷ xs) = (if same x t then 1 else 0) + count t xs

text_leb_total : (s t : Text) → text_leb s t ≡ false → text_leb t s ≡ true
unfolding text_leb
text_leb_total [] t h = cc
text_leb_total (x ∷ xs) [] h = refl
text_leb_total (x ∷ xs) (y ∷ ys) h = ground (arith, text_leb_total xs ys)

text_leb_refl : (s : Text) → text_leb s s ≡ true
unfolding text_leb
text_leb_refl [] = refl
text_leb_refl (x ∷ xs) = ground (arith, text_leb_refl xs)

text_leb_antisymm : (s t : Text) → text_leb s t ≡ true → text_leb t s ≡ true → s ≡ t
unfolding text_leb
text_leb_antisymm [] [] h k = refl
text_leb_antisymm [] (y ∷ ys) h k = cc
text_leb_antisymm (x ∷ xs) [] h k = cc
text_leb_antisymm (x ∷ xs) (y ∷ ys) h k = ground (arith, text_leb_antisymm xs ys)

text_leb_trans : (s t u : Text) → text_leb s t ≡ true → text_leb t u ≡ true → text_leb s u ≡ true
unfolding text_leb
text_leb_trans [] t u h k = refl
text_leb_trans (x ∷ xs) [] u h k = cc
text_leb_trans (x ∷ xs) (y ∷ ys) [] h k = cc
text_leb_trans (x ∷ xs) (y ∷ ys) (z ∷ zs) h k = ground (arith, text_leb_trans xs ys zs)

abbrev Below : Text → List Text → Type 0
Below s ts = All (λ t. text_leb s t ≡ true) ts

abbrev pub Sorted : List Text → Type 0
Sorted [] = Unit
Sorted (t ∷ ts) = Below t ts × Sorted ts

Below-trans : (s t : Text) (ts : List Text) → text_leb s t ≡ true → Below t ts → Below s ts
Below-trans s t [] h b = tt
Below-trans s t (u ∷ us) h b = (text_leb_trans s t u h b.0, Below-trans s t us h b.1)

Below-insert :
    (s t : Text) (ts : List Text) → text_leb s t ≡ true → Below s ts → Below s (insert_name t ts)
unfolding insert_name
Below-insert s t [] h b = (h, tt)
Below-insert s t (u ∷ us) h b = elim (Bool-cases (text_leb t u)) [
  | inl first ↦ rw first (h, b)
  | inr later ↦ rw later (b.0, Below-insert s t us h b.1)
]

insert-Sorted : (t : Text) (ts : List Text) → Sorted ts → Sorted (insert_name t ts)
unfolding insert_name
insert-Sorted t [] s = (tt, tt)
insert-Sorted t (u ∷ us) s = elim (Bool-cases (text_leb t u)) [
  | inl first ↦ rw first ((first, Below-trans t u us first s.0), s)
  | inr later ↦
      rw later (Below-insert u t us (text_leb_total t u later) s.0, insert-Sorted t us s.1)
]

pub sort-Sorted : (ts : List Text) → Sorted (sort_names ts)
unfolding sort_names
sort-Sorted [] = tt
sort-Sorted (t ∷ ts) = insert-Sorted t (sort_names ts) (sort-Sorted ts)

count-insert : (u t : Text) (ts : List Text) → count u (insert_name t ts) ≡ count u (t ∷ ts)
unfolding insert_name
count-insert u t [] = refl
count-insert u t (x ∷ xs) = ground (arith, count-insert u t xs)

pub count-sort : (u : Text) (ts : List Text) → count u (sort_names ts) ≡ count u ts
unfolding sort_names
count-sort u [] = refl
count-sort u (t ∷ ts) = omega (arith, count-insert u t (sort_names ts), count-sort u ts)

pub all_same→eq : (ss ts : List Text) → all_same ss ts ≡ true → ss ≡ ts
unfolding all_same
all_same→eq [] [] h = refl
all_same→eq [] (t ∷ ts) h = cc
all_same→eq (s ∷ ss) [] h = cc
all_same→eq (s ∷ ss) (t ∷ ts) h = ground (arith, same→eq s t, all_same→eq ss ts)

pub all_same_refl : (ts : List Text) → all_same ts ts ≡ true
unfolding all_same
all_same_refl [] = refl
all_same_refl (t ∷ ts) = rw (same_refl t, all_same_refl ts)

-- A name in a list that is all behind `t` is behind `t`.
count-Below : (t u : Text) (ts : List Text) → Below t ts → 0 < count u ts → text_leb t u ≡ true
count-Below t u [] b h = absurd (omega arith)
count-Below t u (x ∷ xs) b h = elim (Bool-cases (same x u)) [
  | inl e ↦ rw⁻¹ (same→eq x u e) b.0
  | inr n ↦ count-Below t u xs b.1 (ground arith)
]

head-le : (t u : Text) (ts : List Text) → Below t ts → 0 < count u (t ∷ ts) → text_leb t u ≡ true
head-le t u ts b h = count-Below t u (t ∷ ts) (text_leb_refl t, b) h

count_self : (t : Text) (ts : List Text) → 0 < count t (t ∷ ts)
count_self t ts = rw (same_refl t) (omega arith)

-- A sorted list is known by how often each name stands in it.
pub Sorted-unique :
    (ss ts : List Text) → Sorted ss → Sorted ts → ((u : Text) → count u ss ≡ count u ts) → ss ≡ ts
Sorted-unique [] [] p q h = refl
Sorted-unique [] (t ∷ ts) p q h = absurd (omega (arith, count_self t ts, h t))
Sorted-unique (s ∷ ss) [] p q h = absurd (omega (arith, count_self s ss, h s))
Sorted-unique (s ∷ ss) (t ∷ ts) p q h =
    let heads : s ≡ t =
      text_leb_antisymm s t (head-le s t ss p.0 (omega (arith, count_self t ts, h t)))
        (head-le t s ts q.0 (omega (arith, count_self s ss, h s))) in
    let tails : ss ≡ ts =
      Sorted-unique ss ts p.1 q.1 (λ u. ground (arith, h u, ap (λ x. count u (x ∷ ss)) heads)) in
    cc
