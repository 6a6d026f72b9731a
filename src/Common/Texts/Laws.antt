-- ===== src/Common/Texts/Laws.antt =====
-- Laws of the text operations.
use mathlib.Core.Path.{◌≡◌, refl, sym, ap, ap₂, ◌∙◌}
use mathlib.Core.Bool.{Bool, true, false, ◌||◌}
use mathlib.Core.List.{List, [], ◌∷◌, ◌++◌}
use mathlib.Core.Option.{none, some}
use mathlib.Core.Logic.{◌↔◌, ◌≢◌, inl, inr}
use Prim.Native.Nat.{ℕ, ◌-◌}
use native.Mathlib.Omega.{arith}
use shuvtunnel.Common.Tests.{◌==◌, ==_iff, Bool-cases, and-left, and-right}
use shuvtunnel.Common.Lists.{
  length, take, drop, length-append, take-append_self, drop-append_self, take-append-drop, all,
}
use shuvtunnel.Common.Texts.{
  Text, same, same_refl, same→eq, has_unit, ends_with, drop_end, lower, lower_unit, split,
  split_last,
}

append-length-sub : (a b : Text) → length (a ++ b) - length b ≡ length a
append-length-sub a b = omega (arith, length-append a b)

pub ends_with-append : (a b : Text) → ends_with (a ++ b) b ≡ true
unfolding ends_with
ends_with-append a b =
    rw (append-length-sub a b, drop-append_self a b, same_refl b)
      (ground (arith, length-append a b))

pub drop_end-append : (a b : Text) → drop_end (a ++ b) (length b) ≡ a
unfolding drop_end
drop_end-append a b = rw (append-length-sub a b) (take-append_self a b)

-- A text with the suffix is what is left of it, and the suffix.
pub ends_with→append :
    (s suffix : Text) → ends_with s suffix ≡ true → drop_end s (length suffix) ++ suffix ≡ s
unfolding ends_with drop_end
ends_with→append s suffix h =
    ap (◌++◌ (take (length s - length suffix) s))
      (sym (same→eq (drop (length s - length suffix) s) suffix (and-right _ _ h)))
    ∙ take-append-drop (length s - length suffix) s

pub ends_with_iff :
    (s suffix : Text) → (ends_with s suffix ≡ true) ↔ ((a : Text) × (s ≡ a ++ suffix))
ends_with_iff s suffix = (
  λ h. (drop_end s (length suffix), sym (ends_with→append s suffix h)),
  λ (a, e). rw e (ends_with-append a suffix),
)

pub lower-append : (s t : Text) → lower (s ++ t) ≡ lower s ++ lower t
unfolding lower
lower-append [] t = refl
lower-append (c ∷ cs) t = ap (◌∷◌ (lower_unit c)) (lower-append cs t)

pub split-no_unit : (sep : ℕ) (a : Text) → has_unit a sep ≡ false → split sep a ≡ a ∷ []
unfolding split has_unit
split-no_unit sep [] h = refl
split-no_unit sep (c ∷ cs) h = ground (arith, split-no_unit sep cs)

pub split-cons : (sep : ℕ) (s : Text) → (p : Text) × (ps : List Text) × (split sep s ≡ p ∷ ps)
unfolding split
split-cons sep [] = ([], [], refl)
split-cons sep (c ∷ cs) =
    let (p, ps, e) = split-cons sep cs in
    elim (Bool-cases (c == sep)) [
      | inl hit ↦ ([], p ∷ ps, rw (e, hit, split))
      | inr miss ↦ (c ∷ p, ps, rw (e, miss, split))
    ]

-- The first part of a split ends at the first separator.
pub split-append :
    (sep : ℕ) (a b : Text) → has_unit a sep ≡ false → split sep (a ++ sep ∷ b) ≡ a ∷ split sep b
unfolding split has_unit
split-append sep [] b h = ground (arith, split-cons sep b)
split-append sep (c ∷ cs) b h = ground (arith, split-append sep cs b)

split_last-none : (sep : ℕ) (s : Text) → has_unit s sep ≡ false → split_last sep s ≡ none
unfolding split_last has_unit
split_last-none sep [] h = refl
split_last-none sep (c ∷ cs) h = ground (arith, split_last-none sep cs)

pub split_last-append :
    (sep : ℕ) (a b : Text) → has_unit b sep ≡ false → split_last sep (a ++ sep ∷ b) ≡ some (a, b)
unfolding split_last
split_last-append sep [] b h = ground (arith, split_last-none sep b)
split_last-append sep (c ∷ cs) b h = ground (arith, split_last-append sep cs b)

split_last-none_of : (sep : ℕ) (s : Text) → split_last sep s ≡ none → has_unit s sep ≡ false
unfolding split_last has_unit
split_last-none_of sep [] h = refl
split_last-none_of sep (c ∷ cs) h = ground (arith, split_last-none_of sep cs)

-- The parts of `split_last` make up the text, and the second holds no separator.
pub split_last→append :
    (sep : ℕ) (s a b : Text)
    → split_last sep s ≡ some (a, b)
    → (s ≡ a ++ sep ∷ b) × (has_unit b sep ≡ false)
unfolding split_last
split_last→append sep [] a b h = cc
split_last→append sep (c ∷ cs) [] b h = ground (arith, split_last-none_of sep cs)
split_last→append sep (c ∷ cs) (x ∷ a) b h = ground (arith, split_last→append sep cs a b)

pub has_unit-append : (a b : Text) (c : ℕ) → has_unit (a ++ b) c ≡ (has_unit a c || has_unit b c)
unfolding has_unit
has_unit-append [] b c = refl
has_unit-append (x ∷ xs) b c = ground (arith, has_unit-append xs b c)

-- A unit that fails a test does not stand in a text whose units all pass it.
pub has_unit_of_all :
    (p : ℕ → Bool) (c : ℕ) (s : Text) → p c ≡ false → all p s ≡ true → has_unit s c ≡ false
unfolding has_unit
has_unit_of_all p c [] h k = refl
has_unit_of_all p c (x ∷ xs) h k = elim (Bool-cases (x == c)) [
  | inl e ↦ cc (sym h ∙ ap p (sym ((==_iff x c).0 e)) ∙ and-left (p x) (all p xs) k)
  | inr e ↦ rw e (has_unit_of_all p c xs h (and-right _ _ k))
]

pub lower_of_all :
    (p : ℕ → Bool) (s : Text)
    → ((c : ℕ) → p c ≡ true → lower_unit c ≡ c)
    → all p s ≡ true
    → lower s ≡ s
unfolding lower
lower_of_all p [] f h = refl
lower_of_all p (c ∷ cs) f h =
    ap₂ (◌∷◌) (f c (and-left _ _ h)) (lower_of_all p cs f (and-right _ _ h))

pub same-false : (s t : Text) → s ≢ t → same s t ≡ false
same-false s t h = elim (Bool-cases (same s t)) [ inl e ↦ absurd (h (same→eq s t e)) | inr e ↦ e ]

pub same_comm : (s t : Text) → same s t ≡ same t s
same_comm s t = elim (Bool-cases (same s t)) [
  | inl e ↦ rw (same→eq s t e)
  | inr e ↦ rw e (sym (same-false t s (λ k. cc (same_refl t, ap (λ x. same x t) (sym k)))))
]
