-- ===== src/Client/Storage/Tokens.antt =====
-- Tokens as the storage of packages/client/src/effect/storage.ts writes and reads them: with a line
-- end, and trimmed.
use shuvtunnel.Common.{
  ℕ, ◌≡◌, ◌≢◌, refl, ap, ◌∙◌, [], ◌∷◌, ◌++◌, Bool, true, not, Text, arith, all, trim, trim_start,
  is_space,
}
use mathlib.Core.List.{reverse, reverse-cons, reverse-append, reverse-reverse}

-- A token of which `trim` takes nothing away.
abbrev pub Clean : Text → Type 0
Clean t = (t ≢ []) × (all (λ c. not (is_space c)) t ≡ true)

trim_start-all : (t : Text) → all (λ c. not (is_space c)) t ≡ true → trim_start t ≡ t
trim_start-all [] h = refl
trim_start-all (x ∷ xs) h = ground (arith, h)

trim_start-append : (t s : Text) → Clean t → trim_start (t ++ s) ≡ t ++ s
trim_start-append [] s c = absurd (c.0 refl)
trim_start-append (x ∷ xs) s c = ground (arith, c)

all-snoc :
    (f : ℕ → Bool) (t : Text) (x : ℕ) → all f t ≡ true → f x ≡ true → all f (t ++ x ∷ []) ≡ true
all-snoc f [] x h k = ground (arith, k)
all-snoc f (y ∷ ys) x h k = ground (arith, all-snoc f ys x, h, k)

all-reverse : (f : ℕ → Bool) (t : Text) → all f t ≡ true → all f (reverse t) ≡ true
all-reverse f [] h = refl
all-reverse f (x ∷ xs) h =
    rw (reverse-cons x xs)
      (all-snoc f (reverse xs) x (all-reverse f xs (ground (arith, h))) (ground (arith, h)))

pub trim-newline : (t : Text) → Clean t → trim (t ++ 10 ∷ []) ≡ t
unfolding trim
trim-newline t c =
    rw (trim_start-append t (10 ∷ []) c, reverse-append t (10 ∷ []))
      (ap reverse (trim_start-all (reverse t) (all-reverse (λ c. not (is_space c)) t c.1))
        ∙ reverse-reverse t)
