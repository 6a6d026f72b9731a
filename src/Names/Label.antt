-- ===== src/Names/Label.antt =====
-- The test for a label agrees with the regular expression of packages/protocol/src/names.ts, and
-- what a label is made of.
use shuvtunnel.Common.{
  ℕ, zero, suc, ◌≤◌, ◌≡◌, refl, sym, ap, [], ◌∷◌, ◌++◌, Bool, true, false, arith, leb, ◌&&◌, ◌↔◌,
  length, all, Text, has_unit, lower, and-left, and-right, has_unit_of_all, lower_of_all, ◌≢◌,
  leb→le,
}
use shuvtunnel.Names.{is_alnum, is_label_unit, label_tail, is_label}

-- The part of the regular expressions' language that the label uses.
pub data Regex : Type 0 where
  unit_class : (ℕ → Bool) → Regex
  then_by : Regex → Regex → Regex
  optional : Regex → Regex
  up_to : ℕ → Regex → Regex

pub data Matches : Regex → Text → Type 0 where
  one : {p : ℕ → Bool} {s : Text} (c : ℕ) → p c ≡ true → s ≡ c ∷ [] → Matches (unit_class p) s
  both :
      {r q : Regex} {s : Text} (a b : Text)
      → s ≡ a ++ b
      → Matches r a
      → Matches q b
      → Matches (then_by r q) s
  absent : {r : Regex} {s : Text} → s ≡ [] → Matches (optional r) s
  present : {r : Regex} {s : Text} → Matches r s → Matches (optional r) s
  stop : {n : ℕ} {r : Regex} {s : Text} → s ≡ [] → Matches (up_to n r) s
  again :
      {n : ℕ} {r : Regex} {s : Text} (a b : Text)
      → s ≡ a ++ b
      → Matches r a
      → Matches (up_to n r) b
      → Matches (up_to (suc n) r) s

-- `^[a-z0-9](?:[a-z0-9-]{0,61}[a-z0-9])?$`
abbrev pub label_regex : Regex
label_regex =
    then_by (unit_class is_alnum)
      (optional (then_by (up_to 61 (unit_class is_label_unit)) (unit_class is_alnum)))

-- The tail of a label: up to `n` inner units and a last one.
tail→Matches :
    (n : ℕ) (s : Text)
    → label_tail s ≡ true
    → length s ≤ suc n
    → Matches (then_by (up_to n (unit_class is_label_unit)) (unit_class is_alnum)) s
unfolding label_tail
tail→Matches n [] h k = cc
tail→Matches n (c ∷ []) h k = both [] (c ∷ []) refl (stop refl) (one c h refl)
tail→Matches zero (c ∷ d ∷ rest) h k = absurd (omega arith)
tail→Matches (suc n) (c ∷ d ∷ rest) h k =
    prepend (tail→Matches n (d ∷ rest) (and-right _ _ h) (omega arith))
  where
    prepend :
        Matches (then_by (up_to n (unit_class is_label_unit)) (unit_class is_alnum)) (d ∷ rest)
        → Matches
            (then_by (up_to (suc n) (unit_class is_label_unit)) (unit_class is_alnum))
            (c ∷ d ∷ rest)
    prepend (both a b e ma mb) =
        both (c ∷ a) b (ap (◌∷◌ c) e) (again (c ∷ []) a refl (one c (and-left _ _ h) refl) ma) mb

Matches-unit :
    {p : ℕ → Bool} {s : Text} → Matches (unit_class p) s → (c : ℕ) × (p c ≡ true) × (s ≡ c ∷ [])
Matches-unit (one c h e) = (c, h, e)

label_tail-snoc :
    (u : ℕ) (b : Text) (c : ℕ)
    → label_tail (u ∷ b ++ c ∷ []) ≡ (is_label_unit u && label_tail (b ++ c ∷ []))
unfolding label_tail
label_tail-snoc u [] c = refl
label_tail-snoc u (x ∷ b) c = refl

tail-append :
    (n : ℕ) (a : Text) (c : ℕ)
    → Matches (up_to n (unit_class is_label_unit)) a
    → is_alnum c ≡ true
    → (label_tail (a ++ c ∷ []) ≡ true) × (length (a ++ c ∷ []) ≤ suc n)
unfolding label_tail
tail-append n a c (stop e) h = rw e (h, omega arith)
tail-append (suc n) a c (again x b e mx mb) h =
    let (u, hu, ex) = Matches-unit mx in
    let (tail, short) = tail-append n b c mb h in
    rw (e, ex) (rw (label_tail-snoc u b c, hu) tail, omega arith)

optional→tail :
    (c : ℕ) (s : Text)
    → is_alnum c ≡ true
    → Matches (optional (then_by (up_to 61 (unit_class is_label_unit)) (unit_class is_alnum))) s
    → is_label (c ∷ s) ≡ true
unfolding is_label
optional→tail c s h (absent e) = rw e h
optional→tail c [] h m = h
optional→tail c (d ∷ rest) h (present (both a b e ma mb)) =
    let (u, hu, eb) = Matches-unit mb in
    let (tail, short) = tail-append 61 a u ma hu in
    let same_text : a ++ u ∷ [] ≡ d ∷ rest = sym (rw eb at e) in
    let tail' : label_tail (d ∷ rest) ≡ true = rw same_text at tail in
    let short' : length (d ∷ rest) ≤ 62 = rw same_text at short in ground arith

-- The test for a label accepts exactly the texts that match the regular expression of the source,
-- given as a regular expression with its usual matching relation.
pub is_label_iff : (s : Text) → (is_label s ≡ true) ↔ Matches label_regex s
unfolding is_label
is_label_iff s = (to s, from s)
  where
    to : (t : Text) → is_label t ≡ true → Matches label_regex t
    to [] h = cc
    to (c ∷ []) h = both (c ∷ []) [] refl (one c h refl) (absent refl)
    to (c ∷ d ∷ rest) h = both (c ∷ []) (d ∷ rest) refl (one c (and-left _ _ h) refl) (
        present (
          tail→Matches 61 (d ∷ rest) (and-right _ _ (and-right _ _ h))
            (leb→le (length (d ∷ rest)) 62 (and-left _ _ (and-right _ _ h)))))

    from : (t : Text) → Matches label_regex t → is_label t ≡ true
    from t (both a b e ma mb) =
        let (c, hc, ea) = Matches-unit ma in rw (e, ea) (optional→tail c b hc mb)

label_tail-units : (s : Text) → label_tail s ≡ true → all is_label_unit s ≡ true
unfolding label_tail
label_tail-units [] h = refl
label_tail-units (c ∷ []) h = ground arith
label_tail-units (c ∷ d ∷ rest) h = ground (arith, label_tail-units (d ∷ rest))

is_label-units : (s : Text) → is_label s ≡ true → all is_label_unit s ≡ true
unfolding is_label
is_label-units [] h = refl
is_label-units (c ∷ []) h = ground arith
is_label-units (c ∷ d ∷ rest) h =
    let units : all is_label_unit (d ∷ rest) ≡ true =
      label_tail-units (d ∷ rest)
        (and-right (leb (length (d ∷ rest)) 62) _ (and-right (is_alnum c) _ h)) in
    let first : is_alnum c ≡ true = and-left (is_alnum c) _ h in ground arith

-- A label is not empty, holds no dot, and is lower case already.
pub has_unit-label : (s : Text) → is_label s ≡ true → has_unit s b'.' ≡ false
has_unit-label s h = has_unit_of_all is_label_unit b'.' s refl (is_label-units s h)

pub lower-label : (s : Text) → is_label s ≡ true → lower s ≡ s
lower-label s h = lower_of_all is_label_unit s (λ c k. ground arith) (is_label-units s h)

pub label-ne-nil : (s : Text) → is_label s ≡ true → s ≢ []
unfolding is_label
label-ne-nil [] h e = cc
label-ne-nil (c ∷ s) h e = cc
