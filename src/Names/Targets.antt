-- ===== src/Names/Targets.antt =====
-- `parseTarget` of packages/protocol/src/names.ts: the targets it accepts and what it returns.
use shuvtunnel.Common.{
  ℕ, ◌≤◌, ◌≡◌, ◌↔◌, ◌⊎◌, inl, inr, refl, [], ◌∷◌, ◌++◌, Option, none, some, true, false, arith,
  length, leb, ◌==◌, Text, has_unit, ends_with, drop_end, Bool-cases, ends_with-append,
  drop_end-append, ends_with_iff, split_last, split_last-append, split_last→append, and-right,
  has_unit_of_all,
}
use shuvtunnel.Names.{
  is_digit, is_port_text, number_from, is_host, Target, strip_brackets, checked_host, target_of,
  target_of_parts, parse_target,
}

-- How a target spells its host: as it is, or an address in brackets.
abbrev pub Spells : Text → Text → Type 0
Spells text host =
    ((text ≡ host) × (is_host host ≡ true))
    ⊎ ((text ≡ b'[' ∷ host ++ b']' ∷ []) × (is_host host ≡ true))

-- A port of a target: one to five digits for a number from 1 to 65535.
abbrev pub SpellsPort : Text → ℕ → Type 0
SpellsPort text n = (is_port_text text ≡ true) × (number_from 0 text ≡ n) × (1 ≤ n) × (n ≤ 65535)

port_text-no_colon : (p : Text) → is_port_text p ≡ true → has_unit p b':' ≡ false
port_text-no_colon p h =
    has_unit_of_all is_digit b':' p refl
      (and-right (leb (length p) 5) _ (and-right (leb 1 (length p)) _ h))

strip_brackets-Spells : (text host : Text) → Spells text host → strip_brackets text ≡ some host
unfolding strip_brackets
strip_brackets-Spells text [] (inl (e, h)) = cc
strip_brackets-Spells text (c ∷ cs) (inl (e, h)) = rw e (ground arith)
strip_brackets-Spells text host (inr (e, h)) =
    rw (e, ends_with-append (b'[' ∷ host) (b']' ∷ []), drop_end-append host (b']' ∷ []))

-- A text in brackets is the opening one, its inside, and the closing one.
bracketed : (cs a : Text) → b'[' ∷ cs ≡ a ++ b']' ∷ [] → cs ≡ drop_end cs 1 ++ b']' ∷ []
bracketed cs [] e = absurd (ground arith)
bracketed cs (x ∷ a) e =
    let inside : cs ≡ a ++ b']' ∷ [] = ground arith in
    rw inside (rw (drop_end-append a (b']' ∷ [])))

strip_brackets-closed :
    (cs : Text) → ends_with (b'[' ∷ cs) (b']' ∷ []) ≡ true → cs ≡ drop_end cs 1 ++ b']' ∷ []
strip_brackets-closed cs h =
    let (a, e) = (ends_with_iff (b'[' ∷ cs) (b']' ∷ [])).0 h in bracketed cs a e

Spells-strip :
    (text host : Text) → strip_brackets text ≡ some host → is_host host ≡ true → Spells text host
unfolding strip_brackets
Spells-strip [] host e h = inl (ground arith, h)
Spells-strip (c ∷ cs) host e h = elim (Bool-cases (c == b'[')) [
  | inl bracket ↦ inr (ground (arith, strip_brackets-closed cs), h)
  | inr plain ↦ inl (ground arith, h)
]

checked_host→ :
    (n : ℕ) (stripped : Option Text) (t : Target)
    → checked_host n stripped ≡ some t
    → (stripped ≡ some t.host) × (is_host t.host ≡ true) × (n ≡ t.port)
checked_host→ n none t e = cc
checked_host→ n (some h) t e = ground arith

target_of→ :
    (before port : Text) (t : Target)
    → target_of before port ≡ some t
    → Spells before t.host × SpellsPort port t.port
unfolding target_of
target_of→ before port t e =
    let stripped : checked_host (number_from 0 port) (strip_brackets before) ≡ some t =
      ground arith in
    let (s, h, n) = checked_host→ (number_from 0 port) (strip_brackets before) t stripped in
    (Spells-strip before t.host s h, ground arith)

Spells-is_host : (text host : Text) → Spells text host → is_host host ≡ true
Spells-is_host text host (inl (e, h)) = h
Spells-is_host text host (inr (e, h)) = h

target_of-Spells :
    (before port : Text) (t : Target)
    → Spells before t.host
    → SpellsPort port t.port
    → target_of before port ≡ some t
unfolding target_of
target_of-Spells before port t s p =
    rw (strip_brackets-Spells before t.host s) (ground (arith, Spells-is_host before t.host s))

-- `parseTarget` gives a target exactly for the texts that spell it: its host, bracketed or not, a
-- colon, and one to five digits of a port from 1 to 65535.
pub parse_target_iff :
    (value : Text) (t : Target)
    → (parse_target value ≡ some t) ↔ (
        (before : Text) × (port : Text) × (value ≡ before ++ b':' ∷ port)
        × Spells before t.host
        × SpellsPort port t.port)
unfolding parse_target
parse_target_iff value t = (to (split_last b':' value) refl, from)
  where
    to :
        (parts : Option (Text × Text))
        → split_last b':' value ≡ parts
        → target_of_parts parts ≡ some t
        → (before : Text) × (port : Text) × (value ≡ before ++ b':' ∷ port)
          × Spells before t.host
          × SpellsPort port t.port
    to none e h = absurd (ground arith)
    to (some (before, port)) e h =
        let (s, p) = target_of→ before port t h in
        (before, port, (split_last→append b':' value before port e).0, s, p)

    from :
        ((before : Text) × (port : Text) × (value ≡ before ++ b':' ∷ port)
          × Spells before t.host
          × SpellsPort port t.port)
        → target_of_parts (split_last b':' value) ≡ some t
    from (before, port, e, s, p) =
        rw (e, split_last-append b':' before port (port_text-no_colon port p.0))
          (target_of-Spells before port t s p)
