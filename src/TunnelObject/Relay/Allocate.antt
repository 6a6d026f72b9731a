-- ===== src/TunnelObject/Relay/Allocate.antt =====
-- The connection numbers that `connect` of packages/server/src/tunnel-object.ts hands out.
use shuvtunnel.Common.{
  ℕ, zero, suc, ◌+◌, ◌%◌, ◌^◌, ◌≤◌, ◌<◌, ◌≡◌, ◌≢◌, refl, ap, List, [], ◌∷◌, none, some, Bool, true,
  false, ◌||◌, ◌==◌, arith, length, Option-cases, inl, inr, if◌then◌else◌,
}
use shuvtunnel.TunnelObject.{Channel, find_channel}
use shuvtunnel.TunnelObject.Relay.{has_channel, is_taken, allocate}

elem : ℕ → List ℕ → Bool
elem c [] = false
elem c (x ∷ xs) = (x == c) || elem c xs

without : ℕ → List ℕ → List ℕ
without c [] = []
without c (x ∷ xs) = if x == c then without c xs else x ∷ without c xs

length-without-le : (c : ℕ) (xs : List ℕ) → length (without c xs) ≤ length xs
unfolding without
length-without-le c [] = omega arith
length-without-le c (x ∷ xs) = ground (arith, length-without-le c xs)

length-without : (c : ℕ) (xs : List ℕ) → elem c xs ≡ true → length (without c xs) < length xs
unfolding without elem
length-without c [] h = cc
length-without c (x ∷ xs) h = ground (arith, length-without c xs, length-without-le c xs)

elem-without : (c d : ℕ) (xs : List ℕ) → d ≢ c → elem d xs ≡ true → elem d (without c xs) ≡ true
unfolding without elem
elem-without c d [] n h = cc
elem-without c d (x ∷ xs) n h = ground (arith, elem-without c d xs)

-- A list that holds `count` consecutive numbers modulo 2 ^ 32 is at least that long.
consecutive :
    (count start : ℕ) (xs : List ℕ)
    → count ≤ 4294967296
    → ((i : ℕ) → i < count → elem ((start + i) % 4294967296) xs ≡ true)
    → count ≤ length xs
consecutive zero start xs small h = omega arith
consecutive (suc count) start xs small h = omega (
  arith,
  length-without (start % 4294967296) xs first,
  consecutive count (suc start) (without (start % 4294967296) xs) (omega arith) (λ i lt.
      elem-without (start % 4294967296) ((suc start + i) % 4294967296) xs (omega arith)
        (later i lt)),
)
  where
    first : elem (start % 4294967296) xs ≡ true
    first = let e : start + 0 ≡ start = omega arith in rw e at (h 0 (omega arith))

    later : (i : ℕ) → i < count → elem ((suc start + i) % 4294967296) xs ≡ true
    later i lt =
        let e : start + suc i ≡ suc start + i = omega arith in rw e at (h (suc i) (omega arith))

keys : List (ℕ × Channel) → List ℕ
keys [] = []
keys ((k, c) ∷ rest) = k ∷ keys rest

length-keys : (channels : List (ℕ × Channel)) → length (keys channels) ≡ length channels
unfolding keys
length-keys [] = refl
length-keys ((k, c) ∷ rest) = ap suc (length-keys rest)

has_channel-keys :
    (conn : ℕ) (channels : List (ℕ × Channel))
    → has_channel conn channels ≡ elem conn (keys channels)
unfolding keys elem find_channel
has_channel-keys conn [] = refl
has_channel-keys conn ((k, c) ∷ rest) = ground (arith, has_channel-keys conn rest)

is_taken→elem :
    (conn : ℕ) (channels : List (ℕ × Channel))
    → is_taken conn channels ≡ true
    → elem conn (0 ∷ keys channels) ≡ true
unfolding elem
is_taken→elem conn channels h = ground (arith, has_channel-keys conn channels)

allocate-none :
    (fuel sequence : ℕ) (channels : List (ℕ × Channel))
    → allocate fuel sequence channels ≡ none
    → (i : ℕ) → i < fuel
    → is_taken ((sequence + i) % 4294967296) channels ≡ true
unfolding allocate
allocate-none zero sequence channels h i lt = absurd (omega arith)
allocate-none (suc fuel) sequence channels h zero lt =
    let e : sequence + 0 ≡ sequence = omega arith in rw e (ground arith)
allocate-none (suc fuel) sequence channels h (suc i) lt =
    let e : sequence + suc i ≡ suc sequence + i = omega arith in
    rw e (allocate-none fuel (suc sequence) channels (ground arith) i (omega arith))

allocate-ne-none :
    (sequence : ℕ) (channels : List (ℕ × Channel))
    → length channels + 2 ≤ 4294967296
    → allocate (length channels + 2) sequence channels ≢ none
allocate-ne-none sequence channels small h = omega (
  arith,
  consecutive (length channels + 2) sequence (0 ∷ keys channels) small (λ i lt.
      is_taken→elem _ channels (allocate-none (length channels + 2) sequence channels h i lt)),
  length-keys channels,
)

allocate-free :
    (fuel sequence conn next : ℕ) (channels : List (ℕ × Channel))
    → allocate fuel sequence channels ≡ some (conn, next)
    → (is_taken conn channels ≡ false) × (conn < 4294967296)
unfolding allocate
allocate-free zero sequence conn next channels e = cc
allocate-free (suc fuel) sequence conn next channels e =
    ground (arith, allocate-free fuel (suc sequence) conn next channels)

abbrev pub IsFree : ℕ → List (ℕ × Channel) → Type 0
IsFree conn channels = (0 < conn) × (conn < 2 ^ 32) × (find_channel conn channels ≡ none)

pub allocate-IsFree :
    (fuel sequence conn next : ℕ) (channels : List (ℕ × Channel))
    → allocate fuel sequence channels ≡ some (conn, next)
    → IsFree conn channels
allocate-IsFree fuel sequence conn next channels e =
    let (untaken, small) = allocate-free fuel sequence conn next channels e in ground arith

-- If the channels are fewer than 2^32 - 1, the search for a connection number ends within two
-- tries more than there are channels, with a number that is nonzero, below 2^32 and without a
-- channel.
pub allocate-total :
    (sequence : ℕ) (channels : List (ℕ × Channel))
    → length channels + 2 ≤ 2 ^ 32
    → (conn : ℕ) × (next : ℕ) × (allocate (length channels + 2) sequence channels
        ≡ some (conn, next))
      × IsFree conn channels
allocate-total sequence channels small =
    elim (Option-cases (allocate (length channels + 2) sequence channels)) [
      | inl e ↦ absurd (allocate-ne-none sequence channels small e)
      | inr ((conn, next), e) ↦
          (conn, next, e, allocate-IsFree (length channels + 2) sequence conn next channels e)
    ]
