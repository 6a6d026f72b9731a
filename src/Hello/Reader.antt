-- ===== src/Hello/Reader.antt =====
-- Reads from the ClientHello of packages/server/src/tls-client-hello.ts. The source asserts by `!`
-- that each read is in range; here a read past the end is a `fault`.
use shuvtunnel.Common.{
  ℕ, ◌+◌, ◌*◌, ◌<◌, ◌≡◌, Bool, true, false, arith, get_or, length, ltb, if◌then◌else◌,
}
use shuvtunnel.Frame.{Bytes}

pub data Reason : Type 0 where
  expected_handshake_record expected_client_hello truncated_client_hello invalid_session : Reason
  invalid_cipher_suites no_sni invalid_extensions truncated_extensions : Reason
  truncated_extension : Reason

pub data Read {ℓ} (A : Type ℓ) : Type ℓ where
  ok : A → Read A
  reject : Reason → Read A
  fault : Read A

infixl 5 ◌>>=◌ ◌>>◌
abbrev pub ◌>>=◌ {ℓ κ} : {A : Type ℓ} {B : Type κ} → Read A → (A → Read B) → Read B
ok a >>= f = f a
reject r >>= f = reject r
fault >>= f = fault

abbrev pub ◌>>◌ {ℓ} : {B : Type ℓ} → Read (Unit {0}) → Read B → Read B
m >> k = m >>= λ _. k

abbrev pub guard : Bool → Reason → Read (Unit {0})
guard true r = ok tt
guard false r = reject r

-- `data[offset]!`
unfoldable pub byte : Bytes → ℕ → Read ℕ
byte bytes offset = if ltb offset (length bytes) then ok (get_or bytes offset 0) else fault

-- `(data[offset]! << 8) | data[offset + 1]!`
unfoldable pub uint16 : Bytes → ℕ → Read ℕ
unfolding byte
uint16 bytes offset = do
  high ← byte bytes offset
  low ← byte bytes (offset + 1)
  ok (high * 256 + low)

-- A read without a fault, whose value satisfies `P`.
abbrev pub Safe {ℓ} : {A : Type ℓ} → (A → Type 0) → Read A → Type 0
Safe P (ok a) = P a
Safe P (reject r) = Unit
Safe P fault = ⊥

pub byte-eq : (bytes : Bytes) (i : ℕ) → i < length bytes → byte bytes i ≡ ok (get_or bytes i 0)
unfolding byte
byte-eq bytes i h = ground arith

pub uint16-eq :
    (bytes : Bytes) (i : ℕ)
    → i + 1 < length bytes
    → uint16 bytes i ≡ ok (get_or bytes i 0 * 256 + get_or bytes (i + 1) 0)
unfolding uint16
uint16-eq bytes i h = ground arith
