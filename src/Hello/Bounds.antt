-- ===== src/Hello/Bounds.antt =====
-- Every read of `parseClientHello` is inside the ClientHello, and its loops end.
use shuvtunnel.Common.{
  ℕ, zero, suc, ◌+◌, ◌-◌, ◌≤◌, ◌<◌, ◌≡◌, ◌≢◌, refl, Bool, true, false, arith, ltb, leb, ◌==◌, ◌&&◌,
  not, if◌then◌else◌, length, Text, min, tests, and-right,
}
use shuvtunnel.Frame.{Bytes}
use shuvtunnel.Hello.Reader.{
  Reason, Read, ok, reject, fault, ◌>>=◌, ◌>>◌, guard, byte, uint16, Safe, byte-eq, uint16-eq,
}
use shuvtunnel.Hello.Records.{Scan, partial, malformed, hello, stuck, scan_records}
use shuvtunnel.Hello.Records.Progress.{scan_records-ne-stuck}
use shuvtunnel.Hello.{
  out_of_range, Names, server_name_loop, server_name_extension, alpn_extension, extension,
  extensions_loop, read_extensions, read_hello, conclude, parse_scan, parse_client_hello,
}

abbrev Any {ℓ} : {A : Type ℓ} → A → Type 0
Any _ = Unit {0}

abbrev IsSafe {ℓ} : {A : Type ℓ} → Read A → Type 0
IsSafe {A} m = Safe (Any {A = A}) m

module _ {ℓ κ} {A : Type ℓ} {B : Type κ} where
  bind-IsSafe :
      (m : Read A) (f : A → Read B) → IsSafe m → ((a : A) → IsSafe (f a)) → IsSafe (m >>= f)
  bind-IsSafe (ok a) f h k = k a
  bind-IsSafe (reject r) f h k = tt
  bind-IsSafe fault f h k = h

byte-IsSafe :
    {B : Type 0} (bytes : Bytes) (i : ℕ) (f : ℕ → Read B)
    → i < length bytes
    → ((v : ℕ) → IsSafe (f v))
    → IsSafe (byte bytes i >>= f)
byte-IsSafe bytes i f h k = rw (byte-eq bytes i h) (k _)

uint16-IsSafe :
    {B : Type 0} (bytes : Bytes) (i : ℕ) (f : ℕ → Read B)
    → i + 1 < length bytes
    → ((v : ℕ) → IsSafe (f v))
    → IsSafe (uint16 bytes i >>= f)
uint16-IsSafe bytes i f h k = rw (uint16-eq bytes i h) (k _)

guard-IsSafe :
    {B : Type 0} (b : Bool) (r : Reason) (k : Read B)
    → (b ≡ true → IsSafe k)
    → IsSafe (guard b r >> k)
guard-IsSafe true r k h = h refl
guard-IsSafe false r k h = tt

branch-IsSafe :
    {B : Type 0} (b : Bool) (m k : Read B)
    → (b ≡ true → IsSafe m)
    → (b ≡ false → IsSafe k)
    → IsSafe (elim b [ true ↦ m | false ↦ k ])
branch-IsSafe true m k h₁ h₂ = h₁ refl
branch-IsSafe false m k h₁ h₂ = h₂ refl

if-IsSafe :
    {B : Type 0} (b : Bool) (m k : Read B)
    → (b ≡ true → IsSafe m)
    → (b ≡ false → IsSafe k)
    → IsSafe (if b then m else k)
if-IsSafe true m k h₁ h₂ = h₁ refl
if-IsSafe false m k h₁ h₂ = h₂ refl

module _ (decode : Bytes → Text) where
  server_name_loop-IsSafe :
      (fuel : ℕ) (bytes : Bytes) (list_end offset : ℕ) (name : Text)
      → list_end - offset < fuel
      → list_end ≤ length bytes
      → IsSafe (server_name_loop decode fuel bytes list_end offset name)
  unfolding server_name_loop
  server_name_loop-IsSafe zero bytes list_end offset name h k = absurd (omega arith)
  server_name_loop-IsSafe (suc fuel) bytes list_end offset name h k =
      branch-IsSafe (leb (offset + 3) list_end) _ _
        (λ more. byte-IsSafe bytes offset _ (omega tests) λ t.
          uint16-IsSafe bytes (offset + 1) _ (omega tests) λ n.
            branch-IsSafe (ltb list_end (offset + 3 + n)) _ _ (λ _. tt)
              λ inside.
                branch-IsSafe (t == 0) _ _ (λ _. tt)
                  λ _.
                    server_name_loop-IsSafe fuel bytes list_end (offset + 3 + n) name (omega tests)
                      k)
        (λ _. tt)

  server_name_extension-IsSafe :
      (bytes : Bytes) (offset stop : ℕ) (names : Names)
      → offset + 2 ≤ stop
      → stop ≤ length bytes
      → IsSafe (server_name_extension decode bytes offset stop names)
  unfolding server_name_extension
  server_name_extension-IsSafe bytes offset stop names big h =
      uint16-IsSafe bytes offset _ (omega arith) λ n.
        bind-IsSafe _ _
          (server_name_loop-IsSafe (suc (length bytes)) bytes (min stop (offset + 2 + n))
            (offset + 2) names.server_name (omega arith) (omega arith))
          λ _. tt

  alpn_extension-IsSafe :
      (bytes : Bytes) (offset stop : ℕ) (names : Names)
      → offset + 3 ≤ stop
      → stop ≤ length bytes
      → IsSafe (alpn_extension decode bytes offset stop names)
  unfolding alpn_extension
  alpn_extension-IsSafe bytes offset stop names big h =
      uint16-IsSafe bytes offset _ (omega arith)
        λ n. byte-IsSafe bytes (offset + 2) _ (omega arith) λ _. tt

  extension-IsSafe :
      (bytes : Bytes) (type size offset : ℕ) (names : Names)
      → offset + size ≤ length bytes
      → IsSafe (extension decode bytes type size offset names)
  unfolding extension
  extension-IsSafe bytes type size offset names h =
      if-IsSafe ((type == 0) && leb 5 size) _ _
        (λ sni.
          server_name_extension-IsSafe bytes offset (offset + size) names
            (omega (tests, and-right (type == 0) (leb 5 size) sni)) h)
        λ _.
          if-IsSafe ((type == 16) && leb 3 size) _ _
            (λ alpn.
              alpn_extension-IsSafe bytes offset (offset + size) names
                (omega (tests, and-right (type == 16) (leb 3 size) alpn)) h)
            λ _. tt

  extensions_loop-IsSafe :
      (fuel : ℕ) (bytes : Bytes) (extensions_end offset : ℕ) (names : Names)
      → extensions_end - offset < fuel
      → extensions_end ≤ length bytes
      → IsSafe (extensions_loop decode fuel bytes extensions_end offset names)
  unfolding extensions_loop
  extensions_loop-IsSafe zero bytes extensions_end offset names h k = absurd (omega arith)
  extensions_loop-IsSafe (suc fuel) bytes extensions_end offset names h k =
      branch-IsSafe (leb (offset + 4) extensions_end) _ _
        (λ more. uint16-IsSafe bytes offset _ (omega tests) λ t.
          uint16-IsSafe bytes (offset + 2) _ (omega tests) λ n.
            guard-IsSafe (leb (offset + 4 + n) extensions_end) _ _ λ fits.
              bind-IsSafe (extension decode bytes t n (offset + 4) names) _
                (extension-IsSafe bytes t n (offset + 4) names (omega tests))
                λ names'.
                  extensions_loop-IsSafe fuel bytes extensions_end (offset + 4 + n) names'
                    (omega tests) k)
        (λ _. tt)

  read_extensions-IsSafe :
      (bytes : Bytes) (offset : ℕ) → IsSafe (read_extensions decode bytes offset)
  unfolding read_extensions
  read_extensions-IsSafe bytes offset = guard-IsSafe (not (offset == length bytes)) _ _ λ _.
      guard-IsSafe (leb (offset + 2) (length bytes)) _ _ λ fits.
        uint16-IsSafe bytes offset _ (omega tests) λ n.
          guard-IsSafe (leb (offset + 2 + n) (length bytes)) _ _ λ inside.
            extensions_loop-IsSafe (suc (length bytes)) bytes (offset + 2 + n) (offset + 2) _
              (omega tests) (omega tests)

  read_hello-IsSafe : (bytes : Bytes) → IsSafe (read_hello decode bytes)
  unfolding read_hello
  read_hello-IsSafe bytes = guard-IsSafe (leb 35 (length bytes)) _ _ λ long.
      byte-IsSafe bytes 34 _ (omega tests) λ session.
        guard-IsSafe (leb (34 + 1 + session + 2) (length bytes)) _ _ λ fits.
          uint16-IsSafe bytes (34 + 1 + session) _ (omega tests) λ ciphers.
            guard-IsSafe (ltb (34 + 1 + session + 2 + ciphers) (length bytes)) _ _ λ more.
              byte-IsSafe bytes (34 + 1 + session + 2 + ciphers) _ (omega tests) λ compression.
                read_extensions-IsSafe bytes (34 + 1 + session + 2 + ciphers + 1 + compression)

  conclude-in_range : (m : Read Names) → IsSafe m → conclude decode m ≢ out_of_range
  unfolding conclude
  conclude-in_range fault h = absurd h
  conclude-in_range (reject r) h = λ e. cc
  conclude-in_range (ok names) h = λ e. ground arith

  parse_scan-in_range : (s : Scan) → s ≢ stuck → parse_scan decode s ≢ out_of_range
  unfolding parse_scan
  parse_scan-in_range partial h = λ e. cc
  parse_scan-in_range (malformed r) h = λ e. cc
  parse_scan-in_range (hello bytes) h =
      conclude-in_range (read_hello decode bytes) (read_hello-IsSafe bytes)
  parse_scan-in_range stuck h = absurd (h refl)

  -- On every input `parseClientHello` ends with incomplete, invalid or complete: no loop of the
  -- model runs out of fuel, and no byte outside the ClientHello is read.
  pub parse_client_hello-in_range : (bytes : Bytes) → parse_client_hello decode bytes ≢ out_of_range
  unfolding parse_client_hello
  parse_client_hello-in_range bytes =
      parse_scan-in_range (scan_records bytes) (scan_records-ne-stuck bytes)
