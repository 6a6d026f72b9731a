-- ===== src/Hello/Records/Progress.antt =====
-- The loop over TLS records ends, and a result once reached does not change with more data.
use shuvtunnel.Common.{
  ℕ, zero, suc, ◌+◌, ◌*◌, ◌≤◌, ◌≡◌, ◌≢◌, refl, ◌∙◌, ap, [], ◌∷◌, ◌++◌, Option, none, some, arith,
  length, length-append, length-drop, take-append_le, drop-append_le, inl, inr, ◌⊎◌,
}
use shuvtunnel.Frame.{Bytes}
use shuvtunnel.Hello.Reader.{expected_handshake_record}
use shuvtunnel.Hello.Records.{
  Scan, partial, malformed, hello, stuck, short, header, finish, Record, cut_off, wrong_type,
  fragment, take_record, Absorbed, stop, go_on, absorb, records, scan_records,
}

take_record-length :
    (bytes p next : Bytes) → take_record bytes ≡ fragment p next → length next + 5 ≤ length bytes
unfolding take_record
take_record-length [] p next e = cc
take_record-length (t ∷ []) p next e = cc
take_record-length (t ∷ _ ∷ []) p next e = cc
take_record-length (t ∷ _ ∷ _ ∷ []) p next e = cc
take_record-length (t ∷ _ ∷ _ ∷ _ ∷ []) p next e = cc
take_record-length (t ∷ _ ∷ _ ∷ high ∷ low ∷ body) p next e =
    ground (arith, length-drop (high * 256 + low) body)

-- A whole record is read the same way when more data follows.
take_record-append :
    (bytes more p next : Bytes)
    → take_record bytes ≡ fragment p next
    → take_record (bytes ++ more) ≡ fragment p (next ++ more)
unfolding take_record
take_record-append [] more p next e = cc
take_record-append (t ∷ []) more p next e = cc
take_record-append (t ∷ _ ∷ []) more p next e = cc
take_record-append (t ∷ _ ∷ _ ∷ []) more p next e = cc
take_record-append (t ∷ _ ∷ _ ∷ _ ∷ []) more p next e = cc
take_record-append (t ∷ _ ∷ _ ∷ high ∷ low ∷ body) more p next e = ground (
  arith,
  length-append body more,
  take-append_le (high * 256 + low) body more,
  drop-append_le (high * 256 + low) body more,
)

take_record-append_wrong :
    (bytes more : Bytes) → take_record bytes ≡ wrong_type → take_record (bytes ++ more) ≡ wrong_type
unfolding take_record
take_record-append_wrong [] more e = cc
take_record-append_wrong (t ∷ []) more e = cc
take_record-append_wrong (t ∷ _ ∷ []) more e = cc
take_record-append_wrong (t ∷ _ ∷ _ ∷ []) more e = cc
take_record-append_wrong (t ∷ _ ∷ _ ∷ _ ∷ []) more e = cc
take_record-append_wrong (t ∷ _ ∷ _ ∷ high ∷ low ∷ body) more e = ground arith

-- While the loop goes on, the handshake message is not all there.
header-short : (g : Bytes) (known : Option ℕ) → header g known ≡ short → finish g known ≡ partial
unfolding header finish
header-short [] none e = refl
header-short [] (some n) e = ground arith
header-short (_ ∷ []) none e = refl
header-short (_ ∷ []) (some n) e = ground arith
header-short (_ ∷ _ ∷ []) none e = refl
header-short (_ ∷ _ ∷ []) (some n) e = ground arith
header-short (_ ∷ _ ∷ _ ∷ []) none e = refl
header-short (_ ∷ _ ∷ _ ∷ []) (some n) e = ground arith
header-short (t ∷ _ ∷ _ ∷ _ ∷ rest) known e = ground arith

absorb-pending :
    (g : Bytes) (known next : Option ℕ) → absorb g known ≡ go_on next → finish g next ≡ partial
unfolding absorb finish
absorb-pending g known next e = ground (arith, header-short g known)

absorb-ne-stuck : (g : Bytes) (known : Option ℕ) → absorb g known ≢ stop stuck
unfolding absorb finish
absorb-ne-stuck g known e = ground arith

abbrev pub Conclusive : Scan → Type 0
Conclusive partial = ⊥
Conclusive stuck = ⊥
Conclusive (malformed r) = Unit
Conclusive (hello bytes) = Unit

finish-ne-stuck : (g : Bytes) (known : Option ℕ) → finish g known ≢ stuck
unfolding finish
finish-ne-stuck g none e = cc
finish-ne-stuck g (some n) e = ground arith

Record-cases :
    (r : Record)
    → (r ≡ cut_off) ⊎ (r ≡ wrong_type) ⊎ ((p : Bytes) × (next : Bytes) × (r ≡ fragment p next))
Record-cases cut_off = inl refl
Record-cases wrong_type = inr (inl refl)
Record-cases (fragment p next) = inr (inr (p, next, refl))

Absorbed-cases : (a : Absorbed) → ((s : Scan) × (a ≡ stop s)) ⊎ ((k : Option ℕ) × (a ≡ go_on k))
Absorbed-cases (stop s) = inl (s, refl)
Absorbed-cases (go_on k) = inr (k, refl)

-- A property of every result of the rounds: of an early end, and of what the next round gives.
records_round :
    (P : Scan → Type 0) (fuel : ℕ) (t : ℕ) (rest g : Bytes) (known : Option ℕ)
    → (take_record (t ∷ rest) ≡ cut_off → P partial)
    → (take_record (t ∷ rest) ≡ wrong_type → P (malformed expected_handshake_record))
    → ((p next : Bytes) (s : Scan)
        → take_record (t ∷ rest) ≡ fragment p next
        → absorb (g ++ p) known ≡ stop s
        → P s)
    → ((p next : Bytes) (k : Option ℕ)
        → take_record (t ∷ rest) ≡ fragment p next
        → absorb (g ++ p) known ≡ go_on k
        → P (records fuel next (g ++ p) k))
    → P (records (suc fuel) (t ∷ rest) g known)
unfolding records
records_round P fuel t rest g known cut wrong stopped goes =
    elim (Record-cases (take_record (t ∷ rest))) [
      | inl c ↦ rw (c, records) (cut c)
      | inr (inl c) ↦ rw (c, records) (wrong c)
      | inr (inr (p, next, c)) ↦ elim (Absorbed-cases (absorb (g ++ p) known)) [
        | inl (s, a) ↦ rw (c, a, records) (stopped p next s c a)
        | inr (k, a) ↦ rw (c, a, records) (goes p next k c a)
      ]
    ]

records-ne-stuck :
    (fuel : ℕ) (rest g : Bytes) (known : Option ℕ)
    → length rest ≤ fuel
    → records fuel rest g known ≢ stuck
unfolding records
records-ne-stuck fuel [] g known h = finish-ne-stuck g known
records-ne-stuck zero (t ∷ rest) g known h = absurd (omega arith)
records-ne-stuck (suc fuel) (t ∷ rest) g known h =
    records_round (λ s. s ≢ stuck) fuel t rest g known (λ _ e. cc) (λ _ e. cc)
      (λ p next s _ a e. absorb-ne-stuck (g ++ p) known (a ∙ ap stop e))
      (λ p next k c _.
        records-ne-stuck fuel next (g ++ p) k
          (omega (arith, take_record-length (t ∷ rest) p next c)))

pub scan_records-ne-stuck : (bytes : Bytes) → scan_records bytes ≢ stuck
unfolding scan_records
scan_records-ne-stuck bytes = records-ne-stuck (length bytes) bytes [] none (omega arith)

-- The same rounds over longer data give the same result, once there is one.
records-append :
    (fuel more_fuel : ℕ) (rest more g : Bytes) (known : Option ℕ)
    → finish g known ≡ partial
    → length (rest ++ more) ≤ more_fuel
    → Conclusive (records fuel rest g known)
    → records more_fuel (rest ++ more) g known ≡ records fuel rest g known
unfolding records
records-append fuel more_fuel [] more g known pending h c = absurd (rw pending at c)
records-append zero more_fuel (t ∷ rest) more g known pending h c = absurd c
records-append (suc fuel) zero (t ∷ rest) more g known pending h c = absurd (omega arith)
records-append (suc fuel) (suc more_fuel) (t ∷ rest) more g known pending h c =
    records_round (λ s. Conclusive s → records (suc more_fuel) (t ∷ rest ++ more) g known ≡ s) fuel
      t rest g known (λ _ c. absurd c)
      (λ w _. rw (take_record-append_wrong (t ∷ rest) more w, records))
      (λ p next s f a _. rw (take_record-append (t ∷ rest) more p next f, a, records))
      (λ p next k f a c.
        rw (take_record-append (t ∷ rest) more p next f, a, records)
          (records-append fuel more_fuel next more (g ++ p) k (absorb-pending (g ++ p) known k a)
            (omega (
              arith,
              take_record-length (t ∷ rest) p next f,
              length-append rest more,
              length-append next more,
            ))
            c))
      c

pub scan_records-append :
    (bytes more : Bytes)
    → Conclusive (scan_records bytes)
    → scan_records (bytes ++ more) ≡ scan_records bytes
unfolding scan_records
scan_records-append bytes more =
    records-append (length bytes) (length (bytes ++ more)) bytes more [] none refl (omega arith)
