-- ===== src/Client/Provision/Keeping.antt =====
-- With the storage in memory a stored tunnel is never lost, packages/client/src/effect/client.ts.
use shuvtunnel.Common.{
  ℕ, ◌≡◌, inl, inr, refl, ap, ◌∙◌, subst, Option, some, true, false, Text, same_refl, arith,
}
use shuvtunnel.Client.{Identity}
use shuvtunnel.Client.Maps.{lookup, lookup-insert}
use shuvtunnel.Client.Storage.{
  Pending, Outcome, ok, Memory, memory, memory_save, memory_save_pending,
}
use shuvtunnel.Client.Provision.{Remote, World, Result, done, raises, defect, waits, ensure}
use shuvtunnel.Client.Provision.Outcomes.{is_done, Completes}
use shuvtunnel.Client.Provision.Ensuring.{Checks, Ensures, ensure-Ensures}

-- The profile has the same tunnel as before, with its key if the run fails.
abbrev pub Keeps : Text → Identity → Result Identity → Memory → Type 0
Keeps profile i result after =
    (j : Identity) × (lookup profile after.identities ≡ some j)
    × (j.id ≡ i.id)
    × (j.hostname ≡ i.hostname)
    × (j.token ≡ i.token)
    × (is_done result ≡ false → j ≡ i)

module _ (remote : Remote) (profile : Text) (i : Identity) where
  still :
      (before after : Memory)
      → after ≡ before
      → lookup profile before.identities ≡ some i
      → lookup profile after.identities ≡ some i
  still before after s h = ap (λ (m : Memory). lookup profile m.identities) s ∙ h

  saved :
      (j : Identity) (before after : Memory)
      → after ≡ memory_save profile j before
      → lookup profile after.identities ≡ some j
  saved j before after s =
      ap (λ (m : Memory). lookup profile m.identities) s
      ∙ simp (lookup-insert, same_refl profile) refl

  Completes-Keeps :
      (x : Pending) (before : Memory) (result : Result Identity) (after : Memory)
      → lookup profile before.identities ≡ some i
      → x.id ≡ i.id
      → x.hostname ≡ i.hostname
      → x.token ≡ i.token
      → Completes memory remote profile x (memory_save_pending profile x before) result after
      → Keeps profile i result after
  Completes-Keeps x before (done j) after h a b c (s, p, q, r, k) = (
    j,
    saved j (memory_save_pending profile x before) after s,
    p ∙ a,
    q ∙ b,
    r ∙ c,
    λ (n : true ≡ false). cc,
  )
  Completes-Keeps x before (raises e) after h a b c s = (
    i,
    still (memory_save_pending profile x before) after s h,
    refl,
    refl,
    refl,
    λ (n : false ≡ false). refl,
  )
  Completes-Keeps x before defect after h a b c s = (
    i,
    still (memory_save_pending profile x before) after s h,
    refl,
    refl,
    refl,
    λ (n : false ≡ false). refl,
  )
  Completes-Keeps x before waits after h a b c s = (
    i,
    still (memory_save_pending profile x before) after s h,
    refl,
    refl,
    refl,
    λ (n : false ≡ false). refl,
  )

  Checks-Keeps :
      (before : Memory) (result : Result Identity) (after : Memory)
      → lookup profile before.identities ≡ some i
      → Checks memory remote profile i before result after
      → Keeps profile i result after
  Checks-Keeps before result after h (inl u) =
      (i, still before after u.1 h, refl, refl, refl, λ (n : is_done result ≡ false). refl)
  Checks-Keeps before result after h (inr (inl (d, a))) =
      (i, still before after a h, refl, refl, refl, λ (n : is_done result ≡ false). refl)
  Checks-Keeps before result after h (inr (inr (inl (j, d, a, p, q, r, k)))) =
      (j, saved j before after a, p, q, r, λ (n : is_done result ≡ false). ground (arith, d, n))
  Checks-Keeps before result after h (inr (inr (inr (inl u)))) =
      (i, still before after u.1 h, refl, refl, refl, λ (n : is_done result ≡ false). refl)
  Checks-Keeps before result after h (inr (inr (inr (inr (x, p, q, r, c))))) =
      Completes-Keeps x before result after h p q r c

  -- With the storage in memory, if a profile has a stored tunnel, then after `ensure`, whatever
  -- the server and the keys answer, it has a tunnel with the same identifier, hostname and token,
  -- and the very same one if `ensure` does not succeed.
  pub ensure-Keeps :
      (fuel : ℕ) (w : World Memory)
      → lookup profile w.store.identities ≡ some i
      → (let out = ensure memory remote fuel profile w in Keeps profile i out.0 out.1.store)
  ensure-Keeps fuel w h =
      let out = ensure memory remote fuel profile w in
      Checks-Keeps w.store out.0 out.1.store h (
        subst
          (λ (o : Outcome (Option Identity)).
            Ensures memory remote profile o (memory.load_pending profile w.store) w.store out.0
              out.1.store)
          (ap ok h) (ensure-Ensures memory remote fuel profile w))
