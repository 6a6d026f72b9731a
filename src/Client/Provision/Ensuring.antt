-- ===== src/Client/Provision/Ensuring.antt =====
-- What `ensure` and `remove` of packages/client/src/effect/client.ts leave in the storage.
use shuvtunnel.Common.{
  ℕ, ◌≡◌, ◌≢◌, ◌⊎◌, inl, inr, refl, sym, subst, [], ◌∷◌, ◌++◌, Option, none, some, true, false,
  Text, length, same, arith, Bool-cases, Option-cases,
}
use shuvtunnel.Store.{CertificateState, challenge, issuing, ready, failed}
use shuvtunnel.Client.{Identity}
use shuvtunnel.Client.Storage.{Pending, Outcome, ok, fails, dies, Storage}
use shuvtunnel.Client.Provision.{
  asks, Remote, World, Result, done, create, check_existing, ensure, remove, renewed,
}
use shuvtunnel.Client.Provision.Outcomes.{
  is_done, Provisions, Unchanged, Creates, create-Creates, provision-Provisions,
}

module _ {S : Type 0} (storage : Storage S) (remote : Remote) where
  pub remove-Removes :
      (profile : Text) (w : World S)
      → (let out = remove storage remote profile w in
          ((is_done out.0 ≡ true)
            × (storage.load profile w.store ≡ ok none)
            × (out.1.store ≡ w.store))
          ⊎ ((is_done out.0 ≡ true)
              × (storage.load profile w.store ≢ ok none)
              × (out.1.store ≡ storage.remove profile w.store))
          ⊎ ((is_done out.0 ≡ false) × (out.1.store ≡ w.store)))
  unfolding remove
  remove-Removes profile w = ground arith

  -- A stored tunnel stays, gets the server's certificate, or is provisioned again under its name.
  abbrev pub Checks : Text → Identity → S → Result Identity → S → Type 0
  Checks profile i before result after =
      Unchanged before result after
      ⊎ ((result ≡ done i) × (after ≡ before))
      ⊎ ((j : Identity) × (result ≡ done j)
          × (after ≡ storage.save profile j before)
          × (j.id ≡ i.id)
          × (j.hostname ≡ i.hostname)
          × (j.token ≡ i.token)
          × (j.private_key ≡ i.private_key))
      ⊎ Provisions storage remote profile i.id i.hostname i.token before result after

  check_existing-Checks :
      (fuel : ℕ) (profile : Text) (i : Identity) (state : CertificateState) (w : World S)
      → (let out = check_existing storage remote fuel profile i state w in
          Checks profile i w.store out.0 out.1.store)
  unfolding check_existing
  check_existing-Checks fuel profile i (ready c h e) w = elim (Bool-cases (same c i.certificate)) [
    | inl q ↦ inr (inl (ground (arith, q)))
    | inr q ↦
        inr (
          inr (inl (renewed c h e i, ground (arith, q), ground (arith, q), refl, refl, refl, refl)))
  ]
  check_existing-Checks fuel profile i (failed reason) w =
      inr (inr (inr (provision-Provisions storage remote fuel profile i.id i.hostname i.token w)))
  check_existing-Checks fuel profile i issuing w = inr (inl (refl, refl))
  check_existing-Checks fuel profile i (challenge a b) w = inr (inl (refl, refl))

  -- What `ensure` makes of what the storage has.
  abbrev pub Ensures :
      Text → Outcome (Option Identity) → Outcome (Option Pending) → S → Result Identity → S → Type 0
  Ensures profile (ok none) x before result after =
      Creates storage remote profile (ok none) x before result after
  Ensures profile (ok (some i)) x before result after = Checks profile i before result after
  Ensures profile (fails e) x before result after = Unchanged before result after
  Ensures profile dies x before result after = Unchanged before result after

  asked : Identity → World S → World S
  asked i w = record w { requests = w.requests ++ asks i.id ∷ [] }

  ensure-absent :
      (fuel : ℕ) (profile : Text) (w : World S)
      → storage.load profile w.store ≡ ok none
      → ensure storage remote fuel profile w ≡ create storage remote fuel profile w
  unfolding ensure
  ensure-absent fuel profile w h = ground (arith, h)

  ensure-checked :
      (fuel : ℕ) (profile : Text) (w : World S) (i : Identity) (state : CertificateState)
      → storage.load profile w.store ≡ ok (some i)
      → remote.certificate (length w.requests) ≡ some state
      → ensure storage remote fuel profile w
        ≡ check_existing storage remote fuel profile i state (asked i w)
  unfolding ensure asked
  ensure-checked fuel profile w i state h k = ground (arith, h, k)

  ensure-unread :
      (fuel : ℕ) (profile : Text) (w : World S) (i : Identity)
      → storage.load profile w.store ≡ ok (some i)
      → remote.certificate (length w.requests) ≡ none
      → (let out = ensure storage remote fuel profile w in Unchanged w.store out.0 out.1.store)
  unfolding ensure
  ensure-unread fuel profile w i h k = ground (arith, h, k)

  ensure-Checks :
      (fuel : ℕ) (profile : Text) (w : World S) (i : Identity)
      → storage.load profile w.store ≡ ok (some i)
      → (let out = ensure storage remote fuel profile w in
          Checks profile i w.store out.0 out.1.store)
  unfolding asked
  ensure-Checks fuel profile w i h = elim (Option-cases (remote.certificate (length w.requests))) [
    | inl k ↦ inl (ensure-unread fuel profile w i h k)
    | inr (state, k) ↦
        rw (ensure-checked fuel profile w i state h k)
          (check_existing-Checks fuel profile i state (asked i w))
  ]

  pub ensure-Ensures :
      (fuel : ℕ) (profile : Text) (w : World S)
      → (let out = ensure storage remote fuel profile w in
          Ensures profile
            (storage.load profile w.store)
            (storage.load_pending profile w.store)
            w.store
            out.0
            out.1.store)
  unfolding ensure
  ensure-Ensures fuel profile w = by_stored (storage.load profile w.store) refl
    where
      by_stored :
          (i : Outcome (Option Identity))
          → storage.load profile w.store ≡ i
          → (let out = ensure storage remote fuel profile w in
              Ensures profile i (storage.load_pending profile w.store) w.store out.0 out.1.store)
      by_stored (ok none) h =
          let fresh =
            subst
              (λ (i : Outcome (Option Identity)).
                let out = create storage remote fuel profile w in
                Creates storage remote profile i (storage.load_pending profile w.store) w.store
                  out.0 out.1.store)
              h (create-Creates storage remote fuel profile w) in
          subst
            (λ (out : Result Identity × World S).
              Creates storage remote profile (ok none) (storage.load_pending profile w.store)
                w.store out.0 out.1.store)
            (sym (ensure-absent fuel profile w h)) fresh
      by_stored (ok (some i)) h = ensure-Checks fuel profile w i h
      by_stored (fails e) h = ground (arith, h)
      by_stored dies h = ground (arith, h)
