-- ===== src/Client/Provision/Waiting.antt =====
-- The polling of packages/client/src/effect/client.ts: it ends, and leaves the storage alone.
use shuvtunnel.Common.{
  ℕ, zero, suc, ◌+◌, ◌<◌, ◌≡◌, refl, ap, ◌∙◌, subst, [], ◌∷◌, ◌++◌, Option, none, some, Text,
  length, length-append, arith,
}
use shuvtunnel.Store.{CertificateState, challenge, issuing, ready, failed}
use shuvtunnel.Client.Storage.{Storage}
use shuvtunnel.Client.Provision.{waiting_certificate, asks, Remote, World, done, wait_certificate}

-- The answer lets the loop poll again.
abbrev pub Pends : Option CertificateState → Type 0
Pends none = ⊥
Pends (some (ready c h e)) = ⊥
Pends (some (failed r)) = ⊥
Pends (some issuing) = Unit
Pends (some (challenge a b)) = Unit

module _ {S : Type 0} (storage : Storage S) (remote : Remote) (id : Text) where
  pub wait_certificate-store :
      (fuel : ℕ) (w : World S) → (wait_certificate storage remote id fuel w).1.store ≡ w.store
  unfolding wait_certificate
  wait_certificate-store zero w = refl
  wait_certificate-store (suc fuel) w =
      let v = record w {
        requests = w.requests ++ asks id ∷ [];
        stages = w.stages ++ waiting_certificate ∷ [];
      } in
      ground (arith, wait_certificate-store fuel v)

  polled : World S → World S
  polled w = record w {
    requests = w.requests ++ asks id ∷ [];
    stages = w.stages ++ waiting_certificate ∷ [];
  }

  poll-again :
      (fuel : ℕ) (w : World S) (answer : Option CertificateState)
      → remote.certificate (length w.requests) ≡ answer
      → Pends answer
      → wait_certificate storage remote id (suc fuel) w
        ≡ wait_certificate storage remote id fuel (polled w)
  unfolding wait_certificate polled
  poll-again fuel w (some issuing) h p = ground (arith, h)
  poll-again fuel w (some (challenge a b)) h p = ground (arith, h)
  poll-again fuel w (some (ready a b c)) h p = absurd p
  poll-again fuel w (some (failed a)) h p = absurd p
  poll-again fuel w none h p = absurd p

  Pends-at : (i j : ℕ) → i ≡ j → Pends (remote.certificate i) → Pends (remote.certificate j)
  Pends-at i j e p = subst (λ (k : ℕ). Pends (remote.certificate k)) e p

  pub wait_certificate-ready :
      (n fuel : ℕ) (w : World S) (certificate chain : Text) (expiry : ℕ)
      → ((k : ℕ) → k < n → Pends (remote.certificate (length w.requests + k)))
      → remote.certificate (length w.requests + n) ≡ some (ready certificate chain expiry)
      → n < fuel
      → ((wait_certificate storage remote id fuel w).0 ≡ done (certificate, chain, expiry))
        × (length (wait_certificate storage remote id fuel w).1.requests
            ≡ length w.requests + suc n)
  unfolding wait_certificate polled
  wait_certificate-ready n zero w certificate chain expiry p r h = absurd (omega (arith, h))
  wait_certificate-ready zero (suc fuel) w certificate chain expiry p r h =
      ground (arith, r, length-append w.requests (asks id ∷ []))
  wait_certificate-ready (suc n) (suc fuel) w certificate chain expiry p r h =
      let size : length (polled w).requests ≡ suc (length w.requests) =
        omega (arith, length-append w.requests (asks id ∷ [])) in
      let first : Pends (remote.certificate (length w.requests)) =
        Pends-at (length w.requests + 0) (length w.requests) (omega arith) (p 0 (omega arith)) in
      let later : (k : ℕ) → k < n → Pends (remote.certificate (length (polled w).requests + k)) =
        λ k l.
          Pends-at (length w.requests + suc k) (length (polled w).requests + k)
            (omega (arith, size)) (p (suc k) (omega (arith, l))) in
      let at_last : remote.certificate (length (polled w).requests + n)
          ≡ some (ready certificate chain expiry) =
        ap (λ (i : ℕ). remote.certificate i) (omega (arith, size)) ∙ r in
      let rest =
        wait_certificate-ready n fuel (polled w) certificate chain expiry later at_last
          (omega (arith, h)) in
      rw (poll-again fuel w (remote.certificate (length w.requests)) refl first)
        (rest.0, omega (arith, rest.1, size))
