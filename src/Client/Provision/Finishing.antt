-- ===== src/Client/Provision/Finishing.antt =====
-- A pending tunnel gets its certificate once the server has it, packages/client/src/effect/client.ts.
use shuvtunnel.Common.{
  ℕ, ◌+◌, ◌<◌, ◌≡◌, ◌≢◌, ap, ◌∙◌, subst, [], ◌∷◌, ◌++◌, some, Text, length, length-append, arith,
}
use shuvtunnel.Store.{ready}
use shuvtunnel.Client.{Identity}
use shuvtunnel.Client.Storage.{Pending, Storage}
use shuvtunnel.Client.Provision.{
  requesting_certificate, binds, refused, Remote, World, done, wait_certificate, completed,
  complete_pending,
}
use shuvtunnel.Client.Provision.Waiting.{Pends, wait_certificate-ready, wait_certificate-store}

module _ {S : Type 0} (storage : Storage S) (remote : Remote) (profile : Text) (x : Pending) where
  bound_world : World S → World S
  bound_world w = record w {
    requests = w.requests ++ binds x.id x.csr ∷ [];
    stages = w.stages ++ requesting_certificate ∷ [];
  }

  complete_pending-waited :
      (fuel : ℕ) (w : World S) (reply : Text × Text × ℕ)
      → remote.binding (length w.requests) ≢ refused
      → (wait_certificate storage remote x.id fuel (bound_world w)).0 ≡ done reply
      → (let out = complete_pending storage remote fuel profile x w in
          (out.0 ≡ done (completed x reply))
          × (out.1.store ≡ storage.save profile (completed x reply) w.store))
  unfolding complete_pending bound_world
  complete_pending-waited fuel w reply b h =
      ground (arith, b, h, wait_certificate-store storage remote x.id fuel (bound_world w))

  -- Let the server not refuse the certificate request of a pending tunnel, let it answer
  -- `issuing` or a challenge to the first `n` polls and `ready` to the next, and let more than
  -- `n` polls be allowed. Then completing the pending tunnel succeeds with the pending tunnel's
  -- identifier, hostname, token and key and the server's certificate, and saves just that.
  pub complete_pending-ready :
      (n fuel : ℕ) (w : World S) (certificate chain : Text) (expiry : ℕ)
      → remote.binding (length w.requests) ≢ refused
      → ((k : ℕ) → k < n → Pends (remote.certificate (length w.requests + 1 + k)))
      → remote.certificate (length w.requests + 1 + n) ≡ some (ready certificate chain expiry)
      → n < fuel
      → (let out = complete_pending storage remote fuel profile x w in
          let identity : Identity = record {
            id = x.id;
            hostname = x.hostname;
            token = x.token;
            private_key = x.private_key;
            certificate = certificate;
            chain = chain;
            certificate_expiry = expiry;
          } in
          (out.0 ≡ done identity) × (out.1.store ≡ storage.save profile identity w.store))
  unfolding bound_world
  complete_pending-ready n fuel w certificate chain expiry b p r h =
      let size : length (bound_world w).requests ≡ length w.requests + 1 =
        length-append w.requests (binds x.id x.csr ∷ []) in
      let pends : (k : ℕ)
          → k < n
          → Pends (remote.certificate (length (bound_world w).requests + k)) =
        λ k l. subst (λ (m : ℕ). Pends (remote.certificate m)) (omega (arith, size)) (p k l) in
      let last : remote.certificate (length (bound_world w).requests + n)
          ≡ some (ready certificate chain expiry) =
        ap (λ (m : ℕ). remote.certificate m) (omega (arith, size)) ∙ r in
      complete_pending-waited fuel w (certificate, chain, expiry) b
        (wait_certificate-ready storage remote x.id n fuel (bound_world w) certificate chain expiry
          pends last h).0
