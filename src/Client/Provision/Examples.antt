-- ===== src/Client/Provision/Examples.antt =====
-- A server and keys, and instances of the theorems of client.ts.
use shuvtunnel.Common.{
  ℕ, zero, suc, ◌+◌, ◌<◌, ◌≡◌, refl, [], ◌∷◌, Option, some, true, codes, same, arith,
}
use shuvtunnel.Store.{CertificateState, issuing, ready, failed}
use shuvtunnel.Client.{Identity}
use shuvtunnel.Client.Maps.{lookup, insert, delete}
use shuvtunnel.Client.Storage.{Pending, Memory, no_memory, memory}
use shuvtunnel.Client.Provision.{
  bound, Remote, World, done, completed, complete_pending, wait_certificate, new_pending, provision,
  create_tunnel, create, ensure,
}
use shuvtunnel.Client.Provision.Waiting.{Pends}
use shuvtunnel.Client.Provision.Finishing.{complete_pending-ready}
use shuvtunnel.Client.Provision.Keeping.{Keeps, ensure-Keeps}

abbrev answer_at : ℕ → ℕ → Option CertificateState
answer_at zero n = some (ready (codes "new cert") [] 7)
answer_at (suc k) zero = some issuing
answer_at (suc k) (suc n) = answer_at k n

-- A server that has the certificate at the request with this number.
abbrev serving : ℕ → Remote
serving at = record {
  created = λ n. some (codes "t3", codes "h.example.com", codes "token");
  binding = λ n. bound;
  certificate = λ n. answer_at at n;
  removal = λ n. true;
  generated_key = λ n. some (codes "key");
  request_for = λ hostname key. some (codes "csr");
  exported_key = λ key. some (codes "pem");
}

abbrev waiting_tunnel : Pending
waiting_tunnel = record {
  id = codes "t3";
  hostname = codes "h.example.com";
  token = codes "token";
  private_key = codes "pem";
  csr = codes "csr";
}

abbrev empty_world : World Memory
empty_world = record { store = no_memory; requests = []; stages = [] }

Pends-twice : (k : ℕ) → k < 2 → Pends ((serving 3).certificate (1 + k))
Pends-twice zero l = tt
Pends-twice (suc zero) l = tt
Pends-twice (suc (suc k)) l = absurd (omega (arith, l))

-- The certificate is there at the third poll.
complete_pending-ready_example :
    (let out = complete_pending memory (serving 3) 5 (codes "home") waiting_tunnel empty_world in
      let identity : Identity = record {
        id = codes "t3";
        hostname = codes "h.example.com";
        token = codes "token";
        private_key = codes "pem";
        certificate = codes "new cert";
        chain = [];
        certificate_expiry = 7;
      } in
      (out.0 ≡ done identity) × (out.1.store ≡ memory.save (codes "home") identity no_memory))
complete_pending-ready_example =
    complete_pending-ready memory (serving 3) (codes "home") waiting_tunnel 2 5 empty_world
      (codes "new cert") [] 7 (ground arith) Pends-twice refl (omega arith)

abbrev carol : Identity
carol = record {
  id = codes "t3";
  hostname = codes "h.example.com";
  token = codes "token";
  private_key = codes "pem";
  certificate = codes "cert";
  chain = [];
  certificate_expiry = 5;
}

abbrev carols_world : World Memory
carols_world = record {
  store = record { identities = (codes "home", carol) ∷ []; pending = [] };
  requests = [];
  stages = [];
}

-- A server whose issuance failed, and that fails again.
abbrev failing : Remote
failing = record (serving 0) { certificate = λ n. some (failed (codes "dns")) }

carols_home : lookup (codes "home") carols_world.store.identities ≡ some carol
unfolding lookup same
carols_home = refl

ensure-Keeps_example :
    (let out = ensure memory failing 5 (codes "home") carols_world in
      Keeps (codes "home") carol out.0 out.1.store)
ensure-Keeps_example = ensure-Keeps failing (codes "home") carol 5 carols_world carols_home

create_test :
    (create memory (serving 2) 5 (codes "home") empty_world).0
    ≡ done (completed waiting_tunnel (codes "new cert", [], 7))
unfolding create create_tunnel provision new_pending complete_pending wait_certificate lookup insert
    delete same
create_test = refl
