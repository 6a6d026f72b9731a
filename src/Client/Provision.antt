-- ===== src/Client/Provision.antt =====
-- packages/client/src/effect/client.ts: how a client gets a tunnel with its certificate, keeps it and
-- removes it. The answers of the server and of the platform's keys are a parameter; a run is its effect
-- on the storage, the requests and the stages that it reports.
pub mod Waiting
pub mod Outcomes
pub mod Ensuring
pub mod Keeping
pub mod Finishing
pub mod Connecting
mod Examples
use shuvtunnel.Common.{
  ℕ, zero, suc, List, [], ◌∷◌, ◌++◌, Option, none, some, Bool, true, false, not, if◌then◌else◌,
  Text, codes, length, same,
}
use shuvtunnel.Store.{CertificateState, challenge, issuing, ready, failed}
use shuvtunnel.Client.{Identity}
use shuvtunnel.Client.Storage.{Pending, Failure, client_error, Outcome, ok, fails, dies, Storage}

-- `ShuvTunnelProvisionStage`
pub data Stage : Type 0 where
  creating_tunnel generating_key generating_csr resuming_certificate requesting_certificate : Stage
  waiting_certificate saving_identity stage_ready : Stage

-- The requests to the server: `tunnel.create`, `tunnel.bindCertificate`, `tunnel.getCertificate` and
-- `tunnel.remove`.
pub data Request : Type 0 where
  creates : Request
  binds : Text → Text → Request
  asks : Text → Request
  deletes : Text → Request

pub data BindReply : Type 0 where
  bound in_progress refused : BindReply

-- What the server answers to the request with this number, and what the keys of the platform give: `none`
-- is a failure. An exported key is its PEM text.
pub record Remote : Type 0 where
  pub created : ℕ → Option (Text × Text × Text)
  pub binding : ℕ → BindReply
  pub certificate : ℕ → Option CertificateState
  pub removal : ℕ → Bool
  pub generated_key : ℕ → Option Text
  pub request_for : Text → Text → Option Text
  pub exported_key : Text → Option Text

pub record World (S : Type 0) : Type 0 where
  pub store : S
  pub requests : List Request
  pub stages : List Stage

-- What a run comes to; `waits` is a run that is still polling after the given number of polls.
pub data Result (A : Type 0) : Type 0 where
  done : A → Result A
  raises : Failure → Result A
  defect waits : Result A

abbrev pub Action : Type 0 → Type 0 → Type 0
Action S A = World S → Result A × World S

abbrev pub pure : {S A : Type 0} → A → Action S A
pure a w = (done a, w)

abbrev pub raise : {S A : Type 0} → Text → Action S A
raise message w = (raises (client_error message), w)

infixl 5 ◌>>=◌ ◌>>◌
abbrev pub ◌>>=◌ : {S A B : Type 0} → Action S A → (A → Action S B) → Action S B
◌>>=◌ m f w =
    let (r, v) = m w in
    elim r [ done a ↦ f a v | raises e ↦ (raises e, v) | defect ↦ (defect, v) | waits ↦ (waits, v) ]

abbrev pub ◌>>◌ : {S A B : Type 0} → Action S A → Action S B → Action S B
m >> k = m >>= λ _. k

-- `options.onProgress?.(stage)`
abbrev pub report : {S : Type 0} → Stage → Action S Unit
report stage w = (done tt, record w { stages = w.stages ++ stage ∷ [] })

-- A request, and its number.
abbrev pub send : {S : Type 0} → Request → Action S ℕ
send request w = (done (length w.requests), record w { requests = w.requests ++ request ∷ [] })

abbrev pub or_raise : {S A : Type 0} → Text → Option A → Action S A
or_raise message none = raise message
or_raise message (some a) = pure a

abbrev pub update : {S : Type 0} → (S → S) → Action S Unit
update f w = (done tt, record w { store = f w.store })

abbrev pub result_of : {A : Type 0} → Outcome A → Result A
result_of (ok a) = done a
result_of (fails e) = raises e
result_of dies = defect

abbrev pub read : {S A : Type 0} → (S → Outcome A) → Action S A
read f w = (result_of (f w.store), w)

abbrev pub completed : Pending → Text × Text × ℕ → Identity
completed x (certificate, chain, expiry) = record {
  id = x.id;
  hostname = x.hostname;
  token = x.token;
  private_key = x.private_key;
  certificate = certificate;
  chain = chain;
  certificate_expiry = expiry;
}

abbrev pub renewed : Text → Text → ℕ → Identity → Identity
renewed certificate chain expiry i = record i {
  certificate = certificate;
  chain = chain;
  certificate_expiry = expiry;
}

module _ {S : Type 0} (storage : Storage S) (remote : Remote) where
  -- The request of the certificate; one that is in progress is as good.
  abbrev pub bind_certificate : Text → Text → Action S Unit
  bind_certificate id csr = do
    n ← send (binds id csr)
    elim (remote.binding n) [
      | bound ↦ pure tt
      | in_progress ↦ pure tt
      | refused ↦ raise (codes "Failed to start certificate issuance")
    ]

  -- The loop that polls, at most `fuel` times.
  unfoldable pub wait_certificate : Text → ℕ → Action S (Text × Text × ℕ)
  wait_certificate id zero w = (waits, w)
  wait_certificate id (suc fuel) w =
      (do
        report waiting_certificate
        n ← send (asks id)
        state ← or_raise (codes "Failed to read certificate") (remote.certificate n)
        elim state [
          | ready certificate chain expiry ↦ pure (certificate, chain, expiry)
          | failed reason ↦ raise (codes "Certificate issuance failed: " ++ reason)
          | issuing ↦ wait_certificate id fuel
          | challenge a b ↦ wait_certificate id fuel
        ])
        w

  unfoldable pub complete_pending : ℕ → Text → Pending → Action S Identity
  complete_pending fuel profile x = do
    report requesting_certificate
    bind_certificate x.id x.csr
    certificate ← wait_certificate x.id fuel
    report saving_identity
    update (storage.save profile (completed x certificate))
    report stage_ready
    pure (completed x certificate)

  -- The key and the request of a new pending tunnel.
  unfoldable pub new_pending : Text → Text → Text → Action S Pending
  new_pending id hostname token = do
    report generating_key
    key ← (λ w.
        or_raise (codes "Failed to generate certificate key")
          (remote.generated_key (length w.requests)) w)
    report generating_csr
    csr ←
        or_raise (codes "Failed to generate certificate request") (remote.request_for hostname key)
    exported ← or_raise (codes "Failed to export certificate key") (remote.exported_key key)
    pure (record { id = id; hostname = hostname; token = token; private_key = exported; csr = csr })

  unfoldable pub provision : ℕ → Text → Text → Text → Text → Action S Identity
  provision fuel profile id hostname token = do
    x ← new_pending id hostname token
    update (storage.save_pending profile x)
    complete_pending fuel profile x

  unfoldable pub create_tunnel : ℕ → Text → Action S Identity
  create_tunnel fuel profile = do
    report creating_tunnel
    n ← send creates
    (id, hostname, token) ← or_raise (codes "Failed to create tunnel") (remote.created n)
    provision fuel profile id hostname token

  unfoldable pub create : ℕ → Text → Action S Identity
  create fuel profile = do
    existing ← read (storage.load profile)
    elim existing [
      | some i ↦ raise (codes "Profile '" ++ (profile ++ codes "' already has a tunnel"))
      | none ↦ do
        pending ← read (storage.load_pending profile)
        elim pending [
          | some x ↦ do report resuming_certificate; complete_pending fuel profile x
          | none ↦ create_tunnel fuel profile
        ]
    ]

  unfoldable pub resume : ℕ → Text → Action S (Option Identity)
  resume fuel profile = do
    pending ← read (storage.load_pending profile)
    elim pending [
      | none ↦ pure none
      | some x ↦ do report resuming_certificate; i ← complete_pending fuel profile x; pure (some i)
    ]

  unfoldable pub check_existing : ℕ → Text → Identity → CertificateState → Action S Identity
  check_existing fuel profile i (ready certificate chain expiry) =
      if same certificate i.certificate then pure i else do
        update (storage.save profile (renewed certificate chain expiry i))
        pure (renewed certificate chain expiry i)
  check_existing fuel profile i (failed reason) = provision fuel profile i.id i.hostname i.token
  check_existing fuel profile i issuing = pure i
  check_existing fuel profile i (challenge a b) = pure i

  unfoldable pub ensure : ℕ → Text → Action S Identity
  ensure fuel profile = do
    existing ← read (storage.load profile)
    elim existing [
      | none ↦ create fuel profile
      | some i ↦ do
        n ← send (asks i.id)
        state ← or_raise (codes "Failed to read certificate") (remote.certificate n)
        check_existing fuel profile i state
    ]

  unfoldable pub remove : Text → Action S Unit
  remove profile = do
    existing ← read (storage.load profile)
    elim existing [
      | none ↦ pure tt
      | some i ↦ do
        n ← send (deletes i.id)
        if remote.removal n
            then update (storage.remove profile)
            else raise (codes "Failed to remove tunnel")
    ]
