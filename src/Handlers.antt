-- ===== src/Handlers.antt =====
-- packages/server/src/handlers/tunnel.ts: how the results of the tunnel object become the answers and
-- the errors of the HTTP API. The object of the id in the path is the `World` argument; encoding the
-- answer is the schema library's, and succeeds for the values that the models hold.
pub mod Lifecycle
mod Tests
use shuvtunnel.Common.{ℕ, List, [], ◌∷◌, ◌++◌, Option, none, some, Text, codes}
use shuvtunnel.Store.{TunnelInfo, CertificateInfo}
use shuvtunnel.TunnelObject.{World}
use shuvtunnel.TunnelObject.Registry.{
  TunnelInfoResult, CertificateResult, RemoveResult, initialize, info, certificate, remove,
}
use shuvtunnel.TunnelObject.Binding.{CertificateRequest, Workflows, BindResult, bind_certificate}

pub data ApiError : Type 0 where
  invalid_request : Text → ApiError
  hostname_unavailable : Text → Text → ApiError
  unauthorized : Text → ApiError
  tunnel_not_found : Text → Text → ApiError
  certificate_not_found : Text → Text → ApiError
  certificate_in_progress : Text → Text → ApiError
  -- provided, expected, message
  invalid_hostname : Text → Text → Text → ApiError
  service_unavailable : Text → ApiError

pub data Answer (A : Type 0) : Type 0 where
  answers : A → Answer A
  fails : ApiError → Answer A

abbrev invalid_token : ApiError
invalid_token = ApiError.unauthorized (codes "Invalid bearer token")

abbrev no_tunnel : Text → ApiError
no_tunnel id = tunnel_not_found id (codes "Tunnel not found")

abbrev no_names : ApiError
no_names =
    invalid_request
      (codes "Custom tunnel names are not supported; omit name to get a random hostname")

-- `tunnel.create`, with the random slug and token as arguments.
unfoldable pub create_tunnel :
    (Text → Text)
    → ℕ
    → Text
    → Option Text
    → Text
    → Text
    → World
    → World × Answer (TunnelInfo × Text)
create_tunnel hash now domain (some name) id token w = (w, fails no_names)
create_tunnel hash now domain none id token w =
    let (after, created) = initialize now id (id ++ b'.' ∷ domain) (hash token) w in
    (
      after,
      elim created [
        | some tunnel ↦ answers (tunnel, token)
        | none ↦ fails (hostname_unavailable id (codes "Hostname is unavailable"))
      ],
    )

-- `tunnel.get`
unfoldable pub get_tunnel : (Text → Text) → Text → Text → World → Answer TunnelInfo
get_tunnel hash id token w = elim (info hash token w) [
  | TunnelInfoResult.ok tunnel ↦ answers tunnel
  | TunnelInfoResult.unauthorized ↦ fails invalid_token
  | TunnelInfoResult.not_found ↦ fails (no_tunnel id)
]

abbrev bind_answer : Text → BindResult → Answer CertificateInfo
bind_answer id (BindResult.ok c) = answers c
bind_answer id BindResult.unauthorized = fails invalid_token
bind_answer id BindResult.not_found = fails (no_tunnel id)
bind_answer id (BindResult.invalid_request message) = fails (ApiError.invalid_request message)
bind_answer id (BindResult.invalid_hostname provided expected) = fails (
    ApiError.invalid_hostname provided expected
      (codes "CSR hostname does not match tunnel hostname"))
bind_answer id BindResult.in_progress =
    fails (certificate_in_progress id (codes "Certificate issuance is already in progress"))
bind_answer id (BindResult.workflow_unavailable message) = fails (service_unavailable message)
-- `String(cause)` of the error that the call throws.
bind_answer id (BindResult.thrown message) =
    fails (service_unavailable (codes "Error: " ++ message))

-- `tunnel.bindCertificate`
unfoldable pub bind_tunnel_certificate :
    (Text → Text)
    → (Text → Option CertificateRequest)
    → Workflows
    → Text
    → Text
    → Text
    → Text
    → World
    → World × Answer CertificateInfo
bind_tunnel_certificate hash parse wf uuid id token csr w =
    let (after, result) = bind_certificate hash parse wf uuid token csr w in
    (after, bind_answer id result)

-- `tunnel.getCertificate`
unfoldable pub get_certificate : (Text → Text) → Text → Text → World → Answer CertificateInfo
get_certificate hash id token w = elim (certificate hash token w) [
  | CertificateResult.ok c ↦ answers c
  | CertificateResult.unauthorized ↦ fails invalid_token
  | CertificateResult.no_certificate ↦
      fails (certificate_not_found id (codes "Certificate not found"))
  | CertificateResult.not_found ↦ fails (no_tunnel id)
]

-- `tunnel.remove`
unfoldable pub remove_tunnel : (Text → Text) → ℕ → Text → Text → World → World × Answer Unit
remove_tunnel hash now id token w =
    let (after, result) = remove hash now token w in
    (
      after,
      elim result [
        | RemoveResult.ok ↦ answers tt
        | RemoveResult.unauthorized ↦ fails invalid_token
        | RemoveResult.not_found ↦ fails (no_tunnel id)
      ],
    )
