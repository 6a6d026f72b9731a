-- ===== src/TunnelObject/Binding.antt =====
-- `bindCertificate` and `ensureCertificateWorkflow` of packages/server/src/tunnel-object.ts.
-- Reading a CSR is the x509 library's: `parse_request` gives what the handler takes from it. The
-- answers of the workflow binding are a parameter as well.
use shuvtunnel.Common.{
  List, [], ◌∷◌, ◌++◌, Option, none, some, Bool, false, ◌&&◌, not, if◌then◌else◌, Text, codes, same,
  includes, any,
}
use shuvtunnel.Store.{issuing, failed, CertificateInfo, StoredTunnel, is_ready, is_failed}
use shuvtunnel.TunnelObject.{
  World, create, restart, missing, denied, granted, access, save, log_call,
}
use shuvtunnel.TunnelObject.Certificates.{cert_id, params_of}

-- What the library reads from a CSR: whether its signature verifies, the subject's CN, and the
-- entries (type, value) of the subject alternative names, if it has that extension.
pub record CertificateRequest : Type 0 where
  pub verified : Bool
  pub common_name : Text
  pub alternative_names : Option (List (Text × Text))

-- `instance.status()`, by the cases that the handler tells apart.
pub data InstanceStatus : Type 0 where
  unknown errored terminated running : InstanceStatus

-- `CERTIFICATES.get(id)`: an instance with its status, "instance.not_found", or another error.
pub data Lookup : Type 0 where
  instance_found : InstanceStatus → Lookup
  instance_not_found : Lookup
  lookup_failed : Text → Lookup

-- The workflow binding during one call; `some reason` is a thrown error.
pub record Workflows : Type 0 where
  pub lookup : Text → Lookup
  pub create_error : Option Text
  pub restart_error : Option Text

pub data BindResult : Type 0 where
  ok : CertificateInfo → BindResult
  not_found unauthorized in_progress : BindResult
  invalid_request : Text → BindResult
  -- provided, expected
  invalid_hostname : Text → Text → BindResult
  workflow_unavailable : Text → BindResult
  -- The call throws.
  thrown : Text → BindResult

-- `[...new Set(values)]`: the first of each.
dedupe_from : List Text → List Text → List Text
dedupe_from seen [] = []
dedupe_from seen (x ∷ xs) =
    let rest = dedupe_from (x ∷ seen) xs in if includes seen x then rest else x ∷ rest

unfoldable pub dedupe : List Text → List Text
unfolding dedupe_from
dedupe xs = dedupe_from [] xs

-- `.filter((name) => name.type === "dns").map((name) => name.value)`
dns_names : List (Text × Text) → List Text
dns_names [] = []
dns_names ((type, value) ∷ rest) =
    if same type (codes "dns") then value ∷ dns_names rest else dns_names rest

abbrev non_empty_or : List Text → List Text → List Text
non_empty_or [] default = default
non_empty_or (x ∷ xs) default = x ∷ xs

unfoldable pub identifiers_of : CertificateRequest → List Text
unfolding dns_names dedupe
identifiers_of request = dedupe (non_empty_or names (request.common_name ∷ []))
  where
    names : List Text
    names = elim request.alternative_names [ none ↦ [] | some items ↦ dns_names items ]

-- `identifiers.join(",")`
unfoldable pub join : List Text → Text
join [] = []
join (x ∷ []) = x
join (x ∷ y ∷ ys) = x ++ codes "," ++ join (y ∷ ys)

abbrev pub wildcard : Text → Text
wildcard hostname = codes "*." ++ hostname

abbrev pub is_foreign : Text → Text → Bool
is_foreign hostname identifier =
    not (same identifier hostname) && not (same identifier (wildcard hostname))

-- The state after the calls, and the error that is thrown.
unfoldable pub ensure_workflow :
    Workflows → StoredTunnel → Text → List Text → World → World × Option Text
ensure_workflow wf r csr identifiers w = elim r.certificate_id [
  | none ↦ (w, some (codes "Certificate ID is missing"))
  | some id ↦
      let created = log_call w (create (params_of r id identifiers csr)) in
      elim (wf.lookup id) [
        | lookup_failed reason ↦ (w, some reason)
        | instance_not_found ↦ (created, wf.create_error)
        | instance_found status ↦ elim status [
          | unknown ↦ (created, wf.create_error)
          | errored ↦ (log_call w (restart id), wf.restart_error)
          | terminated ↦ (log_call w (restart id), wf.restart_error)
          | running ↦ (w, none)
        ]
      ]
]

-- `record.certificate && record.certificateCsr === csr`
abbrev pub same_csr : Option Text → Text → Bool
same_csr none csr = false
same_csr (some stored) csr = same stored csr

abbrev pub is_pending : Option CertificateInfo → Bool
is_pending none = false
is_pending (some c) = not (is_ready c.state) && not (is_failed c.state)

abbrev pub issuing_record : StoredTunnel → Text → Text → List Text → StoredTunnel
issuing_record r id csr identifiers = record r {
  certificate_id = some id;
  certificate = some (record { id = id; state = issuing });
  certificate_csr = some csr;
  certificate_identifiers = some identifiers;
  renewal = none;
}

-- The `catch` of the workflow call: the record from before the call is saved with the failure.
abbrev pub fail_issue : StoredTunnel → Text → Text → World → World
fail_issue begun id reason w =
    save w (record begun { certificate = some (record { id = id; state = failed reason }) })

-- A new certificate for a CSR whose names were checked.
unfoldable pub issue_certificate :
    Workflows → Text → StoredTunnel → Text → List Text → World → World × BindResult
unfolding ensure_workflow
issue_certificate wf uuid r csr identifiers w =
    let id = cert_id uuid in
    let begun = issuing_record r id csr identifiers in
    let (w', error) = ensure_workflow wf begun csr identifiers (save w begun) in
    elim error [
      | none ↦ (w', ok (record { id = id; state = issuing }))
      | some reason ↦ (fail_issue begun id reason w', workflow_unavailable reason)
    ]

-- The same CSR again: the workflow is started anew where it is not running.
unfoldable pub rebind :
    Workflows → StoredTunnel → Text → List Text → CertificateInfo → World → World × BindResult
unfolding ensure_workflow
rebind wf r csr identifiers c w =
    let (w', error) = ensure_workflow wf r csr identifiers w in
    elim error [ none ↦ (w', ok c) | some reason ↦ (w', thrown reason) ]

unfoldable pub bind_checked :
    Workflows → Text → StoredTunnel → Text → List Text → World → World × BindResult
bind_checked wf uuid r csr identifiers w = elim r.certificate [
  | none ↦ issue_certificate wf uuid r csr identifiers w
  | some c ↦
      if same_csr r.certificate_csr csr
      then rebind wf r csr identifiers c w
      else if is_pending (some c)
      then (w, in_progress)
      else issue_certificate wf uuid r csr identifiers w
]

-- The names of the CSR against the tunnel's hostname.
unfoldable pub bind_request :
    Workflows → Text → StoredTunnel → Text → CertificateRequest → World → World × BindResult
unfolding join
bind_request wf uuid r csr request w =
    let identifiers = identifiers_of request in
    if not (same request.common_name r.hostname)
    then (w, invalid_hostname request.common_name r.hostname)
    else if any (is_foreign r.hostname) identifiers
    then (w, invalid_hostname (join identifiers) (r.hostname ++ codes "," ++ wildcard r.hostname))
    else bind_checked wf uuid r csr identifiers w

module _ (hash : Text → Text) (parse_request : Text → Option CertificateRequest) where
  unfoldable pub bind_certificate : Workflows → Text → Text → Text → World → World × BindResult
  bind_certificate wf uuid token csr w = elim (access hash w.stored token) [
    | missing ↦ (w, not_found)
    | denied ↦ (w, unauthorized)
    | granted r ↦ elim (parse_request csr) [
      | none ↦ (w, invalid_request (codes "Failed to parse CSR"))
      | some request ↦
          if request.verified
          then bind_request wf uuid r csr request w
          else (w, invalid_request (codes "Failed to parse CSR"))
    ]
  ]
