-- ===== src/Store.antt =====
-- What a tunnel keeps in storage: packages/server/src/stored-tunnel.ts, with the certificate of
-- packages/protocol/src/certificate.ts and the tunnel of packages/protocol/src/tunnel.ts.
-- An ISO date string stands for the instant that it names, in milliseconds since the epoch.
use shuvtunnel.Common.{ℕ, List, Option, none, some, Bool, true, false, Text}

pub data CertificateState : Type 0 where
  challenge : Text → Text → CertificateState
  issuing : CertificateState
  ready : Text → Text → ℕ → CertificateState
  failed : Text → CertificateState

pub record CertificateInfo : Type 0 where
  pub id : Text
  pub state : CertificateState

abbrev pub is_ready : CertificateState → Bool
is_ready (ready _ _ _) = true
is_ready _ = false

abbrev pub is_failed : CertificateState → Bool
is_failed (failed _) = true
is_failed _ = false

-- `Tunnel.State`
pub data TunnelState : Type 0 where
  offline online : TunnelState

-- `Tunnel.Info`
pub record TunnelInfo : Type 0 where
  pub id : Text
  pub hostname : Text
  pub state : TunnelState
  pub certificate_id : Option Text

pub record Renewal : Type 0 where
  pub certificate_id : Text
  pub started_at : ℕ

pub record StoredTunnel : Type 0 where
  pub version : ℕ
  pub id : Text
  pub hostname : Text
  pub state : TunnelState
  pub certificate_id : Option Text
  pub token_hash : Text
  pub created_at : ℕ
  pub deleted_at : Option ℕ
  pub certificate : Option CertificateInfo
  pub certificate_csr : Option Text
  pub certificate_identifiers : Option (List Text)
  pub last_connected_at : Option ℕ
  pub renewal : Option Renewal

-- `record.certificate?.state.type === "ready"`, with the expiry.
abbrev pub ready_expiry : Option CertificateInfo → Option ℕ
ready_expiry none = none
ready_expiry (some c) = elim c.state [
  | challenge token key ↦ none
  | issuing ↦ none
  | ready certificate chain expiry ↦ some expiry
  | failed reason ↦ none
]

-- `tunnelView`
unfoldable pub tunnel_view : StoredTunnel → TunnelInfo
tunnel_view r = record {
  id = r.id;
  hostname = r.hostname;
  state = r.state;
  certificate_id = r.certificate_id;
}
