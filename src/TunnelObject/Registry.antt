-- ===== src/TunnelObject/Registry.antt =====
-- `initialize`, `info`, `certificate` and `remove` of packages/server/src/tunnel-object.ts.
use shuvtunnel.Common.{ℕ, [], ◌++◌, map, Option, none, some, Text, codes}
use shuvtunnel.Store.{StoredTunnel, TunnelInfo, CertificateInfo, offline, tunnel_view}
use shuvtunnel.TunnelObject.{World, aborted, missing, denied, granted, access, live, save, close_on}

pub data TunnelInfoResult : Type 0 where
  ok : TunnelInfo → TunnelInfoResult
  not_found unauthorized : TunnelInfoResult

pub data CertificateResult : Type 0 where
  ok : CertificateInfo → CertificateResult
  not_found unauthorized no_certificate : CertificateResult

pub data RemoveResult : Type 0 where
  ok not_found unauthorized : RemoveResult

new_record : Text → Text → Text → ℕ → StoredTunnel
new_record id hostname token_hash now = record {
  version = 1;
  id = id;
  hostname = hostname;
  state = offline;
  certificate_id = none;
  token_hash = token_hash;
  created_at = now;
  deleted_at = none;
  certificate = none;
  certificate_csr = none;
  certificate_identifiers = none;
  last_connected_at = none;
  renewal = none;
}

unfoldable pub initialize : ℕ → Text → Text → Text → World → World × Option TunnelInfo
unfolding new_record tunnel_view
initialize now id hostname token_hash w = elim (live w.stored) [
  | some existing ↦ (w, none)
  | none ↦ let r = new_record id hostname token_hash now in (save w r, some (tunnel_view r))
]

module _ (hash : Text → Text) where
  unfoldable pub info : Text → World → TunnelInfoResult
  unfolding tunnel_view
  info token w = elim (access hash w.stored token) [
    | missing ↦ not_found
    | denied ↦ unauthorized
    | granted r ↦ ok (tunnel_view r)
  ]

  unfoldable pub certificate : Text → World → CertificateResult
  certificate token w = elim (access hash w.stored token) [
    | missing ↦ not_found
    | denied ↦ unauthorized
    | granted r ↦ elim r.certificate [ none ↦ no_certificate | some c ↦ ok c ]
  ]

  -- `for (const socket of …) socket.close(1000, "deleted")`, and every channel finished.
  shut_down : World → World
  shut_down w = record w {
    sockets = map (close_on 1000 (codes "deleted")) w.sockets;
    channels = [];
    finished = w.finished ++ map (λ (k, c). (k, c, aborted (codes "Tunnel deleted"))) w.channels;
  }

  unfoldable pub remove : ℕ → Text → World → World × RemoveResult
  unfolding shut_down
  remove now token w = elim (access hash w.stored token) [
    | missing ↦ (w, not_found)
    | denied ↦ (w, unauthorized)
    | granted r ↦ (save (shut_down w) (record r { state = offline; deleted_at = some now }), ok)
  ]
