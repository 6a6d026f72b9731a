-- ===== src/Client/Storage/Reading.antt =====
-- What `load` and `loadPending` of `xdg` give for files that a save has written,
-- packages/client/src/effect/storage.ts.
use shuvtunnel.Common.{
  ℕ, ◌≡◌, ◌≢◌, ◌∙◌, [], ◌∷◌, ◌++◌, Option, none, some, false, Text, codes, arith, same,
}
use shuvtunnel.Json.{Json, string, object, field, end, get, find_field}
use shuvtunnel.Client.{Identity}
use shuvtunnel.Client.Storage.{Pending, ok}
use shuvtunnel.Client.Storage.Disk.{
  Platform, Disk, read_file, tunnel_file, pending_file, token_file, key_file, certificate_file,
  chain_file, tunnel_json, pending_json, read_optional, build_identity, build_pending, load,
  load_pending,
}
use shuvtunnel.Client.Storage.Tokens.{Clean, trim-newline}

-- What `JSON` and `Date` promise for the metadata that are written.
pub record Lawful (platform : Platform) : Type 0 where
  pub parse-stringify :
      (k a l b m c : Text)
      → platform.parse (
          platform.stringify
            (object (field k (string a) (field l (string b) (field m (string c) end)))))
        ≡ some (object (field k (string a) (field l (string b) (field m (string c) end))))
  pub stringify_nonempty : (j : Json) → platform.stringify j ≢ []
  pub date-to_iso : (instant : ℕ) → platform.date (platform.to_iso instant) ≡ instant

abbrev pub CompleteIdentity : Identity → Type 0
CompleteIdentity i = Clean i.token × (i.private_key ≢ []) × (i.certificate ≢ [])

abbrev pub CompletePending : Pending → Type 0
CompletePending x = Clean x.token × (x.private_key ≢ [])

abbrev pub Readable : Disk → Type 0
Readable d = (p n : Text) → d.unreadable p n ≡ false

module _ (platform : Platform) where
  -- The files of a profile that has this tunnel, or none.
  abbrev pub HoldsIdentity : Disk → Text → Option Identity → Type 0
  HoldsIdentity d p none = read_file p tunnel_file d ≡ none
  HoldsIdentity d p (some i) =
      CompleteIdentity i
      × (read_file p tunnel_file d ≡ some (platform.stringify (tunnel_json platform i)))
      × (read_file p token_file d ≡ some (i.token ++ 10 ∷ []))
      × (read_file p key_file d ≡ some i.private_key)
      × (read_file p certificate_file d ≡ some i.certificate)
      × (read_file p chain_file d ≡ some i.chain)

  abbrev pub HoldsPending : Disk → Text → Option Pending → Type 0
  HoldsPending d p none = read_file p pending_file d ≡ none
  HoldsPending d p (some x) =
      CompletePending x
      × (read_file p pending_file d ≡ some (platform.stringify (pending_json x)))
      × (read_file p token_file d ≡ some (x.token ++ 10 ∷ []))
      × (read_file p key_file d ≡ some x.private_key)

  load-texts :
      (p : Text) (d : Disk) (metadata token private_key certificate chain : Text)
      → Readable d
      → metadata ≢ []
      → read_file p tunnel_file d ≡ some metadata
      → read_file p token_file d ≡ some token
      → read_file p key_file d ≡ some private_key
      → read_file p certificate_file d ≡ some certificate
      → read_file p chain_file d ≡ some chain
      → load platform p d
        ≡ build_identity platform p metadata
            (some token)
            (some private_key)
            (some certificate)
            (some chain)
  unfolding load read_optional
  load-texts p d metadata token private_key certificate chain r n m t k c h = ground (
    arith,
    r p tunnel_file,
    r p token_file,
    r p key_file,
    r p certificate_file,
    r p chain_file,
    n,
    m,
    t,
    k,
    c,
    h,
  )

  load_pending-texts :
      (p : Text) (d : Disk) (metadata token private_key : Text)
      → Readable d
      → metadata ≢ []
      → read_file p pending_file d ≡ some metadata
      → read_file p token_file d ≡ some token
      → read_file p key_file d ≡ some private_key
      → load_pending platform p d
        ≡ build_pending platform p metadata (some token) (some private_key)
  unfolding load_pending read_optional
  load_pending-texts p d metadata token private_key r n m t k =
      ground (arith, r p pending_file, r p token_file, r p key_file, n, m, t, k)

  build_identity_complete :
      (p metadata : Text) (i : Identity)
      → Lawful platform
      → CompleteIdentity i
      → platform.parse metadata ≡ some (tunnel_json platform i)
      → build_identity platform p metadata
          (some (i.token ++ 10 ∷ []))
          (some i.private_key)
          (some i.certificate)
          (some i.chain)
        ≡ ok (some i)
  unfolding build_identity get find_field same
  build_identity_complete p metadata i w c h =
      ground (arith, h, c, w.date-to_iso i.certificate_expiry, trim-newline i.token c.0)

  build_pending_complete :
      (p metadata : Text) (x : Pending)
      → CompletePending x
      → platform.parse metadata ≡ some (pending_json x)
      → build_pending platform p metadata (some (x.token ++ 10 ∷ [])) (some x.private_key)
        ≡ ok (some x)
  unfolding build_pending get find_field same
  build_pending_complete p metadata x c h = ground (arith, h, c, trim-newline x.token c.0)

  load-none :
      (p : Text) (d : Disk)
      → Readable d
      → read_file p tunnel_file d ≡ none
      → load platform p d ≡ ok none
  unfolding load read_optional
  load-none p d r h = ground (arith, r p tunnel_file, h)

  load_pending-none :
      (p : Text) (d : Disk)
      → Readable d
      → read_file p pending_file d ≡ none
      → load_pending platform p d ≡ ok none
  unfolding load_pending read_optional
  load_pending-none p d r h = ground (arith, r p pending_file, h)

  pub load-holds :
      (d : Disk) (p : Text) (stored : Option Identity)
      → Lawful platform
      → Readable d
      → HoldsIdentity d p stored
      → load platform p d ≡ ok stored
  load-holds d p none w r h = load-none p d r h
  load-holds d p (some i) w r (c, m, t, k, e, n) =
      let metadata = platform.stringify (tunnel_json platform i) in
      load-texts p d metadata (i.token ++ 10 ∷ []) i.private_key i.certificate i.chain r
        (w.stringify_nonempty (tunnel_json platform i)) m t k e n
      ∙ build_identity_complete p metadata i w c (
          w.parse-stringify (codes "id") i.id (codes "hostname") i.hostname
            (codes "certificateExpiry") (platform.to_iso i.certificate_expiry))

  pub load_pending-holds :
      (d : Disk) (p : Text) (stored : Option Pending)
      → Lawful platform
      → Readable d
      → HoldsPending d p stored
      → load_pending platform p d ≡ ok stored
  load_pending-holds d p none w r h = load_pending-none p d r h
  load_pending-holds d p (some x) w r (c, m, t, k) =
      let metadata = platform.stringify (pending_json x) in
      load_pending-texts p d metadata (x.token ++ 10 ∷ []) x.private_key r
        (w.stringify_nonempty (pending_json x)) m t k
      ∙ build_pending_complete p metadata x c
          (w.parse-stringify (codes "id") x.id (codes "hostname") x.hostname (codes "csr") x.csr)
