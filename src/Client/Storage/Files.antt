-- ===== src/Client/Storage/Files.antt =====
-- What the writes of `xdg` leave in the files, packages/client/src/effect/storage.ts.
use shuvtunnel.Common.{
  ◌≡◌, refl, [], ◌∷◌, ◌++◌, none, some, false, if◌then◌else◌, Text, arith, same, same_iff,
  same_refl,
}
use shuvtunnel.Client.{Identity}
use shuvtunnel.Client.Maps.{lookup, insert, delete, lookup-insert, lookup-delete}
use shuvtunnel.Client.Storage.{Pending}
use shuvtunnel.Client.Storage.Disk.{
  Platform, Disk, files_of, read_file, write_file, remove_file, remove_directory, tunnel_file,
  pending_file, token_file, key_file, certificate_file, chain_file, tunnel_json, pending_json, save,
  save_pending,
}

pub read-write :
    (q n p m text : Text) (d : Disk)
    → read_file q n (write_file p m text d)
      ≡ (if same p q then (if same m n then some text else read_file q n d) else read_file q n d)
unfolding read_file write_file
read-write q n p m text d = ground (
  arith,
  lookup-insert q p (insert m text (files_of p d)) d.directories,
  lookup-insert n m text (files_of p d),
  same_iff p q,
)

pub read-remove_file :
    (q n p m : Text) (d : Disk)
    → read_file q n (remove_file p m d)
      ≡ (if same p q then (if same m n then none else read_file q n d) else read_file q n d)
unfolding read_file remove_file
read-remove_file q n p m d = ground (
  arith,
  lookup-insert q p (delete m (files_of p d)) d.directories,
  lookup-delete n m (files_of p d),
  same_iff p q,
)

pub read-remove_directory :
    (q n p : Text) (d : Disk)
    → read_file q n (remove_directory p d) ≡ (if same p q then none else read_file q n d)
unfolding read_file remove_directory lookup
read-remove_directory q n p d = ground (arith, lookup-delete q p d.directories)

ruleset reads = (read-write, read-remove_file, read-remove_directory)

module _ (platform : Platform) (p : Text) (d : Disk) where
  pub read-save :
      (i : Identity)
      → (read_file p tunnel_file (save platform p i d)
          ≡ some (platform.stringify (tunnel_json platform i)))
        × (read_file p token_file (save platform p i d) ≡ some (i.token ++ 10 ∷ []))
        × (read_file p key_file (save platform p i d) ≡ some i.private_key)
        × (read_file p certificate_file (save platform p i d) ≡ some i.certificate)
        × (read_file p chain_file (save platform p i d) ≡ some i.chain)
        × (read_file p pending_file (save platform p i d) ≡ none)
  unfolding save same
  read-save i = (
    simp (reads, same_refl p) refl,
    simp (reads, same_refl p) refl,
    simp (reads, same_refl p) refl,
    simp (reads, same_refl p) refl,
    simp (reads, same_refl p) refl,
    simp (reads, same_refl p) refl,
  )

  pub read-save_pending :
      (x : Pending)
      → (read_file p pending_file (save_pending platform p x d)
          ≡ some (platform.stringify (pending_json x)))
        × (read_file p token_file (save_pending platform p x d) ≡ some (x.token ++ 10 ∷ []))
        × (read_file p key_file (save_pending platform p x d) ≡ some x.private_key)
        × (read_file p tunnel_file (save_pending platform p x d) ≡ read_file p tunnel_file d)
        × (read_file p certificate_file (save_pending platform p x d)
            ≡ read_file p certificate_file d)
        × (read_file p chain_file (save_pending platform p x d) ≡ read_file p chain_file d)
  unfolding save_pending same
  read-save_pending x = (
    simp (reads, same_refl p) refl,
    simp (reads, same_refl p) refl,
    simp (reads, same_refl p) refl,
    simp (reads, same_refl p) refl,
    simp (reads, same_refl p) refl,
    simp (reads, same_refl p) refl,
  )

  -- The directories of the other profiles stay.
  pub read-save_other :
      (i : Identity) (q n : Text)
      → same p q ≡ false
      → read_file q n (save platform p i d) ≡ read_file q n d
  unfolding save
  read-save_other i q n h = simp (reads, h) refl

  pub read-save_pending_other :
      (x : Pending) (q n : Text)
      → same p q ≡ false
      → read_file q n (save_pending platform p x d) ≡ read_file q n d
  unfolding save_pending
  read-save_pending_other x q n h = simp (reads, h) refl

  pub save-unreadable : (i : Identity) → (save platform p i d).unreadable ≡ d.unreadable
  unfolding save write_file remove_file
  save-unreadable i = refl

  pub save_pending-unreadable :
      (x : Pending) → (save_pending platform p x d).unreadable ≡ d.unreadable
  unfolding save_pending write_file
  save_pending-unreadable x = refl
