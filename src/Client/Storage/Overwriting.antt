-- ===== src/Client/Storage/Overwriting.antt =====
-- Where `xdg` and `memory` differ: a pending tunnel and a stored one share the files of the token and of
-- the private key, packages/client/src/effect/storage.ts.
use shuvtunnel.Common.{◌≡◌, refl, ◌∙◌, some, Text, same_refl}
use shuvtunnel.Client.{Identity}
use shuvtunnel.Client.Maps.{lookup-insert}
use shuvtunnel.Client.Storage.{Pending, ok, Memory, memory, memory_save, memory_save_pending}
use shuvtunnel.Client.Storage.Disk.{Platform, Disk, load, save, save_pending}
use shuvtunnel.Client.Storage.Files.{
  read-save, read-save_pending, save-unreadable, save_pending-unreadable,
}
use shuvtunnel.Client.Storage.Reading.{
  Lawful, CompleteIdentity, CompletePending, Readable, HoldsIdentity, load-holds,
}

-- The tunnel with the token and the key of a pending one.
abbrev pub with_key_of : Pending → Identity → Identity
with_key_of x i = record i { token = x.token; private_key = x.private_key }

module _ (platform : Platform) where
  overwritten :
      (p : Text) (i : Identity) (x : Pending) (d : Disk)
      → CompleteIdentity i
      → CompletePending x
      → HoldsIdentity platform
          (save_pending platform p x (save platform p i d))
          p
          (some (with_key_of x i))
  overwritten p i x d c k =
      let (m, t, key, cert, chain, q) = read-save platform p d i in
      let (m', t', key', tunnel', cert', chain') =
        read-save_pending platform p (save platform p i d) x in
      ((k.0, k.1, c.2), tunnel' ∙ m, t', key', cert' ∙ cert, chain' ∙ chain)

  load-save_pending-save :
      (p : Text) (i : Identity) (x : Pending) (d : Disk)
      → Lawful platform
      → Readable d
      → CompleteIdentity i
      → CompletePending x
      → load platform p (save_pending platform p x (save platform p i d))
        ≡ ok (some (with_key_of x i))
  load-save_pending-save p i x d w r c k =
      load-holds platform (save_pending platform p x (save platform p i d)) p
        (some (with_key_of x i)) w
        (rw
          (
            save_pending-unreadable platform p (save platform p i d) x,
            save-unreadable platform p d i,
          )
          r)
        (overwritten p i x d c k)

  -- Let the disk be readable, let JSON.parse and dates undo what was written, and let a tunnel be
  -- saved for a profile and then a pending one, both with a token without white space and with no
  -- key or certificate empty. Then `load` of `xdg` gives the tunnel with the token and the
  -- private key of the pending one, and `load` of `memory` gives the tunnel as it was saved.
  pub storages_differ :
      (p : Text) (i : Identity) (x : Pending) (d : Disk) (m : Memory)
      → Lawful platform
      → Readable d
      → CompleteIdentity i
      → CompletePending x
      → (load platform p (save_pending platform p x (save platform p i d))
          ≡ ok (some (with_key_of x i)))
        × (memory.load p (memory_save_pending p x (memory_save p i m)) ≡ ok (some i))
  storages_differ p i x d m w r c k =
      (load-save_pending-save p i x d w r c k, simp (lookup-insert, same_refl p) refl)
