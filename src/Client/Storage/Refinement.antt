-- ===== src/Client/Storage/Refinement.antt =====
-- `xdg` answers as `memory` does: packages/client/src/effect/storage.ts.
use shuvtunnel.Common.{
  ◌≡◌, inl, inr, refl, sym, ap, ◌∙◌, subst, List, [], ◌∷◌, ◌++◌, Option, none, some, false,
  if◌then◌else◌, Text, same, same_refl, same→eq, Bool-cases,
}
use shuvtunnel.Client.{Identity}
use shuvtunnel.Client.Maps.{lookup, lookup-insert, lookup-delete}
use shuvtunnel.Client.Storage.{
  Pending, Memory, no_memory, memory, memory_save, memory_save_pending, memory_remove, Call, loads,
  saves, loads_pending, saves_pending, removes, Answer, done, answers,
}
use shuvtunnel.Client.Storage.Disk.{
  Platform, Disk, read_file, tunnel_file, pending_file, token_file, key_file, certificate_file,
  chain_file, save, save_pending, remove_directory, xdg,
}
use shuvtunnel.Client.Storage.Files.{
  read-save, read-save_pending, read-save_other, read-save_pending_other, save-unreadable,
  save_pending-unreadable, read-remove_directory,
}
use shuvtunnel.Client.Storage.Reading.{
  Lawful, CompleteIdentity, CompletePending, Readable, HoldsIdentity, HoldsPending, load-holds,
  load_pending-holds,
}

-- The token and the key of a pending tunnel are those of the stored tunnel, if there is one.
abbrev pub SameKey : Option Identity → Pending → Type 0
SameKey none x = Unit
SameKey (some i) x = (i.token ≡ x.token) × (i.private_key ≡ x.private_key)

-- The calls that the two storages answer alike, from this memory on.
abbrev pub Suitable : List Call → Memory → Type 0
Suitable [] m = Unit
Suitable (loads p ∷ cs) m = Suitable cs m
Suitable (saves p i ∷ cs) m = CompleteIdentity i × Suitable cs (memory_save p i m)
Suitable (loads_pending p ∷ cs) m = Suitable cs m
Suitable (saves_pending p x ∷ cs) m =
    CompletePending x × SameKey (lookup p m.identities) x × Suitable cs (memory_save_pending p x m)
Suitable (removes p ∷ cs) m = Suitable cs (memory_remove p m)

module _ (platform : Platform) where
  -- The disk has the files of what the memory has.
  pub record Simulates (d : Disk) (m : Memory) : Type 0 where
    pub readable : Readable d
    pub holds :
        (p : Text)
        → HoldsIdentity platform d p (lookup p m.identities)
          × HoldsPending platform d p (lookup p m.pending)

  -- What stays where the files of a profile stay.
  HoldsIdentity-same :
      (d e : Disk) (p : Text) (stored : Option Identity)
      → ((n : Text) → read_file p n e ≡ read_file p n d)
      → HoldsIdentity platform d p stored
      → HoldsIdentity platform e p stored
  HoldsIdentity-same d e p none f h = f tunnel_file ∙ h
  HoldsIdentity-same d e p (some i) f (c, m, t, k, b, n) = (
    c,
    f tunnel_file ∙ m,
    f token_file ∙ t,
    f key_file ∙ k,
    f certificate_file ∙ b,
    f chain_file ∙ n,
  )

  HoldsPending-same :
      (d e : Disk) (p : Text) (stored : Option Pending)
      → ((n : Text) → read_file p n e ≡ read_file p n d)
      → HoldsPending platform d p stored
      → HoldsPending platform e p stored
  HoldsPending-same d e p none f h = f pending_file ∙ h
  HoldsPending-same d e p (some x) f (c, m, t, k) =
      (c, f pending_file ∙ m, f token_file ∙ t, f key_file ∙ k)

  -- What a disk holds for one profile.
  Holds : Disk → Text → Option Identity → Option Pending → Type 0
  Holds d p i x = HoldsIdentity platform d p i × HoldsPending platform d p x

  Holds-same :
      (d e : Disk) (p : Text) (stored : Option Identity) (waiting : Option Pending)
      → ((n : Text) → read_file p n e ≡ read_file p n d)
      → Holds d p stored waiting
      → Holds e p stored waiting
  unfolding Holds
  Holds-same d e p stored waiting f h =
      (HoldsIdentity-same d e p stored f h.0, HoldsPending-same d e p waiting f h.1)

  save-Holds_own :
      (p : Text) (i : Identity) (d : Disk)
      → CompleteIdentity i
      → Holds (save platform p i d) p (some i) none
  unfolding Holds
  save-Holds_own p i d c =
      let (m, t, k, b, n, x) = read-save platform p d i in ((c, m, t, k, b, n), x)

  -- Either the profile of the call or another one.
  by_profile :
      (P : Text → Option Identity → Option Pending → Type 0) (p q : Text)
      (i stored : Option Identity) (x waiting : Option Pending)
      → P p i x
      → (same p q ≡ false → P q stored waiting)
      → P q (if same p q then i else stored) (if same p q then x else waiting)
  by_profile P p q i stored x waiting own other = elim (Bool-cases (same p q)) [
    | inl e ↦ rw e (subst (λ (r : Text). P r i x) (same→eq p q e) own)
    | inr e ↦ rw e (other e)
  ]

  save-Holds :
      (p q : Text) (i : Identity) (d : Disk) (stored : Option Identity) (waiting : Option Pending)
      → CompleteIdentity i
      → Holds d q stored waiting
      → Holds
          (save platform p i d)
          q
          (if same p q then some i else stored)
          (if same p q then none else waiting)
  save-Holds p q i d stored waiting c h =
      by_profile (Holds (save platform p i d)) p q (some i) stored none waiting
        (save-Holds_own p i d c)
        (λ (e : same p q ≡ false).
          Holds-same d (save platform p i d) q stored waiting
            (λ (n : Text). read-save_other platform p d i q n e) h)

  save_pending-HoldsIdentity :
      (p : Text) (x : Pending) (d : Disk) (stored : Option Identity)
      → SameKey stored x
      → HoldsIdentity platform d p stored
      → HoldsIdentity platform (save_pending platform p x d) p stored
  save_pending-HoldsIdentity p x d none s h = (read-save_pending platform p d x).3 ∙ h
  save_pending-HoldsIdentity p x d (some i) s (c, m, t, k, b, n) =
      let (_, t', k', m', b', n') = read-save_pending platform p d x in
      (
        c,
        m' ∙ m,
        t' ∙ ap (λ (u : Text). some (u ++ 10 ∷ [])) (sym s.0),
        k' ∙ ap some (sym s.1),
        b' ∙ b,
        n' ∙ n,
      )

  save_pending-Holds_own :
      (p : Text) (x : Pending) (d : Disk) (stored : Option Identity)
      → CompletePending x
      → SameKey stored x
      → HoldsIdentity platform d p stored
      → Holds (save_pending platform p x d) p stored (some x)
  unfolding Holds
  save_pending-Holds_own p x d stored c s h =
      let (m, t, k, m', b', n') = read-save_pending platform p d x in
      (save_pending-HoldsIdentity p x d stored s h, (c, m, t, k))

  remove-Holds_own : (p : Text) (d : Disk) → Holds (remove_directory p d) p none none
  unfolding Holds
  remove-Holds_own p d = (
    simp (read-remove_directory, same_refl p) refl,
    simp (read-remove_directory, same_refl p) refl,
  )

  remove-Holds :
      (p q : Text) (d : Disk) (stored : Option Identity) (waiting : Option Pending)
      → Holds d q stored waiting
      → Holds
          (remove_directory p d)
          q
          (if same p q then none else stored)
          (if same p q then none else waiting)
  remove-Holds p q d stored waiting h =
      by_profile (Holds (remove_directory p d)) p q none stored none waiting (remove-Holds_own p d)
        (λ (e : same p q ≡ false).
          Holds-same d (remove_directory p d) q stored waiting
            (λ (n : Text). simp (read-remove_directory, e) refl) h)

  save-Simulates :
      (p : Text) (i : Identity) (d : Disk) (m : Memory)
      → CompleteIdentity i
      → Simulates d m
      → Simulates (save platform p i d) (memory_save p i m)
  unfolding Holds
  save-Simulates p i d m c s = record {
    readable = rw (save-unreadable platform p d i) (s.readable);
    holds = λ q.
        rw (lookup-insert q p i m.identities, lookup-delete q p m.pending)
          (save-Holds p q i d (lookup q m.identities) (lookup q m.pending) c (s.holds q));
  }

  remove-Simulates :
      (p : Text) (d : Disk) (m : Memory)
      → Simulates d m
      → Simulates (remove_directory p d) (memory_remove p m)
  unfolding Holds remove_directory
  remove-Simulates p d m s = record {
    readable = s.readable;
    holds = λ q.
        rw (lookup-delete q p m.identities, lookup-delete q p m.pending)
          (remove-Holds p q d (lookup q m.identities) (lookup q m.pending) (s.holds q));
  }

  save_pending-Holds :
      (p q : Text) (x : Pending) (d : Disk) (m : Memory)
      → CompletePending x
      → SameKey (lookup p m.identities) x
      → Simulates d m
      → Holds
          (save_pending platform p x d)
          q
          (lookup q m.identities)
          (if same p q then some x else lookup q m.pending)
  unfolding Holds
  save_pending-Holds p q x d m c k s = elim (Bool-cases (same p q)) [
    | inl e ↦ rw e (
        subst (λ (r : Text). Holds (save_pending platform p x d) r (lookup r m.identities) (some x))
          (same→eq p q e) (save_pending-Holds_own p x d (lookup p m.identities) c k (s.holds p).0))
    | inr e ↦ rw e (
        Holds-same d (save_pending platform p x d) q (lookup q m.identities) (lookup q m.pending)
          (λ (n : Text). read-save_pending_other platform p d x q n e) (s.holds q))
  ]

  save_pending-Simulates :
      (p : Text) (x : Pending) (d : Disk) (m : Memory)
      → CompletePending x
      → SameKey (lookup p m.identities) x
      → Simulates d m
      → Simulates (save_pending platform p x d) (memory_save_pending p x m)
  unfolding Holds
  save_pending-Simulates p x d m c k s = record {
    readable = rw (save_pending-unreadable platform p d x) (s.readable);
    holds = λ q. rw (lookup-insert q p x m.pending) (save_pending-Holds p q x d m c k s);
  }

  -- Let the disk be readable and hold the files of what the memory has, and let JSON.parse undo
  -- JSON.stringify on the metadata, whose texts are not empty, and dates read back. Then `xdg`
  -- and `memory` give the same answers to every sequence of calls in which saved tunnels have a
  -- token without white space, a private key and a certificate that are not empty, and a pending
  -- tunnel is saved only where no tunnel is stored for the profile or the stored one has its
  -- token and key.
  pub xdg-memory :
      (calls : List Call) (d : Disk) (m : Memory)
      → Lawful platform
      → Simulates d m
      → Suitable calls m
      → answers (xdg platform) calls d ≡ answers memory calls m
  unfolding answers
  xdg-memory [] d m w s u = refl
  xdg-memory (loads p ∷ cs) d m w s u =
      rw
        (
          load-holds platform d p (lookup p m.identities) w s.readable (s.holds p).0,
          xdg-memory cs d m w s u,
        )
        refl
  xdg-memory (loads_pending p ∷ cs) d m w s u =
      rw
        (
          load_pending-holds platform d p (lookup p m.pending) w s.readable (s.holds p).1,
          xdg-memory cs d m w s u,
        )
        refl
  xdg-memory (saves p i ∷ cs) d m w s (c, u) =
      ap (λ (r : List Answer). done ∷ r)
        (xdg-memory cs (save platform p i d) (memory_save p i m) w (save-Simulates p i d m c s) u)
  xdg-memory (saves_pending p x ∷ cs) d m w s (c, k, u) =
      ap (λ (r : List Answer). done ∷ r)
        (xdg-memory cs (save_pending platform p x d) (memory_save_pending p x m) w
          (save_pending-Simulates p x d m c k s) u)
  xdg-memory (removes p ∷ cs) d m w s u =
      ap (λ (r : List Answer). done ∷ r)
        (xdg-memory cs (remove_directory p d) (memory_remove p m) w (remove-Simulates p d m s) u)

  -- An empty disk has the files of an empty memory.
  pub empty-Simulates : (d : Disk) → d.directories ≡ [] → Readable d → Simulates d no_memory
  unfolding read_file lookup
  empty-Simulates d e r = record { readable = r; holds = λ p. (rw e refl, rw e refl) }
