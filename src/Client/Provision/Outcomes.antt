-- ===== src/Client/Provision/Outcomes.antt =====
-- What each operation of packages/client/src/effect/client.ts leaves in the storage, whatever the
-- server and the platform answer.
use shuvtunnel.Common.{
  ℕ, ◌≡◌, ◌⊎◌, inl, inr, refl, subst, [], ◌∷◌, ◌++◌, Option, none, some, Bool, true, false, Text,
  length, arith, Option-cases,
}
use shuvtunnel.Client.{Identity}
use shuvtunnel.Client.Storage.{Pending, Outcome, ok, fails, dies, Storage}
use shuvtunnel.Client.Provision.{
  requesting_certificate, creating_tunnel, resuming_certificate, creates, binds, Remote, World,
  Result, done, raises, defect, waits, complete_pending, new_pending, provision, create_tunnel,
  create,
}
use shuvtunnel.Client.Provision.Waiting.{wait_certificate-store}

abbrev pub is_done : {A : Type 0} → Result A → Bool
is_done (done a) = true
is_done (raises e) = false
is_done defect = false
is_done waits = false

abbrev pub Unchanged : {S A : Type 0} → S → Result A → S → Type 0
Unchanged before result after = (is_done result ≡ false) × (after ≡ before)

module _ {S : Type 0} (storage : Storage S) (remote : Remote) where
  -- The pending tunnel gets its certificate and is saved, or the storage stays as it was.
  abbrev pub Completes : Text → Pending → S → Result Identity → S → Type 0
  Completes profile x before (done i) after =
      (after ≡ storage.save profile i before)
      × (i.id ≡ x.id)
      × (i.hostname ≡ x.hostname)
      × (i.token ≡ x.token)
      × (i.private_key ≡ x.private_key)
  Completes profile x before (raises e) after = after ≡ before
  Completes profile x before defect after = after ≡ before
  Completes profile x before waits after = after ≡ before

  pub complete_pending-Completes :
      (fuel : ℕ) (profile : Text) (x : Pending) (w : World S)
      → (let out = complete_pending storage remote fuel profile x w in
          Completes profile x w.store out.0 out.1.store)
  unfolding complete_pending
  complete_pending-Completes fuel profile x w =
      let v = record w {
        requests = w.requests ++ binds x.id x.csr ∷ [];
        stages = w.stages ++ requesting_certificate ∷ [];
      } in
      ground (arith, wait_certificate-store storage remote x.id fuel v)

  -- A new pending tunnel is that of the server; nothing is stored yet.
  abbrev Prepares : Text → Text → Text → S → Result Pending → S → Type 0
  Prepares id hostname token before (done x) after =
      (after ≡ before) × (x.id ≡ id) × (x.hostname ≡ hostname) × (x.token ≡ token)
  Prepares id hostname token before (raises e) after = after ≡ before
  Prepares id hostname token before defect after = after ≡ before
  Prepares id hostname token before waits after = after ≡ before

  new_pending-Prepares :
      (id hostname token : Text) (w : World S)
      → (let out = new_pending storage remote id hostname token w in
          Prepares id hostname token w.store out.0 out.1.store)
  unfolding new_pending
  new_pending-Prepares id hostname token w = ground arith

  -- The keys fail and nothing is stored, or the pending tunnel is stored before its certificate is asked for.
  abbrev pub Provisions : Text → Text → Text → Text → S → Result Identity → S → Type 0
  Provisions profile id hostname token before result after =
      ((is_done result ≡ false) × (after ≡ before))
      ⊎ ((x : Pending) × (x.id ≡ id)
          × (x.hostname ≡ hostname)
          × (x.token ≡ token)
          × Completes profile x (storage.save_pending profile x before) result after)

  stored : Text → Pending → World S → World S
  stored profile x w = record w { store = storage.save_pending profile x w.store }

  provision-prepared :
      (fuel : ℕ) (profile id hostname token : Text) (w : World S) (x : Pending)
      → (new_pending storage remote id hostname token w).0 ≡ done x
      → provision storage remote fuel profile id hostname token w
        ≡ complete_pending storage remote fuel profile x
            (stored profile x (new_pending storage remote id hostname token w).1)
  unfolding provision stored
  provision-prepared fuel profile id hostname token w x h = ground (arith, h)

  stored-Completes :
      (fuel : ℕ) (profile : Text) (x : Pending) (v : World S) (before : S)
      → v.store ≡ before
      → (let out = complete_pending storage remote fuel profile x (stored profile x v) in
          Completes profile x (storage.save_pending profile x before) out.0 out.1.store)
  unfolding stored
  stored-Completes fuel profile x v before h =
      subst
        (λ (s : S).
          let out = complete_pending storage remote fuel profile x (stored profile x v) in
          Completes profile x (storage.save_pending profile x s) out.0 out.1.store)
        h (complete_pending-Completes fuel profile x (stored profile x v))

  pub provision-Provisions :
      (fuel : ℕ) (profile id hostname token : Text) (w : World S)
      → (let out = provision storage remote fuel profile id hostname token w in
          Provisions profile id hostname token w.store out.0 out.1.store)
  unfolding provision
  provision-Provisions fuel profile id hostname token w =
      prepared (new_pending storage remote id hostname token w).0 refl
        (new_pending-Prepares id hostname token w)
    where
      prepared :
          (r : Result Pending)
          → (new_pending storage remote id hostname token w).0 ≡ r
          → Prepares id hostname token w.store r
              (new_pending storage remote id hostname token w).1.store
          → (let out = provision storage remote fuel profile id hostname token w in
              Provisions profile id hostname token w.store out.0 out.1.store)
      prepared (done x) h p = inr (
        x,
        p.1,
        p.2,
        p.3,
        rw (provision-prepared fuel profile id hostname token w x h) (
            stored-Completes fuel profile x (new_pending storage remote id hostname token w).1
              w.store p.0),
      )
      prepared (raises e) h p = inl (ground (arith, h, p))
      prepared defect h p = inl (ground (arith, h, p))
      prepared waits h p = inl (ground (arith, h, p))

  abbrev pub Created : Text → S → Result Identity → S → Type 0
  Created profile before result after =
      Unchanged before result after
      ⊎ ((x : Pending) × Completes profile x (storage.save_pending profile x before) result after)

  Provisions-Created :
      (profile id hostname token : Text) (before : S) (result : Result Identity) (after : S)
      → Provisions profile id hostname token before result after
      → Created profile before result after
  Provisions-Created profile id hostname token before result after (inl u) = inl u
  Provisions-Created profile id hostname token before result after (inr (x, a, b, c, d)) =
      inr (x, d)

  create_tunnel-created :
      (fuel : ℕ) (profile : Text) (w : World S) (id hostname token : Text)
      → remote.created (length w.requests) ≡ some (id, hostname, token)
      → create_tunnel storage remote fuel profile w
        ≡ provision storage remote fuel profile id hostname token (record w {
          requests = w.requests ++ creates ∷ [];
          stages = w.stages ++ creating_tunnel ∷ [];
        })
  unfolding create_tunnel
  create_tunnel-created fuel profile w id hostname token h = rw h refl

  create_tunnel-refused :
      (fuel : ℕ) (profile : Text) (w : World S)
      → remote.created (length w.requests) ≡ none
      → (let out = create_tunnel storage remote fuel profile w in
          Unchanged w.store out.0 out.1.store)
  unfolding create_tunnel
  create_tunnel-refused fuel profile w h = ground (arith, h)

  create_tunnel-Created :
      (fuel : ℕ) (profile : Text) (w : World S)
      → (let out = create_tunnel storage remote fuel profile w in
          Created profile w.store out.0 out.1.store)
  create_tunnel-Created fuel profile w = elim (Option-cases (remote.created (length w.requests))) [
    | inl h ↦ inl (create_tunnel-refused fuel profile w h)
    | inr (answer, h) ↦
        let v = record w {
          requests = w.requests ++ creates ∷ [];
          stages = w.stages ++ creating_tunnel ∷ [];
        } in
        let out = provision storage remote fuel profile answer.0 answer.1 answer.2 v in
        rw (create_tunnel-created fuel profile w answer.0 answer.1 answer.2 h) (
          Provisions-Created profile answer.0 answer.1 answer.2 w.store out.0 out.1.store
            (provision-Provisions fuel profile answer.0 answer.1 answer.2 v))
  ]

  -- What `create` makes of what the storage has.
  abbrev pub Creates :
      Text → Outcome (Option Identity) → Outcome (Option Pending) → S → Result Identity → S → Type 0
  Creates profile (ok none) (ok none) before result after = Created profile before result after
  Creates profile (ok none) (ok (some x)) before result after =
      Completes profile x before result after
  Creates profile (ok none) (fails e) before result after = Unchanged before result after
  Creates profile (ok none) dies before result after = Unchanged before result after
  Creates profile (ok (some i)) pending before result after = Unchanged before result after
  Creates profile (fails e) pending before result after = Unchanged before result after
  Creates profile dies pending before result after = Unchanged before result after

  resumed : Pending → World S → World S
  resumed x w = record w { stages = w.stages ++ resuming_certificate ∷ [] }

  create-fresh :
      (fuel : ℕ) (profile : Text) (w : World S)
      → storage.load profile w.store ≡ ok none
      → storage.load_pending profile w.store ≡ ok none
      → create storage remote fuel profile w ≡ create_tunnel storage remote fuel profile w
  unfolding create
  create-fresh fuel profile w h k = ground (arith, h, k)

  create-pending :
      (fuel : ℕ) (profile : Text) (w : World S) (x : Pending)
      → storage.load profile w.store ≡ ok none
      → storage.load_pending profile w.store ≡ ok (some x)
      → create storage remote fuel profile w
        ≡ complete_pending storage remote fuel profile x (resumed x w)
  unfolding create resumed
  create-pending fuel profile w x h k = ground (arith, h, k)

  pub create-Creates :
      (fuel : ℕ) (profile : Text) (w : World S)
      → (let out = create storage remote fuel profile w in
          Creates profile
            (storage.load profile w.store)
            (storage.load_pending profile w.store)
            w.store
            out.0
            out.1.store)
  unfolding create resumed
  create-Creates fuel profile w =
      by_stored (storage.load profile w.store) (storage.load_pending profile w.store) refl refl
    where
      by_stored :
          (i : Outcome (Option Identity)) (x : Outcome (Option Pending))
          → storage.load profile w.store ≡ i
          → storage.load_pending profile w.store ≡ x
          → (let out = create storage remote fuel profile w in
              Creates profile i x w.store out.0 out.1.store)
      by_stored (ok none) (ok none) h k =
          rw (create-fresh fuel profile w h k) (create_tunnel-Created fuel profile w)
      by_stored (ok none) (ok (some x)) h k =
          rw (create-pending fuel profile w x h k)
            (complete_pending-Completes fuel profile x (resumed x w))
      by_stored (ok none) (fails e) h k = ground (arith, h, k)
      by_stored (ok none) dies h k = ground (arith, h, k)
      by_stored (ok (some i)) x h k = ground (arith, h, k)
      by_stored (fails e) x h k = ground (arith, h, k)
      by_stored dies x h k = ground (arith, h, k)
