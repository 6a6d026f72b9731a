-- ===== src/Client/Storage.antt =====
-- packages/client/src/effect/storage.ts: where a client keeps its tunnels. `Storage` is the interface
-- that client.ts uses, `memory` its implementation by maps; `Disk` has the one by files.
pub mod Disk
pub mod Tokens
pub mod Files
pub mod Reading
pub mod Refinement
pub mod Overwriting
mod Examples
use shuvtunnel.Common.{ℕ, List, [], ◌∷◌, ◌++◌, Option, none, some, Bool, Text}
use shuvtunnel.Client.{Identity}
use shuvtunnel.Client.Maps.{lookup, insert, delete}

-- `ShuvTunnelPendingIdentity`
pub record Pending : Type 0 where
  pub id : Text
  pub hostname : Text
  pub token : Text
  pub private_key : Text
  pub csr : Text

-- The errors of the storage, by their messages' parts, and those of the client.
pub data Failure : Type 0 where
  read_failed : Text → Text → Failure
  incomplete_identity incomplete_pending : Text → Failure
  client_error : Text → Failure

-- What an `Effect` ends with; `dies` is an exception that is no error of the effect.
pub data Outcome (A : Type 0) : Type 0 where
  ok : A → Outcome A
  fails : Failure → Outcome A
  dies : Outcome A

infixl 5 ◌>>=◌
abbrev pub ◌>>=◌ : {A B : Type 0} → Outcome A → (A → Outcome B) → Outcome B
◌>>=◌ (ok a) f = f a
◌>>=◌ (fails e) f = fails e
◌>>=◌ dies f = dies

-- `ShuvTunnelStorage`, on a state `S`.
pub record Storage (S : Type 0) : Type 0 where
  pub load : Text → S → Outcome (Option Identity)
  pub save : Text → Identity → S → S
  pub load_pending : Text → S → Outcome (Option Pending)
  pub save_pending : Text → Pending → S → S
  pub remove : Text → S → S

pub record Memory : Type 0 where
  pub identities : List (Text × Identity)
  pub pending : List (Text × Pending)

abbrev pub no_memory : Memory
no_memory = record { identities = []; pending = [] }

-- `memory()`
abbrev pub memory_save : Text → Identity → Memory → Memory
memory_save profile tunnel m = record {
  identities = insert profile tunnel m.identities;
  pending = delete profile m.pending;
}

abbrev pub memory_save_pending : Text → Pending → Memory → Memory
memory_save_pending profile tunnel m = record m { pending = insert profile tunnel m.pending }

abbrev pub memory_remove : Text → Memory → Memory
memory_remove profile m = record {
  identities = delete profile m.identities;
  pending = delete profile m.pending;
}

abbrev pub memory : Storage Memory
memory = record {
  load = λ profile m. ok (lookup profile m.identities);
  save = memory_save;
  load_pending = λ profile m. ok (lookup profile m.pending);
  save_pending = memory_save_pending;
  remove = memory_remove;
}

-- A call of the storage, and what it answers.
pub data Call : Type 0 where
  loads : Text → Call
  saves : Text → Identity → Call
  loads_pending : Text → Call
  saves_pending : Text → Pending → Call
  removes : Text → Call

pub data Answer : Type 0 where
  identity_is : Outcome (Option Identity) → Answer
  pending_is : Outcome (Option Pending) → Answer
  done : Answer

module _ {S : Type 0} (storage : Storage S) where
  abbrev pub call : Call → S → Answer × S
  call (loads profile) s = (identity_is (storage.load profile s), s)
  call (saves profile tunnel) s = (done, storage.save profile tunnel s)
  call (loads_pending profile) s = (pending_is (storage.load_pending profile s), s)
  call (saves_pending profile tunnel) s = (done, storage.save_pending profile tunnel s)
  call (removes profile) s = (done, storage.remove profile s)

  unfoldable pub answers : List Call → S → List Answer
  answers [] s = []
  answers (c ∷ cs) s = (call c s).0 ∷ answers cs (call c s).1
