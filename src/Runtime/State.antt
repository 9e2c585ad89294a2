-- ===== src/Runtime/State.antt =====
-- The runtime of one rank: what its constructor fixes, what its methods change, and the methods'
-- effects. What a method did before it raises stays done, so the state comes back beside an error.
-- The work that the runtime enqueues is a log, the newest entry first. The submission lock makes a
-- method one step: no method of this rank runs inside another's.
use group_free_collectives.Base.{ℕ, Bool, Option, List, ◌∷◌, Outcome, ok, err, value_error, check}
use group_free_collectives.Config.{SymmetricCollectiveConfig}
use group_free_collectives.Group.{GroupDescriptor}
use group_free_collectives.Group.Epochs.{Epochs}
use group_free_collectives.Autotune.{Rule}
use group_free_collectives.Kernel.Memory.{Copy}
use group_free_collectives.Kernel.Fused.{FusedOp}

-- The attributes that the constructor sets once. `peer_comm_ptrs` is the peer table of comm_buf's
-- handle, `comm_local_ptr` the address of the local buffer; `memcpy` is the driver's copy and
-- `world_gather` the result of a world `all_gather_object`, both code outside the repository.
pub record Setup : Type 0 where
  pub config : SymmetricCollectiveConfig
  pub device : ℕ
  pub rank : ℕ
  pub world_size : ℕ
  pub autotune : Option (List Rule)
  pub num_sms : ℕ
  pub copy_sms : ℕ
  pub copy_engine_enabled : Bool
  pub tma_enabled : Bool
  pub session_nonce : ℕ
  pub peer_comm_ptrs : ℕ → ℕ
  pub comm_local_ptr : ℕ
  pub memcpy : Copy → ℕ
  pub world_gather : ℕ → List ℕ → List (ℕ × List ℕ)

pub record Tensor : Type 0 where
  pub is_cuda : Bool
  pub device : ℕ
  pub is_contiguous : Bool
  pub nbytes : ℕ
  pub data_ptr : ℕ

-- What is enqueued. `ingest` orders the runtime's streams after the caller's; the work of
-- `on_copy_stream` runs on the second stream, between its `fork` and the `join` that follows it.
pub data Op : Type 0 where
  ingest : List ℕ → Op
  stage : List Copy → Op
  barrier_launch : (row : List ℕ) (group_size token : ℕ) → Op
  kernel : List Copy → Op
  fused_kernel : List (List FusedOp) → Op
  fork : Op
  on_copy_stream : List Copy → Op
  join : Op
  free_row : List ℕ → Op
  zero_grids : Op

-- `_registered` maps a group id to the handle of its descriptor object; `heap` holds the objects.
pub record State : Type 0 where
  pub registered : List (ℕ × ℕ)
  pub heap : List (ℕ × GroupDescriptor)
  pub next_handle : ℕ
  pub epochs : Epochs
  pub ops : List Op
  pub is_shutdown : Bool

abbrev pub Act {ℓ} : Type ℓ → Type ℓ
Act A = State → Outcome A × State

module _ {ℓ} {A : Type ℓ} where
  abbrev pub pure : A → Act A
  pure a s = (ok a, s)

  abbrev pub lift : Outcome A → Act A
  lift r s = (r, s)

module _ {ℓ} {A B : Type ℓ} where
  abbrev pub continue : Outcome A × State → (A → Act B) → Outcome B × State
  continue (ok a, s) f = f a s
  continue (err e, s) f = (err e, s)

  infixl 10 ◌>>=◌
  abbrev pub ◌>>=◌ : Act A → (A → Act B) → Act B
  (m >>= f) s = continue (m s) f

infixl 10 ◌>>◌
abbrev pub ◌>>◌ {ℓ} : {A B : Type ℓ} → Act A → Act B → Act B
m >> k = m >>= λ _. k

-- `_require` inside a method.
abbrev pub demand : Bool → Act (Unit {0})
demand b s = (check b value_error, s)

abbrev pub enqueue : Op → Act (Unit {0})
enqueue o s = (ok tt, record s { ops = o ∷ s.ops })
