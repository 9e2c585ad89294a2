-- ===== src/Kernel/Fused/Run.antt =====
-- gfc/kernels/fused.py: the programs of all ranks of a group at once, an access at a time, in any
-- order, on one memory and the ranks' step grids. A lane's load and store are one access. The lanes
-- that a receiver waits for are awaited one by one: a cell that holds its value keeps it until the
-- launch ends. A run goes on as long as no watchdog traps, which ends it for all. A wait
-- whose cell lacks its value has no step: its rounds change nothing.
pub mod Discipline
pub mod Invariant
pub mod Extends
pub mod Keeps
pub mod Outcome
pub mod Progress
pub mod Length
pub mod Completes
use group_free_collectives.Base.{ℕ, zero, suc, ◌<◌, ◌≡◌, List, [], ◌∷◌, map}
use group_free_collectives.Base.Membership.{concat_map}
use group_free_collectives.Kernel.Family.{set2}
use group_free_collectives.Kernel.Memory.{Memory, Copy, store}
use group_free_collectives.Kernel.Fused.{FusedOp, copies, publish, await}

pub data Access : Type 0 where
  transfer : Copy → Access
  release : (rank cell value : ℕ) → Access  -- into the pad of `rank`
  acquire : (cell value : ℕ) → Access  -- from the own pad

abbrev pub accesses : FusedOp → List Access
accesses (copies cs) = map transfer cs
accesses (publish rank cell value) = release rank cell value ∷ []
accesses (await cell value) = acquire cell value ∷ []

-- `step_pad r` is the grid of rank r, and `rest i p` what program p of member i has still to do.
pub record Launched : Type 0 where
  pub mem : Memory
  pub step_pad : ℕ → ℕ → ℕ
  pub rest : ℕ → ℕ → List Access

abbrev pub launched : (ℕ → ℕ → List Access) → Memory → (ℕ → ℕ → ℕ) → Launched
launched progs mem step_pad = record { mem = mem; step_pad = step_pad; rest = progs }

-- `g` members, whose ranks are `ranks`, launch `n` programs each.
module _ (g n : ℕ) (ranks : ℕ → ℕ) where
  pub data Step (w : Launched) : Launched → Type 0 where
    transferred :
        (i p : ℕ) {c : Copy} {ops : List Access}
        → i < g
        → p < n
        → w.rest i p ≡ transfer c ∷ ops
        → Step w (record { mem = store c w.mem; step_pad = w.step_pad; rest = set2 w.rest i p ops })
    released :
        (i p : ℕ) {rank cell value : ℕ} {ops : List Access}
        → i < g
        → p < n
        → w.rest i p ≡ release rank cell value ∷ ops
        → Step w (record {
          mem = w.mem;
          step_pad = set2 w.step_pad rank cell value;
          rest = set2 w.rest i p ops;
        })
    acquired :
        (i p : ℕ) {cell value : ℕ} {ops : List Access}
        → i < g
        → p < n
        → w.rest i p ≡ acquire cell value ∷ ops
        → w.step_pad (ranks i) cell ≡ value
        → Step w (record { mem = w.mem; step_pad = w.step_pad; rest = set2 w.rest i p ops })

  -- Runs of so many steps.
  pub data Reach (s : Launched) : ℕ → Launched → Type 0 where
    start : Reach s zero s
    later : {k : ℕ} {v w : Launched} → Reach s k v → Step v w → Reach s (suc k) w

  abbrev pub Finished : Launched → Type 0
  Finished w = (i p : ℕ) → i < g → p < n → w.rest i p ≡ []
