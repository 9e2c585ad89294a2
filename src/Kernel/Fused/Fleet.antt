-- ===== src/Kernel/Fused/Fleet.antt =====
-- The fused launches of all members of a group: what they share, where their buffers lie, and what
-- their bytes are meant to be.
pub mod Aims
pub mod Copying
pub mod Feeds
pub mod Discipline
pub mod Delivers
pub mod Staging
pub mod Launches
pub mod Outcome
use group_free_collectives.Base.{ℕ, ◌+◌, ◌*◌, ◌≤◌, ◌<◌, ◌≡◌, ◌≢◌, ◌⊎◌, List, All}
use group_free_collectives.Base.Membership.{concat_map}
use group_free_collectives.Kernel.Memory.{Memory, Copy}
use group_free_collectives.Kernel.Pull.Coverage.{Written}
use group_free_collectives.Kernel.Fused.{
  FusedArgs, n_chunks, this_chunk, base_byte, step_cell, step_value,
}
use group_free_collectives.Kernel.Fused.Run.{Access, accesses}
use group_free_collectives.Kernel.Fused.Programs.{program}

-- What the host's checks give a launch.
pub record IsGeometry (a : FusedArgs) : Type 0 where
  pub chunk_pos : 0 < a.chunk_bytes
  pub partition_pos : 0 < a.partition_bytes
  pub block_pos : 0 < a.block_elts
  pub covered : a.slice_bytes ≤ a.num_channels * a.partition_bytes
  pub few_chunks : (channel : ℕ) → n_chunks a channel ≤ a.max_chunks
  pub lanes_fit : a.group_size ≤ a.group_lanes

-- Member i has its input at `ins i`, its output at `outs i`, and copies at width `widths i`.
module _ (a : FusedArgs) (ins outs widths ranks cb_ptrs : ℕ → ℕ) where
  abbrev pub member : ℕ → FusedArgs
  member i = record a {
    input = ins i;
    output = outs i;
    self_global_rank = ranks i;
    self_local_index = i;
    vec_bytes = widths i;
  }

  -- Where member i stages.
  abbrev pub window : ℕ → ℕ
  window i = cb_ptrs (ranks i) + a.comm_buf_offset

  -- Each member stages `staged` bytes of its input; the members have different ranks, and no two of
  -- the inputs', the windows' and the outputs' bytes that matter are one.
  pub record IsPlaced (staged : ℕ) : Type 0 where
    pub distinct : (i j : ℕ) → i < a.group_size → j < a.group_size → ranks i ≡ ranks j → i ≡ j
    pub in_world : (i : ℕ) → i < a.group_size → ranks i < a.world_size
    pub windows :
        (i j y z : ℕ)
        → i < a.group_size
        → j < a.group_size
        → y < staged
        → z < staged
        → window i + y ≡ window j + z
        → i ≡ j
    pub outputs :
        (i j y z : ℕ)
        → i < a.group_size
        → j < a.group_size
        → y < a.group_size * a.slice_bytes
        → z < a.group_size * a.slice_bytes
        → outs i + y ≡ outs j + z
        → i ≡ j
    pub window_output :
        (i j y z : ℕ)
        → i < a.group_size
        → j < a.group_size
        → y < staged
        → z < a.group_size * a.slice_bytes
        → window i + y ≢ outs j + z
    pub input_window :
        (i j y z : ℕ)
        → i < a.group_size
        → j < a.group_size
        → y < staged
        → z < staged
        → ins i + y ≢ window j + z
    pub input_output :
        (i j y z : ℕ)
        → i < a.group_size
        → j < a.group_size
        → y < staged
        → z < a.group_size * a.slice_bytes
        → ins i + y ≢ outs j + z

  -- `piece i` is where the bytes for member i lie in the input and the window of each member.
  module _ (staged : ℕ) (stage : ℕ → ℕ → ℕ → List Copy) (piece : ℕ → ℕ) where
    abbrev pub progs : ℕ → ℕ → List Access
    progs i p = concat_map accesses (program (member i) ranks cb_ptrs (stage i) (piece i) p)

    -- A copy takes input to its place in the window, or the member's own piece to the output.
    abbrev pub Stages : ℕ → Copy → Type 0
    Stages i c =
        ((y : ℕ) × (y + c.len ≤ staged) × (c.src ≡ ins i + y) × (c.dst ≡ window i + y))
        ⊎ ((x : ℕ) × (x + c.len ≤ a.slice_bytes)
            × (c.src ≡ ins i + piece i + x)
            × (c.dst ≡ outs i + i * a.slice_bytes + x))

    -- A chunk's staging takes nothing else, and all of the chunk of each piece.
    pub record IsStaging : Type 0 where
      pub pieces_fit : (t : ℕ) → t < a.group_size → piece t + a.slice_bytes ≤ staged
      pub stages :
          (i channel k : ℕ)
          → i < a.group_size
          → k < n_chunks a channel
          → All (Stages i) (stage i channel k)
      pub for_peers :
          (i t channel k b : ℕ)
          → i < a.group_size
          → t < a.group_size
          → k < n_chunks a channel
          → b < this_chunk a channel k
          → Written (window i + (piece t + (base_byte a channel k + b))) (stage i channel k)
      pub for_self :
          (i channel k b : ℕ)
          → i < a.group_size
          → k < n_chunks a channel
          → b < this_chunk a channel k
          → Written (outs i + i * a.slice_bytes + (base_byte a channel k + b)) (stage i channel k)

    module _ (m0 : Memory) where
      -- The byte that an address is meant to hold: a window holds its member's input, and an output
      -- the pieces of all members.
      abbrev pub Meant : ℕ → ℕ → Type 0
      Meant s v =
          ((j : ℕ) × (y : ℕ) × (j < a.group_size)
            × (y < staged)
            × (s ≡ window j + y)
            × (v ≡ m0 (ins j + y)))
          ⊎ ((i : ℕ) × (j : ℕ) × (x : ℕ) × (i < a.group_size)
              × (j < a.group_size)
              × (x < a.slice_bytes)
              × (s ≡ outs i + j * a.slice_bytes + x)
              × (v ≡ m0 (ins j + (piece i + x))))

  -- No cell that the members read still holds, from an earlier launch, a value of this one.
  abbrev pub IsFresh : (ℕ → ℕ → ℕ) → Type 0
  IsFresh pad0 =
      (i j channel k : ℕ)
      → i < a.group_size
      → j < a.group_size
      → k < a.max_chunks
      → pad0 (ranks i) (step_cell a channel k (ranks j)) ≢ step_value a k
