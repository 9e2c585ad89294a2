-- ===== src/Kernel/Fused.antt =====
-- The fused path: gfc/kernels/fused.py. A program is its sequence of effects: copies, the cells
-- of `step_pad` that it publishes, and those that it waits for. A cell is an index of 8-byte words.
-- `Fused.Launch` is the host side.
pub mod Launch
pub mod Partition
pub mod StepPad
pub mod Run
pub mod BlockCopy
pub mod Lanes
pub mod Programs
pub mod Fleet
pub mod CellBounds
use group_free_collectives.Base.{
  ℕ, zero, suc, ◌+◌, ◌-◌, ◌*◌, ◌/◌, ◌%◌, ◌^◌, min, Bool, true, false, not, ◌&&◌, Option, none, some,
  List, [], ◌∷◌, ◌++◌, map, ltb, leb, ◌==◌, if◌then◌else◌, cdiv, range,
}
use group_free_collectives.Base.Membership.{concat_map}
use group_free_collectives.Kernel.Memory.{Copy}
use group_free_collectives.Kernel.Pull.{ring_index}

abbrev pub default_block_elts : ℕ
default_block_elts = 4096

-- `HAS_DST2`: a lane's value is stored a second time.
abbrev pub store_lane : ℕ → ℕ → Option ℕ → ℕ → ℕ → List Copy
store_lane src dst1 none off len = record { src = src + off; dst = dst1 + off; len = len } ∷ []
store_lane src dst1 (some dst2) off len =
    record { src = src + off; dst = dst1 + off; len = len }
    ∷ record { src = src + off; dst = dst2 + off; len = len }
    ∷ []

-- `_byte_tail_copy`: the bytes `off .. nbytes_total`.
unfoldable pub byte_tail_copy : ℕ → ℕ → Option ℕ → ℕ → ℕ → ℕ → List Copy
byte_tail_copy src dst1 dst2 off nbytes_total block_elts =
    concat_map
      (λ round.
        let inner = off + round * block_elts in
        concat_map
          (λ lane.
            let idx = inner + lane in
            if ltb idx nbytes_total then store_lane src dst1 dst2 idx 1 else [])
          (range block_elts))
      (range (cdiv (nbytes_total - off) block_elts))

-- The bulk loop of `_fused_block_copy`, for each of the widths 16, 8 and 4.
unfoldable pub bulk_copy : ℕ → ℕ → Option ℕ → ℕ → ℕ → ℕ → List Copy
bulk_copy src dst1 dst2 bulk_bytes block_elts vec_bytes =
    let block_bytes = block_elts * vec_bytes in
    concat_map
      (λ round.
        let off = round * block_bytes in
        let remaining = bulk_bytes - off in
        concat_map
          (λ lane.
            if ltb (lane * vec_bytes) remaining
            then store_lane src dst1 dst2 (off + lane * vec_bytes) vec_bytes
            else [])
          (range block_elts))
      (range (cdiv bulk_bytes block_bytes))

-- `_fused_block_copy`.
unfoldable pub fused_block_copy : ℕ → ℕ → Option ℕ → ℕ → ℕ → ℕ → List Copy
unfolding byte_tail_copy bulk_copy
fused_block_copy src dst1 dst2 nbytes block_elts vec_bytes =
    let bulk_bytes = nbytes / vec_bytes * vec_bytes in
    if vec_bytes == 1
    then byte_tail_copy src dst1 dst2 0 nbytes block_elts
    else bulk_copy src dst1 dst2 bulk_bytes block_elts vec_bytes
      ++ (if ltb bulk_bytes nbytes
          then byte_tail_copy src dst1 dst2 bulk_bytes nbytes block_elts
          else [])

pub data FusedOp : Type 0 where
  copies : List Copy → FusedOp
  publish : (rank cell value : ℕ) → FusedOp  -- `st.release` into the pad of `rank`
  await : (cell value : ℕ) → FusedOp  -- spin on `ld.acquire` of the own pad

-- What a launch hands both kernels.
pub record FusedArgs : Type 0 where
  pub input : ℕ
  pub output : ℕ
  pub comm_buf_offset : ℕ
  pub self_global_rank : ℕ
  pub self_local_index : ℕ
  pub slice_bytes : ℕ
  pub partition_bytes : ℕ
  pub chunk_bytes : ℕ
  pub step_base : ℕ
  pub world_size : ℕ
  pub max_chunks : ℕ
  pub group_size : ℕ
  pub group_lanes : ℕ
  pub num_channels : ℕ
  pub block_elts : ℕ
  pub vec_bytes : ℕ

module _ (a : FusedArgs) where
  abbrev pub partition_off : ℕ → ℕ
  partition_off channel = channel * a.partition_bytes

  abbrev pub partition_size : ℕ → ℕ
  partition_size channel = min a.partition_bytes (a.slice_bytes - partition_off channel)

  abbrev pub n_chunks : ℕ → ℕ
  n_chunks channel = cdiv (partition_size channel) a.chunk_bytes

  abbrev pub this_chunk : ℕ → ℕ → ℕ
  this_chunk channel k = min a.chunk_bytes (partition_size channel - k * a.chunk_bytes)

  abbrev pub base_byte : ℕ → ℕ → ℕ
  base_byte channel k = partition_off channel + k * a.chunk_bytes

  -- The cell that `rank` writes for chunk `k` of a channel.
  unfoldable pub step_cell : ℕ → ℕ → ℕ → ℕ
  step_cell channel k rank = channel * a.max_chunks * a.world_size + k * a.world_size + rank

  -- `step_base + (k + 1)`, on unsigned 64-bit words.
  unfoldable pub step_value : ℕ → ℕ
  step_value k = (a.step_base + (k + 1)) % 2 ^ 64

  module _ (ranks cb_ptrs : ℕ → ℕ) where
    -- The publish lanes: the members of the group but this rank.
    unfoldable pub publish_step : ℕ → ℕ → List FusedOp
    publish_step channel k =
        concat_map
          (λ lane.
            if ltb lane a.group_size && not (lane == a.self_local_index)
            then publish (ranks lane) (step_cell channel k a.self_global_rank) (step_value k) ∷ []
            else [])
          (range a.group_lanes)

    -- The spin: every member of the group but this rank.
    unfoldable pub await_step : ℕ → ℕ → List FusedOp
    await_step channel k =
        concat_map
          (λ lane.
            if ltb lane a.group_size && not (lane == a.self_local_index)
            then await (step_cell channel k (ranks lane)) (step_value k) ∷ []
            else [])
          (range a.group_lanes)

    -- The pulls of a chunk; `piece_off` is where this rank's piece lies in a peer's buffer.
    unfoldable pub pull_chunk : ℕ → ℕ → ℕ → List Copy
    unfolding fused_block_copy
    pull_chunk piece_off channel k =
        concat_map
          (λ p_delta.
            let peer_idx = ring_index a.self_local_index a.group_size p_delta in
            let pulled =
              fused_block_copy
                (cb_ptrs (ranks peer_idx) + a.comm_buf_offset + piece_off + base_byte channel k)
                (a.output + peer_idx * a.slice_bytes + base_byte channel k) none
                (this_chunk channel k) a.block_elts a.vec_bytes in
            if peer_idx == a.self_local_index then [] else pulled)
          (range a.group_size)

    unfoldable pub receiver : ℕ → ℕ → List FusedOp
    receiver piece_off channel =
        concat_map (λ k. await_step channel k ++ copies (pull_chunk piece_off channel k) ∷ [])
          (range (n_chunks channel))

    -- The copies of `all_gather_fused_kernel`'s sender for one chunk.
    unfoldable pub gather_stage : ℕ → ℕ → List Copy
    unfolding fused_block_copy
    gather_stage channel k =
        fused_block_copy (a.input + base_byte channel k)
          (cb_ptrs a.self_global_rank + a.comm_buf_offset + base_byte channel k)
          (some (a.output + a.self_local_index * a.slice_bytes + base_byte channel k))
          (this_chunk channel k) a.block_elts a.vec_bytes

    -- The copies of `all2all_fused_kernel`'s sender for one chunk.
    unfoldable pub exchange_stage : ℕ → ℕ → List Copy
    unfolding fused_block_copy
    exchange_stage channel k =
        concat_map
          (λ t.
            fused_block_copy (a.input + t * a.slice_bytes + base_byte channel k)
              (cb_ptrs a.self_global_rank
                + a.comm_buf_offset
                + t * a.slice_bytes
                + base_byte channel k)
              none (this_chunk channel k) a.block_elts a.vec_bytes)
          (range a.group_size)
        ++ fused_block_copy (a.input + a.self_local_index * a.slice_bytes + base_byte channel k)
            (a.output + a.self_local_index * a.slice_bytes + base_byte channel k) none
            (this_chunk channel k) a.block_elts a.vec_bytes

    unfoldable pub sender : (ℕ → ℕ → List Copy) → ℕ → List FusedOp
    sender stage channel =
        concat_map (λ k. copies (stage channel k) ∷ publish_step channel k)
          (range (n_chunks channel))

    -- Program `pid`: an even one sends, an odd one receives, for channel `pid // 2`; a channel
    -- whose partition starts past the slice does nothing.
    unfoldable pub all_gather_fused_kernel : ℕ → List FusedOp
    all_gather_fused_kernel pid =
        let channel = pid / 2 in
        if leb a.slice_bytes (partition_off channel)
        then []
        else if pid % 2 == 0
        then sender gather_stage channel
        else receiver 0 channel

    unfoldable pub all2all_fused_kernel : ℕ → List FusedOp
    all2all_fused_kernel pid =
        let channel = pid / 2 in
        if leb a.slice_bytes (partition_off channel)
        then []
        else if pid % 2 == 0
        then sender exchange_stage channel
        else receiver (a.self_local_index * a.slice_bytes) channel
