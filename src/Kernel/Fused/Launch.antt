-- ===== src/Kernel/Fused/Launch.antt =====
-- The launchers of the fused kernels: the programs of the launched grid, or the error.
use group_free_collectives.Base.{
  ℕ, ◌*◌, List, [], ◌∷◌, map, ltb, leb, cdiv, align_up, range, Outcome, ok, assertion_error,
  value_error, check, ◌>>=◌, ◌>>◌,
}
use group_free_collectives.Kernel.Width.{vec_width_bytes, base_alignment, next_pow2}
use group_free_collectives.Kernel.Fused.{
  FusedOp, FusedArgs, default_block_elts, all_gather_fused_kernel, all2all_fused_kernel,
}

-- `_pick_vec_bytes`.
unfoldable pub pick_vec_bytes : ℕ → ℕ → ℕ → ℕ
pick_vec_bytes input_ptr output_ptr slice_bytes =
    vec_width_bytes
      (base_alignment input_ptr ∷ base_alignment output_ptr ∷ base_alignment slice_bytes ∷ [])

-- `partition_bytes` of a launch: the slice over the channels, rounded up to the alignment.
abbrev pub partition_of : ℕ → ℕ → ℕ → ℕ
partition_of slice_bytes num_channels alignment = align_up (cdiv slice_bytes num_channels) alignment

-- The keyword arguments of both launchers.
pub record FusedCall : Type 0 where
  pub input_ptr : ℕ
  pub output_ptr : ℕ
  pub comm_buf_offset : ℕ
  pub self_global_rank : ℕ
  pub self_local_index : ℕ
  pub slice_bytes : ℕ
  pub group_size : ℕ
  pub world_size : ℕ
  pub max_chunks_per_channel : ℕ
  pub num_channels : ℕ
  pub chunk_bytes : ℕ
  pub step_base : ℕ
  pub alignment : ℕ

-- The checks and the geometry that both launchers compute, in their order.
unfoldable pub fused_args : FusedCall → Outcome FusedArgs
fused_args c = do
  check (ltb 0 c.slice_bytes) assertion_error
  check (ltb 0 c.group_size) assertion_error
  check (ltb 0 c.num_channels) assertion_error
  check (ltb 0 c.chunk_bytes) assertion_error
  let partition_bytes = partition_of c.slice_bytes c.num_channels c.alignment
  let n_chunks = cdiv partition_bytes c.chunk_bytes
  check (leb n_chunks c.max_chunks_per_channel) value_error
  ok (record {
    input = c.input_ptr;
    output = c.output_ptr;
    comm_buf_offset = c.comm_buf_offset;
    self_global_rank = c.self_global_rank;
    self_local_index = c.self_local_index;
    slice_bytes = c.slice_bytes;
    partition_bytes = partition_bytes;
    chunk_bytes = c.chunk_bytes;
    step_base = c.step_base;
    world_size = c.world_size;
    max_chunks = c.max_chunks_per_channel;
    group_size = c.group_size;
    group_lanes = next_pow2 c.group_size;
    num_channels = c.num_channels;
    block_elts = default_block_elts;
    vec_bytes = pick_vec_bytes c.input_ptr c.output_ptr c.slice_bytes;
  })

module _ (ranks cb_ptrs : ℕ → ℕ) where
  unfoldable pub launch_all_gather_fused : FusedCall → Outcome (List (List FusedOp))
  launch_all_gather_fused c = do
    a ← fused_args c
    ok (map (all_gather_fused_kernel a ranks cb_ptrs) (range (2 * c.num_channels)))

  unfoldable pub launch_all2all_fused : FusedCall → Outcome (List (List FusedOp))
  launch_all2all_fused c = do
    a ← fused_args c
    ok (map (all2all_fused_kernel a ranks cb_ptrs) (range (2 * c.num_channels)))
