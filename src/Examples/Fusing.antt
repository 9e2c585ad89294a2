-- ===== src/Examples/Fusing.antt =====
-- The fused launch: its partitions and the cells of the step grid.
use group_free_collectives.Base.{
  ℕ, ◌+◌, ◌*◌, ◌≤◌, ◌≡◌, refl, arith, inl, List, map, range, All, cdiv, align_up, ok,
}
use group_free_collectives.Config.{default_config, fused_max_chunks_per_channel}
use group_free_collectives.Config.Laws.{default_config-IsValid}
use group_free_collectives.Buffer.{allocate_symm_regions}
use group_free_collectives.Kernel.Width.{
  gcd, gcd_rounds, base_alignment, vec_width_bytes, next_pow2,
}
use group_free_collectives.Kernel.Fused.{FusedOp, FusedArgs, all_gather_fused_kernel}
use group_free_collectives.Kernel.Fused.Launch.{
  FusedCall, fused_args, pick_vec_bytes, partition_of, launch_all_gather_fused,
}
use group_free_collectives.Kernel.Fused.Partition.{partition-chunks_bound}
use group_free_collectives.Kernel.Fused.CellBounds.{InGrid, launch_fused-InGrid}

partition-chunks_bound_example :
    cdiv (partition_of 1000 24 default_config.alignment) default_config.fused_chunk_size
    ≤ fused_max_chunks_per_channel default_config
partition-chunks_bound_example =
    partition-chunks_bound default_config 1000 24 default_config-IsValid (omega arith) (omega arith)

abbrev sample_call : FusedCall
sample_call = record {
  input_ptr = 4096;
  output_ptr = 8192;
  comm_buf_offset = 0;
  self_global_rank = 1;
  self_local_index = 0;
  slice_bytes = 1000;
  group_size = 3;
  world_size = 4;
  max_chunks_per_channel = 513;
  num_channels = 4;
  chunk_bytes = 128;
  step_base = 99;
  alignment = 128;
}

abbrev sample_args : FusedArgs
sample_args = record {
  input = 4096;
  output = 8192;
  comm_buf_offset = 0;
  self_global_rank = 1;
  self_local_index = 0;
  slice_bytes = 1000;
  partition_bytes = 256;
  chunk_bytes = 128;
  step_base = 99;
  world_size = 4;
  max_chunks = 513;
  group_size = 3;
  group_lanes = 4;
  num_channels = 4;
  block_elts = 4096;
  vec_bytes = 8;
}

sample_accepted : fused_args sample_call ≡ ok sample_args
unfolding fused_args pick_vec_bytes base_alignment vec_width_bytes gcd gcd_rounds next_pow2 align_up
sample_accepted = refl

grid_bound : sample_call.max_chunks_per_channel ≡ fused_max_chunks_per_channel default_config
unfolding fused_max_chunks_per_channel
grid_bound = refl

abbrev members : ℕ → ℕ
members i = i + 1

abbrev buffers : ℕ → ℕ
buffers r = 1_000_000 * (r + 1)

abbrev sample_programs : List (List FusedOp)
sample_programs = map (all_gather_fused_kernel sample_args members buffers) (range 8)

sample_launch : launch_all_gather_fused members buffers sample_call ≡ ok sample_programs
unfolding launch_all_gather_fused
sample_launch = rw sample_accepted refl

launch_fused-InGrid_example :
    All (All (InGrid 4 (allocate_symm_regions default_config 4).step_pad)) sample_programs
launch_fused-InGrid_example =
    launch_fused-InGrid default_config 4 sample_call members buffers (7, refl) refl grid_bound
      (omega arith) (λ i lt. omega arith) (omega arith) sample_programs (inl sample_launch)
