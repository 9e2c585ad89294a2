-- ===== src/Buffer.antt =====
-- gfc/buffer.py: the sizes of the symmetric regions. Allocating and exchanging them is torch's.
use group_free_collectives.Base.{ℕ, ◌*◌}
use group_free_collectives.Config.{
  SymmetricCollectiveConfig, fused_max_chunks_per_channel, num_signal_slots,
}

-- Bytes of comm_buf, and 8-byte cells of the two grids.
pub record SymmRegions : Type 0 where
  pub comm_buf : ℕ
  pub signal_buf : ℕ
  pub step_pad : ℕ

unfoldable pub allocate_symm_regions : SymmetricCollectiveConfig → ℕ → SymmRegions
allocate_symm_regions config world_size = record {
  comm_buf = config.max_collective_bytes;
  signal_buf = num_signal_slots config * world_size;
  step_pad = config.fused_num_channels * fused_max_chunks_per_channel config * world_size;
}
