-- ===== src/Kernel/Tma.antt =====
-- The TMA path: gfc/kernels/tma_paths.py. A tensor descriptor clips a load and a store to its
-- shape, so a tile moves the bytes of its block that lie inside the segment.
pub mod Laws
use group_free_collectives.Base.{
  ℕ, ◌+◌, ◌-◌, ◌*◌, ◌/◌, ◌%◌, min, ◌&&◌, List, map, ltb, ◌==◌, cdiv, range, Outcome, ok,
  tma_requirement, check, ◌>>◌,
}
use group_free_collectives.Base.Membership.{concat_map}
use group_free_collectives.Kernel.Memory.{Copy}
use group_free_collectives.Kernel.Grid.{persistent}
use group_free_collectives.Kernel.Pull.{ring_index}

abbrev pub default_tile_bytes : ℕ
default_tile_bytes = 64 * 1024

-- `check_collective_tma_gates`.
unfoldable pub check_collective_tma_gates : ℕ → ℕ → ℕ → ℕ → Outcome (Unit {0})
check_collective_tma_gates slice_bytes comm_buf_offset dst_ptr tile_bytes = do
  check (ltb 0 slice_bytes) tma_requirement
  check (slice_bytes % 16 == 0) tma_requirement
  check (comm_buf_offset % 16 == 0 && dst_ptr % 16 == 0) tma_requirement
  check (tile_bytes % 16 == 0) tma_requirement

-- A tile of `block` bytes at `off`, clipped to a segment of `n` bytes.
abbrev pub tile_copy : ℕ → ℕ → ℕ → ℕ → ℕ → Copy
tile_copy src dst n block off = record {
  src = src + off;
  dst = dst + off;
  len = min block (n - off);
}

module _ (src_of dst_of : ℕ → ℕ) (self_local_index slice_bytes group_size block_n num_sms : ℕ) where
  -- One round of the loop that the two collective kernels share.
  unfoldable pub tma_task : ℕ → Copy
  tma_task pid =
      let tile_col = pid / group_size in
      let peer_idx = ring_index self_local_index group_size (pid - tile_col * group_size) in
      tile_copy (src_of peer_idx) (dst_of peer_idx) slice_bytes block_n (tile_col * block_n)

  unfoldable pub tma_ring : ℕ → List Copy
  tma_ring grid =
      let total = group_size * cdiv slice_bytes block_n in
      concat_map (λ pid. map tma_task (persistent total pid total num_sms)) (range grid)

module _ (ranks cb_ptrs : ℕ → ℕ) where
  -- `_all_gather_tma_persistent_kernel`, over the programs of its grid.
  unfoldable pub all_gather_tma_kernel : ℕ → ℕ → ℕ → ℕ → ℕ → ℕ → ℕ → ℕ → List Copy
  all_gather_tma_kernel dst offset self_local_index slice_bytes group_size block_n num_sms grid =
      tma_ring (λ peer_idx. cb_ptrs (ranks peer_idx) + offset)
        (λ peer_idx. dst + peer_idx * slice_bytes) self_local_index slice_bytes group_size block_n
        num_sms grid

  -- `_all2all_tma_persistent_kernel`.
  unfoldable pub all2all_tma_kernel : ℕ → ℕ → ℕ → ℕ → ℕ → ℕ → ℕ → ℕ → List Copy
  all2all_tma_kernel dst offset self_local_index slice_bytes group_size block_n num_sms grid =
      tma_ring (λ peer_idx. cb_ptrs (ranks peer_idx) + offset + self_local_index * slice_bytes)
        (λ peer_idx. dst + peer_idx * slice_bytes) self_local_index slice_bytes group_size block_n
        num_sms grid

  -- `launch_all_gather_tma`.
  unfoldable pub launch_all_gather_tma : ℕ → ℕ → ℕ → ℕ → ℕ → ℕ → ℕ → Outcome (List Copy)
  unfolding check_collective_tma_gates
  launch_all_gather_tma dst offset self_local_index slice_bytes group_size num_sms tile_bytes = do
    check_collective_tma_gates slice_bytes offset dst tile_bytes
    let inner_tiles = (slice_bytes + tile_bytes - 1) / tile_bytes
    let total = group_size * inner_tiles
    ok (
        all_gather_tma_kernel dst offset self_local_index slice_bytes group_size tile_bytes num_sms
          (min num_sms total))

  -- `launch_all2all_tma`.
  unfoldable pub launch_all2all_tma : ℕ → ℕ → ℕ → ℕ → ℕ → ℕ → ℕ → Outcome (List Copy)
  unfolding check_collective_tma_gates
  launch_all2all_tma dst offset self_local_index slice_bytes group_size num_sms tile_bytes = do
    check_collective_tma_gates slice_bytes offset dst tile_bytes
    let inner_tiles = (slice_bytes + tile_bytes - 1) / tile_bytes
    let total = group_size * inner_tiles
    ok (
        all2all_tma_kernel dst offset self_local_index slice_bytes group_size tile_bytes num_sms
          (min num_sms total))

-- `_p2p_tma_persistent_kernel`, over the programs of its grid.
unfoldable pub p2p_tma_kernel : ℕ → ℕ → ℕ → ℕ → ℕ → ℕ → List Copy
p2p_tma_kernel src dst nbytes block_n num_sms grid =
    let total = cdiv nbytes block_n in
    concat_map
      (λ pid.
        map (λ tile. tile_copy src dst nbytes block_n (tile * block_n))
          (persistent total pid total num_sms))
      (range grid)

-- `launch_p2p_copy_tma`.
unfoldable pub launch_p2p_copy_tma : ℕ → ℕ → ℕ → ℕ → ℕ → Outcome (List Copy)
launch_p2p_copy_tma src_ptr dst_ptr nbytes num_sms tile_bytes = do
  check (ltb 0 nbytes) tma_requirement
  check (nbytes % 16 == 0) tma_requirement
  check (src_ptr % 16 == 0 && dst_ptr % 16 == 0) tma_requirement
  check (tile_bytes % 16 == 0) tma_requirement
  let total = (nbytes + tile_bytes - 1) / tile_bytes
  ok (p2p_tma_kernel src_ptr dst_ptr nbytes tile_bytes num_sms (min num_sms total))
