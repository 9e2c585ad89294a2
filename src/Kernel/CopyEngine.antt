-- ===== src/Kernel/CopyEngine.antt =====
-- The copy-engine path: gfc/kernels/copy_engine.py. `memcpy` is the error code of the driver's
-- `cudaMemcpyAsync`, 0 where the copy is enqueued; it is code outside the repository. What was
-- enqueued before a call raises stays enqueued, so it comes back beside the outcome.
pub mod Laws
use group_free_collectives.Base.{
  ℕ, ◌+◌, ◌*◌, List, [], ◌∷◌, ◌++◌, map, ◌==◌, if◌then◌else◌, range, length, get_or, Outcome, ok,
  err, runtime_error,
}
use group_free_collectives.Kernel.Memory.{Copy}
use group_free_collectives.Kernel.Pull.{ring_index}

abbrev pub Enqueued : Type 0
Enqueued = List Copy × Outcome (Unit {0})

-- `_swizzled_indices`.
unfoldable pub swizzled_indices : ℕ → ℕ → List ℕ
swizzled_indices group_size self_local_index =
    map (λ delta. ring_index self_local_index group_size delta) (range group_size)

-- The second of two statements runs where the first did not raise.
unfoldable pub enqueue_then : Enqueued → Enqueued → Enqueued
enqueue_then (cs, ok u) (ds, r) = (cs ++ ds, r)
enqueue_then (cs, err e) next = (cs, err e)

-- The calls of a loop, up to the first that raises.
unfoldable pub enqueue_each : (ℕ → Enqueued) → List ℕ → Enqueued
enqueue_each f [] = ([], ok tt)
enqueue_each f (i ∷ rest) = enqueue_then (f i) (enqueue_each f rest)

module _ (memcpy : Copy → ℕ) where
  unfoldable pub cuda_memcpy_async : ℕ → ℕ → ℕ → Enqueued
  cuda_memcpy_async dst_ptr src_ptr nbytes =
      let c : Copy = record { src = src_ptr; dst = dst_ptr; len = nbytes } in
      if nbytes == 0
      then ([], ok tt)
      else if memcpy c == 0
      then (c ∷ [], ok tt)
      else ([], err runtime_error)

  unfoldable pub launch_all_gather_copy_engine : (ℕ → ℕ) → ℕ → List ℕ → ℕ → ℕ → ℕ → Enqueued
  launch_all_gather_copy_engine peer_comm_ptrs dst_ptr group_ranks comm_buf_offset self_local_index
        slice_bytes =
      enqueue_each
        (λ peer_idx.
          let peer = get_or group_ranks peer_idx 0 in
          cuda_memcpy_async (dst_ptr + peer_idx * slice_bytes)
            (peer_comm_ptrs peer + comm_buf_offset) slice_bytes)
        (swizzled_indices (length group_ranks) self_local_index)

  unfoldable pub launch_all2all_copy_engine : (ℕ → ℕ) → ℕ → List ℕ → ℕ → ℕ → ℕ → Enqueued
  launch_all2all_copy_engine peer_comm_ptrs dst_ptr group_ranks comm_buf_offset self_local_index
        slice_bytes =
      enqueue_each
        (λ peer_idx.
          let peer = get_or group_ranks peer_idx 0 in
          cuda_memcpy_async (dst_ptr + peer_idx * slice_bytes)
            (peer_comm_ptrs peer + comm_buf_offset + self_local_index * slice_bytes) slice_bytes)
        (swizzled_indices (length group_ranks) self_local_index)

  unfoldable pub launch_p2p_copy_engine : ℕ → ℕ → ℕ → Enqueued
  launch_p2p_copy_engine src_ptr dst_ptr nbytes = cuda_memcpy_async dst_ptr src_ptr nbytes
