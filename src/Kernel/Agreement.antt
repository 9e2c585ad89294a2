-- ===== src/Kernel/Agreement.antt =====
-- The data paths of one collective are interchangeable: the vector kernel
-- (gfc/kernels/all_gather.py, all2all.py), the TMA kernel (tma_paths.py) and the copy engine
-- (copy_engine.py).
use native.Mathlib.Nat.{le_refl}
use group_free_collectives.Base.{
  ℕ, ◌*◌, ◌%◌, ◌<◌, ◌≡◌, inl, List, none, ok, ◌==◌, ltb, check, tma_requirement, >>=-ok, arith,
  length, row_of,
}
use group_free_collectives.Kernel.Memory.{Memory, Copy, run}
use group_free_collectives.Kernel.Strided.{Apart, Moves-agree}
use group_free_collectives.Kernel.Pull.{dtype_for_vec, launch_all_gather_pull, launch_all2all_pull}
use group_free_collectives.Kernel.Pull.Laws.{
  gather_src, exchange_src, launch_all_gather_pull-Moves, launch_all2all_pull-Moves,
}
use group_free_collectives.Kernel.CopyEngine.{
  launch_all_gather_copy_engine, launch_all2all_copy_engine,
}
use group_free_collectives.Kernel.CopyEngine.Laws.{
  launch_all_gather_copy_engine-Moves, launch_all2all_copy_engine-Moves,
}
use group_free_collectives.Kernel.Tma.{
  check_collective_tma_gates, launch_all_gather_tma, launch_all2all_tma,
}
use group_free_collectives.Kernel.Tma.Laws.{launch_all_gather_tma-Moves, launch_all2all_tma-Moves}

-- A slice that the TMA gates accept has no tail at any vector width.
gates-exact :
    (n offset dst tile v : ℕ)
    → check_collective_tma_gates n offset dst tile ≡ ok tt
    → n % dtype_for_vec v ≡ 0
unfolding check_collective_tma_gates dtype_for_vec
gates-exact n offset dst tile v h =
    let (u, pos, h1) = >>=-ok (check (ltb 0 n) tma_requirement) _ h in
    let (u2, aligned, h2) = >>=-ok (check (n % 16 == 0) tma_requirement) _ h1 in
    let exact : n % 16 ≡ 0 = ground arith in ground arith

module _ (memcpy : Copy → ℕ) (cb_ptrs : ℕ → ℕ) (ranks : List ℕ) (dst offset self n v sms tile : ℕ)
    (tile_pos : 0 < tile) (sms_pos : 0 < sms) (some_rank : 0 < length ranks) where
  -- Where the vector kernel, the TMA kernel and the copy engine all accept one all-gather of a
  -- non-empty group, they leave the same memory, at every address; where tile and grid are not empty
  -- and the peers' slices lie outside the output.
  pub all_gather-agree :
      {pulled tiled : List Copy}
      → launch_all_gather_pull (row_of ranks) cb_ptrs dst offset self n (length ranks) v sms none
        ≡ ok pulled
      → launch_all_gather_tma (row_of ranks) cb_ptrs dst offset self n (length ranks) sms tile
        ≡ ok tiled
      → (launch_all_gather_copy_engine memcpy cb_ptrs dst ranks offset self n).1 ≡ ok tt
      → ((i : ℕ)
          → i < length ranks
          → Apart (gather_src (row_of ranks) cb_ptrs offset i) n dst (length ranks * n))
      → (m : Memory) (a : ℕ)
      → (run tiled m a ≡ run pulled m a)
        × (run (launch_all_gather_copy_engine memcpy cb_ptrs dst ranks offset self n).0 m a
            ≡ run pulled m a)
  unfolding launch_all_gather_tma
  all_gather-agree by_pull by_tma by_engine apart m a =
      let (u, gates, _) = >>=-ok (check_collective_tma_gates n offset dst tile) _ by_tma in
      let pull =
        launch_all_gather_pull-Moves (row_of ranks) cb_ptrs dst offset self n (length ranks) v sms
          none by_pull (inl (gates-exact n offset dst tile v gates)) apart in
      (
        Moves-agree _ dst n n (length ranks) (le_refl n)
            (launch_all_gather_tma-Moves (row_of ranks) cb_ptrs dst offset self n (length ranks) sms
              tile tile_pos sms_pos some_rank by_tma apart)
            pull m a,
        Moves-agree _ dst n n (length ranks) (le_refl n)
            (launch_all_gather_copy_engine-Moves memcpy cb_ptrs dst ranks offset self n by_engine
              apart)
            pull m a,
      )

  -- Where the vector kernel, the TMA kernel and the copy engine all accept one all2all of a
  -- non-empty group, they leave the same memory, at every address; where tile and grid are not
  -- empty and the peers' slices lie outside the output.
  pub all2all-agree :
      {pulled tiled : List Copy}
      → launch_all2all_pull
          (row_of ranks)
          cb_ptrs
          dst
          offset
          self
          n
          (length ranks)
          v
          sms
          none
          none
          none
        ≡ ok pulled
      → launch_all2all_tma (row_of ranks) cb_ptrs dst offset self n (length ranks) sms tile
        ≡ ok tiled
      → (launch_all2all_copy_engine memcpy cb_ptrs dst ranks offset self n).1 ≡ ok tt
      → ((i : ℕ)
          → i < length ranks
          → Apart (exchange_src (row_of ranks) cb_ptrs offset self n i) n dst (length ranks * n))
      → (m : Memory) (a : ℕ)
      → (run tiled m a ≡ run pulled m a)
        × (run (launch_all2all_copy_engine memcpy cb_ptrs dst ranks offset self n).0 m a
            ≡ run pulled m a)
  unfolding launch_all2all_tma
  all2all-agree by_pull by_tma by_engine apart m a =
      let (u, gates, _) = >>=-ok (check_collective_tma_gates n offset dst tile) _ by_tma in
      let pull =
        launch_all2all_pull-Moves (row_of ranks) cb_ptrs dst offset self n (length ranks) v sms none
          none none by_pull (inl (gates-exact n offset dst tile v gates)) apart in
      (
        Moves-agree _ dst n n (length ranks) (le_refl n)
            (launch_all2all_tma-Moves (row_of ranks) cb_ptrs dst offset self n (length ranks) sms
              tile tile_pos sms_pos some_rank by_tma apart)
            pull m a,
        Moves-agree _ dst n n (length ranks) (le_refl n)
            (launch_all2all_copy_engine-Moves memcpy cb_ptrs dst ranks offset self n by_engine
              apart)
            pull m a,
      )
