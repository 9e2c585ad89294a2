-- ===== src/Probe.antt =====
-- The TMA probe: gfc/tma_probe.py. Every rank fills its buffer with a pattern of its own, reads the
-- next rank's buffer through a descriptor, and the world keeps the least of the answers. What a
-- device makes of the kernel's accesses is a parameter, since that is what the probe asks; a launch
-- that raises gives no memory. The ranks read after the barrier, each into a buffer of its own, so
-- each reads the memory that the staging left.
pub mod Laws
pub mod Wiring
use group_free_collectives.Base.{
  ℕ, zero, suc, ◌+◌, ◌-◌, ◌*◌, ◌%◌, min, Bool, true, ◌&&◌, Option, none, some, List, [], ◌∷◌, ltb,
  leb, ◌==◌, if◌then◌else◌,
}
use group_free_collectives.Kernel.Memory.{Memory, Copy}
use group_free_collectives.Kernel.Tma.{tile_copy}

abbrev pub probe_bytes : ℕ
probe_bytes = 4096

abbrev pub block_bytes : ℕ
block_bytes = 4096

-- One rank: its buffer, the addresses under which it maps its peers' buffers, the buffer that it
-- reads to, and what its device makes of the accesses of a kernel.
pub record ProbeRank : Type 0 where
  pub comm_buf : ℕ
  pub buffer_ptrs : ℕ → ℕ
  pub local_probe : ℕ
  pub runs : List Copy → Memory → Option Memory

-- `_tma_probe_kernel`: one tile, clipped to its shape by the descriptor and by the mask.
unfoldable pub tma_probe_kernel : ℕ → ℕ → ℕ → ℕ → List Copy
tma_probe_kernel peer_ptr local_dst n block = tile_copy peer_ptr local_dst n block 0 ∷ []

-- `_pattern`, byte by byte.
unfoldable pub pattern : ℕ → ℕ → ℕ
pattern rank i = ((rank + 1) * 131 + i * 17) % 256

-- `cb.tensor[:n].copy_(pattern)`.
unfoldable pub stage_pattern : ℕ → ℕ → ℕ → Memory → Memory
unfolding pattern
stage_pattern n rank base m a =
    if leb base a && ltb a (base + n) then pattern rank (a - base) else m a

-- `torch.equal` over the first `n` bytes.
unfoldable pub equal_bytes : ℕ → (ℕ → ℕ) → (ℕ → ℕ) → Bool
equal_bytes zero f h = true
equal_bytes (suc n) f h = f n == h n && equal_bytes n f h

-- `local_ok`: 0 where the launch raised, or where the buffer holds other bytes than the peer's
-- pattern.
unfoldable pub compared : ℕ → ℕ → Option Memory → ℕ
unfolding equal_bytes
compared local_probe peer none = 0
compared local_probe peer (some m) =
    if equal_bytes probe_bytes (λ i. m (local_probe + i)) (pattern peer) then 1 else 0

-- The least of the first `n` answers, which are 0 or 1.
unfoldable pub reduce_min : ℕ → (ℕ → ℕ) → ℕ
reduce_min zero f = 1
reduce_min (suc n) f = min (f n) (reduce_min n f)

module _ (world : ℕ) (ranks : ℕ → ProbeRank) where
  abbrev pub peer_of : ℕ → ℕ
  peer_of rank = (rank + 1) % world

  -- The first `count` ranks have all_staged their patterns.
  unfoldable pub all_staged : ℕ → Memory → Memory
  unfolding stage_pattern
  all_staged zero m = m
  all_staged (suc rank) m = stage_pattern probe_bytes rank (ranks rank).comm_buf (all_staged rank m)

  -- One rank's launch and its comparison.
  unfoldable pub local_ok : Memory → ℕ → ℕ
  unfolding tma_probe_kernel compared
  local_ok m rank =
      let peer_ptr = (ranks rank).buffer_ptrs (peer_of rank) in
      compared (ranks rank).local_probe (peer_of rank) (
        (ranks rank).runs
          (tma_probe_kernel peer_ptr (ranks rank).local_probe probe_bytes block_bytes) m)

  -- The answer that every rank gets.
  unfoldable pub probe_tma_supported : Memory → Bool
  unfolding all_staged local_ok reduce_min
  probe_tma_supported m = reduce_min world (local_ok (all_staged world m)) == 1
