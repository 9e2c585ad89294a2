-- ===== src/Kernel/Fused/Partition.antt =====
-- How the partitions and the chunks of a fused launch cover a slice, and their number.
use native.Mathlib.Nat.{mul-le-mul_left}
use native.Mathlib.Nat.{lt_of_mul-lt-mul_right, mod-lt}
use group_free_collectives.Base.{
  ℕ, ◌+◌, ◌-◌, ◌*◌, ◌/◌, ◌%◌, ◌≤◌, ◌<◌, ◌≡◌, min, arith, cdiv, le-cdiv, cdiv-le, align_up-le,
  div-mul-add-mod,
}
use group_free_collectives.Config.{SymmetricCollectiveConfig, fused_max_chunks_per_channel}
use group_free_collectives.Config.Laws.{IsValid}
use group_free_collectives.Kernel.Fused.{FusedArgs, n_chunks, this_chunk, base_byte}
use group_free_collectives.Kernel.Fused.Launch.{partition_of}

le-mul : (n c : ℕ) → 0 < c → n ≤ n * c
le-mul n c pos = omega (arith, mul-le-mul_left n pos)

-- Under a valid configuration, a slice that fits the staging buffer never needs more chunks per
-- channel than the step grid has.
pub partition-chunks_bound :
    (c : SymmetricCollectiveConfig) (slice channels : ℕ)
    → IsValid c
    → 0 < channels
    → slice ≤ c.max_collective_bytes
    → cdiv (partition_of slice channels c.alignment) c.fused_chunk_size
      ≤ fused_max_chunks_per_channel c
unfolding fused_max_chunks_per_channel
partition-chunks_bound c slice channels v pos fits = omega (
  arith,
  cdiv-le (partition_of slice channels c.alignment) c.fused_chunk_size
      (cdiv c.max_collective_bytes c.fused_chunk_size) v.chunk_pos
      (omega
        (arith, partition_fits, le-cdiv c.max_collective_bytes c.fused_chunk_size v.chunk_pos)),
)
  where
    share : cdiv slice channels ≤ slice
    share = cdiv-le slice channels slice pos (le-mul slice channels pos)

    partition_fits : partition_of slice channels c.alignment ≤ c.max_collective_bytes
    partition_fits =
        align_up-le (cdiv slice channels) c.alignment v.alignment_power c.max_collective_bytes
          (omega (arith, share)) v.bytes_aligned

module _ (a : FusedArgs) (part_pos : 0 < a.partition_bytes) (chunk_pos : 0 < a.chunk_bytes)
    (enough : a.slice_bytes ≤ a.num_channels * a.partition_bytes) (b : ℕ)
    (below : b < a.slice_bytes) where
  abbrev channel : ℕ
  channel = b / a.partition_bytes

  abbrev inner : ℕ
  inner = b % a.partition_bytes

  abbrev chunk : ℕ
  chunk = inner / a.chunk_bytes

  whole : channel * a.partition_bytes + inner ≡ b
  whole = div-mul-add-mod b a.partition_bytes

  inner_parts : chunk * a.chunk_bytes + inner % a.chunk_bytes ≡ inner
  inner_parts = div-mul-add-mod inner a.chunk_bytes

  -- Where the partitions together are as long as the slice, every byte of the slice lies in a chunk
  -- that the two programs of some launched channel visit.
  pub chunk-covers :
      (ch : ℕ) × (k : ℕ) × (j : ℕ) × (ch < a.num_channels)
      × (k < n_chunks a ch)
      × (j < this_chunk a ch k)
      × (base_byte a ch k + j ≡ b)
  chunk-covers = (
    channel,
    chunk,
    inner % a.chunk_bytes,
    lt_of_mul-lt-mul_right a.partition_bytes (omega (arith, whole)),
    lt_of_mul-lt-mul_right a.chunk_bytes (
        omega (
          arith,
          inner_parts,
          whole,
          mod-lt b part_pos,
          le-cdiv (min a.partition_bytes (a.slice_bytes - channel * a.partition_bytes))
              a.chunk_bytes chunk_pos,
        )),
    omega (arith, whole, inner_parts, mod-lt b part_pos, mod-lt inner chunk_pos),
    omega (arith, whole, inner_parts),
  )
