-- ===== src/Config/Laws.antt =====
-- What `post_init` accepts.
use group_free_collectives.Base.{
  ◌%◌, ◌≤◌, ◌<◌, ◌≡◌, refl, ◌↔◌, arith, ok, IsPowerOfTwo, power_test_iff, bit_and, ◌-◌,
}
use group_free_collectives.Config.{SymmetricCollectiveConfig, default_config, post_init}

pub record IsValid (c : SymmetricCollectiveConfig) : Type 0 where
  pub group_range : (0 < c.max_group_size) × (c.max_group_size ≤ 16)
  pub bytes_pos : 0 < c.max_collective_bytes
  pub bytes_aligned : c.max_collective_bytes % c.alignment ≡ 0
  pub alignment_ge : 16 ≤ c.alignment
  pub alignment_power : IsPowerOfTwo c.alignment
  pub copy_sms_pos : 0 < c.copy_sms
  pub chunks_range : (1 ≤ c.pipeline_chunks) × (c.pipeline_chunks ≤ c.max_pipeline_chunks)
  pub min_chunk_pos : 0 < c.pipeline_min_chunk_bytes
  pub chunk_pos : 0 < c.fused_chunk_size
  pub chunk_aligned : c.fused_chunk_size % c.alignment ≡ 0
  pub channels_pos : 0 < c.fused_num_channels

IsValid-of_ok : (c : SymmetricCollectiveConfig) → post_init c ≡ ok tt → IsValid c
unfolding post_init
IsValid-of_ok c h = record {
  group_range = ground arith;
  bytes_pos = ground arith;
  bytes_aligned = ground arith;
  alignment_ge = ground arith;
  alignment_power = (power_test_iff c.alignment (ground arith)).0 (ground arith);
  copy_sms_pos = ground arith;
  chunks_range = ground arith;
  min_chunk_pos = ground arith;
  chunk_pos = ground arith;
  chunk_aligned = ground arith;
  channels_pos = ground arith;
}

pub power_test_of :
    (c : SymmetricCollectiveConfig) → IsValid c → bit_and c.alignment (c.alignment - 1) ≡ 0
power_test_of c v = (power_test_iff c.alignment (omega arith)).1 v.alignment_power

ok_of_IsValid : (c : SymmetricCollectiveConfig) → IsValid c → post_init c ≡ ok tt
unfolding post_init
ok_of_IsValid c v = ground (arith, power_test_of c v)

-- `__post_init__` accepts exactly the valid configurations.
pub post_init-ok_iff : (c : SymmetricCollectiveConfig) → (post_init c ≡ ok tt) ↔ IsValid c
post_init-ok_iff c = (IsValid-of_ok c, ok_of_IsValid c)

pub default_config-IsValid : IsValid default_config
default_config-IsValid = (post_init-ok_iff default_config).0 (unfold post_init in refl)
