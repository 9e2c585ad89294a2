-- ===== src/Config.antt =====
-- gfc/config.py: the configuration, its checks and what is derived from it.
-- The integers are those a configuration can hold after its checks, which refuse a negative value
-- of every field; so a field is a natural number.
pub mod Laws
pub mod Env
pub mod EnvLaws
use Prim.Native.String.{String}
use group_free_collectives.Base.{
  ℕ, ◌+◌, ◌-◌, ◌*◌, ◌/◌, ◌%◌, Bool, true, false, ◌&&◌, Option, none, bit_and, ltb, leb, ◌==◌,
  if◌then◌else◌, Outcome, ok, err, zero_division, require, ◌>>=◌, ◌>>◌,
}

pub record SymmetricCollectiveConfig : Type 0 where
  pub max_group_size : ℕ
  pub max_collective_bytes : ℕ
  pub alignment : ℕ
  pub use_tma : Bool
  pub use_copy_engine : Bool
  pub copy_sms : ℕ
  pub enable_debug_checks : Bool
  pub timeout_ms : ℕ
  pub pipeline_chunks : ℕ
  pub max_pipeline_chunks : ℕ
  pub pipeline_min_chunk_bytes : ℕ
  pub enable_fused_path : Bool
  pub fused_chunk_size : ℕ
  pub fused_num_channels : ℕ
  pub autotune_config_path : Option String

abbrev pub default_config : SymmetricCollectiveConfig
default_config = record {
  max_group_size = 8;
  max_collective_bytes = 128 * 1024 * 1024;
  alignment = 128;
  use_tma = false;
  use_copy_engine = false;
  copy_sms = 24;
  enable_debug_checks = false;
  timeout_ms = 30_000;
  pipeline_chunks = 1;
  max_pipeline_chunks = 4;
  pipeline_min_chunk_bytes = 256 * 1024;
  enable_fused_path = false;
  fused_chunk_size = 256 * 1024;
  fused_num_channels = 24;
  autotune_config_path = none;
}

-- `a % b` of Python, which raises on 0.
abbrev pub py_mod : ℕ → ℕ → Outcome ℕ
py_mod a b = if b == 0 then err zero_division else ok (a % b)

unfoldable pub post_init : SymmetricCollectiveConfig → Outcome (Unit {0})
post_init c = do
  require (ltb 0 c.max_group_size && leb c.max_group_size 16)
  require (ltb 0 c.max_collective_bytes)
  rest ← py_mod c.max_collective_bytes c.alignment
  require (rest == 0)
  require (leb 16 c.alignment && bit_and c.alignment (c.alignment - 1) == 0)
  require (ltb 0 c.copy_sms)
  require (leb 0 c.timeout_ms)
  require (leb 1 c.pipeline_chunks)
  require (leb 1 c.max_pipeline_chunks)
  require (leb c.pipeline_chunks c.max_pipeline_chunks)
  require (ltb 0 c.pipeline_min_chunk_bytes)
  require (ltb 0 c.fused_chunk_size)
  chunk_rest ← py_mod c.fused_chunk_size c.alignment
  require (chunk_rest == 0)
  require (ltb 0 c.fused_num_channels)

unfoldable pub fused_max_chunks_per_channel : SymmetricCollectiveConfig → ℕ
fused_max_chunks_per_channel c =
    (c.max_collective_bytes + c.fused_chunk_size - 1) / c.fused_chunk_size + 1

abbrev pub num_signal_slots : SymmetricCollectiveConfig → ℕ
num_signal_slots c = 2
