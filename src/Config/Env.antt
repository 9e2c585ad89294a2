-- ===== src/Config/Env.antt =====
-- gfc/env.py: the overrides that the environment holds, and gfc/runtime.py: how a runtime applies
-- them. Each override makes a new configuration by `_replace`, whose checks run at once.
use Prim.Native.String.{String}
use group_free_collectives.Base.{ℕ, Bool, true, false, Option, none, some, Outcome, ok, ◌>>=◌, ◌>>◌}
use group_free_collectives.Config.{SymmetricCollectiveConfig, post_init}

-- `_EnvOverrides`.
pub record EnvOverrides : Type 0 where
  pub debug : Bool
  pub use_tma : Bool
  pub use_copy_engine : Bool
  pub copy_sms : Option ℕ
  pub timeout_ms : Option ℕ
  pub dump_signals : Bool
  pub pipeline_chunks : Option ℕ
  pub max_pipeline_chunks : Option ℕ
  pub enable_fused_path : Option Bool
  pub fused_num_channels : Option ℕ
  pub fused_chunk_size : Option ℕ
  pub autotune_config_path : Option String

abbrev pub no_overrides : EnvOverrides
no_overrides = record {
  debug = false;
  use_tma = false;
  use_copy_engine = false;
  copy_sms = none;
  timeout_ms = none;
  dump_signals = false;
  pipeline_chunks = none;
  max_pipeline_chunks = none;
  enable_fused_path = none;
  fused_num_channels = none;
  fused_chunk_size = none;
  autotune_config_path = none;
}

-- `_replace`: the new configuration, once its `__post_init__` accepts it.
unfoldable pub replace : SymmetricCollectiveConfig → Outcome SymmetricCollectiveConfig
replace c = do post_init c; ok c

-- `if flag: config = _replace(config, field=True)`.
abbrev pub set_flag :
    Bool
    → (SymmetricCollectiveConfig → SymmetricCollectiveConfig)
    → SymmetricCollectiveConfig
    → Outcome SymmetricCollectiveConfig
set_flag true f c = replace (f c)
set_flag false f c = ok c

-- `if value is not None: config = _replace(config, field=value)`.
abbrev pub set_some {ℓ} :
    {A : Type ℓ}
    → Option A
    → (A → SymmetricCollectiveConfig → SymmetricCollectiveConfig)
    → SymmetricCollectiveConfig
    → Outcome SymmetricCollectiveConfig
set_some none f c = ok c
set_some (some a) f c = replace (f a c)

-- The start of `SymmetricCollectiveRuntime.__init__`, in its order.
unfoldable pub apply_overrides :
    EnvOverrides → SymmetricCollectiveConfig → Outcome SymmetricCollectiveConfig
apply_overrides e c0 = do
  c1 ← set_flag e.debug (λ c. record c { enable_debug_checks = true }) c0
  c2 ← set_flag e.use_tma (λ c. record c { use_tma = true }) c1
  c3 ← set_flag e.use_copy_engine (λ c. record c { use_copy_engine = true }) c2
  c4 ← set_some e.copy_sms (λ n c. record c { copy_sms = n }) c3
  c5 ← set_some e.timeout_ms (λ n c. record c { timeout_ms = n }) c4
  c6 ← set_some e.max_pipeline_chunks (λ n c. record c { max_pipeline_chunks = n }) c5
  c7 ← set_some e.pipeline_chunks (λ n c. record c { pipeline_chunks = n }) c6
  c8 ← set_some e.enable_fused_path (λ b c. record c { enable_fused_path = b }) c7
  c9 ← set_some e.fused_num_channels (λ n c. record c { fused_num_channels = n }) c8
  c10 ← set_some e.fused_chunk_size (λ n c. record c { fused_chunk_size = n }) c9
  set_some e.autotune_config_path (λ p c. record c { autotune_config_path = some p }) c10
