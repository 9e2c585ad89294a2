-- ===== src/Runtime/Init.antt =====
-- The constructor of gfc/runtime.py, up to the streams, the logging and the allocation, which are
-- torch's. The path of a table is not empty (an empty one counts as none). What the process group,
-- the device and the table's file answer is the record `World`.
pub mod Laws
use Prim.Native.String.{String}
use group_free_collectives.Base.{
  ℕ, ◌+◌, ◌*◌, ◌/◌, min, max, Bool, true, false, not, ◌&&◌, Option, none, some, List, [], ◌∷◌, ltb,
  leb, ◌==◌, if◌then◌else◌, Outcome, ok, err, value_error, tma_unsupported, check, require, ◌>>=◌,
  ◌>>◌,
}
use group_free_collectives.Config.{SymmetricCollectiveConfig}
use group_free_collectives.Config.Env.{EnvOverrides, apply_overrides}
use group_free_collectives.Autotune.{Rule, from_json, max_fused_num_channels}
use group_free_collectives.Kernel.Memory.{Copy}
use group_free_collectives.Runtime.State.{Setup}

-- `load_table` is what `json.load` gives of a path; `broadcast` what rank 0's nonce becomes on
-- this rank, `gather_nonces` the world's nonces, `probe` the TMA probe's answer.
pub record World : Type 0 where
  pub device : ℕ
  pub device_is_cuda : Bool
  pub is_initialized : Bool
  pub rank : ℕ
  pub world_size : ℕ
  pub num_sms : ℕ
  pub load_table : String → ℕ × List Rule
  pub random_bits : ℕ
  pub broadcast : ℕ → ℕ
  pub gather_nonces : ℕ → List ℕ
  pub probe : Bool
  pub peer_comm_ptrs : ℕ → ℕ
  pub comm_local_ptr : ℕ
  pub memcpy : Copy → ℕ
  pub world_gather : ℕ → List ℕ → List (ℕ × List ℕ)

abbrev pub all_equal : ℕ → List ℕ → Bool
all_equal n [] = true
all_equal n (g ∷ gs) = g == n && all_equal n gs

-- `randbits(64) | 1`.
abbrev pub odd_bits : ℕ → ℕ
odd_bits n = n / 2 * 2 + 1

-- `_broadcast_session_nonce`.
unfoldable pub broadcast_session_nonce : World → SymmetricCollectiveConfig → Outcome ℕ
broadcast_session_nonce w config = do
  let n = w.broadcast (if w.rank == 0 then odd_bits w.random_bits else 0)
  if config.enable_debug_checks then require (all_equal n (w.gather_nonces n)) else ok tt
  ok n

-- The table of a configuration, refused where it asks for more channels than are provisioned.
unfoldable pub load_autotune : World → SymmetricCollectiveConfig → Outcome (Option (List Rule))
load_autotune w config = elim config.autotune_config_path [
  | none ↦ ok none
  | some path ↦
      let (version, parsed) = w.load_table path in
      from_json version parsed >>= λ rules.
      check (leb (max_fused_num_channels rules) config.fused_num_channels) value_error >>= λ u.
      ok (some rules)
]

-- `_check_fused_launch_capacity`, before there is a runtime.
unfoldable pub launch_capacity : ℕ → ℕ → Outcome (Unit {0})
launch_capacity num_sms num_channels = do
  require (ltb 0 num_channels)
  require (leb (2 * num_channels) num_sms)

-- The last checks of the constructor.
unfoldable pub check_paths : World → SymmetricCollectiveConfig → Outcome Bool
check_paths w config = do
  check (not (config.use_tma && config.use_copy_engine)) value_error
  if config.use_tma then (if w.probe then ok true else err tma_unsupported) else ok false

unfoldable pub construct : World → EnvOverrides → SymmetricCollectiveConfig → Outcome Setup
unfolding load_autotune launch_capacity broadcast_session_nonce check_paths
construct w env given = do
  config ← apply_overrides env given
  check w.device_is_cuda value_error
  require w.is_initialized
  autotune ← load_autotune w config
  if config.enable_fused_path then launch_capacity w.num_sms config.fused_num_channels else ok tt
  nonce ← broadcast_session_nonce w config
  require (not (nonce == 0))
  tma_enabled ← check_paths w config
  ok (record {
    config = config;
    device = w.device;
    rank = w.rank;
    world_size = w.world_size;
    autotune = autotune;
    num_sms = w.num_sms;
    copy_sms = min w.num_sms config.copy_sms;
    copy_engine_enabled = config.use_copy_engine;
    tma_enabled = tma_enabled;
    session_nonce = nonce;
    peer_comm_ptrs = w.peer_comm_ptrs;
    comm_local_ptr = w.comm_local_ptr;
    memcpy = w.memcpy;
    world_gather = w.world_gather;
  })
