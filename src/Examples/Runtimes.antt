-- ===== src/Examples/Runtimes.antt =====
-- The runtime: its construction, the registry and the collectives.
use group_free_collectives.Base.{
  subst, sym, ◌≢◌, ℕ, ◌+◌, ◌*◌, ◌≤◌, ◌≡◌, refl, arith, true, false, none, some, List, [], ◌∷◌,
  length, lookup, insert, align_up, ok, err, assertion_error,
}
use group_free_collectives.Config.{default_config}
use group_free_collectives.Config.Laws.{default_config-IsValid}
use group_free_collectives.Config.Env.{no_overrides, apply_overrides}
use group_free_collectives.Hash.{compute_token}
use group_free_collectives.Group.{GroupDescriptor, descriptor_check}
use group_free_collectives.Kernel.Pull.{launch_all_gather_pull}
use group_free_collectives.Group.Epochs.{peek, next_pair_for_collective}
use group_free_collectives.Runtime.Paths.{one_shot, take_pair, launch_pull}
use group_free_collectives.Runtime.State.{Setup, Tensor, State, ingest, stage, barrier_launch}
use group_free_collectives.Runtime.Registry.{deref, register_group, unregister_group}
use group_free_collectives.Runtime.Registry.Registers.{
  Outcomes, register_group-Outcomes, unregister_group_stale,
}
use group_free_collectives.Runtime.Registry.Laws.{
  IsRegistry, Released, register_group-IsRegistry, unregister_group-Released,
}
use group_free_collectives.Runtime.Layout.{effective_pipeline_chunks, chunk_layout, layout_loop}
use group_free_collectives.Runtime.Layout.Laws.{Covers, chunk_layout-Covers}
use group_free_collectives.Runtime.Init.{World, construct}
use group_free_collectives.Runtime.Init.Laws.{IsConstructed, construct-IsConstructed}
use group_free_collectives.Runtime.Collectives.{all_gather}
use group_free_collectives.Runtime.Collectives.Atomic.{Atomic}

abbrev bases : ℕ → ℕ
bases r = 4096 + r * 1_000_000

abbrev pub rt : Setup
rt = record {
  config = default_config;
  device = 0;
  rank = 1;
  world_size = 4;
  autotune = none;
  num_sms = 132;
  copy_sms = 24;
  copy_engine_enabled = false;
  tma_enabled = false;
  session_nonce = 5;
  peer_comm_ptrs = bases;
  comm_local_ptr = 4096;
  memcpy = λ c. 0;
  world_gather = λ gid ranks. [];
}

abbrev pub empty : State
empty = record {
  registered = [];
  heap = [];
  next_handle = 0;
  epochs = [];
  ops = [];
  is_shutdown = false;
}

pub empty-IsRegistry : IsRegistry empty
unfolding lookup
empty-IsRegistry = record { backed = λ gid h e. absurd (cc); handles = λ h d e. absurd (cc) }

abbrev pub pair : GroupDescriptor
pair = record {
  group_id = 9;
  ranks = 1 ∷ 2 ∷ [];
  local_index = some 0;
  size = 2;
  ranks_dev = some (1 ∷ 2 ∷ []);
}

abbrev pub with_pair : State
with_pair = record empty { registered = (9, 0) ∷ []; heap = (0, pair) ∷ []; next_handle = 1 }

pub pair_registered : register_group rt (1 ∷ 2 ∷ []) (some 9) empty ≡ (ok 0, with_pair)
unfolding register_group lookup insert
pair_registered = refl

register_group-Outcomes_example :
    Outcomes rt (1 ∷ 2 ∷ []) (some 9) empty (register_group rt (1 ∷ 2 ∷ []) (some 9) empty)
register_group-Outcomes_example =
    register_group-Outcomes rt (1 ∷ 2 ∷ []) (some 9) empty empty-IsRegistry

pub with_pair-IsRegistry : IsRegistry with_pair
with_pair-IsRegistry =
    subst (λ x. IsRegistry x.1) pair_registered
      (register_group-IsRegistry rt (1 ∷ 2 ∷ []) (some 9) empty empty-IsRegistry)

-- The id 9 was registered again behind handle 1, so handle 0 is stale.
abbrev again : State
again = record with_pair {
  registered = (9, 1) ∷ [];
  heap = (1, pair) ∷ (0, record pair { ranks_dev = none }) ∷ [];
  next_handle = 2;
}

first_is_stale :
    (d : GroupDescriptor) → deref 0 again ≡ some d → lookup d.group_id again.registered ≢ some 0
unfolding lookup
first_is_stale d at live =
    let same : record pair { ranks_dev = none } ≡ d = cc in
    let one : lookup 9 again.registered ≡ some 0 =
      subst (λ x. lookup x.group_id again.registered ≡ some 0) (sym same) live in
    absurd (cc)

unregister_group_stale_example : unregister_group 0 again ≡ (ok tt, again)
unregister_group_stale_example = unregister_group_stale 0 again first_is_stale

unregister_group-Released_example : Released 0 pair with_pair (unregister_group 0 with_pair).1
unregister_group-Released_example =
    unregister_group-Released 0 pair with_pair (unfold lookup in refl) (unfold lookup in refl)

chunk_layout-Covers_example :
    (layout : List (ℕ × ℕ)) × (chunk_layout 1000 3 128 ≡ ok layout)
    × Covers 128 1000 0 layout
    × (length layout ≤ 3)
chunk_layout-Covers_example = chunk_layout-Covers 1000 3 128 (omega arith) (omega arith) (7, refl)

layout_value : chunk_layout 1000 3 128 ≡ ok ((0, 384) ∷ (384, 384) ∷ (768, 232) ∷ [])
unfolding chunk_layout layout_loop align_up
layout_value = refl

abbrev pub tensor : ℕ → ℕ → Tensor
tensor nbytes data_ptr = record {
  is_cuda = true;
  device = 0;
  is_contiguous = true;
  nbytes = nbytes;
  data_ptr = data_ptr;
}

pub pair_accepted : descriptor_check pair ≡ ok tt
unfolding descriptor_check
pair_accepted = refl

abbrev world : World
world = record {
  device = 0;
  device_is_cuda = true;
  is_initialized = true;
  rank = 1;
  world_size = 4;
  num_sms = 132;
  load_table = λ path. (1, []);
  random_bits = 0;
  broadcast = λ n. 5;
  gather_nonces = λ n. [];
  probe = false;
  peer_comm_ptrs = bases;
  comm_local_ptr = 4096;
  memcpy = λ c. 0;
  world_gather = λ gid ranks. [];
}

constructed : construct world no_overrides default_config ≡ ok rt
unfolding construct apply_overrides
constructed = refl

construct-IsConstructed_example : IsConstructed world rt
construct-IsConstructed_example =
    construct-IsConstructed world no_overrides default_config default_config-IsValid (omega arith)
      constructed

-- An empty all_gather raises once its epochs are reserved and its first barrier is enqueued.
empty_all_gather : all_gather rt (tensor 0 64) (tensor 0 2048) pair none with_pair ≡ (
  err assertion_error,
  record with_pair {
    epochs = (9, 2) ∷ [];
    ops =
        barrier_launch (1 ∷ 2 ∷ []) 2 (compute_token 5 9 0)
        ∷ stage (record { src = 64; dst = 4096; len = 0 } ∷ [])
        ∷ ingest (64 ∷ 2048 ∷ [])
        ∷ [];
  },
)
unfolding all_gather one_shot take_pair next_pair_for_collective peek lookup insert launch_pull
    launch_all_gather_pull effective_pipeline_chunks
empty_all_gather = refl
