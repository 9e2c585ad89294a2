-- ===== src/Runtime/Collectives.antt =====
-- `barrier`, `all_gather`, `all2all` and the autotune dispatch of gfc/runtime.py.
pub mod Launches
pub mod Atomic
pub mod Shots
pub mod ChunkLog
pub mod Pipeline
pub mod Routes
pub mod Locked
pub mod Delivers
pub mod Laws
pub mod Unchunked
pub mod Accepted
pub mod EndToEnd
pub mod Rounds
pub mod Chunked
use group_free_collectives.Base.{
  ℕ, ◌+◌, ◌*◌, ◌/◌, ◌%◌, Bool, true, false, ◌&&◌, Option, none, some, List, [], ◌∷◌, ltb, leb, ◌==◌,
  if◌then◌else◌, cdiv, align_up, Outcome, ok, err,
}
use group_free_collectives.Config.{SymmetricCollectiveConfig, py_mod, fused_max_chunks_per_channel}
use group_free_collectives.Hash.{compute_token}
use group_free_collectives.Group.{GroupDescriptor, is_member}
use group_free_collectives.Autotune.{
  Collective, allgather, all2all, DataPath, vec_pull, fused, tma, copy_engine, pipelined,
  unknown_path, Policy, get_knob, policy_for,
}
use group_free_collectives.Kernel.Tma.{default_tile_bytes, check_collective_tma_gates}
use group_free_collectives.Runtime.State.{
  Setup, Tensor, State, Act, ingest, lift, demand, pure, enqueue, ◌>>=◌, ◌>>◌,
}
use group_free_collectives.Runtime.Layout.{effective_pipeline_chunks}
use group_free_collectives.Runtime.Paths.{
  Call, comm_buf_offset, barrier_on, take_epoch, launch_kernel, launch_copies, launch_pull,
  launch_engine, launch_tma, one_shot, fused_shot, pipelined_shot,
}

module _ (rt : Setup) where
  -- `_group_ranks_row_ptr`: the row behind the pointer.
  unfoldable pub group_ranks_row : GroupDescriptor → Act (List ℕ)
  group_ranks_row group = elim group.ranks_dev [
    | none ↦ demand false >> pure []
    | some row ↦ pure row
  ]

  unfoldable pub check_fused_launch_capacity : ℕ → Act (Unit {0})
  check_fused_launch_capacity num_channels = do
    demand (ltb 0 num_channels)
    demand (leb (2 * num_channels) rt.num_sms)

  unfoldable pub preflight_tma_collective : ℕ → ℕ → Act (Unit {0})
  preflight_tma_collective slice_bytes dst_ptr =
      lift (check_collective_tma_gates slice_bytes comm_buf_offset dst_ptr default_tile_bytes)

  unfoldable pub barrier : GroupDescriptor → Act (Unit {0})
  unfolding group_ranks_row take_epoch barrier_on
  barrier group = do
    demand (is_member group)
    demand (leb group.size rt.config.max_group_size)
    row ← group_ranks_row group
    epoch ← take_epoch group.group_id
    barrier_on group row (compute_token rt.session_nonce group.group_id epoch)

  unfoldable pub validate_collective_args :
      Collective → Tensor → Tensor → GroupDescriptor → Act (Unit {0})
  validate_collective_args kind input output group = do
    demand (is_member group)
    demand (leb group.size rt.config.max_group_size)
    demand (input.is_cuda && output.is_cuda)
    demand (input.device == rt.device)
    demand (output.device == rt.device)
    demand input.is_contiguous
    demand output.is_contiguous
    demand (elim kind [
      | allgather ↦ leb input.nbytes rt.config.max_collective_bytes
      | all2all ↦ leb output.nbytes rt.config.max_collective_bytes
    ])

  -- The fused arm of `_autotune_path_guard`.
  unfoldable pub fused_guard : ℕ → ℕ → ℕ → Act (Unit {0})
  unfolding check_fused_launch_capacity
  fused_guard num_channels chunk_size slice_bytes = do
    demand (ltb 0 num_channels)
    check_fused_launch_capacity num_channels
    demand (leb num_channels rt.config.fused_num_channels)
    demand (ltb 0 chunk_size)
    rest ← lift (py_mod chunk_size rt.config.alignment)
    demand (rest == 0)
    let partition_bytes = align_up (cdiv slice_bytes num_channels) rt.config.alignment
    let n_chunks = cdiv partition_bytes chunk_size
    demand (leb n_chunks (fused_max_chunks_per_channel rt.config))

  abbrev pub channels_of : Policy → ℕ
  channels_of policy = get_knob policy.knobs.fused_num_channels rt.config.fused_num_channels

  abbrev pub chunk_size_of : Policy → ℕ
  chunk_size_of policy = get_knob policy.knobs.fused_chunk_size rt.config.fused_chunk_size

  unfoldable pub autotune_path_guard : Policy → ℕ → ℕ → Act (Unit {0})
  unfolding fused_guard preflight_tma_collective
  autotune_path_guard policy slice_bytes dst_ptr = elim policy.path [
    | tma ↦ demand rt.tma_enabled >> preflight_tma_collective slice_bytes dst_ptr
    | fused ↦ fused_guard (channels_of policy) (chunk_size_of policy) slice_bytes
    | vec_pull ↦ pure tt
    | copy_engine ↦ pure tt
    | pipelined ↦ pure tt
    | unknown_path s ↦ pure tt
  ]

  module _ (c : Call) where
    -- The vector path with a policy's `copy_sms`.
    abbrev pub vec_shot : Policy → Act (Unit {0})
    vec_shot policy =
        one_shot rt c
          (launch_kernel (launch_pull rt c (get_knob policy.knobs.copy_sms rt.copy_sms)))

    abbrev pub chunks_of : Policy → ℕ
    chunks_of policy =
        effective_pipeline_chunks rt c.slice_bytes (some (get_knob policy.knobs.pipeline_chunks 2))

    -- `_dispatch_all_gather` and `_dispatch_all2all`.
    unfoldable pub dispatch : Policy → Act (Unit {0})
    unfolding autotune_path_guard
    dispatch policy = do
      autotune_path_guard policy c.slice_bytes c.output.data_ptr
      elim policy.path [
        | fused ↦ fused_shot rt c (channels_of policy) (chunk_size_of policy)
        | pipelined ↦
            if leb (chunks_of policy) 1
            then vec_shot policy
            else pipelined_shot rt c (chunks_of policy)
        | copy_engine ↦ one_shot rt c (launch_copies (launch_engine rt c))
        | tma ↦ one_shot rt c (launch_kernel (launch_tma rt c))
        | vec_pull ↦ vec_shot policy
        | unknown_path s ↦ vec_shot policy
      ]

    -- The body of the path that no policy and no fused kernel takes.
    unfoldable pub direct_body : Act (Unit {0})
    direct_body =
        if rt.copy_engine_enabled
        then launch_copies (launch_engine rt c)
        else launch_kernel
            (if rt.tma_enabled then launch_tma rt c else launch_pull rt c rt.copy_sms)

    -- The arms under the lock where no policy applies.
    unfoldable pub undirected : ℕ → Act (Unit {0})
    unfolding direct_body check_fused_launch_capacity preflight_tma_collective
    undirected chunks =
        if rt.config.enable_fused_path
        then (check_fused_launch_capacity rt.config.fused_num_channels
            >> fused_shot rt c rt.config.fused_num_channels rt.config.fused_chunk_size)
        else if leb chunks 1
        then ((if rt.tma_enabled
              then preflight_tma_collective c.slice_bytes c.output.data_ptr
              else pure tt)
            >> one_shot rt c direct_body)
        else pipelined_shot rt c chunks

  -- What both collectives do under the lock; the `ingest` is `_ingest_user_tensors`.
  unfoldable pub locked :
      Collective → Tensor → Tensor → GroupDescriptor → ℕ → Option ℕ → Act (Unit {0})
  unfolding group_ranks_row dispatch undirected
  locked kind input output group slice_bytes pipeline_chunks = do
    let chunks = effective_pipeline_chunks rt slice_bytes pipeline_chunks
    let policy : Option Policy = elim rt.autotune [
      | none ↦ none
      | some rules ↦ policy_for rules kind group.size slice_bytes
    ]
    enqueue (ingest (input.data_ptr ∷ output.data_ptr ∷ []))
    row ← group_ranks_row group
    let c : Call = record {
      collective = kind;
      input = input;
      output = output;
      group = group;
      row = row;
      slice_bytes = slice_bytes;
    }
    elim policy [ none ↦ undirected c chunks | some p ↦ dispatch c p ]

  unfoldable pub all_gather : Tensor → Tensor → GroupDescriptor → Option ℕ → Act (Unit {0})
  unfolding validate_collective_args locked
  all_gather input output group pipeline_chunks = do
    validate_collective_args allgather input output group
    demand (output.nbytes == group.size * input.nbytes)
    locked allgather input output group input.nbytes pipeline_chunks

  -- `slice_bytes`, given or an equal share of the input.
  unfoldable pub resolve_slice_bytes : Tensor → GroupDescriptor → Option ℕ → Act ℕ
  resolve_slice_bytes input group (some n) = pure n
  resolve_slice_bytes input group none = do
    rest ← lift (py_mod input.nbytes group.size)
    demand (rest == 0)
    pure (input.nbytes / group.size)

  unfoldable pub all2all_method :
      Tensor → Tensor → GroupDescriptor → Option ℕ → Option ℕ → Act (Unit {0})
  unfolding validate_collective_args resolve_slice_bytes locked
  all2all_method input output group slice_bytes pipeline_chunks = do
    validate_collective_args all2all input output group
    demand (input.nbytes == output.nbytes)
    n ← resolve_slice_bytes input group slice_bytes
    demand (ltb 0 n)
    demand (input.nbytes == n * group.size)
    demand (leb (n * group.size) rt.config.max_collective_bytes)
    locked all2all input output group n pipeline_chunks
