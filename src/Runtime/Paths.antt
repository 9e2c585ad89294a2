-- ===== src/Runtime/Paths.antt =====
-- The data paths of gfc/runtime.py: what a collective enqueues once its arguments are accepted.
-- The two collectives run the same statements around their own launchers, so the paths take the
-- collective; `comm_buf_offset` is 0 in every call. The staging copies are of the sizes that the
-- callers checked, and their tensors have a dimension (torch's `view` refuses one without), so they
-- do not raise.
use group_free_collectives.Base.{
  ℕ, ◌+◌, ◌*◌, none, some, List, [], ◌∷◌, map, length, range, ltb, leb, Outcome, ok,
  assertion_error, check, row_of,
}
use group_free_collectives.Config.{fused_max_chunks_per_channel}
use group_free_collectives.Hash.{compute_token}
use group_free_collectives.Group.{GroupDescriptor, index_of_self}
use group_free_collectives.Group.Epochs.{next_for_barrier, next_pair_for_collective, next_many}
use group_free_collectives.Autotune.{Collective, allgather, all2all}
use group_free_collectives.Kernel.Memory.{Copy}
use group_free_collectives.Kernel.Pull.{launch_all_gather_pull, launch_all2all_pull}
use group_free_collectives.Kernel.Width.{vec_for}
use group_free_collectives.Kernel.CopyEngine.{
  Enqueued, launch_all_gather_copy_engine, launch_all2all_copy_engine,
}
use group_free_collectives.Kernel.Tma.{
  default_tile_bytes, launch_all_gather_tma, launch_all2all_tma,
}
use group_free_collectives.Kernel.Fused.{FusedOp}
use group_free_collectives.Kernel.Fused.Launch.{
  FusedCall, launch_all_gather_fused, launch_all2all_fused,
}
use group_free_collectives.Runtime.State.{
  Setup, Tensor, Act, stage, barrier_launch, kernel, fused_kernel, fork, on_copy_stream, join, pure,
  lift, demand, enqueue, ◌>>=◌, ◌>>◌,
}
use group_free_collectives.Runtime.Layout.{chunk_layout}

abbrev pub comm_buf_offset : ℕ
comm_buf_offset = 0

-- `_barrier_on`, and the launcher that it calls.
unfoldable pub barrier_on : GroupDescriptor → List ℕ → ℕ → Act (Unit {0})
barrier_on group row token = do
  lift (check (ltb 0 group.size) assertion_error)
  enqueue (barrier_launch row group.size token)

-- The epochs that a path reserves.
unfoldable pub take_epoch : ℕ → Act ℕ
unfolding next_for_barrier
take_epoch gid s =
    let (e, epochs) = next_for_barrier gid s.epochs in (ok e, record s { epochs = epochs })

unfoldable pub take_pair : ℕ → Act (ℕ × ℕ)
unfolding next_pair_for_collective
take_pair gid s =
    let (pair, epochs) = next_pair_for_collective gid s.epochs in
    (ok pair, record s { epochs = epochs })

unfoldable pub take_many : ℕ → ℕ → Act (List ℕ)
unfolding next_many
take_many count gid s =
    let (es, epochs) = next_many count gid s.epochs in (ok es, record s { epochs = epochs })

abbrev pub launch_kernel : Outcome (List Copy) → Act (Unit {0})
launch_kernel launched = lift launched >>= λ cs. enqueue (kernel cs)

-- A launcher that enqueues copy by copy.
abbrev pub launch_copies : Enqueued → Act (Unit {0})
launch_copies (cs, r) = enqueue (kernel cs) >> lift r

-- One call of a collective, its arguments checked.
pub record Call : Type 0 where
  pub collective : Collective
  pub input : Tensor
  pub output : Tensor
  pub group : GroupDescriptor
  pub row : List ℕ
  pub slice_bytes : ℕ

module _ (rt : Setup) (c : Call) where
  abbrev pub self_index : ℕ
  self_index = index_of_self c.group

  abbrev pub token : ℕ → ℕ
  token e = compute_token rt.session_nonce c.group.group_id e

  -- `slice_bytes` of an all_gather, `staged_bytes` of an all2all.
  abbrev pub staged_bytes : ℕ
  staged_bytes = elim c.collective [
    | allgather ↦ c.slice_bytes
    | all2all ↦ c.slice_bytes * c.group.size
  ]

  -- `local_buf.copy_(input_…)`.
  abbrev pub staging : Copy
  staging = record {
    src = c.input.data_ptr;
    dst = rt.comm_local_ptr + comm_buf_offset;
    len = staged_bytes;
  }

  -- The vector path's width and launch.
  unfoldable pub launch_pull : ℕ → Outcome (List Copy)
  launch_pull num_sms =
      let vec = vec_for (rt.comm_local_ptr ∷ c.output.data_ptr ∷ []) c.slice_bytes in
      elim c.collective [
        | allgather ↦
            launch_all_gather_pull (row_of c.row) rt.peer_comm_ptrs c.output.data_ptr
              comm_buf_offset self_index c.slice_bytes c.group.size vec num_sms none
        | all2all ↦
            launch_all2all_pull (row_of c.row) rt.peer_comm_ptrs c.output.data_ptr comm_buf_offset
              self_index c.slice_bytes c.group.size vec num_sms none none none
      ]

  unfoldable pub launch_engine : Enqueued
  launch_engine = elim c.collective [
    | allgather ↦
        launch_all_gather_copy_engine rt.memcpy rt.peer_comm_ptrs c.output.data_ptr c.group.ranks
          comm_buf_offset self_index c.slice_bytes
    | all2all ↦
        launch_all2all_copy_engine rt.memcpy rt.peer_comm_ptrs c.output.data_ptr c.group.ranks
          comm_buf_offset self_index c.slice_bytes
  ]

  unfoldable pub launch_tma : Outcome (List Copy)
  launch_tma = elim c.collective [
    | allgather ↦
        launch_all_gather_tma (row_of c.row) rt.peer_comm_ptrs c.output.data_ptr comm_buf_offset
          self_index c.slice_bytes c.group.size rt.num_sms default_tile_bytes
    | all2all ↦
        launch_all2all_tma (row_of c.row) rt.peer_comm_ptrs c.output.data_ptr comm_buf_offset
          self_index c.slice_bytes c.group.size rt.num_sms default_tile_bytes
  ]

  -- Stage, pre-barrier, body, post-barrier, on a pair of epochs.
  unfoldable pub one_shot : Act (Unit {0}) → Act (Unit {0})
  unfolding take_pair barrier_on
  one_shot body = do
    pair ← take_pair c.group.group_id
    enqueue (stage (staging ∷ []))
    barrier_on c.group c.row (token pair.0)
    body
    barrier_on c.group c.row (token pair.1)

  unfoldable pub fused_call : ℕ → ℕ → ℕ → FusedCall
  fused_call num_channels chunk_bytes step_base = record {
    input_ptr = c.input.data_ptr;
    output_ptr = c.output.data_ptr;
    comm_buf_offset = comm_buf_offset;
    self_global_rank = rt.rank;
    self_local_index = self_index;
    slice_bytes = c.slice_bytes;
    group_size = c.group.size;
    world_size = rt.world_size;
    max_chunks_per_channel = fused_max_chunks_per_channel rt.config;
    num_channels = num_channels;
    chunk_bytes = chunk_bytes;
    step_base = step_base;
    alignment = rt.config.alignment;
  }

  unfoldable pub launch_fused : FusedCall → Outcome (List (List FusedOp))
  launch_fused call = elim c.collective [
    | allgather ↦ launch_all_gather_fused (row_of c.row) rt.peer_comm_ptrs call
    | all2all ↦ launch_all2all_fused (row_of c.row) rt.peer_comm_ptrs call
  ]

  -- Pre-barrier, fused kernel, post-barrier, on three epochs; the second is the step base.
  unfoldable pub fused_shot : ℕ → ℕ → Act (Unit {0})
  unfolding take_epoch barrier_on
  fused_shot num_channels chunk_bytes = do
    pre_e ← take_epoch c.group.group_id
    step_base_e ← take_epoch c.group.group_id
    post_e ← take_epoch c.group.group_id
    barrier_on c.group c.row (token pre_e)
    programs ← lift (launch_fused (fused_call num_channels chunk_bytes (token step_base_e)))
    enqueue (fused_kernel programs)
    barrier_on c.group c.row (token post_e)

  -- The copies of chunk `(offset, size)` onto the local buffer: one of an all_gather, one for each
  -- peer's slice of an all2all.
  unfoldable pub stage_chunk : ℕ → ℕ → List Copy
  stage_chunk offset size = elim c.collective [
    | allgather ↦
        record {
          src = c.input.data_ptr + offset;
          dst = rt.comm_local_ptr + (comm_buf_offset + offset);
          len = size;
        }
        ∷ []
    | all2all ↦
        map
          (λ peer_idx. record {
            src = c.input.data_ptr + (peer_idx * c.slice_bytes + offset);
            dst = rt.comm_local_ptr + (comm_buf_offset + peer_idx * c.slice_bytes + offset);
            len = size;
          })
          (range c.group.size)
  ]

  unfoldable pub launch_chunk : ℕ → ℕ → Outcome (List Copy)
  launch_chunk offset size = elim c.collective [
    | allgather ↦
        launch_all_gather_pull (row_of c.row) rt.peer_comm_ptrs (c.output.data_ptr + offset)
          (comm_buf_offset + offset) self_index size c.group.size
          (vec_for
            ((rt.comm_local_ptr + offset) ∷ (c.output.data_ptr + offset) ∷ c.slice_bytes ∷ []) size)
          rt.copy_sms (some c.slice_bytes)
    | all2all ↦
        launch_all2all_pull (row_of c.row) rt.peer_comm_ptrs (c.output.data_ptr + offset)
          (comm_buf_offset + offset) self_index c.slice_bytes c.group.size
          (vec_for
            ((rt.comm_local_ptr + comm_buf_offset + self_index * c.slice_bytes + offset)
              ∷ (c.output.data_ptr + offset)
              ∷ c.slice_bytes
              ∷ [])
            size)
          rt.copy_sms (some size) (some c.slice_bytes) (some c.slice_bytes)
  ]

  -- `for k, (offset, size) in enumerate(layout)`, with the epochs of the pre-barriers.
  unfoldable pub each_chunk : List (ℕ × ℕ) → List ℕ → Act (Unit {0})
  unfolding barrier_on
  each_chunk ((offset, size) ∷ layout) (e ∷ es) = do
    enqueue (on_copy_stream (stage_chunk offset size))
    enqueue join
    barrier_on c.group c.row (token e)
    launch_kernel (launch_chunk offset size)
    each_chunk layout es
  each_chunk [] es = pure tt
  each_chunk (a ∷ layout) [] = pure tt

  -- `_all_gather_pipelined` and `_all2all_pipelined`.
  unfoldable pub pipelined_shot : ℕ → Act (Unit {0})
  unfolding take_many take_epoch barrier_on
  pipelined_shot chunks = do
    layout ← lift (chunk_layout c.slice_bytes chunks rt.config.alignment)
    demand (leb (length layout) rt.config.max_pipeline_chunks)
    pre_epochs ← take_many (length layout) c.group.group_id
    post_e ← take_epoch c.group.group_id
    enqueue fork
    each_chunk layout pre_epochs
    barrier_on c.group c.row (token post_e)
