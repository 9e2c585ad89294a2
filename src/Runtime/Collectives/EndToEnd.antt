-- ===== src/Runtime/Collectives/EndToEnd.antt =====
-- From a call of a collective that returns to the bytes that its work moves.
use group_free_collectives.Base.{ℕ, ◌*◌, ◌<◌, ◌≡◌, true, false, none, some, leb, Option, ok}
use group_free_collectives.Autotune.{allgather, all2all}
use group_free_collectives.Group.{GroupDescriptor, descriptor_check}
use group_free_collectives.Runtime.State.{State, Setup, Tensor}
use group_free_collectives.Runtime.Layout.{effective_pipeline_chunks}
use group_free_collectives.Runtime.Collectives.{all_gather, all2all_method}
use group_free_collectives.Runtime.Collectives.Delivers.{OutputApart, Delivers}
use group_free_collectives.Runtime.Collectives.Unchunked.{
  call_of, handed_over, undirected-Delivers, locked-undirected,
}
use group_free_collectives.Config.Laws.{IsValid}
use group_free_collectives.Runtime.Collectives.Rounds.{StagingApart}
use group_free_collectives.Runtime.Collectives.Chunked.{Pipelines, undirected-Pipelines}
use group_free_collectives.Runtime.Collectives.Accepted.{all_gather-passed, all2all-passed}

module _ (rt : Setup) where
  -- A call of `all_gather` that returns has enqueued the hand-over of its tensors, the staging of
  -- its input, a barrier, one kernel, and a barrier; the kernel moves the staged input of each
  -- member of the group to its place in the output, in the group's order, and changes no other
  -- byte. This holds for a non-empty input, a descriptor that was accepted and has its ranks on the
  -- device, and a runtime with multiprocessors, without table and fused path, that does not chunk
  -- the slice, where the peers' buffers lie outside the output.
  pub all_gather-Delivers :
      (input output : Tensor) (group : GroupDescriptor) (override : Option ℕ) {s s' : State}
      → descriptor_check group ≡ ok tt
      → group.ranks_dev ≡ some group.ranks
      → 0 < input.nbytes
      → 0 < rt.num_sms
      → rt.autotune ≡ none
      → rt.config.enable_fused_path ≡ false
      → leb (effective_pipeline_chunks rt input.nbytes override) 1 ≡ true
      → OutputApart rt (call_of rt allgather input output group input.nbytes group.ranks)
      → all_gather rt input output group override s ≡ (ok tt, s')
      → Delivers rt
          (call_of rt allgather input output group input.nbytes group.ranks)
          (handed_over rt input output s)
          s'
  all_gather-Delivers input output group override {s} accepted on_device n_pos sms_pos no_table
        unfused one apart h =
      let (call, h1) = all_gather-passed rt input output group override s accepted n_pos h in
      undirected-Delivers rt (call_of rt allgather input output group input.nbytes group.ranks) _
        call sms_pos apart unfused one
        (locked-undirected rt allgather input output group input.nbytes override s on_device
          no_table h1)

  -- An all2all that returns has enqueued the hand-over of its tensors, the staging of its input, a
  -- barrier, one kernel, and a barrier; the kernel moves each member's staged slice for this rank
  -- to its place in the output, in the group's order, and changes no other byte. This holds where
  -- the group's slices of n bytes make up the input, for a descriptor that was accepted and has its
  -- ranks on the device, and a runtime with multiprocessors, without table and fused path, that
  -- does not chunk the slice, where the peers' slices lie outside the output.
  pub all2all-Delivers :
      (input output : Tensor) (group : GroupDescriptor) (slice_bytes override : Option ℕ) (n : ℕ)
      {s s' : State}
      → descriptor_check group ≡ ok tt
      → group.ranks_dev ≡ some group.ranks
      → input.nbytes ≡ n * group.size
      → 0 < rt.num_sms
      → rt.autotune ≡ none
      → rt.config.enable_fused_path ≡ false
      → leb (effective_pipeline_chunks rt n override) 1 ≡ true
      → OutputApart rt (call_of rt all2all input output group n group.ranks)
      → all2all_method rt input output group slice_bytes override s ≡ (ok tt, s')
      → Delivers rt
          (call_of rt all2all input output group n group.ranks)
          (handed_over rt input output s)
          s'
  all2all-Delivers input output group slice_bytes override n {s} accepted on_device shared sms_pos
        no_table unfused one apart h =
      let (call, h1) =
        all2all-passed rt input output group slice_bytes override n s accepted shared h in
      undirected-Delivers rt (call_of rt all2all input output group n group.ranks) _ call sms_pos
        apart unfused one
        (locked-undirected rt all2all input output group n override s on_device no_table h1)

  -- A call of `all_gather` that returns and chunks its slice has enqueued the hand-over of its
  -- tensors, then for each piece of a layout of the slice the staging of that piece, a barrier and
  -- a kernel that gathers that piece of every member's slice, and a last barrier, on consecutive
  -- epochs. The stagings together bring the input to the local buffer, the kernels together each
  -- member's slice to its place in the output, in the group's order, and neither changes another
  -- byte. This holds for a non-empty input, a descriptor that was accepted and has its ranks on the
  -- device, and a runtime with a valid configuration and programs to copy with, without table and
  -- fused path, that cuts the slice in more than one chunk, where the peers' buffers lie outside
  -- the output and the input outside the local buffer.
  pub all_gather-Pipelines :
      (input output : Tensor) (group : GroupDescriptor) (override : Option ℕ) {s s' : State}
      → descriptor_check group ≡ ok tt
      → group.ranks_dev ≡ some group.ranks
      → 0 < input.nbytes
      → 0 < rt.copy_sms
      → rt.autotune ≡ none
      → rt.config.enable_fused_path ≡ false
      → leb (effective_pipeline_chunks rt input.nbytes override) 1 ≡ false
      → IsValid rt.config
      → OutputApart rt (call_of rt allgather input output group input.nbytes group.ranks)
      → StagingApart rt (call_of rt allgather input output group input.nbytes group.ranks)
      → all_gather rt input output group override s ≡ (ok tt, s')
      → Pipelines rt
          (call_of rt allgather input output group input.nbytes group.ranks)
          (handed_over rt input output s)
          s'
  all_gather-Pipelines input output group override {s} accepted on_device n_pos sms_pos no_table
        unfused several valid apart away h =
      let (call, h1) = all_gather-passed rt input output group override s accepted n_pos h in
      undirected-Pipelines rt (call_of rt allgather input output group input.nbytes group.ranks)
        call valid sms_pos apart away override unfused several
        (locked-undirected rt allgather input output group input.nbytes override s on_device
          no_table h1)

  -- An all2all that returns and chunks its slices has enqueued the hand-over of its tensors, then
  -- for each piece of a layout of a slice the staging of that piece of every slice, a barrier and a
  -- kernel that gathers that piece of each member's slice for this rank, and a last barrier, on
  -- consecutive epochs. The stagings together bring the input to the local buffer, the kernels
  -- together each member's slice for this rank to its place in the output, in the group's order,
  -- and neither changes another byte. This holds where the group's slices of n bytes make up the
  -- input, for a descriptor that was accepted and has its ranks on the device, and a runtime with a
  -- valid configuration and programs to copy with, without table and fused path, that cuts a slice
  -- in more than one chunk, where the peers' slices lie outside the output and the input outside
  -- the local buffer.
  pub all2all-Pipelines :
      (input output : Tensor) (group : GroupDescriptor) (slice_bytes override : Option ℕ) (n : ℕ)
      {s s' : State}
      → descriptor_check group ≡ ok tt
      → group.ranks_dev ≡ some group.ranks
      → input.nbytes ≡ n * group.size
      → 0 < rt.copy_sms
      → rt.autotune ≡ none
      → rt.config.enable_fused_path ≡ false
      → leb (effective_pipeline_chunks rt n override) 1 ≡ false
      → IsValid rt.config
      → OutputApart rt (call_of rt all2all input output group n group.ranks)
      → StagingApart rt (call_of rt all2all input output group n group.ranks)
      → all2all_method rt input output group slice_bytes override s ≡ (ok tt, s')
      → Pipelines rt
          (call_of rt all2all input output group n group.ranks)
          (handed_over rt input output s)
          s'
  all2all-Pipelines input output group slice_bytes override n {s} accepted on_device shared sms_pos
        no_table unfused several valid apart away h =
      let (call, h1) =
        all2all-passed rt input output group slice_bytes override n s accepted shared h in
      undirected-Pipelines rt (call_of rt all2all input output group n group.ranks) call valid
        sms_pos apart away override unfused several
        (locked-undirected rt all2all input output group n override s on_device no_table h1)
