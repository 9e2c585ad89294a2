-- ===== src/Runtime/Collectives/Chunked.antt =====
-- What a pipelined collective enqueues and moves, and when both collectives take that path.
use group_free_collectives.Base.{
  ℕ, ◌+◌, ◌≤◌, ◌<◌, ◌≡◌, sym, ap, ap₂, subst, ◌∙◌, false, List, ◌∷◌, map, length, leb, Option, ok,
}
use group_free_collectives.Config.Laws.{IsValid}
use group_free_collectives.Group.Epochs.{peek, peek-insert_same}
use group_free_collectives.Kernel.Memory.{Copy}
use group_free_collectives.Kernel.Strided.{Moves}
use group_free_collectives.Runtime.State.{State, Setup, fork}
use group_free_collectives.Runtime.Layout.{effective_pipeline_chunks}
use group_free_collectives.Runtime.Layout.Laws.{Covers, effective_pipeline_chunks_bound}
use group_free_collectives.Runtime.Layout.Chunks.{joined, EachMoves, EachMoves-Moves}
use group_free_collectives.Runtime.Paths.{Call, stage_chunk, pipelined_shot}
use group_free_collectives.Runtime.Collectives.{undirected}
use group_free_collectives.Runtime.Collectives.Atomic.{Untouched-refl}
use group_free_collectives.Runtime.Collectives.ChunkLog.{bar, chunk_log}
use group_free_collectives.Runtime.Collectives.Pipeline.{
  layout, covers, layout_few, reserved, post, after, epochs-eq, post-eq, pipelined-eq,
}
use group_free_collectives.Runtime.Collectives.Unchunked.{third_arm}
use group_free_collectives.Runtime.Collectives.Delivers.{source_of, OutputApart, Fills, IsCall}
use group_free_collectives.Runtime.Collectives.Rounds.{
  staged_count, input_slice, local_buf, StagingApart, rounds_log, layout-Gathers, layout-Stages,
}

-- The work of a pipelined collective: for each chunk of a layout of the slice the staging of that
-- chunk on the copy stream, a join, a barrier on the next epoch and a kernel that gathers that chunk
-- of every peer's slice; at the end a barrier on one more epoch. All stagings together bring the
-- input to the local buffer, all kernels together the peers' slices to their places.
pub record Pipelines (rt : Setup) (c : Call) (s s' : State) : Type 0 where
  pub pieces : List (ℕ × ℕ)
  pub rounds : List (List Copy)
  pub cut : Covers rt.config.alignment c.slice_bytes 0 pieces
  pub few : length pieces ≤ rt.config.max_pipeline_chunks
  pub log :
      s'.ops
      ≡ bar rt c (peek c.group.group_id s.epochs + length pieces)
        ∷ rounds_log rt c pieces rounds (peek c.group.group_id s.epochs) (fork ∷ s.ops)
  pub spent : peek c.group.group_id s'.epochs ≡ peek c.group.group_id s.epochs + length pieces + 1
  pub gathers :
      EachMoves (source_of rt c) c.output.data_ptr c.slice_bytes c.group.size pieces rounds
  pub fills : Fills rt c (joined rounds)
  pub stages :
      Moves
        (input_slice rt c)
        (local_buf rt c)
        c.slice_bytes
        c.slice_bytes
        (staged_count rt c)
        (joined (map (λ (o, n). stage_chunk rt c o n) pieces))

module _ (rt : Setup) (c : Call) (call : IsCall rt c) (v : IsValid rt.config)
    (sms_pos : 0 < rt.copy_sms) (apart : OutputApart rt c) (away : StagingApart rt c) where
  module _ (chunks : ℕ) (some_chunk : 0 < chunks) (few : chunks ≤ rt.config.max_pipeline_chunks)
      (s : State) where
    abbrev gid : ℕ
    gid = c.group.group_id

    abbrev end : State
    end =
        after rt c chunks v call.slice_pos call.size_pos sms_pos some_chunk few s s
          (Untouched-refl s)

    abbrev cuts : List (ℕ × ℕ)
    cuts =
        layout rt c chunks v call.slice_pos call.size_pos sms_pos some_chunk few s s
          (Untouched-refl s)

    cuts-Covers : Covers rt.config.alignment c.slice_bytes 0 cuts
    cuts-Covers =
        covers rt c chunks v call.slice_pos call.size_pos sms_pos some_chunk few s s
          (Untouched-refl s)

    last-eq :
        post rt c chunks v call.slice_pos call.size_pos sms_pos some_chunk few s s
          (Untouched-refl s)
        ≡ peek gid s.epochs + length cuts
    last-eq =
        post-eq rt c chunks v call.slice_pos call.size_pos sms_pos some_chunk few s s
          (Untouched-refl s)

    end-Pipelines : Pipelines rt c s end
    end-Pipelines =
        let (rounds, each, log) =
          layout-Gathers rt c call.size_pos sms_pos rt.config.alignment 0 cuts apart cuts-Covers in
        let staged =
          layout-Stages rt c call.size_pos sms_pos rt.config.alignment 0 cuts away cuts-Covers in
        record {
          pieces = cuts;
          rounds = rounds;
          cut = cuts-Covers;
          few =
              layout_few rt c chunks v call.slice_pos call.size_pos sms_pos some_chunk few s s
                (Untouched-refl s);
          log =
              ap₂ (λ e es. bar rt c e ∷ chunk_log rt c cuts es (fork ∷ s.ops)) last-eq
                (epochs-eq rt c chunks v call.slice_pos call.size_pos sms_pos some_chunk few s s
                  (Untouched-refl s))
              ∙ ap (λ ops. bar rt c (peek gid s.epochs + length cuts) ∷ ops)
                  (log (peek gid s.epochs) (fork ∷ s.ops));
          spent =
              peek-insert_same gid
                (post rt c chunks v call.slice_pos call.size_pos sms_pos some_chunk few s s
                    (Untouched-refl s)
                  + 1)
                (reserved rt c chunks v call.slice_pos call.size_pos sms_pos some_chunk few s s
                  (Untouched-refl s))
              ∙ ap (λ (x : ℕ). x + 1) last-eq;
          gathers = each;
          fills =
              EachMoves-Moves (source_of rt c) c.output.data_ptr c.slice_bytes c.group.size apart
                rt.config.alignment cuts rounds cuts-Covers each;
          stages =
              EachMoves-Moves (input_slice rt c) (local_buf rt c) c.slice_bytes (staged_count rt c)
                away rt.config.alignment cuts _ cuts-Covers staged;
        }

  pub pipelined_shot-Pipelines :
      (chunks : ℕ)
      → 0 < chunks
      → chunks ≤ rt.config.max_pipeline_chunks
      → (s : State) {s' : State} → pipelined_shot rt c chunks s ≡ (ok tt, s')
      → Pipelines rt c s s'
  pipelined_shot-Pipelines chunks some_chunk few s h =
      subst (Pipelines rt c s)
        (ap (λ r. r.1)
          (sym (
              pipelined-eq rt c chunks v call.slice_pos call.size_pos sms_pos some_chunk few s s
                (Untouched-refl s))
            ∙ h))
        (end-Pipelines chunks some_chunk few s)

  pub undirected-Pipelines :
      (override : Option ℕ) {s s' : State}
      → rt.config.enable_fused_path ≡ false
      → leb (effective_pipeline_chunks rt c.slice_bytes override) 1 ≡ false
      → undirected rt c (effective_pipeline_chunks rt c.slice_bytes override) s ≡ (ok tt, s')
      → Pipelines rt c s s'
  unfolding undirected
  undirected-Pipelines override {s} unfused several h =
      let chunks = effective_pipeline_chunks rt c.slice_bytes override in
      let (some_chunk, few) = effective_pipeline_chunks_bound rt c.slice_bytes override v in
      pipelined_shot-Pipelines chunks some_chunk few s
        (third_arm _ _ _ rt.config.enable_fused_path (leb chunks 1) unfused several h)
