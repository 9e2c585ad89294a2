-- ===== src/Runtime/Collectives/Rounds.antt =====
-- What the rounds of the pipelined loop move: each a chunk of every peer's slice, all of them the
-- slices.
use mathlib.Core.Path.{fun_ext}
use group_free_collectives.Base.{
  ℕ, suc, ◌+◌, ◌*◌, ◌≤◌, ◌<◌, ◌≡◌, refl, sym, ap, ap₂, subst, ◌∙◌, inl, inr, some, List, [], ◌∷◌,
  map, arith, length, range, range_from, row_of, ok,
}
use group_free_collectives.Base.Membership.{All-Elem, map-Elem, Elem-map, Elem-range, range-lt}
use group_free_collectives.Autotune.{Collective, allgather, all2all}
use group_free_collectives.Kernel.Memory.{Copy, Agrees}
use group_free_collectives.Kernel.Strided.{Apart, strided-Piece, strided-Moves}
use group_free_collectives.Kernel.CopyEngine.Laws.{whole-Agrees}
use group_free_collectives.Kernel.Width.Alignment.{vec_for-exact}
use group_free_collectives.Kernel.Pull.Laws.{
  launch_all_gather_pull-Moves, launch_all2all_pull-Moves,
}
use group_free_collectives.Runtime.State.{Setup, Op, kernel, on_copy_stream, join}
use group_free_collectives.Runtime.Layout.Laws.{Covers}
use group_free_collectives.Runtime.Layout.Chunks.{Moves-source, ChunkMoves, EachMoves}
use group_free_collectives.Runtime.Paths.{
  Call, comm_buf_offset, self_index, stage_chunk, launch_chunk,
}
use group_free_collectives.Runtime.Collectives.Launches.{launch_chunk-ok}
use group_free_collectives.Runtime.Collectives.ChunkLog.{
  bar, chunk_log, chunk_log_none, chunk_log_round,
}
use group_free_collectives.Runtime.Collectives.Delivers.{source_of, OutputApart}

-- A part of a source and the row of its places, moved along together, stay apart.
part-Apart :
    (src n dst size o part : ℕ) {from : ℕ}
    → from ≡ src + o
    → o + part ≤ n
    → Apart src n dst size
    → Apart from part (dst + o) size
part-Apart src n dst size o part at fits (inl h) = inl (omega arith)
part-Apart src n dst size o part at fits (inr h) = inr (omega arith)

module _ (rt : Setup) (c : Call) where
  abbrev with_kind : Collective → Call
  with_kind k = record c { collective = k }

  -- The number of slices that this rank stages, and where they lie.
  abbrev pub staged_count : ℕ
  staged_count = elim c.collective [ allgather ↦ 1 | all2all ↦ c.group.size ]

  abbrev pub input_slice : ℕ → ℕ
  input_slice i = c.input.data_ptr + i * c.slice_bytes

  abbrev pub local_buf : ℕ
  local_buf = rt.comm_local_ptr + comm_buf_offset

  -- The input is away from the local buffer.
  abbrev pub StagingApart : Type 0
  StagingApart =
      (i : ℕ)
      → i < staged_count
      → Apart (input_slice i) c.slice_bytes local_buf (staged_count * c.slice_bytes)

  -- The log after rounds that start at an epoch, with a kernel for each chunk.
  abbrev pub rounds_log : List (ℕ × ℕ) → List (List Copy) → ℕ → List Op → List Op
  rounds_log ((o, n) ∷ layout) (cs ∷ rounds) e ops =
      rounds_log layout rounds (suc e)
        (kernel cs ∷ bar rt c e ∷ join ∷ on_copy_stream (stage_chunk rt c o n) ∷ ops)
  rounds_log [] rounds e ops = ops
  rounds_log (a ∷ layout) [] e ops = ops

  -- The copies that stage a chunk, and those that its kernel runs.
  abbrev pub Stages : ℕ → ℕ → List Copy → Type 0
  Stages = ChunkMoves input_slice local_buf c.slice_bytes staged_count

  abbrev pub Gathers : ℕ → ℕ → List Copy → Type 0
  Gathers = ChunkMoves (source_of rt c) c.output.data_ptr c.slice_bytes c.group.size

module _ (rt : Setup) (c : Call) (o n : ℕ) (n_pos : 0 < n) (fits : o + n ≤ c.slice_bytes) where
  abbrev at : Collective → Call
  at = with_kind rt c

  -- The kernel of a chunk.
  pub launch_chunk-Gathers :
      (k : Collective) {cs : List Copy}
      → OutputApart rt (at k)
      → launch_chunk rt (at k) o n ≡ ok cs
      → Gathers rt (at k) o n cs
  unfolding launch_chunk
  launch_chunk-Gathers allgather apart h =
      Moves-source (λ i. omega arith)
        (launch_all_gather_pull-Moves (row_of c.row) rt.peer_comm_ptrs (c.output.data_ptr + o)
          (comm_buf_offset + o) (self_index rt c) n c.group.size _ rt.copy_sms (some c.slice_bytes)
          h (inl (vec_for-exact _ _ n n_pos))
          (λ i p.
            part-Apart _ c.slice_bytes c.output.data_ptr _ o n (omega arith) fits (apart i p)))
  launch_chunk-Gathers all2all apart h =
      Moves-source (λ i. omega arith)
        (launch_all2all_pull-Moves (row_of c.row) rt.peer_comm_ptrs (c.output.data_ptr + o)
          (comm_buf_offset + o) (self_index rt c) c.slice_bytes c.group.size _ rt.copy_sms (some n)
          (some c.slice_bytes) (some c.slice_bytes) h (inl (vec_for-exact _ _ n n_pos))
          (λ i p.
            part-Apart _ c.slice_bytes c.output.data_ptr _ o n (omega arith) fits (apart i p)))

  -- The copies that stage a chunk are one for each slice.
  abbrev slice_copy : ℕ → Copy
  slice_copy i = record {
    src = input_slice rt c i + o;
    dst = local_buf rt c + o + i * c.slice_bytes;
    len = n;
  }

  stage_chunk-eq :
      (k : Collective) → stage_chunk rt (at k) o n ≡ map slice_copy (range (staged_count rt (at k)))
  unfolding stage_chunk
  stage_chunk-eq allgather =
      ap₂ (λ src dst. record { src = src; dst = dst; len = n } ∷ []) (omega arith) (omega arith)
  stage_chunk-eq all2all =
      ap (λ f. map f (range c.group.size))
        (fun_ext λ i.
          ap₂ (λ src dst. record { src = src; dst = dst; len = n }) (omega arith) (omega arith))

  pub stage_chunk-Stages :
      (k : Collective) → StagingApart rt (at k) → Stages rt (at k) o n (stage_chunk rt (at k) o n)
  stage_chunk-Stages k apart = subst (Stages rt (at k) o n) (sym (stage_chunk-eq k)) (
      strided-Moves (λ i. input_slice rt c i + o) (local_buf rt c + o) c.slice_bytes n
        (staged_count rt (at k)) (omega arith) part_apart _
        (All-Elem _ _ λ x m.
          let (i, m', e) = map-Elem slice_copy (range (staged_count rt (at k))) m in
          subst (Agrees _ _) (sym e) (
            whole-Agrees (
              strided-Piece _ _ c.slice_bytes n (staged_count rt (at k)) (omega arith) part_apart i
                (range-lt (staged_count rt (at k)) m'))))
        (λ i b p q. (
          slice_copy i,
          Elem-map slice_copy (Elem-range (staged_count rt (at k)) i p),
          omega arith,
        )))
    where
      part_apart :
          (i : ℕ)
          → i < staged_count rt (at k)
          → Apart
              (input_slice rt c i + o)
              n
              (local_buf rt c + o)
              (staged_count rt (at k) * c.slice_bytes)
      part_apart i p = part-Apart _ c.slice_bytes (local_buf rt c) _ o n refl fits (apart i p)

module _ (rt : Setup) (c : Call) (g_pos : 0 < c.group.size) (sms_pos : 0 < rt.copy_sms)
    (align : ℕ) where
  -- The loop over a layout logs one kernel for each chunk, which gathers that chunk.
  pub layout-Gathers :
      (off : ℕ) (layout : List (ℕ × ℕ))
      → OutputApart rt c
      → Covers align c.slice_bytes off layout
      → (rounds : List (List Copy)) × EachMoves
          (source_of rt c)
          c.output.data_ptr
          c.slice_bytes
          c.group.size
          layout
          rounds
        × ((e : ℕ) (ops : List Op)
            → chunk_log rt c layout (range_from e (length layout)) ops
              ≡ rounds_log rt c layout rounds e ops)
  layout-Gathers off [] apart covers = ([], tt, λ e ops. chunk_log_none rt c [] ops)
  layout-Gathers off ((o, n) ∷ layout) apart (at, mult, n_pos, fits, rest) =
      let (cs, launched) = launch_chunk-ok rt c o n n_pos (omega arith) g_pos sms_pos in
      let (rounds, each, log) = layout-Gathers (o + n) layout apart rest in
      (
        cs ∷ rounds,
        (launch_chunk-Gathers rt c o n n_pos fits c.collective apart launched, each),
        λ e ops.
            chunk_log_round rt c o n layout e (range_from (suc e) (length layout)) ops launched
            ∙ log (suc e) _,
      )

  -- The staging of a layout is one round of copies for each chunk.
  pub layout-Stages :
      (off : ℕ) (layout : List (ℕ × ℕ))
      → StagingApart rt c
      → Covers align c.slice_bytes off layout
      → EachMoves
          (input_slice rt c)
          (local_buf rt c)
          c.slice_bytes
          (staged_count rt c)
          layout
          (map (λ (o, n). stage_chunk rt c o n) layout)
  layout-Stages off [] apart covers = tt
  layout-Stages off ((o, n) ∷ layout) apart (at, mult, n_pos, fits, rest) = (
    stage_chunk-Stages rt c o n n_pos fits c.collective apart,
    layout-Stages (o + n) layout apart rest,
  )
