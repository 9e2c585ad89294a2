-- ===== src/Runtime/Collectives/Delivers.antt =====
-- What the work of a one-shot collective moves, whichever of the three data paths its kernel takes.
use group_free_collectives.Base.{
  ℕ, ◌+◌, ◌*◌, ◌<◌, ◌≡◌, refl, sym, ap, ◌∙◌, inl, none, List, [], ◌∷◌, arith, length, row_of, Exc,
  Outcome, ok, err, lt→ltb, insert,
}
use group_free_collectives.Autotune.{Collective, allgather, all2all}
use group_free_collectives.Group.Epochs.{peek, next_pair_for_collective}
use group_free_collectives.Kernel.Memory.{Copy}
use group_free_collectives.Kernel.Strided.{Apart, Moves}
use group_free_collectives.Kernel.Width.Alignment.{vec_for-exact}
use group_free_collectives.Kernel.Pull.Laws.{
  gather_src, exchange_src, launch_all_gather_pull-Moves, launch_all2all_pull-Moves,
}
use group_free_collectives.Kernel.CopyEngine.{Enqueued}
use group_free_collectives.Kernel.CopyEngine.Laws.{
  launch_all_gather_copy_engine-Moves, launch_all2all_copy_engine-Moves,
}
use group_free_collectives.Kernel.Tma.{default_tile_bytes}
use group_free_collectives.Kernel.Tma.Laws.{launch_all_gather_tma-Moves, launch_all2all_tma-Moves}
use group_free_collectives.Runtime.State.{State, Setup, Act, Op, stage, barrier_launch, kernel}
use group_free_collectives.Runtime.Paths.{
  Call, comm_buf_offset, self_index, token, staging, launch_pull, launch_engine, launch_tma,
  launch_kernel, launch_copies, one_shot, take_pair, barrier_on,
}
use group_free_collectives.Runtime.Collectives.Shots.{one_shot-eq}
use group_free_collectives.Runtime.Collectives.Atomic.{Untouched-refl}

-- The launch of one data path: the vector kernel, TMA or the copy engine.
pub data Route (rt : Setup) (c : Call) : Act (Unit {0}) → Type 0 where
  by_pull : (sms : ℕ) → Route rt c (launch_kernel (launch_pull rt c sms))
  by_tma : Route rt c (launch_kernel (launch_tma rt c))
  by_engine : Route rt c (launch_copies (launch_engine rt c))

module _ (rt : Setup) (c : Call) where
  -- Where each peer's slice lies: its whole input, or its slice for this rank.
  abbrev pub source_of : ℕ → ℕ
  source_of = elim c.collective [
    | allgather ↦ gather_src (row_of c.row) rt.peer_comm_ptrs comm_buf_offset
    | all2all ↦
        exchange_src (row_of c.row) rt.peer_comm_ptrs comm_buf_offset (self_index rt c)
          c.slice_bytes
  ]

  abbrev pub bar : ℕ → Op
  bar e = barrier_launch c.row c.group.size (token rt c e)

  -- The state with the staging, a barrier, one more entry and a barrier enqueued, and two epochs
  -- gone.
  abbrev pub around : State → Op → State
  around s k =
      let e = peek c.group.group_id s.epochs in
      record s {
        epochs = insert c.group.group_id (e + 2) s.epochs;
        ops = bar (e + 1) ∷ k ∷ bar e ∷ stage (staging rt c ∷ []) ∷ s.ops;
      }

  -- The output is away from the peers' slices.
  abbrev pub OutputApart : Type 0
  OutputApart =
      (i : ℕ)
      → i < c.group.size
      → Apart (source_of i) c.slice_bytes c.output.data_ptr (c.group.size * c.slice_bytes)

  abbrev pub Fills : List Copy → Type 0
  Fills = Moves source_of c.output.data_ptr c.slice_bytes c.slice_bytes c.group.size

  -- A one-shot that returns has enqueued the staging, a barrier, one kernel, and a barrier; its
  -- kernel moves each peer's slice to its place in the output and changes no other byte.
  pub record Delivers (s s' : State) : Type 0 where
    pub copies : List Copy
    pub log : s' ≡ around s (kernel copies)
    pub fills : Fills copies

-- The facts about a call that its descriptor and its checks give.
pub record IsCall (rt : Setup) (c : Call) : Type 0 where
  pub slice_pos : 0 < c.slice_bytes
  pub size_pos : 0 < c.group.size
  pub size_is : c.group.size ≡ length c.group.ranks
  pub row_is : c.row ≡ c.group.ranks

module _ (rt : Setup) (c : Call) (call : IsCall rt c) where
  abbrev at : Collective → Call
  at k = record c { collective = k }

  pull-Fills :
      (k : Collective) (sms : ℕ) {cs : List Copy}
      → OutputApart rt (at k)
      → launch_pull rt (at k) sms ≡ ok cs
      → Fills rt (at k) cs
  unfolding launch_pull
  pull-Fills allgather sms {cs} apart h =
      launch_all_gather_pull-Moves (row_of c.row) rt.peer_comm_ptrs c.output.data_ptr
        comm_buf_offset (self_index rt c) c.slice_bytes c.group.size _ sms none h
        (inl
          (vec_for-exact rt.comm_local_ptr (c.output.data_ptr ∷ []) c.slice_bytes call.slice_pos))
        apart
  pull-Fills all2all sms {cs} apart h =
      launch_all2all_pull-Moves (row_of c.row) rt.peer_comm_ptrs c.output.data_ptr comm_buf_offset
        (self_index rt c) c.slice_bytes c.group.size _ sms none none none h
        (inl
          (vec_for-exact rt.comm_local_ptr (c.output.data_ptr ∷ []) c.slice_bytes call.slice_pos))
        apart

  tma-Fills :
      (k : Collective) {cs : List Copy}
      → 0 < rt.num_sms
      → OutputApart rt (at k)
      → launch_tma rt (at k) ≡ ok cs
      → Fills rt (at k) cs
  unfolding launch_tma
  tma-Fills allgather {cs} sms_pos apart h =
      launch_all_gather_tma-Moves (row_of c.row) rt.peer_comm_ptrs c.output.data_ptr comm_buf_offset
        (self_index rt c) c.slice_bytes c.group.size rt.num_sms default_tile_bytes (omega arith)
        sms_pos call.size_pos h apart
  tma-Fills all2all {cs} sms_pos apart h =
      launch_all2all_tma-Moves (row_of c.row) rt.peer_comm_ptrs c.output.data_ptr comm_buf_offset
        (self_index rt c) c.slice_bytes c.group.size rt.num_sms default_tile_bytes (omega arith)
        sms_pos call.size_pos h apart

  engine-Fills :
      (k : Collective)
      → OutputApart rt (at k)
      → (launch_engine rt (at k)).1 ≡ ok tt
      → Fills rt (at k) (launch_engine rt (at k)).0
  unfolding launch_engine
  engine-Fills allgather apart h =
      rw (call.row_is, call.size_is)
        (launch_all_gather_copy_engine-Moves rt.memcpy rt.peer_comm_ptrs c.output.data_ptr
          c.group.ranks comm_buf_offset (self_index rt c) c.slice_bytes h
          (rw (call.row_is, call.size_is) at apart))
  engine-Fills all2all apart h =
      rw (call.row_is, call.size_is)
        (launch_all2all_copy_engine-Moves rt.memcpy rt.peer_comm_ptrs c.output.data_ptr
          c.group.ranks comm_buf_offset (self_index rt c) c.slice_bytes h
          (rw (call.row_is, call.size_is) at apart))

  -- What the launch of a route does to the log.
  data Outcomes (body : Act (Unit {0})) : Type 0 where
    moves :
        (cs : List Copy)
        → Fills rt c cs
        → ((t : State) → body t ≡ (ok tt, record t { ops = kernel cs ∷ t.ops }))
        → Outcomes body
    fails : (e : Exc) (f : State → State) → ((t : State) → body t ≡ (err e, f t)) → Outcomes body

  kernel-Outcomes :
      (launched : Outcome (List Copy))
      → ((cs : List Copy) → launched ≡ ok cs → Fills rt c cs)
      → Outcomes (launch_kernel launched)
  kernel-Outcomes (ok cs) fill = moves cs (fill cs refl) (λ t. refl)
  kernel-Outcomes (err e) fill = fails e (λ t. t) (λ t. refl)

  copies-Outcomes :
      (launched : Enqueued)
      → (launched.1 ≡ ok tt → Fills rt c launched.0)
      → Outcomes (launch_copies launched)
  copies-Outcomes (cs, ok u) fill = moves cs (fill refl) (λ t. refl)
  copies-Outcomes (cs, err e) fill = fails e _ (λ t. refl)

  Route-Outcomes :
      {body : Act (Unit {0})} → 0 < rt.num_sms → OutputApart rt c → Route rt c body → Outcomes body
  Route-Outcomes sms_pos apart (by_pull sms) =
      kernel-Outcomes (launch_pull rt c sms) (λ cs e. pull-Fills c.collective sms apart e)
  Route-Outcomes sms_pos apart by_tma =
      kernel-Outcomes (launch_tma rt c) (λ cs e. tma-Fills c.collective sms_pos apart e)
  Route-Outcomes sms_pos apart by_engine =
      copies-Outcomes (launch_engine rt c) (engine-Fills c.collective apart)

  module _ (s : State) where
    one_shot-fails :
        (body : Act (Unit {0})) (e : Exc) (f : State → State)
        → ((t : State) → body t ≡ (err e, f t))
        → (one_shot rt c body s).0 ≡ err e
    unfolding one_shot take_pair barrier_on next_pair_for_collective
    one_shot-fails body e f h = rw (lt→ltb 0 c.group.size call.size_pos, h _) refl

    pub one_shot-Delivers :
        {body : Act (Unit {0})} {s' : State}
        → 0 < rt.num_sms
        → OutputApart rt c
        → Route rt c body
        → one_shot rt c body s ≡ (ok tt, s')
        → Delivers rt c s s'
    one_shot-Delivers {body} sms_pos apart route h = elim (Route-Outcomes sms_pos apart route) [
      | moves cs fill runs ↦ record {
        copies = cs;
        log =
            ap (λ r. r.1)
              (sym h
                ∙ one_shot-eq rt c call.size_pos s s (Untouched-refl s) (Unit {0}) body (kernel cs)
                    runs);
        fills = fill;
      }
      | fails e f runs ↦ absurd (cc (ap (λ r. r.0) h, one_shot-fails body e f runs))
    ]
