-- ===== src/Runtime/PointToPoint/Ends.antt =====
-- One end of a point-to-point call that returns: the work that it has enqueued.
use group_free_collectives.Base.{
  ℕ, ◌+◌, ◌%◌, ◌<◌, ◌≡◌, refl, sym, ap, ◌∙◌, ◌&&◌, ◌==◌, Option, List, [], ◌∷◌, ◌++◌, ok,
}
use group_free_collectives.Hash.{compute_token}
use group_free_collectives.Kernel.Memory.{Copy}
use group_free_collectives.Kernel.Strided.{Apart}
use group_free_collectives.Kernel.Pull.Raw.{MovesOne}
use group_free_collectives.Runtime.PointToPoint.Joint.{
  Event, events, put_sent, put_received, get_sent, get_received,
}
use group_free_collectives.Runtime.State.{
  Setup, Tensor, State, Op, ingest, stage, barrier_launch, kernel, pure, ◌>>◌,
}
use group_free_collectives.Runtime.Layout.{or_else}
use group_free_collectives.Runtime.Paths.{comm_buf_offset, barrier_on}
use group_free_collectives.Group.{GroupDescriptor}
use group_free_collectives.Runtime.PointToPoint.{
  p2p_copy, sender, receiver, put, get, cb_local_ptr, p2p_body, p2p_protocol,
}
use group_free_collectives.Runtime.PointToPoint.Transfer.{
  bind-returned, barrier-returned, p2p_copy-Moved, protocol-returned,
}

abbrev pub move : ℕ → ℕ → ℕ → Copy
move src dst n = record { src = src; dst = dst; len = n }

-- The work that a call enqueued, whose events are `es`.
abbrev pub Enqueues : State → State → List Event → Type 0
Enqueues s s' es = (added : List Op) × (s'.ops ≡ added ++ s.ops) × (events added ≡ es)

module _ (rt : Setup) (src_rank dst_rank : ℕ) (t : Tensor) (requested : Option ℕ) where
  abbrev n : ℕ
  n = or_else requested t.nbytes

  abbrev bar : GroupDescriptor → List ℕ → ℕ → Op
  bar group row e = barrier_launch row group.size (compute_token rt.session_nonce group.group_id e)

  abbrev staged : Copy
  staged = move t.data_ptr (cb_local_ptr rt) n

  pub put_sender :
      (s : State) {s' : State}
      → 0 < rt.num_sms
      → Apart (cb_local_ptr rt) n (rt.peer_comm_ptrs dst_rank + comm_buf_offset) n
      → p2p_protocol rt src_rank dst_rank t sender put requested s ≡ (ok tt, s')
      → (t0 : ℕ) × (t1 : ℕ) × (cs : List Copy) × Enqueues s s' (put_sent t0 t1 staged cs)
        × MovesOne (cb_local_ptr rt) (rt.peer_comm_ptrs dst_rank + comm_buf_offset) n cs
  unfolding p2p_body events
  put_sender s {s'} sms_pos apart h =
      let (group, row, pair, u, before, h1) =
        protocol-returned rt src_rank dst_rank t sender put requested s h in
      let h2 = barrier-returned group row _ _ (record u { ops = stage (staged ∷ []) ∷ u.ops }) h1 in
      let (_, v, moved, h3) =
        bind-returned
          (p2p_copy rt (cb_local_ptr rt) (rt.peer_comm_ptrs dst_rank + comm_buf_offset) n
            (n % 16 == 0))
          (λ _.
            barrier_on group row (compute_token rt.session_nonce group.group_id pair.1) >> pure tt)
          (record u { ops = bar group row pair.0 ∷ stage (staged ∷ []) ∷ u.ops }) h2 in
      let (cs, at, moves) =
        p2p_copy-Moved rt (cb_local_ptr rt) (rt.peer_comm_ptrs dst_rank + comm_buf_offset) n sms_pos
          apart (n % 16 == 0)
          (record u { ops = bar group row pair.0 ∷ stage (staged ∷ []) ∷ u.ops }) moved in
      let h4 = barrier-returned group row _ (λ _. pure tt) v h3 in
      (
        compute_token rt.session_nonce group.group_id pair.0,
        compute_token rt.session_nonce group.group_id pair.1,
        cs,
        (
          bar group row pair.1
              ∷ kernel cs
              ∷ bar group row pair.0
              ∷ stage (staged ∷ [])
              ∷ ingest (t.data_ptr ∷ [])
              ∷ [],
          sym (ap (λ r. r.1.ops) h4)
              ∙ ap (λ w. bar group row pair.1 ∷ w.ops) at
              ∙ ap
                  (λ ops.
                    bar group row pair.1
                    ∷ kernel cs
                    ∷ bar group row pair.0
                    ∷ stage (staged ∷ [])
                    ∷ ops)
                  before,
          refl,
        ),
        moves,
      )

  pub put_receiver :
      (s : State) {s' : State}
      → p2p_protocol rt src_rank dst_rank t receiver put requested s ≡ (ok tt, s')
      → (t0 : ℕ) × (t1 : ℕ) × Enqueues s s'
          (put_received t0 t1 (move (cb_local_ptr rt) t.data_ptr n))
  unfolding p2p_body events
  put_receiver s {s'} h =
      let (group, row, pair, u, before, h1) =
        protocol-returned rt src_rank dst_rank t receiver put requested s h in
      let h2 = barrier-returned group row _ _ u h1 in
      let h3 =
        barrier-returned group row _ _ (record u { ops = bar group row pair.0 ∷ u.ops }) h2 in
      let unloaded : Copy = move (cb_local_ptr rt) t.data_ptr n in
      (
        compute_token rt.session_nonce group.group_id pair.0,
        compute_token rt.session_nonce group.group_id pair.1,
        (
          stage (unloaded ∷ [])
              ∷ bar group row pair.1
              ∷ bar group row pair.0
              ∷ ingest (t.data_ptr ∷ [])
              ∷ [],
          sym (ap (λ r. r.1.ops) h3)
              ∙ ap
                  (λ ops. stage (unloaded ∷ []) ∷ bar group row pair.1 ∷ bar group row pair.0 ∷ ops)
                  before,
          refl,
        ),
      )

  pub get_sender :
      (s : State) {s' : State}
      → p2p_protocol rt src_rank dst_rank t sender get requested s ≡ (ok tt, s')
      → (t0 : ℕ) × (t1 : ℕ) × Enqueues s s' (get_sent t0 t1 staged)
  unfolding p2p_body events
  get_sender s {s'} h =
      let (group, row, pair, u, before, h1) =
        protocol-returned rt src_rank dst_rank t sender get requested s h in
      let h2 = barrier-returned group row _ _ (record u { ops = stage (staged ∷ []) ∷ u.ops }) h1 in
      let h3 =
        barrier-returned group row _ (λ _. pure tt)
          (record u { ops = bar group row pair.0 ∷ stage (staged ∷ []) ∷ u.ops }) h2 in
      (
        compute_token rt.session_nonce group.group_id pair.0,
        compute_token rt.session_nonce group.group_id pair.1,
        (
          bar group row pair.1
              ∷ bar group row pair.0
              ∷ stage (staged ∷ [])
              ∷ ingest (t.data_ptr ∷ [])
              ∷ [],
          sym (ap (λ r. r.1.ops) h3)
              ∙ ap (λ ops. bar group row pair.1 ∷ bar group row pair.0 ∷ stage (staged ∷ []) ∷ ops)
                  before,
          refl,
        ),
      )

  pub get_receiver :
      (s : State) {s' : State}
      → 0 < rt.num_sms
      → Apart (rt.peer_comm_ptrs src_rank + comm_buf_offset) n t.data_ptr n
      → p2p_protocol rt src_rank dst_rank t receiver get requested s ≡ (ok tt, s')
      → (t0 : ℕ) × (t1 : ℕ) × (cs : List Copy) × Enqueues s s' (get_received t0 t1 cs)
        × MovesOne (rt.peer_comm_ptrs src_rank + comm_buf_offset) t.data_ptr n cs
  unfolding p2p_body events
  get_receiver s {s'} sms_pos apart h =
      let (group, row, pair, u, before, h1) =
        protocol-returned rt src_rank dst_rank t receiver get requested s h in
      let h2 = barrier-returned group row _ _ u h1 in
      let aligned = n % 16 == 0 && t.data_ptr % 16 == 0 in
      let (_, v, moved, h3) =
        bind-returned
          (p2p_copy rt (rt.peer_comm_ptrs src_rank + comm_buf_offset) t.data_ptr n aligned)
          (λ _.
            barrier_on group row (compute_token rt.session_nonce group.group_id pair.1) >> pure tt)
          (record u { ops = bar group row pair.0 ∷ u.ops }) h2 in
      let (cs, at, moves) =
        p2p_copy-Moved rt (rt.peer_comm_ptrs src_rank + comm_buf_offset) t.data_ptr n sms_pos apart
          aligned (record u { ops = bar group row pair.0 ∷ u.ops }) moved in
      let h4 = barrier-returned group row _ (λ _. pure tt) v h3 in
      (
        compute_token rt.session_nonce group.group_id pair.0,
        compute_token rt.session_nonce group.group_id pair.1,
        cs,
        (
          bar group row pair.1 ∷ kernel cs ∷ bar group row pair.0 ∷ ingest (t.data_ptr ∷ []) ∷ [],
          sym (ap (λ r. r.1.ops) h4)
              ∙ ap (λ w. bar group row pair.1 ∷ w.ops) at
              ∙ ap (λ ops. bar group row pair.1 ∷ kernel cs ∷ bar group row pair.0 ∷ ops) before,
          refl,
        ),
        moves,
      )
