-- ===== src/Runtime/PointToPoint.antt =====
-- The four point-to-point calls of gfc/runtime.py and the protocol that they share.
pub mod Joint
pub mod Transfer
pub mod Ends
pub mod RoundTrip
use group_free_collectives.Base.{
  ℕ, ◌+◌, ◌%◌, Bool, false, not, ◌&&◌, Option, none, some, [], ◌∷◌, ltb, leb, ◌==◌, if◌then◌else◌,
  ok,
}
use group_free_collectives.Hash.{compute_token}
use group_free_collectives.Group.{GroupDescriptor, is_member}
use group_free_collectives.Kernel.Pull.{launch_pull_copy}
use group_free_collectives.Kernel.Width.{vec_for}
use group_free_collectives.Kernel.CopyEngine.{launch_p2p_copy_engine}
use group_free_collectives.Kernel.Tma.{default_tile_bytes, launch_p2p_copy_tma}
use group_free_collectives.Runtime.State.{
  Setup, Tensor, Act, ingest, stage, pure, demand, enqueue, ◌>>=◌, ◌>>◌,
}
use group_free_collectives.Runtime.Registry.{deref, register_group}
use group_free_collectives.Runtime.Layout.{or_else}
use group_free_collectives.Runtime.Paths.{
  comm_buf_offset, barrier_on, take_pair, launch_kernel, launch_copies,
}
use group_free_collectives.Runtime.Collectives.{group_ranks_row}

pub data Role : Type 0 where
  sender : Role
  receiver : Role

pub data Protocol : Type 0 where
  put : Protocol
  get : Protocol

-- The object behind the handle that `register_group` returned.
abbrev pub dereferenced : ℕ → Act GroupDescriptor
dereferenced h s = elim (deref h s) [
  | none ↦
      (demand false
          >> pure
              (record { group_id = 0; ranks = []; local_index = none; size = 0; ranks_dev = none }))
        s
  | some d ↦ (ok d, s)
]

module _ (rt : Setup) where
  abbrev pub cb_local_ptr : ℕ
  cb_local_ptr = rt.comm_local_ptr + comm_buf_offset

  -- The copy that the protocol moves between the two barriers: on its own copy engine, by TMA
  -- where `tma_ok`, or by the vector kernel, which put and get both end in.
  unfoldable pub p2p_copy : ℕ → ℕ → ℕ → Bool → Act (Unit {0})
  p2p_copy src dst nbytes tma_ok =
      if rt.copy_engine_enabled
      then launch_copies (launch_p2p_copy_engine rt.memcpy src dst nbytes)
      else launch_kernel (
          if rt.tma_enabled && tma_ok
          then launch_p2p_copy_tma src dst nbytes rt.num_sms default_tile_bytes
          else launch_pull_copy src dst nbytes (vec_for (src ∷ dst ∷ []) nbytes) rt.copy_sms)

  unfoldable pub p2p_body : Role → Protocol → ℕ → ℕ → Tensor → ℕ → Act (Unit {0})
  unfolding p2p_copy
  p2p_body sender put src_rank dst_rank t nbytes =
      p2p_copy cb_local_ptr (rt.peer_comm_ptrs dst_rank + comm_buf_offset) nbytes (nbytes % 16 == 0)
  p2p_body receiver get src_rank dst_rank t nbytes =
      p2p_copy (rt.peer_comm_ptrs src_rank + comm_buf_offset) t.data_ptr nbytes
        (nbytes % 16 == 0 && t.data_ptr % 16 == 0)
  p2p_body receiver put src_rank dst_rank t nbytes = pure tt
  p2p_body sender get src_rank dst_rank t nbytes = pure tt

  abbrev pub stage_of_sender : Role → Tensor → ℕ → Act (Unit {0})
  stage_of_sender sender t nbytes =
      enqueue (stage (record { src = t.data_ptr; dst = cb_local_ptr; len = nbytes } ∷ []))
  stage_of_sender receiver t nbytes = pure tt

  abbrev pub unload : Role → Protocol → Tensor → ℕ → Act (Unit {0})
  unload receiver put t nbytes =
      enqueue (stage (record { src = cb_local_ptr; dst = t.data_ptr; len = nbytes } ∷ []))
  unload receiver get t nbytes = pure tt
  unload sender protocol t nbytes = pure tt

  -- `_p2p_protocol`.
  unfoldable pub p2p_protocol : ℕ → ℕ → Tensor → Role → Protocol → Option ℕ → Act (Unit {0})
  unfolding register_group group_ranks_row take_pair barrier_on p2p_body
  p2p_protocol src_rank dst_rank t role protocol requested = do
    demand (t.is_cuda && t.device == rt.device)
    demand t.is_contiguous
    let nbytes = or_else requested t.nbytes
    demand (ltb 0 nbytes && leb nbytes t.nbytes)
    demand (leb nbytes rt.config.max_collective_bytes)
    h ← register_group rt (src_rank ∷ dst_rank ∷ []) none
    group ← dereferenced h
    demand (is_member group)
    enqueue (ingest (t.data_ptr ∷ []))
    pair ← take_pair group.group_id
    row ← group_ranks_row rt group
    stage_of_sender role t nbytes
    barrier_on group row (compute_token rt.session_nonce group.group_id pair.0)
    p2p_body role protocol src_rank dst_rank t nbytes
    barrier_on group row (compute_token rt.session_nonce group.group_id pair.1)
    unload role protocol t nbytes

  unfoldable pub p2p_put : ℕ → Tensor → Option ℕ → Act (Unit {0})
  unfolding p2p_protocol
  p2p_put dst_rank src nbytes = do
    demand (not (dst_rank == rt.rank))
    p2p_protocol rt.rank dst_rank src sender put nbytes

  unfoldable pub p2p_put_recv : ℕ → Tensor → Option ℕ → Act (Unit {0})
  unfolding p2p_protocol
  p2p_put_recv src_rank dst nbytes = do
    demand (not (src_rank == rt.rank))
    p2p_protocol src_rank rt.rank dst receiver put nbytes

  unfoldable pub p2p_get : ℕ → Tensor → Option ℕ → Act (Unit {0})
  unfolding p2p_protocol
  p2p_get src_rank dst nbytes = do
    demand (not (src_rank == rt.rank))
    p2p_protocol src_rank rt.rank dst receiver get nbytes

  unfoldable pub p2p_get_serve : ℕ → Tensor → Option ℕ → Act (Unit {0})
  unfolding p2p_protocol
  p2p_get_serve dst_rank src nbytes = do
    demand (not (dst_rank == rt.rank))
    p2p_protocol rt.rank dst_rank src sender get nbytes
