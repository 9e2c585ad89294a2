-- ===== src/Runtime/PointToPoint/RoundTrip.antt =====
-- The two ends of a point-to-point call together: what was in the sender's tensor is in the
-- receiver's.
use group_free_collectives.Base.{
  ℕ, ◌+◌, ◌<◌, ◌≡◌, sym, ap, subst, ◌∙◌, ◌==◌, not, Option, List, [], ◌∷◌, ◌++◌, ok,
}
use group_free_collectives.Kernel.Memory.{
  Memory, Copy, run, store, run-append, run_cons, run_nothing, run-staged, run-unloaded,
}
use group_free_collectives.Kernel.Strided.{Apart}
use group_free_collectives.Kernel.Pull.Raw.{MovesOne-byte}
use group_free_collectives.Runtime.State.{Setup, Tensor, State, demand}
use group_free_collectives.Runtime.Layout.{or_else}
use group_free_collectives.Runtime.Paths.{comm_buf_offset}
use group_free_collectives.Runtime.Collectives.Atomic.{demand-Quiet, bind-passed}
use group_free_collectives.Runtime.PointToPoint.{
  cb_local_ptr, p2p_put, p2p_put_recv, p2p_get, p2p_get_serve,
}
use group_free_collectives.Runtime.PointToPoint.Joint.{
  Event, Joint, tokens, put_sent, put_received, get_sent, get_received, put-Joint, get-Joint,
  Joint-put, Joint-get,
}
use group_free_collectives.Runtime.PointToPoint.Ends.{
  move, Enqueues, put_sender, put_receiver, get_sender, get_receiver,
}

-- One more copy at the end.
last-eq :
    (cs : List Copy) (d : Copy) (m : Memory) {n : Memory}
    → run cs m ≡ n
    → store d n ≡ run (cs ++ d ∷ []) m
last-eq cs d m {n} e = sym (
    run-append cs (d ∷ []) m
    ∙ run_cons d [] (run cs m)
    ∙ run_nothing (store d (run cs m))
    ∙ ap (store d) e)

-- What the two ends have enqueued: in every joint run of it, in which the ends' copies interleave
-- freely and only the barriers are passed together, `n` bytes are brought from `src` to `dst`; and
-- where the barriers of both carry the same tokens, there is a joint run from every memory.
pub record Carries (src dst n : ℕ) (s s' r r' : State) : Type 0 where
  pub sent : List Event
  pub received : List Event
  pub sent_log : Enqueues s s' sent
  pub received_log : Enqueues r r' received
  pub bytes :
      (m m' : Memory) (b : ℕ) → b < n → Joint m sent received m' → m' (dst + b) ≡ m (src + b)
  pub completes :
      tokens sent ≡ tokens received → (m : Memory) → (m' : Memory) × Joint m sent received m'

-- The two ends of one call, on the rank that sends and on the rank that receives, in one address
-- space: each names the other's buffer as the other does.
module _ (rs rr : Setup) (src dst : Tensor) (requested : Option ℕ)
    (same : or_else requested src.nbytes ≡ or_else requested dst.nbytes) (s r : State) where
  -- A put and its reception that both return have enqueued work that brings the sender's bytes into
  -- the receiver's tensor, however the copies of the two ranks interleave, as long as they pass
  -- their barriers together; and they can come to their ends where their barriers carry the same
  -- tokens. This holds where both ask for the same number of bytes, the sender has multiprocessors,
  -- its table of peers names the receiver's buffer, and the two buffers do not overlap.
  pub p2p_put_roundtrip :
      {s' r' : State}
      → rs.peer_comm_ptrs rr.rank ≡ rr.comm_local_ptr
      → 0 < rs.num_sms
      → Apart
          (cb_local_ptr rs)
          (or_else requested src.nbytes)
          (cb_local_ptr rr)
          (or_else requested src.nbytes)
      → p2p_put rs rr.rank src requested s ≡ (ok tt, s')
      → p2p_put_recv rr rs.rank dst requested r ≡ (ok tt, r')
      → Carries src.data_ptr dst.data_ptr (or_else requested src.nbytes) s s' r r'
  unfolding p2p_put p2p_put_recv
  p2p_put_roundtrip window sms_pos apart hs hr =
      let n = or_else requested src.nbytes in
      let (_, _, hs1) = bind-passed (demand (not (rr.rank == rs.rank))) _ (demand-Quiet _) hs in
      let (_, _, hr1) = bind-passed (demand (not (rs.rank == rr.rank))) _ (demand-Quiet _) hr in
      let placed : rs.peer_comm_ptrs rr.rank + comm_buf_offset ≡ cb_local_ptr rr =
        ap (λ (x : ℕ). x + comm_buf_offset) window in
      let (t0, t1, cs, sent, moving) =
        put_sender rs rs.rank rr.rank src requested s sms_pos
          (subst (λ d. Apart (cb_local_ptr rs) n d n) (sym placed) apart) hs1 in
      let staged = move src.data_ptr (cb_local_ptr rs) n in
      let unloaded = move (cb_local_ptr rr) dst.data_ptr (or_else requested dst.nbytes) in
      let (u0, u1, got) = put_receiver rr rs.rank rr.rank dst requested r hr1 in
      record {
        sent = put_sent t0 t1 staged cs;
        received = put_received u0 u1 unloaded;
        sent_log = sent;
        received_log = got;
        bytes = λ m m' b lt j.
            ap (λ f. f (dst.data_ptr + b))
              (put-Joint t0 t1 u0 u1 staged unloaded cs m j
                ∙ last-eq (staged ∷ cs) unloaded m (run_cons staged cs m))
            ∙ run-unloaded (staged ∷ cs) unloaded m b (subst (λ x. b < x) same lt)
            ∙ run-staged staged cs m (cb_local_ptr rr + b) b lt λ m'.
              subst (λ d. run cs m' (d + b) ≡ m' (cb_local_ptr rs + b)) placed
                (MovesOne-byte (cb_local_ptr rs) (rs.peer_comm_ptrs rr.rank + comm_buf_offset) n
                  moving m' b lt);
        completes = λ e m. Joint-put t0 t1 u0 u1 staged unloaded cs m e;
      }

  -- A get and its serving that both return have enqueued work that brings the sender's bytes into
  -- the receiver's tensor, however the copies of the two ranks interleave, as long as they pass
  -- their barriers together; and they can come to their ends where their barriers carry the same
  -- tokens. This holds where both ask for the same number of bytes, the receiver has
  -- multiprocessors, its table of peers names the sender's buffer, and that buffer and the
  -- receiver's tensor do not overlap.
  pub p2p_get_roundtrip :
      {s' r' : State}
      → rr.peer_comm_ptrs rs.rank ≡ rs.comm_local_ptr
      → 0 < rr.num_sms
      → Apart
          (cb_local_ptr rs)
          (or_else requested dst.nbytes)
          dst.data_ptr
          (or_else requested dst.nbytes)
      → p2p_get_serve rs rr.rank src requested s ≡ (ok tt, s')
      → p2p_get rr rs.rank dst requested r ≡ (ok tt, r')
      → Carries src.data_ptr dst.data_ptr (or_else requested src.nbytes) s s' r r'
  unfolding p2p_get p2p_get_serve
  p2p_get_roundtrip window sms_pos apart hs hr =
      let n = or_else requested dst.nbytes in
      let (_, _, hs1) = bind-passed (demand (not (rr.rank == rs.rank))) _ (demand-Quiet _) hs in
      let (_, _, hr1) = bind-passed (demand (not (rs.rank == rr.rank))) _ (demand-Quiet _) hr in
      let placed : rr.peer_comm_ptrs rs.rank + comm_buf_offset ≡ cb_local_ptr rs =
        ap (λ (x : ℕ). x + comm_buf_offset) window in
      let (u0, u1, cs, received, moving) =
        get_receiver rr rs.rank rr.rank dst requested r sms_pos
          (subst (λ d. Apart d n dst.data_ptr n) (sym placed) apart) hr1 in
      let staged = move src.data_ptr (cb_local_ptr rs) (or_else requested src.nbytes) in
      let (t0, t1, given) = get_sender rs rs.rank rr.rank src requested s hs1 in
      record {
        sent = get_sent t0 t1 staged;
        received = get_received u0 u1 cs;
        sent_log = given;
        received_log = received;
        bytes = λ m m' b lt j.
            ap (λ f. f (dst.data_ptr + b))
              (get-Joint t0 t1 u0 u1 staged staged cs m j ∙ sym (run_cons staged cs m))
            ∙ run-staged staged cs m (dst.data_ptr + b) b lt λ m'.
              subst (λ d. run cs m' (dst.data_ptr + b) ≡ m' (d + b)) placed
                (MovesOne-byte (rr.peer_comm_ptrs rs.rank + comm_buf_offset) dst.data_ptr n moving
                  m' b (subst (λ x. b < x) same lt));
        completes = λ e m. Joint-get t0 t1 u0 u1 staged staged cs m e;
      }
