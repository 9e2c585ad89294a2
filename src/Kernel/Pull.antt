-- ===== src/Kernel/Pull.antt =====
-- The vectorised pull kernels: gfc/kernels/all_gather.py, all2all.py and copy_pull.py. A peer's
-- rank is `ranks peer_idx`, the base of its comm_buf in this address space `cb_ptrs rank`.
pub mod Coverage
pub mod Ring
pub mod Laws
pub mod Raw
use group_free_collectives.Base.{
  ℕ, zero, suc, ◌+◌, ◌-◌, ◌*◌, ◌/◌, ◌%◌, min, max, Bool, true, false, not, ◌&&◌, ◌||◌, Option, none,
  some, List, [], ◌∷◌, ◌++◌, ltb, leb, ◌==◌, if◌then◌else◌, cdiv, range, Outcome, ok,
  assertion_error, check, ◌>>=◌, ◌>>◌,
}
use group_free_collectives.Base.Membership.{concat_map}
use group_free_collectives.Kernel.Memory.{Copy}
use group_free_collectives.Kernel.Grid.{persistent}

abbrev pub default_block_bytes : ℕ
default_block_bytes = 64 * 1024

-- `_dtype_for_vec`, the element size.
unfoldable pub dtype_for_vec : ℕ → ℕ
dtype_for_vec vec_bytes =
    if leb 16 vec_bytes then 16 else if leb 8 vec_bytes then 8 else if vec_bytes == 4 then 4 else 1

-- The lanes `base .. base + block` of a tile, masked by `offs < n_full`, of `elt` bytes each.
abbrev pub lane_copy : ℕ → ℕ → ℕ → ℕ → Copy
lane_copy src_base dst_base elt offs = record {
  src = src_base + offs * elt;
  dst = dst_base + offs * elt;
  len = elt;
}

unfoldable pub tile_copies : ℕ → ℕ → ℕ → ℕ → ℕ → ℕ → List Copy
tile_copies src_base dst_base elt block n_full base_elt =
    concat_map
      (λ lane.
        let offs = base_elt + lane in
        if ltb offs n_full then lane_copy src_base dst_base elt offs ∷ [] else [])
      (range block)

-- The bytes `tail_base .. tail_base + elt`, masked by `tail_offs < copy_bytes`.
unfoldable pub tail_copies : ℕ → ℕ → ℕ → ℕ → ℕ → List Copy
tail_copies src_base dst_base elt n_full copy_bytes =
    concat_map
      (λ lane.
        let offs = n_full * elt + lane in
        if ltb offs copy_bytes
        then record { src = src_base + offs; dst = dst_base + offs; len = 1 } ∷ []
        else [])
      (range elt)

-- What a launch hands the kernel besides its addresses.
pub record PullShape : Type 0 where
  pub elt_bytes : ℕ
  pub block_elts : ℕ
  pub has_tail : Bool
  pub grid : ℕ

-- `pull_copy_kernel`.
pub pull_copy_kernel : ℕ → ℕ → ℕ → PullShape → List Copy
pull_copy_kernel src dst nbytes s =
    let n_full = nbytes / s.elt_bytes in
    let n_tiles = cdiv n_full s.block_elts in
    concat_map
      (λ pid.
        concat_map
          (λ tile_pid.
            tile_copies src dst s.elt_bytes s.block_elts n_full (tile_pid * s.block_elts))
          (persistent n_tiles pid n_tiles s.grid)
        ++ (if s.has_tail && pid == 0 then tail_copies src dst s.elt_bytes n_full nbytes else []))
      (range s.grid)

-- The loop and the tail that `all_gather_pull_kernel` and `all2all_pull_kernel` share, over the
-- source and destination base of each peer: tile-major, and the peers from the next one round.
unfoldable pub ring_index : ℕ → ℕ → ℕ → ℕ
ring_index self_local_index group_size peer_delta = (peer_delta + self_local_index + 1) % group_size

module _ (src_of dst_of : ℕ → ℕ) (self_local_index copy_bytes group_size : ℕ) (s : PullShape) where
  abbrev pub n_full : ℕ
  n_full = copy_bytes / s.elt_bytes

  -- One round of the loop.
  unfoldable pub ring_task : ℕ → List Copy
  ring_task task =
      let tile_pid = task / group_size in
      let peer_idx = ring_index self_local_index group_size (task - tile_pid * group_size) in
      tile_copies (src_of peer_idx) (dst_of peer_idx) s.elt_bytes s.block_elts n_full
        (tile_pid * s.block_elts)

  -- `if HAS_TAIL: if pid < GROUP_SIZE: …`.
  unfoldable pub ring_tail : ℕ → List Copy
  ring_tail pid =
      let peer_idx = ring_index self_local_index group_size pid in
      let tail = tail_copies (src_of peer_idx) (dst_of peer_idx) s.elt_bytes n_full copy_bytes in
      if s.has_tail && ltb pid group_size then tail else []

  -- One program.
  unfoldable pub ring_program : ℕ → List Copy
  ring_program pid =
      let total_tiles = group_size * cdiv n_full s.block_elts in
      concat_map ring_task (persistent total_tiles pid total_tiles s.grid) ++ ring_tail pid

  pub ring_pull : List Copy
  ring_pull = concat_map ring_program (range s.grid)

module _ (ranks : ℕ → ℕ) (cb_ptrs : ℕ → ℕ) where
  -- `all_gather_pull_kernel`.
  unfoldable pub all_gather_pull_kernel : ℕ → ℕ → ℕ → ℕ → ℕ → ℕ → PullShape → List Copy
  all_gather_pull_kernel dst offset self_local_index copy_bytes dst_stride group_size s =
      ring_pull (λ peer_idx. cb_ptrs (ranks peer_idx) + offset)
        (λ peer_idx. dst + peer_idx * dst_stride) self_local_index copy_bytes group_size s

  -- `all2all_pull_kernel`.
  unfoldable pub all2all_pull_kernel : ℕ → ℕ → ℕ → ℕ → ℕ → ℕ → ℕ → PullShape → List Copy
  all2all_pull_kernel dst offset self_local_index copy_bytes src_slice_stride dst_stride group_size
        s =
      ring_pull
        (λ peer_idx. cb_ptrs (ranks peer_idx) + offset + self_local_index * src_slice_stride)
        (λ peer_idx. dst + peer_idx * dst_stride) self_local_index copy_bytes group_size s

-- The geometry that the two ring launchers compute, in their order.
unfoldable pub ring_shape : ℕ → ℕ → ℕ → ℕ → ℕ → PullShape
unfolding dtype_for_vec
ring_shape copy_bytes group_size vec_bytes num_sms block_bytes =
    let elt_bytes = dtype_for_vec vec_bytes in
    let full = copy_bytes / elt_bytes in
    let has_tail = not (copy_bytes % elt_bytes == 0) in
    let block_elts = max (block_bytes / elt_bytes) 1 in
    let n_block = if ltb 0 full then (full + block_elts - 1) / block_elts else 0 in
    let total_tasks =
      if has_tail then max (group_size * n_block) group_size else max (group_size * n_block) 1 in
    record {
      elt_bytes = elt_bytes;
      block_elts = block_elts;
      has_tail = has_tail;
      grid = min num_sms total_tasks;
    }

abbrev pub or_default : Option ℕ → ℕ → ℕ
or_default none d = d
or_default (some n) d = n

module _ (ranks : ℕ → ℕ) (cb_ptrs : ℕ → ℕ) where
  -- `launch_all_gather_pull`: the copies of the launched kernel.
  unfoldable pub launch_all_gather_pull : ℕ → ℕ → ℕ → ℕ → ℕ → ℕ → ℕ → Option ℕ → Outcome (List Copy)
  launch_all_gather_pull dst offset self_local_index slice_bytes group_size vec_bytes num_sms
        dst_stride_bytes =
      do
        check (ltb 0 slice_bytes) assertion_error
        check (ltb 0 group_size) assertion_error
        check (ltb 0 num_sms) assertion_error
        let stride = or_default dst_stride_bytes slice_bytes
        check (leb slice_bytes stride) assertion_error
        ok (
            all_gather_pull_kernel ranks cb_ptrs dst offset self_local_index slice_bytes stride
              group_size (ring_shape slice_bytes group_size vec_bytes num_sms default_block_bytes))

  -- `launch_all2all_pull`.
  unfoldable pub launch_all2all_pull :
      ℕ → ℕ → ℕ → ℕ → ℕ → ℕ → ℕ → Option ℕ → Option ℕ → Option ℕ → Outcome (List Copy)
  launch_all2all_pull dst offset self_local_index slice_bytes group_size vec_bytes num_sms
        copy_bytes src_slice_stride dst_stride_bytes =
      do
        let n = or_default copy_bytes slice_bytes
        let src_stride = or_default src_slice_stride slice_bytes
        let dst_stride = or_default dst_stride_bytes slice_bytes
        check (ltb 0 n) assertion_error
        check (leb n src_stride) assertion_error
        check (leb n dst_stride) assertion_error
        check (ltb 0 group_size) assertion_error
        check (ltb 0 num_sms) assertion_error
        ok (
            all2all_pull_kernel ranks cb_ptrs dst offset self_local_index n src_stride dst_stride
              group_size (ring_shape n group_size vec_bytes num_sms default_block_bytes))

-- `launch_pull_copy`, and `launch_p2p_put_copy`, which is the same function.
unfoldable pub launch_pull_copy : ℕ → ℕ → ℕ → ℕ → ℕ → Outcome (List Copy)
unfolding dtype_for_vec
launch_pull_copy src dst nbytes vec_bytes num_sms = do
  check (ltb 0 nbytes) assertion_error
  check (vec_bytes == 1 || vec_bytes == 4 || vec_bytes == 8 || vec_bytes == 16) assertion_error
  check (ltb 0 num_sms) assertion_error
  let elt_bytes = dtype_for_vec vec_bytes
  let full = nbytes / elt_bytes
  let block_elts = max (default_block_bytes / elt_bytes) 1
  let grid_elems = if ltb 0 full then (full + block_elts - 1) / block_elts else 1
  ok (
      pull_copy_kernel src dst nbytes (record {
        elt_bytes = elt_bytes;
        block_elts = block_elts;
        has_tail = not (nbytes % elt_bytes == 0);
        grid = min num_sms grid_elems;
      }))
