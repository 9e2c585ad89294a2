-- ===== src/Kernel/Pull/Laws.antt =====
-- What a successful launch of a pull kernel moves.
use group_free_collectives.Base.{
  check, assertion_error, ℕ, ◌+◌, ◌*◌, ◌%◌, ◌≤◌, ◌<◌, ◌≡◌, ◌⊎◌, inl, inr, Option, List, arith, ok,
  >>=-ok, ok-injective, subst, ltb, leb, ◌==◌, Bool-cases,
}
use group_free_collectives.Kernel.Memory.{Copy}
use group_free_collectives.Kernel.Strided.{Apart, Moves, strided-Piece, strided-Moves}
use group_free_collectives.Kernel.Pull.{
  PullShape, dtype_for_vec, default_block_bytes, ring_shape, ring_pull, or_default,
  all_gather_pull_kernel, all2all_pull_kernel, launch_all_gather_pull, launch_all2all_pull,
}
use group_free_collectives.Kernel.Pull.Ring.{TailReached, ring_pull-Agrees, ring_pull-Written}

pub dtype_for_vec_pos : (v : ℕ) → 0 < dtype_for_vec v
unfolding dtype_for_vec
dtype_for_vec_pos v = ground arith

module _ (n g v sms block : ℕ) where
  abbrev shape : PullShape
  shape = ring_shape n g v sms block

  shape_pos :
      0 < sms → (0 < shape.elt_bytes) × (0 < shape.block_elts) × ((0 < n) → 0 < g → 0 < shape.grid)
  unfolding ring_shape
  shape_pos h = (ground (arith, dtype_for_vec_pos v), ground arith, λ a b. ground arith)

  shape-TailReached : (n % dtype_for_vec v ≡ 0) ⊎ (g ≤ sms) → TailReached n g shape
  unfolding ring_shape
  shape-TailReached (inl e) = inl e
  shape-TailReached (inr h) = elim (Bool-cases (n % dtype_for_vec v == 0)) [
    | inl e ↦ inl (ground arith)
    | inr e ↦ inr (ground arith, ground arith)
  ]

module _ (src_of : ℕ → ℕ) (dst stride self_idx n g v sms block : ℕ) (n_pos : 0 < n) (g_pos : 0 < g)
    (sms_pos : 0 < sms) (fits : n ≤ stride) (reached : (n % dtype_for_vec v ≡ 0) ⊎ (g ≤ sms))
    (apart : (i : ℕ) → i < g → Apart (src_of i) n dst (g * stride)) where
  ring_pull-Moves :
      Moves src_of dst stride n g
        (ring_pull src_of (λ i. dst + i * stride) self_idx n g (ring_shape n g v sms block))
  ring_pull-Moves =
      let (elt_pos, block_pos, grid_pos) = shape_pos n g v sms block sms_pos in
      strided-Moves src_of dst stride n g fits apart _
        (ring_pull-Agrees src_of (λ i. dst + i * stride) self_idx n g _ g_pos
          (strided-Piece src_of dst stride n g fits apart))
        (λ i b p q.
          ring_pull-Written src_of (λ i. dst + i * stride) self_idx n g _ elt_pos block_pos
            (grid_pos n_pos g_pos) (shape-TailReached n g v sms block reached) i p b q)

-- Where each peer's slice lies.
abbrev pub gather_src : (ℕ → ℕ) → (ℕ → ℕ) → ℕ → ℕ → ℕ
gather_src ranks cb_ptrs offset i = cb_ptrs (ranks i) + offset

-- Where the slice for this rank lies, inside each peer's buffer.
abbrev pub exchange_src : (ℕ → ℕ) → (ℕ → ℕ) → ℕ → ℕ → ℕ → ℕ → ℕ
exchange_src ranks cb_ptrs offset self_idx src_stride i =
    cb_ptrs (ranks i) + offset + self_idx * src_stride

module _ (ranks cb_ptrs : ℕ → ℕ) (dst offset self_idx slice_bytes g v sms : ℕ) where
  -- A launch of the all-gather pull kernel that its asserts accept moves each peer's slice to its
  -- place in the output and changes no other byte, where the vector width divides the slice or
  -- there are programs for every peer's tail, and the slices lie outside the output.
  pub launch_all_gather_pull-Moves :
      (dst_stride : Option ℕ) {cs : List Copy}
      → launch_all_gather_pull ranks cb_ptrs dst offset self_idx slice_bytes g v sms dst_stride
        ≡ ok cs
      → (slice_bytes % dtype_for_vec v ≡ 0) ⊎ (g ≤ sms)
      → ((i : ℕ)
          → i < g
          → Apart
              (gather_src ranks cb_ptrs offset i)
              slice_bytes
              dst
              (g * or_default dst_stride slice_bytes))
      → Moves
          (gather_src ranks cb_ptrs offset)
          dst
          (or_default dst_stride slice_bytes)
          slice_bytes
          g
          cs
  unfolding launch_all_gather_pull all_gather_pull_kernel
  launch_all_gather_pull-Moves ds {cs} h reached apart =
      let (u1, n_ok, h1) = >>=-ok (check (ltb 0 slice_bytes) assertion_error) _ h in
      let (u2, g_ok, h2) = >>=-ok (check (ltb 0 g) assertion_error) _ h1 in
      let (u3, sms_ok, h3) = >>=-ok (check (ltb 0 sms) assertion_error) _ h2 in
      let (u4, fits_ok, h4) =
        >>=-ok (check (leb slice_bytes (or_default ds slice_bytes)) assertion_error) _ h3 in
      subst (Moves (gather_src ranks cb_ptrs offset) dst (or_default ds slice_bytes) slice_bytes g)
        (ok-injective h4)
        (ring_pull-Moves (gather_src ranks cb_ptrs offset) dst (or_default ds slice_bytes) self_idx
          slice_bytes g v sms default_block_bytes (ground arith) (ground arith) (ground arith)
          (ground arith) reached apart)

module _ (ranks cb_ptrs : ℕ → ℕ) (dst offset self_idx slice_bytes g v sms : ℕ) where
  -- A launch of the all2all pull kernel that its asserts accept moves this rank's slice of each
  -- peer to its place in the output and changes no other byte, where the vector width divides the
  -- bytes copied or there are programs for every peer's tail, and the slices lie outside the output.
  pub launch_all2all_pull-Moves :
      (copy_bytes src_stride dst_stride : Option ℕ) {cs : List Copy}
      → launch_all2all_pull ranks cb_ptrs dst offset self_idx slice_bytes g v sms copy_bytes
          src_stride dst_stride
        ≡ ok cs
      → (or_default copy_bytes slice_bytes % dtype_for_vec v ≡ 0) ⊎ (g ≤ sms)
      → ((i : ℕ)
          → i < g
          → Apart
              (exchange_src ranks cb_ptrs offset self_idx (or_default src_stride slice_bytes) i)
              (or_default copy_bytes slice_bytes)
              dst
              (g * or_default dst_stride slice_bytes))
      → Moves
          (exchange_src ranks cb_ptrs offset self_idx (or_default src_stride slice_bytes))
          dst
          (or_default dst_stride slice_bytes)
          (or_default copy_bytes slice_bytes)
          g
          cs
  unfolding launch_all2all_pull all2all_pull_kernel
  launch_all2all_pull-Moves cb ss ds {cs} h reached apart =
      let n = or_default cb slice_bytes in
      let (u1, n_ok, h1) = >>=-ok (check (ltb 0 n) assertion_error) _ h in
      let (u2, s_ok, h2) =
        >>=-ok (check (leb n (or_default ss slice_bytes)) assertion_error) _ h1 in
      let (u3, fits_ok, h3) =
        >>=-ok (check (leb n (or_default ds slice_bytes)) assertion_error) _ h2 in
      let (u4, g_ok, h4) = >>=-ok (check (ltb 0 g) assertion_error) _ h3 in
      let (u5, sms_ok, h5) = >>=-ok (check (ltb 0 sms) assertion_error) _ h4 in
      subst
        (Moves (exchange_src ranks cb_ptrs offset self_idx (or_default ss slice_bytes)) dst
          (or_default ds slice_bytes) n g)
        (ok-injective h5)
        (ring_pull-Moves (exchange_src ranks cb_ptrs offset self_idx (or_default ss slice_bytes))
          dst (or_default ds slice_bytes) self_idx n g v sms default_block_bytes (ground arith)
          (ground arith) (ground arith) (ground arith) reached apart)
