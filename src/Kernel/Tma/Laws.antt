-- ===== src/Kernel/Tma/Laws.antt =====
-- What the TMA launches move: a descriptor clips each tile to its segment, so the tiles of a segment
-- are the segment.
use native.Mathlib.Nat.{mod-lt, mul_comm, lt_of_mul-lt-mul_right}
use group_free_collectives.Base.{
  ℕ, ◌+◌, ◌-◌, ◌*◌, ◌/◌, ◌<◌, ◌≤◌, ◌≡◌, dec_le, refl, subst, ap, ◌∙◌, min, List, Bool, arith, All,
  range, ok, >>=-ok, ok-injective, cdiv, le-cdiv, parts-div, parts-lt, div-mul-add-mod,
}
use group_free_collectives.Base.Membership.{
  All-Elem, Elem-map, map-Elem, Elem-concat_map, All-concat_map, Elem-range,
}
use group_free_collectives.Kernel.Memory.{Copy, Agrees}
use group_free_collectives.Kernel.Grid.{clipped-reaches}
use group_free_collectives.Kernel.Strided.{Apart, Moves, strided-Piece, strided-Moves}
use group_free_collectives.Kernel.Pull.{ring_index}
use group_free_collectives.Kernel.Pull.Coverage.{Piece, Piece-Agrees, Written, ring_index-onto}
use group_free_collectives.Kernel.Pull.Ring.{ring_index-lt}
use group_free_collectives.Kernel.Pull.Laws.{gather_src, exchange_src}
use group_free_collectives.Kernel.Tma.{
  check_collective_tma_gates, tile_copy, tma_task, tma_ring, all_gather_tma_kernel,
  all2all_tma_kernel, launch_all_gather_tma, launch_all2all_tma,
}

-- A tile that starts inside its piece agrees with it.
pub tile_copy-Agrees :
    {is_target : ℕ → Bool} {from : ℕ → ℕ} {src dst n : ℕ}
    → Piece is_target from src dst n
    → (block off : ℕ) → Agrees is_target from (tile_copy src dst n block off)
tile_copy-Agrees {src} {dst} {n} piece block off = elim (dec_le off n) [
  | yes le ↦ Piece-Agrees piece off (min block (n - off)) (omega arith)
  | no gt ↦ record {
    inside = λ j lt. absurd (omega arith);
    from = λ j lt. absurd (omega arith);
    outside = λ j lt. absurd (omega arith);
  }
]

-- The tile that holds byte b writes it.
pub tile_copy-Written :
    (src dst n block b : ℕ)
    → 0 < block
    → b < n
    → ((b / block < cdiv n block)
        × (dst + b / block * block ≤ dst + b)
        × (dst + b < dst + b / block * block + min block (n - b / block * block)))
tile_copy-Written src dst n block b pos lt =
    let parts = div-mul-add-mod b block in
    let rest = mod-lt b pos in
    (
      lt_of_mul-lt-mul_right block (omega (arith, parts, le-cdiv n block pos)),
      omega (arith, parts),
      omega (arith, parts, rest),
    )

module _ (src_of dst_of : ℕ → ℕ) (self n g block sms grid : ℕ) where
  -- Task t * g + d is tile t of the ring's step d.
  tma_task-eq :
      (t d : ℕ)
      → d < g
      → tma_task src_of dst_of self n g block sms (t * g + d)
        ≡ tile_copy
            (src_of (ring_index self g d))
            (dst_of (ring_index self g d))
            n
            block
            (t * block)
  unfolding tma_task
  tma_task-eq t d lt =
      ap (at_quotient (t * g + d)) (parts-div t d g lt)
      ∙ ap (at_delta t) (let e : t * g + d - t * g ≡ d = omega arith in e)
    where
      at_delta : ℕ → ℕ → Copy
      at_delta q delta =
          tile_copy (src_of (ring_index self g delta)) (dst_of (ring_index self g delta)) n block
            (q * block)

      at_quotient : ℕ → ℕ → Copy
      at_quotient task q = at_delta q (task - q * g)

  tma_ring-Agrees :
      {is_target : ℕ → Bool} {from : ℕ → ℕ}
      → 0 < g
      → ((i : ℕ) → i < g → Piece is_target from (src_of i) (dst_of i) n)
      → All (Agrees is_target from) (tma_ring src_of dst_of self n g block sms grid)
  unfolding tma_ring tma_task
  tma_ring-Agrees {is_target} {from} g_pos pieces =
      All-concat_map _ (Agrees is_target from) (range grid) λ pid m.
        All-Elem (Agrees is_target from) _ λ c k.
          let (task, j, e) = map-Elem (tma_task src_of dst_of self n g block sms) _ k in
          rw e (tile_copy-Agrees (pieces _ (ring_index-lt self g _ g_pos)) block _)

  tma_ring-Written :
      (i b : ℕ)
      → 0 < block
      → 0 < sms
      → grid ≡ min sms (g * cdiv n block)
      → i < g
      → b < n
      → Written (dst_of i + b) (tma_ring src_of dst_of self n g block sms grid)
  unfolding tma_ring
  tma_ring-Written i b block_pos sms_pos grid_is i_lt b_lt =
      let (d, d_lt, at) = ring_index-onto self g i i_lt in
      let (t_lt, lo, hi) = tile_copy-Written (src_of i) (dst_of i) n block b block_pos b_lt in
      let (pid, pid_lt, visited) =
        clipped-reaches (g * cdiv n block) sms sms_pos (b / block * g + d) (
          omega (
            arith,
            parts-lt (b / block) d g (cdiv n block) t_lt d_lt,
            mul_comm g (cdiv n block),
          )) in
      (
        tma_task src_of dst_of self n g block sms (b / block * g + d),
        Elem-concat_map _ (Elem-range grid pid (omega (arith, grid_is))) (Elem-map _ visited),
        rw (tma_task-eq (b / block) d d_lt, at) (lo, hi),
      )

  tma_ring-Moves :
      (dst : ℕ)
      → dst_of ≡ (λ i. dst + i * n)
      → 0 < block
      → 0 < sms
      → 0 < g
      → grid ≡ min sms (g * cdiv n block)
      → ((i : ℕ) → i < g → Apart (src_of i) n dst (g * n))
      → Moves src_of dst n n g (tma_ring src_of dst_of self n g block sms grid)
  tma_ring-Moves dst placed block_pos sms_pos g_pos grid_is apart =
      strided-Moves src_of dst n n g (omega arith) apart _
        (tma_ring-Agrees g_pos
          λ i lt. rw placed (strided-Piece src_of dst n n g (omega arith) apart i lt))
        λ i b p q.
          subst (λ f. Written (f i + b) (tma_ring src_of dst_of self n g block sms grid)) placed
            (tma_ring-Written i b block_pos sms_pos grid_is p q)

module _ (ranks cb_ptrs : ℕ → ℕ) (dst offset self slice_bytes g sms tile : ℕ) (tile_pos : 0 < tile)
    (sms_pos : 0 < sms) (g_pos : 0 < g) where
  -- A launch of the all-gather TMA kernel that its gates accept moves each peer's slice to its
  -- place in the output and changes no other byte, where tile, grid and group are not empty and the
  -- slices lie outside the output.
  pub launch_all_gather_tma-Moves :
      {cs : List Copy}
      → launch_all_gather_tma ranks cb_ptrs dst offset self slice_bytes g sms tile ≡ ok cs
      → ((i : ℕ)
          → i < g
          → Apart (gather_src ranks cb_ptrs offset i) slice_bytes dst (g * slice_bytes))
      → Moves (gather_src ranks cb_ptrs offset) dst slice_bytes slice_bytes g cs
  unfolding launch_all_gather_tma all_gather_tma_kernel
  launch_all_gather_tma-Moves {cs} h apart =
      let (u, gates, e) = >>=-ok (check_collective_tma_gates slice_bytes offset dst tile) _ h in
      subst (Moves (gather_src ranks cb_ptrs offset) dst slice_bytes slice_bytes g) (ok-injective e)
        (tma_ring-Moves (gather_src ranks cb_ptrs offset) _ self slice_bytes g tile sms _ dst refl
          tile_pos sms_pos g_pos refl apart)

  -- A launch of the all2all TMA kernel that its gates accept moves this rank's slice of each peer to
  -- its place in the output and changes no other byte, where tile, grid and group are not empty and
  -- the slices lie outside the output.
  pub launch_all2all_tma-Moves :
      {cs : List Copy}
      → launch_all2all_tma ranks cb_ptrs dst offset self slice_bytes g sms tile ≡ ok cs
      → ((i : ℕ)
          → i < g
          → Apart
              (exchange_src ranks cb_ptrs offset self slice_bytes i)
              slice_bytes
              dst
              (g * slice_bytes))
      → Moves (exchange_src ranks cb_ptrs offset self slice_bytes) dst slice_bytes slice_bytes g cs
  unfolding launch_all2all_tma all2all_tma_kernel
  launch_all2all_tma-Moves {cs} h apart =
      let (u, gates, e) = >>=-ok (check_collective_tma_gates slice_bytes offset dst tile) _ h in
      subst
        (Moves (exchange_src ranks cb_ptrs offset self slice_bytes) dst slice_bytes slice_bytes g)
        (ok-injective e)
        (tma_ring-Moves (exchange_src ranks cb_ptrs offset self slice_bytes) _ self slice_bytes g
          tile sms _ dst refl tile_pos sms_pos g_pos refl apart)
