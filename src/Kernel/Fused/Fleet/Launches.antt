-- ===== src/Kernel/Fused/Fleet/Launches.antt =====
-- The launches of the members of a group, from one call whose pointers and ranks are the member's.
use native.Mathlib.Nat.{mul-le-mul_left, mul-le-mul_right}
use group_free_collectives.Base.{
  ℕ, zero, suc, ◌*◌, ◌/◌, ◌≤◌, ◌<◌, ◌≡◌, refl, sym, ap, subst, ◌∙◌, List, [], map, range, get_or,
  get_or-map_range, get_or-map_past, arith, ltb, leb, cdiv, le-cdiv, le-align_up, IsPowerOfTwo,
  Outcome, ok, err, check, >>=-ok, ok-injective, assertion_error, value_error, dec_lt, true,
  Bool-cases, inl, inr, ◌==◌, ◌∷◌, le→leb,
}
use group_free_collectives.Base.Membership.{concat_map}
use group_free_collectives.Kernel.Width.{
  next_pow2, fold_alignments, pick_width, vec_width_bytes, base_alignment,
}
use group_free_collectives.Kernel.Width.Laws.{next_pow2-IsLeastPower}
use group_free_collectives.Kernel.Fused.{
  FusedOp, FusedArgs, all_gather_fused_kernel, all2all_fused_kernel,
}
use group_free_collectives.Kernel.Fused.Launch.{
  FusedCall, fused_args, partition_of, pick_vec_bytes, launch_all_gather_fused,
  launch_all2all_fused,
}
use group_free_collectives.Kernel.Fused.StepPad.{args-bounds, n_chunks-le}
use group_free_collectives.Kernel.Fused.Run.{Access, accesses}
use group_free_collectives.Kernel.Fused.Fleet.{IsGeometry, member, progs}
use group_free_collectives.Kernel.Fused.Fleet.Staging.{
  gathers, exchanges, all_gather-program, all2all-program,
}

-- The programs of a launch; none, where it raised.
unfoldable pub grid_of : Outcome (List (List FusedOp)) → ℕ → List Access
grid_of (ok ps) p = concat_map accesses (get_or ps p [])
grid_of (err e) p = []

-- The call of member i.
abbrev pub call_for : FusedCall → (ℕ → ℕ) → (ℕ → ℕ) → (ℕ → ℕ) → ℕ → FusedCall
call_for c ins outs ranks i = record c {
  input_ptr = ins i;
  output_ptr = outs i;
  self_global_rank = ranks i;
  self_local_index = i;
}

-- The width that each member picks.
abbrev pub width_for : FusedCall → (ℕ → ℕ) → (ℕ → ℕ) → ℕ → ℕ
width_for c ins outs i = pick_vec_bytes (ins i) (outs i) c.slice_bytes

share_pos : (share n : ℕ) → 0 < share * n → 0 < share
share_pos zero n h = absurd (omega arith)
share_pos (suc share) n h = omega arith

module _ (c : FusedCall) {a : FusedArgs} (accepted : fused_args c ≡ ok a) where
  -- The checks look at nothing that differs between the members.
  call_for-accepted :
      (ins outs ranks cb_ptrs : ℕ → ℕ) (i : ℕ)
      → fused_args (call_for c ins outs ranks i)
        ≡ ok (member a ins outs (width_for c ins outs) ranks cb_ptrs i)
  unfolding fused_args
  call_for-accepted ins outs ranks cb_ptrs i =
      let (u1, e1, h1) = >>=-ok (check (ltb 0 c.slice_bytes) assertion_error) _ accepted in
      let (u2, e2, h2) = >>=-ok (check (ltb 0 c.group_size) assertion_error) _ h1 in
      let (u3, e3, h3) = >>=-ok (check (ltb 0 c.num_channels) assertion_error) _ h2 in
      let (u4, e4, h4) = >>=-ok (check (ltb 0 c.chunk_bytes) assertion_error) _ h3 in
      let (u5, e5, h5) =
        >>=-ok
          (check
            (leb (cdiv (partition_of c.slice_bytes c.num_channels c.alignment) c.chunk_bytes)
              c.max_chunks_per_channel)
            value_error)
          _ h4 in
      rw (e1, e2, e3, e4, e5)
        (ap (λ x. ok (member x ins outs (width_for c ins outs) ranks cb_ptrs i)) (ok-injective h5))

  -- The geometry that the checks leave.
  abbrev Fields : FusedArgs → Type 0
  Fields a =
      (0 < a.slice_bytes)
      × (0 < a.group_size)
      × (0 < a.num_channels)
      × (a.group_lanes ≡ next_pow2 a.group_size)
      × (a.partition_bytes ≡ partition_of a.slice_bytes a.num_channels c.alignment)
      × (a.block_elts ≡ 4096)
      × (a.slice_bytes ≡ c.slice_bytes)
      × (a.group_size ≡ c.group_size)
      × (a.self_global_rank ≡ c.self_global_rank)

  accepted-Fields : Fields a
  unfolding fused_args
  accepted-Fields =
      let (u1, e1, h1) = >>=-ok (check (ltb 0 c.slice_bytes) assertion_error) _ accepted in
      let (u2, e2, h2) = >>=-ok (check (ltb 0 c.group_size) assertion_error) _ h1 in
      let (u3, e3, h3) = >>=-ok (check (ltb 0 c.num_channels) assertion_error) _ h2 in
      let (u4, e4, h4) = >>=-ok (check (ltb 0 c.chunk_bytes) assertion_error) _ h3 in
      let (u5, e5, h5) =
        >>=-ok
          (check
            (leb (cdiv (partition_of c.slice_bytes c.num_channels c.alignment) c.chunk_bytes)
              c.max_chunks_per_channel)
            value_error)
          _ h4 in
      subst Fields (ok-injective h5)
        (ground arith, ground arith, ground arith, refl, refl, refl, refl, refl, refl)

  pub accepted-ranks : (a.group_size ≡ c.group_size) × (a.self_global_rank ≡ c.self_global_rank)
  accepted-ranks = let (_, _, _, _, _, _, _, size, rank) = accepted-Fields in (size, rank)

  pub accepted-IsGeometry : IsPowerOfTwo c.alignment → IsGeometry a
  accepted-IsGeometry power =
      let (slice_pos, group_pos, channels_pos, lanes, partition, block, _, _, _) =
        accepted-Fields in
      let (chunk_pos, bound, _, _, _) = args-bounds c accepted in
      let share = cdiv a.slice_bytes a.num_channels in
      let whole = le-cdiv a.slice_bytes a.num_channels channels_pos in
      let up = le-align_up share c.alignment power in
      record {
        chunk_pos = chunk_pos;
        partition_pos = omega (arith, partition, up, share_pos share a.num_channels (omega arith));
        block_pos = omega arith;
        covered = omega (
          arith,
          whole,
          mul-le-mul_left a.num_channels
              (let le : share ≤ a.partition_bytes = omega (arith, partition, up) in le),
        );
        few_chunks = λ ch. omega (arith, n_chunks-le a ch chunk_pos, bound);
        lanes_fit = omega (arith, lanes, next_pow2-IsLeastPower a.group_size group_pos);
      }

  module _ (power : IsPowerOfTwo c.alignment) (ins outs ranks cb_ptrs : ℕ → ℕ) where
    abbrev mem : ℕ → FusedArgs
    mem = member a ins outs (width_for c ins outs) ranks cb_ptrs

    -- A program past the grid has nothing to do.
    past_grid :
        (p : ℕ) → 2 * c.num_channels ≤ p → leb a.slice_bytes (p / 2 * a.partition_bytes) ≡ true
    past_grid p le =
        let geometry = accepted-IsGeometry power in
        let (_, _, _, _, channels) = args-bounds c accepted in
        le→leb _ _ (
          omega (
            arith,
            geometry.covered,
            mul-le-mul_right a.partition_bytes
                (let far : a.num_channels ≤ p / 2 = omega arith in far),
          ))

    -- The programs of a grid, and none past it, from what the launcher returns.
    grid-program :
        (kernel program : ℕ → List FusedOp)
        → ((p : ℕ) → kernel p ≡ program p)
        → ((p : ℕ) → 2 * c.num_channels ≤ p → program p ≡ [])
        → (p : ℕ)
        → grid_of (ok (map kernel (range (2 * c.num_channels)))) p ≡ concat_map accesses (program p)
    unfolding grid_of
    grid-program kernel program same none_past p = elim (dec_lt p (2 * c.num_channels)) [
      | yes lt ↦ ap (concat_map accesses) (
          get_or-map_range kernel [] (2 * c.num_channels) 0 p lt ∙ ap kernel (omega arith) ∙ same p)
      | no past ↦ ap (concat_map accesses) (
          get_or-map_past kernel [] (2 * c.num_channels) 0 p (omega arith)
          ∙ sym (none_past p (omega arith)))
    ]

    pub gather_grid :
        (i p : ℕ)
        → grid_of (launch_all_gather_fused ranks cb_ptrs (call_for c ins outs ranks i)) p
          ≡ progs a ins outs
              (width_for c ins outs)
              ranks
              cb_ptrs
              a.slice_bytes
              (gathers a ins outs (width_for c ins outs) ranks cb_ptrs)
              (λ t. 0)
              i
              p
    unfolding launch_all_gather_fused
    gather_grid i p = rw (call_for-accepted ins outs ranks cb_ptrs i) (
        grid-program (all_gather_fused_kernel (mem i) ranks cb_ptrs) _
          (all_gather-program (mem i) ranks cb_ptrs) (λ q le. rw (past_grid q le) refl) p)

    pub exchange_grid :
        (i p : ℕ)
        → grid_of (launch_all2all_fused ranks cb_ptrs (call_for c ins outs ranks i)) p
          ≡ progs a ins outs
              (width_for c ins outs)
              ranks
              cb_ptrs
              (a.group_size * a.slice_bytes)
              (exchanges a ins outs (width_for c ins outs) ranks cb_ptrs)
              (λ t. t * a.slice_bytes)
              i
              p
    unfolding launch_all2all_fused
    exchange_grid i p = rw (call_for-accepted ins outs ranks cb_ptrs i) (
        grid-program (all2all_fused_kernel (mem i) ranks cb_ptrs) _
          (all2all-program (mem i) ranks cb_ptrs) (λ q le. rw (past_grid q le) refl) p)

fold_alignments-pos : (xs : List ℕ) (align : ℕ) → 0 < fold_alignments align xs
unfolding fold_alignments pick_width
fold_alignments-pos [] align = ground arith
fold_alignments-pos (x ∷ xs) align = elim (Bool-cases (x == 0)) [
  | inl e ↦ rw e (omega arith)
  | inr e ↦ rw e (fold_alignments-pos xs _)
]

pub width_for-pos : (c : FusedCall) (ins outs : ℕ → ℕ) (i : ℕ) → 0 < width_for c ins outs i
unfolding pick_vec_bytes vec_width_bytes
width_for-pos c ins outs i =
    fold_alignments-pos
      (base_alignment (ins i) ∷ base_alignment (outs i) ∷ base_alignment c.slice_bytes ∷ []) 0
