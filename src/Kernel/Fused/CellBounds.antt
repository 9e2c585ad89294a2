-- ===== src/Kernel/Fused/CellBounds.antt =====
-- The cells that the launched programs publish and await lie in the grid that was allocated.
use group_free_collectives.Base.{
  ℕ, ◌*◌, ◌/◌, ◌<◌, ◌≤◌, ◌≡◌, ◌⊎◌, inl, inr, refl, sym, subst, ◌∙◌, List, map, range, All, arith,
  ok, >>=-ok, ok-injective, IsPowerOfTwo,
}
use group_free_collectives.Base.Membership.{
  Elem, here, Elem-split, Elem-concat_map, All-Elem, map-Elem, range-lt,
}
use group_free_collectives.Config.{SymmetricCollectiveConfig, fused_max_chunks_per_channel}
use group_free_collectives.Buffer.{allocate_symm_regions}
use group_free_collectives.Kernel.Memory.{Copy}
use group_free_collectives.Kernel.Fused.{
  FusedOp, FusedArgs, copies, publish, await, n_chunks, step_cell, gather_stage, exchange_stage,
}
use group_free_collectives.Kernel.Fused.Launch.{
  FusedCall, fused_args, launch_all_gather_fused, launch_all2all_fused,
}
use group_free_collectives.Kernel.Fused.StepPad.{args-bounds, step_cell-in_bounds}
use group_free_collectives.Kernel.Fused.Run.{Access, release, acquire, accesses}
use group_free_collectives.Kernel.Fused.Programs.{
  Place, staging, posting, waiting, pulling, program, program-Place,
}
use group_free_collectives.Kernel.Fused.Fleet.Staging.{all_gather-program, all2all-program}
use group_free_collectives.Kernel.Fused.Fleet.Launches.{accepted-IsGeometry, accepted-ranks}

-- A publish goes to a rank of the world, and its cell and that of a wait lie in a grid of `cells`.
abbrev pub InGrid : ℕ → ℕ → FusedOp → Type 0
InGrid world cells (copies cs) = Unit {0}
InGrid world cells (publish rank cell value) = (rank < world) × (cell < cells)
InGrid world cells (await cell value) = cell < cells

release-parts : {r c v r' c' v' : ℕ} → release r c v ≡ release r' c' v' → (r ≡ r') × (c ≡ c')
release-parts e = (cc, cc)

acquire-cell : {c v c' v' : ℕ} → acquire c v ≡ acquire c' v' → c ≡ c'
acquire-cell e = cc

module _ (config : SymmetricCollectiveConfig) (world : ℕ) (c : FusedCall) (ranks cb_ptrs : ℕ → ℕ)
    (power : IsPowerOfTwo c.alignment) (world-eq : c.world_size ≡ world)
    (chunks-eq : c.max_chunks_per_channel ≡ fused_max_chunks_per_channel config)
    (few : c.num_channels ≤ config.fused_num_channels)
    (in_world : (i : ℕ) → i < c.group_size → ranks i < world)
    (self_in_world : c.self_global_rank < world) where
  abbrev pub cells : ℕ
  cells = (allocate_symm_regions config world).step_pad

  module _ {a : FusedArgs} (accepted : fused_args c ≡ ok a) (stage : ℕ → ℕ → List Copy)
      (piece p : ℕ) (p_lt : p < 2 * c.num_channels) where
    cell-lt : (k r : ℕ) → k < n_chunks a (p / 2) → r < world → step_cell a (p / 2) k r < cells
    cell-lt k r k_lt r_lt =
        let (_, _, _, _, channels) = args-bounds c accepted in
        step_cell-in_bounds config world c (p / 2) k r accepted world-eq chunks-eq few
          (omega (arith, channels)) k_lt r_lt

    abbrev At : List Access → Access → Type 0
    At = Place a ranks cb_ptrs stage piece p

    publish-InGrid :
        (pre : List Access) (rank cell value : ℕ)
        → At pre (release rank cell value)
        → InGrid world cells (publish rank cell value)
    publish-InGrid pre rank cell value (staging k d lt m e) = absurd (cc)
    publish-InGrid pre rank cell value (posting k lane lt peer e told) =
        let (size, self) = accepted-ranks c accepted in
        let (to, at) = release-parts e in
        (
          subst (λ (x : ℕ). x < world) (sym to) (in_world lane (omega (arith, size, peer.0))),
          subst (λ (x : ℕ). x < cells) (sym at)
              (cell-lt k a.self_global_rank lt (omega (arith, self, self_in_world))),
        )
    publish-InGrid pre rank cell value (waiting k lane lt peer odd e) = absurd (cc)
    publish-InGrid pre rank cell value (pulling k d lt m e told) = absurd (cc)

    await-InGrid : (pre : List Access) (cell value : ℕ) → At pre (acquire cell value) → cell < cells
    await-InGrid pre cell value (staging k d lt m e) = absurd (cc)
    await-InGrid pre cell value (posting k lane lt peer e told) = absurd (cc)
    await-InGrid pre cell value (waiting k lane lt peer odd e) =
        let (size, self) = accepted-ranks c accepted in
        subst (λ (x : ℕ). x < cells) (sym (acquire-cell e))
          (cell-lt k (ranks lane) lt (in_world lane (omega (arith, size, peer.0))))
    await-InGrid pre cell value (pulling k d lt m e told) = absurd (cc)

    op-InGrid :
        (op : FusedOp) → Elem op (program a ranks cb_ptrs stage piece p) → InGrid world cells op
    op-InGrid (copies cs) m = tt
    op-InGrid (publish rank cell value) m =
        let (pre, post, e) = Elem-split (Elem-concat_map accesses m (here refl)) in
        publish-InGrid pre rank cell value (
          program-Place a ranks cb_ptrs stage piece (accepted-IsGeometry c accepted power).lanes_fit
            p pre post _ e)
    op-InGrid (await cell value) m =
        let (pre, post, e) = Elem-split (Elem-concat_map accesses m (here refl)) in
        await-InGrid pre cell value (
          program-Place a ranks cb_ptrs stage piece (accepted-IsGeometry c accepted power).lanes_fit
            p pre post _ e)

  grid-InGrid :
      {a : FusedArgs}
      → fused_args c ≡ ok a
      → (stage : ℕ → ℕ → List Copy) (piece : ℕ) (kernel : ℕ → List FusedOp)
      → ((p : ℕ) → kernel p ≡ program a ranks cb_ptrs stage piece p)
      → All (All (InGrid world cells)) (map kernel (range (2 * c.num_channels)))
  grid-InGrid accepted stage piece kernel same = All-Elem _ _ λ ops m.
      let (p, m', e) = map-Elem kernel (range (2 * c.num_channels)) m in
      subst (All (InGrid world cells)) (sym (e ∙ same p))
        (All-Elem _ _ (op-InGrid accepted stage piece p (range-lt _ m')))

  -- Every cell that a program of an accepted fused launch, of either collective, publishes or
  -- awaits lies inside the step grid that was allocated, and every publish goes to a rank of the
  -- world. This holds for a call with the world's size and the configuration's chunk bound, at most
  -- the channels provisioned and an alignment that is a power of two, where the ranks are of the
  -- world.
  pub launch_fused-InGrid :
      (ps : List (List FusedOp))
      → (launch_all_gather_fused ranks cb_ptrs c ≡ ok ps)
        ⊎ (launch_all2all_fused ranks cb_ptrs c ≡ ok ps)
      → All (All (InGrid world cells)) ps
  unfolding launch_all_gather_fused launch_all2all_fused
  launch_fused-InGrid ps (inl h) =
      let (a, accepted, h1) = >>=-ok (fused_args c) _ h in
      subst (All (All (InGrid world cells))) (ok-injective h1) (
        grid-InGrid accepted (gather_stage a ranks cb_ptrs) 0 _
          (all_gather-program a ranks cb_ptrs))
  launch_fused-InGrid ps (inr h) =
      let (a, accepted, h1) = >>=-ok (fused_args c) _ h in
      subst (All (All (InGrid world cells))) (ok-injective h1) (
        grid-InGrid accepted (exchange_stage a ranks cb_ptrs) (a.self_local_index * a.slice_bytes) _
          (all2all-program a ranks cb_ptrs))
