-- ===== src/Kernel/Fused/Fleet/Outcome.antt =====
-- What the fused launches of a group leave, and that they end.
use mathlib.Core.Path.{fun_ext}
use group_free_collectives.Base.{
  ℕ, ◌+◌, ◌*◌, ◌%◌, ◌<◌, ◌≡◌, sym, subst, List, arith, ok, IsPowerOfTwo,
}
use group_free_collectives.Kernel.Memory.{Memory}
use group_free_collectives.Kernel.Fused.{FusedArgs}
use group_free_collectives.Kernel.Fused.Launch.{
  FusedCall, fused_args, launch_all_gather_fused, launch_all2all_fused,
}
use group_free_collectives.Kernel.Fused.Run.{Access, Launched, Reach, Finished, launched}
use group_free_collectives.Kernel.Fused.Run.Length.{remaining}
use group_free_collectives.Kernel.Fused.Run.Completes.{Reach-Completes}
use group_free_collectives.Kernel.Fused.Fleet.{IsGeometry, IsPlaced, IsFresh, progs, Meant}
use group_free_collectives.Kernel.Fused.Fleet.Staging.{
  gathers, exchanges, gather-IsStaging, exchange-IsStaging,
}
use group_free_collectives.Kernel.Fused.Fleet.Discipline.{fleet-IsDisciplined, fleet-IsServed}
use group_free_collectives.Kernel.Fused.Fleet.Delivers.{Delivers, fleet-Delivers}
use group_free_collectives.Kernel.Fused.Fleet.Launches.{
  grid_of, call_for, width_for, width_for-pos, accepted-IsGeometry, gather_grid, exchange_grid,
}

-- One call, whose pointers and ranks are each member's own, that the launchers accept.
module _ (c : FusedCall) {a : FusedArgs} (accepted : fused_args c ≡ ok a)
    (power : IsPowerOfTwo c.alignment) (ins outs ranks cb_ptrs : ℕ → ℕ) (m0 : Memory)
    (pad0 : ℕ → ℕ → ℕ) where
  abbrev widths : ℕ → ℕ
  widths = width_for c ins outs

  abbrev pub gather_grids : ℕ → ℕ → List Access
  gather_grids i = grid_of (launch_all_gather_fused ranks cb_ptrs (call_for c ins outs ranks i))

  abbrev pub exchange_grids : ℕ → ℕ → List Access
  exchange_grids i = grid_of (launch_all2all_fused ranks cb_ptrs (call_for c ins outs ranks i))

  abbrev gather_progs : ℕ → ℕ → List Access
  gather_progs =
      progs a ins outs widths ranks cb_ptrs a.slice_bytes (gathers a ins outs widths ranks cb_ptrs)
        (λ t. 0)

  abbrev exchange_progs : ℕ → ℕ → List Access
  exchange_progs =
      progs a ins outs widths ranks cb_ptrs (a.group_size * a.slice_bytes)
        (exchanges a ins outs widths ranks cb_ptrs) (λ t. t * a.slice_bytes)

  gather-same : gather_grids ≡ gather_progs
  gather-same = fun_ext λ i. fun_ext λ p. gather_grid c accepted power ins outs ranks cb_ptrs i p

  exchange-same : exchange_grids ≡ exchange_progs
  exchange-same =
      fun_ext λ i. fun_ext λ p. exchange_grid c accepted power ins outs ranks cb_ptrs i p

  -- A run of the launches, from the memory and the step grids before them.
  abbrev pub Runs : (ℕ → ℕ → List Access) → ℕ → Launched → Type 0
  Runs grids = Reach a.group_size (2 * a.num_channels) ranks (launched grids m0 pad0)

  abbrev pub Ended : Launched → Type 0
  Ended = Finished a.group_size (2 * a.num_channels) ranks

  abbrev left : Launched → ℕ
  left = remaining a.group_size (2 * a.num_channels)

  geometry : IsGeometry a
  geometry = accepted-IsGeometry c accepted power

  widths_pos : (i : ℕ) → i < a.group_size → 0 < widths i
  widths_pos i hi = width_for-pos c ins outs i

  even_grid : 2 * a.num_channels % 2 ≡ 0
  even_grid = omega arith

  module _ (fresh : IsFresh a ins outs widths ranks cb_ptrs pad0) {steps : ℕ} {w : Launched} where
    module _ (placed : IsPlaced a ins outs widths ranks cb_ptrs a.slice_bytes)
        (run : Runs gather_grids steps w) where
      -- Once the fused all-gather launches of all members of a group have ended, however their
      -- programs were interleaved, the output of every member holds the inputs of all members in
      -- the group's order, and no byte outside the outputs and the staging windows has changed.
      -- This holds where the launcher accepts the call, with each member's pointers and rank put
      -- in, the alignment is a power of two, the members have different ranks of the world, the
      -- inputs, the windows and the outputs do not overlap, and no step cell that is read holds a
      -- value of this call before.
      pub all_gather_fused-Delivers :
          Ended w
          → Delivers a ins outs widths ranks cb_ptrs a.slice_bytes
              (gathers a ins outs widths ranks cb_ptrs)
              (λ t. 0)
              m0
              w.mem
      all_gather_fused-Delivers =
          fleet-Delivers a ins outs widths ranks cb_ptrs a.slice_bytes
            (gathers a ins outs widths ranks cb_ptrs) (λ t. 0) geometry widths_pos placed
            (gather-IsStaging a ins outs widths ranks cb_ptrs geometry widths_pos) m0 pad0 fresh
            (subst (λ f. Runs f steps w) gather-same run)

      -- Fused all-gather launches of all members of a group never deadlock: from every state that
      -- a run of them reaches, it can be brought to the end of all programs, in as many steps as
      -- there are accesses left. This holds where the launcher accepts the call, with each
      -- member's pointers and rank put in, the alignment is a power of two, the members have
      -- different ranks of the world, the inputs, the windows and the outputs do not overlap, and
      -- no step cell that is read holds a value of this call before.
      pub all_gather_fused-Completes :
          (v : Launched) × Runs gather_grids (steps + left w) v × Ended v
      all_gather_fused-Completes =
          let staging = gather-IsStaging a ins outs widths ranks cb_ptrs geometry widths_pos in
          let Aim =
            Meant a ins outs widths ranks cb_ptrs a.slice_bytes
              (gathers a ins outs widths ranks cb_ptrs) (λ t. 0) m0 in
          let (v, reach, ended) =
            Reach-Completes a.group_size (2 * a.num_channels) ranks gather_progs m0 pad0 Aim
              (fleet-IsDisciplined a ins outs widths ranks cb_ptrs a.slice_bytes
                (gathers a ins outs widths ranks cb_ptrs) (λ t. 0) m0 geometry placed staging
                (2 * a.num_channels) pad0 fresh)
              (fleet-IsServed a ins outs widths ranks cb_ptrs a.slice_bytes
                (gathers a ins outs widths ranks cb_ptrs) (λ t. 0) m0 geometry placed staging
                (2 * a.num_channels) pad0 fresh even_grid)
              (subst (λ f. Runs f steps w) gather-same run) in
          (v, subst (λ f. Runs f (steps + left w) v) (sym gather-same) reach, ended)

    module _ (placed : IsPlaced a ins outs widths ranks cb_ptrs (a.group_size * a.slice_bytes))
        (run : Runs exchange_grids steps w) where
      -- Once the fused all2all launches of all members of a group have ended, however their
      -- programs were interleaved, the output of every member holds the slices that the members'
      -- inputs have for it, in the group's order, and no byte outside the outputs and the staging
      -- windows has changed. This holds where the launcher accepts the call, with each member's
      -- pointers and rank put in, the alignment is a power of two, the members have different
      -- ranks of the world, the inputs, the windows and the outputs do not overlap, and no step
      -- cell that is read holds a value of this call before.
      pub all2all_fused-Delivers :
          Ended w
          → Delivers a ins outs widths ranks cb_ptrs
              (a.group_size * a.slice_bytes)
              (exchanges a ins outs widths ranks cb_ptrs)
              (λ t. t * a.slice_bytes)
              m0
              w.mem
      all2all_fused-Delivers =
          fleet-Delivers a ins outs widths ranks cb_ptrs (a.group_size * a.slice_bytes)
            (exchanges a ins outs widths ranks cb_ptrs) (λ t. t * a.slice_bytes) geometry widths_pos
            placed (exchange-IsStaging a ins outs widths ranks cb_ptrs geometry widths_pos) m0 pad0
            fresh (subst (λ f. Runs f steps w) exchange-same run)

      -- Fused all2all launches of all members of a group never deadlock: from every state that a
      -- run of them reaches, it can be brought to the end of all programs, in as many steps as
      -- there are accesses left. This holds where the launcher accepts the call, with each
      -- member's pointers and rank put in, the alignment is a power of two, the members have
      -- different ranks of the world, the inputs, the windows and the outputs do not overlap, and
      -- no step cell that is read holds a value of this call before.
      pub all2all_fused-Completes :
          (v : Launched) × Runs exchange_grids (steps + left w) v × Ended v
      all2all_fused-Completes =
          let staging = exchange-IsStaging a ins outs widths ranks cb_ptrs geometry widths_pos in
          let Aim =
            Meant a ins outs widths ranks cb_ptrs (a.group_size * a.slice_bytes)
              (exchanges a ins outs widths ranks cb_ptrs) (λ t. t * a.slice_bytes) m0 in
          let (v, reach, ended) =
            Reach-Completes a.group_size (2 * a.num_channels) ranks exchange_progs m0 pad0 Aim
              (fleet-IsDisciplined a ins outs widths ranks cb_ptrs (a.group_size * a.slice_bytes)
                (exchanges a ins outs widths ranks cb_ptrs) (λ t. t * a.slice_bytes) m0 geometry
                placed staging (2 * a.num_channels) pad0 fresh)
              (fleet-IsServed a ins outs widths ranks cb_ptrs (a.group_size * a.slice_bytes)
                (exchanges a ins outs widths ranks cb_ptrs) (λ t. t * a.slice_bytes) m0 geometry
                placed staging (2 * a.num_channels) pad0 fresh even_grid)
              (subst (λ f. Runs f steps w) exchange-same run) in
          (v, subst (λ f. Runs f (steps + left w) v) (sym exchange-same) reach, ended)
