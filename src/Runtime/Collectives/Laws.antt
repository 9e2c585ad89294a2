-- ===== src/Runtime/Collectives/Laws.antt =====
-- The atomicity of `all_gather` and `all2all`.
use group_free_collectives.Base.{
  ℕ, ◌/◌, ◌<◌, ◌≡◌, arith, Bool, true, Option, none, some, ok, leb, ◌==◌, ◌&&◌,
}
use group_free_collectives.Config.{py_mod}
use group_free_collectives.Group.{GroupDescriptor, is_member, descriptor_check}
use group_free_collectives.Autotune.{Collective, allgather, all2all}
use group_free_collectives.Runtime.State.{Setup, Tensor, State, demand}
use group_free_collectives.Runtime.Collectives.{validate_collective_args, resolve_slice_bytes}
use group_free_collectives.Runtime.Collectives.Atomic.{
  Atomic, Quiet, demand-Quiet, lift-Quiet, bind-Quiet, bind-passed, demand-passed,
}

-- A member of a group whose descriptor was accepted is one of at least one.
pub member-size :
    (group : GroupDescriptor)
    → descriptor_check group ≡ ok tt
    → is_member group ≡ true
    → 0 < group.size
unfolding descriptor_check
member-size group h m = go group.local_index h m
  where
    go :
        (i : Option ℕ)
        → descriptor_check (record group { local_index = i }) ≡ ok tt
        → is_member (record group { local_index = i }) ≡ true
        → 0 < group.size
    go none h m = absurd (cc)
    go (some i) h m = ground arith

module _ (rt : Setup) where
  abbrev pub kind_bound : Collective → Tensor → Tensor → Bool
  kind_bound k input output = elim k [
    | allgather ↦ leb input.nbytes rt.config.max_collective_bytes
    | all2all ↦ leb output.nbytes rt.config.max_collective_bytes
  ]

  pub validate-Quiet :
      (k : Collective) (input output : Tensor) (group : GroupDescriptor)
      → Quiet (validate_collective_args rt k input output group)
  unfolding validate_collective_args
  validate-Quiet k input output group = bind-Quiet _ _ (demand-Quiet (is_member group)) λ u.
      bind-Quiet _ _ (demand-Quiet (leb group.size rt.config.max_group_size)) λ u.
        bind-Quiet _ _ (demand-Quiet (input.is_cuda && output.is_cuda)) λ u.
          bind-Quiet _ _ (demand-Quiet (input.device == rt.device)) λ u.
            bind-Quiet _ _ (demand-Quiet (output.device == rt.device)) λ u.
              bind-Quiet _ _ (demand-Quiet input.is_contiguous) λ u.
                bind-Quiet _ _ (demand-Quiet output.is_contiguous)
                  λ u. demand-Quiet (kind_bound k input output)

  -- What validated arguments have.
  pub validate-passed :
      (k : Collective) (input output : Tensor) (group : GroupDescriptor) {s : State}
      → validate_collective_args rt k input output group s ≡ (ok tt, s)
      → (is_member group ≡ true) × (kind_bound k input output ≡ true)
  unfolding validate_collective_args
  validate-passed k input output group h =
      let (u1, e1, h1) = bind-passed (demand (is_member group)) _ (demand-Quiet _) h in
      let (u2, e2, h2) =
        bind-passed (demand (leb group.size rt.config.max_group_size)) _ (demand-Quiet _) h1 in
      let (u3, e3, h3) =
        bind-passed (demand (input.is_cuda && output.is_cuda)) _ (demand-Quiet _) h2 in
      let (u4, e4, h4) = bind-passed (demand (input.device == rt.device)) _ (demand-Quiet _) h3 in
      let (u5, e5, h5) = bind-passed (demand (output.device == rt.device)) _ (demand-Quiet _) h4 in
      let (u6, e6, h6) = bind-passed (demand input.is_contiguous) _ (demand-Quiet _) h5 in
      let (u7, e7, h7) = bind-passed (demand output.is_contiguous) _ (demand-Quiet _) h6 in
      (demand-passed _ e1, demand-passed (kind_bound k input output) h7)

  pub resolve-Quiet :
      (input : Tensor) (group : GroupDescriptor) (n : Option ℕ)
      → Quiet (resolve_slice_bytes rt input group n)
  unfolding resolve_slice_bytes
  resolve-Quiet input group (some n) = lift-Quiet (ok n)
  resolve-Quiet input group none =
      bind-Quiet _ _ (lift-Quiet (py_mod input.nbytes group.size)) λ rest.
        bind-Quiet _ _ (demand-Quiet (rest == 0)) λ u. lift-Quiet (ok (input.nbytes / group.size))
