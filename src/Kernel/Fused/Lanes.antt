-- ===== src/Kernel/Fused/Lanes.antt =====
-- The lanes of a publish and of a wait, as accesses.
use group_free_collectives.Base.{
  ℕ, ◌<◌, ◌≡◌, ◌≢◌, refl, subst, true, not, ◌&&◌, List, arith, ltb, ◌==◌, range,
}
use group_free_collectives.Base.Membership.{
  concat_map, Elem, here, concat_map-Elem, Elem-concat_map, Elem-range, if-Elem, Elem-if,
  singleton-Elem,
}
use group_free_collectives.Kernel.Fused.{FusedArgs, step_cell, step_value, publish_step, await_step}
use group_free_collectives.Kernel.Fused.Run.{Access, release, acquire, accesses}

module _ (a : FusedArgs) (ranks cb_ptrs : ℕ → ℕ) where
  -- A lane of the group that is not this rank's.
  abbrev pub IsPeer : ℕ → Type 0
  IsPeer lane = (lane < a.group_size) × (lane ≢ a.self_local_index)

  lane-IsPeer :
      (lane : ℕ) → (ltb lane a.group_size && not (lane == a.self_local_index)) ≡ true → IsPeer lane
  lane-IsPeer lane e = (ground arith, λ same. ground arith)

  IsPeer-lane :
      (lane : ℕ) → IsPeer lane → (ltb lane a.group_size && not (lane == a.self_local_index)) ≡ true
  IsPeer-lane lane (lt, ne) = ground arith

  -- The lanes of a publish or a wait as accesses.
  abbrev pub posts : ℕ → ℕ → List Access
  posts channel k = concat_map accesses (publish_step a ranks cb_ptrs channel k)

  abbrev pub waits : ℕ → ℕ → List Access
  waits channel k = concat_map accesses (await_step a ranks cb_ptrs channel k)

  abbrev pub post : ℕ → ℕ → ℕ → Access
  post channel k lane =
      release (ranks lane) (step_cell a channel k a.self_global_rank) (step_value a k)

  abbrev pub wait : ℕ → ℕ → ℕ → Access
  wait channel k lane = acquire (step_cell a channel k (ranks lane)) (step_value a k)

  module _ (channel k : ℕ) where
    pub posts-Elem :
        {x : Access}
        → Elem x (posts channel k)
        → (lane : ℕ) × IsPeer lane × (x ≡ post channel k lane)
    unfolding publish_step
    posts-Elem {x} m =
        let (op, mo, mx) = concat_map-Elem accesses (publish_step a ranks cb_ptrs channel k) m in
        let (lane, ml, m') = concat_map-Elem _ (range a.group_lanes) mo in
        let (test, e) = if-Elem _ (ltb lane a.group_size && not (lane == a.self_local_index)) m' in
        (lane, lane-IsPeer lane test, singleton-Elem (subst (λ o. Elem x (accesses o)) e mx))

    pub waits-Elem :
        {x : Access}
        → Elem x (waits channel k)
        → (lane : ℕ) × IsPeer lane × (x ≡ wait channel k lane)
    unfolding await_step
    waits-Elem {x} m =
        let (op, mo, mx) = concat_map-Elem accesses (await_step a ranks cb_ptrs channel k) m in
        let (lane, ml, m') = concat_map-Elem _ (range a.group_lanes) mo in
        let (test, e) = if-Elem _ (ltb lane a.group_size && not (lane == a.self_local_index)) m' in
        (lane, lane-IsPeer lane test, singleton-Elem (subst (λ o. Elem x (accesses o)) e mx))

    module _ (lane : ℕ) (peer : IsPeer lane) (fits : lane < a.group_lanes) where
      pub Elem-posts : Elem (post channel k lane) (posts channel k)
      unfolding publish_step
      Elem-posts =
          Elem-concat_map accesses
            (Elem-concat_map _ (Elem-range a.group_lanes lane fits) (
              Elem-if _ (ltb lane a.group_size && not (lane == a.self_local_index))
                (IsPeer-lane lane peer)))
            (here refl)

      pub Elem-waits : Elem (wait channel k lane) (waits channel k)
      unfolding await_step
      Elem-waits =
          Elem-concat_map accesses
            (Elem-concat_map _ (Elem-range a.group_lanes lane fits) (
              Elem-if _ (ltb lane a.group_size && not (lane == a.self_local_index))
                (IsPeer-lane lane peer)))
            (here refl)
