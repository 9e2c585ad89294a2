-- ===== src/Runtime/Collectives/Accepted.antt =====
-- What the checks of a collective that returns leave: a call in order, run under the lock.
use native.Mathlib.Nat.{eq_of_mul-eq-mul_right}
use group_free_collectives.Base.{
  ℕ, ◌*◌, ◌<◌, ◌≡◌, refl, sym, subst, leb, ◌==◌, Option, ok, ◌∙◌, ltb, ltb→lt, ==_iff,
}
use group_free_collectives.Autotune.{allgather, all2all}
use group_free_collectives.Group.{GroupDescriptor, descriptor_check}
use group_free_collectives.Runtime.State.{State, Setup, Tensor, demand}
use group_free_collectives.Runtime.Collectives.{
  locked, all_gather, validate_collective_args, all2all_method, resolve_slice_bytes,
}
use group_free_collectives.Runtime.Collectives.Atomic.{demand-Quiet, bind-passed, demand-passed}
use group_free_collectives.Runtime.Collectives.Laws.{
  validate-Quiet, validate-passed, member-size, resolve-Quiet,
}
use group_free_collectives.Runtime.Collectives.Delivers.{IsCall}
use group_free_collectives.Runtime.Collectives.Unchunked.{call_of, size-length}

module _ (rt : Setup) where
  -- The checks of an all_gather that goes on.
  pub all_gather-passed :
      (input output : Tensor) (group : GroupDescriptor) (override : Option ℕ) (s : State)
      {s' : State}
      → descriptor_check group ≡ ok tt
      → 0 < input.nbytes
      → all_gather rt input output group override s ≡ (ok tt, s')
      → IsCall rt (call_of rt allgather input output group input.nbytes group.ranks)
        × (locked rt allgather input output group input.nbytes override s ≡ (ok tt, s'))
  unfolding all_gather
  all_gather-passed input output group override s accepted n_pos h =
      let (u, e, h1) =
        bind-passed (validate_collective_args rt allgather input output group) _
          (validate-Quiet rt allgather input output group) h in
      let (u2, e2, h2) =
        bind-passed (demand (output.nbytes == group.size * input.nbytes)) _ (demand-Quiet _) h1 in
      let (member, bound) = validate-passed rt allgather input output group e in
      (
        record {
          slice_pos = n_pos;
          size_pos = member-size group accepted member;
          size_is = size-length group accepted;
          row_is = refl;
        },
        h2,
      )

  -- The checks of an all2all leave one slice length.
  all2all-slices :
      (input output : Tensor) (group : GroupDescriptor) (slice_bytes override : Option ℕ) (n : ℕ)
      (s : State) {s' : State}
      → 0 < group.size
      → input.nbytes ≡ n * group.size
      → all2all_method rt input output group slice_bytes override s ≡ (ok tt, s')
      → (0 < n) × (locked rt all2all input output group n override s ≡ (ok tt, s'))
  unfolding all2all_method
  all2all-slices input output group slice_bytes override n s {s'} size_pos shared h =
      let (u, e, h1) =
        bind-passed (validate_collective_args rt all2all input output group) _
          (validate-Quiet rt all2all input output group) h in
      let (u2, e2, h2) =
        bind-passed (demand (input.nbytes == output.nbytes)) _ (demand-Quiet _) h1 in
      let (k, e3, h3) =
        bind-passed (resolve_slice_bytes rt input group slice_bytes) _
          (resolve-Quiet rt input group slice_bytes) h2 in
      let (u4, e4, h4) = bind-passed (demand (ltb 0 k)) _ (demand-Quiet _) h3 in
      let (u5, e5, h5) =
        bind-passed (demand (input.nbytes == k * group.size)) _ (demand-Quiet _) h4 in
      let (u6, e6, h6) =
        bind-passed (demand (leb (k * group.size) rt.config.max_collective_bytes)) _
          (demand-Quiet _) h5 in
      let same : k ≡ n =
        eq_of_mul-eq-mul_right group.size size_pos k n
          (sym ((==_iff input.nbytes (k * group.size)).0 (demand-passed _ e5)) ∙ shared) in
      (
        subst (λ x. 0 < x) same (ltb→lt 0 k (demand-passed _ e4)),
        subst (λ x. locked rt all2all input output group x override s ≡ (ok tt, s')) same h6,
      )

  -- The checks of an all2all that goes on.
  pub all2all-passed :
      (input output : Tensor) (group : GroupDescriptor) (slice_bytes override : Option ℕ) (n : ℕ)
      (s : State) {s' : State}
      → descriptor_check group ≡ ok tt
      → input.nbytes ≡ n * group.size
      → all2all_method rt input output group slice_bytes override s ≡ (ok tt, s')
      → IsCall rt (call_of rt all2all input output group n group.ranks)
        × (locked rt all2all input output group n override s ≡ (ok tt, s'))
  unfolding all2all_method
  all2all-passed input output group slice_bytes override n s accepted shared h =
      let (u, e, h1) =
        bind-passed (validate_collective_args rt all2all input output group) _
          (validate-Quiet rt all2all input output group) h in
      let (member, bound) = validate-passed rt all2all input output group e in
      let size_pos = member-size group accepted member in
      let (n_pos, h2) =
        all2all-slices input output group slice_bytes override n s size_pos shared h in
      (
        record {
          slice_pos = n_pos;
          size_pos = size_pos;
          size_is = size-length group accepted;
          row_is = refl;
        },
        h2,
      )
