-- ===== src/Runtime/Collectives/Launches.antt =====
-- When the launchers that a collective calls do not raise.
use group_free_collectives.Base.{
  ℕ, ◌≤◌, ◌<◌, ◌≡◌, ◌≢◌, refl, ◌==◌, Bool-cases, inl, inr, ap, arith, List, [], ◌∷◌, Outcome, ok,
  err, cdiv, Exc, check, ◌>>=◌, Bool, true, false, lt→ltb, le→leb,
}
use group_free_collectives.Config.{fused_max_chunks_per_channel}
use group_free_collectives.Autotune.{allgather, all2all}
use group_free_collectives.Kernel.Memory.{Copy}
use group_free_collectives.Kernel.Pull.{launch_all_gather_pull, launch_all2all_pull}
use group_free_collectives.Kernel.Tma.{
  check_collective_tma_gates, default_tile_bytes, launch_all_gather_tma, launch_all2all_tma,
}
use group_free_collectives.Kernel.CopyEngine.{
  Enqueued, enqueue_then, enqueue_each, cuda_memcpy_async, launch_all_gather_copy_engine,
  launch_all2all_copy_engine,
}
use group_free_collectives.Kernel.Fused.Launch.{
  partition_of, fused_args, launch_all_gather_fused, launch_all2all_fused,
}
use group_free_collectives.Runtime.State.{Setup}
use group_free_collectives.Runtime.Paths.{
  Call, comm_buf_offset, launch_pull, launch_engine, launch_tma, launch_chunk, fused_call,
  launch_fused,
}

-- The outcome is a value.
abbrev pub Succeeds {ℓ} : {A : Type ℓ} → Outcome A → Type ℓ
Succeeds {A = A} m = (a : A) × (m ≡ ok a)

check-Succeeds {ℓ} :
    {A : Type ℓ} (b : Bool) (e : Exc) (k : Outcome A)
    → b ≡ true
    → Succeeds k
    → Succeeds (check b e >>= λ u. k)
check-Succeeds true e k h r = r
check-Succeeds false e k h r = absurd (cc)

bind-Succeeds {ℓ} :
    {A B : Type ℓ} {m : Outcome A} (f : A → B) → Succeeds m → Succeeds (m >>= λ a. ok (f a))
bind-Succeeds f (a, e) = (f a, ap (λ x. x >>= λ a. ok (f a)) e)

-- A call of the driver that raises was refused a copy.
abbrev pub Refused : (Copy → ℕ) → Outcome (Unit {0}) → Type 0
Refused memcpy r = (e : Exc) → r ≡ err e → (x : Copy) × (memcpy x ≢ 0)

module _ (memcpy : Copy → ℕ) where
  memcpy-Refused : (dst src n : ℕ) → Refused memcpy (cuda_memcpy_async memcpy dst src n).1
  unfolding cuda_memcpy_async
  memcpy-Refused dst src n e h = (record { src = src; dst = dst; len = n }, λ z. raised z)
    where
      raised : memcpy (record { src = src; dst = dst; len = n }) ≡ 0 → ⊥
      raised z = elim (Bool-cases (n == 0)) [
        | inl t ↦
            absurd (cc (h, let p : (cuda_memcpy_async memcpy dst src n).1 ≡ ok tt = rw t refl in p))
        | inr f ↦
            absurd
              (cc (h, let p : (cuda_memcpy_async memcpy dst src n).1 ≡ ok tt = rw (f, z) refl in p))
      ]

  enqueue_then-Refused :
      (m k : Enqueued)
      → Refused memcpy m.1
      → Refused memcpy k.1
      → Refused memcpy (enqueue_then m k).1
  unfolding enqueue_then
  enqueue_then-Refused (cs, ok u) k p q = q
  enqueue_then-Refused (cs, err e) k p q = p

  enqueue_each-Refused :
      (f : ℕ → Enqueued) (is : List ℕ)
      → ((i : ℕ) → Refused memcpy (f i).1)
      → Refused memcpy (enqueue_each f is).1
  unfolding enqueue_each
  enqueue_each-Refused f [] h = λ e eq. absurd (cc)
  enqueue_each-Refused f (i ∷ is) h =
      enqueue_then-Refused (f i) (enqueue_each f is) (h i) (enqueue_each-Refused f is h)

module _ (rt : Setup) (c : Call) where
  pub launch_engine-Refused : Refused rt.memcpy (launch_engine rt c).1
  unfolding launch_engine launch_all_gather_copy_engine launch_all2all_copy_engine
  launch_engine-Refused =
      elim c.collective
        as (λ k. Refused rt.memcpy (launch_engine rt (record c { collective = k })).1) [
          | allgather ↦ enqueue_each-Refused rt.memcpy _ _ (λ i. memcpy-Refused rt.memcpy _ _ _)
          | all2all ↦ enqueue_each-Refused rt.memcpy _ _ (λ i. memcpy-Refused rt.memcpy _ _ _)
        ]

  pub launch_pull-ok :
      (sms : ℕ) → 0 < c.slice_bytes → 0 < c.group.size → 0 < sms → Succeeds (launch_pull rt c sms)
  unfolding launch_pull launch_all_gather_pull launch_all2all_pull
  launch_pull-ok sms n_pos g_pos s_pos =
      elim c.collective as (λ k. Succeeds (launch_pull rt (record c { collective = k }) sms)) [
        | allgather ↦
            (check-Succeeds _ _ _ (lt→ltb 0 c.slice_bytes n_pos) (
              check-Succeeds _ _ _ (lt→ltb 0 c.group.size g_pos) (
                check-Succeeds _ _ _ (lt→ltb 0 sms s_pos) (
                  check-Succeeds _ _ _ (le→leb c.slice_bytes c.slice_bytes (omega arith))
                    (_, refl)))))
        | all2all ↦
            (check-Succeeds _ _ _ (lt→ltb 0 c.slice_bytes n_pos) (
              check-Succeeds _ _ _ (le→leb c.slice_bytes c.slice_bytes (omega arith)) (
                check-Succeeds _ _ _ (le→leb c.slice_bytes c.slice_bytes (omega arith)) (
                  check-Succeeds _ _ _ (lt→ltb 0 c.group.size g_pos)
                    (check-Succeeds _ _ _ (lt→ltb 0 sms s_pos) (_, refl))))))
      ]

  pub launch_tma-ok :
      check_collective_tma_gates c.slice_bytes comm_buf_offset c.output.data_ptr default_tile_bytes
        ≡ ok tt
      → Succeeds (launch_tma rt c)
  unfolding launch_tma launch_all_gather_tma launch_all2all_tma
  launch_tma-ok gates =
      elim c.collective as (λ k. Succeeds (launch_tma rt (record c { collective = k }))) [
        | allgather ↦ rw gates (_, refl)
        | all2all ↦ rw gates (_, refl)
      ]

  pub launch_chunk-ok :
      (offset size : ℕ)
      → 0 < size
      → size ≤ c.slice_bytes
      → 0 < c.group.size
      → 0 < rt.copy_sms
      → Succeeds (launch_chunk rt c offset size)
  unfolding launch_chunk launch_all_gather_pull launch_all2all_pull
  launch_chunk-ok offset size n_pos fits g_pos s_pos =
      elim c.collective
        as (λ k. Succeeds (launch_chunk rt (record c { collective = k }) offset size)) [
          | allgather ↦
              (check-Succeeds _ _ _ (lt→ltb 0 size n_pos) (
                check-Succeeds _ _ _ (lt→ltb 0 c.group.size g_pos) (
                  check-Succeeds _ _ _ (lt→ltb 0 rt.copy_sms s_pos)
                    (check-Succeeds _ _ _ (le→leb size c.slice_bytes fits) (_, refl)))))
          | all2all ↦
              (check-Succeeds _ _ _ (lt→ltb 0 size n_pos) (
                check-Succeeds _ _ _ (le→leb size c.slice_bytes fits) (
                  check-Succeeds _ _ _ (le→leb size c.slice_bytes fits) (
                    check-Succeeds _ _ _ (lt→ltb 0 c.group.size g_pos)
                      (check-Succeeds _ _ _ (lt→ltb 0 rt.copy_sms s_pos) (_, refl))))))
        ]

  pub launch_fused-ok :
      (channels chunk base : ℕ)
      → 0 < c.slice_bytes
      → 0 < c.group.size
      → 0 < channels
      → 0 < chunk
      → cdiv (partition_of c.slice_bytes channels rt.config.alignment) chunk
        ≤ fused_max_chunks_per_channel rt.config
      → Succeeds (launch_fused rt c (fused_call rt c channels chunk base))
  unfolding launch_fused launch_all_gather_fused launch_all2all_fused fused_args fused_call
  launch_fused-ok channels chunk base n_pos g_pos c_pos k_pos bound =
      elim c.collective
        as (λ k.
          Succeeds
            (launch_fused rt (record c { collective = k }) (fused_call rt c channels chunk base))) [
              | allgather ↦ bind-Succeeds _ fused_args_ok
              | all2all ↦ bind-Succeeds _ fused_args_ok
            ]
    where
      fused_args_ok : Succeeds (fused_args (fused_call rt c channels chunk base))
      fused_args_ok =
          (check-Succeeds _ _ _ (lt→ltb 0 c.slice_bytes n_pos) (
            check-Succeeds _ _ _ (lt→ltb 0 c.group.size g_pos) (
              check-Succeeds _ _ _ (lt→ltb 0 channels c_pos) (
                check-Succeeds _ _ _ (lt→ltb 0 chunk k_pos)
                  (check-Succeeds _ _ _ (le→leb _ _ bound) (_, refl))))))
