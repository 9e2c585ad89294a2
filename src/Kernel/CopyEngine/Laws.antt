-- ===== src/Kernel/CopyEngine/Laws.antt =====
-- What the copy-engine launches move: each peer's slice, in the order of the ring.
use group_free_collectives.Base.{
  ℕ, ◌+◌, ◌*◌, ◌<◌, ◌≡◌, refl, subst, inl, inr, List, [], ◌∷◌, ◌++◌, map, false, Bool, Bool-cases,
  ◌==◌, arith, All, length, range, row_of, ok, err,
}
use group_free_collectives.Base.Membership.{
  Elem, here, there, Elem-append_left, Elem-append_right, All-append, Elem-range, Elem-map,
  map-Elem, range-lt,
}
use group_free_collectives.Kernel.Memory.{Copy, Agrees}
use group_free_collectives.Kernel.Strided.{
  Apart, Moves, target, origin, strided-Piece, strided-Moves,
}
use group_free_collectives.Kernel.Pull.{ring_index}
use group_free_collectives.Kernel.Pull.Coverage.{Piece, Written, ring_index-onto}
use group_free_collectives.Kernel.Pull.Ring.{ring_index-lt}
use group_free_collectives.Kernel.Pull.Laws.{gather_src, exchange_src}
use group_free_collectives.Kernel.CopyEngine.{
  Enqueued, swizzled_indices, enqueue_then, enqueue_each, cuda_memcpy_async,
  launch_all_gather_copy_engine, launch_all2all_copy_engine,
}

-- What the calls of a loop that succeeded have enqueued.
module _ (P : Copy → Type 0) (f : ℕ → Enqueued) where
  then-All :
      (e next : Enqueued)
      → (enqueue_then e next).1 ≡ ok tt
      → ((e.1 ≡ ok tt) → All P e.0)
      → ((next.1 ≡ ok tt) → All P next.0)
      → All P (enqueue_then e next).0
  unfolding enqueue_then
  then-All (cs, ok u) (ds, r) h p q = All-append P cs ds (p refl) (q h)
  then-All (cs, err x) next h p q = absurd (cc)

  each-All :
      (is : List ℕ)
      → (enqueue_each f is).1 ≡ ok tt
      → ((i : ℕ) → Elem i is → (f i).1 ≡ ok tt → All P (f i).0)
      → All P (enqueue_each f is).0
  unfolding enqueue_each
  each-All [] h p = tt
  each-All (i ∷ is) h p =
      then-All (f i) (enqueue_each f is) h (p i (here refl))
        (λ e. each-All is e (λ j m. p j (there m)))

then-ok :
    (e next : Enqueued)
    → (enqueue_then e next).1 ≡ ok tt
    → (e.1 ≡ ok tt) × (next.1 ≡ ok tt) × ((enqueue_then e next).0 ≡ e.0 ++ next.0)
unfolding enqueue_then
then-ok (cs, ok u) (ds, r) h = (refl, h, refl)
then-ok (cs, err x) next h = absurd (cc)

each-Written :
    (f : ℕ → Enqueued) (is : List ℕ) (a i : ℕ)
    → (enqueue_each f is).1 ≡ ok tt
    → Elem i is
    → ((f i).1 ≡ ok tt → Written a (f i).0)
    → Written a (enqueue_each f is).0
unfolding enqueue_each
each-Written f (j ∷ is) a i h (here e) w =
    let parts = then-ok (f j) (enqueue_each f is) h in
    let found = w (rw e parts.0) in
    (
      found.0,
      rw parts.2 (Elem-append_left _ (subst (λ k. Elem found.0 (f k).0) e found.1)),
      found.2,
    )
each-Written f (j ∷ is) a i h (there m) w =
    let parts = then-ok (f j) (enqueue_each f is) h in
    let found = each-Written f is a i parts.1 m w in
    (found.0, rw parts.2 (Elem-append_right (f j).0 found.1), found.2)
each-Written f [] a i h m w = elim m [ ]

-- The swizzled indices are those of the group, each of them.
swizzled-lt : (g self i : ℕ) → Elem i (swizzled_indices g self) → i < g
unfolding swizzled_indices
swizzled-lt g self i m =
    let (d, n, e) = map-Elem (ring_index self g) (range g) m in
    rw e (ring_index-lt self g d (omega (arith, range-lt g n)))

swizzled-onto : (g self i : ℕ) → i < g → Elem i (swizzled_indices g self)
unfolding swizzled_indices
swizzled-onto g self i lt =
    let (d, d_lt, at) = ring_index-onto self g i lt in
    subst (λ k. Elem k (map (ring_index self g) (range g))) at
      (Elem-map (ring_index self g) (Elem-range g d d_lt))

-- A copy of a whole piece agrees with it.
pub whole-Agrees :
    {is_target : ℕ → Bool} {from : ℕ → ℕ} {src dst n : ℕ}
    → Piece is_target from src dst n
    → Agrees is_target from (record { src = src; dst = dst; len = n })
whole-Agrees piece = record { inside = piece.inside; from = piece.from; outside = piece.outside }

-- What one call has enqueued, where the driver accepted it.
module _ (memcpy : Copy → ℕ) where
  pub memcpy-All :
      (P : Copy → Type 0) (dst src n : ℕ)
      → (P (record { src = src; dst = dst; len = n }))
      → All P (cuda_memcpy_async memcpy dst src n).0
  unfolding cuda_memcpy_async
  memcpy-All P dst src n p = elim (Bool-cases (n == 0)) [
    | inl e ↦ rw e tt
    | inr e ↦ elim (Bool-cases (memcpy (record { src = src; dst = dst; len = n }) == 0)) [
      | inl fine ↦ rw (e, fine) (p, tt)
      | inr fails ↦ rw (e, fails) tt
    ]
  ]

  pub memcpy-Written :
      (dst src n b : ℕ)
      → b < n
      → (cuda_memcpy_async memcpy dst src n).1 ≡ ok tt
      → Written (dst + b) (cuda_memcpy_async memcpy dst src n).0
  unfolding cuda_memcpy_async
  memcpy-Written dst src n b lt h =
      elim (Bool-cases (memcpy (record { src = src; dst = dst; len = n }) == 0)) [
        | inl fine ↦ rw (nonzero, fine) (_, here refl, omega arith)
        | inr fails ↦ absurd (cc (nonzero, fails, h))
      ]
    where
      nonzero : (n == 0) ≡ false
      nonzero = ground arith

  module _ (src_of : ℕ → ℕ) (dst n g self : ℕ) where
    abbrev calls : Enqueued
    calls =
        enqueue_each (λ i. cuda_memcpy_async memcpy (dst + i * n) (src_of i) n)
          (swizzled_indices g self)

    calls-Moves :
        calls.1 ≡ ok tt
        → ((i : ℕ) → i < g → Apart (src_of i) n dst (g * n))
        → Moves src_of dst n n g calls.0
    calls-Moves h apart =
        strided-Moves src_of dst n n g (omega arith) apart _
          (each-All (Agrees (target src_of dst n n g) (origin src_of dst n n g)) _ _ h λ i m e.
            memcpy-All _ (dst + i * n) (src_of i) n (
              whole-Agrees
                (strided-Piece src_of dst n n g (omega arith) apart i (swizzled-lt g self i m))))
          (λ i b p q.
            each-Written _ _ _ i h (swizzled-onto g self i p)
              (memcpy-Written (dst + i * n) (src_of i) n b q))

  module _ (peer_comm_ptrs : ℕ → ℕ) (dst_ptr : ℕ) (group_ranks : List ℕ)
      (offset self_idx slice_bytes : ℕ) where
    -- The copies that an all-gather of the copy engine has enqueued, where it did not raise, move
    -- each peer's slice to its place in the output and change no other byte, where the slices lie
    -- outside the output.
    pub launch_all_gather_copy_engine-Moves :
        (launch_all_gather_copy_engine memcpy peer_comm_ptrs dst_ptr group_ranks offset self_idx
            slice_bytes).1
          ≡ ok tt
        → ((i : ℕ)
            → i < length group_ranks
            → Apart
                (gather_src (row_of group_ranks) peer_comm_ptrs offset i)
                slice_bytes
                dst_ptr
                (length group_ranks * slice_bytes))
        → Moves
            (gather_src (row_of group_ranks) peer_comm_ptrs offset)
            dst_ptr
            slice_bytes
            slice_bytes
            (length group_ranks)
            (launch_all_gather_copy_engine memcpy peer_comm_ptrs dst_ptr group_ranks offset self_idx
              slice_bytes).0
    unfolding launch_all_gather_copy_engine
    launch_all_gather_copy_engine-Moves h apart =
        calls-Moves (gather_src (row_of group_ranks) peer_comm_ptrs offset) dst_ptr slice_bytes
          (length group_ranks) self_idx h apart

    -- The same for an all2all of the copy engine.
    pub launch_all2all_copy_engine-Moves :
        (launch_all2all_copy_engine memcpy peer_comm_ptrs dst_ptr group_ranks offset self_idx
            slice_bytes).1
          ≡ ok tt
        → ((i : ℕ)
            → i < length group_ranks
            → Apart
                (exchange_src (row_of group_ranks) peer_comm_ptrs offset self_idx slice_bytes i)
                slice_bytes
                dst_ptr
                (length group_ranks * slice_bytes))
        → Moves
            (exchange_src (row_of group_ranks) peer_comm_ptrs offset self_idx slice_bytes)
            dst_ptr
            slice_bytes
            slice_bytes
            (length group_ranks)
            (launch_all2all_copy_engine memcpy peer_comm_ptrs dst_ptr group_ranks offset self_idx
              slice_bytes).0
    unfolding launch_all2all_copy_engine
    launch_all2all_copy_engine-Moves h apart =
        calls-Moves (exchange_src (row_of group_ranks) peer_comm_ptrs offset self_idx slice_bytes)
          dst_ptr slice_bytes (length group_ranks) self_idx h apart
