-- ===== src/Kernel/Fused/Fleet/Staging.antt =====
-- What the senders of the two kernels stage.
use group_free_collectives.Base.{
  ℕ, ◌+◌, ◌*◌, ◌<◌, ◌≡◌, refl, inl, inr, none, some, some-injective, List, arith, range,
}
use native.Mathlib.Nat.{mul-le-mul_right}
use group_free_collectives.Base.Membership.{
  All-imp, All-concat_map, All-append, Elem-concat_map, Elem-range, range-lt, Elem-append_left,
  Elem-append_right,
}
use group_free_collectives.Kernel.Memory.{Copy}
use group_free_collectives.Kernel.Fused.{
  FusedArgs, this_chunk, base_byte, gather_stage, exchange_stage, all_gather_fused_kernel,
  all2all_fused_kernel,
}
use group_free_collectives.Kernel.Fused.BlockCopy.{block-TakesPart, block-Written, only-IsTarget}
use group_free_collectives.Kernel.Fused.Programs.{program}
use group_free_collectives.Kernel.Fused.Fleet.{IsGeometry, member, window, Stages, IsStaging}
use group_free_collectives.Kernel.Fused.Fleet.Aims.{base_byte-end}

-- Both kernels are the two programs, with their own staging.
pub all_gather-program :
    (a : FusedArgs) (ranks cb_ptrs : ℕ → ℕ) (pid : ℕ)
    → all_gather_fused_kernel a ranks cb_ptrs pid
      ≡ program a ranks cb_ptrs (gather_stage a ranks cb_ptrs) 0 pid
unfolding all_gather_fused_kernel
all_gather-program a ranks cb_ptrs pid = refl

pub all2all-program :
    (a : FusedArgs) (ranks cb_ptrs : ℕ → ℕ) (pid : ℕ)
    → all2all_fused_kernel a ranks cb_ptrs pid
      ≡ program a ranks cb_ptrs
          (exchange_stage a ranks cb_ptrs)
          (a.self_local_index * a.slice_bytes)
          pid
unfolding all2all_fused_kernel
all2all-program a ranks cb_ptrs pid = refl

module _ (a : FusedArgs) (ins outs widths ranks cb_ptrs : ℕ → ℕ) where
  abbrev pub gathers : ℕ → ℕ → ℕ → List Copy
  gathers i channel k =
      gather_stage (member a ins outs widths ranks cb_ptrs i) ranks cb_ptrs channel k

  abbrev pub exchanges : ℕ → ℕ → ℕ → List Copy
  exchanges i channel k =
      exchange_stage (member a ins outs widths ranks cb_ptrs i) ranks cb_ptrs channel k

  abbrev win : ℕ → ℕ
  win = window a ins outs widths ranks cb_ptrs

  module _ (geometry : IsGeometry a) (widths_pos : (i : ℕ) → i < a.group_size → 0 < widths i) where
    pub gather-IsStaging : IsStaging a ins outs widths ranks cb_ptrs a.slice_bytes gathers (λ t. 0)
    unfolding gather_stage
    gather-IsStaging = record {
      pieces_fit = λ t ht. omega arith;
      stages = λ i channel k hi lt.
          All-imp _ (Stages a ins outs widths ranks cb_ptrs a.slice_bytes gathers (λ t. 0) i)
            (λ c (o, d, fits, from, to, goal).
              let end = base_byte-end a channel k geometry.chunk_pos lt in
              elim goal [
                | inl e ↦ inl (base_byte a channel k + o, omega arith, omega arith, omega arith)
                | inr e ↦
                    let at = some-injective e in
                    inr (base_byte a channel k + o, omega arith, omega arith, omega arith)
              ])
            _
            (block-TakesPart (ins i + base_byte a channel k) (win i + base_byte a channel k)
              (some (outs i + i * a.slice_bytes + base_byte a channel k)) a.block_elts
              (this_chunk a channel k) (widths i));
      for_peers = λ i t channel k b hi ht lt hb.
          let (c, m, w) =
            block-Written (ins i + base_byte a channel k) (win i + base_byte a channel k)
              (some (outs i + i * a.slice_bytes + base_byte a channel k)) a.block_elts
              (this_chunk a channel k) (widths i) (win i + base_byte a channel k) b
              geometry.block_pos (widths_pos i hi) (inl refl) hb in
          (c, m, omega arith);
      for_self = λ i channel k b hi lt hb.
          let (c, m, w) =
            block-Written (ins i + base_byte a channel k) (win i + base_byte a channel k)
              (some (outs i + i * a.slice_bytes + base_byte a channel k)) a.block_elts
              (this_chunk a channel k) (widths i)
              (outs i + i * a.slice_bytes + base_byte a channel k) b geometry.block_pos
              (widths_pos i hi) (inr refl) hb in
          (c, m, omega arith);
    }

    pub exchange-IsStaging :
        IsStaging a ins outs widths ranks cb_ptrs
          (a.group_size * a.slice_bytes)
          exchanges
          (λ t. t * a.slice_bytes)
    unfolding exchange_stage
    exchange-IsStaging = record {
      pieces_fit = λ t ht. omega (arith, mul-le-mul_right a.slice_bytes ht);
      stages = λ i channel k hi lt.
          let end = base_byte-end a channel k geometry.chunk_pos lt in
          All-append _ _ _
            (All-concat_map _ _ (range a.group_size) λ t m.
              All-imp _
                (Stages a ins outs widths ranks cb_ptrs (a.group_size * a.slice_bytes) exchanges
                  (λ t. t * a.slice_bytes) i)
                (λ c (o, d, fits, from, to, goal).
                  let at = only-IsTarget goal in
                  inl (
                    t * a.slice_bytes + (base_byte a channel k + o),
                    omega (arith, mul-le-mul_right a.slice_bytes (range-lt a.group_size m)),
                    omega arith,
                    omega arith,
                  ))
                _
                (block-TakesPart (ins i + t * a.slice_bytes + base_byte a channel k)
                  (win i + t * a.slice_bytes + base_byte a channel k) none a.block_elts
                  (this_chunk a channel k) (widths i)))
            (All-imp _
              (Stages a ins outs widths ranks cb_ptrs (a.group_size * a.slice_bytes) exchanges
                (λ t. t * a.slice_bytes) i)
              (λ c (o, d, fits, from, to, goal).
                let at = only-IsTarget goal in
                inr (base_byte a channel k + o, omega arith, omega arith, omega arith))
              _
              (block-TakesPart (ins i + i * a.slice_bytes + base_byte a channel k)
                (outs i + i * a.slice_bytes + base_byte a channel k) none a.block_elts
                (this_chunk a channel k) (widths i)));
      for_peers = λ i t channel k b hi ht lt hb.
          let (c, m, w) =
            block-Written (ins i + t * a.slice_bytes + base_byte a channel k)
              (win i + t * a.slice_bytes + base_byte a channel k) none a.block_elts
              (this_chunk a channel k) (widths i)
              (win i + t * a.slice_bytes + base_byte a channel k) b geometry.block_pos
              (widths_pos i hi) (inl refl) hb in
          (c, Elem-append_left _ (Elem-concat_map _ (Elem-range a.group_size t ht) m), omega arith);
      for_self = λ i channel k b hi lt hb.
          let (c, m, w) =
            block-Written (ins i + i * a.slice_bytes + base_byte a channel k)
              (outs i + i * a.slice_bytes + base_byte a channel k) none a.block_elts
              (this_chunk a channel k) (widths i)
              (outs i + i * a.slice_bytes + base_byte a channel k) b geometry.block_pos
              (widths_pos i hi) (inl refl) hb in
          (c, Elem-append_right _ m, omega arith);
    }
