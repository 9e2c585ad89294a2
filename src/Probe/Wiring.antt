-- ===== src/Probe/Wiring.antt =====
-- What a positive answer says of the addresses that the ranks hold.
use native.Mathlib.Nat.{mod-lt}
use group_free_collectives.Base.{
  ℕ, zero, suc, ◌+◌, ◌-◌, ◌≤◌, ◌<◌, ◌≡◌, ◌≢◌, ◌⊎◌, ◌↔◌, sym, ap, subst, ◌∙◌, arith, inl, inr, true,
  none, some, List, [], ℕ_discrete, some-injective, le→leb, lt→ltb, min,
}
use group_free_collectives.Kernel.Memory.{Memory, Copy, run, run_empty, run-staged}
use group_free_collectives.Kernel.Strided.{Apart}
use group_free_collectives.Probe.{
  ProbeRank, probe_bytes, block_bytes, tma_probe_kernel, pattern, stage_pattern, peer_of,
  all_staged, probe_tma_supported,
}
use group_free_collectives.Probe.Laws.{pattern-injective, Reads, probe_tma_supported_iff}

-- Ranks whose buffers do not overlap, on devices that each carry out the kernel or raise: at the
-- address that a rank takes for its peer's lies the buffer of the rank `holder`.
pub record IsWired (world : ℕ) (ranks : ℕ → ProbeRank) (holder : ℕ → ℕ) : Type 0 where
  pub few : world ≤ 256
  pub disjoint :
      (p q : ℕ)
      → p < world
      → q < world
      → p ≢ q
      → Apart (ranks p).comm_buf probe_bytes (ranks q).comm_buf probe_bytes
  pub holder_lt : (rank : ℕ) → rank < world → holder rank < world
  pub at_holder :
      (rank : ℕ)
      → rank < world
      → (ranks rank).buffer_ptrs (peer_of world ranks rank) ≡ (ranks (holder rank)).comm_buf
  pub performs :
      (rank : ℕ) (cs : List Copy) (m : Memory)
      → ((ranks rank).runs cs m ≡ none) ⊎ ((ranks rank).runs cs m ≡ some (run cs m))

-- What staging leaves inside a buffer, and outside it.
stage_pattern-inside :
    (n rank base : ℕ) (m : Memory) (i : ℕ)
    → i < n
    → stage_pattern n rank base m (base + i) ≡ pattern rank i
unfolding stage_pattern
stage_pattern-inside n rank base m i lt =
    rw (le→leb base (base + i) (omega arith), lt→ltb (base + i) (base + n) (omega arith))
      (ap (pattern rank) (omega arith))

stage_pattern-outside :
    (n rank base : ℕ) (m : Memory) (a : ℕ)
    → (a < base) ⊎ (base + n ≤ a)
    → stage_pattern n rank base m a ≡ m a
unfolding stage_pattern
stage_pattern-outside n rank base m a (inl h) = ground arith
stage_pattern-outside n rank base m a (inr h) = ground arith

Apart-off :
    (src n dst size i : ℕ) → i < n → Apart src n dst size → (src + i < dst) ⊎ (dst + size ≤ src + i)
Apart-off src n dst size i lt (inl h) = inl (omega arith)
Apart-off src n dst size i lt (inr h) = inr (omega arith)

-- The kernel brings the bytes that it is pointed at.
tma_probe_kernel-run :
    (src dst n : ℕ) (m : Memory) (i : ℕ)
    → i < n
    → run (tma_probe_kernel src dst n n) m (dst + i) ≡ m (src + i)
unfolding tma_probe_kernel
tma_probe_kernel-run src dst n m i lt =
    run-staged (record { src = src + 0; dst = dst + 0; len = min n (n - 0) }) [] m (dst + i) i
      (omega arith)
      (λ m'. run_empty m' (dst + i) ∙ ap m' (let e : dst + i ≡ dst + 0 + i = omega arith in e))
    ∙ ap m (let e : src + 0 + i ≡ src + i = omega arith in e)

module _ (world : ℕ) (ranks : ℕ → ProbeRank) (holder : ℕ → ℕ)
    (wired : IsWired world ranks holder) where
  -- After the staging each rank's buffer holds its pattern.
  all_staged-pattern :
      (count : ℕ) (m : Memory) (p i : ℕ)
      → count ≤ world
      → p < count
      → i < probe_bytes
      → all_staged world ranks count m ((ranks p).comm_buf + i) ≡ pattern p i
  unfolding all_staged
  all_staged-pattern zero m p i le lt in_range = absurd (omega arith)
  all_staged-pattern (suc count) m p i le lt in_range = elim (ℕ_discrete p count) [
    | yes at ↦
        subst
          (λ q.
            stage_pattern probe_bytes count (ranks count).comm_buf (all_staged world ranks count m)
              ((ranks q).comm_buf + i)
            ≡ pattern q i)
          (sym at)
          (stage_pattern-inside probe_bytes count (ranks count).comm_buf
            (all_staged world ranks count m) i in_range)
    | no off ↦
        stage_pattern-outside probe_bytes count (ranks count).comm_buf
          (all_staged world ranks count m) _
          (Apart-off _ probe_bytes _ probe_bytes i in_range
            (wired.disjoint p count (omega arith) (omega arith) off))
        ∙ all_staged-pattern count m p i (omega arith) (omega arith) in_range
  ]

  abbrev peer_ptr : ℕ → ℕ
  peer_ptr rank = (ranks rank).buffer_ptrs (peer_of world ranks rank)

  -- What a rank's kernel leaves in its buffer: the pattern of the rank that it is pointed at.
  abbrev left : Memory → ℕ → Memory
  left m rank =
      run (tma_probe_kernel (peer_ptr rank) (ranks rank).local_probe probe_bytes block_bytes)
        (all_staged world ranks world m)

  left-pattern :
      (m : Memory) (rank i : ℕ)
      → rank < world
      → i < probe_bytes
      → left m rank ((ranks rank).local_probe + i) ≡ pattern (holder rank) i
  left-pattern m rank i lt in_range =
      tma_probe_kernel-run (peer_ptr rank) (ranks rank).local_probe probe_bytes _ i in_range
      ∙ ap (λ (x : ℕ). all_staged world ranks world m (x + i)) (wired.at_holder rank lt)
      ∙ all_staged-pattern world m (holder rank) i (omega arith) (wired.holder_lt rank lt) in_range

  -- The rank's launch does not raise.
  abbrev pub Launches : Memory → ℕ → Type 0
  Launches m rank =
      (ranks rank).runs
        (tma_probe_kernel (peer_ptr rank) (ranks rank).local_probe probe_bytes block_bytes)
        (all_staged world ranks world m)
      ≢ none

  performed :
      (m : Memory) (rank : ℕ) {m' : Memory}
      → (ranks rank).runs
          (tma_probe_kernel (peer_ptr rank) (ranks rank).local_probe probe_bytes block_bytes)
          (all_staged world ranks world m)
        ≡ some m'
      → left m rank ≡ m'
  performed m rank {m'} e = elim (wired.performs rank _ _) [
    | inl raised ↦ let clash : none ≡ some m' = sym raised ∙ e in absurd (cc clash)
    | inr done ↦ some-injective (sym done ∙ e)
  ]

  reads :
      (m : Memory) (rank : ℕ)
      → rank < world
      → Launches m rank
      → holder rank ≡ peer_of world ranks rank
      → Reads world ranks (all_staged world ranks world m) rank
  reads m rank lt launches wire = elim (wired.performs rank _ _) [
    | inl raised ↦ absurd (launches raised)
    | inr done ↦ (
      left m rank,
      done,
      λ i in_range. left-pattern m rank i lt in_range ∙ ap (λ (q : ℕ). pattern q i) wire,
    )
  ]

  told :
      (m : Memory) (rank : ℕ)
      → rank < world
      → Reads world ranks (all_staged world ranks world m) rank
      → holder rank ≡ peer_of world ranks rank
  told m rank lt (m', e, same) =
      let kept = performed m rank e in
      let below : peer_of world ranks rank < world = mod-lt (rank + 1) (omega arith) in
      pattern-injective (holder rank) (peer_of world ranks rank) 0
        (omega (arith, wired.few, wired.holder_lt rank lt)) (omega (arith, wired.few))
        (sym (left-pattern m rank 0 lt (omega arith))
          ∙ ap (λ f. f ((ranks rank).local_probe + 0)) kept
          ∙ same 0 (omega arith))

  pub probe_tma_supported-tells :
      (m : Memory)
      → (probe_tma_supported world ranks m ≡ true)
        ↔ ((rank : ℕ) → rank < world → Launches m rank × (holder rank ≡ peer_of world ranks rank))
  probe_tma_supported-tells m =
      let (there, back) = probe_tma_supported_iff world ranks m in
      (
        λ e rank lt. (
          λ raised. let (m', done, same) = there e rank lt in cc (sym raised ∙ done),
          told m rank lt (there e rank lt),
        ),
        λ wires.
            back λ rank lt. let (launches, wire) = wires rank lt in reads m rank lt launches wire,
      )
