-- ===== src/Probe/Laws.antt =====
-- What the probe's answer tells.
use group_free_collectives.Base.{
  ℕ, zero, suc, ◌+◌, ◌≤◌, ◌<◌, ◌≡◌, ◌↔◌, refl, sym, ap, subst, ◌∙◌, arith, Bool, true, false,
  Option, none, some, if◌then◌else◌, ℕ_discrete, some-injective,
}
use group_free_collectives.Kernel.Memory.{Memory}
use group_free_collectives.Probe.{
  ProbeRank, probe_bytes, block_bytes, tma_probe_kernel, pattern, equal_bytes, compared, reduce_min,
  peer_of, all_staged, local_ok, probe_tma_supported,
}

-- Below 256, ranks whose patterns agree in any one byte are the same.
pub pattern-injective : (r q i : ℕ) → r < 256 → q < 256 → pattern r i ≡ pattern q i → r ≡ q
unfolding pattern
pattern-injective r q i r_lt q_lt e = omega arith

pub equal_bytes_iff :
    (n : ℕ) (f h : ℕ → ℕ) → (equal_bytes n f h ≡ true) ↔ ((i : ℕ) → i < n → f i ≡ h i)
unfolding equal_bytes
equal_bytes_iff zero f h = (λ e i lt. absurd (omega arith), λ same. refl)
equal_bytes_iff (suc n) f h =
    let (there, back) = equal_bytes_iff n f h in
    (
      λ e i lt. elim (ℕ_discrete i n) [
        | yes at ↦ subst (λ x. f x ≡ h x) (sym at) (ground arith)
        | no off ↦ there (ground arith) i (omega arith)
      ],
      λ same.
          let last = same n (omega arith) in
          rw (back (λ i lt. same i (omega arith))) (ground arith),
    )

reduce_min_le : (n : ℕ) (f : ℕ → ℕ) → reduce_min n f ≤ 1
unfolding reduce_min
reduce_min_le zero f = omega arith
reduce_min_le (suc n) f = omega (arith, reduce_min_le n f)

pub reduce_min_iff :
    (n : ℕ) (f : ℕ → ℕ) → ((i : ℕ) → f i ≤ 1) → (reduce_min n f ≡ 1) ↔ ((i : ℕ) → i < n → f i ≡ 1)
unfolding reduce_min
reduce_min_iff zero f small = (λ e i lt. absurd (omega arith), λ all. refl)
reduce_min_iff (suc n) f small =
    let (there, back) = reduce_min_iff n f small in
    (
      λ e i lt. elim (ℕ_discrete i n) [
        | yes at ↦ subst (λ x. f x ≡ 1) (sym at) (omega (arith, e, small n))
        | no off ↦ there (omega (arith, e, small n, reduce_min_le n f)) i (omega arith)
      ],
      λ all.
          let last = all n (omega arith) in
          let rest = back (λ i lt. all i (omega arith)) in omega (arith, last, rest),
    )

abbrev bit : Bool → ℕ
bit b = if b then 1 else 0

bit_le : (b : Bool) → bit b ≤ 1
bit_le true = omega arith
bit_le false = omega arith

bit-true : (b : Bool) → bit b ≡ 1 → b ≡ true
bit-true true e = refl
bit-true false e = absurd (omega (arith, e))

module _ (local_probe peer : ℕ) where
  compared_le : (o : Option Memory) → compared local_probe peer o ≤ 1
  unfolding compared
  compared_le none = omega arith
  compared_le (some m) = bit_le _

  compared_iff :
      (o : Option Memory)
      → (compared local_probe peer o ≡ 1) ↔ (
          (m : Memory) × (o ≡ some m)
          × ((i : ℕ) → i < probe_bytes → m (local_probe + i) ≡ pattern peer i))
  unfolding compared
  compared_iff none = (λ e. absurd (omega (arith, e)), λ (m, e, same). absurd (cc))
  compared_iff (some m) =
      let (there, back) = equal_bytes_iff probe_bytes (λ i. m (local_probe + i)) (pattern peer) in
      (
        λ e. (m, refl, there (bit-true _ e)),
        λ (m', e, same).
            rw (back (λ i lt. ap (λ f. f (local_probe + i)) (some-injective e) ∙ same i lt)) refl,
      )

module _ (world : ℕ) (ranks : ℕ → ProbeRank) where
  -- The rank's launch did not raise, and left its peer's pattern in its buffer.
  abbrev pub Reads : Memory → ℕ → Type 0
  Reads m rank =
      (m' : Memory) × ((ranks rank).runs
          (tma_probe_kernel ((ranks rank).buffer_ptrs (peer_of world ranks rank))
            (ranks rank).local_probe probe_bytes block_bytes)
          m
        ≡ some m')
      × ((i : ℕ)
          → i < probe_bytes
          → m' ((ranks rank).local_probe + i) ≡ pattern (peer_of world ranks rank) i)

  local_ok_le : (m : Memory) (rank : ℕ) → local_ok world ranks m rank ≤ 1
  unfolding local_ok
  local_ok_le m rank = compared_le (ranks rank).local_probe (peer_of world ranks rank) _

  local_ok_iff : (m : Memory) (rank : ℕ) → (local_ok world ranks m rank ≡ 1) ↔ Reads m rank
  unfolding local_ok
  local_ok_iff m rank = compared_iff (ranks rank).local_probe (peer_of world ranks rank) _

  -- The probe answers yes exactly if every rank, on the memory that the staging left, launched its
  -- kernel without an exception and found its peer's pattern in its buffer, in every byte.
  pub probe_tma_supported_iff :
      (m : Memory)
      → (probe_tma_supported world ranks m ≡ true)
        ↔ ((rank : ℕ) → rank < world → Reads (all_staged world ranks world m) rank)
  unfolding probe_tma_supported
  probe_tma_supported_iff m =
      let after = all_staged world ranks world m in
      let (there, back) = reduce_min_iff world (local_ok world ranks after) (local_ok_le after) in
      (
        λ e rank lt. (local_ok_iff after rank).0 (there (ground arith) rank lt),
        λ all.
            let least = back (λ rank lt. (local_ok_iff after rank).1 (all rank lt)) in
            rw least refl,
      )
