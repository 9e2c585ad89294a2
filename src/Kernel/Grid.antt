-- ===== src/Kernel/Grid.antt =====
-- The persistent loop that the kernels share: program `pid` of `grid` takes the work items
-- `pid, pid + grid, …` below the total.
use native.Mathlib.Nat.{mod-lt}
use group_free_collectives.Base.{
  ℕ, zero, suc, ◌+◌, ◌*◌, ◌/◌, ◌%◌, ◌≤◌, ◌<◌, ◌≡◌, List, [], ◌∷◌, arith, ltb, min, if◌then◌else◌,
  All, Bool-cases, inl, inr, ltb→lt, lt→ltb, div-mul-add-mod,
}
use group_free_collectives.Base.Membership.{Elem, here, there, elem-All}

-- `while task < total: …; task += stride`, the tasks it visits; `fuel` bounds the rounds.
unfoldable pub persistent : ℕ → ℕ → ℕ → ℕ → List ℕ
persistent zero task total stride = []
persistent (suc fuel) task total stride =
    let rest = persistent fuel (task + stride) total stride in
    if ltb task total then task ∷ rest else []

module _ (total stride : ℕ) (pos : 0 < stride) where
  persistent-reaches :
      (fuel k task i : ℕ)
      → total ≤ task + fuel
      → i ≡ task + k * stride
      → i < total
      → Elem i (persistent fuel task total stride)
  unfolding persistent
  persistent-reaches zero k task i enough e below = absurd (omega arith)
  persistent-reaches (suc fuel) zero task i enough e below =
      rw (lt→ltb task total (omega arith)) (here (omega arith))
  persistent-reaches (suc fuel) (suc k) task i enough e below =
      rw (lt→ltb task total (omega arith))
        (there (persistent-reaches fuel k (task + stride) i (omega arith) (omega arith) below))

  -- With fuel for `total` rounds, the programs of the grid together reach every work item.
  pub grid-reaches :
      (i : ℕ) → i < total → (pid : ℕ) × (pid < stride) × Elem i (persistent total pid total stride)
  grid-reaches i below = (
    i % stride,
    omega arith,
    persistent-reaches total (i / stride) (i % stride) i (omega arith)
        (omega (arith, div-mul-add-mod i stride)) below,
  )

  -- A grid that is clipped to the work reaches as much.
  pub clipped-reaches :
      (i : ℕ)
      → i < total
      → (pid : ℕ) × (pid < min stride total) × Elem i (persistent total pid total stride)
  clipped-reaches i below = (
    i % stride,
    omega (arith, div-mul-add-mod i stride, mod-lt i pos),
    persistent-reaches total (i / stride) (i % stride) i (omega arith)
        (omega (arith, div-mul-add-mod i stride)) below,
  )

persistent-All :
    (fuel task total stride : ℕ) → All (λ i. i < total) (persistent fuel task total stride)
unfolding persistent
persistent-All zero task total stride = tt
persistent-All (suc fuel) task total stride = elim (Bool-cases (ltb task total)) [
  | inl e ↦ rw e (ltb→lt task total e, persistent-All fuel (task + stride) total stride)
  | inr e ↦ rw e tt
]

-- A program visits only work items below the total.
pub persistent-lt :
    (fuel task total stride : ℕ) {i : ℕ} → Elem i (persistent fuel task total stride) → i < total
persistent-lt fuel task total stride m =
    elem-All (λ i. i < total) m (persistent-All fuel task total stride)
