-- ===== src/Kernel/Family.antt =====
-- Functions of two indices, changed at one place.
use group_free_collectives.Base.{
  ℕ, ◌≡◌, ◌⊎◌, inl, inr, refl, ◌&&◌, true, false, ◌==◌, if◌then◌else◌, arith,
}

unfoldable pub set2 {ℓ} : {A : Type ℓ} → (ℕ → ℕ → A) → ℕ → ℕ → A → ℕ → ℕ → A
set2 f i j v x y = if (x == i) && (y == j) then v else f x y

at_place :
    (i j x y : ℕ)
    → ((x ≡ i) × (y ≡ j) × (((x == i) && (y == j)) ≡ true))
      ⊎ (¬ ((x ≡ i) × (y ≡ j)) × (((x == i) && (y == j)) ≡ false))
at_place i j x y = ground arith

-- A read finds the new value at the place, and the old one elsewhere.
pub set2-cases {ℓ} :
    {A : Type ℓ} (f : ℕ → ℕ → A) (i j : ℕ) (v : A) (x y : ℕ)
    → ((x ≡ i) × (y ≡ j) × (set2 f i j v x y ≡ v))
      ⊎ (¬ ((x ≡ i) × (y ≡ j)) × (set2 f i j v x y ≡ f x y))
unfolding set2
set2-cases f i j v x y = elim (at_place i j x y) [
  | inl at ↦ inl (at.0, at.1, rw at.2 refl)
  | inr off ↦ inr (off.0, rw off.1 refl)
]

-- The place itself.
pub set2-same {ℓ} : {A : Type ℓ} (f : ℕ → ℕ → A) (i j : ℕ) (v : A) → set2 f i j v i j ≡ v
set2-same f i j v = elim (set2-cases f i j v i j) [
  | inl at ↦ at.2
  | inr off ↦ absurd (off.0 (refl, refl))
]

-- Every other place.
pub set2-other {ℓ} :
    {A : Type ℓ} (f : ℕ → ℕ → A) (i j : ℕ) (v : A) (x y : ℕ)
    → ¬ ((x ≡ i) × (y ≡ j))
    → set2 f i j v x y ≡ f x y
set2-other f i j v x y off = elim (set2-cases f i j v x y) [
  | inl at ↦ absurd (off (at.0, at.1))
  | inr e ↦ e.1
]
