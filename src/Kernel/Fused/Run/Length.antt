-- ===== src/Kernel/Fused/Run/Length.antt =====
-- The accesses that a launch has left, of which each step takes one.
use group_free_collectives.Base.{
  ℕ, zero, suc, ◌+◌, ◌<◌, ◌≡◌, ◌≢◌, refl, sym, ap, ◌∙◌, List, ◌∷◌, length, arith, ℕ_discrete,
  dec_lt,
}
use group_free_collectives.Kernel.Family.{set2, set2-same, set2-other}
use group_free_collectives.Kernel.Fused.Run.{
  Access, Launched, Step, transferred, released, acquired,
}

-- `f 0 + … + f (n - 1)`.
pub sum_below : ℕ → (ℕ → ℕ) → ℕ
sum_below zero f = 0
sum_below (suc n) f = sum_below n f + f n

sum_below-same :
    (n : ℕ) (f h : ℕ → ℕ) → ((x : ℕ) → x < n → f x ≡ h x) → sum_below n f ≡ sum_below n h
unfolding sum_below
sum_below-same zero f h same = refl
sum_below-same (suc n) f h same =
    omega (arith, sum_below-same n f h (λ x lt. same x (omega arith)), same n (omega arith))

-- One summand that falls by one takes the sum down by one.
sum_below-step :
    (n i : ℕ) (f h : ℕ → ℕ)
    → i < n
    → f i ≡ suc (h i)
    → ((x : ℕ) → x ≢ i → f x ≡ h x)
    → sum_below n f ≡ suc (sum_below n h)
unfolding sum_below
sum_below-step zero i f h lt down same = absurd (omega arith)
sum_below-step (suc n) i f h lt down same = elim (ℕ_discrete n i) [
  | yes e ↦ omega (arith, sum_below-same n f h (λ x below. same x (omega arith)), ap f e, ap h e)
  | no ne ↦ omega (arith, sum_below-step n i f h (omega arith) down same, same n ne)
]

-- A sum that is not 0 has a summand that is not, and one that is 0 has none.
pub sum_below-some : (n : ℕ) (f : ℕ → ℕ) → 0 < sum_below n f → (x : ℕ) × (x < n) × (0 < f x)
unfolding sum_below
sum_below-some zero f h = absurd (omega arith)
sum_below-some (suc n) f h = elim (dec_lt 0 (f n)) [
  | yes pos ↦ (n, omega arith, pos)
  | no none ↦ let (x, lt, pos) = sum_below-some n f (omega arith) in (x, omega arith, pos)
]

pub sum_below-none : (n : ℕ) (f : ℕ → ℕ) → sum_below n f ≡ 0 → (x : ℕ) → x < n → f x ≡ 0
unfolding sum_below
sum_below-none zero f h x lt = absurd (omega arith)
sum_below-none (suc n) f h x lt = elim (ℕ_discrete x n) [
  | yes e ↦ omega (arith, ap f e)
  | no ne ↦ sum_below-none n f (omega arith) x (omega arith)
]

-- The accesses that are left.
abbrev pub remaining : ℕ → ℕ → Launched → ℕ
remaining g n w = sum_below g (λ i. sum_below n (λ p. length (w.rest i p)))

module _ (g n : ℕ) (ranks : ℕ → ℕ) where
  rest-falls :
      (rest : ℕ → ℕ → List Access) (i p : ℕ) (op : Access) (ops : List Access)
      → i < g
      → p < n
      → rest i p ≡ op ∷ ops
      → sum_below g (λ j. sum_below n (λ q. length (rest j q)))
        ≡ suc (sum_below g (λ j. sum_below n (λ q. length (set2 rest i p ops j q))))
  rest-falls rest i p op ops hi hp at =
      sum_below-step g i _ _ hi
        (sum_below-step n p _ _ hp
          (ap length at ∙ ap (λ l. suc (length l)) (sym (set2-same rest i p ops)))
          (λ q ne. ap length (sym (set2-other rest i p ops i q (λ h. ne h.1)))))
        (λ j ne.
          sum_below-same n _ _
            (λ q lt. ap length (sym (set2-other rest i p ops j q (λ h. ne h.0)))))

  pub Step-falls : {v w : Launched} → Step g n ranks v w → remaining g n v ≡ suc (remaining g n w)
  Step-falls {v} (transferred i p hi hp at) = rest-falls v.rest i p _ _ hi hp at
  Step-falls {v} (released i p hi hp at) = rest-falls v.rest i p _ _ hi hp at
  Step-falls {v} (acquired i p hi hp at holds) = rest-falls v.rest i p _ _ hi hp at
