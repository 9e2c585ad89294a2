-- ===== src/Kernel/Fuel.antt =====
-- The loops that run on fuel: more than enough fuel gives what enough fuel gives.
use native.Mathlib.Nat.{mod-lt}
use group_free_collectives.Base.{
  ℕ, zero, suc, ◌+◌, ◌*◌, ◌%◌, ◌≤◌, ◌<◌, ◌≡◌, refl, ap, inl, inr, false, ◌∷◌, arith, ltb, ◌==◌,
  Bool-cases,
}
use group_free_collectives.Kernel.Grid.{persistent}
use group_free_collectives.Kernel.Width.{gcd_rounds, double_until}

-- Euclid's algorithm has ended on any fuel above its second number.
pub gcd_rounds-enough :
    (fuel more a b : ℕ) → b < fuel → b < more → gcd_rounds fuel a b ≡ gcd_rounds more a b
unfolding gcd_rounds
gcd_rounds-enough zero more a b h k = absurd (omega arith)
gcd_rounds-enough (suc fuel) zero a b h k = absurd (omega arith)
gcd_rounds-enough (suc fuel) (suc more) a b h k = elim (Bool-cases (b == 0)) [
  | inl e ↦ rw (gcd_rounds, e) refl
  | inr e ↦
      let rest = mod-lt a (let pos : 0 < b = ground arith in pos) in
      rw (gcd_rounds, e)
        (gcd_rounds-enough fuel more b (a % b) (omega (arith, rest)) (omega (arith, rest)))
]

-- The doubling of a positive number has ended on any fuel that reaches the bound.
pub double_until-enough :
    (fuel more p n : ℕ)
    → 0 < p
    → n ≤ p + fuel
    → n ≤ p + more
    → double_until fuel p n ≡ double_until more p n
unfolding double_until
double_until-enough zero zero p n pos h k = refl
double_until-enough zero (suc more) p n pos h k =
    let past : ltb p n ≡ false = ground arith in rw (double_until, past) refl
double_until-enough (suc fuel) zero p n pos h k =
    let past : ltb p n ≡ false = ground arith in rw (double_until, past) refl
double_until-enough (suc fuel) (suc more) p n pos h k = elim (Bool-cases (ltb p n)) [
  | inl e ↦
      rw (double_until, e)
        (double_until-enough fuel more (p * 2) n (omega arith) (omega arith) (omega arith))
  | inr e ↦ rw (double_until, e) refl
]

-- The persistent loop of a positive stride has ended on any fuel that reaches the total: more fuel
-- visits no more work items.
pub persistent-enough :
    (fuel more task total stride : ℕ)
    → 0 < stride
    → total ≤ task + fuel
    → total ≤ task + more
    → persistent fuel task total stride ≡ persistent more task total stride
unfolding persistent
persistent-enough zero zero task total stride pos h k = refl
persistent-enough zero (suc more) task total stride pos h k =
    let past : ltb task total ≡ false = ground arith in rw past refl
persistent-enough (suc fuel) zero task total stride pos h k =
    let past : ltb task total ≡ false = ground arith in rw past refl
persistent-enough (suc fuel) (suc more) task total stride pos h k =
    elim (Bool-cases (ltb task total)) [
      | inl e ↦ rw e (
          ap (λ xs. task ∷ xs)
            (persistent-enough fuel more (task + stride) total stride pos (omega arith)
              (omega arith)))
      | inr e ↦ rw e refl
    ]
