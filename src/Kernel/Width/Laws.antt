-- ===== src/Kernel/Width/Laws.antt =====
-- What `_next_pow2` promises.
use native.Mathlib.Nat.{pow-suc, one-le-pow}
use group_free_collectives.Base.{
  ℕ, zero, suc, ◌+◌, ◌*◌, ◌^◌, ◌≤◌, ◌<◌, ◌≡◌, refl, subst, arith, ltb, Bool-cases, ltb→lt, inl, inr,
}
use group_free_collectives.Kernel.Width.{double_until, next_pow2}

-- `p` is the least power of two from `n` up.
abbrev pub IsLeastPower : ℕ → ℕ → Type 0
IsLeastPower n p = ((j : ℕ) × (p ≡ 2 ^ j)) × (n ≤ p) × (p < n * 2)

double_until-least :
    (n fuel k : ℕ) → n ≤ 2 ^ k + fuel → 2 ^ k < n * 2 → IsLeastPower n (double_until fuel (2 ^ k) n)
unfolding double_until
double_until-least n zero k enough below = ((k, refl), omega arith, below)
double_until-least n (suc fuel) k enough below = elim (Bool-cases (ltb (2 ^ k) n)) [
  | inl e ↦
      rw (double_until, e)
        (subst (λ (p : ℕ). IsLeastPower n (double_until fuel p n)) (pow-suc 2 k)
          (double_until-least n fuel (suc k)
            (omega (arith, ltb→lt (2 ^ k) n e, pow-suc 2 k, one-le-pow k 2 (omega arith)))
            (omega (arith, ltb→lt (2 ^ k) n e, pow-suc 2 k))))
  | inr e ↦ rw (double_until, e) ((k, refl), ground arith, below)
]

-- `_next_pow2` of a positive number is the least power of two that is not below it.
pub next_pow2-IsLeastPower : (n : ℕ) → 0 < n → IsLeastPower n (next_pow2 n)
unfolding next_pow2
next_pow2-IsLeastPower n pos = double_until-least n n 0 (omega arith) (omega arith)
