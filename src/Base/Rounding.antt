-- ===== src/Base/Rounding.antt =====
-- Ceiling division, and rounding up to a power of two by a mask.
use Prim.Native.Nat.{ℕ, suc, ◌+◌, ◌-◌, ◌*◌, ◌/◌, ◌%◌, ◌≤◌, ◌<◌, bit_and}
use mathlib.Core.Path.{◌≡◌, ap, ◌∙◌, sym}
use native.Mathlib.Nat.{
  mod-eq-sub-div-mul, div-mul-le_self, lt-div-mul-add, div-lt_iff_lt-mul, mul-mod_left, one-le-pow,
  mul-le-mul_right,
}
use native.Mathlib.Omega.{arith}
use group_free_collectives.Base.Bits.{bit_and_mask, IsPowerOfTwo}

-- `(a + b - 1) // b`, and `tl.cdiv`.
abbrev pub cdiv : ℕ → ℕ → ℕ
cdiv a b = (a + b - 1) / b

-- `n & ~m` of non-negative Python integers clears in `n` the bits of `m`.
abbrev pub and_not : ℕ → ℕ → ℕ
and_not n m = n - bit_and n m

-- `(n + a - 1) & ~(a - 1)`.
unfoldable pub align_up : ℕ → ℕ → ℕ
align_up n a = and_not (n + a - 1) (a - 1)

module _ (a b : ℕ) (pos : 0 < b) where
  pub le-cdiv : a ≤ cdiv a b * b
  le-cdiv = omega (arith, lt-div-mul-add {a = a + b - 1} pos)

  pub cdiv-lt : cdiv a b * b < a + b
  cdiv-lt = omega (arith, div-mul-le_self (a + b - 1) b)

pub cdiv-le : (a b n : ℕ) → 0 < b → a ≤ n * b → cdiv a b ≤ n
cdiv-le a b n pos h =
    omega (arith, (div-lt_iff_lt-mul {k = b} {x = a + b - 1} {y = suc n} pos).1 (omega arith))

pub align_up-eq-cdiv : (n a : ℕ) → IsPowerOfTwo a → align_up n a ≡ cdiv n a * a
unfolding align_up
align_up-eq-cdiv n a (k, e) =
    ap (λ (t : ℕ). n + a - 1 - t)
      (ap (λ (t : ℕ). bit_and (n + a - 1) (t - 1)) e
        ∙ bit_and_mask k (n + a - 1)
        ∙ ap (λ (t : ℕ). (n + a - 1) % t) (sym e))
    ∙ remainder-off (n + a - 1) a
  where
    remainder-off : (m d : ℕ) → m - m % d ≡ m / d * d
    remainder-off m d = omega (arith, mod-eq-sub-div-mul m d, div-mul-le_self m d)

module _ (n a : ℕ) (p : IsPowerOfTwo a) where
  pub align-pos : 0 < a
  align-pos = rw p.1 (one-le-pow p.0 2 (omega arith))

  pub le-align_up : n ≤ align_up n a
  le-align_up = omega (arith, align_up-eq-cdiv n a p, le-cdiv n a align-pos)

  pub align_up-lt : align_up n a < n + a
  align_up-lt = omega (arith, align_up-eq-cdiv n a p, cdiv-lt n a align-pos)

  pub align_up-mod : align_up n a % a ≡ 0
  align_up-mod = rw (align_up-eq-cdiv n a p) (mul-mod_left (cdiv n a) a)

  -- Rounding up does not pass a multiple that is already above.
  pub align_up-le : (m : ℕ) → n ≤ m → m % a ≡ 0 → align_up n a ≤ m
  align_up-le m le e = omega (
    arith,
    align_up-eq-cdiv n a p,
    mul-le-mul_right a (cdiv-le n a (m / a) align-pos (omega (arith, exact))),
    exact,
  )
    where
      exact : m / a * a ≡ m
      exact = omega (arith, mod-eq-sub-div-mul m a, div-mul-le_self m a)

-- Quotient and remainder of `i * s + b` with `b` below `s`.
pub parts-div : (i b s : ℕ) → b < s → (i * s + b) / s ≡ i
parts-div i b s h = grind arith

pub parts-mod : (i b s : ℕ) → b < s → (i * s + b) % s ≡ b
parts-mod i b s h = grind arith

-- Row-major indices stay below the size of their grid.
pub parts-lt : (i b s n : ℕ) → i < n → b < s → i * s + b < n * s
parts-lt i b s n p q = grind arith

pub div-mul-add-mod : (n s : ℕ) → n / s * s + n % s ≡ n
div-mul-add-mod n s = omega (arith, mod-eq-sub-div-mul n s, div-mul-le_self n s)
