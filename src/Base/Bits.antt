-- ===== src/Base/Bits.antt =====
-- Laws of `&` and `^` at variables, from the digit recursion that the native operations stand for.
use Prim.Native.Nat.{
  ℕ, zero, suc, ◌+◌, ◌-◌, ◌*◌, ◌/◌, ◌%◌, ◌^◌, ◌≤◌, ◌<◌, min, bit_and, bit_xor, digits, bitwise,
  differ, bit_and-bitwise, bit_xor-bitwise,
}
use mathlib.Core.Path.{◌≡◌, refl, ap, ap₂, ◌∙◌, sym}
use native.Mathlib.Nat.{
  pow-suc, pow-succ', one-le-pow, div-div-eq-div-mul, mod-eq-sub-div-mul, div-mul-le_self, mod_self,
}
use native.Mathlib.Omega.{arith}
use native.Mathlib.Decide.{ℕ_discrete}
use mathlib.Core.Logic.{◌↔◌}

module _ (base : ℕ → ℕ) (digit : ℕ → ℕ → ℕ) where
  abbrev run : ℕ → ℕ → ℕ → ℕ
  run = digits base digit

  -- Any fuel from the first number up gives the same digits.
  digits-enough : (a b fuel more : ℕ) → a ≤ fuel → a ≤ more → run fuel a b ≡ run more a b
  digits-enough zero b (suc fuel) (suc more) enough enough' = refl
  digits-enough zero b (suc fuel) zero enough enough' = refl
  digits-enough zero b zero (suc more) enough enough' = refl
  digits-enough zero b zero zero enough enough' = refl
  digits-enough (suc a) b zero more enough enough' = absurd (omega arith)
  digits-enough (suc a) b (suc fuel) zero enough enough' = absurd (omega arith)
  digits-enough (suc a) b (suc fuel) (suc more) enough enough' =
      let half_le : suc a / 2 ≤ a = omega arith in
      rw (digits-enough (suc a / 2) (b / 2) fuel more (omega arith) (omega arith))

  abbrev by_digits : ℕ → ℕ → ℕ
  by_digits = bitwise base digit

  bitwise-halves :
      (a b : ℕ)
      → by_digits (suc a) b ≡ by_digits (suc a / 2) (b / 2) * 2 + digit (suc a % 2) (b % 2)
  bitwise-halves a b =
      omega (arith, digits-enough (suc a / 2) (b / 2) a (suc a / 2) (omega arith) (omega arith))

-- `a & b` by its half and its lowest digit.
pub bit_and_step : (x y : ℕ) → min (x % 2) (y % 2) + 2 * bit_and (x / 2) (y / 2) ≡ bit_and x y
bit_and_step zero y = simp bit_and-bitwise (omega arith)
bit_and_step (suc x) y =
    let halves = bitwise-halves (λ low. 0) min x y in simp bit_and-bitwise (omega (arith, halves))

differ_digits : (x y : ℕ) → x < 2 → y < 2 → differ x y ≡ (x + y) % 2
differ_digits zero y p q = omega arith
differ_digits (suc zero) zero p q = refl
differ_digits (suc zero) (suc zero) p q = refl
differ_digits (suc zero) (suc (suc y)) p q = absurd (omega arith)
differ_digits (suc (suc x)) y p q = absurd (omega arith)

-- The lowest digit of `a ^ b`.
pub bit_xor_step : (a b : ℕ) → bit_xor a b ≡ bit_xor (a / 2) (b / 2) * 2 + (a % 2 + b % 2) % 2
bit_xor_step zero b = simp bit_xor-bitwise (omega arith)
bit_xor_step (suc a) b = simp bit_xor-bitwise (
    bitwise-halves (λ y. y) differ a b
    ∙ ap (λ (d : ℕ). bitwise (λ y. y) differ (suc a / 2) (b / 2) * 2 + d)
        (differ_digits (suc a % 2) (b % 2) (omega arith) (omega arith)))

pub bit_xor-half : (a b : ℕ) → bit_xor a b / 2 ≡ bit_xor (a / 2) (b / 2)
bit_xor-half a b = omega (arith, bit_xor_step a b)

bit_xor_parity : (a b : ℕ) → bit_xor a b % 2 ≡ (a % 2 + b % 2) % 2
bit_xor_parity a b = omega (arith, bit_xor_step a b)

-- A number is its half and its lowest digit.
half_ext : {a b : ℕ} → a / 2 ≡ b / 2 → a % 2 ≡ b % 2 → a ≡ b
half_ext p q = omega arith

bit_xor-cancel_below : (n h x y : ℕ) → h + x + y ≤ n → bit_xor h x ≡ bit_xor h y → x ≡ y
bit_xor-cancel_below zero h x y p e = omega arith
bit_xor-cancel_below (suc n) h x y p e =
    half_ext (bit_xor-cancel_below n (h / 2) (x / 2) (y / 2) (omega arith) halves)
      (omega (arith, ap (λ (t : ℕ). t % 2) e, bit_xor_parity h x, bit_xor_parity h y))
  where
    halves : bit_xor (h / 2) (x / 2) ≡ bit_xor (h / 2) (y / 2)
    halves = sym (bit_xor-half h x) ∙ ap (λ (t : ℕ). t / 2) e ∙ bit_xor-half h y

-- `h ^ x` determines `x`.
pub bit_xor-cancel : (h x y : ℕ) → bit_xor h x ≡ bit_xor h y → x ≡ y
bit_xor-cancel h x y e = bit_xor-cancel_below (h + x + y) h x y (omega arith) e

bit_xor-cancel_right_below : (n s x y : ℕ) → s + x + y ≤ n → bit_xor x s ≡ bit_xor y s → x ≡ y
bit_xor-cancel_right_below zero s x y p e = omega arith
bit_xor-cancel_right_below (suc n) s x y p e =
    half_ext (bit_xor-cancel_right_below n (s / 2) (x / 2) (y / 2) (omega arith) halves)
      (omega (arith, ap (λ (t : ℕ). t % 2) e, bit_xor_parity x s, bit_xor_parity y s))
  where
    halves : bit_xor (x / 2) (s / 2) ≡ bit_xor (y / 2) (s / 2)
    halves = sym (bit_xor-half x s) ∙ ap (λ (t : ℕ). t / 2) e ∙ bit_xor-half y s

-- `x ^ s` determines `x`.
pub bit_xor-cancel_right : (s x y : ℕ) → bit_xor x s ≡ bit_xor y s → x ≡ y
bit_xor-cancel_right s x y e = bit_xor-cancel_right_below (s + x + y) s x y (omega arith) e

half-shift : (a k : ℕ) → a / 2 ^ suc k ≡ a / 2 / 2 ^ k
half-shift a k = ap (λ (t : ℕ). a / t) (pow-succ' 2 k) ∙ sym (div-div-eq-div-mul a 2 (2 ^ k))

-- `(a ^ b) >> k`.
pub bit_xor-shift : (k a b : ℕ) → bit_xor a b / 2 ^ k ≡ bit_xor (a / 2 ^ k) (b / 2 ^ k)
bit_xor-shift zero a b =
    let one : (t : ℕ) → t / 1 ≡ t = λ t. omega arith in
    one (bit_xor a b) ∙ sym (ap₂ bit_xor (one a) (one b))
bit_xor-shift (suc k) a b =
    half-shift (bit_xor a b) k
    ∙ ap (λ (t : ℕ). t / 2 ^ k) (bit_xor-half a b)
    ∙ bit_xor-shift k (a / 2) (b / 2)
    ∙ ap₂ bit_xor (sym (half-shift a k)) (sym (half-shift b k))

zero-bit_xor : (b : ℕ) → bit_xor 0 b ≡ b
zero-bit_xor b = bit_xor-bitwise 0 b

-- Words of `w` bits are closed under `^`.
pub bit_xor-lt : (w a b : ℕ) → a < 2 ^ w → b < 2 ^ w → bit_xor a b < 2 ^ w
bit_xor-lt zero zero b p q = omega (arith, zero-bit_xor b)
bit_xor-lt zero (suc a) b p q = absurd (omega arith)
bit_xor-lt (suc w) a b p q = omega (
  arith,
  pow-suc 2 w,
  bit_xor_step a b,
  bit_xor-lt w (a / 2) (b / 2) (omega (arith, pow-suc 2 w)) (omega (arith, pow-suc 2 w)),
)

-- A mask of `k` low bits is the remainder by `2 ^ k`.
bit_and-zero_below : (n a : ℕ) → a ≤ n → bit_and a 0 ≡ 0
bit_and-zero_below n zero p = bit_and-bitwise 0 0
bit_and-zero_below zero (suc a) p = absurd (omega arith)
bit_and-zero_below (suc n) (suc a) p =
    omega (arith, bit_and_step (suc a) 0, bit_and-zero_below n (suc a / 2) (omega arith))

pub bit_and-zero : (a : ℕ) → bit_and a 0 ≡ 0
bit_and-zero a = bit_and-zero_below a a (omega arith)

mask-half : (k : ℕ) → (2 ^ suc k - 1) / 2 ≡ 2 ^ k - 1
mask-half k = omega (arith, pow-suc 2 k, one-le-pow k 2 (omega arith))

mask_parity : (k : ℕ) → (2 ^ suc k - 1) % 2 ≡ 1
mask_parity k = omega (arith, pow-suc 2 k, one-le-pow k 2 (omega arith))

mod-split : (k a : ℕ) → a % 2 ^ suc k ≡ a / 2 % 2 ^ k * 2 + a % 2
mod-split k a = omega (
  arith,
  mod-eq-sub-div-mul a (2 ^ suc k),
  ap (λ (t : ℕ). t * 2 ^ suc k) (half-shift a k),
  ap (λ (t : ℕ). a / 2 / 2 ^ k * t) (pow-succ' 2 k),
  mod-eq-sub-div-mul (a / 2) (2 ^ k),
  div-mul-le_self (a / 2) (2 ^ k),
)

pub bit_and_mask : (k a : ℕ) → bit_and a (2 ^ k - 1) ≡ a % 2 ^ k
bit_and_mask zero a = omega (arith, bit_and-zero a)
bit_and_mask (suc k) a = omega (
  arith,
  bit_and_step a (2 ^ suc k - 1),
  ap (bit_and (a / 2)) (mask-half k),
  mask_parity k,
  bit_and_mask k (a / 2),
  mod-split k a,
)

abbrev pub IsPowerOfTwo : ℕ → Type 0
IsPowerOfTwo a = (k : ℕ) × (a ≡ 2 ^ k)

bit_and_self_below : (n a : ℕ) → a ≤ n → bit_and a a ≡ a
bit_and_self_below n zero p = bit_and-bitwise 0 0
bit_and_self_below zero (suc a) p = absurd (omega arith)
bit_and_self_below (suc n) (suc a) p =
    omega (arith, bit_and_step (suc a) (suc a), bit_and_self_below n (suc a / 2) (omega arith))

pub bit_and_self : (a : ℕ) → bit_and a a ≡ a
bit_and_self a = bit_and_self_below a a (omega arith)

power_test : {a : ℕ} (k : ℕ) → a ≡ 2 ^ k → bit_and a (a - 1) ≡ 0
power_test k p = rw p (bit_and_mask k (2 ^ k) ∙ mod_self (2 ^ k))

double-IsPowerOfTwo : {a b : ℕ} → a ≡ b * 2 → IsPowerOfTwo b → IsPowerOfTwo a
double-IsPowerOfTwo e (k, p) = (suc k, omega (arith, pow-suc 2 k))

power_test_below : (n a : ℕ) → a ≤ n → 0 < a → bit_and a (a - 1) ≡ 0 → IsPowerOfTwo a
power_test_below zero a p q e = absurd (omega arith)
power_test_below (suc n) a p q e = elim (ℕ_discrete (a % 2) 0) [
  | yes even ↦ double-IsPowerOfTwo {b = a / 2} (omega arith) (
      power_test_below n (a / 2) (omega arith) (omega arith) (
        omega (
          arith,
          e,
          bit_and_step a (a - 1),
          ap (bit_and (a / 2)) (let h : (a - 1) / 2 ≡ a / 2 - 1 = omega arith in h),
        )))
  | no odd ↦ (
    0,
    omega (
      arith,
      e,
      bit_and_step a (a - 1),
      ap (bit_and (a / 2)) (let h : (a - 1) / 2 ≡ a / 2 = omega arith in h),
      bit_and_self (a / 2),
    ),
  )
]

-- `a & (a - 1) == 0` finds the powers of two among the positive numbers, and only those.
pub power_test_iff : (a : ℕ) → 0 < a → (bit_and a (a - 1) ≡ 0) ↔ IsPowerOfTwo a
power_test_iff a q = (power_test_below a a (omega arith) q, λ (k, p). power_test k p)
