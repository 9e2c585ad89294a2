-- ===== src/Hash/Mix.antt =====
-- `splitmix64` is injective on 64-bit words.
use group_free_collectives.Base.{
  ℕ, zero, suc, ◌+◌, ◌*◌, ◌/◌, ◌%◌, ◌^◌, ◌≤◌, ◌<◌, ◌≡◌, ap, sym, ◌∙◌, arith, bit_and, bit_xor,
  bit_and_mask, bit_xor-cancel_right, bit_xor-shift, bit_xor-lt,
}
use native.Mathlib.Nat.{one-le-pow, pow-suc, div-le_self, div-lt_self}
use group_free_collectives.Hash.{u64_mask, xor_shift, splitmix64}

-- `x >> k` is smaller than `x` unless both are 0.
shift-le : (k x n : ℕ) → 0 < k → x ≤ suc n → x / 2 ^ k ≤ n
shift-le zero x n pos le = absurd (omega arith)
shift-le (suc k) zero n pos le = omega (arith, div-le_self 0 (2 ^ suc k))
shift-le (suc k) (suc x) n pos le = omega (
  arith,
  div-lt_self {n = suc x} {k = 2 ^ suc k} (omega arith)
      (omega (arith, pow-suc 2 k, one-le-pow k 2 (omega arith))),
)

xor_shift-shift : (k x : ℕ) → xor_shift k x / 2 ^ k ≡ xor_shift k (x / 2 ^ k)
xor_shift-shift k x = bit_xor-shift k x (x / 2 ^ k)

xor_shift-injective_below :
    (n k x y : ℕ) → 0 < k → x ≤ n → y ≤ n → xor_shift k x ≡ xor_shift k y → x ≡ y
xor_shift-injective_below zero k x y pos p q e = omega arith
xor_shift-injective_below (suc n) k x y pos p q e =
    let tails : x / 2 ^ k ≡ y / 2 ^ k =
      xor_shift-injective_below n k (x / 2 ^ k) (y / 2 ^ k) pos (shift-le k x n pos p)
        (shift-le k y n pos q)
        (sym (xor_shift-shift k x) ∙ ap (λ (t : ℕ). t / 2 ^ k) e ∙ xor_shift-shift k y) in
    bit_xor-cancel_right (x / 2 ^ k) x y (e ∙ ap (bit_xor y) (sym tails))

pub xor_shift-injective : (k x y : ℕ) → 0 < k → xor_shift k x ≡ xor_shift k y → x ≡ y
xor_shift-injective k x y pos e =
    xor_shift-injective_below (x + y) k x y pos (omega arith) (omega arith) e

pub xor_shift-lt : (k x : ℕ) → x < 2 ^ 64 → xor_shift k x < 2 ^ 64
xor_shift-lt k x h = bit_xor-lt 64 x (x / 2 ^ k) h (omega (arith, div-le_self x (2 ^ k)))

add-injective :
    (x y : ℕ)
    → x < 2 ^ 64
    → y < 2 ^ 64
    → (x + 0x9E3779B97F4A7C15) % 2 ^ 64 ≡ (y + 0x9E3779B97F4A7C15) % 2 ^ 64
    → x ≡ y
add-injective x y p q e = omega arith

-- The two odd factors have inverses modulo 2 ^ 64.
first_factor_undo :
    (x : ℕ) → x < 2 ^ 64 → (x * 0xBF58476D1CE4E5B9) % 2 ^ 64 * 0x96de1b173f119089 % 2 ^ 64 ≡ x
first_factor_undo x p = omega arith

second_factor_undo :
    (x : ℕ) → x < 2 ^ 64 → (x * 0x94D049BB133111EB) % 2 ^ 64 * 0x319642b2d24d8ec3 % 2 ^ 64 ≡ x
second_factor_undo x p = omega arith

-- The stages of `splitmix64`, with the mask as a remainder.
abbrev stage1 : ℕ → ℕ
stage1 x = (x + 0x9E3779B97F4A7C15) % 2 ^ 64

abbrev stage2 : ℕ → ℕ
stage2 x = xor_shift 30 x * 0xBF58476D1CE4E5B9 % 2 ^ 64

abbrev stage3 : ℕ → ℕ
stage3 x = xor_shift 27 x * 0x94D049BB133111EB % 2 ^ 64

abbrev stage4 : ℕ → ℕ
stage4 x = xor_shift 31 x % 2 ^ 64

pub mask64 : (a : ℕ) → bit_and a u64_mask ≡ a % 2 ^ 64
mask64 a = bit_and_mask 64 a

splitmix64-stages : (x : ℕ) → splitmix64 x ≡ stage4 (stage3 (stage2 (stage1 x)))
unfolding splitmix64
splitmix64-stages x = simp mask64

pub splitmix64-lt : (x : ℕ) → splitmix64 x < 2 ^ 64
splitmix64-lt x = omega (arith, splitmix64-stages x)

undo-injective : (f g : ℕ → ℕ) (x y : ℕ) → g (f x) ≡ x → g (f y) ≡ y → f x ≡ f y → x ≡ y
undo-injective f g x y p q e = sym p ∙ ap g e ∙ q

stage2-injective : (x y : ℕ) → x < 2 ^ 64 → y < 2 ^ 64 → stage2 x ≡ stage2 y → x ≡ y
stage2-injective x y p q e = xor_shift-injective 30 x y (omega arith) (
    undo-injective (λ t. t * 0xBF58476D1CE4E5B9 % 2 ^ 64) (λ t. t * 0x96de1b173f119089 % 2 ^ 64)
      (xor_shift 30 x) (xor_shift 30 y) (first_factor_undo _ (xor_shift-lt 30 x p))
      (first_factor_undo _ (xor_shift-lt 30 y q)) e)

stage3-injective : (x y : ℕ) → x < 2 ^ 64 → y < 2 ^ 64 → stage3 x ≡ stage3 y → x ≡ y
stage3-injective x y p q e = xor_shift-injective 27 x y (omega arith) (
    undo-injective (λ t. t * 0x94D049BB133111EB % 2 ^ 64) (λ t. t * 0x319642b2d24d8ec3 % 2 ^ 64)
      (xor_shift 27 x) (xor_shift 27 y) (second_factor_undo _ (xor_shift-lt 27 x p))
      (second_factor_undo _ (xor_shift-lt 27 y q)) e)

stage4-injective : (x y : ℕ) → x < 2 ^ 64 → y < 2 ^ 64 → stage4 x ≡ stage4 y → x ≡ y
stage4-injective x y p q e =
    xor_shift-injective 31 x y (omega arith)
      (omega (arith, e, xor_shift-lt 31 x p, xor_shift-lt 31 y q))

-- `splitmix64` maps different 64-bit words to different words.
pub splitmix64-injective : (x y : ℕ) → x < 2 ^ 64 → y < 2 ^ 64 → splitmix64 x ≡ splitmix64 y → x ≡ y
splitmix64-injective x y p q e = add-injective x y p q (
    stage2-injective (stage1 x) (stage1 y) (omega arith) (omega arith) (
      stage3-injective (stage2 (stage1 x)) (stage2 (stage1 y)) (omega arith) (omega arith) (
        stage4-injective (stage3 (stage2 (stage1 x))) (stage3 (stage2 (stage1 y))) (omega arith)
          (omega arith) (sym (splitmix64-stages x) ∙ e ∙ splitmix64-stages y))))
