-- ===== src/Kernel/Width/Alignment.antt =====
-- The alignment of a pointer, and the width that a launch picks for its pointers and its payload.
use Prim.Native.Nat.{◌∣◌}
use native.Mathlib.Nat.{
  pow-suc, one-le-pow, dvd_trans, dvd-zero, dvd-mul_left, mod-eq-zero_of_dvd, mul_assoc,
}
use group_free_collectives.Base.{
  ℕ, zero, suc, ◌+◌, ◌-◌, ◌*◌, ◌/◌, ◌%◌, ◌^◌, ◌≤◌, ◌<◌, ◌≡◌, refl, sym, ap, ◌∙◌, subst, List, [],
  ◌∷◌, All, bit_and, bit_and_step, bit_and_self, and_not, ◌==◌, Bool-cases, inl, inr, false, arith,
  ℕ_discrete,
}
use group_free_collectives.Base.Membership.{here}
use group_free_collectives.Kernel.Pull.{dtype_for_vec}
use group_free_collectives.Kernel.Width.{
  pick_width, fold_alignments, vec_width_bytes, base_alignment, alignments_of, vec_for,
}
use group_free_collectives.Kernel.Width.Divides.{IsPower, Divides, vec_width_bytes-Divides}

-- The largest power of two that divides a number.
abbrev pub IsLowestBit : ℕ → ℕ → Type 0
IsLowestBit p a = (k : ℕ) × (q : ℕ) × (p ≡ 2 ^ k) × (a ≡ (2 * q + 1) * p)

lowest_bit_odd : (a : ℕ) → a % 2 ≡ 1 → and_not a (a - 1) ≡ 1
lowest_bit_odd a odd = omega (
  arith,
  bit_and_step a (a - 1),
  ap (bit_and (a / 2)) (let h : (a - 1) / 2 ≡ a / 2 = omega arith in h),
  bit_and_self (a / 2),
)

lowest_bit_even : (a : ℕ) → 0 < a → a % 2 ≡ 0 → and_not a (a - 1) ≡ and_not (a / 2) (a / 2 - 1) * 2
lowest_bit_even a pos even = omega (
  arith,
  bit_and_step a (a - 1),
  ap (bit_and (a / 2)) (let h : (a - 1) / 2 ≡ a / 2 - 1 = omega arith in h),
)

lowest_bit : (n a : ℕ) → a ≤ n → 0 < a → IsLowestBit (and_not a (a - 1)) a
lowest_bit zero a le pos = absurd (omega arith)
lowest_bit (suc n) a le pos = elim (ℕ_discrete (a % 2) 0) [
  | yes even ↦
      let (k, q, power, whole) = lowest_bit n (a / 2) (omega arith) (omega arith) in
      (
        suc k,
        q,
        lowest_bit_even a pos even ∙ ap (λ (p : ℕ). p * 2) power ∙ sym (pow-suc 2 k),
        (let h : a ≡ a / 2 * 2 = omega arith in h)
            ∙ ap (λ (x : ℕ). x * 2) whole
            ∙ mul_assoc (2 * q + 1) (and_not (a / 2) (a / 2 - 1)) 2
            ∙ ap (λ (p : ℕ). (2 * q + 1) * p) (sym (lowest_bit_even a pos even)),
      )
  | no odd ↦
      (0, a / 2, lowest_bit_odd a (omega arith), rw (lowest_bit_odd a (omega arith)) (omega arith))
]

-- The alignment of an address other than 0 is the largest power of two that divides it.
pub base_alignment-IsLowestBit : (a : ℕ) → 0 < a → IsLowestBit (base_alignment a) a
unfolding base_alignment
base_alignment-IsLowestBit a pos =
    let nonzero : (a == 0) ≡ false = ground arith in rw nonzero (lowest_bit a a (omega arith) pos)

base_alignment-IsPower : (a : ℕ) → IsPower (base_alignment a)
unfolding base_alignment
base_alignment-IsPower zero = (62, refl)
base_alignment-IsPower (suc a) =
    let (k, q, power, whole) = base_alignment-IsLowestBit (suc a) (omega arith) in (k, power)

base_alignment-dvd : (a : ℕ) → base_alignment a ∣ a
base_alignment-dvd zero = dvd-zero _
base_alignment-dvd (suc a) =
    let (k, q, power, whole) = base_alignment-IsLowestBit (suc a) (omega arith) in
    subst (λ (x : ℕ). base_alignment (suc a) ∣ x) (sym whole)
      (dvd-mul_left (base_alignment (suc a)) (2 * q + 1))

base_alignment_pos : (a : ℕ) → 0 < base_alignment a
base_alignment_pos a =
    let (k, power) = base_alignment-IsPower a in omega (arith, power, one-le-pow k 2 (omega arith))

alignments_pos : (ptrs : List ℕ) (size : ℕ) → 0 < size → All (λ a. 0 < a) (alignments_of ptrs size)
unfolding alignments_of
alignments_pos [] size pos = (pos, tt)
alignments_pos (p ∷ ptrs) size pos = (base_alignment_pos p, alignments_pos ptrs size pos)

-- What divides every alignment divides the pointers and the payload.
pointers-Divides :
    (w : ℕ) (ptrs : List ℕ) (size : ℕ)
    → Divides w (alignments_of ptrs size)
    → Divides w ptrs × (w ∣ size)
unfolding alignments_of
pointers-Divides w [] size h = (tt, h.0)
pointers-Divides w (p ∷ ptrs) size h =
    let (rest, payload) = pointers-Divides w ptrs size h.1 in
    ((dvd_trans w h.0 (base_alignment-dvd p), rest), payload)

-- The width that a launch picks for its pointers and a payload that is not empty divides the payload
-- and every one of the pointers.
pub vec_for-Divides :
    (p : ℕ) (ptrs : List ℕ) (size : ℕ)
    → 0 < size
    → Divides (vec_for (p ∷ ptrs) size) (p ∷ ptrs) × (vec_for (p ∷ ptrs) size ∣ size)
unfolding vec_for alignments_of
vec_for-Divides p ptrs size pos =
    let (k, power) = base_alignment-IsPower p in
    pointers-Divides _ (p ∷ ptrs) size (
      vec_width_bytes-Divides (alignments_of (p ∷ ptrs) size) k (alignments_pos (p ∷ ptrs) size pos)
        (here (sym power)))

-- Every width is that of an element type.
fold_alignments-IsWidth :
    (xs : List ℕ) (align : ℕ) → dtype_for_vec (fold_alignments align xs) ≡ fold_alignments align xs
unfolding fold_alignments pick_width dtype_for_vec
fold_alignments-IsWidth [] align = ground arith
fold_alignments-IsWidth (a ∷ xs) align = elim (Bool-cases (a == 0)) [
  | inl e ↦ rw e refl
  | inr e ↦ rw e (fold_alignments-IsWidth xs _)
]

-- A payload that is not empty has no tail at the width that its launch picks.
pub vec_for-exact :
    (p : ℕ) (ptrs : List ℕ) (size : ℕ)
    → 0 < size
    → size % dtype_for_vec (vec_for (p ∷ ptrs) size) ≡ 0
unfolding vec_for vec_width_bytes
vec_for-exact p ptrs size pos =
    rw (fold_alignments-IsWidth (alignments_of (p ∷ ptrs) size) 0)
      (mod-eq-zero_of_dvd _ (vec_for-Divides p ptrs size pos).1)
