-- ===== src/Kernel/Width/Divides.antt =====
-- Divisibility by the width that `vec_width_bytes` picks.
use Prim.Native.Nat.{◌∣◌}
use native.Mathlib.Nat.{
  dvd_refl, dvd-zero, dvd-mod_iff, dvd_trans, pow-suc, mod-lt, one-le-pow, dvd-mul_left, add-mul,
  mul_assoc, mul_comm, dvd-one, dvd-mul_right, mod-eq-zero_of_dvd,
}
use group_free_collectives.Base.{
  le→leb, Bool, List, [], ◌∷◌, All, if◌then◌else◌, ℕ, zero, suc, ◌+◌, ◌*◌, ◌/◌, ◌%◌, ◌^◌, ◌<◌, ◌≡◌,
  ◌∙◌, ◌⊎◌, refl, sym, ap, ap₂, subst, true, false, arith, ◌==◌, ==_iff, Bool-cases, inl, inr,
  div-mul-add-mod, ℕ_discrete,
}
use group_free_collectives.Base.Membership.{Elem, elem-All}
use group_free_collectives.Kernel.Width.{
  gcd_rounds, gcd, pick_width, fold_alignments, vec_width_bytes,
}

-- A number is twice its half, or has an odd rest.
halves : (n : ℕ) → (n ≡ n / 2 * 2) ⊎ (n % 2 ≡ 1)
halves n = elim (ℕ_discrete (n % 2) 0) [ yes e ↦ inl (omega arith) | no e ↦ inr (omega arith) ]

double-out : (a m : ℕ) → a * 2 * m ≡ a * m * 2
double-out a m = mul_assoc a 2 m ∙ ap (λ (x : ℕ). a * x) (mul_comm 2 m) ∙ sym (mul_assoc a m 2)

odd-mul : (d m : ℕ) → d % 2 ≡ 1 → d * m ≡ d / 2 * m * 2 + m
odd-mul d m odd =
    let parts : d ≡ d / 2 * 2 + 1 = omega arith in
    ap (λ (x : ℕ). x * m) parts
    ∙ add-mul (d / 2 * 2) 1 m
    ∙ ap₂ ◌+◌ (double-out (d / 2) m) (let one : 1 * m ≡ m = omega arith in one)

pow-factor : (k d m : ℕ) → d * m ≡ 2 ^ k → (j : ℕ) × (d ≡ 2 ^ j)
pow-factor zero d m h = (0, dvd-one.0 (subst (λ (x : ℕ). d ∣ x) h (dvd-mul_right d m)))
pow-factor (suc k) d m h = elim (halves d) [
  | inl e ↦
      let (j, half) =
        pow-factor k (d / 2) m
          (omega (arith, h, pow-suc 2 k, ap (λ (x : ℕ). x * m) e, double-out (d / 2) m)) in
      (suc j, e ∙ ap (λ (x : ℕ). x * 2) half ∙ sym (pow-suc 2 j))
  | inr odd ↦ elim (halves m) [
    | inl e ↦
        pow-factor k d (m / 2)
          (omega (arith, h, pow-suc 2 k, ap (λ (x : ℕ). d * x) e, sym (mul_assoc d (m / 2) 2)))
    | inr odd' ↦ absurd (omega (arith, odd-mul d m odd, h, pow-suc 2 k))
  ]
]

gcd_rounds-dvd : (fuel a b : ℕ) → b < fuel → (gcd_rounds fuel a b ∣ a) × (gcd_rounds fuel a b ∣ b)
unfolding gcd_rounds
gcd_rounds-dvd zero a b h = absurd (omega arith)
gcd_rounds-dvd (suc fuel) a b h = elim (Bool-cases (b == 0)) [
  | inl e ↦
      rw (gcd_rounds, e)
        (dvd_refl a, subst (λ (x : ℕ). a ∣ x) (sym ((==_iff b 0).0 e)) (dvd-zero a))
  | inr e ↦
      let (of_b, of_rest) =
        gcd_rounds-dvd fuel b (a % b)
          (omega (arith, mod-lt a (let pos : 0 < b = ground arith in pos))) in
      rw (gcd_rounds, e) ((dvd-mod_iff (gcd_rounds fuel b (a % b)) of_b).0 of_rest, of_b)
]

abbrev pub IsPower : ℕ → Type 0
IsPower d = (j : ℕ) × (d ≡ 2 ^ j)

-- Every alignment is a multiple of `g`.
abbrev pub Divides : ℕ → List ℕ → Type 0
Divides g xs = All (λ a. g ∣ a) xs

-- The next accumulated alignment, and what divides it.
next-divides :
    (align a g : ℕ) (b : Bool)
    → (align == 0) ≡ b
    → (g ∣ (if b then a else gcd align a))
    → (g ∣ align) × (g ∣ a)
unfolding gcd
next-divides align a g true e h =
    (subst (λ (x : ℕ). g ∣ x) (sym ((==_iff align 0).0 e)) (dvd-zero g), h)
next-divides align a g false e h =
    let (l, r) = gcd_rounds-dvd (suc a) align a (omega arith) in (dvd_trans g h l, dvd_trans g h r)

-- The width of positive alignments is picked from a common divisor of them.
fold_alignments-common :
    (xs : List ℕ) (align : ℕ)
    → All (λ a. 0 < a) xs
    → (g : ℕ) × (fold_alignments align xs ≡ pick_width g) × (g ∣ align) × Divides g xs
unfolding fold_alignments
fold_alignments-common [] align h = (align, refl, dvd_refl align, tt)
fold_alignments-common (a ∷ xs) align h =
    let (g, e, of_next, of_rest) =
      fold_alignments-common xs (if align == 0 then a else gcd align a) h.1 in
    let (of_align, of_a) = next-divides align a g (align == 0) refl of_next in
    (
      g,
      ap (λ b. if b then 1 else fold_alignments (if align == 0 then a else gcd align a) xs)
            (nonzero a h.0)
          ∙ e,
      of_align,
      (of_a, of_rest),
    )
  where
    nonzero : (a : ℕ) → 0 < a → (a == 0) ≡ false
    nonzero a pos = ground arith

wide : (x : ℕ) → 0 < x → pick_width (x * 16) ∣ x * 16
unfolding pick_width
wide x pos = rw (pick_width, le→leb 16 (x * 16) (omega arith)) (dvd-mul_left 16 x)

pick_width-power : (j : ℕ) → pick_width (2 ^ j) ∣ 2 ^ j
unfolding pick_width
pick_width-power zero = dvd_refl 1
pick_width-power (suc zero) = dvd-mul_right 1 2
pick_width-power (suc (suc zero)) = dvd_refl 4
pick_width-power (suc (suc (suc zero))) = dvd_refl 8
pick_width-power (suc (suc (suc (suc i)))) =
    subst (λ (p : ℕ). pick_width p ∣ p)
      (let sixteen : 2 ^ i * 16 ≡ 2 ^ suc (suc (suc (suc i))) = omega (
        arith,
        pow-suc 2 i,
        pow-suc 2 (suc i),
        pow-suc 2 (suc (suc i)),
        pow-suc 2 (suc (suc (suc i))),
      ) in
        sixteen)
      (wide (2 ^ i) (one-le-pow i 2 (omega arith)))

Divides-All : (w g : ℕ) (xs : List ℕ) → w ∣ g → Divides g xs → Divides w xs
Divides-All w g [] h d = tt
Divides-All w g (a ∷ xs) h d = (dvd_trans w h d.0, Divides-All w g xs h d.1)

-- The width divides every one of the positive alignments that it was picked for, where one of them
-- is a power of two.
pub vec_width_bytes-Divides :
    (xs : List ℕ) (k : ℕ) → All (λ a. 0 < a) xs → Elem (2 ^ k) xs → Divides (vec_width_bytes xs) xs
unfolding vec_width_bytes
vec_width_bytes-Divides xs k positive member =
    let (g, e, of_zero, common) = fold_alignments-common xs 0 positive in
    let (j, power) = power_of g (elem-All (λ a. g ∣ a) member common) in
    subst (λ (w : ℕ). Divides w xs) (sym e)
      (Divides-All (pick_width g) g xs
        (subst (λ (p : ℕ). pick_width p ∣ p) (sym power) (pick_width-power j)) common)
  where
    power_of : (g : ℕ) → g ∣ 2 ^ k → IsPower g
    power_of g h =
        pow-factor k g (2 ^ k / g)
          (omega (arith, mul_comm g (2 ^ k / g), div-mul-add-mod (2 ^ k) g, mod-eq-zero_of_dvd g h))
