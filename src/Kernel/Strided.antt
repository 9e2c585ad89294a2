-- ===== src/Kernel/Strided.antt =====
-- The layout of every gathering kernel: piece `i` of `n` bytes goes to `dst + i * stride`.
use group_free_collectives.Base.{
  ℕ, ◌+◌, ◌-◌, ◌*◌, ◌/◌, ◌%◌, ◌≤◌, ◌<◌, ◌≡◌, ◌≢◌, subst, sym, ap, ap₂, ◌∙◌, ◌⊎◌, inl, inr, Bool,
  true, false, ◌&&◌, List, arith, ltb, leb, All, Bool-cases, parts-div, parts-mod, parts-lt,
  div-mul-add-mod,
}
use group_free_collectives.Kernel.Memory.{Memory, Copy, run, Agrees, run-target, run-outside}
use group_free_collectives.Kernel.Pull.Coverage.{Piece, Written}

-- `n` bytes at `src` and `size` bytes at `dst` have no byte in common.
abbrev pub Apart : ℕ → ℕ → ℕ → ℕ → Type 0
Apart src n dst size = (src + n ≤ dst) ⊎ (dst + size ≤ src)

-- The copies bring each of `g` pieces to its place, and change no other byte.
pub record Moves (src_of : ℕ → ℕ) (dst stride n g : ℕ) (cs : List Copy) : Type 0 where
  pub pieces :
      (m : Memory) (i b : ℕ) → i < g → b < n → run cs m (dst + i * stride + b) ≡ m (src_of i + b)
  pub frame :
      (m : Memory) (a : ℕ)
      → ((i b : ℕ) → i < g → b < n → a ≢ dst + i * stride + b)
      → run cs m a ≡ m a

module _ (src_of : ℕ → ℕ) (dst stride n g : ℕ) where
  abbrev pub target : ℕ → Bool
  target a = leb dst a && ltb ((a - dst) / stride) g && ltb ((a - dst) % stride) n

  abbrev pub origin : ℕ → ℕ
  origin a = src_of ((a - dst) / stride) + (a - dst) % stride

  module _ (fits : n ≤ stride) where
    at-div : (i b : ℕ) → b < n → (dst + i * stride + b - dst) / stride ≡ i
    at-div i b h =
        ap (λ (t : ℕ). t / stride)
          (let e : dst + i * stride + b - dst ≡ i * stride + b = omega arith in e)
        ∙ parts-div i b stride (omega arith)

    at-mod : (i b : ℕ) → b < n → (dst + i * stride + b - dst) % stride ≡ b
    at-mod i b h =
        ap (λ (t : ℕ). t % stride)
          (let e : dst + i * stride + b - dst ≡ i * stride + b = omega arith in e)
        ∙ parts-mod i b stride (omega arith)

    target-inside : (i b : ℕ) → i < g → b < n → target (dst + i * stride + b) ≡ true
    target-inside i b p q = ground (arith, at-div i b q, at-mod i b q)

    origin-at : (i b : ℕ) → b < n → origin (dst + i * stride + b) ≡ src_of i + b
    origin-at i b q = ap₂ ◌+◌ (ap src_of (at-div i b q)) (at-mod i b q)

    target-parts :
        (a : ℕ) → target a ≡ true → (dst ≤ a) × ((a - dst) / stride < g) × ((a - dst) % stride < n)
    target-parts a e = (ground arith, ground arith, ground arith)

    -- A byte of the target lies below its end.
    target-outside : (a : ℕ) → (a < dst) ⊎ (dst + g * stride ≤ a) → target a ≡ false
    target-outside a (inl h) = ground arith
    target-outside a (inr h) = elim (Bool-cases (target a)) [
      | inl e ↦
          let (le, q_lt, r_lt) = target-parts a e in
          absurd (
            omega (
              arith,
              parts-lt ((a - dst) / stride) ((a - dst) % stride) stride g q_lt (omega arith),
              div-mul-add-mod (a - dst) stride,
            ))
      | inr e ↦ e
    ]

    target-false :
        (a : ℕ) → ((i b : ℕ) → i < g → b < n → a ≢ dst + i * stride + b) → target a ≡ false
    target-false a h = elim (Bool-cases (target a)) [
      | inl e ↦
          let (le, q_lt, r_lt) = target-parts a e in
          absurd (
            h ((a - dst) / stride) ((a - dst) % stride) q_lt r_lt
              (omega (arith, div-mul-add-mod (a - dst) stride)))
      | inr e ↦ e
    ]

    module _ (apart : (i : ℕ) → i < g → Apart (src_of i) n dst (g * stride)) where
      pub strided-Piece : (i : ℕ) → i < g → Piece target origin (src_of i) (dst + i * stride) n
      strided-Piece i p = record {
        inside = λ j q. target-inside i j p q;
        from = λ j q. origin-at i j q;
        outside = λ j q. target-outside (src_of i + j) (ground (arith, apart i p));
      }

      pub strided-Moves :
          (cs : List Copy)
          → All (Agrees target origin) cs
          → ((i b : ℕ) → i < g → b < n → Written (dst + i * stride + b) cs)
          → Moves src_of dst stride n g cs
      strided-Moves cs agrees written = record {
        pieces = λ m i b p q.
            let (c, e, w) = written i b p q in
            run-target target origin e agrees m (dst + i * stride + b) w ∙ ap m (origin-at i b q);
        frame = λ m a h. run-outside target origin cs agrees m a (target-false a h);
      }

-- The bytes that pieces leave are determined, so two lists that move the same leave the same memory.
module _ (src_of : ℕ → ℕ) (dst stride n g : ℕ) (fits : n ≤ stride) where
  pub Moves-agree :
      {cs ds : List Copy}
      → Moves src_of dst stride n g cs
      → Moves src_of dst stride n g ds
      → (m : Memory) (a : ℕ) → run cs m a ≡ run ds m a
  Moves-agree {cs} {ds} p q m a = elim (Bool-cases (target src_of dst stride n g a)) [
    | inl e ↦
        let (le, i_lt, b_lt) = target-parts src_of dst stride n g fits a e in
        let at : dst + (a - dst) / stride * stride + (a - dst) % stride ≡ a =
          omega (arith, div-mul-add-mod (a - dst) stride) in
        subst (λ x. run cs m x ≡ run ds m x) at
          (p.pieces m _ _ i_lt b_lt ∙ sym (q.pieces m _ _ i_lt b_lt))
    | inr e ↦ p.frame m a (off e) ∙ sym (q.frame m a (off e))
  ]
    where
      off :
          target src_of dst stride n g a ≡ false
          → (i b : ℕ) → i < g
          → b < n
          → a ≢ dst + i * stride + b
      off e i b i_lt b_lt at = cc (
        target-inside src_of dst stride n g fits i b i_lt b_lt,
        ap (target src_of dst stride n g) at,
        e,
      )
