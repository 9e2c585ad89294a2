-- ===== src/Kernel/Fused/BlockCopy.antt =====
-- What the block copy of the fused kernels copies: every byte of its segment, to each of its
-- destinations, and nothing else.
use native.Mathlib.Nat.{
  mul-le-mul_right, div-mul-le_self, lt-div-mul-add, lt_of_mul-lt-mul_right, mod-lt,
}
use group_free_collectives.Base.{
  ℕ, ◌+◌, ◌-◌, ◌*◌, ◌/◌, ◌%◌, ◌≤◌, ◌<◌, ◌≡◌, refl, sym, ap, ◌∙◌, ◌⊎◌, inl, inr, Option, none, some,
  some-injective, arith, ltb, ◌==◌, All, range, cdiv, lt→ltb, ltb→lt, div-mul-add-mod, le-cdiv,
  Bool-cases, dec_lt,
}
use group_free_collectives.Base.Membership.{
  here, there, Elem-concat_map, All-concat_map, Elem-range, All-when, Elem-when, All-append,
  Elem-append_left, Elem-append_right,
}
use group_free_collectives.Kernel.Memory.{Copy}
use group_free_collectives.Kernel.Pull.Coverage.{Written}
use group_free_collectives.Kernel.Fused.{store_lane, byte_tail_copy, bulk_copy, fused_block_copy}

-- A destination of a block copy.
abbrev pub IsTarget : ℕ → ℕ → Option ℕ → Type 0
IsTarget d dst1 dst2 = (d ≡ dst1) ⊎ (dst2 ≡ some d)

pub only-IsTarget : {d dst1 : ℕ} → IsTarget d dst1 none → d ≡ dst1
only-IsTarget (inl e) = e
only-IsTarget (inr e) = absurd (cc)

-- The copy takes a part of the `n` bytes at `src` to one of the destinations.
abbrev pub TakesPart : ℕ → ℕ → Option ℕ → ℕ → Copy → Type 0
TakesPart src dst1 dst2 n c =
    (o : ℕ) × (d : ℕ) × (o + c.len ≤ n) × (c.src ≡ src + o) × (c.dst ≡ d + o) × IsTarget d dst1 dst2

lane_bytes :
    (block vec round lane : ℕ) → (round * block + lane) * vec ≡ round * (block * vec) + lane * vec
lane_bytes block vec round lane = grind arith

lane_end :
    (block vec round lane q n : ℕ)
    → q * vec ≤ n
    → lane * vec < q * vec - round * (block * vec)
    → round * (block * vec) + lane * vec + vec ≤ n
lane_end block vec round lane q n fits lt =
    let at = lane_bytes block vec round lane in
    let below : round * block + lane < q = lt_of_mul-lt-mul_right vec (omega arith) in
    omega (arith, mul-le-mul_right vec below)

module _ (src dst1 : ℕ) where
  lane-TakesPart :
      (dst2 : Option ℕ) (n o len : ℕ)
      → o + len ≤ n
      → All (TakesPart src dst1 dst2 n) (store_lane src dst1 dst2 o len)
  lane-TakesPart none n o len fits = ((o, dst1, fits, refl, refl, inl refl), tt)
  lane-TakesPart (some d) n o len fits =
      ((o, dst1, fits, refl, refl, inl refl), ((o, d, fits, refl, refl, inr refl), tt))

  lane-Written :
      (dst2 : Option ℕ) (d o len b : ℕ)
      → IsTarget d dst1 dst2
      → o ≤ b
      → b < o + len
      → Written (d + b) (store_lane src dst1 dst2 o len)
  lane-Written none d o len b (inl e) le lt =
      (record { src = src + o; dst = dst1 + o; len = len }, here refl, omega arith)
  lane-Written none d o len b (inr e) le lt = absurd (cc)
  lane-Written (some d2) d o len b (inl e) le lt =
      (record { src = src + o; dst = dst1 + o; len = len }, here refl, omega arith)
  lane-Written (some d2) d o len b (inr e) le lt =
      let same : d2 ≡ d = some-injective e in
      (record { src = src + o; dst = d2 + o; len = len }, there (here refl), omega arith)

  module _ (dst2 : Option ℕ) (block : ℕ) where
    tail-TakesPart :
        (off n : ℕ) → All (TakesPart src dst1 dst2 n) (byte_tail_copy src dst1 dst2 off n block)
    unfolding byte_tail_copy
    tail-TakesPart off n = All-concat_map _ _ (range (cdiv (n - off) block)) λ round m.
        All-concat_map _ _ (range block) λ lane m'.
          All-when _ _ (ltb (off + round * block + lane) n) λ e.
            lane-TakesPart dst2 n (off + round * block + lane) 1
              (omega (arith, ltb→lt (off + round * block + lane) n e))

    tail-Written :
        (off n d b : ℕ)
        → 0 < block
        → IsTarget d dst1 dst2
        → off ≤ b
        → b < n
        → Written (d + b) (byte_tail_copy src dst1 dst2 off n block)
    unfolding byte_tail_copy
    tail-Written off n d b pos goal le lt =
        let r = b - off in
        let parts = div-mul-add-mod r block in
        let round_lt : r / block < cdiv (n - off) block =
          lt_of_mul-lt-mul_right block
            (omega (arith, le-cdiv (n - off) block pos, div-mul-le_self r block)) in
        let (c, m, w) =
          lane-Written dst2 d (off + r / block * block + r % block) 1 b goal (omega arith)
            (omega arith) in
        (
          c,
          Elem-concat_map _ (Elem-range _ (r / block) round_lt) (
              Elem-concat_map _ (Elem-range block (r % block) (mod-lt r pos)) (
                Elem-when _ (ltb (off + r / block * block + r % block) n) (lt→ltb _ _ (omega arith))
                  m)),
          w,
        )

    bulk-TakesPart :
        (q n vec : ℕ)
        → q * vec ≤ n
        → All (TakesPart src dst1 dst2 n) (bulk_copy src dst1 dst2 (q * vec) block vec)
    unfolding bulk_copy
    bulk-TakesPart q n vec fits =
        All-concat_map _ _ (range (cdiv (q * vec) (block * vec))) λ round m.
          All-concat_map _ _ (range block) λ lane m'.
            All-when _ _ (ltb (lane * vec) (q * vec - round * (block * vec))) λ e.
              lane-TakesPart dst2 n (round * (block * vec) + lane * vec) vec
                (lane_end block vec round lane q n fits (ltb→lt _ _ e))

    bulk-Written :
        (q vec d b : ℕ)
        → 0 < block
        → 0 < vec
        → IsTarget d dst1 dst2
        → b < q * vec
        → Written (d + b) (bulk_copy src dst1 dst2 (q * vec) block vec)
    unfolding bulk_copy
    bulk-Written q vec d b pos vec_pos goal lt =
        let e = b / vec in
        let round = e / block in
        let lane = e % block in
        let e_parts : round * block + lane ≡ e = div-mul-add-mod e block in
        let at : round * (block * vec) + lane * vec ≡ e * vec =
          sym (lane_bytes block vec round lane) ∙ ap (λ (x : ℕ). x * vec) e_parts in
        let low = div-mul-le_self b vec in
        let high = lt-div-mul-add {a = b} vec_pos in
        let round_lt : round < cdiv (q * vec) (block * vec) = lt_of_mul-lt-mul_right (block * vec) (
          omega
            (arith, le-cdiv (q * vec) (block * vec) (omega (arith, mul-le-mul_right vec pos)))) in
        let (c, m, w) =
          lane-Written dst2 d (round * (block * vec) + lane * vec) vec b goal (omega arith)
            (omega arith) in
        (
          c,
          Elem-concat_map _ (Elem-range _ round round_lt) (
              Elem-concat_map _ (Elem-range block lane (mod-lt e pos)) (
                Elem-when _ (ltb (lane * vec) (q * vec - round * (block * vec)))
                  (lt→ltb _ _ (omega arith)) m)),
          w,
        )

    -- Every copy of a block copy takes a part of the segment to one of its destinations.
    pub block-TakesPart :
        (n vec : ℕ) → All (TakesPart src dst1 dst2 n) (fused_block_copy src dst1 dst2 n block vec)
    unfolding fused_block_copy
    block-TakesPart n vec = elim (Bool-cases (vec == 1)) [
      | inl e ↦ rw e (tail-TakesPart 0 n)
      | inr e ↦ rw e (
          All-append _ _ _ (bulk-TakesPart (n / vec) n vec (div-mul-le_self n vec))
            (All-when _ _ (ltb (n / vec * vec) n) (λ h. tail-TakesPart (n / vec * vec) n)))
    ]

    -- Every byte of the segment gets to each destination.
    pub block-Written :
        (n vec d b : ℕ)
        → 0 < block
        → 0 < vec
        → IsTarget d dst1 dst2
        → b < n
        → Written (d + b) (fused_block_copy src dst1 dst2 n block vec)
    unfolding fused_block_copy
    block-Written n vec d b pos vec_pos goal lt = elim (Bool-cases (vec == 1)) [
      | inl e ↦ rw e (tail-Written 0 n d b pos goal (omega arith) lt)
      | inr e ↦ rw e (elim (dec_lt b (n / vec * vec)) [
        | yes below ↦
            let (c, m, w) = bulk-Written (n / vec) vec d b pos vec_pos goal below in
            (c, Elem-append_left _ m, w)
        | no past ↦
            let (c, m, w) = tail-Written (n / vec * vec) n d b pos goal (omega arith) lt in
            (
              c,
              Elem-append_right (bulk_copy src dst1 dst2 (n / vec * vec) block vec)
                  (Elem-when _ (ltb (n / vec * vec) n) (lt→ltb _ _ (omega arith)) m),
              w,
            )
      ])
    ]
