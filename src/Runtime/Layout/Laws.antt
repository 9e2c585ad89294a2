-- ===== src/Runtime/Layout/Laws.antt =====
-- What a layout covers.
use native.Mathlib.Nat.{mul-mod_left, add-mul, mul-le-mul_left, mul_comm, zero-mod}
use group_free_collectives.Base.{
  ◌⊎◌, ◌||◌, dec_le, dec_lt, le→leb, align_up-eq-cdiv, subst, ℕ, zero, suc, ◌+◌, ◌-◌, ◌*◌, ◌%◌, ◌≤◌,
  ◌<◌, ◌≡◌, refl, sym, ap, ◌∙◌, arith, false, List, [], ◌∷◌, length, min, ltb, ◌==◌, Bool-cases,
  inl, inr, ltb→lt, cdiv, align_up, le-align_up, le-cdiv, IsPowerOfTwo, ok, Option,
}
use group_free_collectives.Config.Laws.{IsValid}
use group_free_collectives.Runtime.State.{Setup}
use group_free_collectives.Runtime.Layout.{chunk_layout, layout_loop, effective_pipeline_chunks}

-- Non-empty pieces one after another from `off` to `axis`, each a multiple of `align` away from 0.
abbrev pub Covers : ℕ → ℕ → ℕ → List (ℕ × ℕ) → Type 0
Covers align axis off [] = off ≡ axis
Covers align axis off ((o, size) ∷ rest) =
    (o ≡ off) × (o % align ≡ 0) × (0 < size) × (o + size ≤ axis) × Covers align axis (o + size) rest

module _ (align axis q : ℕ) (pos : 0 < q * align) where
  -- Enough room for the loop reaches the end of the axis.
  loop-Covers :
      (room off : ℕ)
      → axis ≤ off + room * (q * align)
      → off ≤ axis
      → ((i : ℕ) × (off ≡ i * align)) ⊎ (off ≡ axis)
      → let found = layout_loop room (q * align) axis off in
        Covers align axis off found.0 × (found.1 ≡ axis) × (length found.0 ≤ room)
  unfolding layout_loop
  loop-Covers zero off reach le at = (omega arith, omega arith, omega arith)
  loop-Covers (suc room) off reach le at = elim (Bool-cases (ltb off axis)) [
    | inr e ↦ rw e (ground arith, ground arith, omega arith)
    | inl e ↦
        let size : ℕ = min (q * align) (axis - off) in
        let below : off < axis = ltb→lt off axis e in
        let (covers, end, few) =
          loop-Covers room (off + size) (omega arith) (omega arith) (next at below) in
        rw e ((refl, aligned at below, omega arith, omega arith, covers), end, omega arith)
  ]
    where
      aligned : ((i : ℕ) × (off ≡ i * align)) ⊎ (off ≡ axis) → off < axis → off % align ≡ 0
      aligned (inl (i, h)) below = rw h (mul-mod_left i align)
      aligned (inr h) below = absurd (omega arith)

      next :
          ((i : ℕ) × (off ≡ i * align)) ⊎ (off ≡ axis)
          → off < axis
          → ((i : ℕ) × (off + min (q * align) (axis - off) ≡ i * align))
            ⊎ (off + min (q * align) (axis - off) ≡ axis)
      next (inr h) below = absurd (omega arith)
      next (inl (i, h)) below = elim (dec_le (q * align) (axis - off)) [
        | yes fits ↦ inl (i + q, omega (arith, add-mul i q align))
        | no past ↦ inr (omega arith)
      ]

-- The layout of a positive axis over several chunks: pieces that cover it, and no more than asked
-- for.
several-Covers :
    (axis chunks align : ℕ)
    → 0 < axis
    → 0 < chunks
    → IsPowerOfTwo align
    → let found = layout_loop chunks (align_up (cdiv axis chunks) align) axis 0 in
      Covers align axis 0 found.0 × (found.1 ≡ axis) × (length found.0 ≤ chunks)
several-Covers axis chunks align a_pos c_pos p =
    subst
      (λ (nominal : ℕ).
        let found = layout_loop chunks nominal axis 0 in
        Covers align axis 0 found.0 × (found.1 ≡ axis) × (length found.0 ≤ chunks))
      (sym nominal-eq)
      (loop-Covers align axis (cdiv (cdiv axis chunks) align)
        (omega (arith, nominal-eq, nominal_ge, share_pos)) chunks 0
        (omega (
          arith,
          nominal-eq,
          nominal_ge,
          le-cdiv axis chunks c_pos,
          mul-le-mul_left chunks nominal_ge,
          mul_comm chunks (cdiv axis chunks),
        ))
        (omega arith) (inl (0, omega arith)))
  where
    nominal-eq : align_up (cdiv axis chunks) align ≡ cdiv (cdiv axis chunks) align * align
    nominal-eq = align_up-eq-cdiv (cdiv axis chunks) align p

    nominal_ge : cdiv axis chunks ≤ cdiv (cdiv axis chunks) align * align
    nominal_ge = omega (arith, nominal-eq, le-align_up (cdiv axis chunks) align p)

    share_pos : 0 < cdiv axis chunks
    share_pos = elim (dec_lt 0 (cdiv axis chunks)) [
      | yes h ↦ h
      | no h ↦ absurd (omega (arith, le-cdiv axis chunks c_pos, zero_share (omega arith)))
    ]
      where
        zero_share : cdiv axis chunks ≡ 0 → cdiv axis chunks * chunks ≡ 0
        zero_share h = ap (λ (x : ℕ). x * chunks) h ∙ (let z : 0 * chunks ≡ 0 = omega arith in z)

-- With an alignment that is a power of two, a layout cuts a non-empty axis into consecutive
-- non-empty pieces, the start of each a multiple of the alignment, at most as many as asked for; no
-- byte is left for the last piece to absorb.
pub chunk_layout-Covers :
    (axis chunks align : ℕ)
    → 0 < axis
    → 0 < chunks
    → IsPowerOfTwo align
    → (layout : List (ℕ × ℕ)) × (chunk_layout axis chunks align ≡ ok layout)
      × Covers align axis 0 layout
      × (length layout ≤ chunks)
unfolding chunk_layout
chunk_layout-Covers axis chunks align a_pos c_pos p = elim (Bool-cases (chunks == 1 || axis == 0)) [
  | inl e ↦ (
    (0, axis) ∷ [],
    rw (le→leb 1 chunks (omega arith)) (rw e refl),
    (refl, zero-mod align, a_pos, omega arith, omega arith),
    omega arith,
  )
  | inr e ↦
      let (covers, end, few) = several-Covers axis chunks align a_pos c_pos p in
      (_, rw (le→leb 1 chunks (omega arith)) (rw e (rw (not_below end) refl)), covers, few)
]
  where
    not_below : {off : ℕ} → off ≡ axis → ltb off axis ≡ false
    not_below h = ground arith

-- Under a valid configuration the pipelined path uses at least one chunk, and never more than its
-- configured maximum.
pub effective_pipeline_chunks_bound :
    (rt : Setup) (axis : ℕ) (override : Option ℕ)
    → IsValid rt.config
    → (0 < effective_pipeline_chunks rt axis override)
      × (effective_pipeline_chunks rt axis override ≤ rt.config.max_pipeline_chunks)
unfolding effective_pipeline_chunks
effective_pipeline_chunks_bound rt axis override v = ground arith
