-- ===== src/Kernel/Pull/Coverage.antt =====
-- What the loop of the pull kernels copies: every byte of every peer's piece, and nothing else.
use native.Mathlib.Nat.{
  add_assoc, mul-le-mul_right, div-mul-le_self, lt-div-mul-add, lt_of_mul-lt-mul_right, mod-lt,
}
use group_free_collectives.Base.{
  ℕ, ◌+◌, ◌-◌, ◌*◌, ◌/◌, ◌%◌, ◌≤◌, ◌<◌, ◌≡◌, sym, ap, ◌∙◌, Bool, true, false, List, arith, ltb, All,
  range, cdiv, lt→ltb, ltb→lt, div-mul-add-mod, dec_le, parts-mod, le-cdiv,
}
use group_free_collectives.Base.Membership.{
  Elem, Elem-concat_map, All-concat_map, Elem-range, All-if, Elem-if,
}
use group_free_collectives.Kernel.Memory.{Copy, Writes, Agrees}
use group_free_collectives.Kernel.Pull.{lane_copy, tile_copies, tail_copies, ring_index}

-- `n` bytes wanted at `dst` from `src`, which lies outside the target.
pub record Piece (target : ℕ → Bool) (origin : ℕ → ℕ) (src dst n : ℕ) : Type 0 where
  pub inside : (j : ℕ) → j < n → target (dst + j) ≡ true
  pub from : (j : ℕ) → j < n → origin (dst + j) ≡ src + j
  pub outside : (j : ℕ) → j < n → target (src + j) ≡ false

module _ {target : ℕ → Bool} {origin : ℕ → ℕ} {src dst n : ℕ}
    (piece : Piece target origin src dst n) where
  -- A copy of a part of a piece agrees with it.
  pub Piece-Agrees :
      (o l : ℕ)
      → o + l ≤ n
      → Agrees target origin (record { src = src + o; dst = dst + o; len = l })
  Piece-Agrees o l fits = record {
    inside = λ j h. ap target (add_assoc dst o j) ∙ piece.inside (o + j) (omega arith);
    from = λ j h.
        ap origin (add_assoc dst o j) ∙ piece.from (o + j) (omega arith) ∙ sym (add_assoc src o j);
    outside = λ j h. ap target (add_assoc src o j) ∙ piece.outside (o + j) (omega arith);
  }

  module _ (elt : ℕ) where
    pub tile-Agrees :
        (block base : ℕ) → All (Agrees target origin) (tile_copies src dst elt block (n / elt) base)
    unfolding tile_copies
    tile-Agrees block base = All-concat_map _ (Agrees target origin) (range block) λ lane m.
        All-if (lane_copy src dst elt (base + lane)) (Agrees target origin)
          (ltb (base + lane) (n / elt))
          λ e. Piece-Agrees ((base + lane) * elt) elt (lane_fits (ltb→lt (base + lane) (n / elt) e))
      where
        lane_fits : {offs : ℕ} → offs < n / elt → offs * elt + elt ≤ n
        lane_fits below = omega (arith, mul-le-mul_right elt below, div-mul-le_self n elt)

    pub tail-Agrees : All (Agrees target origin) (tail_copies src dst elt (n / elt) n)
    unfolding tail_copies
    tail-Agrees = All-concat_map _ (Agrees target origin) (range elt) λ lane m.
        All-if _ (Agrees target origin) (ltb (n / elt * elt + lane) n) λ e.
          Piece-Agrees (n / elt * elt + lane) 1 (omega (arith, ltb→lt (n / elt * elt + lane) n e))

-- Some copy of the list writes the byte at `a`.
abbrev pub Written : ℕ → List Copy → Type 0
Written a cs = (c : Copy) × Elem c cs × Writes a c

module _ (src dst n elt : ℕ) (elt_pos : 0 < elt) (b : ℕ) where
  -- A byte of the bulk is written by the tile that holds its element.
  pub tile-Written :
      (block : ℕ)
      → 0 < block
      → b < n / elt * elt
      → (t : ℕ) × (t < cdiv (n / elt) block)
        × Written (dst + b) (tile_copies src dst elt block (n / elt) (t * block))
  unfolding tile_copies
  tile-Written block block_pos bulk = (
    t,
    lt_of_mul-lt-mul_right block
        (omega (arith, le-cdiv (n / elt) block block_pos, div-mul-le_self e block, e_lt)),
    (
      lane_copy src dst elt (t * block + e % block),
      Elem-concat_map _ (Elem-range block (e % block) (mod-lt e block_pos)) (
          Elem-if _ (ltb (t * block + e % block) (n / elt))
            (lt→ltb _ _ (omega (arith, e_parts, e_lt)))),
      omega (
        arith,
        e_parts,
        div-mul-le_self b elt,
        lt-div-mul-add {a = b} elt_pos,
        ap (λ (x : ℕ). x * elt) e_parts,
      ),
    ),
  )
    where
      e : ℕ
      e = b / elt

      t : ℕ
      t = e / block

      e_parts : t * block + e % block ≡ e
      e_parts = div-mul-add-mod e block

      e_lt : e < n / elt
      e_lt = lt_of_mul-lt-mul_right elt (omega (arith, div-mul-le_self b elt))

  -- A byte of the tail is written by its lane.
  pub tail-Written :
      n / elt * elt ≤ b → b < n → Written (dst + b) (tail_copies src dst elt (n / elt) n)
  unfolding tail_copies
  tail-Written past below = (
    record { src = src + (n / elt * elt + lane); dst = dst + (n / elt * elt + lane); len = 1 },
    Elem-concat_map _ (Elem-range elt lane (omega (arith, lt-div-mul-add {a = n} elt_pos)))
        (Elem-if _ (ltb (n / elt * elt + lane) n) (lt→ltb _ _ (omega arith))),
    omega arith,
  )
    where
      lane : ℕ
      lane = b - n / elt * elt

-- Each peer index is reached by one step of the ring.
pub ring_index-onto : (self_idx g i : ℕ) → i < g → (d : ℕ) × (d < g) × (ring_index self_idx g d ≡ i)
unfolding ring_index
ring_index-onto self_idx g i h = elim (dec_le r i) [
  | yes le ↦ (i - r, omega arith, ap (λ (x : ℕ). x % g) (omega (arith, whole)) ∙ parts-mod q i g h)
  | no gt ↦ (
    i + g - r,
    omega (arith, mod-lt (self_idx + 1) (let pos : 0 < g = omega arith in pos)),
    ap (λ (x : ℕ). x % g)
          (omega (arith, whole, mod-lt (self_idx + 1) (let pos : 0 < g = omega arith in pos)))
        ∙ parts-mod (q + 1) i g h,
  )
]
  where
    q : ℕ
    q = (self_idx + 1) / g

    r : ℕ
    r = (self_idx + 1) % g

    whole : q * g + r ≡ self_idx + 1
    whole = div-mul-add-mod (self_idx + 1) g
