-- ===== src/Kernel/Width.antt =====
-- Vector widths: gfc/kernels/_common.py, `_vec_for` of gfc/runtime.py and `_next_pow2` of
-- gfc/kernels/fused.py. Addresses and sizes are not negative.
pub mod Laws
pub mod Divides
pub mod Alignment
use group_free_collectives.Base.{
  ℕ, zero, suc, ◌+◌, ◌-◌, ◌*◌, ◌%◌, ◌^◌, Bool, true, false, List, [], ◌∷◌, ltb, leb, ◌==◌,
  if◌then◌else◌, and_not,
}

-- Euclid's algorithm; `b` rounds are enough, since the remainders fall below it.
unfoldable pub gcd_rounds : ℕ → ℕ → ℕ → ℕ
gcd_rounds zero a b = a
gcd_rounds (suc fuel) a b = elim (b == 0) [ true ↦ a | false ↦ gcd_rounds fuel b (a % b) ]

-- `math.gcd`.
unfoldable pub gcd : ℕ → ℕ → ℕ
gcd a b = gcd_rounds (suc b) a b

unfoldable pub pick_width : ℕ → ℕ
pick_width align =
    if leb 16 align then 16 else if leb 8 align then 8 else if leb 4 align then 4 else 1

-- The loop over the alignments, which returns 1 at the first that is 0.
unfoldable pub fold_alignments : ℕ → List ℕ → ℕ
unfolding pick_width
fold_alignments align [] = pick_width align
fold_alignments align (a ∷ rest) =
    let go = fold_alignments (if align == 0 then a else gcd align a) rest in
    if a == 0 then 1 else go

unfoldable pub vec_width_bytes : List ℕ → ℕ
unfolding fold_alignments
vec_width_bytes alignments = fold_alignments 0 alignments

-- `addr & (-addr)`: the two's complement of `-addr` is that of `~(addr - 1)`.
unfoldable pub base_alignment : ℕ → ℕ
base_alignment addr = if addr == 0 then 2 ^ 62 else and_not addr (addr - 1)

-- `aligns`: each pointer by its alignment, and the payload size, which stands last, as it is.
unfoldable pub alignments_of : List ℕ → ℕ → List ℕ
unfolding base_alignment
alignments_of [] size = size ∷ []
alignments_of (p ∷ ptrs) size = base_alignment p ∷ alignments_of ptrs size

-- `_vec_for(*ptrs, size)`.
unfoldable pub vec_for : List ℕ → ℕ → ℕ
unfolding vec_width_bytes alignments_of
vec_for ptrs size = vec_width_bytes (alignments_of ptrs size)

-- `while p < n: p *= 2`; `fuel` bounds the rounds, and `n` of them are enough.
unfoldable pub double_until : ℕ → ℕ → ℕ → ℕ
double_until zero p n = p
double_until (suc fuel) p n = elim (ltb p n) [ true ↦ double_until fuel (p * 2) n | false ↦ p ]

-- `_next_pow2`, past its assert.
unfoldable pub next_pow2 : ℕ → ℕ
unfolding double_until
next_pow2 n = double_until n 1 n
