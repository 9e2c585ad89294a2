-- ===== src/Kernel/Fused/Fleet/Aims.antt =====
-- The bytes that the members of a fleet aim at: each has one value that is meant.
use group_free_collectives.Base.{
  ℕ, ◌+◌, ◌*◌, ◌/◌, ◌%◌, ◌≤◌, ◌<◌, ◌≡◌, refl, sym, ap, subst, ◌∙◌, inl, inr, List, All, arith,
  cdiv-lt, range, Bool-cases, ◌==◌, none, false, ◌≢◌, parts-lt, parts-div, parts-mod,
}
use native.Mathlib.Nat.{mul-le-mul_right, mod-lt}
use group_free_collectives.Base.Membership.{All-concat_map, Elem-concat_map, Elem-range, All-imp}
use group_free_collectives.Kernel.Memory.{Memory, Copy}
use group_free_collectives.Kernel.Pull.{ring_index}
use group_free_collectives.Kernel.Pull.Coverage.{Written, ring_index-onto}
use group_free_collectives.Kernel.Fused.{
  FusedArgs, n_chunks, this_chunk, base_byte, partition_size, partition_off, pull_chunk,
}
use group_free_collectives.Kernel.Fused.BlockCopy.{block-TakesPart, block-Written, only-IsTarget}
use group_free_collectives.Kernel.Fused.Fleet.{member, window, IsPlaced, Meant}

-- A chunk ends within the slice.
pub base_byte-end :
    (a : FusedArgs) (channel k : ℕ)
    → 0 < a.chunk_bytes
    → k < n_chunks a channel
    → base_byte a channel k + this_chunk a channel k ≤ a.slice_bytes
base_byte-end a channel k pos lt =
    omega (
      arith,
      cdiv-lt (partition_size a channel) a.chunk_bytes pos,
      mul-le-mul_right a.chunk_bytes lt,
    )

pub chunk-inside :
    (a : FusedArgs) (channel k : ℕ)
    → 0 < a.chunk_bytes
    → k < n_chunks a channel
    → partition_off a channel < a.slice_bytes
chunk-inside a channel k pos lt =
    omega (
      arith,
      cdiv-lt (partition_size a channel) a.chunk_bytes pos,
      mul-le-mul_right a.chunk_bytes lt,
    )

pub in_slices :
    (a : FusedArgs) (j x : ℕ)
    → j < a.group_size
    → x < a.slice_bytes
    → j * a.slice_bytes + x < a.group_size * a.slice_bytes
in_slices a j x hj hx = parts-lt j x a.slice_bytes a.group_size hj hx

module _ (a : FusedArgs) (ins outs widths ranks cb_ptrs : ℕ → ℕ) (staged : ℕ)
    (placed : IsPlaced a ins outs widths ranks cb_ptrs staged) (stage : ℕ → ℕ → ℕ → List Copy)
    (piece : ℕ → ℕ) (m0 : Memory) where
  abbrev win : ℕ → ℕ
  win = window a ins outs widths ranks cb_ptrs

  -- The value meant for a byte of a window.
  pub window-value :
      (i y v : ℕ)
      → i < a.group_size
      → y < staged
      → Meant a ins outs widths ranks cb_ptrs staged stage piece m0 (win i + y) v
      → v ≡ m0 (ins i + y)
  window-value i y v hi hy (inl (j, z, hj, hz, at, e)) =
      let same = placed.windows i j y z hi hj hy hz at in
      let again = subst (λ t. win i + y ≡ win t + z) (sym same) at in
      e ∙ ap m0 (omega (arith, ap ins same, again))
  window-value i y v hi hy (inr (i', j, x, hi', hj, hx, at, e)) = absurd (
      placed.window_output i i' y (j * a.slice_bytes + x) hi hi' hy (in_slices a j x hj hx)
        (omega arith))

  -- The value meant for a byte of an output.
  pub output-value :
      (i j x v : ℕ)
      → i < a.group_size
      → j < a.group_size
      → x < a.slice_bytes
      → Meant a ins outs widths ranks cb_ptrs staged stage piece m0
          (outs i + j * a.slice_bytes + x)
          v
      → v ≡ m0 (ins j + (piece i + x))
  output-value i j x v hi hj hx (inl (t, z, ht, hz, at, e)) = absurd (
      placed.window_output t i z (j * a.slice_bytes + x) ht hi hz (in_slices a j x hj hx)
        (omega arith))
  output-value i j x v hi hj hx (inr (i', j', x', hi', hj', hx', at, e)) =
      let same =
        placed.outputs i i' (j * a.slice_bytes + x) (j' * a.slice_bytes + x') hi hi'
          (in_slices a j x hj hx) (in_slices a j' x' hj' hx') (omega arith) in
      let cells : j * a.slice_bytes + x ≡ j' * a.slice_bytes + x' = omega (arith, ap outs same) in
      let same_j : j ≡ j' =
        sym (parts-div j x a.slice_bytes hx)
        ∙ ap (λ (t : ℕ). t / a.slice_bytes) cells
        ∙ parts-div j' x' a.slice_bytes hx' in
      let same_x : x ≡ x' =
        sym (parts-mod j x a.slice_bytes hx)
        ∙ ap (λ (t : ℕ). t % a.slice_bytes) cells
        ∙ parts-mod j' x' a.slice_bytes hx' in
      e ∙ ap m0 (omega (arith, ap ins same_j, ap piece same, same_x))

-- What the pulls of a chunk take: each peer's bytes of the chunk, to that peer's place.
module _ (a : FusedArgs) (ins outs widths ranks cb_ptrs : ℕ → ℕ) (piece_off : ℕ) where
  abbrev pub Pulls : ℕ → ℕ → ℕ → Copy → Type 0
  Pulls i channel k c =
      (j : ℕ) × (o : ℕ) × (j < a.group_size)
      × (j ≢ i)
      × (o + c.len ≤ this_chunk a channel k)
      × (c.src
          ≡ window a ins outs widths ranks cb_ptrs j + (piece_off + (base_byte a channel k + o)))
      × (c.dst ≡ outs i + j * a.slice_bytes + (base_byte a channel k + o))

  pub pull_chunk-Pulls :
      (i channel k : ℕ)
      → i < a.group_size
      → All
          (Pulls i channel k)
          (pull_chunk (member a ins outs widths ranks cb_ptrs i) ranks cb_ptrs piece_off channel k)
  unfolding pull_chunk ring_index
  pull_chunk-Pulls i channel k hi = All-concat_map _ _ (range a.group_size) λ d m.
      let j = ring_index i a.group_size d in
      let hj : j < a.group_size = mod-lt (d + i + 1) (omega arith) in
      elim (Bool-cases (j == i)) [
        | inl e ↦ rw e tt
        | inr e ↦ rw e (
            All-imp _ _
              (λ c (o, dst, fits, from, to, goal). (
                j,
                o,
                hj,
                (λ s. ground arith),
                fits,
                omega arith,
                omega (arith, only-IsTarget goal),
              ))
              _ (block-TakesPart _ _ none a.block_elts (this_chunk a channel k) (widths i)))
      ]

  -- Every byte of a peer's chunk gets to the output.
  pub pull_chunk-Written :
      (i j channel k b : ℕ)
      → i < a.group_size
      → j < a.group_size
      → j ≢ i
      → 0 < a.block_elts
      → 0 < widths i
      → b < this_chunk a channel k
      → Written
          (outs i + j * a.slice_bytes + (base_byte a channel k + b))
          (pull_chunk (member a ins outs widths ranks cb_ptrs i) ranks cb_ptrs piece_off channel k)
  unfolding pull_chunk
  pull_chunk-Written i j channel k b hi hj other block_pos width_pos lt =
      let (d, d_lt, at) = ring_index-onto i a.group_size j hj in
      let test : (ring_index i a.group_size d == i) ≡ false = ground arith in
      let (c, m, w) =
        block-Written
          (window a ins outs widths ranks cb_ptrs (ring_index i a.group_size d)
            + piece_off
            + base_byte a channel k)
          (outs i + ring_index i a.group_size d * a.slice_bytes + base_byte a channel k) none
          a.block_elts (this_chunk a channel k) (widths i) _ b block_pos width_pos (inl refl) lt in
      (
        c,
        Elem-concat_map _ (Elem-range a.group_size d d_lt) (rw test m),
        omega (arith, ap (λ (x : ℕ). x * a.slice_bytes) at),
      )
