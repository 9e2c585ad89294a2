-- ===== src/Kernel/Pull/Ring.antt =====
-- The whole loop of the pull kernels: every byte of every peer's piece is copied, and nothing else.
use native.Mathlib.Nat.{mod-lt, mul_comm}
use group_free_collectives.Base.{
  ℕ, ◌+◌, ◌-◌, ◌*◌, ◌/◌, ◌%◌, ◌≤◌, ◌<◌, ◌≡◌, sym, ap, subst, ◌∙◌, ◌⊎◌, inl, inr, Bool, true, List,
  ◌&&◌, arith, ltb, All, range, cdiv, parts-div, parts-lt, div-mul-add-mod, dec_lt,
}
use group_free_collectives.Base.Membership.{
  Elem, Elem-concat_map, All-concat_map, Elem-range, Elem-append_left, Elem-append_right,
  All-append, All-when, Elem-when,
}
use group_free_collectives.Kernel.Memory.{Copy, Agrees}
use group_free_collectives.Kernel.Grid.{grid-reaches}
use group_free_collectives.Kernel.Pull.{
  PullShape, tile_copies, tail_copies, ring_index, ring_task, ring_tail, ring_program, ring_pull,
}
use group_free_collectives.Kernel.Pull.Coverage.{
  Piece, tile-Agrees, tail-Agrees, Written, tile-Written, tail-Written, ring_index-onto,
}

pub ring_index-lt : (self_idx g d : ℕ) → 0 < g → ring_index self_idx g d < g
unfolding ring_index
ring_index-lt self_idx g d pos = mod-lt (d + self_idx + 1) pos

-- The last bytes of a piece that is no multiple of the element size are left to the first
-- `group_size` programs.
abbrev pub TailReached : ℕ → ℕ → PullShape → Type 0
TailReached n g s = (n % s.elt_bytes ≡ 0) ⊎ ((s.has_tail ≡ true) × (g ≤ s.grid))

module _ (src_of dst_of : ℕ → ℕ) (self_idx n g : ℕ) (s : PullShape) where
  ring_task-eq :
      (t d : ℕ)
      → d < g
      → ring_task src_of dst_of self_idx n g s (t * g + d)
        ≡ tile_copies
            (src_of (ring_index self_idx g d))
            (dst_of (ring_index self_idx g d))
            s.elt_bytes
            s.block_elts
            (n / s.elt_bytes)
            (t * s.block_elts)
  unfolding ring_task
  ring_task-eq t d h =
      ap (at_quotient (t * g + d)) (parts-div t d g h)
      ∙ ap (at_delta t) (let e : t * g + d - t * g ≡ d = omega arith in e)
    where
      at_delta : ℕ → ℕ → List Copy
      at_delta q delta =
          tile_copies (src_of (ring_index self_idx g delta)) (dst_of (ring_index self_idx g delta))
            s.elt_bytes s.block_elts (n / s.elt_bytes) (q * s.block_elts)

      at_quotient : ℕ → ℕ → List Copy
      at_quotient task q = at_delta q (task - q * g)

  module _ {target : ℕ → Bool} {origin : ℕ → ℕ} (g_pos : 0 < g)
      (pieces : (i : ℕ) → i < g → Piece target origin (src_of i) (dst_of i) n) where
    ring_task-Agrees :
        (task : ℕ) → All (Agrees target origin) (ring_task src_of dst_of self_idx n g s task)
    unfolding ring_task
    ring_task-Agrees task =
        tile-Agrees (pieces _ (ring_index-lt self_idx g _ g_pos)) s.elt_bytes s.block_elts _

    ring_tail-Agrees :
        (pid : ℕ) → All (Agrees target origin) (ring_tail src_of dst_of self_idx n g s pid)
    unfolding ring_tail
    ring_tail-Agrees pid =
        All-when _ (Agrees target origin) (s.has_tail && ltb pid g)
          λ e. tail-Agrees (pieces _ (ring_index-lt self_idx g pid g_pos)) s.elt_bytes

    pub ring_pull-Agrees : All (Agrees target origin) (ring_pull src_of dst_of self_idx n g s)
    unfolding ring_pull ring_program
    ring_pull-Agrees = All-concat_map _ (Agrees target origin) (range s.grid) λ pid m.
        All-append (Agrees target origin) _ _
          (All-concat_map _ (Agrees target origin) _ (λ task k. ring_task-Agrees task))
          (ring_tail-Agrees pid)

  module _ (elt_pos : 0 < s.elt_bytes) (block_pos : 0 < s.block_elts) (grid_pos : 0 < s.grid)
      (reached : TailReached n g s) (i : ℕ) (i_lt : i < g) (b : ℕ) (b_lt : b < n) where
    abbrev AtByte : List Copy → Type 0
    AtByte = Written (dst_of i + b)

    in_program :
        (pid : ℕ)
        → pid < s.grid
        → AtByte (ring_program src_of dst_of self_idx n g s pid)
        → AtByte (ring_pull src_of dst_of self_idx n g s)
    unfolding ring_pull
    in_program pid h (c, m, w) = (c, Elem-concat_map _ (Elem-range s.grid pid h) m, w)

    bulk-Written :
        b < n / s.elt_bytes * s.elt_bytes → AtByte (ring_pull src_of dst_of self_idx n g s)
    unfolding ring_program
    bulk-Written bulk =
        let (d, d_lt, at) = ring_index-onto self_idx g i i_lt in
        let (t, t_lt, w) =
          tile-Written (src_of i) (dst_of i) n s.elt_bytes elt_pos b s.block_elts block_pos bulk in
        let in_task : Elem w.0 (ring_task src_of dst_of self_idx n g s (t * g + d)) =
          subst (Elem w.0) (sym (ring_task-eq t d d_lt ∙ ap (tile_of t) at)) w.1 in
        let (pid, pid_lt, visited) =
          grid-reaches (g * cdiv (n / s.elt_bytes) s.block_elts) s.grid grid_pos (t * g + d) (
            omega (
              arith,
              parts-lt t d g (cdiv (n / s.elt_bytes) s.block_elts) t_lt d_lt,
              mul_comm g (cdiv (n / s.elt_bytes) s.block_elts),
            )) in
        in_program pid pid_lt (w.0, Elem-append_left _ (Elem-concat_map _ visited in_task), w.2)
      where
        tile_of : ℕ → ℕ → List Copy
        tile_of t k =
            tile_copies (src_of k) (dst_of k) s.elt_bytes s.block_elts (n / s.elt_bytes)
              (t * s.block_elts)

    past-Written :
        n / s.elt_bytes * s.elt_bytes ≤ b → AtByte (ring_pull src_of dst_of self_idx n g s)
    unfolding ring_program ring_tail
    past-Written past = elim reached [
      | inl exact ↦ absurd (omega (arith, div-mul-add-mod n s.elt_bytes))
      | inr (has, fits) ↦
          let (d, d_lt, at) = ring_index-onto self_idx g i i_lt in
          let w = tail-Written (src_of i) (dst_of i) n s.elt_bytes elt_pos b past b_lt in
          let in_tail : Elem w.0 (tail_of (ring_index self_idx g d)) =
            subst (λ k. Elem w.0 (tail_of k)) (sym at) w.1 in
          in_program d (omega arith) (
            w.0,
            Elem-append_right _ (Elem-when _ (s.has_tail && ltb d g) (ground arith) in_tail),
            w.2,
          )
    ]
      where
        tail_of : ℕ → List Copy
        tail_of k = tail_copies (src_of k) (dst_of k) s.elt_bytes (n / s.elt_bytes) n

    pub ring_pull-Written : AtByte (ring_pull src_of dst_of self_idx n g s)
    ring_pull-Written = elim (dec_lt b (n / s.elt_bytes * s.elt_bytes)) [
      | yes h ↦ bulk-Written h
      | no h ↦ past-Written (omega arith)
    ]
