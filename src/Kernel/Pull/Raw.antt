-- ===== src/Kernel/Pull/Raw.antt =====
-- What a successful launch of the raw pull copy moves.
use group_free_collectives.Base.{
  ℕ, zero, suc, ◌+◌, ◌*◌, ◌/◌, ◌%◌, ◌<◌, ◌≡◌, ◌⊎◌, sym, true, List, Bool, arith, ok, check,
  assertion_error, >>=-ok, ok-injective, subst, All, ltb, ◌==◌, ◌||◌, ◌&&◌, cdiv, range, dec_lt,
  div-mul-add-mod,
}
use group_free_collectives.Base.Membership.{
  Elem-concat_map, All-concat_map, Elem-range, Elem-append_left, Elem-append_right, All-append,
  All-when, Elem-when,
}
use group_free_collectives.Kernel.Memory.{Memory, Copy, run, Agrees}
use group_free_collectives.Kernel.Grid.{persistent, grid-reaches}
use group_free_collectives.Kernel.Strided.{
  Apart, Moves, target, origin, strided-Piece, strided-Moves,
}
use group_free_collectives.Kernel.Pull.{tile_copies, PullShape, pull_copy_kernel, launch_pull_copy}
use group_free_collectives.Kernel.Pull.Coverage.{
  Piece, tile-Agrees, tail-Agrees, Written, tile-Written, tail-Written,
}
use group_free_collectives.Kernel.Pull.Laws.{dtype_for_vec_pos}

module _ (src dst n : ℕ) (s : PullShape) where
  module _ {target : ℕ → Bool} {origin : ℕ → ℕ} (piece : Piece target origin src dst n) where
    pull_copy-Agrees : All (Agrees target origin) (pull_copy_kernel src dst n s)
    unfolding pull_copy_kernel
    pull_copy-Agrees = All-concat_map _ (Agrees target origin) (range s.grid) λ pid m.
        All-append (Agrees target origin) _ _
          (All-concat_map
            (λ (t : ℕ).
              tile_copies src dst s.elt_bytes s.block_elts (n / s.elt_bytes) (t * s.block_elts))
            (Agrees target origin)
            (persistent (cdiv (n / s.elt_bytes) s.block_elts) pid
              (cdiv (n / s.elt_bytes) s.block_elts) s.grid)
            (λ t k. tile-Agrees piece s.elt_bytes s.block_elts _))
          (All-when _ (Agrees target origin) (s.has_tail && pid == 0)
            λ e. tail-Agrees piece s.elt_bytes)

  module _ (elt_pos : 0 < s.elt_bytes) (block_pos : 0 < s.block_elts) (grid_pos : 0 < s.grid)
      (tail : (n % s.elt_bytes ≡ 0) ⊎ (s.has_tail ≡ true)) (b : ℕ) (b_lt : b < n) where
    pull_copy-Written : Written (dst + b) (pull_copy_kernel src dst n s)
    unfolding pull_copy_kernel
    pull_copy-Written = elim (dec_lt b (n / s.elt_bytes * s.elt_bytes)) [
      | yes bulk ↦
          let (t, t_lt, w) =
            tile-Written src dst n s.elt_bytes elt_pos b s.block_elts block_pos bulk in
          let (pid, pid_lt, visited) =
            grid-reaches (cdiv (n / s.elt_bytes) s.block_elts) s.grid grid_pos t t_lt in
          (
            w.0,
            Elem-concat_map _ (Elem-range s.grid pid pid_lt)
                (Elem-append_left _ (Elem-concat_map _ visited w.1)),
            w.2,
          )
      | no past ↦
          let w = tail-Written src dst n s.elt_bytes elt_pos b (omega arith) b_lt in
          let has : (s.has_tail && 0 == 0) ≡ true =
            ground (arith, tail, div-mul-add-mod n s.elt_bytes) in
          (
            w.0,
            Elem-concat_map _ (Elem-range s.grid 0 grid_pos)
                (Elem-append_right _ (Elem-when _ (s.has_tail && 0 == 0) has w.1)),
            w.2,
          )
    ]

-- `run cs` brings the `n` bytes at `src` to `dst` and changes no other byte.
abbrev pub MovesOne : ℕ → ℕ → ℕ → List Copy → Type 0
MovesOne src dst n cs = Moves (λ _. src) dst n n 1 cs

one_piece : (src dst n i : ℕ) → i < 1 → dst + i * n ≡ dst
one_piece src dst n zero h = omega arith
one_piece src dst n (suc i) h = absurd (omega arith)

pub MovesOne-byte :
    (src dst n : ℕ) {cs : List Copy}
    → MovesOne src dst n cs
    → (m : Memory) (b : ℕ) → b < n
    → run cs m (dst + b) ≡ m (src + b)
MovesOne-byte src dst n {cs} moves m b lt =
    subst (λ d. run cs m (d + b) ≡ m (src + b)) (one_piece src dst n 0 (omega arith))
      (moves.pieces m 0 b (omega arith) lt)

pub one-Moves :
    (src dst n : ℕ) (cs : List Copy)
    → Apart src n dst n
    → ((is_target : ℕ → Bool) (from : ℕ → ℕ)
        → Piece is_target from src dst n
        → All (Agrees is_target from) cs)
    → ((b : ℕ) → b < n → Written (dst + b) cs)
    → MovesOne src dst n cs
one-Moves src dst n cs apart agrees written =
    strided-Moves (λ _. src) dst n n 1 (omega arith) (λ i h. apart') cs
      (agrees (target (λ _. src) dst n n 1) (origin (λ _. src) dst n n 1) (
        subst (λ d. Piece (target (λ _. src) dst n n 1) (origin (λ _. src) dst n n 1) src d n)
          (one_piece src dst n 0 (omega arith))
          (strided-Piece (λ _. src) dst n n 1 (omega arith) (λ i h. apart') 0 (omega arith))))
      (λ i b p q. subst (λ d. Written (d + b) cs) (sym (one_piece src dst n i p)) (written b q))
  where
    apart' : Apart src n dst (1 * n)
    apart' = ground (arith, apart)

-- A launch of the pull copy that its asserts accept moves its bytes, all of them, where source and
-- destination do not overlap.
pub launch_pull_copy-MovesOne :
    (src dst nbytes v sms : ℕ) {cs : List Copy}
    → launch_pull_copy src dst nbytes v sms ≡ ok cs
    → Apart src nbytes dst nbytes
    → MovesOne src dst nbytes cs
unfolding launch_pull_copy
launch_pull_copy-MovesOne src dst n v sms {cs} h apart =
    let (u1, n_ok, h1) = >>=-ok (check (ltb 0 n) assertion_error) _ h in
    let (u2, v_ok, h2) =
      >>=-ok (check (v == 1 || v == 4 || v == 8 || v == 16) assertion_error) _ h1 in
    let (u3, sms_ok, h3) = >>=-ok (check (ltb 0 sms) assertion_error) _ h2 in
    subst (MovesOne src dst n) (ok-injective h3) (
      one-Moves src dst n _ apart (λ is_target from piece. pull_copy-Agrees src dst n _ piece)
        (pull_copy-Written src dst n _ (dtype_for_vec_pos v) (ground arith)
          (ground (arith, dtype_for_vec_pos v)) (ground arith)))
