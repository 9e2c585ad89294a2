-- ===== src/Kernel/Raw.antt =====
-- The copy of a point-to-point call on its three paths: what each launch moves.
use group_free_collectives.Base.{
  ℕ, ◌+◌, ◌*◌, ◌/◌, ◌%◌, ◌<◌, ◌≡◌, min, cdiv, ◌&&◌, ◌==◌, ltb, List, map, Bool, All, range, ok,
  check, tma_requirement, >>=-ok, ok-injective, subst,
}
use group_free_collectives.Base.Membership.{
  All-Elem, Elem-map, map-Elem, Elem-concat_map, All-concat_map, Elem-range,
}
use group_free_collectives.Kernel.Memory.{Copy, Agrees}
use group_free_collectives.Kernel.Grid.{persistent, clipped-reaches}
use group_free_collectives.Kernel.Strided.{Apart}
use group_free_collectives.Kernel.Pull.Coverage.{Piece, Written}
use group_free_collectives.Kernel.Pull.Raw.{MovesOne, one-Moves}
use group_free_collectives.Kernel.CopyEngine.{launch_p2p_copy_engine}
use group_free_collectives.Kernel.CopyEngine.Laws.{whole-Agrees, memcpy-All, memcpy-Written}
use group_free_collectives.Kernel.Tma.{tile_copy, p2p_tma_kernel, launch_p2p_copy_tma}
use group_free_collectives.Kernel.Tma.Laws.{tile_copy-Agrees, tile_copy-Written}

-- A copy of the engine that the driver accepted moves its bytes, where source and destination do not
-- overlap.
pub launch_p2p_copy_engine-MovesOne :
    (memcpy : Copy → ℕ) (src dst n : ℕ)
    → (launch_p2p_copy_engine memcpy src dst n).1 ≡ ok tt
    → Apart src n dst n
    → MovesOne src dst n (launch_p2p_copy_engine memcpy src dst n).0
unfolding launch_p2p_copy_engine
launch_p2p_copy_engine-MovesOne memcpy src dst n h apart =
    one-Moves src dst n _ apart
      (λ is_target from piece.
        memcpy-All memcpy (Agrees is_target from) dst src n (whole-Agrees piece))
      (λ b lt. memcpy-Written memcpy dst src n b lt h)

module _ (src dst n sms tile : ℕ) where
  abbrev tile_at : ℕ → Copy
  tile_at t = tile_copy src dst n tile (t * tile)

  abbrev tiles_of : ℕ → List Copy
  tiles_of pid = map tile_at (persistent (cdiv n tile) pid (cdiv n tile) sms)

  p2p_tma-Agrees :
      (grid : ℕ) {is_target : ℕ → Bool} {from : ℕ → ℕ}
      → Piece is_target from src dst n
      → All (Agrees is_target from) (p2p_tma_kernel src dst n tile sms grid)
  unfolding p2p_tma_kernel
  p2p_tma-Agrees grid {is_target} {from} piece =
      All-concat_map tiles_of (Agrees is_target from) (range grid) λ pid m.
        All-Elem (Agrees is_target from) (tiles_of pid) λ c k.
          let (t, j, e) = map-Elem tile_at (persistent (cdiv n tile) pid (cdiv n tile) sms) k in
          rw e (tile_copy-Agrees piece tile (t * tile))

  p2p_tma-Written :
      (b : ℕ)
      → 0 < sms
      → 0 < tile
      → b < n
      → Written (dst + b) (p2p_tma_kernel src dst n tile sms (min sms (cdiv n tile)))
  unfolding p2p_tma_kernel
  p2p_tma-Written b sms_pos tile_pos lt =
      let (t_lt, lo, hi) = tile_copy-Written src dst n tile b tile_pos lt in
      let (pid, pid_lt, visited) = clipped-reaches (cdiv n tile) sms sms_pos (b / tile) t_lt in
      (
        tile_at (b / tile),
        Elem-concat_map tiles_of (Elem-range (min sms (cdiv n tile)) pid pid_lt)
            (Elem-map tile_at visited),
        (lo, hi),
      )

  -- A TMA copy that its checks accept moves its bytes, where tile and grid are not empty and source
  -- and destination do not overlap.
  pub launch_p2p_copy_tma-MovesOne :
      {cs : List Copy}
      → launch_p2p_copy_tma src dst n sms tile ≡ ok cs
      → 0 < sms
      → 0 < tile
      → Apart src n dst n
      → MovesOne src dst n cs
  unfolding launch_p2p_copy_tma
  launch_p2p_copy_tma-MovesOne {cs} h sms_pos tile_pos apart =
      let (u1, p1, h1) = >>=-ok (check (ltb 0 n) tma_requirement) _ h in
      let (u2, p2, h2) = >>=-ok (check (n % 16 == 0) tma_requirement) _ h1 in
      let (u3, p3, h3) = >>=-ok (check (src % 16 == 0 && dst % 16 == 0) tma_requirement) _ h2 in
      let (u4, p4, h4) = >>=-ok (check (tile % 16 == 0) tma_requirement) _ h3 in
      subst (MovesOne src dst n) (ok-injective h4) (
        one-Moves src dst n _ apart (λ is_target from piece. p2p_tma-Agrees _ piece)
          (λ b lt. p2p_tma-Written b sms_pos tile_pos lt))
