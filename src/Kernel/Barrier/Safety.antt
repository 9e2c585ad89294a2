-- ===== src/Kernel/Barrier/Safety.antt =====
-- What the barrier promises in every reachable world: ranks meet, and the double buffer loses no
-- token.
use group_free_collectives.Base.{
  ℕ, zero, suc, ◌*◌, ◌+◌, ◌%◌, ◌≤◌, ◌<◌, ◌≡◌, ◌↔◌, ◌⊎◌, inl, inr, refl, sym, ◌∙◌, arith,
}
use group_free_collectives.Config.{SymmetricCollectiveConfig}
use group_free_collectives.Buffer.{allocate_symm_regions}
use group_free_collectives.Kernel.Barrier.{
  Pc, bumped, waiting, spinning, cell, observed, World, edge_args, Reach,
}
use group_free_collectives.Kernel.Barrier.Invariant.{
  sends, passes, sent, passed_count, IsOrdered, Inv,
}
use group_free_collectives.Kernel.Barrier.Moves.{here}
use group_free_collectives.Kernel.Barrier.Reachable.{seen-sent, Reach-Inv}

sends-le-passes : (c : Pc) → sends c ≤ passes c + 1
sends-le-passes Pc.ready = omega arith
sends-le-passes (Pc.loaded _) = omega arith
sends-le-passes (Pc.bumped _) = omega arith
sends-le-passes (Pc.waiting _) = omega arith
sends-le-passes (Pc.spinning _) = omega arith
sends-le-passes Pc.passed = omega arith
sends-le-passes Pc.trapped = omega arith

in_grid : (n slot r : ℕ) → slot < 2 → r < n → cell n slot r < 2 * n
in_grid n zero r low lt = omega arith
in_grid n (suc zero) r low lt = omega arith
in_grid n (suc (suc slot)) r low lt = absurd (omega arith)

module _ (world_size timeout_ns : ℕ) (token : ℕ → ℕ → ℕ → ℕ)
    (ordered : IsOrdered world_size token) where
  -- In every reachable world, a rank has passed no more barriers of an edge than its peer has
  -- entered (sent its token of), and has entered at most one more than its peer has, where both
  -- ends issue the edge's barriers in one order and no token is 0 or that of the barrier before the
  -- last.
  pub barrier-Meets :
      {w : World}
      → Reach world_size timeout_ns token w
      → (r p : ℕ) → r < world_size
      → p < world_size
      → (passed_count w r p ≤ sent w p r) × (sent w r p ≤ sent w p r + 1)
  barrier-Meets {w} reach r p hr hp =
      let waits = (Reach-Inv world_size timeout_ns token ordered reach).waited r p hr hp in
      (waits, omega (arith, waits, sends-le-passes (w.pc r p)))

  -- The slot of a program that waits, and what it has sent.
  waiting_at :
      (w : World) (r p slot : ℕ)
      → Inv world_size token w
      → r < world_size
      → p < world_size
      → (w.pc r p ≡ waiting slot) ⊎ (w.pc r p ≡ spinning slot)
      → (slot ≡ w.rounds r p % 2) × (sent w r p ≡ w.rounds r p + 1)
  waiting_at w r p slot h hr hp (inl e) =
      ((here world_size timeout_ns token w r p h hr hp e).0, rw e refl)
  waiting_at w r p slot h hr hp (inr e) =
      ((here world_size timeout_ns token w r p h hr hp e).0, rw e refl)

  -- In every reachable world, a program that waits finds its token in its cell exactly if its peer
  -- has sent it: no later token has overwritten it, and no older one passes for it; under the same
  -- conditions on the order and the tokens.
  pub observed_iff :
      {w : World}
      → Reach world_size timeout_ns token w
      → (r p slot : ℕ) → r < world_size
      → p < world_size
      → (w.pc r p ≡ waiting slot) ⊎ (w.pc r p ≡ spinning slot)
      → (observed (edge_args world_size timeout_ns token w r p) w.mem slot
          ≡ token r p (w.rounds r p))
        ↔ (w.rounds r p < sent w p r)
  observed_iff {w} reach r p slot hr hp waits =
      let h = Reach-Inv world_size timeout_ns token ordered reach in
      let (slot_is, sent_is) = waiting_at w r p slot h hr hp waits in
      (
        seen-sent world_size timeout_ns token ordered w r p slot h hr hp slot_is,
        λ lt. rw slot_is (
            h.cells.full p r (w.rounds r p) hp hr lt
              (omega (arith, (barrier-Meets reach p r hp hr).1, sent_is))
            ∙ sym (ordered.same r p (w.rounds r p) hr hp)),
      )

  slot-lt :
      (w : World) (r p slot : ℕ)
      → Inv world_size token w
      → r < world_size
      → p < world_size
      → (w.pc r p ≡ bumped slot) ⊎ ((w.pc r p ≡ waiting slot) ⊎ (w.pc r p ≡ spinning slot))
      → slot < 2
  slot-lt w r p slot h hr hp (inl e) =
      omega (arith, (here world_size timeout_ns token w r p h hr hp e).0)
  slot-lt w r p slot h hr hp (inr waits) = omega (arith, (waiting_at w r p slot h hr hp waits).0)

  -- In every reachable world, the cell that a program is about to write, and the one that it is
  -- about to read, lie inside the allocated signal grid; under the same conditions on the order and
  -- the tokens.
  pub signal_cells-in_bounds :
      (config : SymmetricCollectiveConfig)
      → {w : World} → Reach world_size timeout_ns token w
      → (r p slot : ℕ) → r < world_size
      → p < world_size
      → (w.pc r p ≡ bumped slot) ⊎ ((w.pc r p ≡ waiting slot) ⊎ (w.pc r p ≡ spinning slot))
      → (cell world_size slot r < (allocate_symm_regions config world_size).signal_buf)
        × (cell world_size slot p < (allocate_symm_regions config world_size).signal_buf)
  unfolding allocate_symm_regions
  signal_cells-in_bounds config {w} reach r p slot hr hp at =
      let h = Reach-Inv world_size timeout_ns token ordered reach in
      let low = slot-lt w r p slot h hr hp at in
      (in_grid world_size slot r low hr, in_grid world_size slot p low hp)
