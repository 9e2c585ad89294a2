-- ===== src/Kernel/Fused/Fleet/Copying.antt =====
-- What a copy of a fleet's programs is: a staging of the member's own input, or a pull of a chunk.
use group_free_collectives.Base.{
  ℕ, ◌+◌, ◌-◌, ◌*◌, ◌/◌, ◌<◌, ◌≡◌, ◌≢◌, sym, subst, ◌⊎◌, inl, inr, List, ◌∷◌, ◌++◌, arith,
}
use group_free_collectives.Base.Membership.{Elem, elem-All}
use group_free_collectives.Kernel.Memory.{Memory, Copy, Writes}
use group_free_collectives.Kernel.Fused.{
  FusedArgs, n_chunks, base_byte, step_cell, step_value, pull_chunk,
}
use group_free_collectives.Kernel.Fused.StepPad.{step_cell-injective}
use group_free_collectives.Kernel.Fused.Run.{Access, transfer, acquire}
use group_free_collectives.Kernel.Fused.Programs.{
  Place, staging, posting, waiting, pulling, program-Place,
}
use group_free_collectives.Kernel.Fused.Fleet.{
  IsGeometry, member, window, IsPlaced, progs, Stages, IsStaging, Meant,
}
use group_free_collectives.Kernel.Fused.Fleet.Aims.{
  in_slices, base_byte-end, Pulls, pull_chunk-Pulls,
}

transfer-injective : {c d : Copy} → transfer c ≡ transfer d → c ≡ d
transfer-injective e = cc

module _ (a : FusedArgs) (ins outs widths ranks cb_ptrs : ℕ → ℕ) (staged : ℕ)
    (stage : ℕ → ℕ → ℕ → List Copy) (piece : ℕ → ℕ) (m0 : Memory) (geometry : IsGeometry a)
    (placed : IsPlaced a ins outs widths ranks cb_ptrs staged)
    (staging_ok : IsStaging a ins outs widths ranks cb_ptrs staged stage piece) where
  abbrev prog : ℕ → ℕ → List Access
  prog = progs a ins outs widths ranks cb_ptrs staged stage piece

  abbrev win : ℕ → ℕ
  win = window a ins outs widths ranks cb_ptrs

  abbrev Aim : ℕ → ℕ → Type 0
  Aim = Meant a ins outs widths ranks cb_ptrs staged stage piece m0

  abbrev At : ℕ → ℕ → List Access → Access → Type 0
  At i p pre x =
      Place (member a ins outs widths ranks cb_ptrs i) ranks cb_ptrs (stage i) (piece i) p pre x

  pub place :
      (i p : ℕ) (pre post : List Access) (x : Access) → prog i p ≡ pre ++ x ∷ post → At i p pre x
  place i p pre post x e =
      program-Place (member a ins outs widths ranks cb_ptrs i) ranks cb_ptrs (stage i) (piece i)
        geometry.lanes_fit p pre post x e

  -- What a copy of a program writes, where it reads, and what has been waited for.
  abbrev Copies : ℕ → ℕ → List Access → Copy → Type 0
  Copies i p pre c =
      ((k : ℕ) × (k < n_chunks a (p / 2))
        × Elem c (stage i (p / 2) k)
        × Stages a ins outs widths ranks cb_ptrs staged stage piece i c)
      ⊎ ((k : ℕ) × (k < n_chunks a (p / 2))
          × Pulls a ins outs widths ranks cb_ptrs (piece i) i (p / 2) k c
          × ((lane : ℕ)
              → (lane < a.group_size) × (lane ≢ i)
              → Elem (acquire (step_cell a (p / 2) k (ranks lane)) (step_value a k)) pre))

  -- A byte that a program writes is one of a window or of an output.
  pub Writes-aims :
      (i p : ℕ) (pre : List Access) (c : Copy) (s : ℕ)
      → i < a.group_size
      → Copies i p pre c
      → Writes s c
      → ((y : ℕ) × (y < staged) × (s ≡ win i + y))
        ⊎ ((z : ℕ) × (z < a.group_size * a.slice_bytes) × (s ≡ outs i + z))
  Writes-aims i p pre c s hi (inl (k, lt, m, inl (y, fits, from, to))) h =
      inl (y + (s - c.dst), omega arith, omega arith)
  Writes-aims i p pre c s hi (inl (k, lt, m, inr (x, fits, from, to))) h = inr (
    i * a.slice_bytes + (x + (s - c.dst)),
    in_slices a i (x + (s - c.dst)) hi (omega arith),
    omega arith,
  )
  Writes-aims i p pre c s hi (inr (k, lt, (j, o, hj, other, fits, from, to), told)) h = inr (
    j * a.slice_bytes + (base_byte a (p / 2) k + (o + (s - c.dst))),
    in_slices a j (base_byte a (p / 2) k + (o + (s - c.dst))) hj
        (omega (arith, base_byte-end a (p / 2) k geometry.chunk_pos lt)),
    omega arith,
  )

  pub At-Copies :
      (i p : ℕ) (pre : List Access) (c : Copy)
      → i < a.group_size
      → At i p pre (transfer c)
      → Copies i p pre c
  unfolding step_cell step_value
  At-Copies i p pre c hi (staging k d lt m e) =
      let same : d ≡ c = transfer-injective (sym e) in
      let m' = subst (λ x. Elem x (stage i (p / 2) k)) same m in
      inl (k, lt, m', elem-All _ m' (staging_ok.stages i (p / 2) k hi lt))
  At-Copies i p pre c hi (posting k lane lt peer e told) = absurd (cc)
  At-Copies i p pre c hi (waiting k lane lt peer odd e) = absurd (cc)
  At-Copies i p pre c hi (pulling k d lt m e told) =
      let same : d ≡ c = transfer-injective (sym e) in
      inr (
        k,
        lt,
        elem-All (Pulls a ins outs widths ranks cb_ptrs (piece i) i (p / 2) k)
            (subst
              (λ x. Elem x (
                pull_chunk (member a ins outs widths ranks cb_ptrs i) ranks cb_ptrs (piece i)
                  (p / 2) k))
              same m)
            (pull_chunk-Pulls a ins outs widths ranks cb_ptrs (piece i) i (p / 2) k hi),
        told,
      )

  pub same_chunk :
      (j channel k j' q k' : ℕ)
      → j < a.group_size
      → j' < a.group_size
      → k < n_chunks a channel
      → k' < n_chunks a (q / 2)
      → step_cell a channel k (ranks j) ≡ step_cell a (q / 2) k' (ranks j')
      → (channel ≡ q / 2) × (k ≡ k') × (j ≡ j')
  same_chunk j channel k j' q k' hj hj' lt lt' same =
      let (ech, ek, er) =
        step_cell-injective a channel k (ranks j) (q / 2) k' (ranks j')
          (omega (arith, geometry.few_chunks channel)) (omega (arith, geometry.few_chunks (q / 2)))
          (placed.in_world j hj) (placed.in_world j' hj') same in
      (ech, ek, placed.distinct j j' hj hj' er)
