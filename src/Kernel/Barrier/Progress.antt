-- ===== src/Kernel/Barrier/Progress.antt =====
-- Progress on one edge: some end of it can always advance.
use group_free_collectives.Base.{
  ℕ, suc, ◌+◌, ◌*◌, ◌≤◌, ◌<◌, ◌≡◌, ◌≢◌, ◌⊎◌, inl, inr, refl, sym, subst, ℕ_discrete, dec_lt, arith,
}
use group_free_collectives.Kernel.Barrier.{
  Pc, ready, loaded, bumped, waiting, spinning, passed, trapped, Move, load_seq, bump, publish,
  first_seen, first_missed, seen, observed, World, Signals, edge_args, Step, access, launch, Reach,
}
use group_free_collectives.Kernel.Family.{set2-same}
use group_free_collectives.Kernel.Barrier.Invariant.{sent, IsOrdered}
use group_free_collectives.Kernel.Barrier.Safety.{observed_iff}

-- How far a program is; another round of the spin gets no further, and neither does a trap.
abbrev pub position : Pc → ℕ
position ready = 0
position (loaded _) = 1
position (bumped _) = 2
position (waiting _) = 3
position (spinning _) = 4
position passed = 5
position trapped = 0

abbrev pub work : World → ℕ → ℕ → ℕ
work w r p = 6 * w.rounds r p + position (w.pc r p)

module _ (world_size timeout_ns : ℕ) (token : ℕ → ℕ → ℕ → ℕ) where
  -- The program of rank r for p has a step that takes it further.
  abbrev pub Advances : World → ℕ → ℕ → Type 0
  Advances w r p = (v : World) × Step world_size timeout_ns token w v × (work w r p < work v r p)

  -- A spin whose cell does not hold the token.
  abbrev pub Stuck : World → ℕ → ℕ → Type 0
  Stuck w r p =
      (slot : ℕ) × (w.pc r p ≡ spinning slot)
      × (observed (edge_args world_size timeout_ns token w r p) w.mem slot
          ≢ token r p (w.rounds r p))

  moves :
      (w : World) (r p : ℕ) (c₀ c : Pc) (m : Signals)
      → r < world_size
      → p < world_size
      → w.pc r p ≡ c₀
      → position c₀ < position c
      → Move (edge_args world_size timeout_ns token w r p) w.mem c₀ m c
      → Advances w r p
  moves w r p c₀ c m hr hp e lt mv = (
    _,
    access r p hr hp
        (subst (λ d. Move (edge_args world_size timeout_ns token w r p) w.mem d m c) (sym e) mv),
    rw (set2-same w.pc r p c, e) (omega arith),
  )

  launches : (w : World) (r p : ℕ) → w.pc r p ≡ passed → Advances w r p
  launches w r p e = (
    _,
    launch r p e,
    rw (set2-same w.pc r p ready, set2-same w.rounds r p (suc (w.rounds r p)), e) (omega arith),
  )

  -- A program that is not trapped can go on, unless it is stuck.
  pub Advances_or_Stuck :
      (w : World) (r p : ℕ) (c : Pc)
      → r < world_size
      → p < world_size
      → w.pc r p ≡ c
      → c ≢ trapped
      → Advances w r p ⊎ Stuck w r p
  Advances_or_Stuck w r p ready hr hp e ne = inl (moves w r p _ _ _ hr hp e (omega arith) load_seq)
  Advances_or_Stuck w r p (loaded _) hr hp e ne = inl (moves w r p _ _ _ hr hp e (omega arith) bump)
  Advances_or_Stuck w r p (bumped _) hr hp e ne =
      inl (moves w r p _ _ _ hr hp e (omega arith) publish)
  Advances_or_Stuck w r p (waiting slot) hr hp e ne =
      elim (ℕ_discrete (observed (edge_args world_size timeout_ns token w r p) w.mem slot)
        (token r p (w.rounds r p))) [
          | yes o ↦ inl (moves w r p _ _ _ hr hp e (omega arith) (first_seen o))
          | no o ↦ inl (moves w r p _ _ _ hr hp e (omega arith) (first_missed o))
        ]
  Advances_or_Stuck w r p (spinning slot) hr hp e ne =
      elim (ℕ_discrete (observed (edge_args world_size timeout_ns token w r p) w.mem slot)
        (token r p (w.rounds r p))) [
          | yes o ↦ inl (moves w r p _ _ _ hr hp e (omega arith) (seen o))
          | no o ↦ inr (slot, e, o)
        ]
  Advances_or_Stuck w r p passed hr hp e ne = inl (launches w r p e)
  Advances_or_Stuck w r p trapped hr hp e ne = absurd (ne refl)

  module _ (ordered : IsOrdered world_size token) where
    -- The peer of a stuck program has not sent the token that it waits for, while it has sent its
    -- own.
    pub Stuck-sent :
        {w : World} (r p : ℕ)
        → Reach world_size timeout_ns token w
        → r < world_size
        → p < world_size
        → Stuck w r p
        → (sent w p r ≤ w.rounds r p) × (sent w r p ≡ w.rounds r p + 1)
    Stuck-sent {w} r p reach hr hp (slot, e, missing) = elim (dec_lt (w.rounds r p) (sent w p r)) [
      | yes lt ↦ absurd (
          missing
            ((observed_iff world_size timeout_ns token ordered reach r p slot hr hp (inr e)).1 lt))
      | no ge ↦ (omega arith, rw e refl)
    ]

    -- In every reachable world, the two programs of an edge never both spin on a cell without their
    -- token, where both ends issue the edge's barriers in one order and no token is 0 or that of the
    -- barrier before the last.
    pub edge_unstuck :
        {w : World}
        → Reach world_size timeout_ns token w
        → (r p : ℕ) → r < world_size
        → p < world_size
        → ¬ (Stuck w r p × Stuck w p r)
    edge_unstuck {w} reach r p hr hp (stuck_r, stuck_p) =
        absurd
          (omega (arith, Stuck-sent r p reach hr hp stuck_r, Stuck-sent p r reach hp hr stuck_p))
