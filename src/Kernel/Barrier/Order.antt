-- ===== src/Kernel/Barrier/Order.antt =====
-- Progress under one global order of the barriers: the rank that is behind is never stuck.
use native.Mathlib.Nat.{le_refl, le_antisymm}
use native.Mathlib.Decide.{le_ind}
use group_free_collectives.Base.{
  ℕ, zero, suc, ◌+◌, ◌≤◌, ◌<◌, ◌≡◌, ◌≢◌, ◌⊎◌, inl, inr, refl, subst, Bool, true, ◌&&◌,
  if◌then◌else◌, dec_lt, arith,
}
use group_free_collectives.Kernel.Barrier.{
  Pc, ready, loaded, bumped, waiting, spinning, passed, trapped, World, Reach,
}
use group_free_collectives.Kernel.Barrier.Invariant.{sends, passes, sent, passed_count, IsOrdered}
use group_free_collectives.Kernel.Barrier.Progress.{Advances, Stuck, Advances_or_Stuck, Stuck-sent}

passes-le-sends : (c : Pc) → passes c ≤ sends c
passes-le-sends ready = omega arith
passes-le-sends (loaded _) = omega arith
passes-le-sends (bumped _) = omega arith
passes-le-sends (waiting _) = omega arith
passes-le-sends (spinning _) = omega arith
passes-le-sends passed = omega arith
passes-le-sends trapped = omega arith

-- `members g r`: barrier number g of one global order is launched by rank r.
module _ (members : ℕ → ℕ → Bool) where
  -- How many of the first g barriers are on the edge of r and p.
  abbrev pub shared_count : ℕ → ℕ → ℕ → ℕ
  shared_count zero r p = 0
  shared_count (suc g) r p = shared_count g r p + (if members g r && members g p then 1 else 0)

  -- Every rank r has finished the barriers before number `at r`.
  abbrev pub Finished : ℕ → World → (ℕ → ℕ) → Type 0
  Finished world_size w at =
      (r p : ℕ) → r < world_size → p < world_size → shared_count (at r) r p ≤ passed_count w r p

  shared_mono : (g h r p : ℕ) → g ≤ h → shared_count g r p ≤ shared_count h r p
  shared_mono g h r p =
      le_ind (λ m. shared_count g r p ≤ shared_count m r p) (le_refl _)
        (λ m le ih. omega (arith, ih)) h

  shared_symm : (g r p : ℕ) → shared_count g r p ≡ shared_count g p r
  shared_symm zero r p = refl
  shared_symm (suc g) r p = ground (arith, shared_symm g r p)

  -- A barrier that r and p share adds one.
  shared_next :
      (g r p : ℕ)
      → (members g r && members g p) ≡ true
      → shared_count (suc g) r p ≡ shared_count g r p + 1
  shared_next g r p both = rw both refl

  passed-le-sent : (w : World) (r p : ℕ) → passed_count w r p ≤ sent w r p
  passed-le-sent w r p = omega (arith, passes-le-sends (w.pc r p))

  -- The peer of a stuck program in the barrier that is behind is in the same barrier, and has
  -- finished just those before it.
  peer_in_step :
      (world_size : ℕ) (w : World) (at : ℕ → ℕ) (r p : ℕ)
      → Finished world_size w at
      → r < world_size
      → p < world_size
      → (members (at r) r && members (at r) p) ≡ true
      → at r ≤ at p
      → sent w p r ≤ shared_count (at r) r p
      → (at p ≡ at r) × (passed_count w p r ≡ shared_count (at r) r p)
  peer_in_step world_size w at r p finished hr hp both behind few = elim (dec_lt (at r) (at p)) [
    | yes ahead ↦ absurd (
        omega (
          arith,
          few,
          passed-le-sent w p r,
          finished p r hp hr,
          shared_mono (suc (at r)) (at p) p r ahead,
          shared_symm (suc (at r)) p r,
          shared_next (at r) r p both,
        ))
    | no level ↦
        let same : at p ≡ at r = omega arith in
        (
          same,
          omega (
            arith,
            few,
            passed-le-sent w p r,
            subst (λ g. shared_count g p r ≤ passed_count w p r) same (finished p r hp hr),
            shared_symm (at r) p r,
          ),
        )
  ]

  module _ (world_size timeout_ns : ℕ) (token : ℕ → ℕ → ℕ → ℕ)
      (ordered : IsOrdered world_size token) where
    -- A stuck program in the barrier that is behind waits for a peer that can advance.
    peer_advances :
        {w : World}
        → Reach world_size timeout_ns token w
        → (at : ℕ → ℕ) → Finished world_size w at
        → (r p : ℕ) → r < world_size
        → p < world_size
        → (members (at r) r && members (at r) p) ≡ true
        → at r ≤ at p
        → w.pc p r ≢ trapped
        → passed_count w r p ≡ shared_count (at r) r p
        → Stuck world_size timeout_ns token w r p
        → (at p ≡ at r)
          × (passed_count w p r ≡ shared_count (at r) r p)
          × Advances world_size timeout_ns token w p r
    peer_advances {w} reach at finished r p hr hp both behind fine level stuck =
        let told = Stuck-sent world_size timeout_ns token ordered r p reach hr hp stuck in
        let in_round : w.rounds r p + 0 ≡ shared_count (at r) r p =
          subst (λ c. w.rounds r p + passes c ≡ shared_count (at r) r p) stuck.1 level in
        let step =
          peer_in_step world_size w at r p finished hr hp both behind
            (omega (arith, told, in_round)) in
        (
          step.0,
          step.1,
          elim (Advances_or_Stuck world_size timeout_ns token w p r _ hp hr refl fine) [
            | inl go ↦ go
            | inr stuck_p ↦ absurd (
                omega (
                  arith,
                  told,
                  Stuck-sent world_size timeout_ns token ordered p r reach hp hr stuck_p,
                ))
          ],
        )

    -- Where the ranks of a reachable world launch their barriers in one global order, take a rank r
    -- and a peer p that share r's barrier, where p is not behind r and neither program is trapped:
    -- r has finished its edge of that barrier, or r's program has a step that takes it further, or
    -- p is in the same barrier, has not finished this edge of it, and has such a step. This holds
    -- where no token is 0 or that of the edge's barrier before the last.
    pub behind-Advances :
        {w : World}
        → Reach world_size timeout_ns token w
        → (at : ℕ → ℕ) → Finished world_size w at
        → (r p : ℕ) → r < world_size
        → p < world_size
        → (members (at r) r && members (at r) p) ≡ true
        → at r ≤ at p
        → w.pc r p ≢ trapped
        → w.pc p r ≢ trapped
        → (shared_count (at r) r p < passed_count w r p)
          ⊎ (((passed_count w r p ≡ shared_count (at r) r p)
                × Advances world_size timeout_ns token w r p)
              ⊎ ((at p ≡ at r)
                  × (passed_count w p r ≡ shared_count (at r) r p)
                  × Advances world_size timeout_ns token w p r))
    behind-Advances {w} reach at finished r p hr hp both behind fine_r fine_p =
        elim (dec_lt (shared_count (at r) r p) (passed_count w r p)) [
          | yes done ↦ inl done
          | no undone ↦
              let level = le_antisymm (omega arith) (finished r p hr hp) in
              elim (Advances_or_Stuck world_size timeout_ns token w r p _ hr hp refl fine_r) [
                | inl go ↦ inr (inl (level, go))
                | inr stuck ↦
                    inr (
                      inr
                        (peer_advances reach at finished r p hr hp both behind fine_p level stuck))
              ]
        ]
