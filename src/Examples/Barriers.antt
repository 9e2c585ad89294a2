-- ===== src/Examples/Barriers.antt =====
-- Two ranks that meet at a barrier, and three that wait in a cycle.
use group_free_collectives.Base.{
  ℕ, suc, ◌≤◌, ◌<◌, ◌+◌, ◌*◌, ◌≡◌, ◌≢◌, ◌↔◌, ◌⊎◌, inr, refl, true, arith, ok, err, assertion_error,
  [], ◌∷◌,
}
use group_free_collectives.Kernel.Barrier.{
  EdgeArgs, spinning, passed, load_seq, bump, publish, first_missed, seen, observed, World,
  edge_args, Step, access, Reach, start, later, launch_barrier,
}
use group_free_collectives.Kernel.Family.{set2}
use group_free_collectives.Kernel.Barrier.Invariant.{sent, passed_count, IsOrdered}
use group_free_collectives.Kernel.Barrier.Safety.{barrier-Meets, observed_iff}
use group_free_collectives.Kernel.Barrier.Refinement.{Meets, meeting, Step-Meets}
use group_free_collectives.Kernel.Barrier.Progress.{Advances, Stuck, edge_unstuck}
use group_free_collectives.Kernel.Barrier.Order.{behind-Advances}

abbrev tokens : ℕ → ℕ → ℕ → ℕ
tokens r p n = suc n

tokens-IsOrdered : (world_size : ℕ) → IsOrdered world_size tokens
tokens-IsOrdered world_size = record {
  same = λ r p n hr hp. refl;
  nonzero = λ r p n e. omega arith;
  changes = λ r p n e. omega arith;
}

-- Rank 0 spins for rank 1, which has sent its token.
abbrev met : (w : World) × Reach 2 0 tokens w
unfolding set2
met = (
  _,
  later
      (later
        (later
          (later
            (later
              (later (later start (access 0 1 (omega arith) (omega arith) load_seq))
                (access 0 1 (omega arith) (omega arith) bump))
              (access 0 1 (omega arith) (omega arith) publish))
            (access 0 1 (omega arith) (omega arith) (first_missed (λ e. omega arith))))
          (access 1 0 (omega arith) (omega arith) load_seq))
        (access 1 0 (omega arith) (omega arith) bump))
      (access 1 0 (omega arith) (omega arith) publish),
)

barrier-Meets_example :
    (passed_count met.0 0 1 ≤ sent met.0 1 0) × (sent met.0 0 1 ≤ sent met.0 1 0 + 1)
unfolding set2
barrier-Meets_example =
    barrier-Meets 2 0 tokens (tokens-IsOrdered 2) met.1 0 1 (omega arith) (omega arith)

observed_iff_example :
    (observed (edge_args 2 0 tokens met.0 0 1) met.0.mem 0 ≡ 1) ↔ (0 < sent met.0 1 0)
unfolding set2
observed_iff_example =
    observed_iff 2 0 tokens (tokens-IsOrdered 2) met.1 0 1 0 (omega arith) (omega arith) (inr refl)

edge_unstuck_example : ¬ (Stuck 2 0 tokens met.0 0 1 × Stuck 2 0 tokens met.0 1 0)
edge_unstuck_example =
    edge_unstuck 2 0 tokens (tokens-IsOrdered 2) met.1 0 1 (omega arith) (omega arith)

-- Both ranks are in the first barrier of a global order of barriers of both.
behind-Advances_example :
    (0 < passed_count met.0 0 1)
    ⊎ (((passed_count met.0 0 1 ≡ 0) × Advances 2 0 tokens met.0 0 1)
        ⊎ (◌≡◌ {A = ℕ} 0 0 × (passed_count met.0 1 0 ≡ 0) × Advances 2 0 tokens met.0 1 0))
unfolding set2
behind-Advances_example =
    behind-Advances (λ _ _. true) 2 0 tokens (tokens-IsOrdered 2) met.1 (λ _. 0)
      (λ r p hr hp. omega arith) 0 1 (omega arith) (omega arith) refl (omega arith) (λ e. cc)
      (λ e. cc)

-- Rank 0 finds its token in its cell, and leaves.
finds : Step 2 0 tokens met.0 (record met.0 { pc = set2 met.0.pc 0 1 passed })
unfolding set2
finds = access 0 1 (omega arith) (omega arith) (seen {slot = 0} refl)

Step-Meets_example :
    Meets (meeting met.0) (meeting (record met.0 { pc = set2 met.0.pc 0 1 passed }))
Step-Meets_example = Step-Meets 2 0 tokens (tokens-IsOrdered 2) met.1 finds

lt0 : 0 < 3
lt0 = omega arith

lt1 : 1 < 3
lt1 = omega arith

lt2 : 2 < 3
lt2 = omega arith

unsent : ◌≢◌ {A = ℕ} 0 1
unsent e = omega arith

-- Three ranks in a cycle, after the barriers of {0, 1}, {1, 2} and {2, 0} were launched by one rank
-- each: no two ranks disagree on the order of their barriers, and each spins for a peer that has
-- launched another one first.
abbrev cycle : (w : World) × Reach 3 0 tokens w
unfolding set2
cycle = (
  _,
  later
      (later
        (later
          (later
            (later
              (later
                (later
                  (later
                    (later
                      (later
                        (later (later start (access 0 1 lt0 lt1 load_seq))
                          (access 0 1 lt0 lt1 bump))
                        (access 0 1 lt0 lt1 publish))
                      (access 0 1 lt0 lt1 (first_missed unsent)))
                    (access 1 2 lt1 lt2 load_seq))
                  (access 1 2 lt1 lt2 bump))
                (access 1 2 lt1 lt2 publish))
              (access 1 2 lt1 lt2 (first_missed unsent)))
            (access 2 0 lt2 lt0 load_seq))
          (access 2 0 lt2 lt0 bump))
        (access 2 0 lt2 lt0 publish))
      (access 2 0 lt2 lt0 (first_missed unsent)),
)

cycle_waits :
    (cycle.0.pc 0 1 ≡ spinning 0)
    × (sent cycle.0 1 0 ≡ 0)
    × (cycle.0.pc 1 2 ≡ spinning 0)
    × (sent cycle.0 2 1 ≡ 0)
    × (cycle.0.pc 2 0 ≡ spinning 0)
    × (sent cycle.0 0 2 ≡ 0)
unfolding set2
cycle_waits = (refl, refl, refl, refl, refl, refl)

abbrev edge_args_0 : EdgeArgs
edge_args_0 = record { token = 9; self_global_rank = 0; peer = 0; world_size = 4; timeout_ns = 0 }

-- A group of ranks 3 and 5 gets a program for each; an empty one is refused.
two_programs :
    launch_barrier edge_args_0 (λ pid. 3 + 2 * pid) 2
    ≡ ok (record edge_args_0 { peer = 3 } ∷ record edge_args_0 { peer = 5 } ∷ [])
unfolding launch_barrier
two_programs = refl

no_program : launch_barrier edge_args_0 (λ pid. pid) 0 ≡ err assertion_error
unfolding launch_barrier
no_program = refl
