-- ===== src/Kernel/Barrier/Reachable.antt =====
-- Every reachable world of barrier programs satisfies their invariant.
use native.Mathlib.Numerals.{add-one-le}
use native.Mathlib.Nat.{le_refl}
use group_free_collectives.Base.{
  ℕ, zero, suc, ◌+◌, ◌%◌, ◌^◌, ◌<◌, ◌≡◌, ◌≢◌, inl, inr, refl, sym, ap, ◌∙◌, ℕ_discrete, arith,
}
use group_free_collectives.Kernel.Barrier.{
  Signals, Pc, ready, passed, Move, load_seq, bump, publish, first_seen, first_missed, seen, missed,
  expired, cell, observed, World, edge_args, Step, access, launch, boot, Reach, start, later,
}
use group_free_collectives.Kernel.Family.{set2, set2-cases, set2-other}
use group_free_collectives.Kernel.Barrier.Invariant.{
  bumps, sends, passes, sent, IsOrdered, Cells, Inv,
}
use group_free_collectives.Kernel.Barrier.Moves.{
  after, here, quiet-Inv, bump-Inv, publish-Inv, launched, sent-launched,
}

module _ (world_size timeout_ns : ℕ) (token : ℕ → ℕ → ℕ → ℕ)
    (ordered : IsOrdered world_size token) where
  -- A cell whose owner has sent n tokens does not hold token number n.
  stale :
      (buf count : ℕ → ℕ → ℕ) (r p n : ℕ)
      → Cells world_size token buf count
      → r < world_size
      → p < world_size
      → count p r ≡ n
      → buf r (cell world_size (n % 2) p) ≢ token r p n
  stale buf count r p zero h hr hp e o =
      ordered.nonzero r p 0 (sym o ∙ h.fresh p r 0 hp hr (omega arith) (omega arith))
  stale buf count r p (suc zero) h hr hp e o =
      ordered.nonzero r p 1 (sym o ∙ h.fresh p r 1 hp hr (omega arith) (omega arith))
  stale buf count r p (suc (suc n)) h hr hp e o = ordered.changes r p n (
      sym o
      ∙ ap (λ s. buf r (cell world_size s p)) (omega arith)
      ∙ h.full p r n hp hr (omega arith) (omega arith)
      ∙ sym (ordered.same r p n hr hp))

  -- A program that observes its token has a peer that has sent it.
  pub seen-sent :
      (w : World) (r p slot : ℕ)
      → Inv world_size token w
      → r < world_size
      → p < world_size
      → slot ≡ w.rounds r p % 2
      → observed (edge_args world_size timeout_ns token w r p) w.mem slot ≡ token r p (w.rounds r p)
      → w.rounds r p < sent w p r
  seen-sent w r p slot h hr hp es e = elim (ℕ_discrete (sent w p r) (w.rounds r p)) [
    | yes same ↦
        absurd (stale w.mem.signal_buf (sent w) r p (w.rounds r p) h.cells hr hp same (rw es at e))
    | no differs ↦ omega (arith, h.waited r p hr hp)
  ]

  Move-Inv :
      (w : World) (r p : ℕ) (c₀ c : Pc) (m : Signals)
      → Inv world_size token w
      → r < world_size
      → p < world_size
      → w.pc r p ≡ c₀
      → Move (edge_args world_size timeout_ns token w r p) w.mem c₀ m c
      → Inv world_size token (after world_size timeout_ns token w r p m c)
  Move-Inv w r p c₀ c m h hr hp e load_seq =
      quiet-Inv world_size timeout_ns token w r p _ _ h e refl refl
        (h.counter r p hr hp
          ∙ ap (λ d. (w.rounds r p + bumps d) % 2 ^ 64) e
          ∙ ap (λ n. n % 2 ^ 64) (omega arith))
        (here world_size timeout_ns token w r p h hr hp e).1
  Move-Inv w r p c₀ c m h hr hp e (bump {seq}) =
      bump-Inv world_size timeout_ns token w r p seq h hr hp e
  Move-Inv w r p c₀ c m h hr hp e (publish {slot}) =
      publish-Inv world_size timeout_ns token w r p slot h hr hp e
  Move-Inv w r p c₀ c m h hr hp e (first_seen {slot} o) =
      quiet-Inv world_size timeout_ns token w r p _ passed h e refl refl tt (
        add-one-le
          (seen-sent w r p slot h hr hp (here world_size timeout_ns token w r p h hr hp e).0 o))
  Move-Inv w r p c₀ c m h hr hp e (first_missed o) =
      let now = here world_size timeout_ns token w r p h hr hp e in
      quiet-Inv world_size timeout_ns token w r p _ _ h e refl refl now.0 now.1
  Move-Inv w r p c₀ c m h hr hp e (seen {slot} o) =
      quiet-Inv world_size timeout_ns token w r p _ passed h e refl refl tt (
        add-one-le
          (seen-sent w r p slot h hr hp (here world_size timeout_ns token w r p h hr hp e).0 o))
  Move-Inv w r p c₀ c m h hr hp e (missed o) =
      let now = here world_size timeout_ns token w r p h hr hp e in
      quiet-Inv world_size timeout_ns token w r p _ _ h e refl refl now.0 now.1
  Move-Inv w r p c₀ c m h hr hp e (expired o) =
      quiet-Inv world_size timeout_ns token w r p _ _ h e refl refl tt
        (here world_size timeout_ns token w r p h hr hp e).1

  launch-Inv :
      (w : World) (r p : ℕ)
      → Inv world_size token w
      → w.pc r p ≡ passed
      → Inv world_size token (record {
        mem = w.mem;
        pc = set2 w.pc r p ready;
        rounds = set2 w.rounds r p (suc (w.rounds r p));
      })
  launch-Inv w r p h e = record {
    counter = λ x y hx hy.
        h.counter x y hx hy
        ∙ ap (λ n. n % 2 ^ 64)
            (sym (launched world_size timeout_ns token bumps w r p refl refl e x y));
    locals = λ x y hx hy. elim (set2-cases w.pc r p ready x y) [
      | inl at ↦ rw at.2 tt
      | inr off ↦
          rw (off.1, set2-other w.rounds r p (suc (w.rounds r p)) x y off.0) (h.locals x y hx hy)
    ];
    waited = λ x y hx hy.
        rw
          (
            launched world_size timeout_ns token passes w r p refl refl e x y,
            launched world_size timeout_ns token sends w r p refl refl e y x,
          )
          (h.waited x y hx hy);
    cells = rw (sent-launched world_size timeout_ns token w r p e) h.cells;
  }

  -- Every step keeps the invariant.
  pub Step-Inv :
      {v w : World}
      → Step world_size timeout_ns token v w
      → Inv world_size token v
      → Inv world_size token w
  Step-Inv {v} (access r p {m} {c} hr hp mv) h = Move-Inv v r p _ c m h hr hp refl mv
  Step-Inv {v} (launch r p e) h = launch-Inv v r p h e

  boot-Inv : Inv world_size token boot
  boot-Inv = record {
    counter = λ r p hr hp. refl;
    locals = λ r p hr hp. tt;
    waited = λ r p hr hp. le_refl _;
    cells = record {
      full = λ r p n hr hp lt le. absurd (omega arith);
      fresh = λ r p n hr hp le lt. refl;
    };
  }

  pub Reach-Inv : {w : World} → Reach world_size timeout_ns token w → Inv world_size token w
  Reach-Inv start = boot-Inv
  Reach-Inv (later r s) = Step-Inv s (Reach-Inv r)
