-- ===== src/Kernel/Barrier/Moves.antt =====
-- The accesses of a barrier program keep the invariant: what each changes of the three counters.
use mathlib.Core.Path.{fun_ext}
use native.Mathlib.Nat.{add-zero, le_refl, le_trans}
use group_free_collectives.Base.{
  ℕ, suc, ◌+◌, ◌%◌, ◌^◌, ◌≤◌, ◌<◌, ◌≡◌, inl, inr, refl, sym, ap, ◌∙◌, subst, bit_and, bit_and_mask,
  arith,
}
use group_free_collectives.Kernel.Barrier.{
  Signals, Pc, ready, loaded, bumped, waiting, passed, store_seq, store_token, World, edge_args,
}
use group_free_collectives.Kernel.Family.{set2, set2-cases, set2-same, set2-other}
use group_free_collectives.Kernel.Barrier.Invariant.{
  bumps, sends, passes, bumped_count, sent, Locals, Cells, Inv,
}
use group_free_collectives.Kernel.Barrier.Cells.{Cells-send_at}

-- What holds at the changed place and elsewhere holds everywhere.
pub set2-all {ℓ κ} :
    {A : Type ℓ} (P : ℕ → ℕ → A → Type κ) (f : ℕ → ℕ → A) (i j : ℕ) (v : A)
    → P i j v
    → (x y : ℕ) → (¬ ((x ≡ i) × (y ≡ j)) → P x y (f x y))
    → P x y (set2 f i j v x y)
set2-all P f i j v at x y off = elim (set2-cases f i j v x y) [
  | inl e ↦ rw (e.0, e.1, set2-same f i j v) at
  | inr e ↦ rw e.1 (off e.0)
]

low_bit : (seq n : ℕ) → seq ≡ n % 2 ^ 64 → seq % 2 ≡ n % 2
low_bit seq n e = omega arith

next_count : (seq n : ℕ) → seq ≡ n % 2 ^ 64 → (seq + 1) % 2 ^ 64 ≡ (n + 1) % 2 ^ 64
next_count seq n e = omega arith

module _ (world_size timeout_ns : ℕ) (token : ℕ → ℕ → ℕ → ℕ) where
  abbrev pub after : World → ℕ → ℕ → Signals → Pc → World
  after w r p m c = record { mem = m; pc = set2 w.pc r p c; rounds = w.rounds }

  -- The tokens sent, where one program has moved.
  sent-after :
      (w : World) (r p : ℕ) (m : Signals) (c : Pc)
      → sent (after w r p m c) ≡ set2 (sent w) r p (w.rounds r p + sends c)
  sent-after w r p m c = fun_ext λ x. fun_ext λ y.
      set2-all (λ x y d. w.rounds x y + sends d ≡ set2 (sent w) r p (w.rounds r p + sends c) x y)
        w.pc r p c (sym (set2-same (sent w) r p _)) x y
        (λ off. sym (set2-other (sent w) r p _ x y off))

  -- A program that has moved without sending has sent as much as before.
  sent-same :
      (w : World) (r p : ℕ) (m : Signals) (c : Pc)
      → sends c ≡ sends (w.pc r p)
      → sent (after w r p m c) ≡ sent w
  sent-same w r p m c e = fun_ext λ x. fun_ext λ y.
      set2-all (λ x y d. w.rounds x y + sends d ≡ sent w x y) w.pc r p c (omega arith) x y
        (λ off. refl)

  sent-grows :
      (w : World) (r p : ℕ) (m : Signals) (c : Pc)
      → sends (w.pc r p) ≤ sends c
      → (x y : ℕ) → sent w x y ≤ sent (after w r p m c) x y
  sent-grows w r p m c le x y =
      set2-all (λ x y d. sent w x y ≤ w.rounds x y + sends d) w.pc r p c (omega arith) x y
        λ _. le_refl _

  -- A step that keeps what the invariant says of counters, cells, its program's variables and waits.
  after-Inv :
      (w : World) (r p : ℕ) (m : Signals) (c : Pc)
      → Inv world_size token w
      → sends (w.pc r p) ≤ sends c
      → Locals (w.rounds r p) c
      → w.rounds r p + passes c ≤ sent (after w r p m c) p r
      → Cells world_size token m.signal_buf (sent (after w r p m c))
      → ((x y : ℕ)
          → x < world_size
          → y < world_size
          → m.edge_seq x y ≡ bumped_count (after w r p m c) x y % 2 ^ 64)
      → Inv world_size token (after w r p m c)
  after-Inv w r p m c h grows here waits cells counters = record {
    counter = counters;
    locals = λ x y hx hy.
        set2-all (λ x y d. Locals (w.rounds x y) d) w.pc r p c here x y (λ _. h.locals x y hx hy);
    waited = λ x y hx hy.
        set2-all (λ x y d. w.rounds x y + passes d ≤ sent (after w r p m c) y x) w.pc r p c waits x
          y λ _. le_trans (h.waited x y hx hy) (sent-grows w r p m c grows y x);
    cells = cells;
  }

  -- A program that does not bump the counter leaves the counters right.
  counters-same :
      (w : World) (r p : ℕ) (m : Signals) (c : Pc)
      → Inv world_size token w
      → m.edge_seq ≡ w.mem.edge_seq
      → bumps c ≡ bumps (w.pc r p)
      → (x y : ℕ) → x < world_size
      → y < world_size
      → m.edge_seq x y ≡ bumped_count (after w r p m c) x y % 2 ^ 64
  counters-same w r p m c h em eb x y hx hy = rw em (
      h.counter x y hx hy
      ∙ ap (λ n. n % 2 ^ 64)
          (set2-all (λ x y d. bumped_count w x y ≡ w.rounds x y + bumps d) w.pc r p c (rw eb refl) x
            y λ _. refl))

  -- What the invariant says of a program at a known place.
  pub here :
      {c : Pc} (w : World) (r p : ℕ)
      → Inv world_size token w
      → r < world_size
      → p < world_size
      → w.pc r p ≡ c
      → Locals (w.rounds r p) c × (w.rounds r p + passes c ≤ sent w p r)
  here w r p h hr hp e = (
    subst (Locals (w.rounds r p)) e (h.locals r p hr hp),
    subst (λ d. w.rounds r p + passes d ≤ sent w p r) e (h.waited r p hr hp),
  )

  -- A step that sends and counts nothing, such as a load.
  pub quiet-Inv :
      (w : World) (r p : ℕ) (c₀ c : Pc)
      → Inv world_size token w
      → w.pc r p ≡ c₀
      → sends c ≡ sends c₀
      → bumps c ≡ bumps c₀
      → Locals (w.rounds r p) c
      → w.rounds r p + passes c ≤ sent w p r
      → Inv world_size token (after w r p w.mem c)
  quiet-Inv w r p c₀ c h e es eb local waits =
      let sends_same = es ∙ ap sends (sym e) in
      after-Inv w r p w.mem c h (omega arith) local
        (le_trans waits (sent-grows w r p w.mem c (omega arith) p r))
        (rw (sent-same w r p w.mem c sends_same) h.cells)
        (counters-same w r p w.mem c h refl (eb ∙ ap bumps (sym e)))

  pub bump-Inv :
      (w : World) (r p seq : ℕ)
      → Inv world_size token w
      → r < world_size
      → p < world_size
      → w.pc r p ≡ loaded seq
      → Inv world_size token (
          after w r p
            (store_seq (edge_args world_size timeout_ns token w r p) w.mem seq)
            (bumped (bit_and seq 1)))
  bump-Inv w r p seq h hr hp e =
      after-Inv w r p _ (bumped (bit_and seq 1)) h (rw e (omega arith))
        (bit_and_mask 1 seq ∙ low_bit _ _ (here w r p h hr hp e).0)
        (le_trans (here w r p h hr hp e).1 (sent-grows w r p w.mem _ (rw e (omega arith)) p r))
        (rw (sent-same w r p w.mem (bumped (bit_and seq 1)) (rw e refl)) h.cells)
        λ x y hx hy. elim (set2-cases w.mem.edge_seq r p ((seq + 1) % 2 ^ 64) x y) [
          | inl at ↦
              rw (at.2, at.0, at.1, set2-same w.pc r p (bumped (bit_and seq 1)))
                (next_count _ _ (here w r p h hr hp e).0)
          | inr off ↦
              rw (off.1, set2-other w.pc r p (bumped (bit_and seq 1)) x y off.0)
                (h.counter x y hx hy)
        ]

  pub publish-Inv :
      (w : World) (r p slot : ℕ)
      → Inv world_size token w
      → r < world_size
      → p < world_size
      → w.pc r p ≡ bumped slot
      → Inv world_size token (
          after w r p
            (store_token (edge_args world_size timeout_ns token w r p) w.mem slot)
            (waiting slot))
  publish-Inv w r p slot h hr hp e =
      let now = here w r p h hr hp e in
      let sent_now : sent w r p ≡ w.rounds r p = ap (λ d. w.rounds r p + sends d) e ∙ add-zero _ in
      after-Inv w r p _ (waiting slot) h (rw e (omega arith)) now.0
        (le_trans now.1 (sent-grows w r p w.mem _ (rw e (omega arith)) p r))
        (rw (sent-after w r p _ (waiting slot)) (
          Cells-send_at world_size token w.mem.signal_buf (sent w) h.cells r p hr (w.rounds r p)
            slot sent_now now.0))
        (counters-same w r p (store_token (edge_args world_size timeout_ns token w r p) w.mem slot)
          (waiting slot) h refl (rw e refl))

  -- A count that a program adds one to before it has passed is the same after the next launch.
  pub launched :
      (f : Pc → ℕ) (w : World) (r p : ℕ)
      → f ready ≡ 0
      → f passed ≡ 1
      → w.pc r p ≡ passed
      → (x y : ℕ)
      → set2 w.rounds r p (suc (w.rounds r p)) x y + f (set2 w.pc r p ready x y)
        ≡ w.rounds x y + f (w.pc x y)
  launched f w r p e0 e1 e x y = elim (set2-cases w.pc r p ready x y) [
    | inl at ↦
        rw (at.2, at.0, at.1, set2-same w.rounds r p (suc (w.rounds r p)), e, e0, e1) (omega arith)
    | inr off ↦ rw (off.1, set2-other w.rounds r p (suc (w.rounds r p)) x y off.0) refl
  ]

  pub sent-launched :
      (w : World) (r p : ℕ)
      → w.pc r p ≡ passed
      → ◌≡◌ {A = ℕ → ℕ → ℕ}
          (λ x y. set2 w.rounds r p (suc (w.rounds r p)) x y + sends (set2 w.pc r p ready x y))
          (sent w)
  sent-launched w r p e = fun_ext λ x. fun_ext λ y. launched sends w r p refl refl e x y
