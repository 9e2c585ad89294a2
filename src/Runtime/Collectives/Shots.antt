-- ===== src/Runtime/Collectives/Shots.antt =====
-- The atomicity of the one-shot paths and of the fused path.
use mathlib.Core.List.{append_assoc}
use group_free_collectives.Base.{
  subst, ℕ, ◌+◌, ◌<◌, ◌≡◌, refl, sym, ap, ◌∙◌, arith, true, false, none, some, List, [], ◌∷◌,
  Option, ◌++◌, inr, Exc, Outcome, ok, err, lt→ltb, insert, ◌==◌,
}
use group_free_collectives.Group.Epochs.{
  Epochs, peek, next_for_barrier, next_pair_for_collective, peek-insert_same, peek-insert_other,
}
use group_free_collectives.Kernel.Memory.{Copy}
use group_free_collectives.Kernel.CopyEngine.{Enqueued}
use group_free_collectives.Kernel.Fused.{FusedOp}
use group_free_collectives.Runtime.State.{
  State, Setup, Act, Op, stage, barrier_launch, kernel, fused_kernel,
}
use group_free_collectives.Runtime.Paths.{
  Call, barrier_on, take_pair, take_epoch, one_shot, fused_shot, staging, token, launch_kernel,
  launch_copies, fused_call, launch_fused,
}
use group_free_collectives.Runtime.Collectives.Launches.{Succeeds}
use group_free_collectives.Runtime.Collectives.Atomic.{
  barrier_tokens, guarded, handed, Issued, Interrupted, Untouched, Atomic,
}

module _ (rt : Setup) (c : Call) (g_pos : 0 < c.group.size) (s0 s : State) (so_far : Untouched s0 s)
    (Cause : Type 0) where
  abbrev gid : ℕ
  gid = c.group.group_id

  abbrev low : ℕ
  low = peek gid s.epochs

  low-eq : low ≡ peek gid s0.epochs
  low-eq = ap (peek gid) so_far.epochs

  abbrev bar : ℕ → Op
  bar e = barrier_launch c.row c.group.size (token rt c e)

  -- The state after a pair of barriers around one kernel.
  abbrev pub after_shot : Op → State
  after_shot k = record s {
    epochs = insert gid (low + 2) s.epochs;
    ops = bar (low + 1) ∷ k ∷ bar low ∷ stage (staging rt c ∷ []) ∷ s.ops;
  }

  shot-Issued : (cs : List Copy) → Issued (token rt c) gid s0 (after_shot (kernel cs))
  unfolding barrier_tokens guarded
  shot-Issued cs = record {
    added = bar (low + 1) ∷ kernel cs ∷ bar low ∷ stage (staging rt c ∷ []) ∷ handed so_far.tensors;
    used = (low + 1) ∷ low ∷ [];
    log =
        ap (λ ops. bar (low + 1) ∷ kernel cs ∷ bar low ∷ stage (staging rt c ∷ []) ∷ ops)
          so_far.log;
    tokens =
        elim so_far.tensors
          as (λ t.
            barrier_tokens
              (bar (low + 1) ∷ kernel cs ∷ bar low ∷ stage (staging rt c ∷ []) ∷ handed t)
            ≡ token rt c (low + 1) ∷ token rt c low ∷ []) [ none ↦ refl | some ps ↦ refl ];
    fresh = omega (arith, peek-insert_same gid (low + 2) s.epochs, low-eq);
    closes = refl;
    guards =
        elim so_far.tensors
          as (λ t.
            guarded (bar (low + 1) ∷ kernel cs ∷ bar low ∷ stage (staging rt c ∷ []) ∷ handed t)
            ≡ true) [ none ↦ refl | some ps ↦ refl ];
    others =
        λ other h. peek-insert_other gid other (low + 2) s.epochs h ∙ ap (peek other) so_far.epochs;
    registry = so_far.registry;
  }

  pub one_shot-eq :
      (body : Act (Unit {0})) (k : Op)
      → ((t : State) → body t ≡ (ok tt, record t { ops = k ∷ t.ops }))
      → one_shot rt c body s ≡ (ok tt, after_shot k)
  unfolding one_shot take_pair barrier_on next_pair_for_collective
  one_shot-eq body k h = rw (lt→ltb 0 c.group.size g_pos) (
      rw
        (h (record s {
          epochs = insert gid (low + 2) s.epochs;
          ops = bar low ∷ stage (staging rt c ∷ []) ∷ s.ops;
        }))
        refl)

  -- What a body that raises leaves of its kernel: nothing, or the copies enqueued before.
  abbrev partly : Option (List Copy) → List Op
  partly none = []
  partly (some cs) = kernel cs ∷ []

  abbrev cut_log : Option (List Copy) → List Op
  cut_log o = partly o ++ bar low ∷ stage (staging rt c ∷ []) ∷ []

  abbrev after_cut : Option (List Copy) → State
  after_cut o = record s {
    epochs = insert gid (low + 2) s.epochs;
    ops = partly o ++ bar low ∷ stage (staging rt c ∷ []) ∷ s.ops;
  }

  one_shot-cut :
      (body : Act (Unit {0})) (o : Option (List Copy)) (e : Exc)
      → ((t : State) → body t ≡ (err e, record t { ops = partly o ++ t.ops }))
      → one_shot rt c body s ≡ (err e, after_cut o)
  unfolding one_shot take_pair barrier_on next_pair_for_collective
  one_shot-cut body o e h = rw (lt→ltb 0 c.group.size g_pos) (
      rw
        (h (record s {
          epochs = insert gid (low + 2) s.epochs;
          ops = bar low ∷ stage (staging rt c ∷ []) ∷ s.ops;
        }))
        refl)

  cut-tokens :
      (o : Option (List Copy)) (t : Option (List ℕ))
      → barrier_tokens (partly o ++ bar low ∷ stage (staging rt c ∷ []) ∷ handed t)
        ≡ token rt c low ∷ []
  unfolding barrier_tokens
  cut-tokens none none = refl
  cut-tokens none (some ps) = refl
  cut-tokens (some cs) none = refl
  cut-tokens (some cs) (some ps) = refl

  cut-guarded :
      (o : Option (List Copy)) (t : Option (List ℕ))
      → guarded (partly o ++ bar low ∷ stage (staging rt c ∷ []) ∷ handed t) ≡ true
  unfolding guarded
  cut-guarded none none = refl
  cut-guarded none (some ps) = refl
  cut-guarded (some cs) none = refl
  cut-guarded (some cs) (some ps) = refl

  cut-Interrupted :
      (o : Option (List Copy)) → Cause → Interrupted Cause (token rt c) gid s0 (after_cut o)
  cut-Interrupted o cause = record {
    cause = cause;
    added = partly o ++ bar low ∷ stage (staging rt c ∷ []) ∷ handed so_far.tensors;
    used = low ∷ [];
    log =
        ap (λ ops. partly o ++ bar low ∷ stage (staging rt c ∷ []) ∷ ops) so_far.log
        ∙ sym (
            append_assoc (partly o) (bar low ∷ stage (staging rt c ∷ []) ∷ handed so_far.tensors)
              s0.ops);
    tokens = cut-tokens o so_far.tensors;
    fresh = omega (arith, peek-insert_same gid (low + 2) s.epochs, low-eq);
    guards = cut-guarded o so_far.tensors;
    others =
        λ other h. peek-insert_other gid other (low + 2) s.epochs h ∙ ap (peek other) so_far.epochs;
    registry = so_far.registry;
  }

  cut-Atomic :
      (body : Act (Unit {0})) (o : Option (List Copy)) (e : Exc)
      → ((t : State) → body t ≡ (err e, record t { ops = partly o ++ t.ops }))
      → Cause
      → Atomic Cause (token rt c) gid s0 (one_shot rt c body s)
  cut-Atomic body o e h cause =
      subst (Atomic Cause (token rt c) gid s0) (sym (one_shot-cut body o e h))
        (inr (cut-Interrupted o cause))

  -- A launch that raises does so for the cause given.
  pub kernel_shot-Atomic :
      (launched : Outcome (List Copy))
      → ((e : Exc) → launched ≡ err e → Cause)
      → Atomic Cause (token rt c) gid s0 (one_shot rt c (launch_kernel launched) s)
  kernel_shot-Atomic (ok cs) why =
      subst (Atomic Cause (token rt c) gid s0)
        (sym (one_shot-eq (launch_kernel (ok cs)) (kernel cs) (λ t. refl))) (shot-Issued cs)
  kernel_shot-Atomic (err e) why =
      cut-Atomic (launch_kernel (err e)) none e (λ t. refl) (why e refl)

  pub copies_shot-Atomic :
      (launched : Enqueued)
      → ((e : Exc) → launched.1 ≡ err e → Cause)
      → Atomic Cause (token rt c) gid s0 (one_shot rt c (launch_copies launched) s)
  copies_shot-Atomic (cs, ok u) why =
      subst (Atomic Cause (token rt c) gid s0)
        (sym (one_shot-eq (launch_copies (cs, ok u)) (kernel cs) (λ t. refl))) (shot-Issued cs)
  copies_shot-Atomic (cs, err e) why =
      cut-Atomic (launch_copies (cs, err e)) (some cs) e (λ t. refl) (why e refl)

  -- The counters after each of the three epochs of a fused call.
  abbrev first : Epochs
  first = insert gid (low + 1) s.epochs

  abbrev step_epoch : ℕ
  step_epoch = peek gid first

  abbrev second : Epochs
  second = insert gid (step_epoch + 1) first

  abbrev last_epoch : ℕ
  last_epoch = peek gid second

  abbrev third : Epochs
  third = insert gid (last_epoch + 1) second

  last_epoch-eq : last_epoch ≡ low + 2
  last_epoch-eq =
      omega (
        arith,
        peek-insert_same gid (step_epoch + 1) first,
        peek-insert_same gid (low + 1) s.epochs,
      )

  third-others : (other : ℕ) → (gid == other) ≡ false → peek other third ≡ peek other s.epochs
  third-others other h =
      peek-insert_other gid other (last_epoch + 1) second h
      ∙ peek-insert_other gid other (step_epoch + 1) first h
      ∙ peek-insert_other gid other (low + 1) s.epochs h

  abbrev after_fused : List (List FusedOp) → State
  after_fused ps = record s {
    epochs = third;
    ops = bar last_epoch ∷ fused_kernel ps ∷ bar low ∷ s.ops;
  }

  fused-Issued : (ps : List (List FusedOp)) → Issued (token rt c) gid s0 (after_fused ps)
  unfolding barrier_tokens guarded
  fused-Issued ps = record {
    added = bar last_epoch ∷ fused_kernel ps ∷ bar low ∷ handed so_far.tensors;
    used = last_epoch ∷ low ∷ [];
    log = ap (λ ops. bar last_epoch ∷ fused_kernel ps ∷ bar low ∷ ops) so_far.log;
    tokens =
        elim so_far.tensors
          as (λ t.
            barrier_tokens (bar last_epoch ∷ fused_kernel ps ∷ bar low ∷ handed t)
            ≡ token rt c last_epoch ∷ token rt c low ∷ []) [ none ↦ refl | some ps' ↦ refl ];
    fresh = omega (arith, peek-insert_same gid (last_epoch + 1) second, last_epoch-eq, low-eq);
    closes = refl;
    guards =
        elim so_far.tensors
          as (λ t. guarded (bar last_epoch ∷ fused_kernel ps ∷ bar low ∷ handed t) ≡ true) [
            | none ↦ refl
            | some ps' ↦ refl
          ];
    others = λ other h. third-others other h ∙ ap (peek other) so_far.epochs;
    registry = so_far.registry;
  }

  module _ (channels chunk : ℕ)
      (launches : (base : ℕ)
        → Succeeds (launch_fused rt c (fused_call rt c channels chunk base))) where
    fused_shot-eq :
        fused_shot rt c channels chunk s ≡ (ok tt, after_fused (launches (token rt c step_epoch)).0)
    unfolding fused_shot take_epoch barrier_on next_for_barrier
    fused_shot-eq = rw (lt→ltb 0 c.group.size g_pos) (rw (launches (token rt c step_epoch)).1 refl)

    pub fused_shot-Atomic : Atomic Cause (token rt c) gid s0 (fused_shot rt c channels chunk s)
    fused_shot-Atomic =
        subst (Atomic Cause (token rt c) gid s0) (sym fused_shot-eq) (fused-Issued _)
