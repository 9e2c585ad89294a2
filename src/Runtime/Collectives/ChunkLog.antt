-- ===== src/Runtime/Collectives/ChunkLog.antt =====
-- The log of the pipelined loop, its barriers and its kernels.
use group_free_collectives.Base.{
  ℕ, zero, suc, ◌+◌, ◌<◌, ◌≡◌, refl, ap, subst, ◌∙◌, arith, true, false, List, [], ◌∷◌, ◌++◌, map,
  length, range_from, Outcome, ok, err, lt→ltb, insert, ◌==◌,
}
use group_free_collectives.Group.Epochs.{
  Epochs, peek, next_for_barrier, next_many, peek-insert_same, peek-insert_other,
}
use group_free_collectives.Kernel.Memory.{Copy}
use group_free_collectives.Runtime.State.{
  State, Setup, Op, barrier_launch, kernel, on_copy_stream, join,
}
use group_free_collectives.Runtime.Layout.Laws.{Covers}
use group_free_collectives.Runtime.Paths.{
  Call, barrier_on, token, stage_chunk, launch_chunk, each_chunk,
}
use group_free_collectives.Runtime.Collectives.Launches.{launch_chunk-ok}
use group_free_collectives.Runtime.Collectives.Atomic.{barrier_tokens, guarded, closed, Descends}

-- `xs` in reverse, before `acc`.
abbrev pub rev_onto {ℓ} : {A : Type ℓ} → List A → List A → List A
rev_onto [] acc = acc
rev_onto (x ∷ xs) acc = rev_onto xs (x ∷ acc)

-- The epochs of the pre-barriers are consecutive.
pub next_many-range :
    (count gid : ℕ) (epochs : Epochs)
    → ((next_many count gid epochs).0 ≡ range_from (peek gid epochs) count)
      × (peek gid (next_many count gid epochs).1 ≡ peek gid epochs + count)
      × ((other : ℕ)
          → (gid == other) ≡ false
          → peek other (next_many count gid epochs).1 ≡ peek other epochs)
unfolding next_many next_for_barrier
next_many-range zero gid epochs = (refl, omega arith, λ other h. refl)
next_many-range (suc count) gid epochs =
    let e = peek gid epochs in
    let (es, high, others) = next_many-range count gid (insert gid (e + 1) epochs) in
    let same = peek-insert_same gid (e + 1) epochs in
    (
      ap (λ xs. e ∷ xs)
          (es
            ∙ ap (λ (x : ℕ). range_from x count)
                (same ∙ (let p : e + 1 ≡ suc e = omega arith in p))),
      omega (arith, high, same),
      λ other h. others other h ∙ peek-insert_other gid other (e + 1) epochs h,
    )

-- Reversed, they descend.
pub range-Descends :
    (count start low : ℕ) (acc : List ℕ)
    → Descends start acc low
    → Descends (start + count) (rev_onto (range_from start count) acc) low
range-Descends zero start low acc h =
    subst (λ (x : ℕ). Descends x acc low) (let p : start ≡ start + 0 = omega arith in p) h
range-Descends (suc count) start low acc h =
    subst (λ (x : ℕ). Descends x (rev_onto (range_from (suc start) count) (start ∷ acc)) low)
      (let p : suc start + count ≡ start + suc count = omega arith in p)
      (range-Descends count (suc start) low (start ∷ acc) (omega arith, h))

-- The kernel that a launch adds to a log.
launched : Outcome (List Copy) → List Op → List Op
launched (ok cs) ops = kernel cs ∷ ops
launched (err x) ops = ops

launched-append :
    (m : Outcome (List Copy)) (ops ys : List Op) → launched m (ops ++ ys) ≡ launched m ops ++ ys
unfolding launched
launched-append (ok cs) ops ys = refl
launched-append (err x) ops ys = refl

launched-tokens :
    (m : Outcome (List Copy)) (ops : List Op) → barrier_tokens (launched m ops) ≡ barrier_tokens ops
unfolding launched barrier_tokens
launched-tokens (ok cs) ops = refl
launched-tokens (err x) ops = refl

launched-guarded :
    (m : Outcome (List Copy)) (ops : List Op)
    → closed ops ≡ true
    → guarded ops ≡ true
    → guarded (launched m ops) ≡ true
unfolding launched guarded
launched-guarded (ok cs) ops p q = rw p q
launched-guarded (err x) ops p q = q

module _ (rt : Setup) (c : Call) where
  abbrev pub bar : ℕ → Op
  bar e = barrier_launch c.row c.group.size (token rt c e)

  -- The log after one round of the loop.
  round_log : ℕ × ℕ → ℕ → List Op → List Op
  round_log (o, n) e ops =
      launched (launch_chunk rt c o n) (bar e ∷ join ∷ on_copy_stream (stage_chunk rt c o n) ∷ ops)

  -- The log after the loop.
  pub chunk_log : List (ℕ × ℕ) → List ℕ → List Op → List Op
  chunk_log (piece ∷ layout) (e ∷ es) ops = chunk_log layout es (round_log piece e ops)
  chunk_log [] es ops = ops
  chunk_log (a ∷ layout) [] ops = ops

  pub chunk_log_none : (es : List ℕ) (ops : List Op) → chunk_log [] es ops ≡ ops
  unfolding chunk_log
  chunk_log_none es ops = refl

  -- A round whose launch is accepted.
  pub chunk_log_round :
      (o n : ℕ) (layout : List (ℕ × ℕ)) (e : ℕ) (es : List ℕ) (ops : List Op) {cs : List Copy}
      → launch_chunk rt c o n ≡ ok cs
      → chunk_log ((o, n) ∷ layout) (e ∷ es) ops
        ≡ chunk_log layout es
            (kernel cs ∷ bar e ∷ join ∷ on_copy_stream (stage_chunk rt c o n) ∷ ops)
  unfolding chunk_log round_log launched
  chunk_log_round o n layout e es ops h = rw h refl

  pub chunk_log-append :
      (layout : List (ℕ × ℕ)) (es : List ℕ) (ops ys : List Op)
      → chunk_log layout es (ops ++ ys) ≡ chunk_log layout es ops ++ ys
  unfolding chunk_log round_log
  chunk_log-append ((o, n) ∷ layout) (e ∷ es) ops ys =
      ap (chunk_log layout es) (
        launched-append (launch_chunk rt c o n)
          (bar e ∷ join ∷ on_copy_stream (stage_chunk rt c o n) ∷ ops) ys)
      ∙ chunk_log-append layout es (round_log (o, n) e ops) ys
  chunk_log-append [] es ops ys = refl
  chunk_log-append (a ∷ layout) [] ops ys = refl

  pub chunk_log-tokens :
      (layout : List (ℕ × ℕ)) (es acc : List ℕ) (ops : List Op)
      → length es ≡ length layout
      → barrier_tokens ops ≡ map (token rt c) acc
      → barrier_tokens (chunk_log layout es ops) ≡ map (token rt c) (rev_onto es acc)
  unfolding chunk_log round_log barrier_tokens
  chunk_log-tokens ((o, n) ∷ layout) (e ∷ es) acc ops same h =
      chunk_log-tokens layout es (e ∷ acc) (round_log (o, n) e ops) (omega arith)
        (launched-tokens (launch_chunk rt c o n) _ ∙ ap (λ ts. token rt c e ∷ ts) h)
  chunk_log-tokens [] [] acc ops same h = h
  chunk_log-tokens [] (e ∷ es) acc ops same h = absurd (omega arith)
  chunk_log-tokens (a ∷ layout) [] acc ops same h = absurd (omega arith)

  pub chunk_log-guarded :
      (layout : List (ℕ × ℕ)) (es : List ℕ) (ops : List Op)
      → guarded ops ≡ true
      → guarded (chunk_log layout es ops) ≡ true
  unfolding chunk_log round_log guarded
  chunk_log-guarded ((o, n) ∷ layout) (e ∷ es) ops h =
      chunk_log-guarded layout es (round_log (o, n) e ops)
        (launched-guarded (launch_chunk rt c o n) _ refl h)
  chunk_log-guarded [] es ops h = h
  chunk_log-guarded (a ∷ layout) [] ops h = h

  module _ (g_pos : 0 < c.group.size) (sms_pos : 0 < rt.copy_sms) where
    pub each_chunk-eq :
        (align : ℕ) (layout : List (ℕ × ℕ)) (es : List ℕ) (off : ℕ) (s : State)
        → length es ≡ length layout
        → Covers align c.slice_bytes off layout
        → each_chunk rt c layout es s ≡ (ok tt, record s { ops = chunk_log layout es s.ops })
    unfolding each_chunk barrier_on chunk_log round_log launched
    each_chunk-eq align ((o, n) ∷ layout) (e ∷ es) off s same (at, mult, n_pos, fits, rest) =
        let (cs, h) = launch_chunk-ok rt c o n n_pos (omega arith) g_pos sms_pos in
        rw (lt→ltb 0 c.group.size g_pos) (
          rw h (
            each_chunk-eq align layout es (o + n)
              (record s {
                ops = kernel cs ∷ bar e ∷ join ∷ on_copy_stream (stage_chunk rt c o n) ∷ s.ops;
              })
              (omega arith) rest))
    each_chunk-eq align [] es off s same covers = refl
    each_chunk-eq align (a ∷ layout) [] off s same covers = absurd (omega arith)
