-- ===== src/Kernel/Barrier/Refinement.antt =====
-- What the barrier is for, without slots, cells and tokens: on each edge both ends arrive, and leave
-- only once the other has arrived. The programs of the kernel refine it.
use mathlib.Core.Path.{fun_ext}
use group_free_collectives.Base.{ℕ, suc, ◌+◌, ◌%◌, ◌<◌, ◌≡◌, refl, sym, ap, ap₂, ◌∙◌, subst, arith}
use group_free_collectives.Kernel.Barrier.{
  Signals, Pc, passed, Move, load_seq, bump, publish, first_seen, first_missed, seen, missed,
  expired, observed, World, edge_args, Step, access, launch, Reach,
}
use group_free_collectives.Kernel.Family.{set2, set2-same, set2-other}
use group_free_collectives.Kernel.Barrier.Invariant.{
  sends, passes, sent, passed_count, IsOrdered, Inv,
}
use group_free_collectives.Kernel.Barrier.Moves.{set2-all, launched, here}
use group_free_collectives.Kernel.Barrier.Reachable.{seen-sent, Reach-Inv}

-- How often each end of an edge has arrived at a barrier with the other, and left one.
pub record Meeting : Type 0 where
  pub arrived : ℕ → ℕ → ℕ
  pub left : ℕ → ℕ → ℕ

pub data Meets (s : Meeting) : Meeting → Type 0 where
  arrive :
      (r p : ℕ)
      → s.arrived r p ≡ s.left r p
      → Meets s (record s { arrived = set2 s.arrived r p (suc (s.arrived r p)) })
  leave :
      (r p : ℕ)
      → s.left r p < s.arrived r p
      → s.left r p < s.arrived p r
      → Meets s (record s { left = set2 s.left r p (suc (s.left r p)) })
  idle : Meets s s

abbrev pub meeting : World → Meeting
meeting w = record { arrived = sent w; left = passed_count w }

abbrev moved : World → ℕ → ℕ → Signals → Pc → World
moved w r p m c = record { mem = m; pc = set2 w.pc r p c; rounds = w.rounds }

-- A count of a program's steps after one program has moved.
count-moved :
    (f : Pc → ℕ) (w : World) (r p : ℕ) (c : Pc)
    → (λ x y. w.rounds x y + f (set2 w.pc r p c x y))
      ≡ set2 (λ x y. w.rounds x y + f (w.pc x y)) r p (w.rounds r p + f c)
count-moved f w r p c = fun_ext λ x. fun_ext λ y.
    set2-all
      (λ x y d.
        w.rounds x y + f d ≡ set2 (λ x y. w.rounds x y + f (w.pc x y)) r p (w.rounds r p + f c) x y)
      w.pc r p c (sym (set2-same _ r p _)) x y (λ off. sym (set2-other _ r p _ x y off))

count-kept :
    (f : Pc → ℕ) (w : World) (r p : ℕ) (c₀ c : Pc)
    → w.pc r p ≡ c₀
    → f c ≡ f c₀
    → ◌≡◌ {A = ℕ → ℕ → ℕ}
        (λ x y. w.rounds x y + f (set2 w.pc r p c x y))
        (λ x y. w.rounds x y + f (w.pc x y))
count-kept f w r p c₀ c at e = fun_ext λ x. fun_ext λ y.
    set2-all (λ x y d. w.rounds x y + f d ≡ w.rounds x y + f (w.pc x y)) w.pc r p c
      (ap (λ (n : ℕ). w.rounds r p + n) (e ∙ ap f (sym at))) x y (λ off. refl)

-- The next number of a count that stood at the round.
count-next :
    (f : Pc → ℕ) (w : World) (r p : ℕ) (c₀ c : Pc)
    → w.pc r p ≡ c₀
    → f c₀ ≡ 0
    → f c ≡ 1
    → (λ x y. w.rounds x y + f (set2 w.pc r p c x y))
      ≡ set2 (λ x y. w.rounds x y + f (w.pc x y)) r p (suc (w.rounds r p + f (w.pc r p)))
count-next f w r p c₀ c at e0 e1 =
    count-moved f w r p c
    ∙ ap (set2 (λ x y. w.rounds x y + f (w.pc x y)) r p) (
        let step : w.rounds r p + f c ≡ suc (w.rounds r p + f (w.pc r p)) =
          omega (arith, e1, e0, ap f at) in
        step)

module _ (world_size timeout_ns : ℕ) (token : ℕ → ℕ → ℕ → ℕ)
    (ordered : IsOrdered world_size token) where
  quiet-Meets :
      (w : World) (r p : ℕ) (m : Signals) (c₀ c : Pc)
      → w.pc r p ≡ c₀
      → sends c ≡ sends c₀
      → passes c ≡ passes c₀
      → Meets (meeting w) (meeting (moved w r p m c))
  quiet-Meets w r p m c₀ c at es ep =
      subst (Meets (meeting w))
        (sym (
          ap₂ (λ a l. record { arrived = a; left = l }) (count-kept sends w r p c₀ c at es)
            (count-kept passes w r p c₀ c at ep)))
        idle

  leave-Meets :
      (w : World) (r p slot : ℕ) (c₀ : Pc)
      → Inv world_size token w
      → r < world_size
      → p < world_size
      → w.pc r p ≡ c₀
      → slot ≡ w.rounds r p % 2
      → sends c₀ ≡ 1
      → passes c₀ ≡ 0
      → observed (edge_args world_size timeout_ns token w r p) w.mem slot ≡ token r p (w.rounds r p)
      → Meets (meeting w) (meeting (moved w r p w.mem passed))
  leave-Meets w r p slot c₀ h hr hp at es one none o =
      subst (Meets (meeting w))
        (sym (
          ap₂ (λ a l. record { arrived = a; left = l })
            (count-kept sends w r p c₀ passed at (sym one))
            (count-next passes w r p c₀ passed at none refl)))
        (leave r p (omega (arith, ap sends at, ap passes at, one, none)) (
          omega (
            arith,
            ap passes at,
            none,
            seen-sent world_size timeout_ns token ordered w r p slot h hr hp es o,
          )))

  Move-Meets :
      (w : World) (r p : ℕ) (c₀ c : Pc) (m : Signals)
      → Inv world_size token w
      → r < world_size
      → p < world_size
      → w.pc r p ≡ c₀
      → Move (edge_args world_size timeout_ns token w r p) w.mem c₀ m c
      → Meets (meeting w) (meeting (moved w r p m c))
  Move-Meets w r p c₀ c m h hr hp e load_seq = quiet-Meets w r p m c₀ c e refl refl
  Move-Meets w r p c₀ c m h hr hp e bump = quiet-Meets w r p m c₀ c e refl refl
  Move-Meets w r p c₀ c m h hr hp e publish =
      subst (Meets (meeting w))
        (sym (
          ap₂ (λ a l. record { arrived = a; left = l }) (count-next sends w r p c₀ c e refl refl)
            (count-kept passes w r p c₀ c e refl)))
        (arrive r p (omega (arith, ap sends e, ap passes e)))
  Move-Meets w r p c₀ c m h hr hp e (first_seen {slot} o) =
      leave-Meets w r p slot c₀ h hr hp e (here world_size timeout_ns token w r p h hr hp e).0 refl
        refl o
  Move-Meets w r p c₀ c m h hr hp e (first_missed o) = quiet-Meets w r p m c₀ c e refl refl
  Move-Meets w r p c₀ c m h hr hp e (seen {slot} o) =
      leave-Meets w r p slot c₀ h hr hp e (here world_size timeout_ns token w r p h hr hp e).0 refl
        refl o
  Move-Meets w r p c₀ c m h hr hp e (missed o) = quiet-Meets w r p m c₀ c e refl refl
  Move-Meets w r p c₀ c m h hr hp e (expired o) = quiet-Meets w r p m c₀ c e refl refl

  -- Every step of the barrier programs from a reachable world is a step of the meeting, or leaves
  -- the meeting as it is: an end arrives where it has left all it arrived at, and leaves only what
  -- it and its peer have arrived at; where both ends issue the edge's barriers in one order and no
  -- token is 0 or that of the barrier before the last.
  pub Step-Meets :
      {v w : World}
      → Reach world_size timeout_ns token v
      → Step world_size timeout_ns token v w
      → Meets (meeting v) (meeting w)
  Step-Meets {v} reach (access r p {m} {c} hr hp mv) =
      Move-Meets v r p _ c m (Reach-Inv world_size timeout_ns token ordered reach) hr hp refl mv
  Step-Meets {v} reach (launch r p e) =
      subst (Meets (meeting v))
        (sym (
          ap₂ (λ a l. record { arrived = a; left = l })
            (fun_ext
              λ x. fun_ext λ y. launched world_size timeout_ns token sends v r p refl refl e x y)
            (fun_ext
              λ x. fun_ext λ y. launched world_size timeout_ns token passes v r p refl refl e x y)))
        idle
