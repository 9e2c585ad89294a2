-- ===== src/Kernel/Fused/Run/Progress.antt =====
-- Disciplined programs that are served never deadlock.
use group_free_collectives.Base.{
  ℕ, ◌<◌, ◌≡◌, ◌⊎◌, inl, inr, sym, subst, ◌∙◌, ap, List, [], ◌∷◌, ◌++◌, ℕ_discrete, refl,
}
use mathlib.Core.List.{append-nil}
use group_free_collectives.Base.Membership.{Elem, here, Elem-append_left, Elem-append_right}
use group_free_collectives.Kernel.Memory.{Memory}
use group_free_collectives.Kernel.Fused.Run.{
  Access, transfer, release, acquire, Launched, Step, transferred, released, acquired, Reach,
  launched,
}
use group_free_collectives.Kernel.Fused.Run.Discipline.{IsDisciplined, IsServed}
use group_free_collectives.Kernel.Fused.Run.Invariant.{Inv, Released}
use group_free_collectives.Kernel.Fused.Run.Keeps.{Reach-Inv}

module _ (g n : ℕ) (ranks : ℕ → ℕ) (progs : ℕ → ℕ → List Access) (m0 : Memory) (pad0 : ℕ → ℕ → ℕ)
    (Meant : ℕ → ℕ → Type 0) (disciplined : IsDisciplined g n ranks progs m0 pad0 Meant)
    (served : IsServed g n ranks progs m0 pad0 Meant) where
  abbrev Goes : Launched → Type 0
  Goes w = (v : Launched) × Step g n ranks w v

  module _ (done : ℕ → ℕ → List Access) (w : Launched)
      (inv : Inv g n ranks progs m0 pad0 Meant done w) where
    next-Elem :
        (i p : ℕ) {op : Access} {ops : List Access} → w.rest i p ≡ op ∷ ops → Elem op (progs i p)
    next-Elem i p {op} {ops} at =
        subst (Elem op) (sym (inv.splits i p ∙ ap (λ l. done i p ++ l) at))
          (Elem-append_right (done i p) (here refl))

    -- A program that never waits goes on, or has ended.
    free-Goes :
        (j q : ℕ) (rest : List Access) (rank cell value : ℕ)
        → j < g
        → q < n
        → w.rest j q ≡ rest
        → ((cell' value' : ℕ) → ¬ Elem (acquire cell' value') (progs j q))
        → Elem (release rank cell value) (progs j q)
        → Goes w ⊎ Elem (release rank cell value) (done j q)
    free-Goes j q [] rank cell value hj hq at never m = inr (
        subst (Elem (release rank cell value))
          (inv.splits j q ∙ ap (λ l. done j q ++ l) at ∙ append-nil (done j q)) m)
    free-Goes j q (transfer c ∷ ops) rank cell value hj hq at never m =
        inl (_, transferred j q hj hq at)
    free-Goes j q (release r x v ∷ ops) rank cell value hj hq at never m =
        inl (_, released j q hj hq at)
    free-Goes j q (acquire x v ∷ ops) rank cell value hj hq at never m =
        absurd (never x v (next-Elem j q at))

    -- A published value is what the cell holds.
    Released-holds :
        (rank cell value : ℕ)
        → Released g n ranks progs done rank cell value
        → w.step_pad rank cell ≡ value
    Released-holds rank cell value r =
        let (j, q, hj, hq, m) = r in
        let (j', q', hj', hq', m') = inv.kept rank cell value r in
        served.single j' q' j q rank cell _ value hj' hq' hj hq (in_prog j' q' m') (in_prog j q m)
      where
        in_prog : (j q : ℕ) {x : Access} → Elem x (done j q) → Elem x (progs j q)
        in_prog j q {x} m = subst (Elem x) (sym (inv.splits j q)) (Elem-append_left (w.rest j q) m)

    unfinished-Goes :
        (i p : ℕ) (op : Access) (ops : List Access) → i < g → p < n → w.rest i p ≡ op ∷ ops → Goes w
    unfinished-Goes i p (transfer c) ops hi hp at = (_, transferred i p hi hp at)
    unfinished-Goes i p (release r x v) ops hi hp at = (_, released i p hi hp at)
    unfinished-Goes i p (acquire cell value) ops hi hp at =
        elim (ℕ_discrete (w.step_pad (ranks i) cell) value) [
          | yes holds ↦ (_, acquired i p hi hp at holds)
          | no other ↦
              let (j, q, hj, hq, m, never) =
                served.server i p cell value hi hp (next-Elem i p at) in
              elim (free-Goes j q _ (ranks i) cell value hj hq refl never m) [
                | inl go ↦ go
                | inr m' ↦ absurd (other (Released-holds (ranks i) cell value (j, q, hj, hq, m')))
              ]
        ]

  -- While some program has not ended, some program can go on.
  pub Reach-Goes :
      {k : ℕ} {w : Launched}
      → Reach g n ranks (launched progs m0 pad0) k w
      → (i p : ℕ) (op : Access) (ops : List Access) → i < g
      → p < n
      → w.rest i p ≡ op ∷ ops
      → (v : Launched) × Step g n ranks w v
  Reach-Goes {k} {w} reach i p op ops hi hp at =
      let (done, inv) = Reach-Inv g n ranks progs m0 pad0 Meant disciplined reach in
      unfinished-Goes done w inv i p op ops hi hp at
