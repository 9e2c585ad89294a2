-- ===== src/Kernel/Fused/Run/Extends.antt =====
-- What each part of the invariant of a run becomes where one program has done one more access.
use group_free_collectives.Base.{
  ℕ, ◌<◌, ◌≡◌, ◌≢◌, sym, ap, ap₂, subst, ◌∙◌, ◌⊎◌, inl, inr, List, [], ◌∷◌, ◌++◌,
}
use mathlib.Core.List.{append_assoc}
use group_free_collectives.Base.Membership.{Elem, Elem-append_left, Elem-split}
use group_free_collectives.Kernel.Family.{set2, set2-cases}
use group_free_collectives.Kernel.Memory.{Memory, Copy}
use group_free_collectives.Kernel.Fused.Run.{Access, transfer, release, acquire, Launched}
use group_free_collectives.Kernel.Fused.Run.Discipline.{Wrote, Supplied}
use group_free_collectives.Kernel.Fused.Run.Invariant.{
  extend, extend-kept, extend-cases, Released, Inv,
}

module _ (g n : ℕ) (ranks : ℕ → ℕ) (progs : ℕ → ℕ → List Access) (m0 : Memory) (pad0 : ℕ → ℕ → ℕ)
    (Meant : ℕ → ℕ → Type 0) where
  -- A step of program p of member i, whose first access is `op`.
  module _ (done : ℕ → ℕ → List Access) (w : Launched)
      (inv : Inv g n ranks progs m0 pad0 Meant done w) (i p : ℕ) (op : Access) (ops : List Access)
      (hi : i < g) (hp : p < n) (at : w.rest i p ≡ op ∷ ops) where
    pub placed : progs i p ≡ done i p ++ op ∷ ops
    placed = inv.splits i p ∙ ap (λ l. done i p ++ l) at

    pub splits_on : (j q : ℕ) → progs j q ≡ extend done i p op j q ++ set2 w.rest i p ops j q
    splits_on j q = elim (set2-cases done i p (done i p ++ op ∷ []) j q) [
      | inl (ej, eq, e) ↦ elim (set2-cases w.rest i p ops j q) [
        | inl (fj, fq, f) ↦
            ap₂ progs ej eq
            ∙ placed
            ∙ sym (append_assoc (done i p) (op ∷ []) ops)
            ∙ sym (ap₂ ◌++◌ e f)
        | inr (off, f) ↦ absurd (off (ej, eq))
      ]
      | inr (off, e) ↦ elim (set2-cases w.rest i p ops j q) [
        | inl (fj, fq, f) ↦ absurd (off (fj, fq))
        | inr (off', f) ↦ inv.splits j q ∙ sym (ap₂ ◌++◌ e f)
      ]
    ]

    pub old-Wrote :
        ((c : Copy) → op ≢ transfer c)
        → (j q a : ℕ) → Wrote a (extend done i p op j q)
        → Wrote a (done j q)
    old-Wrote other j q a (c, m, h) = elim (extend-cases done i p op j q m) [
      | inl m' ↦ (c, m', h)
      | inr (ej, eq, e) ↦ absurd (other c (sym e))
    ]

    pub old-Released :
        (rank cell value : ℕ)
        → op ≢ release rank cell value
        → Released g n ranks progs (extend done i p op) rank cell value
        → Released g n ranks progs done rank cell value
    old-Released rank cell value other (j, q, hj, hq, m) = elim (extend-cases done i p op j q m) [
      | inl m' ↦ (j, q, hj, hq, m')
      | inr (ej, eq, e) ↦ absurd (other (sym e))
    ]

    pub more-Released :
        (rank cell value : ℕ)
        → Released g n ranks progs done rank cell value
        → Released g n ranks progs (extend done i p op) rank cell value
    more-Released rank cell value (j, q, hj, hq, m) = (j, q, hj, hq, extend-kept done i p op j q m)

    -- A byte that is supplied to the program has the value that is meant.
    pub Supplied-value :
        (s v : ℕ) → Supplied g n ranks progs m0 pad0 Meant i (done i p) s v → w.mem s ≡ v
    Supplied-value s v (inl (clean, e)) = inv.untouched s clean ∙ e
    Supplied-value s v (inr (mean, (cell, value, m, told))) =
        let (j, q, hj, hq, rel) = inv.met i p cell value hi hp m in
        let (before, after, e) = Elem-split rel in
        let (c, mc, h) = told j q before (after ++ w.rest j q) hj hq (
          inv.splits j q
          ∙ ap (λ l. l ++ w.rest j q) e
          ∙ append_assoc before (release (ranks i) cell value ∷ after) (w.rest j q)) in
        inv.wrote j q s v hj hq (c, subst (Elem (transfer c)) (sym e) (Elem-append_left _ mc), h)
          mean

    -- Where the access is no publish, nothing changes for the step grids.
    pub met_on :
        ((cell value : ℕ)
          → op ≡ acquire cell value
          → w.step_pad (ranks i) cell ≡ value × (w.step_pad (ranks i) cell ≢ pad0 (ranks i) cell))
        → (j q cell value : ℕ) → j < g
        → q < n
        → Elem (acquire cell value) (extend done i p op j q)
        → Released g n ranks progs (extend done i p op) (ranks j) cell value
    met_on waited j q cell value hj hq m = elim (extend-cases done i p op j q m) [
      | inl m' ↦ more-Released (ranks j) cell value (inv.met j q cell value hj hq m')
      | inr (ej, eq, e) ↦
          let (holds, moved) = waited cell value (sym e) in
          more-Released (ranks j) cell value (
            subst (λ x. Released g n ranks progs done (ranks x) cell value) (sym ej)
              (elim (inv.signed (ranks i) cell) [
                | inl same ↦ absurd (moved same)
                | inr r ↦ subst (λ x. Released g n ranks progs done (ranks i) cell x) holds r
              ]))
    ]

    pub signed_on :
        (rank cell : ℕ)
        → (w.step_pad rank cell ≡ pad0 rank cell)
          ⊎ Released g n ranks progs (extend done i p op) rank cell (w.step_pad rank cell)
    signed_on rank cell = elim (inv.signed rank cell) [
      | inl e ↦ inl e
      | inr r ↦ inr (more-Released rank cell _ r)
    ]

    pub kept_on :
        ((rank cell value : ℕ) → op ≢ release rank cell value)
        → (rank cell value : ℕ) → Released g n ranks progs (extend done i p op) rank cell value
        → Released g n ranks progs (extend done i p op) rank cell (w.step_pad rank cell)
    kept_on other rank cell value r =
        more-Released rank cell _
          (inv.kept rank cell value (old-Released rank cell value (other rank cell value) r))
