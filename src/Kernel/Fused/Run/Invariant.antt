-- ===== src/Kernel/Fused/Run/Invariant.antt =====
-- The invariant of a fused run: what each program has done so far, and what is in memory and in the
-- step grids because of it.
use group_free_collectives.Base.{ℕ, ◌<◌, ◌≡◌, refl, sym, subst, ◌⊎◌, inl, inr, List, [], ◌∷◌, ◌++◌}
use group_free_collectives.Base.Membership.{
  Elem, here, there, Elem-append_left, Elem-append_right, append-Elem,
}
use group_free_collectives.Kernel.Family.{set2, set2-cases, set2-same}
use group_free_collectives.Kernel.Memory.{Memory}
use group_free_collectives.Kernel.Fused.Run.{Access, release, acquire, Launched, launched}
use group_free_collectives.Kernel.Fused.Run.Discipline.{Wrote, Pristine}

-- Accesses done, one more of program p of member i.
abbrev pub extend : (ℕ → ℕ → List Access) → ℕ → ℕ → Access → ℕ → ℕ → List Access
extend done i p op = set2 done i p (done i p ++ op ∷ [])

module _ (done : ℕ → ℕ → List Access) (i p : ℕ) (op : Access) where
  pub extend-kept : (j q : ℕ) {x : Access} → Elem x (done j q) → Elem x (extend done i p op j q)
  extend-kept j q {x} m = elim (set2-cases done i p (done i p ++ op ∷ []) j q) [
    | inl (ej, eq, e) ↦
        subst (Elem x) (sym e) (Elem-append_left (op ∷ []) (subst (Elem x) (rw (ej, eq) refl) m))
    | inr (off, e) ↦ subst (Elem x) (sym e) m
  ]

  pub extend-added : Elem op (extend done i p op i p)
  extend-added =
      subst (Elem op) (sym (set2-same done i p (done i p ++ op ∷ [])))
        (Elem-append_right (done i p) (here refl))

  pub extend-cases :
      (j q : ℕ) {x : Access}
      → Elem x (extend done i p op j q)
      → Elem x (done j q) ⊎ ((j ≡ i) × (q ≡ p) × (x ≡ op))
  extend-cases j q {x} m = elim (set2-cases done i p (done i p ++ op ∷ []) j q) [
    | inl (ej, eq, e) ↦ elim (append-Elem (done i p) (op ∷ []) (subst (Elem x) e m)) [
      | inl old ↦ inl (subst (Elem x) (rw (ej, eq) refl) old)
      | inr (here new) ↦ inr (ej, eq, new)
      | inr (there none) ↦ elim none [ ]
    ]
    | inr (off, e) ↦ inl (subst (Elem x) e m)
  ]

module _ (g n : ℕ) (ranks : ℕ → ℕ) (progs : ℕ → ℕ → List Access) where
  abbrev pub Released : (ℕ → ℕ → List Access) → ℕ → ℕ → ℕ → Type 0
  Released done rank cell value =
      (j : ℕ) × (q : ℕ) × (j < g) × (q < n) × Elem (release rank cell value) (done j q)

  module _ (m0 : Memory) (pad0 : ℕ → ℕ → ℕ) (Meant : ℕ → ℕ → Type 0) where
    pub record Inv (done : ℕ → ℕ → List Access) (w : Launched) : Type 0 where
      pub splits : (i p : ℕ) → progs i p ≡ done i p ++ w.rest i p
      pub wrote : (i p a v : ℕ) → i < g → p < n → Wrote a (done i p) → Meant a v → w.mem a ≡ v
      pub untouched : (a : ℕ) → Pristine g n ranks progs a → w.mem a ≡ m0 a
      pub signed :
          (rank cell : ℕ)
          → (w.step_pad rank cell ≡ pad0 rank cell) ⊎ Released done rank cell (w.step_pad rank cell)
      pub met :
          (i p cell value : ℕ)
          → i < g
          → p < n
          → Elem (acquire cell value) (done i p)
          → Released done (ranks i) cell value
      pub kept :
          (rank cell value : ℕ)
          → Released done rank cell value
          → Released done rank cell (w.step_pad rank cell)

    pub launched-Inv : Inv (λ i p. []) (launched progs m0 pad0)
    launched-Inv = record {
      splits = λ i p. refl;
      wrote = λ i p a v hi hp (c, m, h) mean. elim m [ ];
      untouched = λ a h. refl;
      signed = λ rank cell. inl refl;
      met = λ i p cell value hi hp m. elim m [ ];
      kept = λ rank cell value (j, q, hj, hq, m). elim m [ ];
    }
