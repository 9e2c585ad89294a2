-- ===== src/Kernel/Fused/Run/Keeps.antt =====
-- Every step of disciplined programs keeps the invariant of a run.
use group_free_collectives.Base.{
  ℕ, ◌<◌, ◌≡◌, ◌≢◌, refl, sym, subst, ◌∙◌, ◌⊎◌, inl, inr, List, [], ◌∷◌,
}
use group_free_collectives.Base.Membership.{Elem, here, Elem-append_right}
use group_free_collectives.Kernel.Family.{set2, set2-cases}
use group_free_collectives.Kernel.Memory.{Memory, Copy, Writes, store, store-cases}
use group_free_collectives.Kernel.Fused.Run.{
  Access, transfer, release, acquire, Launched, transferred, released, acquired, Reach, start,
  later, launched,
}
use group_free_collectives.Kernel.Fused.Run.Discipline.{IsDisciplined}
use group_free_collectives.Kernel.Fused.Run.Invariant.{
  extend, extend-added, extend-cases, Released, Inv, launched-Inv,
}
use group_free_collectives.Kernel.Fused.Run.Extends.{
  placed, splits_on, old-Wrote, old-Released, more-Released, Supplied-value, met_on, signed_on,
  kept_on,
}

transfer-injective : {c d : Copy} → transfer c ≡ transfer d → c ≡ d
transfer-injective e = cc

module _ (g n : ℕ) (ranks : ℕ → ℕ) (progs : ℕ → ℕ → List Access) (m0 : Memory) (pad0 : ℕ → ℕ → ℕ)
    (Meant : ℕ → ℕ → Type 0) (disciplined : IsDisciplined g n ranks progs m0 pad0 Meant) where
  transfer-Inv :
      (done : ℕ → ℕ → List Access) (w : Launched)
      → Inv g n ranks progs m0 pad0 Meant done w
      → (i p : ℕ) (c : Copy) (ops : List Access) → i < g
      → p < n
      → w.rest i p ≡ transfer c ∷ ops
      → Inv g n ranks progs m0 pad0 Meant
          (extend done i p (transfer c))
          (record { mem = store c w.mem; step_pad = w.step_pad; rest = set2 w.rest i p ops })
  transfer-Inv done w inv i p c ops hi hp at = record {
    splits = splits_on g n ranks progs m0 pad0 Meant done w inv i p (transfer c) ops hi hp at;
    wrote = λ j q a v hj hq (d, m, h) mean. elim (store-cases c w.mem a) [
      | inl (hit, e) ↦
          e
          ∙ Supplied-value g n ranks progs m0 pad0 Meant done w inv i p (transfer c) ops hi hp at _
              v
              (disciplined.feeds i p (done i p) ops c a v hi hp
                (placed g n ranks progs m0 pad0 Meant done w inv i p (transfer c) ops hi hp at) hit
                mean)
      | inr (miss, e) ↦ elim (extend-cases done i p (transfer c) j q m) [
        | inl m' ↦ e ∙ inv.wrote j q a v hj hq (d, m', h) mean
        | inr (ej, eq, same) ↦ absurd (miss (subst (Writes a) (transfer-injective same) h))
      ]
    ];
    untouched = λ a clean. elim (store-cases c w.mem a) [
      | inl (hit, e) ↦ absurd (
          clean i p hi hp (
            c,
            subst (Elem (transfer c))
                (sym
                  (placed g n ranks progs m0 pad0 Meant done w inv i p (transfer c) ops hi hp at))
                (Elem-append_right (done i p) (here refl)),
            hit,
          ))
      | inr (miss, e) ↦ e ∙ inv.untouched a clean
    ];
    signed = signed_on g n ranks progs m0 pad0 Meant done w inv i p (transfer c) ops hi hp at;
    met =
        met_on g n ranks progs m0 pad0 Meant done w inv i p (transfer c) ops hi hp at
          (λ cell value e. absurd (cc));
    kept =
        kept_on g n ranks progs m0 pad0 Meant done w inv i p (transfer c) ops hi hp at
          (λ rank cell value e. absurd (cc));
  }

  acquire-Inv :
      (done : ℕ → ℕ → List Access) (w : Launched)
      → Inv g n ranks progs m0 pad0 Meant done w
      → (i p cell value : ℕ) (ops : List Access) → i < g
      → p < n
      → w.rest i p ≡ acquire cell value ∷ ops
      → w.step_pad (ranks i) cell ≡ value
      → Inv g n ranks progs m0 pad0 Meant
          (extend done i p (acquire cell value))
          (record { mem = w.mem; step_pad = w.step_pad; rest = set2 w.rest i p ops })
  acquire-Inv done w inv i p cell value ops hi hp at holds = record {
    splits = splits_on g n ranks progs m0 pad0 Meant done w inv i p op ops hi hp at;
    wrote = λ j q a v hj hq h mean.
        inv.wrote j q a v hj hq
          (old-Wrote g n ranks progs m0 pad0 Meant done w inv i p op ops hi hp at
            (λ c e. absurd (cc)) j q a h)
          mean;
    untouched = inv.untouched;
    signed = signed_on g n ranks progs m0 pad0 Meant done w inv i p op ops hi hp at;
    met = met_on g n ranks progs m0 pad0 Meant done w inv i p op ops hi hp at waited;
    kept =
        kept_on g n ranks progs m0 pad0 Meant done w inv i p op ops hi hp at
          (λ rank cell value e. absurd (cc));
  }
    where
      op : Access
      op = acquire cell value

      waited :
          (cell' value' : ℕ)
          → acquire cell value ≡ acquire cell' value'
          → (w.step_pad (ranks i) cell' ≡ value')
            × (w.step_pad (ranks i) cell' ≢ pad0 (ranks i) cell')
      waited cell' value' e =
          let now : w.step_pad (ranks i) cell' ≡ value' = cc in
          (
            now,
            λ old.
                disciplined.fresh i p cell' value' hi hp
                  (subst (Elem (acquire cell' value'))
                    (sym (placed g n ranks progs m0 pad0 Meant done w inv i p op ops hi hp at))
                    (Elem-append_right (done i p) (here (sym e))))
                  (sym old ∙ now),
          )

  release-Inv :
      (done : ℕ → ℕ → List Access) (w : Launched)
      → Inv g n ranks progs m0 pad0 Meant done w
      → (i p rank cell value : ℕ) (ops : List Access) → i < g
      → p < n
      → w.rest i p ≡ release rank cell value ∷ ops
      → Inv g n ranks progs m0 pad0 Meant (extend done i p (release rank cell value)) (record {
        mem = w.mem;
        step_pad = set2 w.step_pad rank cell value;
        rest = set2 w.rest i p ops;
      })
  release-Inv done w inv i p rank cell value ops hi hp at = record {
    splits = splits_on g n ranks progs m0 pad0 Meant done w inv i p op ops hi hp at;
    wrote = λ j q a v hj hq h mean.
        inv.wrote j q a v hj hq
          (old-Wrote g n ranks progs m0 pad0 Meant done w inv i p op ops hi hp at
            (λ c e. absurd (cc)) j q a h)
          mean;
    untouched = inv.untouched;
    signed = λ r x. elim (set2-cases w.step_pad rank cell value r x) [
      | inl (er, ex, e) ↦ inr (here_now r x er ex e)
      | inr (off, e) ↦
          subst (λ y. (y ≡ pad0 r x) ⊎ Released g n ranks progs (extend done i p op) r x y) (sym e)
            (signed_on g n ranks progs m0 pad0 Meant done w inv i p op ops hi hp at r x)
    ];
    met =
        met_on g n ranks progs m0 pad0 Meant done w inv i p op ops hi hp at
          (λ cell value e. absurd (cc));
    kept = λ r x v rel. elim (set2-cases w.step_pad rank cell value r x) [
      | inl (er, ex, e) ↦ here_now r x er ex e
      | inr (off, e) ↦ subst (Released g n ranks progs (extend done i p op) r x) (sym e) (
          more-Released g n ranks progs m0 pad0 Meant done w inv i p op ops hi hp at r x _ (
            inv.kept r x v (
              old-Released g n ranks progs m0 pad0 Meant done w inv i p op ops hi hp at r x v
                (λ same. off (cc, cc)) rel)))
    ];
  }
    where
      op : Access
      op = release rank cell value

      here_now :
          (r x : ℕ)
          → r ≡ rank
          → x ≡ cell
          → set2 w.step_pad rank cell value r x ≡ value
          → Released g n ranks progs (extend done i p op) r x (set2 w.step_pad rank cell value r x)
      here_now r x er ex e = (
        i,
        p,
        hi,
        hp,
        subst (λ o. Elem o (extend done i p op i p)) (cc) (extend-added done i p op),
      )

  pub Reach-Inv :
      {k : ℕ} {w : Launched}
      → Reach g n ranks (launched progs m0 pad0) k w
      → (done : ℕ → ℕ → List Access) × Inv g n ranks progs m0 pad0 Meant done w
  Reach-Inv start = ((λ i p. []), launched-Inv g n ranks progs m0 pad0 Meant)
  Reach-Inv (later r (transferred i p hi hp at)) =
      let (done, inv) = Reach-Inv r in (_, transfer-Inv done _ inv i p _ _ hi hp at)
  Reach-Inv (later r (released i p hi hp at)) =
      let (done, inv) = Reach-Inv r in (_, release-Inv done _ inv i p _ _ _ _ hi hp at)
  Reach-Inv (later r (acquired i p hi hp at holds)) =
      let (done, inv) = Reach-Inv r in (_, acquire-Inv done _ inv i p _ _ _ hi hp at holds)
