-- ===== src/Kernel/Fused/Run/Outcome.antt =====
-- What disciplined programs leave, in whatever order their accesses happened.
use group_free_collectives.Base.{ℕ, ◌<◌, ◌≡◌, subst, ◌∙◌, ap, List, ◌++◌}
use mathlib.Core.List.{append-nil}
use group_free_collectives.Kernel.Memory.{Memory}
use group_free_collectives.Kernel.Fused.Run.{Access, Launched, Reach, Finished, launched}
use group_free_collectives.Kernel.Fused.Run.Discipline.{Wrote, Pristine, IsDisciplined}
use group_free_collectives.Kernel.Fused.Run.Keeps.{Reach-Inv}

module _ (g n : ℕ) (ranks : ℕ → ℕ) (progs : ℕ → ℕ → List Access) (m0 : Memory) (pad0 : ℕ → ℕ → ℕ)
    (Meant : ℕ → ℕ → Type 0) (disciplined : IsDisciplined g n ranks progs m0 pad0 Meant) {k : ℕ}
    {w : Launched} (reach : Reach g n ranks (launched progs m0 pad0) k w) where
  -- Once all programs have ended, each byte that one of them writes has the value that is meant.
  pub Finished-Wrote :
      Finished g n ranks w
      → (i p a v : ℕ) → i < g
      → p < n
      → Wrote a (progs i p)
      → Meant a v
      → w.mem a ≡ v
  Finished-Wrote finished i p a v hi hp h mean =
      let (done, inv) = Reach-Inv g n ranks progs m0 pad0 Meant disciplined reach in
      let whole : progs i p ≡ done i p =
        inv.splits i p ∙ ap (λ l. done i p ++ l) (finished i p hi hp) ∙ append-nil (done i p) in
      inv.wrote i p a v hi hp (subst (Wrote a) whole h) mean

  -- A byte that no program writes keeps its value.
  pub Pristine-kept : (a : ℕ) → Pristine g n ranks progs a → w.mem a ≡ m0 a
  Pristine-kept a clean =
      let (done, inv) = Reach-Inv g n ranks progs m0 pad0 Meant disciplined reach in
      inv.untouched a clean
