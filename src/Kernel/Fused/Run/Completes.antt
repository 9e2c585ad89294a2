-- ===== src/Kernel/Fused/Run/Completes.antt =====
-- Disciplined programs that are served can always be run to their end.
use group_free_collectives.Base.{
  ℕ, zero, suc, ◌+◌, ◌<◌, ◌≡◌, refl, subst, List, [], ◌∷◌, length, arith,
}
use group_free_collectives.Kernel.Memory.{Memory}
use group_free_collectives.Kernel.Fused.Run.{Access, Launched, Reach, later, Finished, launched}
use group_free_collectives.Kernel.Fused.Run.Discipline.{IsDisciplined, IsServed}
use group_free_collectives.Kernel.Fused.Run.Progress.{Reach-Goes}
use group_free_collectives.Kernel.Fused.Run.Length.{
  remaining, Step-falls, sum_below, sum_below-some, sum_below-none,
}

longer : (xs : List Access) → 0 < length xs → (x : Access) × (rest : List Access) × (xs ≡ x ∷ rest)
longer [] h = absurd (omega arith)
longer (x ∷ xs) h = (x, xs, refl)

empty : (xs : List Access) → length xs ≡ 0 → xs ≡ []
empty [] h = refl
empty (x ∷ xs) h = absurd (omega arith)

module _ (g n : ℕ) (ranks : ℕ → ℕ) (progs : ℕ → ℕ → List Access) (m0 : Memory) (pad0 : ℕ → ℕ → ℕ)
    (Meant : ℕ → ℕ → Type 0) (disciplined : IsDisciplined g n ranks progs m0 pad0 Meant)
    (served : IsServed g n ranks progs m0 pad0 Meant) where
  abbrev Ends : ℕ → Type 0
  Ends k = (v : Launched) × Reach g n ranks (launched progs m0 pad0) k v × Finished g n ranks v

  completes :
      (left : ℕ) {k : ℕ} {w : Launched}
      → remaining g n w ≡ left
      → Reach g n ranks (launched progs m0 pad0) k w
      → Ends (k + left)
  completes zero {k} {w} e reach = (
    w,
    subst (λ x. Reach g n ranks (launched progs m0 pad0) x w) (omega arith) reach,
    λ i p hi hp. empty (w.rest i p) (
        sum_below-none n (λ q. length (w.rest i q))
          (sum_below-none g (λ j. sum_below n (λ q. length (w.rest j q))) e i hi) p hp),
  )
  completes (suc left) {k} {w} e reach =
      let (i, hi, some_i) =
        sum_below-some g (λ j. sum_below n (λ q. length (w.rest j q))) (omega arith) in
      let (p, hp, some_p) = sum_below-some n (λ q. length (w.rest i q)) some_i in
      let (op, ops, at) = longer (w.rest i p) some_p in
      let (v, step) =
        Reach-Goes g n ranks progs m0 pad0 Meant disciplined served reach i p op ops hi hp at in
      subst Ends (omega arith)
        (completes left (omega (arith, Step-falls g n ranks step)) (later reach step))

  -- From every state that a run reaches, a run goes on to the end of all programs.
  pub Reach-Completes :
      {k : ℕ} {w : Launched}
      → Reach g n ranks (launched progs m0 pad0) k w
      → (v : Launched) × Reach g n ranks (launched progs m0 pad0) (k + remaining g n w) v
        × Finished g n ranks v
  Reach-Completes reach = completes _ refl reach
