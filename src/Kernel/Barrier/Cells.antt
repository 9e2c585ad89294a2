-- ===== src/Kernel/Barrier/Cells.antt =====
-- The signal cells of a world: different edges and slots have different cells, and sending a token
-- keeps the last two.
use native.Mathlib.Numerals.{add-one}
use group_free_collectives.Base.{
  ℕ, zero, suc, ◌+◌, ◌%◌, ◌≤◌, ◌<◌, ◌≡◌, inl, inr, refl, ◌∙◌, subst, ℕ_discrete, arith, sym,
}
use group_free_collectives.Kernel.Barrier.{cell}
use group_free_collectives.Kernel.Family.{set2, set2-cases, set2-same, set2-other}
use group_free_collectives.Kernel.Barrier.Invariant.{Cells}

-- Two cells of one buffer are the same word only if slot and rank are the same.
pub cell-injective :
    (world_size s t a b : ℕ)
    → s < 2
    → t < 2
    → a < world_size
    → b < world_size
    → cell world_size s a ≡ cell world_size t b
    → (s ≡ t) × (a ≡ b)
cell-injective W zero zero a b hs ht ha hb e = (refl, omega arith)
cell-injective W zero (suc zero) a b hs ht ha hb e = absurd (omega arith)
cell-injective W (suc zero) zero a b hs ht ha hb e = absurd (omega arith)
cell-injective W (suc zero) (suc zero) a b hs ht ha hb e = (refl, omega arith)
cell-injective W (suc (suc s)) t a b hs ht ha hb e = absurd (omega arith)
cell-injective W zero (suc (suc t)) a b hs ht ha hb e = absurd (omega arith)
cell-injective W (suc zero) (suc (suc t)) a b hs ht ha hb e = absurd (omega arith)

module _ (world_size : ℕ) (token : ℕ → ℕ → ℕ → ℕ) (buf count : ℕ → ℕ → ℕ) where
  module _ (h : Cells world_size token buf count) (r p : ℕ) (hr : r < world_size) where
    sent_buf : ℕ → ℕ → ℕ
    sent_buf = set2 buf p (cell world_size (count r p % 2) r) (token r p (count r p))

    -- A cell of another edge, or of the other slot, keeps its word.
    kept :
        (x y n : ℕ)
        → x < world_size
        → n < 2
        → ¬ ((n ≡ count r p % 2) × (x ≡ r) × (y ≡ p))
        → sent_buf y (cell world_size n x) ≡ buf y (cell world_size n x)
    unfolding sent_buf
    kept x y n hx hn off = set2-other buf p _ _ y _ λ at.
        let e = cell-injective world_size n (count r p % 2) x r hn (omega arith) hx hr at.1 in
        off (e.0, e.1, at.0)

    full_at :
        (n : ℕ)
        → p < world_size
        → n < suc (count r p)
        → suc (count r p) ≤ n + 2
        → sent_buf p (cell world_size (n % 2) r) ≡ token r p n
    unfolding sent_buf
    full_at n hp lt le = elim (ℕ_discrete n (count r p)) [
      | yes e ↦ rw e (set2-same buf p _ _)
      | no ne ↦
          kept r p (n % 2) hr (omega arith) (λ e. ground arith)
          ∙ h.full r p n hr hp (omega arith) (omega arith)
    ]

    fresh_at :
        (n : ℕ)
        → p < world_size
        → suc (count r p) ≤ n
        → n < 2
        → sent_buf p (cell world_size n r) ≡ 0
    fresh_at n hp le lt = kept r p n hr lt (λ e. omega arith) ∙ h.fresh r p n hr hp (omega arith) lt

    -- Sending the next token of an edge keeps the cells.
    pub Cells-send :
        Cells world_size token
          (set2 buf p (cell world_size (count r p % 2) r) (token r p (count r p)))
          (set2 count r p (suc (count r p)))
    unfolding sent_buf
    Cells-send = record {
      full = λ x y n hx hy lt le. elim (set2-cases count r p (suc (count r p)) x y) [
        | inl at ↦
            rw (at.0, at.1)
              (full_at n (subst (λ q. q < world_size) at.1 hy) (subst (λ c. n < c) at.2 lt)
                (subst (λ c. c ≤ n + 2) at.2 le))
        | inr off ↦
            kept x y (n % 2) hx (omega arith) (λ e. off.0 (e.1, e.2))
            ∙ h.full x y n hx hy (subst (λ c. n < c) off.1 lt) (subst (λ c. c ≤ n + 2) off.1 le)
      ];
      fresh = λ x y n hx hy le lt. elim (set2-cases count r p (suc (count r p)) x y) [
        | inl at ↦
            rw (at.0, at.1)
              (fresh_at n (subst (λ q. q < world_size) at.1 hy) (subst (λ c. c ≤ n) at.2 le) lt)
        | inr off ↦
            kept x y n hx lt (λ e. off.0 (e.1, e.2))
            ∙ h.fresh x y n hx hy (subst (λ c. c ≤ n) off.1 le) lt
      ];
    }

    -- The same, for a program whose variables hold the slot and the number of the token.
    pub Cells-send_at :
        (n slot : ℕ)
        → count r p ≡ n
        → slot ≡ n % 2
        → Cells world_size token
            (set2 buf p (cell world_size slot r) (token r p n))
            (set2 count r p (n + 1))
    Cells-send_at n slot e es = rw (es, sym e, add-one) Cells-send
