-- ===== src/Kernel/Fused/Fleet/Feeds.antt =====
-- What the copies of a fleet's programs read has been written, and is what is meant.
use group_free_collectives.Base.{
  ℕ, ◌+◌, ◌-◌, ◌*◌, ◌/◌, ◌<◌, ◌≡◌, ◌≢◌, sym, ap, subst, ◌∙◌, inl, inr, List, ◌∷◌, ◌++◌, arith,
}
use group_free_collectives.Base.Membership.{Elem, Elem-split}
use group_free_collectives.Kernel.Memory.{Memory, Copy, Writes}
use group_free_collectives.Kernel.Fused.{
  FusedArgs, n_chunks, this_chunk, base_byte, step_cell, step_value,
}
use group_free_collectives.Kernel.Fused.Run.{Access, transfer, release, acquire}
use group_free_collectives.Kernel.Fused.Run.Discipline.{Pristine, Fed, Supplied}
use group_free_collectives.Kernel.Fused.Programs.{staging, posting, waiting, pulling}
use group_free_collectives.Kernel.Fused.Fleet.{
  IsGeometry, window, IsPlaced, progs, Stages, IsStaging, Meant,
}
use group_free_collectives.Kernel.Fused.Fleet.Aims.{
  base_byte-end, window-value, output-value, Pulls,
}
use group_free_collectives.Kernel.Fused.Fleet.Copying.{place, Writes-aims, At-Copies, same_chunk}

release-cell : {r c v r' c' v' : ℕ} → release r c v ≡ release r' c' v' → c ≡ c'
release-cell e = cc

module _ (a : FusedArgs) (ins outs widths ranks cb_ptrs : ℕ → ℕ) (staged : ℕ)
    (stage : ℕ → ℕ → ℕ → List Copy) (piece : ℕ → ℕ) (m0 : Memory) (geometry : IsGeometry a)
    (placed : IsPlaced a ins outs widths ranks cb_ptrs staged)
    (staging_ok : IsStaging a ins outs widths ranks cb_ptrs staged stage piece) where
  abbrev prog : ℕ → ℕ → List Access
  prog = progs a ins outs widths ranks cb_ptrs staged stage piece

  abbrev win : ℕ → ℕ
  win = window a ins outs widths ranks cb_ptrs

  abbrev Aim : ℕ → ℕ → Type 0
  Aim = Meant a ins outs widths ranks cb_ptrs staged stage piece m0

  module _ (n : ℕ) (pad0 : ℕ → ℕ → ℕ) where
    -- What no window and no output holds, no program writes.
    pub away-Pristine :
        (s : ℕ)
        → ((i y : ℕ) → i < a.group_size → y < staged → s ≢ win i + y)
        → ((i z : ℕ) → i < a.group_size → z < a.group_size * a.slice_bytes → s ≢ outs i + z)
        → Pristine a.group_size n ranks prog s
    away-Pristine s no_window no_output j q hj hq (c, m, h) =
        let (pre, post, e) = Elem-split m in
        elim (Writes-aims a ins outs widths ranks cb_ptrs staged stage piece m0 geometry placed
          staging_ok j q pre c s hj
          (At-Copies a ins outs widths ranks cb_ptrs staged stage piece m0 geometry placed
            staging_ok j q pre c hj
            (place a ins outs widths ranks cb_ptrs staged stage piece m0 geometry placed staging_ok
              j q pre post _ e))
          h) [ inl (y, hy, at) ↦ no_window j y hj hy at | inr (z, hz, at) ↦ no_output j z hj hz at ]

    input-Pristine :
        (i y : ℕ) → i < a.group_size → y < staged → Pristine a.group_size n ranks prog (ins i + y)
    input-Pristine i y hi hy =
        away-Pristine (ins i + y) (λ j z hj hz. placed.input_window i j y z hi hj hy hz)
          (λ j z hj hz. placed.input_output i j y z hi hj hy hz)

    -- A publish of a chunk's cell is the publisher's of that chunk, after all of its staging.
    post-staged :
        (i j channel k j' q : ℕ) (before after : List Access)
        → i < a.group_size
        → j < a.group_size
        → j' < a.group_size
        → k < n_chunks a channel
        → prog j' q
          ≡ before ++ release (ranks i) (step_cell a channel k (ranks j)) (step_value a k) ∷ after
        → (c : Copy) → Elem c (stage j channel k)
        → Elem (transfer c) before
    unfolding step_cell step_value
    post-staged i j channel k j' q before after hi hj hj' lt e c m =
        elim (place a ins outs widths ranks cb_ptrs staged stage piece m0 geometry placed staging_ok
          j' q before after _ e) [
            | staging k' d lt' m' same ↦ absurd (cc)
            | waiting k' lane lt' peer odd same ↦ absurd (cc)
            | pulling k' d lt' m' same told ↦ absurd (cc)
            | posting k' lane lt' peer same told ↦
                let (ech, ek, ej) =
                  same_chunk a ins outs widths ranks cb_ptrs staged stage piece m0 geometry placed
                    staging_ok j channel k j' q k' hj hj' lt lt' (release-cell same) in
                told c (
                  subst (Elem c)
                    (ap (λ t. stage t channel k) ej
                      ∙ ap (λ t. stage j' t k) ech
                      ∙ ap (λ t. stage j' (q / 2) t) ek)
                    m)
          ]

    -- A staging copy reads input, which is what its destination is meant to hold.
    Stages-value :
        (i : ℕ) (c : Copy) (s v : ℕ)
        → i < a.group_size
        → Stages a ins outs widths ranks cb_ptrs staged stage piece i c
        → Writes s c
        → Aim s v
        → Pristine a.group_size n ranks prog (c.src + (s - c.dst)) × (m0 (c.src + (s - c.dst)) ≡ v)
    Stages-value i c s v hi (inl (y, fits, from, to)) h mean =
        let y' = y + (s - c.dst) in
        let hy : y' < staged = omega arith in
        let source : c.src + (s - c.dst) ≡ ins i + y' = omega arith in
        let at : s ≡ win i + y' = omega arith in
        let value =
          window-value a ins outs widths ranks cb_ptrs staged placed stage piece m0 i y' v hi hy
            (subst (λ x. Aim x v) at mean) in
        (
          subst (Pristine a.group_size n ranks prog) (sym source) (input-Pristine i y' hi hy),
          ap m0 source ∙ sym value,
        )
    Stages-value i c s v hi (inr (x, fits, from, to)) h mean =
        let x' = x + (s - c.dst) in
        let hx : x' < a.slice_bytes = omega arith in
        let hy : piece i + x' < staged = omega (arith, staging_ok.pieces_fit i hi) in
        let source : c.src + (s - c.dst) ≡ ins i + (piece i + x') = omega arith in
        let at : s ≡ outs i + i * a.slice_bytes + x' = omega arith in
        let value =
          output-value a ins outs widths ranks cb_ptrs staged placed stage piece m0 i i x' v hi hi
            hx (subst (λ x. Aim x v) at mean) in
        (
          subst (Pristine a.group_size n ranks prog) (sym source)
              (input-Pristine i (piece i + x') hi hy),
          ap m0 source ∙ sym value,
        )

    -- A pull reads a peer's window, after the wait for that peer's publish of the chunk.
    Pulls-Supplied :
        (i p k : ℕ) (pre : List Access) (c : Copy) (s v : ℕ)
        → i < a.group_size
        → k < n_chunks a (p / 2)
        → Pulls a ins outs widths ranks cb_ptrs (piece i) i (p / 2) k c
        → ((lane : ℕ)
            → (lane < a.group_size) × (lane ≢ i)
            → Elem (acquire (step_cell a (p / 2) k (ranks lane)) (step_value a k)) pre)
        → Writes s c
        → Aim s v
        → Aim (c.src + (s - c.dst)) v × Fed a.group_size n ranks prog i pre (c.src + (s - c.dst))
    Pulls-Supplied i p k pre c s v hi lt (j, o, hj, other, fits, from, to) told h mean =
        let b = o + (s - c.dst) in
        let hb : b < this_chunk a (p / 2) k = omega arith in
        let x' = base_byte a (p / 2) k + b in
        let hx : x' < a.slice_bytes =
          omega (arith, base_byte-end a (p / 2) k geometry.chunk_pos lt) in
        let hy : piece i + x' < staged = omega (arith, staging_ok.pieces_fit i hi) in
        let source : c.src + (s - c.dst) ≡ win j + (piece i + x') = omega arith in
        let at : s ≡ outs i + j * a.slice_bytes + x' = omega arith in
        let value =
          output-value a ins outs widths ranks cb_ptrs staged placed stage piece m0 i j x' v hi hj
            hx (subst (λ x. Aim x v) at mean) in
        let (d, m, w) = staging_ok.for_peers j i (p / 2) k b hj hi lt hb in
        (
          inl (j, piece i + x', hj, hy, source, value),
          (
            step_cell a (p / 2) k (ranks j),
            step_value a k,
            told j (hj, other),
            λ j' q before after hj' hq e. (
              d,
              post-staged i j (p / 2) k j' q before after hi hj hj' lt e d m,
              subst (λ x. Writes x d) (sym source) w,
            ),
          ),
        )

    pub feeds :
        (i p : ℕ) (pre post : List Access) (c : Copy) (s v : ℕ)
        → i < a.group_size
        → p < n
        → prog i p ≡ pre ++ transfer c ∷ post
        → Writes s c
        → Aim s v
        → Supplied a.group_size n ranks prog m0 pad0 Aim i pre (c.src + (s - c.dst)) v
    feeds i p pre post c s v hi hp e h mean =
        elim (At-Copies a ins outs widths ranks cb_ptrs staged stage piece m0 geometry placed
          staging_ok i p pre c hi
          (place a ins outs widths ranks cb_ptrs staged stage piece m0 geometry placed staging_ok i
            p pre post _ e)) [
              | inl (k, lt, m, stages) ↦ inl (Stages-value i c s v hi stages h mean)
              | inr (k, lt, pulls, told) ↦
                  inr (Pulls-Supplied i p k pre c s v hi lt pulls told h mean)
            ]
