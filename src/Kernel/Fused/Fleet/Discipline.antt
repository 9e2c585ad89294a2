-- ===== src/Kernel/Fused/Fleet/Discipline.antt =====
-- The programs of a fleet keep to the discipline of a run, and every wait of theirs is served.
use group_free_collectives.Base.{
  ℕ, ◌*◌, ◌/◌, ◌%◌, ◌<◌, ◌≡◌, ◌≢◌, sym, ap, ap₂, subst, ◌∙◌, List, ◌∷◌, ◌++◌, arith, false, leb,
}
use group_free_collectives.Base.Membership.{Elem, Elem-split}
use group_free_collectives.Kernel.Memory.{Memory, Copy}
use group_free_collectives.Kernel.Fused.{FusedArgs, n_chunks, step_cell, step_value}
use group_free_collectives.Kernel.Fused.Run.{Access, release, acquire}
use group_free_collectives.Kernel.Fused.Run.Discipline.{IsDisciplined, IsServed}
use group_free_collectives.Kernel.Fused.Programs.{
  Place, staging, posting, waiting, pulling, posted-Elem,
}
use group_free_collectives.Kernel.Fused.Fleet.{
  IsGeometry, member, window, IsPlaced, progs, IsStaging, Meant, IsFresh,
}
use group_free_collectives.Kernel.Fused.Fleet.Aims.{chunk-inside}
use group_free_collectives.Kernel.Fused.Fleet.Copying
use group_free_collectives.Kernel.Fused.Fleet.Feeds

pub lt→leb_false : {x y : ℕ} → x < y → leb y x ≡ false
lt→leb_false h = ground arith

module _ (a : FusedArgs) (ins outs widths ranks cb_ptrs : ℕ → ℕ) (staged : ℕ)
    (stage : ℕ → ℕ → ℕ → List Copy) (piece : ℕ → ℕ) (m0 : Memory) (geometry : IsGeometry a)
    (placed : IsPlaced a ins outs widths ranks cb_ptrs staged)
    (staging_ok : IsStaging a ins outs widths ranks cb_ptrs staged stage piece) where
  abbrev prog : ℕ → ℕ → List Access
  prog = progs a ins outs widths ranks cb_ptrs staged stage piece

  abbrev win : ℕ → ℕ
  win = window a ins outs widths ranks cb_ptrs

  abbrev Aim : ℕ → ℕ → Type 0
  Aim = Meant a ins outs widths ranks cb_ptrs staged stage piece m0

  abbrev At : ℕ → ℕ → List Access → Access → Type 0
  At i p pre x =
      Place (member a ins outs widths ranks cb_ptrs i) ranks cb_ptrs (stage i) (piece i) p pre x

  place :
      (i p : ℕ) (pre post : List Access) (x : Access) → prog i p ≡ pre ++ x ∷ post → At i p pre x
  place =
      Copying.place a ins outs widths ranks cb_ptrs staged stage piece m0 geometry placed staging_ok

  module _ (n : ℕ) (pad0 : ℕ → ℕ → ℕ) where
    module _ (fresh : IsFresh a ins outs widths ranks cb_ptrs pad0) where
      -- A wait is for a peer's chunk.
      acquire-peer :
          (i p cell value : ℕ)
          → Elem (acquire cell value) (prog i p)
          → (k : ℕ) × (lane : ℕ) × (k < n_chunks a (p / 2))
            × (lane < a.group_size)
            × (lane ≢ i)
            × (p % 2 ≢ 0)
            × (cell ≡ step_cell a (p / 2) k (ranks lane))
            × (value ≡ step_value a k)
      unfolding step_cell step_value
      acquire-peer i p cell value m =
          let (pre, post, e) = Elem-split m in
          elim (place i p pre post _ e) [
            | staging k d lt m same ↦ absurd (cc)
            | posting k lane lt peer same told ↦ absurd (cc)
            | pulling k d lt m same told ↦ absurd (cc)
            | waiting k lane lt peer odd same ↦ (k, lane, lt, peer.0, peer.1, odd, (cc), (cc))
          ]

      pub fleet-IsDisciplined : IsDisciplined a.group_size n ranks prog m0 pad0 Aim
      fleet-IsDisciplined = record {
        feeds =
            Feeds.feeds a ins outs widths ranks cb_ptrs staged stage piece m0 geometry placed
              staging_ok n pad0;
        fresh = λ i p cell value hi hp m old.
            let (k, lane, lt, hl, other, odd, ec, ev) = acquire-peer i p cell value m in
            fresh i lane (p / 2) k hi hl (omega (arith, geometry.few_chunks (p / 2)))
              (sym (ap (pad0 (ranks i)) ec) ∙ old ∙ ev);
      }

      release-own :
          (i p rank cell value : ℕ)
          → Elem (release rank cell value) (prog i p)
          → (k : ℕ) × (lane : ℕ) × (k < n_chunks a (p / 2))
            × (cell ≡ step_cell a (p / 2) k (ranks i))
            × (value ≡ step_value a k)
      unfolding step_cell step_value
      release-own i p rank cell value m =
          let (pre, post, e) = Elem-split m in
          elim (place i p pre post _ e) [
            | staging k d lt m same ↦ absurd (cc)
            | waiting k lane lt peer odd same ↦ absurd (cc)
            | pulling k d lt m same told ↦ absurd (cc)
            | posting k lane lt peer same told ↦ (k, lane, lt, (cc), (cc))
          ]

      module _ (even_grid : n % 2 ≡ 0) where
        -- The sender of the peer's channel publishes what is waited for.
        Elem-server :
            (i lane p k : ℕ)
            → i < a.group_size
            → lane < a.group_size
            → lane ≢ i
            → k < n_chunks a (p / 2)
            → Elem
                (release (ranks i) (step_cell a (p / 2) k (ranks lane)) (step_value a k))
                (prog lane (2 * (p / 2)))
        unfolding step_cell step_value
        Elem-server i lane p k hi hl other lt =
            let q = 2 * (p / 2) in
            let at : q / 2 ≡ p / 2 = omega arith in
            let lt' : k < n_chunks a (q / 2) = subst (λ ch. k < n_chunks a ch) (sym at) lt in
            subst
              (λ ch.
                Elem (release (ranks i) (step_cell a ch k (ranks lane)) (step_value a k))
                  (prog lane q))
              at
              (posted-Elem (member a ins outs widths ranks cb_ptrs lane) ranks cb_ptrs (stage lane)
                (piece lane) q k lt'
                (lt→leb_false (chunk-inside a (q / 2) k geometry.chunk_pos lt')) (omega arith) i
                (hi, λ s. other (sym s)) (omega (arith, geometry.lanes_fit)))

        pub fleet-IsServed : IsServed a.group_size n ranks prog m0 pad0 Aim
        fleet-IsServed = record {
          server = λ i p cell value hi hp m.
              let (k, lane, lt, hl, other, odd, ec, ev) = acquire-peer i p cell value m in
              (
                lane,
                2 * (p / 2),
                hl,
                omega arith,
                subst (λ x. Elem x (prog lane (2 * (p / 2)))) (sym (ap₂ (release (ranks i)) ec ev))
                    (Elem-server i lane p k hi hl other lt),
                λ cell' value' m'.
                    let (k', lane', lt', hl', other', odd', ec', ev') =
                      acquire-peer lane (2 * (p / 2)) cell' value' m' in
                    odd' (omega arith),
              );
          single = λ i p j q rank cell value value' hi hp hj hq m m'.
              let (k, lane, lt, ec, ev) = release-own i p rank cell value m in
              let (k', lane', lt', ec', ev') = release-own j q rank cell value' m' in
              let (ech, ek, ej) =
                Copying.same_chunk a ins outs widths ranks cb_ptrs staged stage piece m0 geometry
                  placed staging_ok i (p / 2) k j q k' hi hj lt lt' (sym ec ∙ ec') in
              ev ∙ ap (step_value a) ek ∙ sym ev';
        }
