-- ===== src/Kernel/Fused/Fleet/Delivers.antt =====
-- What a fleet's launches leave, however their programs are interleaved.
use group_free_collectives.Base.{
  ℕ, ◌+◌, ◌*◌, ◌/◌, ◌<◌, ◌≡◌, ◌≢◌, refl, sym, ap, subst, inr, List, arith, ℕ_discrete,
}
use group_free_collectives.Base.Membership.{Elem}
use group_free_collectives.Kernel.Memory.{Memory, Copy}
use group_free_collectives.Kernel.Fused.{FusedArgs, n_chunks, pull_chunk}
use group_free_collectives.Kernel.Fused.Partition.{chunk-covers}
use group_free_collectives.Kernel.Fused.Run.{Access, Launched, Reach, Finished, launched}
use group_free_collectives.Kernel.Fused.Run.Discipline.{Wrote}
use group_free_collectives.Kernel.Fused.Run.Outcome.{Finished-Wrote, Pristine-kept}
use group_free_collectives.Kernel.Fused.Programs.{staged-Elem, pulled-Elem}
use group_free_collectives.Kernel.Fused.Fleet.{
  IsGeometry, member, window, IsPlaced, progs, IsStaging, Meant, IsFresh,
}
use group_free_collectives.Kernel.Fused.Fleet.Aims.{chunk-inside, pull_chunk-Written}
use group_free_collectives.Kernel.Fused.Fleet.Feeds.{away-Pristine}
use group_free_collectives.Kernel.Fused.Fleet.Discipline.{lt→leb_false, fleet-IsDisciplined}

module _ (a : FusedArgs) (ins outs widths ranks cb_ptrs : ℕ → ℕ) (staged : ℕ)
    (stage : ℕ → ℕ → ℕ → List Copy) (piece : ℕ → ℕ) where
  -- The memory `m` after the launches, where `m0` was the one before: each output holds the pieces
  -- of all members, in their order, and nothing else has changed but the windows.
  pub record Delivers (m0 m : Memory) : Type 0 where
    pub pieces :
        (i j x : ℕ)
        → i < a.group_size
        → j < a.group_size
        → x < a.slice_bytes
        → m (outs i + j * a.slice_bytes + x) ≡ m0 (ins j + (piece i + x))
    pub frame :
        (s : ℕ)
        → ((i y : ℕ)
            → i < a.group_size
            → y < staged
            → s ≢ window a ins outs widths ranks cb_ptrs i + y)
        → ((i z : ℕ) → i < a.group_size → z < a.group_size * a.slice_bytes → s ≢ outs i + z)
        → m s ≡ m0 s

  module _ (geometry : IsGeometry a) (widths_pos : (i : ℕ) → i < a.group_size → 0 < widths i)
      (placed : IsPlaced a ins outs widths ranks cb_ptrs staged)
      (staging_ok : IsStaging a ins outs widths ranks cb_ptrs staged stage piece) where
    abbrev prog : ℕ → ℕ → List Access
    prog = progs a ins outs widths ranks cb_ptrs staged stage piece

    -- The programs of the launched grid write every byte of every output.
    output-Wrote :
        (i j x : ℕ)
        → i < a.group_size
        → j < a.group_size
        → x < a.slice_bytes
        → (p : ℕ) × (p < 2 * a.num_channels) × Wrote (outs i + j * a.slice_bytes + x) (prog i p)
    output-Wrote i j x hi hj hx =
        let (ch, k, b, hc, hk, hb, at) =
          chunk-covers a geometry.partition_pos geometry.chunk_pos geometry.covered x hx in
        let inside : (pid : ℕ) → pid / 2 ≡ ch → (k < n_chunks a (pid / 2)) =
          λ pid e. subst (λ c. k < n_chunks a c) (sym e) hk in
        elim (ℕ_discrete j i) [
          | yes same ↦
              let (c, m, w) = staging_ok.for_self i ch k b hi hk hb in
              let half : 2 * ch / 2 ≡ ch = omega arith in
              (
                2 * ch,
                omega arith,
                (
                  c,
                  staged-Elem (member a ins outs widths ranks cb_ptrs i) ranks cb_ptrs (stage i)
                      (piece i) (2 * ch) k (inside _ half)
                      (lt→leb_false
                        (chunk-inside a (2 * ch / 2) k geometry.chunk_pos (inside _ half)))
                      (omega arith) (subst (λ t. Elem c (stage i t k)) (sym half) m),
                  omega (arith, at, ap (λ (t : ℕ). t * a.slice_bytes) same),
                ),
              )
          | no other ↦
              let (c, m, w) =
                pull_chunk-Written a ins outs widths ranks cb_ptrs (piece i) i j ch k b hi hj other
                  geometry.block_pos (widths_pos i hi) hb in
              let half : (2 * ch + 1) / 2 ≡ ch = omega arith in
              (
                2 * ch + 1,
                omega arith,
                (
                  c,
                  pulled-Elem (member a ins outs widths ranks cb_ptrs i) ranks cb_ptrs (stage i)
                      (piece i) (2 * ch + 1) k (inside _ half)
                      (lt→leb_false
                        (chunk-inside a ((2 * ch + 1) / 2) k geometry.chunk_pos (inside _ half)))
                      (omega arith)
                      (subst
                        (λ t. Elem c (
                          pull_chunk (member a ins outs widths ranks cb_ptrs i) ranks cb_ptrs
                            (piece i) t k))
                        (sym half) m),
                  omega (arith, at),
                ),
              )
        ]

    pub fleet-Delivers :
        (m0 : Memory) (pad0 : ℕ → ℕ → ℕ)
        → IsFresh a ins outs widths ranks cb_ptrs pad0
        → {steps : ℕ} {w : Launched}
        → Reach a.group_size (2 * a.num_channels) ranks (launched prog m0 pad0) steps w
        → Finished a.group_size (2 * a.num_channels) ranks w
        → Delivers m0 w.mem
    fleet-Delivers m0 pad0 fresh reach finished =
        let disciplined =
          fleet-IsDisciplined a ins outs widths ranks cb_ptrs staged stage piece m0 geometry placed
            staging_ok (2 * a.num_channels) pad0 fresh in
        let Aim = Meant a ins outs widths ranks cb_ptrs staged stage piece m0 in
        record {
          pieces = λ i j x hi hj hx.
              let (p, hp, wrote) = output-Wrote i j x hi hj hx in
              Finished-Wrote a.group_size (2 * a.num_channels) ranks prog m0 pad0 Aim disciplined
                reach finished i p (outs i + j * a.slice_bytes + x) (m0 (ins j + (piece i + x))) hi
                hp wrote (inr (i, j, x, hi, hj, hx, refl, refl));
          frame = λ s no_window no_output.
              Pristine-kept a.group_size (2 * a.num_channels) ranks prog m0 pad0 Aim disciplined
                reach s
                (away-Pristine a ins outs widths ranks cb_ptrs staged stage piece m0 geometry placed
                  staging_ok (2 * a.num_channels) pad0 s no_window no_output);
        }
