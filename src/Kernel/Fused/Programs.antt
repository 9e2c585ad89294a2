-- ===== src/Kernel/Fused/Programs.antt =====
-- The accesses of the two programs of a channel: what stands where.
use mathlib.Core.List.{append-nil}
use mathlib.Core.Path.{fun_ext}
use group_free_collectives.Base.{
  ℕ, ◌/◌, ◌%◌, ◌≤◌, ◌<◌, ◌≡◌, ◌≢◌, refl, sym, ap, subst, ◌∙◌, inl, inr, true, false, List, [], ◌∷◌,
  ◌++◌, map, arith, leb, ◌==◌, range, if◌then◌else◌, Bool-cases,
}
use group_free_collectives.Base.Membership.{
  concat_map, Elem, here, Elem-append_left, Elem-append_right, append-split, concat_map-split,
  concat_map-append, concat_map-concat_map, Elem-concat_map, Elem-range, range-lt, Elem-map,
  map-Elem,
}
use group_free_collectives.Kernel.Memory.{Copy}
use group_free_collectives.Kernel.Fused.{
  FusedOp, FusedArgs, copies, partition_off, n_chunks, publish_step, await_step, pull_chunk, sender,
  receiver,
}
use group_free_collectives.Kernel.Fused.Run.{Access, transfer, accesses}
use group_free_collectives.Kernel.Fused.Lanes.{
  IsPeer, posts, waits, post, wait, posts-Elem, waits-Elem, Elem-posts, Elem-waits,
}

not-split : (pre post : List Access) (x : Access) → ¬ ([] ≡ pre ++ x ∷ post)
not-split [] post x e = cc
not-split (y ∷ pre) post x e = cc

module _ (a : FusedArgs) (ranks cb_ptrs : ℕ → ℕ) where
  -- The programs of either kernel: what a sender stages, and where a receiver's piece lies.
  module _ (stage : ℕ → ℕ → List Copy) (piece_off : ℕ) where
    abbrev pub program : ℕ → List FusedOp
    program pid =
        let channel = pid / 2 in
        if leb a.slice_bytes (partition_off a channel)
        then []
        else if pid % 2 == 0
        then sender a ranks cb_ptrs stage channel
        else receiver a ranks cb_ptrs piece_off channel

    abbrev pub pulls : ℕ → ℕ → List Copy
    pulls channel k = pull_chunk a ranks cb_ptrs piece_off channel k

    -- What stands behind `pre` in program `pid`.
    pub data Place (pid : ℕ) (pre : List Access) (x : Access) : Type 0 where
      staging :
          (k : ℕ) (c : Copy)
          → k < n_chunks a (pid / 2)
          → Elem c (stage (pid / 2) k)
          → x ≡ transfer c
          → Place pid pre x
      posting :
          (k lane : ℕ)
          → k < n_chunks a (pid / 2)
          → IsPeer a ranks cb_ptrs lane
          → x ≡ post a ranks cb_ptrs (pid / 2) k lane
          → ((c : Copy) → Elem c (stage (pid / 2) k) → Elem (transfer c) pre)
          → Place pid pre x
      waiting :
          (k lane : ℕ)
          → k < n_chunks a (pid / 2)
          → IsPeer a ranks cb_ptrs lane
          → pid % 2 ≢ 0
          → x ≡ wait a ranks cb_ptrs (pid / 2) k lane
          → Place pid pre x
      pulling :
          (k : ℕ) (c : Copy)
          → k < n_chunks a (pid / 2)
          → Elem c (pulls (pid / 2) k)
          → x ≡ transfer c
          → ((lane : ℕ)
              → IsPeer a ranks cb_ptrs lane
              → Elem (wait a ranks cb_ptrs (pid / 2) k lane) pre)
          → Place pid pre x

    sender_chunk : ℕ → ℕ → List Access
    sender_chunk channel k = map transfer (stage channel k) ++ posts a ranks cb_ptrs channel k

    receiver_chunk : ℕ → ℕ → List Access
    receiver_chunk channel k = waits a ranks cb_ptrs channel k ++ map transfer (pulls channel k)

    sender-chunks :
        (channel : ℕ)
        → concat_map accesses (sender a ranks cb_ptrs stage channel)
          ≡ concat_map (sender_chunk channel) (range (n_chunks a channel))
    unfolding sender sender_chunk
    sender-chunks channel =
        concat_map-concat_map accesses
          (λ k. copies (stage channel k) ∷ publish_step a ranks cb_ptrs channel k)
          (range (n_chunks a channel))

    receiver-chunks :
        (channel : ℕ)
        → concat_map accesses (receiver a ranks cb_ptrs piece_off channel)
          ≡ concat_map (receiver_chunk channel) (range (n_chunks a channel))
    unfolding receiver receiver_chunk
    receiver-chunks channel =
        concat_map-concat_map accesses
          (λ k. await_step a ranks cb_ptrs channel k ++ copies (pulls channel k) ∷ [])
          (range (n_chunks a channel))
        ∙ ap (λ f. concat_map f (range (n_chunks a channel)))
            (fun_ext λ k.
              concat_map-append accesses (await_step a ranks cb_ptrs channel k)
                (copies (pulls channel k) ∷ [])
              ∙ ap (λ l. waits a ranks cb_ptrs channel k ++ l)
                  (append-nil (map transfer (pulls channel k))))

    module _ (lanes_fit : a.group_size ≤ a.group_lanes) (pid : ℕ) (pre after : List Access)
        (x : Access) where
      in_sender :
          (outer inner rest : List Access) (k : ℕ)
          → k < n_chunks a (pid / 2)
          → pre ≡ outer ++ inner
          → sender_chunk (pid / 2) k ≡ inner ++ x ∷ rest
          → Place pid pre x
      unfolding sender_chunk
      in_sender outer inner rest k lt before e =
          elim (append-split (map transfer (stage (pid / 2) k)) (posts a ranks cb_ptrs (pid / 2) k)
            inner rest x e) [
              | inl (rest', e') ↦
                  let (c, m, same) =
                    map-Elem transfer (stage (pid / 2) k)
                      (subst (Elem x) (sym e') (Elem-append_right inner (here refl))) in
                  staging k c lt m same
              | inr (inner', e1, e2) ↦
                  let (lane, peer, same) =
                    posts-Elem a ranks cb_ptrs (pid / 2) k
                      (subst (Elem x) (sym e2) (Elem-append_right inner' (here refl))) in
                  posting k lane lt peer same λ c m. subst (Elem (transfer c)) (sym before) (
                    Elem-append_right outer (
                      subst (Elem (transfer c)) (sym e1)
                        (Elem-append_left inner' (Elem-map transfer m))))
            ]

      in_receiver :
          (outer inner rest : List Access) (k : ℕ)
          → k < n_chunks a (pid / 2)
          → pid % 2 ≢ 0
          → pre ≡ outer ++ inner
          → receiver_chunk (pid / 2) k ≡ inner ++ x ∷ rest
          → Place pid pre x
      unfolding receiver_chunk
      in_receiver outer inner rest k lt odd before e =
          elim (append-split (waits a ranks cb_ptrs (pid / 2) k) (map transfer (pulls (pid / 2) k))
            inner rest x e) [
              | inl (rest', e') ↦
                  let (lane, peer, same) =
                    waits-Elem a ranks cb_ptrs (pid / 2) k
                      (subst (Elem x) (sym e') (Elem-append_right inner (here refl))) in
                  waiting k lane lt peer odd same
              | inr (inner', e1, e2) ↦
                  let (c, m, same) =
                    map-Elem transfer (pulls (pid / 2) k)
                      (subst (Elem x) (sym e2) (Elem-append_right inner' (here refl))) in
                  pulling k c lt m same λ lane peer.
                    subst (Elem (wait a ranks cb_ptrs (pid / 2) k lane)) (sym before) (
                      Elem-append_right outer (
                        subst (Elem (wait a ranks cb_ptrs (pid / 2) k lane)) (sym e1) (
                          Elem-append_left inner' (
                            Elem-waits a ranks cb_ptrs (pid / 2) k lane peer
                              (let lt' = peer.0 in omega arith)))))
            ]

      pub program-Place : concat_map accesses (program pid) ≡ pre ++ x ∷ after → Place pid pre x
      program-Place e = elim (Bool-cases (leb a.slice_bytes (partition_off a (pid / 2)))) [
        | inl past ↦ absurd (not-split pre after x (rw past at e))
        | inr inside ↦ elim (Bool-cases (pid % 2 == 0)) [
          | inl even ↦
              let (k, inner, outer, rest, m, before, e') =
                concat_map-split (sender_chunk (pid / 2)) (range (n_chunks a (pid / 2))) pre after x
                  (sym (sender-chunks (pid / 2)) ∙ (rw (inside, even) at e)) in
              in_sender outer inner rest k (range-lt _ m) before e'
          | inr odd ↦
              let (k, inner, outer, rest, m, before, e') =
                concat_map-split (receiver_chunk (pid / 2)) (range (n_chunks a (pid / 2))) pre after
                  x (sym (receiver-chunks (pid / 2)) ∙ (rw (inside, odd) at e)) in
              in_receiver outer inner rest k (range-lt _ m) (λ z. ground arith) before e'
        ]
      ]

    module _ (pid k : ℕ) (lt : k < n_chunks a (pid / 2))
        (inside : leb a.slice_bytes (partition_off a (pid / 2)) ≡ false) where
      module _ (even : pid % 2 ≡ 0) where
        Elem-sender :
            {x : Access}
            → Elem x (sender_chunk (pid / 2) k)
            → Elem x (concat_map accesses (program pid))
        Elem-sender {x} m =
            let test : (pid % 2 == 0) ≡ true = ground arith in
            rw (inside, test)
              (subst (Elem x) (sym (sender-chunks (pid / 2)))
                (Elem-concat_map (sender_chunk (pid / 2)) (Elem-range _ k lt) m))

        pub staged-Elem :
            {c : Copy}
            → Elem c (stage (pid / 2) k)
            → Elem (transfer c) (concat_map accesses (program pid))
        unfolding sender_chunk
        staged-Elem m = Elem-sender (Elem-append_left _ (Elem-map transfer m))

        pub posted-Elem :
            (lane : ℕ)
            → IsPeer a ranks cb_ptrs lane
            → lane < a.group_lanes
            → Elem (post a ranks cb_ptrs (pid / 2) k lane) (concat_map accesses (program pid))
        unfolding sender_chunk
        posted-Elem lane peer fits = Elem-sender (
            Elem-append_right (map transfer (stage (pid / 2) k))
              (Elem-posts a ranks cb_ptrs (pid / 2) k lane peer fits))

      pub pulled-Elem :
          {c : Copy}
          → pid % 2 ≢ 0
          → Elem c (pulls (pid / 2) k)
          → Elem (transfer c) (concat_map accesses (program pid))
      unfolding receiver_chunk
      pulled-Elem {c} odd m =
          let test : (pid % 2 == 0) ≡ false = ground arith in
          rw (inside, test)
            (subst (Elem (transfer c)) (sym (receiver-chunks (pid / 2))) (
              Elem-concat_map (receiver_chunk (pid / 2)) (Elem-range _ k lt)
                (Elem-append_right (waits a ranks cb_ptrs (pid / 2) k) (Elem-map transfer m))))
