-- ===== src/Runtime/PointToPoint/Transfer.antt =====
-- What a point-to-point call that returns has enqueued, for each role of each protocol.
use group_free_collectives.Base.{
  ℕ, ◌<◌, ◌≡◌, refl, sym, ap, Bool, true, false, ◌&&◌, ltb, leb, ◌==◌, if◌then◌else◌, Option, none,
  some, List, [], ◌∷◌, arith, Outcome, ok, err, check, assertion_error,
}
use group_free_collectives.Hash.{compute_token}
use group_free_collectives.Group.{GroupDescriptor, is_member}
use group_free_collectives.Group.Epochs.{next_pair_for_collective}
use group_free_collectives.Kernel.Memory.{Copy}
use group_free_collectives.Kernel.Strided.{Apart}
use group_free_collectives.Kernel.Width.{vec_for}
use group_free_collectives.Kernel.Pull.{launch_pull_copy}
use group_free_collectives.Kernel.Pull.Raw.{MovesOne, launch_pull_copy-MovesOne}
use group_free_collectives.Kernel.CopyEngine.{Enqueued, launch_p2p_copy_engine}
use group_free_collectives.Kernel.Tma.{default_tile_bytes, launch_p2p_copy_tma}
use group_free_collectives.Kernel.Raw.{
  launch_p2p_copy_engine-MovesOne, launch_p2p_copy_tma-MovesOne,
}
use group_free_collectives.Runtime.State.{
  Setup, Tensor, State, Act, ingest, kernel, barrier_launch, lift, demand, pure, enqueue, continue,
  ◌>>=◌, ◌>>◌,
}
use group_free_collectives.Runtime.Registry.{register_group, deref}
use group_free_collectives.Runtime.Registry.Cycle.{register_group-ops}
use group_free_collectives.Runtime.Layout.{or_else}
use group_free_collectives.Runtime.Paths.{barrier_on, take_pair, launch_kernel, launch_copies}
use group_free_collectives.Runtime.Collectives.{group_ranks_row}
use group_free_collectives.Runtime.Collectives.Atomic.{Quiet, demand-Quiet, bind-passed}
use group_free_collectives.Runtime.Collectives.Locked.{row-Quiet}
use group_free_collectives.Runtime.PointToPoint.{
  Role, Protocol, dereferenced, p2p_copy, p2p_body, stage_of_sender, unload, p2p_protocol,
}

-- Inversion of an action that returned.
pub bind-returned :
    {A B : Type 0} (m : Act A) (k : A → Act B) (s : State) {b : B} {s' : State}
    → (m >>= k) s ≡ (ok b, s')
    → (a : A) × (t : State) × (m s ≡ (ok a, t)) × (k a t ≡ (ok b, s'))
bind-returned {A} {B} m k s {b} {s'} h = go (m s) refl h
  where
    go :
        (r : Outcome A × State)
        → m s ≡ r
        → continue r k ≡ (ok b, s')
        → (a : A) × (t : State) × (m s ≡ (ok a, t)) × (k a t ≡ (ok b, s'))
    go (ok a, t) e h = (a, t, e, h)
    go (err x, t) e h = absurd (cc)

kernel-returned :
    (launched : Outcome (List Copy)) (u : State) {u' : State}
    → launch_kernel launched u ≡ (ok tt, u')
    → (cs : List Copy) × (launched ≡ ok cs) × (u' ≡ record u { ops = kernel cs ∷ u.ops })
kernel-returned (ok cs) u h = (cs, refl, sym (ap (λ r. r.1) h))
kernel-returned (err e) u h = absurd (cc)

copies-returned :
    (launched : Enqueued) (u : State) {u' : State}
    → launch_copies launched u ≡ (ok tt, u')
    → (launched.1 ≡ ok tt) × (u' ≡ record u { ops = kernel launched.0 ∷ u.ops })
copies-returned (cs, r) u h = (ap (λ r. r.0) h, sym (ap (λ r. r.1) h))

-- A kernel was enqueued that moves the bytes.
abbrev pub Moved : ℕ → ℕ → ℕ → State → State → Type 0
Moved src dst n u u' =
    (cs : List Copy) × (u' ≡ record u { ops = kernel cs ∷ u.ops }) × MovesOne src dst n cs

module _ (rt : Setup) (src dst n : ℕ) (sms_pos : 0 < rt.num_sms) (apart : Apart src n dst n) where
  pub p2p_copy-Moved :
      (tma_ok : Bool) (u : State) {u' : State}
      → p2p_copy rt src dst n tma_ok u ≡ (ok tt, u')
      → Moved src dst n u u'
  unfolding p2p_copy
  p2p_copy-Moved tma_ok u {u'} h = by_engine rt.copy_engine_enabled h
    where
      by_tma :
          (b : Bool)
          → launch_kernel
              (if b
                then launch_p2p_copy_tma src dst n rt.num_sms default_tile_bytes
                else launch_pull_copy src dst n (vec_for (src ∷ dst ∷ []) n) rt.copy_sms)
              u
            ≡ (ok tt, u')
          → Moved src dst n u u'
      by_tma true h =
          let (cs, e, at) = kernel-returned _ u h in
          (
            cs,
            at,
            launch_p2p_copy_tma-MovesOne src dst n rt.num_sms default_tile_bytes e sms_pos
                (omega arith) apart,
          )
      by_tma false h =
          let (cs, e, at) = kernel-returned _ u h in
          (cs, at, launch_pull_copy-MovesOne src dst n _ rt.copy_sms e apart)

      by_engine :
          (b : Bool)
          → (if b
                then launch_copies (launch_p2p_copy_engine rt.memcpy src dst n)
                else launch_kernel (
                    if rt.tma_enabled && tma_ok
                    then launch_p2p_copy_tma src dst n rt.num_sms default_tile_bytes
                    else launch_pull_copy src dst n (vec_for (src ∷ dst ∷ []) n) rt.copy_sms))
              u
            ≡ (ok tt, u')
          → Moved src dst n u u'
      by_engine true h =
          let (e, at) = copies-returned (launch_p2p_copy_engine rt.memcpy src dst n) u h in
          (_, at, launch_p2p_copy_engine-MovesOne rt.memcpy src dst n e apart)
      by_engine false h = by_tma (rt.tma_enabled && tma_ok) h

dereferenced-Quiet : (h : ℕ) → Quiet (dereferenced h)
dereferenced-Quiet h s = go (deref h s)
  where
    go :
        (o : Option GroupDescriptor)
        → (r : Outcome GroupDescriptor) × ((elim o as (λ x. Outcome GroupDescriptor × State) [
          | none ↦
              (demand false
                  >> pure (record {
                    group_id = 0;
                    ranks = [];
                    local_index = none;
                    size = 0;
                    ranks_dev = none;
                  }))
                s
          | some d ↦ (ok d, s)
        ])
            ≡ (r, s))
    go none = (_, refl)
    go (some d) = (_, refl)

-- A barrier that was launched is one more entry.
pub barrier-returned :
    (group : GroupDescriptor) (row : List ℕ) (token : ℕ) (k : Unit {0} → Act (Unit {0})) (u : State)
    {s' : State}
    → (barrier_on group row token >>= k) u ≡ (ok tt, s')
    → k tt (record u { ops = barrier_launch row group.size token ∷ u.ops }) ≡ (ok tt, s')
unfolding barrier_on
barrier-returned group row token k u h = go (ltb 0 group.size) h
  where
    go :
        (b : Bool) {s' : State}
        → continue
            ((lift (check b assertion_error) >>= λ _. enqueue (barrier_launch row group.size token))
              u)
            k
          ≡ (ok tt, s')
        → k tt (record u { ops = barrier_launch row group.size token ∷ u.ops }) ≡ (ok tt, s')
    go true h = h
    go false h = absurd (cc)

module _ (rt : Setup) (src_rank dst_rank : ℕ) (t : Tensor) (role : Role) (protocol : Protocol)
    (requested : Option ℕ) where
  abbrev nbytes : ℕ
  nbytes = or_else requested t.nbytes

  -- What the protocol does once its group is known.
  abbrev exchange : GroupDescriptor → List ℕ → ℕ × ℕ → Act (Unit {0})
  exchange group row pair = do
    stage_of_sender rt role t nbytes
    barrier_on group row (compute_token rt.session_nonce group.group_id pair.0)
    p2p_body rt role protocol src_rank dst_rank t nbytes
    barrier_on group row (compute_token rt.session_nonce group.group_id pair.1)
    unload rt role protocol t nbytes

  -- A call that returned has checked its tensor, and handed it over before the exchange.
  pub protocol-returned :
      (s : State) {s' : State}
      → p2p_protocol rt src_rank dst_rank t role protocol requested s ≡ (ok tt, s')
      → (group : GroupDescriptor) × (row : List ℕ) × (pair : ℕ × ℕ) × (u : State) × (u.ops
          ≡ ingest (t.data_ptr ∷ []) ∷ s.ops)
        × (exchange group row pair u ≡ (ok tt, s'))
  unfolding p2p_protocol take_pair next_pair_for_collective
  protocol-returned s h =
      let (u1, p1, h1) =
        bind-passed (demand (t.is_cuda && t.device == rt.device)) _ (demand-Quiet _) h in
      let (u2, p2, h2) = bind-passed (demand t.is_contiguous) _ (demand-Quiet _) h1 in
      let (u3, p3, h3) =
        bind-passed (demand (ltb 0 nbytes && leb nbytes t.nbytes)) _ (demand-Quiet _) h2 in
      let (u4, p4, h4) =
        bind-passed (demand (leb nbytes rt.config.max_collective_bytes)) _ (demand-Quiet _) h3 in
      let (handle, s1, registered, h5) =
        bind-returned (register_group rt (src_rank ∷ dst_rank ∷ []) none) _ s h4 in
      let (group, found, h6) = bind-passed (dereferenced handle) _ (dereferenced-Quiet handle) h5 in
      let (u7, p7, h7) = bind-passed (demand (is_member group)) _ (demand-Quiet _) h6 in
      let (row, p8, h8) = bind-passed (group_ranks_row rt group) _ (row-Quiet rt group) h7 in
      (
        group,
        row,
        _,
        _,
        ap (λ ops. ingest (t.data_ptr ∷ []) ∷ ops)
            (register_group-ops rt (src_rank ∷ dst_rank ∷ []) none s registered),
        h8,
      )
