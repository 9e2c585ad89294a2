-- ===== src/Runtime/Collectives/Routes.antt =====
-- The atomicity of the routes under the lock, the autotune dispatch included.
use group_free_collectives.Base.{
  ℕ, ◌*◌, ◌≤◌, ◌<◌, ◌≡◌, ◌≢◌, ap, arith, List, Exc, err, ℕ_discrete, Bool, true, false, Option,
  some, Outcome, ok, ltb, leb, ◌==◌, ltb→lt, leb→le, cdiv, if◌then◌else◌,
}
use group_free_collectives.Config.{py_mod, fused_max_chunks_per_channel}
use group_free_collectives.Config.Laws.{IsValid}
use group_free_collectives.Autotune.{
  vec_pull, fused, tma, copy_engine, pipelined, unknown_path, Policy, Rule, Collective, get_knob,
  policy_for,
}
use group_free_collectives.Kernel.Memory.{Copy}
use group_free_collectives.Kernel.Tma.{default_tile_bytes, check_collective_tma_gates}
use group_free_collectives.Kernel.Fused.Launch.{partition_of}
use group_free_collectives.Kernel.Fused.Partition.{partition-chunks_bound}
use group_free_collectives.Runtime.State.{Setup, State, lift, demand, pure, ◌>>◌}
use group_free_collectives.Runtime.Layout.{effective_pipeline_chunks}
use group_free_collectives.Runtime.Layout.Laws.{effective_pipeline_chunks_bound}
use group_free_collectives.Runtime.Paths.{
  Call, comm_buf_offset, token, one_shot, launch_copies, launch_kernel, launch_engine, launch_tma,
  launch_pull, pipelined_shot,
}
use group_free_collectives.Runtime.Collectives.{
  check_fused_launch_capacity, preflight_tma_collective, fused_guard, channels_of, chunk_size_of,
  autotune_path_guard, dispatch, direct_body, undirected,
}
use group_free_collectives.Runtime.Collectives.Launches.{
  Succeeds, launch_engine-Refused, launch_pull-ok, launch_tma-ok, launch_fused-ok,
}
use group_free_collectives.Runtime.Collectives.Atomic.{
  Untouched, Atomic, Quiet, demand-Quiet, lift-Quiet, bind-Quiet, bind-passed, demand-passed,
  bind-Atomic, if-Atomic,
}
use group_free_collectives.Runtime.Collectives.Shots.{
  kernel_shot-Atomic, copies_shot-Atomic, fused_shot-Atomic,
}
use group_free_collectives.Runtime.Collectives.Pipeline.{pipelined_shot-Atomic}

-- A runtime whose configuration was accepted, on a device with a multiprocessor.
pub record IsSound (rt : Setup) : Type 0 where
  pub config_valid : IsValid rt.config
  pub copy_sms_pos : 0 < rt.copy_sms

-- What stops a collective after its first barrier: the driver refuses a copy, or the policy that the
-- table gave asks for 0 programs.
pub data Cause (rt : Setup) : Type 0 where
  refused : (x : Copy) → rt.memcpy x ≢ 0 → Cause rt
  no_programs :
      (rules : List Rule) (k : Collective) (g n : ℕ) (policy : Policy)
      → rt.autotune ≡ some rules
      → policy_for rules k g n ≡ some policy
      → get_knob policy.knobs.copy_sms rt.copy_sms ≡ 0
      → Cause rt

-- A policy that asks for 0 programs is a cause.
abbrev pub Excused : Setup → Policy → Type 0
Excused rt p = get_knob p.knobs.copy_sms rt.copy_sms ≡ 0 → Cause rt

never : {A : Type 0} {m : Outcome A} (C : Type 0) → Succeeds m → (e : Exc) → m ≡ err e → C
never C (a, ok_at) e h = absurd (cc)

capacity-Quiet : (rt : Setup) (n : ℕ) → Quiet (check_fused_launch_capacity rt n)
unfolding check_fused_launch_capacity
capacity-Quiet rt n =
    bind-Quiet _ _ (demand-Quiet (ltb 0 n)) (λ u. demand-Quiet (leb (2 * n) rt.num_sms))

fused_guard-Quiet : (rt : Setup) (ch cs n : ℕ) → Quiet (fused_guard rt ch cs n)
unfolding fused_guard
fused_guard-Quiet rt ch cs n = bind-Quiet _ _ (demand-Quiet (ltb 0 ch)) λ u.
    bind-Quiet _ _ (capacity-Quiet rt ch) λ u.
      bind-Quiet _ _ (demand-Quiet (leb ch rt.config.fused_num_channels)) λ u.
        bind-Quiet _ _ (demand-Quiet (ltb 0 cs)) λ u.
          bind-Quiet _ _ (lift-Quiet (py_mod cs rt.config.alignment)) λ rest.
            bind-Quiet _ _ (demand-Quiet (rest == 0)) λ u. demand-Quiet (
              leb (cdiv (partition_of n ch rt.config.alignment) cs)
                (fused_max_chunks_per_channel rt.config))

-- What a fused policy that passed its guard has.
fused_guard-passed :
    (rt : Setup) (ch cs n : ℕ) {s : State}
    → fused_guard rt ch cs n s ≡ (ok tt, s)
    → (0 < ch)
      × (0 < cs)
      × (cdiv (partition_of n ch rt.config.alignment) cs ≤ fused_max_chunks_per_channel rt.config)
unfolding fused_guard
fused_guard-passed rt ch cs n h =
    let (u1, e1, h1) = bind-passed (demand (ltb 0 ch)) _ (demand-Quiet _) h in
    let (u2, e2, h2) =
      bind-passed (check_fused_launch_capacity rt ch) _ (capacity-Quiet rt ch) h1 in
    let (u3, e3, h3) =
      bind-passed (demand (leb ch rt.config.fused_num_channels)) _ (demand-Quiet _) h2 in
    let (u4, e4, h4) = bind-passed (demand (ltb 0 cs)) _ (demand-Quiet _) h3 in
    let (rest, e5, h5) = bind-passed (lift (py_mod cs rt.config.alignment)) _ (lift-Quiet _) h4 in
    let (u6, e6, h6) = bind-passed (demand (rest == 0)) _ (demand-Quiet _) h5 in
    (
      ltb→lt 0 ch (demand-passed _ e1),
      ltb→lt 0 cs (demand-passed _ e4),
      leb→le _ _ (demand-passed _ h6),
    )

module _ (rt : Setup) (sound : IsSound rt) (c : Call) (n_pos : 0 < c.slice_bytes)
    (g_pos : 0 < c.group.size) (fits : c.slice_bytes ≤ rt.config.max_collective_bytes)
    (s0 s : State) (so_far : Untouched s0 s) where
  abbrev Goal : Outcome (Unit {0}) × State → Type 0
  Goal = Atomic (Cause rt) (token rt c) c.group.group_id s0

  -- A gate passed before a one-shot body that then does not raise.
  gated_tma-Atomic : Goal (
      (lift (
            check_collective_tma_gates c.slice_bytes comm_buf_offset c.output.data_ptr
              default_tile_bytes)
          >> one_shot rt c (launch_kernel (launch_tma rt c)))
        s)
  gated_tma-Atomic = bind-Atomic _ _ _ s0 s so_far (lift _) _ (lift-Quiet _) λ u e.
      kernel_shot-Atomic rt c g_pos s0 s so_far _ _ (never _ (launch_tma-ok rt c (ap (λ x. x.0) e)))

  engine-Atomic : Goal (one_shot rt c (launch_copies (launch_engine rt c)) s)
  engine-Atomic =
      copies_shot-Atomic rt c g_pos s0 s so_far _ _
        λ e h. let (x, nonzero) = launch_engine-Refused rt c e h in refused x nonzero

  vec-Atomic :
      (sms : ℕ)
      → (sms ≡ 0 → Cause rt)
      → Goal (one_shot rt c (launch_kernel (launch_pull rt c sms)) s)
  vec-Atomic sms why = kernel_shot-Atomic rt c g_pos s0 s so_far _ _ λ e h.
      elim (ℕ_discrete sms 0) [
        | yes zero_sms ↦ why zero_sms
        | no some_sms ↦ never _ (launch_pull-ok rt c sms n_pos g_pos (omega arith)) e h
      ]

  chunked-Atomic :
      (axis : ℕ) (override : Option ℕ)
      → Goal (pipelined_shot rt c (effective_pipeline_chunks rt axis override) s)
  chunked-Atomic axis override =
      let (some_chunk, few) = effective_pipeline_chunks_bound rt axis override sound.config_valid in
      pipelined_shot-Atomic rt c _ sound.config_valid n_pos g_pos sound.copy_sms_pos some_chunk few
        s0 s so_far (Cause rt)

  direct-Atomic :
      (tma_on engine_on : Bool)
      → Goal (
          ((if tma_on then preflight_tma_collective rt c.slice_bytes c.output.data_ptr else pure tt)
              >> one_shot rt c (
                  if engine_on
                  then launch_copies (launch_engine rt c)
                  else launch_kernel
                      (if tma_on then launch_tma rt c else launch_pull rt c rt.copy_sms)))
            s)
  unfolding preflight_tma_collective
  direct-Atomic true false = gated_tma-Atomic
  direct-Atomic true true =
      bind-Atomic _ _ _ s0 s so_far (lift gates) _ (lift-Quiet gates) λ u e. engine-Atomic
    where
      gates : Outcome (Unit {0})
      gates =
          check_collective_tma_gates c.slice_bytes comm_buf_offset c.output.data_ptr
            default_tile_bytes
  direct-Atomic false true = engine-Atomic
  direct-Atomic false false =
      vec-Atomic rt.copy_sms (λ z. absurd (omega (arith, sound.copy_sms_pos)))

  pub undirected-Atomic :
      (axis : ℕ) (override : Option ℕ)
      → Goal (undirected rt c (effective_pipeline_chunks rt axis override) s)
  unfolding undirected direct_body preflight_tma_collective
  undirected-Atomic axis override =
      if-Atomic _ _ _ s0 s so_far rt.config.enable_fused_path _ _
        (λ e. bind-Atomic _ _ _ s0 s so_far _ _ (capacity-Quiet rt _) λ u p.
          fused_shot-Atomic rt c g_pos s0 s so_far _ _ _ λ base.
            launch_fused-ok rt c _ _ base n_pos g_pos sound.config_valid.channels_pos
              sound.config_valid.chunk_pos
              (partition-chunks_bound rt.config c.slice_bytes _ sound.config_valid
                sound.config_valid.channels_pos fits))
        (λ e.
          if-Atomic _ _ _ s0 s so_far (leb (effective_pipeline_chunks rt axis override) 1) _ _
            (λ p. direct-Atomic rt.tma_enabled rt.copy_engine_enabled)
            (λ p. chunked-Atomic axis override))

  pub dispatch-Atomic : (policy : Policy) → Excused rt policy → Goal (dispatch rt c policy s)
  unfolding dispatch autotune_path_guard preflight_tma_collective
  dispatch-Atomic policy excused =
      elim policy.path as (λ path. Goal (dispatch rt c (record policy { path = path }) s)) [
        | vec_pull ↦ vec-Atomic _ excused
        | unknown_path name ↦ vec-Atomic _ excused
        | copy_engine ↦ engine-Atomic
        | pipelined ↦
            if-Atomic _ _ _ s0 s so_far
              (leb
                (effective_pipeline_chunks rt c.slice_bytes
                  (some (get_knob policy.knobs.pipeline_chunks 2)))
                1)
              _ _ (λ e. vec-Atomic _ excused)
              (λ e. chunked-Atomic c.slice_bytes (some (get_knob policy.knobs.pipeline_chunks 2)))
        | tma ↦
            bind-Atomic _ _ _ s0 s so_far (demand rt.tma_enabled >> lift gates) _
              (bind-Quiet _ _ (demand-Quiet rt.tma_enabled) (λ u. lift-Quiet gates))
              λ u e.
                let (v, on, passed) =
                  bind-passed (demand rt.tma_enabled) (λ w. lift gates)
                    (demand-Quiet rt.tma_enabled) e in
                kernel_shot-Atomic rt c g_pos s0 s so_far _ _
                  (never _ (launch_tma-ok rt c (ap (λ x. x.0) passed)))
        | fused ↦
            bind-Atomic _ _ _ s0 s so_far _ _
              (fused_guard-Quiet rt (channels_of rt policy) (chunk_size_of rt policy) c.slice_bytes)
              λ u e.
                let (ch_pos, cs_pos, bound) =
                  fused_guard-passed rt (channels_of rt policy) (chunk_size_of rt policy)
                    c.slice_bytes e in
                fused_shot-Atomic rt c g_pos s0 s so_far _ _ _
                  λ base. launch_fused-ok rt c _ _ base n_pos g_pos ch_pos cs_pos bound
      ]
    where
      gates : Outcome (Unit {0})
      gates =
          check_collective_tma_gates c.slice_bytes comm_buf_offset c.output.data_ptr
            default_tile_bytes
