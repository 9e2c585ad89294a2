-- ===== src/Runtime/Collectives/Pipeline.antt =====
-- The atomicity of the pipelined path.
use group_free_collectives.Base.{
  length-range_from, ℕ, ◌+◌, ◌≤◌, ◌<◌, ◌≡◌, refl, sym, ap, subst, ◌∙◌, arith, true, Option, none,
  some, List, [], ◌∷◌, length, range_from, ok, lt→ltb, le→leb, insert,
}
use group_free_collectives.Config.Laws.{IsValid}
use group_free_collectives.Group.Epochs.{
  Epochs, peek, next_for_barrier, next_many, peek-insert_same, peek-insert_other,
}
use group_free_collectives.Runtime.State.{State, Setup, fork}
use group_free_collectives.Runtime.Layout.{chunk_layout}
use group_free_collectives.Runtime.Layout.Laws.{Covers, chunk_layout-Covers}
use group_free_collectives.Runtime.Paths.{
  Call, barrier_on, take_many, take_epoch, token, pipelined_shot,
}
use group_free_collectives.Runtime.Collectives.Atomic.{
  barrier_tokens, guarded, handed, Issued, Untouched, Atomic, Descends,
}
use group_free_collectives.Runtime.Collectives.ChunkLog.{
  rev_onto, bar, next_many-range, range-Descends, chunk_log, chunk_log-append, chunk_log-tokens,
  chunk_log-guarded, each_chunk-eq,
}

module _ (rt : Setup) (c : Call) (chunks : ℕ) (v : IsValid rt.config) (n_pos : 0 < c.slice_bytes)
    (g_pos : 0 < c.group.size) (sms_pos : 0 < rt.copy_sms) (some_chunk : 0 < chunks)
    (few : chunks ≤ rt.config.max_pipeline_chunks) (s0 s : State) (so_far : Untouched s0 s) where
  abbrev gid : ℕ
  gid = c.group.group_id

  abbrev pub layout : List (ℕ × ℕ)
  layout =
      (chunk_layout-Covers c.slice_bytes chunks rt.config.alignment n_pos some_chunk
        v.alignment_power).0

  layout-eq : chunk_layout c.slice_bytes chunks rt.config.alignment ≡ ok layout
  layout-eq =
      (chunk_layout-Covers c.slice_bytes chunks rt.config.alignment n_pos some_chunk
        v.alignment_power).1

  pub covers : Covers rt.config.alignment c.slice_bytes 0 layout
  covers =
      (chunk_layout-Covers c.slice_bytes chunks rt.config.alignment n_pos some_chunk
        v.alignment_power).2

  pub layout_few : length layout ≤ rt.config.max_pipeline_chunks
  layout_few = omega (
    arith,
    (chunk_layout-Covers c.slice_bytes chunks rt.config.alignment n_pos some_chunk
        v.alignment_power).3,
  )

  abbrev count : ℕ
  count = length layout

  abbrev pub epochs_of : List ℕ
  epochs_of = (next_many count gid s.epochs).0

  abbrev pub reserved : Epochs
  reserved = (next_many count gid s.epochs).1

  abbrev pub post : ℕ
  post = peek gid reserved

  abbrev pub low : ℕ
  low = peek gid s.epochs

  pub epochs-eq : epochs_of ≡ range_from low count
  epochs-eq = (next_many-range count gid s.epochs).0

  pub post-eq : post ≡ low + count
  post-eq = (next_many-range count gid s.epochs).1

  same_length : length epochs_of ≡ length layout
  same_length = ap length epochs-eq ∙ length-range_from count low

  abbrev pub after : State
  after = record s {
    epochs = insert gid (post + 1) reserved;
    ops = bar rt c post ∷ chunk_log rt c layout epochs_of (fork ∷ s.ops);
  }

  pub pipelined-eq : pipelined_shot rt c chunks s ≡ (ok tt, after)
  unfolding pipelined_shot take_many take_epoch barrier_on next_for_barrier
  pipelined-eq = rw layout-eq (
      rw (le→leb count rt.config.max_pipeline_chunks layout_few) (
        rw
          (each_chunk-eq rt c g_pos sms_pos rt.config.alignment layout epochs_of 0
            (record s { epochs = insert gid (post + 1) reserved; ops = fork ∷ s.ops }) same_length
            covers)
          (rw (lt→ltb 0 c.group.size g_pos) refl)))

  pipelined-Issued : Issued (token rt c) gid s0 after
  unfolding barrier_tokens guarded
  pipelined-Issued = record {
    added = bar rt c post ∷ chunk_log rt c layout epochs_of (fork ∷ handed so_far.tensors);
    used = post ∷ rev_onto epochs_of [];
    log =
        ap (λ ops. bar rt c post ∷ ops)
          (ap (λ ops. chunk_log rt c layout epochs_of (fork ∷ ops)) so_far.log
            ∙ chunk_log-append rt c layout epochs_of (fork ∷ handed so_far.tensors) s0.ops);
    tokens =
        ap (λ ts. token rt c post ∷ ts)
          (chunk_log-tokens rt c layout epochs_of [] (fork ∷ handed so_far.tensors) same_length
            (quiet so_far.tensors));
    fresh = (
      omega (arith, peek-insert_same gid (post + 1) reserved),
      subst (λ es. Descends post (rev_onto es []) (peek gid s0.epochs)) (sym epochs-eq)
          (subst (λ (x : ℕ). Descends x (rev_onto (range_from low count) []) (peek gid s0.epochs))
            (sym post-eq)
            (range-Descends count low (peek gid s0.epochs) []
              (omega (arith, ap (peek gid) so_far.epochs)))),
    );
    closes = refl;
    guards =
        chunk_log-guarded rt c layout epochs_of (fork ∷ handed so_far.tensors)
          (safe so_far.tensors);
    others = λ other h.
        peek-insert_other gid other (post + 1) reserved h
        ∙ (next_many-range count gid s.epochs).2 other h
        ∙ ap (peek other) so_far.epochs;
    registry = so_far.registry;
  }
    where
      quiet : (t : Option (List ℕ)) → barrier_tokens (fork ∷ handed t) ≡ []
      quiet none = refl
      quiet (some ps) = refl

      safe : (t : Option (List ℕ)) → guarded (fork ∷ handed t) ≡ true
      safe none = refl
      safe (some ps) = refl

  pub pipelined_shot-Atomic :
      (Cause : Type 0) → Atomic Cause (token rt c) gid s0 (pipelined_shot rt c chunks s)
  pipelined_shot-Atomic Cause =
      subst (Atomic Cause (token rt c) gid s0) (sym pipelined-eq) pipelined-Issued
