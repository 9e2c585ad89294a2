-- ===== src/Runtime/Collectives/Unchunked.antt =====
-- What the two collectives do under the lock where neither table, fused path nor chunking applies:
-- from a run that returns to the bytes that its work moves.
use group_free_collectives.Base.{
  ℕ, ◌<◌, ◌≡◌, sym, ap, subst, Bool, true, false, none, some, List, [], ◌∷◌, arith, leb, ◌==◌,
  if◌then◌else◌, Option, Bool-cases, inl, inr, Outcome, ok, ok-injective, some-injective, ◌∙◌,
  length, require, >>=-ok,
}
use group_free_collectives.Autotune.{Rule, Policy, Collective}
use group_free_collectives.Runtime.Collectives.Locked.{row-Quiet}
use group_free_collectives.Group.{GroupDescriptor, descriptor_check}
use group_free_collectives.Runtime.State.{State, Setup, Tensor, Act, ingest, demand, pure, ◌>>◌}
use group_free_collectives.Runtime.Layout.{effective_pipeline_chunks}
use group_free_collectives.Runtime.Paths.{Call, one_shot}
use group_free_collectives.Runtime.Collectives.{
  direct_body, undirected, locked, preflight_tma_collective, group_ranks_row,
}
use group_free_collectives.Runtime.Collectives.Atomic.{Quiet, lift-Quiet, bind-passed}
use group_free_collectives.Runtime.Collectives.Delivers.{
  Route, by_pull, by_tma, by_engine, IsCall, OutputApart, Delivers, one_shot-Delivers,
}

-- The arms that two tests leave.
second_arm :
    (a b d : Act (Unit {0})) (fused one : Bool) {s : State} {r : Outcome (Unit {0}) × State}
    → fused ≡ false
    → one ≡ true
    → (if fused then a else if one then b else d) s ≡ r
    → b s ≡ r
second_arm a b d false true e f h = h
second_arm a b d true one e f h = absurd (cc)
second_arm a b d false false e f h = absurd (cc)

pub third_arm :
    (a b d : Act (Unit {0})) (fused one : Bool) {s : State} {r : Outcome (Unit {0}) × State}
    → fused ≡ false
    → one ≡ false
    → (if fused then a else if one then b else d) s ≡ r
    → d s ≡ r
third_arm a b d false false e f h = h
third_arm a b d true one e f h = absurd (cc)
third_arm a b d false true e f h = absurd (cc)

module _ (rt : Setup) (c : Call) where
  direct_body-Route : Route rt c (direct_body rt c)
  unfolding direct_body
  direct_body-Route = elim (Bool-cases rt.copy_engine_enabled) [
    | inl e ↦ rw e by_engine
    | inr e ↦ elim (Bool-cases rt.tma_enabled) [
      | inl t ↦ rw (e, t) by_tma
      | inr t ↦ rw (e, t) (by_pull rt.copy_sms)
    ]
  ]

  gate-Quiet : Quiet (
      if rt.tma_enabled
      then preflight_tma_collective rt c.slice_bytes c.output.data_ptr
      else pure tt)
  unfolding preflight_tma_collective
  gate-Quiet = elim (Bool-cases rt.tma_enabled) [
    | inl e ↦ rw e (lift-Quiet _)
    | inr e ↦ rw e (lift-Quiet (ok tt))
  ]

  pub undirected-Delivers :
      {s s' : State} (chunks : ℕ)
      → (call : IsCall rt c) → 0 < rt.num_sms
      → OutputApart rt c
      → rt.config.enable_fused_path ≡ false
      → leb chunks 1 ≡ true
      → undirected rt c chunks s ≡ (ok tt, s')
      → Delivers rt c s s'
  unfolding undirected
  undirected-Delivers {s} {s'} chunks call sms_pos apart unfused one h =
      let direct = second_arm _ _ _ rt.config.enable_fused_path (leb chunks 1) unfused one h in
      let (u, gate, e) =
        bind-passed
          (if rt.tma_enabled
            then preflight_tma_collective rt c.slice_bytes c.output.data_ptr
            else pure tt)
          (λ _. one_shot rt c (direct_body rt c)) gate-Quiet direct in
      one_shot-Delivers rt c call s sms_pos apart direct_body-Route e

-- Without a table no policy applies.
untabled :
    (table : Option (List Rule)) (pick : List Rule → Option Policy) (a : Act (Unit {0}))
    (d : Policy → Act (Unit {0})) {s : State} {r : Outcome (Unit {0}) × State}
    → table ≡ none
    → (elim (elim table as (λ x. Option Policy) [ none ↦ none | some rules ↦ pick rules ])
          as (λ x. Act (Unit {0})) [ none ↦ a | some p ↦ d p ])
        s
      ≡ r
    → a s ≡ r
untabled none pick a d e h = h
untabled (some rules) pick a d e h = absurd (cc)

pub size-length :
    (group : GroupDescriptor) → descriptor_check group ≡ ok tt → group.size ≡ length group.ranks
unfolding descriptor_check
size-length group h =
    let (u, e, h1) = >>=-ok (require (group.size == length group.ranks)) _ h in ground arith

module _ (rt : Setup) where
  row_value :
      (o : Option (List ℕ)) {row ranks : List ℕ} {s : State}
      → o ≡ some ranks
      → (elim o as (λ x. Act (List ℕ)) [ none ↦ demand false >> pure [] | some row ↦ pure row ]) s
        ≡ (ok row, s)
      → row ≡ ranks
  row_value none e h = absurd (cc)
  row_value (some xs) e h = sym (ok-injective (ap (λ r. r.0) h)) ∙ some-injective e

  abbrev pub call_of : Collective → Tensor → Tensor → GroupDescriptor → ℕ → List ℕ → Call
  call_of kind input output group slice_bytes row = record {
    collective = kind;
    input = input;
    output = output;
    group = group;
    row = row;
    slice_bytes = slice_bytes;
  }

  abbrev pub handed_over : Tensor → Tensor → State → State
  handed_over input output s = record s {
    ops = ingest (input.data_ptr ∷ output.data_ptr ∷ []) ∷ s.ops;
  }

  -- What both collectives do under the lock without a table, for a descriptor with its ranks.
  pub locked-undirected :
      (kind : Collective) (input output : Tensor) (group : GroupDescriptor) (n : ℕ)
      (override : Option ℕ) (s : State) {s' : State}
      → group.ranks_dev ≡ some group.ranks
      → rt.autotune ≡ none
      → locked rt kind input output group n override s ≡ (ok tt, s')
      → undirected rt
          (call_of kind input output group n group.ranks)
          (effective_pipeline_chunks rt n override)
          (handed_over input output s)
        ≡ (ok tt, s')
  unfolding locked group_ranks_row
  locked-undirected kind input output group n override s {s'} on_device no_table h =
      let (row, e, h1) = bind-passed (group_ranks_row rt group) _ (row-Quiet rt group) h in
      let same = row_value group.ranks_dev on_device e in
      subst
        (λ r.
          undirected rt (call_of kind input output group n r)
            (effective_pipeline_chunks rt n override) (handed_over input output s)
          ≡ (ok tt, s'))
        same (untabled rt.autotune _ _ _ no_table h1)
