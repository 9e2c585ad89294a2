-- ===== src/Runtime/Collectives/Locked.antt =====
-- The atomicity of what both collectives do under the lock.
use group_free_collectives.Base.{
  ℕ, ◌≤◌, ◌<◌, ◌≡◌, refl, false, Option, none, some, List, [], ◌∷◌, ok,
}
use group_free_collectives.Hash.{compute_token}
use group_free_collectives.Group.{GroupDescriptor}
use group_free_collectives.Autotune.{Collective, Policy, Rule, policy_for}
use group_free_collectives.Runtime.State.{Setup, Tensor, State, Act, ingest}
use group_free_collectives.Runtime.Paths.{Call}
use group_free_collectives.Runtime.Layout.{effective_pipeline_chunks}
use group_free_collectives.Runtime.Collectives.{group_ranks_row, dispatch, undirected, locked}
use group_free_collectives.Runtime.Collectives.Atomic.{
  Untouched, Atomic, Quiet, demand-Quiet, lift-Quiet, bind-Quiet, bind-Atomic,
}
use group_free_collectives.Runtime.Collectives.Routes.{
  IsSound, Cause, no_programs, Excused, undirected-Atomic, dispatch-Atomic,
}

module _ (rt : Setup) where
  pub row-Quiet : (group : GroupDescriptor) → Quiet (group_ranks_row rt group)
  unfolding group_ranks_row
  row-Quiet group =
      elim group.ranks_dev as (λ r. Quiet (group_ranks_row rt (record group { ranks_dev = r }))) [
        | none ↦ bind-Quiet _ _ (demand-Quiet false) (λ u. lift-Quiet (ok []))
        | some row ↦ lift-Quiet (ok row)
      ]

module _ (rt : Setup) (sound : IsSound rt) where
  pub locked-Atomic :
      (k : Collective) (input output : Tensor) (group : GroupDescriptor) (n : ℕ)
      (override : Option ℕ)
      → 0 < n
      → 0 < group.size
      → n ≤ rt.config.max_collective_bytes
      → (s : State)
      → Atomic
          (Cause rt)
          (compute_token rt.session_nonce group.group_id)
          group.group_id
          s
          (locked rt k input output group n override s)
  unfolding locked
  locked-Atomic k input output group n override n_pos g_pos fits s =
      bind-Atomic _ _ group.group_id s handed_over so_far (group_ranks_row rt group) _
        (row-Quiet rt group) λ row e. routed row rt.autotune refl
    where
      handed_over : State
      handed_over = record s { ops = ingest (input.data_ptr ∷ output.data_ptr ∷ []) ∷ s.ops }

      so_far : Untouched s handed_over
      so_far = record {
        tensors = some (input.data_ptr ∷ output.data_ptr ∷ []);
        log = refl;
        epochs = refl;
        registry = (refl, refl);
      }

      call : List ℕ → Call
      call row = record {
        collective = k;
        input = input;
        output = output;
        group = group;
        row = row;
        slice_bytes = n;
      }

      by_policy :
          (row : List ℕ) (p : Option Policy)
          → ((q : Policy) → p ≡ some q → Excused rt q)
          → Atomic (Cause rt) (compute_token rt.session_nonce group.group_id) group.group_id s (
              (elim p as (λ x. Act (Unit {0})) [
                | none ↦ undirected rt (call row) (effective_pipeline_chunks rt n override)
                | some q ↦ dispatch rt (call row) q
              ])
                handed_over)
      by_policy row none h =
          undirected-Atomic rt sound (call row) n_pos g_pos fits s handed_over so_far n override
      by_policy row (some q) h =
          dispatch-Atomic rt sound (call row) n_pos g_pos fits s handed_over so_far q (h q refl)

      routed :
          (row : List ℕ) (table : Option (List Rule))
          → rt.autotune ≡ table
          → Atomic (Cause rt) (compute_token rt.session_nonce group.group_id) group.group_id s (
              (elim (elim table as (λ x. Option Policy) [
                | none ↦ none
                | some rules ↦ policy_for rules k group.size n
              ])
                  as (λ x. Act (Unit {0})) [
                    | none ↦ undirected rt (call row) (effective_pipeline_chunks rt n override)
                    | some q ↦ dispatch rt (call row) q
                  ])
                handed_over)
      routed row none h = by_policy row none (λ q e. absurd (cc))
      routed row (some rules) h =
          by_policy row (policy_for rules k group.size n)
            (λ q e z. no_programs rules k group.size n q h e z)
