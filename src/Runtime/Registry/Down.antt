-- ===== src/Runtime/Registry/Down.antt =====
-- The shutdown of a runtime: what it leaves of the registry.
use group_free_collectives.Base.{
  ℕ, ◌≡◌, refl, sym, subst, ◌∙◌, inl, inr, ◌⊎◌, ◌*◌, ◌&&◌, leb, Bool, true, false, Option, none,
  some, List, [], ◌∷◌, ◌==◌, if◌then◌else◌, lookup, insert, lookup-insert_same, lookup-insert_other,
  Bool-cases, ==_refl, some-injective, Outcome, ok, err, value_error,
}
use group_free_collectives.Group.{GroupDescriptor, is_member}
use group_free_collectives.Autotune.{Collective, allgather}
use group_free_collectives.Runtime.State.{
  Setup, Tensor, State, ingest, zero_grids, Act, demand, pure, ◌>>=◌, ◌>>◌,
}
use group_free_collectives.Runtime.Collectives.{
  group_ranks_row, barrier, all_gather, validate_collective_args, locked,
}
use group_free_collectives.Runtime.Collectives.Atomic.{barrier_tokens}
use group_free_collectives.Runtime.Collectives.Laws.{kind_bound}
use group_free_collectives.Runtime.Registry.{clear_row, clear_registered, shutdown}
use group_free_collectives.Runtime.Registry.Laws.{IsRegistry}

abbrev Heap : Type 0
Heap = List (ℕ × GroupDescriptor)

abbrev IsPresent : ℕ → Heap → Type 0
IsPresent h heap = (d : GroupDescriptor) × (lookup h heap ≡ some d)

-- An object without a device rank list.
abbrev pub IsCleared : ℕ → Heap → Type 0
IsCleared h heap = (d : GroupDescriptor) × (lookup h heap ≡ some d) × (d.ranks_dev ≡ none)

-- One entry of the registry cleared, where it has been found to be `o`.
abbrev cleared_to : ℕ → Heap → Option GroupDescriptor → Heap
cleared_to j heap o = elim o [ none ↦ heap | some d ↦ insert j (clear_row d) heap ]

abbrev cleared_at : ℕ → Heap → Heap
cleared_at j heap = cleared_to j heap (lookup j heap)

cleared_at-same : (j : ℕ) (heap : Heap) → IsPresent j heap → IsCleared j (cleared_at j heap)
cleared_at-same j heap (d, e) =
    subst (λ o. IsCleared j (cleared_to j heap o)) (sym e)
      (clear_row d, lookup-insert_same j j heap (clear_row d) (==_refl j), refl)

cleared_to-IsCleared :
    (j h : ℕ) (heap : Heap) (o : Option GroupDescriptor)
    → IsCleared h heap
    → IsCleared h (cleared_to j heap o)
cleared_to-IsCleared j h heap none c = c
cleared_to-IsCleared j h heap (some d') (d, e, empty) = elim (Bool-cases (j == h)) [
  | inl same ↦ (clear_row d', lookup-insert_same j h heap (clear_row d') same, refl)
  | inr off ↦ (d, lookup-insert_other j h heap (clear_row d') off ∙ e, empty)
]

cleared_to-IsPresent :
    (j h : ℕ) (heap : Heap) (o : Option GroupDescriptor)
    → IsPresent h heap
    → IsPresent h (cleared_to j heap o)
cleared_to-IsPresent j h heap none c = c
cleared_to-IsPresent j h heap (some d') (d, e) = elim (Bool-cases (j == h)) [
  | inl same ↦ (clear_row d', lookup-insert_same j h heap (clear_row d') same)
  | inr off ↦ (d, lookup-insert_other j h heap (clear_row d') off ∙ e)
]

clear_registered-IsCleared :
    (regs : List (ℕ × ℕ)) (heap : Heap) (h : ℕ)
    → IsCleared h heap
    → IsCleared h (clear_registered regs heap)
unfolding clear_registered
clear_registered-IsCleared [] heap h c = c
clear_registered-IsCleared ((g, j) ∷ rest) heap h c =
    clear_registered-IsCleared rest (cleared_at j heap) h
      (cleared_to-IsCleared j h heap (lookup j heap) c)

clear_registered-clears :
    (regs : List (ℕ × ℕ)) (heap : Heap) (gid h : ℕ)
    → lookup gid regs ≡ some h
    → IsPresent h heap
    → IsCleared h (clear_registered regs heap)
unfolding clear_registered lookup
clear_registered-clears [] heap gid h at present = absurd (cc)
clear_registered-clears ((g, j) ∷ rest) heap gid h at present = elim (Bool-cases (g == gid)) [
  | inl e ↦
      let same : j ≡ h = some-injective (rw e at at) in
      clear_registered-IsCleared rest (cleared_at j heap) h (
        subst (λ x. IsCleared x (cleared_at j heap)) same
          (cleared_at-same j heap (subst (λ x. IsPresent x heap) (sym same) present)))
  | inr e ↦
      clear_registered-clears rest (cleared_at j heap) gid h (rw e at at)
        (cleared_to-IsPresent j h heap (lookup j heap) present)
]

-- What a shutdown leaves: no id, no registered object with a device rank list, the epochs as they
-- were, and nothing for a second shutdown to do.
pub record IsDown (s s' : State) : Type 0 where
  pub emptied : s'.registered ≡ []
  pub rows_freed : (gid h : ℕ) → lookup gid s.registered ≡ some h → IsCleared h s'.heap
  pub epochs_kept : s'.epochs ≡ s.epochs
  pub again : shutdown s' ≡ (ok tt, s')

-- A shutdown of a running runtime with a sound registry empties the registry, clears the rank list
-- of every object that was registered, keeps the epochs, and leaves a second shutdown nothing to
-- do.
pub shutdown-IsDown : (s : State) → IsRegistry s → s.is_shutdown ≡ false → IsDown s (shutdown s).1
unfolding shutdown
shutdown-IsDown s inv running =
    subst (λ b. IsDown s (if b then s else down)) (sym running)
      (record {
        emptied = refl;
        rows_freed = λ gid h at.
            let (d, present, _) = inv.backed gid h at in
            clear_registered-clears s.registered s.heap gid h at (d, present);
        epochs_kept = refl;
        again = refl;
      })
  where
    down : State
    down = record s {
      registered = [];
      heap = clear_registered s.registered s.heap;
      ops = zero_grids ∷ s.ops;
      is_shutdown = true;
    }

-- The call raised ValueError, reserved no epoch and launched no barrier.
pub record Refused {A : Type 0} (s : State) (r : Outcome A × State) : Type 0 where
  pub raised : r.0 ≡ err value_error
  pub epochs_kept : r.1.epochs ≡ s.epochs
  pub no_barrier : barrier_tokens r.1.ops ≡ barrier_tokens s.ops

-- An action that passes or raises ValueError, and changes nothing.
abbrev Checks : Act (Unit {0}) → Type 0
Checks m = (s : State) → (m s ≡ (ok tt, s)) ⊎ (m s ≡ (err value_error, s))

demand-Checks : (b : Bool) → Checks (demand b)
demand-Checks true s = inl refl
demand-Checks false s = inr refl

then-Checks :
    (m : Act (Unit {0})) (k : Unit {0} → Act (Unit {0}))
    → Checks m
    → ((u : Unit {0}) → Checks (k u))
    → Checks (m >>= k)
then-Checks m k p q s = elim (p s) [ inl e ↦ rw e (q tt s) | inr e ↦ rw e (inr refl) ]

then-Refused :
    (s : State) (m : Act (Unit {0})) (k : Unit {0} → Act (Unit {0}))
    → Checks m
    → Refused s (k tt s)
    → Refused s ((m >>= k) s)
then-Refused s m k p r = elim (p s) [
  | inl e ↦ rw e r
  | inr e ↦ rw e (record { raised = refl; epochs_kept = refl; no_barrier = refl })
]

validate-Checks :
    (rt : Setup) (k : Collective) (input output : Tensor) (group : GroupDescriptor)
    → Checks (validate_collective_args rt k input output group)
unfolding validate_collective_args
validate-Checks rt k input output group = then-Checks _ _ (demand-Checks (is_member group)) λ u.
    then-Checks _ _ (demand-Checks (leb group.size rt.config.max_group_size)) λ u.
      then-Checks _ _ (demand-Checks (input.is_cuda && output.is_cuda)) λ u.
        then-Checks _ _ (demand-Checks (input.device == rt.device)) λ u.
          then-Checks _ _ (demand-Checks (output.device == rt.device)) λ u.
            then-Checks _ _ (demand-Checks input.is_contiguous) λ u.
              then-Checks _ _ (demand-Checks output.is_contiguous)
                λ u. demand-Checks (kind_bound rt k input output)

module _ (rt : Setup) (s : State) where
  row-Refused :
      (d : GroupDescriptor) (k : List ℕ → Act (Unit {0})) (t : State)
      → d.ranks_dev ≡ none
      → t.epochs ≡ s.epochs
      → barrier_tokens t.ops ≡ barrier_tokens s.ops
      → Refused s ((group_ranks_row rt d >>= k) t)
  unfolding group_ranks_row
  row-Refused d k t e kept same =
      subst
        (λ o. Refused s (
          ((elim o as (λ x. Act (List ℕ)) [ none ↦ demand false >> pure [] | some row ↦ pure row ])
              >>= k)
            t))
        (sym e) (record { raised = refl; epochs_kept = kept; no_barrier = same })

  -- A barrier and an all_gather on a descriptor without a device rank list, such as one whose group
  -- was released or whose runtime was shut down, raise ValueError, reserve no epoch and launch no
  -- barrier.
  pub released-Refused :
      (d : GroupDescriptor) (input output : Tensor) (pipeline_chunks : Option ℕ)
      → d.ranks_dev ≡ none
      → Refused s (barrier rt d s) × Refused s (all_gather rt input output d pipeline_chunks s)
  unfolding barrier all_gather locked barrier_tokens
  released-Refused d input output override e = (
    then-Refused s _ _ (demand-Checks (is_member d)) (
        then-Refused s _ _ (demand-Checks (leb d.size rt.config.max_group_size))
          (row-Refused d _ s e refl refl)),
    then-Refused s _ _ (validate-Checks rt allgather input output d) (
        then-Refused s _ _ (demand-Checks (output.nbytes == d.size * input.nbytes)) (
          row-Refused d _
            (record s { ops = ingest (input.data_ptr ∷ output.data_ptr ∷ []) ∷ s.ops }) e refl
            refl)),
  )
