-- ===== src/Runtime/Registry/Cycle.antt =====
-- The life of a group: registering again, releasing what was registered, and the shutdown.
use group_free_collectives.Base.{
  ℕ, ◌≡◌, ◌⊎◌, inl, inr, refl, sym, ap, subst, ◌∙◌, arith, Bool, true, false, ◌&&◌, Option, none,
  some, List, [], ◌∷◌, length, ltb, leb, ◌==◌, if◌then◌else◌, lookup, lookup-insert_same,
  lookup-insert_other, ==_refl, Bool-cases, Outcome, ok, ok-injective,
}
use group_free_collectives.Group.{descriptor_check}
use group_free_collectives.Runtime.State.{Setup, State, lift, demand, pure, ◌>>=◌}
use group_free_collectives.Runtime.Registry.{
  new_descriptor, add_descriptor, deref, register_group, register_new, unregister_group, or_hash,
  same_ranks, all_distinct, all_below, dbg_verify_group_consistency, list_eqb,
}
use group_free_collectives.Runtime.Registry.Laws.{same-key, unregister_group-Released}
use group_free_collectives.Runtime.Collectives.Atomic.{
  demand-Quiet, lift-Quiet, bind-passed, demand-passed,
}

list_eqb_refl : (xs : List ℕ) → list_eqb xs xs ≡ true
list_eqb_refl [] = refl
list_eqb_refl (x ∷ xs) = ground (arith, list_eqb_refl xs)

demand-true : {b : Bool} (s : State) → b ≡ true → demand b s ≡ (ok tt, s)
demand-true s e = rw e refl

module _ (rt : Setup) (gid : ℕ) (ranks : List ℕ) where
  -- A registration of a new id that returns has added its descriptor.
  register_new-added :
      {h : ℕ} (s : State) {s' : State}
      → register_new rt gid ranks s ≡ (ok h, s')
      → (h ≡ s.next_handle) × (s' ≡ (add_descriptor gid (new_descriptor rt gid ranks) s).1)
  unfolding register_new
  register_new-added {h} s {s'} e =
      let (u, passed, e1) =
        bind-passed (lift (descriptor_check (new_descriptor rt gid ranks))) _ (lift-Quiet _) e in
      let (w, agreed, e2) =
        bind-passed
          (lift (
            if rt.config.enable_debug_checks && length ranks == rt.world_size
            then dbg_verify_group_consistency rt gid ranks
            else ok tt))
          (λ _. pure s.next_handle) (lift-Quiet _) e1 in
      (sym (ok-injective (ap (λ r. r.0) e2)), sym (ap (λ r. r.1) e2))

-- Every id, every object but one, and the epochs are as they were.
pub record Restored (h : ℕ) (s s' : State) : Type 0 where
  pub ids : (k : ℕ) → lookup k s'.registered ≡ lookup k s.registered
  pub objects : (j : ℕ) → (h == j) ≡ false → deref j s' ≡ deref j s
  pub epochs_kept : s'.epochs ≡ s.epochs

module _ (rt : Setup) (ranks : List ℕ) (group_id : Option ℕ) where
  abbrev gid : ℕ
  gid = or_hash group_id ranks

  abbrev after_checks : State → Outcome ℕ × State
  after_checks s = elim (lookup gid s.registered) [
    | none ↦ register_new rt gid ranks s
    | some h ↦ (demand (same_ranks (deref h s) ranks) >>= λ _. pure h) s
  ]

  -- A registration that returns has passed its checks, which any later one passes too.
  register_group-checked :
      {h : ℕ} (s : State) {s' : State}
      → register_group rt ranks group_id s ≡ (ok h, s')
      → (after_checks s ≡ (ok h, s'))
        × ((t : State) → register_group rt ranks group_id t ≡ after_checks t)
  unfolding register_group
  register_group-checked s e =
      let (u1, p1, e1) =
        bind-passed (demand (ltb 0 (length ranks) && leb (length ranks) rt.config.max_group_size)) _
          (demand-Quiet _) e in
      let (u2, p2, e2) = bind-passed (demand (all_distinct ranks)) _ (demand-Quiet _) e1 in
      let (u3, p3, e3) =
        bind-passed (demand (all_below rt.world_size ranks)) _ (demand-Quiet _) e2 in
      (e3, λ t. rw (demand-passed _ p1, demand-passed _ p2, demand-passed _ p3) refl)

  -- What a registration that returns has done: found its group, or added it.
  found_or_added :
      {h : ℕ} (s : State) {s' : State}
      → after_checks s ≡ (ok h, s')
      → ((lookup gid s.registered ≡ some h) × (same_ranks (deref h s) ranks ≡ true) × (s' ≡ s))
        ⊎ ((lookup gid s.registered ≡ none)
            × (h ≡ s.next_handle)
            × (s' ≡ (add_descriptor gid (new_descriptor rt gid ranks) s).1))
  found_or_added {h} s {s'} e = go (lookup gid s.registered) refl e
    where
      go :
          (o : Option ℕ)
          → lookup gid s.registered ≡ o
          → (elim o as (λ x. Outcome ℕ × State) [
            | none ↦ register_new rt gid ranks s
            | some h ↦ (demand (same_ranks (deref h s) ranks) >>= λ _. pure h) s
          ])
            ≡ (ok h, s')
          → ((lookup gid s.registered ≡ some h) × (same_ranks (deref h s) ranks ≡ true) × (s' ≡ s))
            ⊎ ((lookup gid s.registered ≡ none)
                × (h ≡ s.next_handle)
                × (s' ≡ (add_descriptor gid (new_descriptor rt gid ranks) s).1))
      go none at e =
          let (named, added) = register_new-added rt gid ranks s e in inr (at, named, added)
      go (some j) at e =
          let (u, p, e1) =
            bind-passed (demand (same_ranks (deref j s) ranks)) (λ _. pure j) (demand-Quiet _) e in
          let same : j ≡ h = ok-injective (ap (λ r. r.0) e1) in
          inl (
            at ∙ ap some same,
            subst (λ x. same_ranks (deref x s) ranks ≡ true) same (demand-passed _ p),
            sym (ap (λ r. r.1) e1),
          )

  -- Registering enqueues nothing.
  pub register_group-ops :
      {h : ℕ} (s : State) {s' : State}
      → register_group rt ranks group_id s ≡ (ok h, s')
      → s'.ops ≡ s.ops
  register_group-ops s e = elim (found_or_added s (register_group-checked s e).0) [
    | inl (at, same, unchanged) ↦ ap (λ t. t.ops) unchanged
    | inr (at, named, added) ↦ ap (λ t. t.ops) added
  ]

  found :
      {h : ℕ} (t : State)
      → lookup gid t.registered ≡ some h
      → same_ranks (deref h t) ranks ≡ true
      → after_checks t ≡ (ok h, t)
  found {h} t at same =
      ap
        (λ o. elim o as (λ x. Outcome ℕ × State) [
          | none ↦ register_new rt gid ranks t
          | some h ↦ (demand (same_ranks (deref h t) ranks) >>= λ _. pure h) t
        ])
        at
      ∙ ap (λ b. (demand b >>= λ _. pure h) t) same

  -- Registering a group again gives the same descriptor and changes nothing.
  pub register_group_again :
      {h : ℕ} (s : State) {s' : State}
      → register_group rt ranks group_id s ≡ (ok h, s')
      → register_group rt ranks group_id s' ≡ (ok h, s')
  unfolding new_descriptor
  register_group_again {h} s {s'} e =
      let (checked, anywhere) = register_group-checked s e in
      elim (found_or_added s checked) [
        | inl (at, same, unchanged) ↦
            subst (λ t. register_group rt ranks group_id t ≡ (ok h, t)) (sym unchanged)
              (anywhere s ∙ found s at same)
        | inr (at, named, added) ↦
            rw (named, added)
              (anywhere _
                ∙ found _ (lookup-insert_same gid gid s.registered s.next_handle (==_refl gid)) (
                    ap (λ o. same_ranks o ranks)
                      (lookup-insert_same s.next_handle s.next_handle s.heap
                        (new_descriptor rt gid ranks) (==_refl s.next_handle))
                    ∙ list_eqb_refl ranks))
      ]

  abbrev cycled : State → State
  cycled s =
      (unregister_group s.next_handle (add_descriptor gid (new_descriptor rt gid ranks) s).1).1

  -- Registering a group under a new id and releasing it leaves every id of the registry, every other
  -- object, and the epochs as they were.
  pub unregister-register :
      {h : ℕ} (s : State) {s' : State}
      → lookup gid s.registered ≡ none
      → register_group rt ranks group_id s ≡ (ok h, s')
      → Restored h s (unregister_group h s').1
  unfolding new_descriptor
  unregister-register {h} s {s'} new e = elim (found_or_added s (register_group-checked s e).0) [
    | inl (at, same, unchanged) ↦ absurd (cc)
    | inr (at, named, added) ↦ rw (named, added) (released s new)
  ]
    where
      released : (s : State) → lookup gid s.registered ≡ none → Restored s.next_handle s (cycled s)
      released s new =
          let r =
            unregister_group-Released s.next_handle (new_descriptor rt gid ranks)
              (add_descriptor gid (new_descriptor rt gid ranks) s).1
              (lookup-insert_same s.next_handle s.next_handle s.heap (new_descriptor rt gid ranks)
                (==_refl s.next_handle))
              (lookup-insert_same gid gid s.registered s.next_handle (==_refl gid)) in
          record {
            ids = λ k. elim (Bool-cases (gid == k)) [
              | inl e ↦
                  subst (λ x. lookup x (cycled s).registered ≡ lookup x s.registered) (same-key e)
                    (r.gone ∙ sym new)
              | inr e ↦ r.other_ids k e ∙ lookup-insert_other gid k s.registered s.next_handle e
            ];
            objects = λ j off.
                r.other_objects j off
                ∙ lookup-insert_other s.next_handle j s.heap (new_descriptor rt gid ranks) off;
            epochs_kept = r.epochs_kept;
          }
