-- ===== src/Runtime/Registry/Laws.antt =====
-- What registration promises: the registry's invariant and the identity of handles.
use group_free_collectives.Base.{
  lookup-insert_same, lookup-insert_other, insert-some, remove-some, some-injective, ℕ, ◌<◌, ◌≡◌,
  inl, inr, refl, sym, ap, subst, ◌∙◌, arith, Bool, true, false, ◌&&◌, Option, none, some, List,
  length, ltb, leb, ◌==◌, if◌then◌else◌, lookup, lookup-remove, ==_refl, ==_iff, Bool-cases,
  Outcome, ok, err,
}
use group_free_collectives.Group.{GroupDescriptor, descriptor_check}
use group_free_collectives.Runtime.State.{Setup, State, Act, lift, demand, pure, ◌>>=◌}
use group_free_collectives.Runtime.Registry.{
  new_descriptor, add_descriptor, deref, register_group, register_new, unregister_group, evict,
  clear_row, is_handle, or_hash, same_ranks, all_distinct, all_below, dbg_verify_group_consistency,
}
use group_free_collectives.Runtime.Collectives.Atomic.{Quiet, demand-Quiet, lift-Quiet}

-- Each id leads to a live object that carries it, and no handle from `next_handle` up is in use.
pub record IsRegistry (s : State) : Type 0 where
  pub backed :
      (gid h : ℕ)
      → lookup gid s.registered ≡ some h
      → (d : GroupDescriptor) × (deref h s ≡ some d) × (d.group_id ≡ gid)
  pub handles : (h : ℕ) (d : GroupDescriptor) → deref h s ≡ some d → h < s.next_handle

pub same-key : {a b : ℕ} → (a == b) ≡ true → a ≡ b
same-key {a} {b} h = (==_iff a b).0 h

other-key : {a b : ℕ} → b < a → (a == b) ≡ false
other-key h = ground arith

add-IsRegistry :
    (s : State) (gid : ℕ) (d : GroupDescriptor)
    → d.group_id ≡ gid
    → IsRegistry s
    → IsRegistry (add_descriptor gid d s).1
add-IsRegistry s gid d e inv = record {
  backed = λ gid' h l. elim (insert-some gid gid' s.registered s.next_handle l) [
    | inl (at, is) ↦
        let same : s.next_handle ≡ h = cc in
        (
          d,
          lookup-insert_same s.next_handle h s.heap d
              (subst (λ (x : ℕ). (s.next_handle == x) ≡ true) same (==_refl s.next_handle)),
          e ∙ same-key at,
        )
    | inr (off, l') ↦
        let (d', at, g) = inv.backed gid' h l' in
        (d', lookup-insert_other s.next_handle h s.heap d (other-key (inv.handles h d' at)) ∙ at, g)
  ];
  handles = λ h d' at. elim (insert-some s.next_handle h s.heap d at) [
    | inl (same, is) ↦ omega (arith, same-key same)
    | inr (off, at') ↦ omega (arith, inv.handles h d' at')
  ];
}

evict-IsRegistry :
    (s : State) (h : ℕ) (d : GroupDescriptor)
    → deref h s ≡ some d
    → IsRegistry s
    → IsRegistry (evict h d s)
unfolding evict
evict-IsRegistry s h d at inv = record {
  backed = λ gid' h' l.
      let (off, l') = remove-some d.group_id gid' s.registered l in
      let (d', at', g) = inv.backed gid' h' l' in
      elim (Bool-cases (h == h')) [
        | inl e ↦
            let same : d ≡ d' =
              some-injective (sym at ∙ ap (λ (x : ℕ). lookup x s.heap) (same-key e) ∙ at') in
            (
              clear_row d,
              lookup-insert_same h h' s.heap (clear_row d) e,
              ap (λ x. x.group_id) same ∙ g,
            )
        | inr e ↦ (d', lookup-insert_other h h' s.heap (clear_row d) e ∙ at', g)
      ];
  handles = λ h' d' at'. elim (insert-some h h' s.heap (clear_row d) at') [
    | inl (same, is) ↦ omega (arith, same-key same, inv.handles h d at)
    | inr (off, l) ↦ inv.handles h' d' l
  ];
}

-- Releasing a group keeps the registry's invariant, whatever the handle.
pub unregister_group-IsRegistry :
    (h : ℕ) (s : State) → IsRegistry s → IsRegistry (unregister_group h s).1
unfolding unregister_group
unregister_group-IsRegistry h s inv = go (deref h s) refl
  where
    release :
        (d : GroupDescriptor)
        → deref h s ≡ some d
        → (b : Bool) → IsRegistry (if b then evict h d s else s)
    release d at true = evict-IsRegistry s h d at inv
    release d at false = inv

    go :
        (o : Option GroupDescriptor)
        → deref h s ≡ o
        → IsRegistry
            (elim o as (λ x. Outcome (Unit {0}) × State) [
              | none ↦ (ok tt, s)
              | some d ↦
                  (ok tt, if is_handle (lookup d.group_id s.registered) h then evict h d s else s)
            ]).1
    go none e = inv
    go (some d) e = release d e (is_handle (lookup d.group_id s.registered) h)

after-Quiet :
    {A B : Type 0} (P : State → Type 0) (m : Act A) (k : A → Act B)
    → Quiet m
    → (s : State) → P s
    → ((a : A) → P (k a s).1)
    → P ((m >>= k) s).1
after-Quiet {A} {B} P m k q s p h = go (q s).0 (q s).1
  where
    go : (r : Outcome A) → m s ≡ (r, s) → P ((m >>= k) s).1
    go (ok a) e = rw e (h a)
    go (err x) e = rw e p

register_new-IsRegistry :
    (rt : Setup) (gid : ℕ) (ranks : List ℕ) (s : State)
    → IsRegistry s
    → IsRegistry (register_new rt gid ranks s).1
unfolding register_new new_descriptor
register_new-IsRegistry rt gid ranks s inv =
    after-Quiet IsRegistry (lift (descriptor_check (new_descriptor rt gid ranks))) _ (lift-Quiet _)
      s inv
      λ u.
        after-Quiet IsRegistry (lift checked) (λ w. pure s.next_handle) (lift-Quiet checked)
          (add_descriptor gid (new_descriptor rt gid ranks) s).1
          (add-IsRegistry s gid (new_descriptor rt gid ranks) refl inv)
          (λ w. add-IsRegistry s gid (new_descriptor rt gid ranks) refl inv)
  where
    checked : Outcome (Unit {0})
    checked =
        if rt.config.enable_debug_checks && length ranks == rt.world_size
        then dbg_verify_group_consistency rt gid ranks
        else ok tt

-- Registering a group keeps the registry's invariant, also where it raises.
pub register_group-IsRegistry :
    (rt : Setup) (ranks : List ℕ) (group_id : Option ℕ) (s : State)
    → IsRegistry s
    → IsRegistry (register_group rt ranks group_id s).1
unfolding register_group
register_group-IsRegistry rt ranks group_id s inv =
    after-Quiet IsRegistry
      (demand (ltb 0 (length ranks) && leb (length ranks) rt.config.max_group_size)) _
      (demand-Quiet _) s inv
      λ u1. after-Quiet IsRegistry (demand (all_distinct ranks)) _ (demand-Quiet _) s inv λ u2.
        after-Quiet IsRegistry (demand (all_below rt.world_size ranks)) _ (demand-Quiet _) s inv
          λ u3. found (lookup (or_hash group_id ranks) s.registered)
  where
    found :
        (o : Option ℕ)
        → IsRegistry
            (elim o as (λ x. Outcome ℕ × State) [
              | none ↦ register_new rt (or_hash group_id ranks) ranks s
              | some h ↦ (demand (same_ranks (deref h s) ranks) >>= λ u. pure h) s
            ]).1
    found none = register_new-IsRegistry rt (or_hash group_id ranks) ranks s inv
    found (some h) =
        after-Quiet IsRegistry (demand (same_ranks (deref h s) ranks)) _ (demand-Quiet _) s inv
          (λ u. inv)

unregister_group-eq :
    (h : ℕ) (d : GroupDescriptor) (s : State)
    → deref h s ≡ some d
    → lookup d.group_id s.registered ≡ some h
    → unregister_group h s ≡ (ok tt, evict h d s)
unfolding unregister_group
unregister_group-eq h d s at live =
    ap
      (λ o. elim o as (λ x. Outcome (Unit {0}) × State) [
        | none ↦ (ok tt, s)
        | some d ↦ (ok tt, if is_handle (lookup d.group_id s.registered) h then evict h d s else s)
      ])
      at
    ∙ ap (λ x. (ok tt, if is_handle x h then evict h d s else s)) live
    ∙ ap (λ b. (ok tt, if b then evict h d s else s)) (==_refl h)

-- What the state `s'` after a release has.
pub record Released (h : ℕ) (d : GroupDescriptor) (s s' : State) : Type 0 where
  pub gone : lookup d.group_id s'.registered ≡ none
  pub cleared : deref h s' ≡ some (clear_row d)
  pub other_ids :
      (gid : ℕ) → (d.group_id == gid) ≡ false → lookup gid s'.registered ≡ lookup gid s.registered
  pub other_objects : (j : ℕ) → (h == j) ≡ false → deref j s' ≡ deref j s
  pub epochs_kept : s'.epochs ≡ s.epochs

evict-Released : (h : ℕ) (d : GroupDescriptor) (s : State) → Released h d s (evict h d s)
unfolding evict
evict-Released h d s = record {
  gone =
      lookup-remove d.group_id d.group_id s.registered
      ∙ ap (λ b. if b then none else lookup d.group_id s.registered) (==_refl d.group_id);
  cleared = lookup-insert_same h h s.heap (clear_row d) (==_refl h);
  other_ids = λ gid off.
      lookup-remove d.group_id gid s.registered
      ∙ ap (λ b. if b then none else lookup gid s.registered) off;
  other_objects = λ j off. lookup-insert_other h j s.heap (clear_row d) off;
  epochs_kept = refl;
}

-- Releasing the live handle of an id removes the id, clears the object's rank list, and leaves
-- every other id and object, and the epochs, as they were.
pub unregister_group-Released :
    (h : ℕ) (d : GroupDescriptor) (s : State)
    → deref h s ≡ some d
    → lookup d.group_id s.registered ≡ some h
    → Released h d s (unregister_group h s).1
unregister_group-Released h d s at live =
    subst (λ x. Released h d s x.1) (sym (unregister_group-eq h d s at live)) (evict-Released h d s)
