-- ===== src/Runtime/Registry/Registers.antt =====
-- What a registration promises of the handle that it returns, and what it leaves where it raises;
-- and what a release does on a stale handle.
use group_free_collectives.Base.{
  ℕ, ◌≤◌, ◌<◌, ◌≡◌, ◌≢◌, ◌⊎◌, inl, inr, refl, ap, subst, arith, Bool, true, false, ◌&&◌, Option,
  none, some, List, [], ◌∷◌, All, length, ltb, leb, ◌==◌, if◌then◌else◌, lookup, contains,
  lookup-insert_same, ==_refl, Outcome, Exc, ok, err,
}
use group_free_collectives.Group.{GroupDescriptor, descriptor_check}
use group_free_collectives.Runtime.State.{Setup, State, Act, lift, demand, pure, ◌>>=◌}
use group_free_collectives.Runtime.Registry.{
  new_descriptor, add_descriptor, deref, register_group, register_new, unregister_group, evict,
  or_hash, is_handle, same_ranks, all_distinct, all_below, list_eqb, dbg_verify_group_consistency,
}
use group_free_collectives.Runtime.Registry.Laws.{IsRegistry}
use group_free_collectives.Runtime.Collectives.Atomic.{
  Quiet, demand-Quiet, lift-Quiet, demand-passed,
}

-- A check, and what follows it, case by case.
quiet-cases :
    {A B : Type 0} (P : Outcome B × State → Type 0) (m : Act A) (k : A → Act B)
    → Quiet m
    → (s : State) → ((x : Exc) → m s ≡ (err x, s) → P (err x, s))
    → ((a : A) → m s ≡ (ok a, s) → P (k a s))
    → P ((m >>= k) s)
quiet-cases {A} {B} P m k q s fails passes = go (q s).0 (q s).1
  where
    go : (r : Outcome A) → m s ≡ (r, s) → P ((m >>= k) s)
    go (ok a) e = rw e (passes a e)
    go (err x) e = rw e (fails x e)

-- No rank stands twice.
abbrev pub Distinct : List ℕ → Type 0
Distinct [] = Unit {0}
Distinct (x ∷ xs) = All (λ y. y ≢ x) xs × Distinct xs

not-contains : (xs : List ℕ) (x : ℕ) → contains xs x ≡ false → All (λ y. y ≢ x) xs
not-contains [] x e = tt
not-contains (y ∷ xs) x e = ((λ same. ground arith), not-contains xs x (ground arith))

all_distinct-Distinct : (xs : List ℕ) → all_distinct xs ≡ true → Distinct xs
all_distinct-Distinct [] e = tt
all_distinct-Distinct (x ∷ xs) e =
    (not-contains xs x (ground arith), all_distinct-Distinct xs (ground arith))

all_below-All : (n : ℕ) (xs : List ℕ) → all_below n xs ≡ true → All (λ r. r < n) xs
all_below-All n [] e = tt
all_below-All n (x ∷ xs) e = (ground arith, all_below-All n xs (ground arith))

list_eqb-eq : (xs ys : List ℕ) → list_eqb xs ys ≡ true → xs ≡ ys
list_eqb-eq [] [] e = refl
list_eqb-eq (x ∷ xs) (y ∷ ys) e =
    let head : x ≡ y = ground arith in let tail = list_eqb-eq xs ys (ground arith) in cc
list_eqb-eq [] (y ∷ ys) e = absurd (cc)
list_eqb-eq (x ∷ xs) [] e = absurd (cc)

debug_on :
    (a b : Bool) (r : Outcome (Unit {0})) {x : Exc}
    → (if a && b then r else ok tt) ≡ err x
    → a ≡ true
debug_on true b r e = refl
debug_on false b r e = absurd (cc)

module _ (rt : Setup) (ranks : List ℕ) (group_id : Option ℕ) where
  abbrev gid : ℕ
  gid = or_hash group_id ranks

  -- The id is registered for these ranks behind this handle: a new object under a new id, or the
  -- object that the id had already.
  pub record Registers (s : State) (h : ℕ) (s' : State) : Type 0 where
    pub size : (0 < length ranks) × (length ranks ≤ rt.config.max_group_size)
    pub distinct : Distinct ranks
    pub in_world : All (λ r. r < rt.world_size) ranks
    pub live : lookup gid s'.registered ≡ some h
    pub object :
        (d : GroupDescriptor) × (deref h s' ≡ some d) × (d.group_id ≡ gid) × (d.ranks ≡ ranks)
    pub known_or_new :
        (s' ≡ s)
        ⊎ ((lookup gid s.registered ≡ none)
            × (h ≡ s.next_handle)
            × (s' ≡ (add_descriptor gid (new_descriptor rt gid ranks) s).1))

  -- Nothing has changed; or the id was new and the debug check over the world has failed after the
  -- object was added.
  abbrev pub Refuses : State → State → Type 0
  Refuses s s' =
      (s' ≡ s)
      ⊎ ((lookup gid s.registered ≡ none)
          × (rt.config.enable_debug_checks ≡ true)
          × (s' ≡ (add_descriptor gid (new_descriptor rt gid ranks) s).1))

  abbrev pub Outcomes : State → Outcome ℕ × State → Type 0
  Outcomes s (ok h, s') = Registers s h s'
  Outcomes s (err e, s') = Refuses s s'

  module _ (s : State) (inv : IsRegistry s)
      (size : (0 < length ranks) × (length ranks ≤ rt.config.max_group_size))
      (distinct : Distinct ranks) (in_world : All (λ r. r < rt.world_size) ranks) where
    abbrev added : State
    added = (add_descriptor gid (new_descriptor rt gid ranks) s).1

    new-Registers : lookup gid s.registered ≡ none → Registers s s.next_handle added
    unfolding new_descriptor
    new-Registers free = record {
      size = size;
      distinct = distinct;
      in_world = in_world;
      live = lookup-insert_same gid gid s.registered s.next_handle (==_refl gid);
      object = (
        new_descriptor rt gid ranks,
        lookup-insert_same s.next_handle s.next_handle s.heap (new_descriptor rt gid ranks)
            (==_refl s.next_handle),
        refl,
        refl,
      );
      known_or_new = inr (free, refl, refl);
    }

    known-Outcomes :
        (h : ℕ)
        → lookup gid s.registered ≡ some h
        → Outcomes s ((demand (same_ranks (deref h s) ranks) >>= λ u. pure h) s)
    known-Outcomes h live =
        let (d, at, id) = inv.backed gid h live in
        quiet-cases (Outcomes s) (demand (same_ranks (deref h s) ranks)) (λ u. pure h)
          (demand-Quiet _) s (λ x e. inl refl)
          λ u e. record {
            size = size;
            distinct = distinct;
            in_world = in_world;
            live = live;
            object = (
              d,
              at,
              id,
              list_eqb-eq d.ranks ranks
                  (subst (λ o. same_ranks o ranks ≡ true) at (demand-passed _ e)),
            );
            known_or_new = inl refl;
          }

    new-Outcomes : lookup gid s.registered ≡ none → Outcomes s (register_new rt gid ranks s)
    unfolding register_new
    new-Outcomes free =
        quiet-cases (Outcomes s) (lift (descriptor_check (new_descriptor rt gid ranks))) _
          (lift-Quiet _) s (λ x e. inl refl)
          λ u e.
            quiet-cases (λ r. Outcomes s r) (lift checked) (λ w. pure s.next_handle)
              (lift-Quiet checked) added (λ x f. inr (free, debug_on _ _ _ (ap (λ r. r.0) f), refl))
              (λ w f. new-Registers free)
      where
        checked : Outcome (Unit {0})
        checked =
            if rt.config.enable_debug_checks && length ranks == rt.world_size
            then dbg_verify_group_consistency rt gid ranks
            else ok tt

  -- A registration that returns had a non-empty list of distinct ranks of the world, no longer than
  -- the configuration allows, and its handle leads to an object with the id and exactly these
  -- ranks, registered under the id: a new one where the id was free, and the one that was there,
  -- with nothing changed, where it was taken. A registration that raises has changed nothing,
  -- unless the id was free and a failed debug check has left the new object registered. The
  -- registry must satisfy its invariant before.
  pub register_group-Outcomes :
      (s : State) → IsRegistry s → Outcomes s (register_group rt ranks group_id s)
  unfolding register_group
  register_group-Outcomes s inv =
      quiet-cases (Outcomes s)
        (demand (ltb 0 (length ranks) && leb (length ranks) rt.config.max_group_size)) _
        (demand-Quiet _) s (λ x e. inl refl)
        λ u1 e1.
          quiet-cases (Outcomes s) (demand (all_distinct ranks)) _ (demand-Quiet _) s
            (λ x e. inl refl)
            λ u2 e2.
              quiet-cases (Outcomes s) (demand (all_below rt.world_size ranks)) _ (demand-Quiet _) s
                (λ x e. inl refl)
                λ u3 e3.
                  found (size_of (demand-passed _ e1))
                    (all_distinct-Distinct ranks (demand-passed _ e2))
                    (all_below-All rt.world_size ranks (demand-passed _ e3))
                    (lookup gid s.registered) refl
    where
      size_of :
          (ltb 0 (length ranks) && leb (length ranks) rt.config.max_group_size) ≡ true
          → (0 < length ranks) × (length ranks ≤ rt.config.max_group_size)
      size_of e = (ground arith, ground arith)

      found :
          (0 < length ranks) × (length ranks ≤ rt.config.max_group_size)
          → Distinct ranks
          → All (λ r. r < rt.world_size) ranks
          → (o : Option ℕ) → lookup gid s.registered ≡ o
          → Outcomes s (elim o as (λ x. Outcome ℕ × State) [
            | none ↦ register_new rt gid ranks s
            | some h ↦ (demand (same_ranks (deref h s) ranks) >>= λ u. pure h) s
          ])
      found size distinct in_world none e = new-Outcomes s inv size distinct in_world e
      found size distinct in_world (some h) e = known-Outcomes s inv size distinct in_world h e

-- A release through a handle that is not the live one of its object's id changes nothing: neither a
-- group that was registered again under the same id, nor the object itself, nor the work enqueued.
pub unregister_group_stale :
    (h : ℕ) (s : State)
    → ((d : GroupDescriptor) → deref h s ≡ some d → lookup d.group_id s.registered ≢ some h)
    → unregister_group h s ≡ (ok tt, s)
unfolding unregister_group
unregister_group_stale h s stale = go (deref h s) refl
  where
    not_live : (o : Option ℕ) → o ≢ some h → is_handle o h ≡ false
    not_live none off = refl
    not_live (some j) off = ground (arith, λ (same : j ≡ h). off (ap some same))

    go :
        (o : Option GroupDescriptor)
        → deref h s ≡ o
        → (elim o as (λ x. Outcome (Unit {0}) × State) [
          | none ↦ (ok tt, s)
          | some d ↦
              (ok tt, if is_handle (lookup d.group_id s.registered) h then evict h d s else s)
        ])
          ≡ (ok tt, s)
    go none e = refl
    go (some d) e = rw (not_live (lookup d.group_id s.registered) (stale d e)) refl
