-- ===== src/Runtime/Collectives/Atomic.antt =====
-- What a collective leaves behind: nothing but the hand-over of the caller's tensors where it
-- raises, and a sequence of work between barriers where it returns.
use group_free_collectives.Base.{
  subst, ℕ, ◌≤◌, ◌<◌, ◌≡◌, refl, Bool, true, false, ◌&&◌, Option, none, some, List, [], ◌∷◌, ◌++◌,
  map, ◌⊎◌, inl, Outcome, ok, err, ◌==◌, if◌then◌else◌,
}
use group_free_collectives.Group.Epochs.{peek}
use group_free_collectives.Runtime.State.{
  State, Act, Op, ingest, stage, barrier_launch, kernel, fused_kernel, fork, on_copy_stream, join,
  free_row, zero_grids, lift, demand, continue, ◌>>=◌,
}

-- The tokens of the barriers of a log, the newest first.
unfoldable pub barrier_tokens : List Op → List ℕ
barrier_tokens [] = []
barrier_tokens (barrier_launch row size token ∷ ops) = token ∷ barrier_tokens ops
barrier_tokens (ingest ps ∷ ops) = barrier_tokens ops
barrier_tokens (stage cs ∷ ops) = barrier_tokens ops
barrier_tokens (kernel cs ∷ ops) = barrier_tokens ops
barrier_tokens (fused_kernel ps ∷ ops) = barrier_tokens ops
barrier_tokens (fork ∷ ops) = barrier_tokens ops
barrier_tokens (on_copy_stream cs ∷ ops) = barrier_tokens ops
barrier_tokens (join ∷ ops) = barrier_tokens ops
barrier_tokens (free_row row ∷ ops) = barrier_tokens ops
barrier_tokens (zero_grids ∷ ops) = barrier_tokens ops

abbrev pub is_barrier : Op → Bool
is_barrier (barrier_launch row size token) = true
is_barrier _ = false

abbrev pub is_kernel : Op → Bool
is_kernel (kernel cs) = true
is_kernel (fused_kernel ps) = true
is_kernel _ = false

-- The newest entry is a barrier.
abbrev pub closed : List Op → Bool
closed [] = false
closed (o ∷ ops) = is_barrier o

-- Each kernel's predecessor in the log is a barrier.
unfoldable pub guarded : List Op → Bool
guarded [] = true
guarded (o ∷ ops) = let rest = guarded ops in if is_kernel o then closed ops && rest else rest

-- Epochs between `low` and `high`, each greater than the next.
abbrev pub Descends : ℕ → List ℕ → ℕ → Type 0
Descends high [] low = low ≤ high
Descends high (e ∷ es) low = (e < high) × Descends e es low

-- The method enqueued `added`, whose barriers carry the tokens of the epochs `used`.
pub record Issued (token : ℕ → ℕ) (gid : ℕ) (s s' : State) : Type 0 where
  pub added : List Op
  pub used : List ℕ
  pub log : s'.ops ≡ added ++ s.ops
  pub tokens : barrier_tokens added ≡ map token used
  pub fresh : Descends (peek gid s'.epochs) used (peek gid s.epochs)
  pub closes : closed added ≡ true
  pub guards : guarded added ≡ true
  pub others : (other : ℕ) → (gid == other) ≡ false → peek other s'.epochs ≡ peek other s.epochs
  pub registry : (s'.registered ≡ s.registered) × (s'.heap ≡ s.heap)

-- The method enqueued at most the hand-over, and reserved no epoch.
abbrev pub handed : Option (List ℕ) → List Op
handed none = []
handed (some ps) = ingest ps ∷ []

pub record Untouched (s s' : State) : Type 0 where
  pub tensors : Option (List ℕ)
  pub log : s'.ops ≡ handed tensors ++ s.ops
  pub epochs : s'.epochs ≡ s.epochs
  pub registry : (s'.registered ≡ s.registered) × (s'.heap ≡ s.heap)

-- The method stopped after its first barrier: what it had enqueued by then, and why.
pub record Interrupted (Cause : Type 0) (token : ℕ → ℕ) (gid : ℕ) (s s' : State) : Type 0 where
  pub cause : Cause
  pub added : List Op
  pub used : List ℕ
  pub log : s'.ops ≡ added ++ s.ops
  pub tokens : barrier_tokens added ≡ map token used
  pub fresh : Descends (peek gid s'.epochs) used (peek gid s.epochs)
  pub guards : guarded added ≡ true
  pub others : (other : ℕ) → (gid == other) ≡ false → peek other s'.epochs ≡ peek other s.epochs
  pub registry : (s'.registered ≡ s.registered) × (s'.heap ≡ s.heap)

-- All of the work, or nothing but the hand-over, or a part for one of the causes.
abbrev pub Atomic : Type 0 → (ℕ → ℕ) → ℕ → State → Outcome (Unit {0}) × State → Type 0
Atomic Cause token gid s (ok u, s') = Issued token gid s s'
Atomic Cause token gid s (err e, s') = Untouched s s' ⊎ Interrupted Cause token gid s s'

pub Untouched-refl : (s : State) → Untouched s s
Untouched-refl s = record { tensors = none; log = refl; epochs = refl; registry = (refl, refl) }

-- An action that only checks: it gives a value or raises, and leaves the state alone.
abbrev pub Quiet {ℓ} : {A : Type ℓ} → Act A → Type ℓ
Quiet {A = A} m = (s : State) → (r : Outcome A) × (m s ≡ (r, s))

pub demand-Quiet : (b : Bool) → Quiet (demand b)
demand-Quiet b s = (_, refl)

pub lift-Quiet {ℓ} : {A : Type ℓ} (r : Outcome A) → Quiet (lift r)
lift-Quiet r s = (r, refl)

pub bind-Quiet {ℓ} :
    {A B : Type ℓ} (m : Act A) (k : A → Act B) → Quiet m → ((a : A) → Quiet (k a)) → Quiet (m >>= k)
bind-Quiet {A} {B} m k q h s = go (q s).0 (q s).1
  where
    go : (r : Outcome A) → m s ≡ (r, s) → (x : Outcome B) × ((m >>= k) s ≡ (x, s))
    go (ok a) e = rw e (h a s)
    go (err x) e = rw e (err x, refl)

-- Inversion of a chain of checks that passed.
pub bind-passed {ℓ} :
    {A B : Type ℓ} (m : Act A) (k : A → Act B)
    → Quiet m
    → {b : B} {s s' : State} → (m >>= k) s ≡ (ok b, s')
    → (a : A) × (m s ≡ (ok a, s)) × (k a s ≡ (ok b, s'))
bind-passed {A} {B} m k q {b} {s} {s'} h = go (q s).0 (q s).1 h
  where
    go :
        (r : Outcome A)
        → m s ≡ (r, s)
        → (m >>= k) s ≡ (ok b, s')
        → (a : A) × (m s ≡ (ok a, s)) × (k a s ≡ (ok b, s'))
    go (ok a) e h = (a, e, subst (λ x. continue x k ≡ (ok b, s')) e h)
    go (err x) e h = absurd (
        let p : continue (err x, s) k ≡ (ok b, s') = subst (λ y. continue y k ≡ (ok b, s')) e h in
        cc)

pub demand-passed : (b : Bool) {s : State} → demand b s ≡ (ok tt, s) → b ≡ true
demand-passed true h = refl
demand-passed false h = absurd (cc)

module _ (Cause : Type 0) (token : ℕ → ℕ) (gid : ℕ) (s0 s : State) (so_far : Untouched s0 s) where
  pub bind-Atomic :
      {A : Type 0} (m : Act A) (k : A → Act (Unit {0}))
      → Quiet m
      → ((a : A) → m s ≡ (ok a, s) → Atomic Cause token gid s0 (k a s))
      → Atomic Cause token gid s0 ((m >>= k) s)
  bind-Atomic {A} m k q h = go (q s).0 (q s).1
    where
      go : (r : Outcome A) → m s ≡ (r, s) → Atomic Cause token gid s0 ((m >>= k) s)
      go (ok a) e = rw e (h a e)
      go (err x) e = rw e (inl so_far)

  pub if-Atomic :
      (b : Bool) (k l : Act (Unit {0}))
      → (b ≡ true → Atomic Cause token gid s0 (k s))
      → (b ≡ false → Atomic Cause token gid s0 (l s))
      → Atomic Cause token gid s0 ((if b then k else l) s)
  if-Atomic true k l p q = p refl
  if-Atomic false k l p q = q refl
