-- ===== src/Kernel/Memory.antt =====
-- Device memory as a function from addresses to bytes, and what a sequence of copies does to it.
-- A kernel's loads and stores are a list of copies; where no copy reads what another one writes,
-- the result does not depend on their order, so the list stands for the parallel run.
use group_free_collectives.Base.{
  ℕ, ◌+◌, ◌-◌, ◌≤◌, ◌<◌, ◌≡◌, ◌⊎◌, refl, sym, ap, subst, ◌∙◌, inl, inr, Bool, true, false, ◌&&◌,
  List, [], ◌∷◌, ◌++◌, lt→ltb, le→leb, arith, ltb, leb, if◌then◌else◌, All, Bool-cases,
}
use group_free_collectives.Base.Membership.{Elem, here, there}

abbrev pub Memory : Type 0
Memory = ℕ → ℕ

-- `len` bytes from address `src` to address `dst`, loaded before they are stored.
pub record Copy : Type 0 where
  pub src : ℕ
  pub dst : ℕ
  pub len : ℕ

abbrev pub within : Copy → ℕ → Bool
within c a = leb c.dst a && ltb a (c.dst + c.len)

unfoldable pub store : Copy → Memory → Memory
store c m a = if within c a then m (c.src + (a - c.dst)) else m a

pub run : List Copy → Memory → Memory
run [] m = m
run (c ∷ cs) m = run cs (store c m)

pub run_empty : (m : Memory) (a : ℕ) → run [] m a ≡ m a
unfolding run
run_empty m a = refl

pub run_nothing : (m : Memory) → run [] m ≡ m
unfolding run
run_nothing m = refl

pub run_cons : (c : Copy) (cs : List Copy) (m : Memory) → run (c ∷ cs) m ≡ run cs (store c m)
unfolding run
run_cons c cs m = refl

-- What runs after more copies.
pub run-append : (cs ds : List Copy) (m : Memory) → run (cs ++ ds) m ≡ run ds (run cs m)
unfolding run
run-append [] ds m = refl
run-append (c ∷ cs) ds m = run-append cs ds (store c m)

-- A single copy brings its bytes, whether or not they overlap.
store-at : (c : Copy) (m : Memory) (b : ℕ) → b < c.len → store c m (c.dst + b) ≡ m (c.src + b)
unfolding store
store-at c m b lt =
    rw (le→leb c.dst (c.dst + b) (omega arith), lt→ltb (c.dst + b) (c.dst + c.len) (omega arith))
      (ap (λ (x : ℕ). m (c.src + x)) (omega arith))

-- A copy, and then copies that bring its bytes further.
pub run-staged :
    (c : Copy) (cs : List Copy) (m : Memory) (a b : ℕ)
    → b < c.len
    → ((m' : Memory) → run cs m' a ≡ m' (c.dst + b))
    → run (c ∷ cs) m a ≡ m (c.src + b)
unfolding run
run-staged c cs m a b lt onward = onward (store c m) ∙ store-at c m b lt

-- Copies, and then one that brings their bytes further.
pub run-unloaded :
    (cs : List Copy) (c : Copy) (m : Memory) (b : ℕ)
    → b < c.len
    → run (cs ++ c ∷ []) m (c.dst + b) ≡ run cs m (c.src + b)
unfolding run
run-unloaded cs c m b lt =
    ap (λ f. f (c.dst + b)) (run-append cs (c ∷ []) m) ∙ store-at c (run cs m) b lt

-- A byte of the target is written by this copy.
abbrev pub Writes : ℕ → Copy → Type 0
Writes a c = (c.dst ≤ a) × (a < c.dst + c.len)

-- What a copy leaves at an address.
pub store-cases :
    (c : Copy) (m : Memory) (a : ℕ)
    → (Writes a c × (store c m a ≡ m (c.src + (a - c.dst)))) ⊎ (¬ Writes a c × (store c m a ≡ m a))
unfolding store
store-cases c m a = elim (Bool-cases (within c a)) [
  | inl e ↦ inl (ground arith, rw e refl)
  | inr e ↦ inr (λ h. ground arith, rw e refl)
]

-- Every byte of the copy goes to the target, from where the target wants it, outside the target.
pub record Agrees (target : ℕ → Bool) (origin : ℕ → ℕ) (c : Copy) : Type 0 where
  pub inside : (j : ℕ) → j < c.len → target (c.dst + j) ≡ true
  pub from : (j : ℕ) → j < c.len → origin (c.dst + j) ≡ c.src + j
  pub outside : (j : ℕ) → j < c.len → target (c.src + j) ≡ false

module _ (target : ℕ → Bool) (origin : ℕ → ℕ) where
  store-target :
      (c : Copy)
      → Agrees target origin c
      → (m : Memory) (a : ℕ) → Writes a c
      → store c m a ≡ m (origin a)
  unfolding store
  store-target c g m a h =
      let back : c.dst + (a - c.dst) ≡ a = omega arith in
      let source : c.src + (a - c.dst) ≡ origin a =
        sym (g.from (a - c.dst) (omega arith)) ∙ ap origin back in
      ground arith

  store-away : (c : Copy) (m : Memory) (a : ℕ) → ¬ Writes a c → store c m a ≡ m a
  unfolding store
  store-away c m a h = elim (Bool-cases (within c a)) [
    | inl e ↦ absurd (h (ground arith))
    | inr e ↦ rw e
  ]

  -- A copy writes no byte outside the target.
  not-Writes : (c : Copy) → Agrees target origin c → (a : ℕ) → target a ≡ false → ¬ Writes a c
  not-Writes c g a e h =
      let back : c.dst + (a - c.dst) ≡ a = omega arith in
      cc (g.inside (a - c.dst) (omega arith), ap target back, e)

  store-outside :
      (c : Copy)
      → Agrees target origin c
      → (m : Memory) (a : ℕ) → target a ≡ false
      → store c m a ≡ m a
  store-outside c g m a e = store-away c m a (not-Writes c g a e)

  -- The origin of a byte that a copy writes lies outside the target.
  origin-outside :
      (c : Copy) → Agrees target origin c → (a : ℕ) → Writes a c → target (origin a) ≡ false
  origin-outside c g a h =
      let back : c.dst + (a - c.dst) ≡ a = omega arith in
      ap target (sym (ap origin back) ∙ g.from (a - c.dst) (omega arith))
      ∙ g.outside (a - c.dst) (omega arith)

  dec_writes : (a : ℕ) (c : Copy) → Dec (Writes a c)
  dec_writes a c = elim (Bool-cases (within c a)) [
    | inl e ↦ yes (ground arith)
    | inr e ↦ no (λ h. ground arith)
  ]

  -- The two memories agree outside the target.
  abbrev Same : Memory → Memory → Type 0
  Same m0 m = (x : ℕ) → target x ≡ false → m x ≡ m0 x

  -- No byte outside the target changes.
  pub run-outside :
      (cs : List Copy)
      → All (Agrees target origin) cs
      → (m : Memory) (a : ℕ) → target a ≡ false
      → run cs m a ≡ m a
  unfolding run
  run-outside [] g m a e = refl
  run-outside (c ∷ cs) g m a e = run-outside cs g.1 (store c m) a e ∙ store-outside c g.0 m a e

  store-Same : (m0 m : Memory) (c : Copy) → Agrees target origin c → Same m0 m → Same m0 (store c m)
  store-Same m0 m c g same x e = store-outside c g m x e ∙ same x e

  store-Writes :
      (m0 m : Memory) (c : Copy)
      → Agrees target origin c
      → Same m0 m
      → (a : ℕ) → Writes a c
      → store c m a ≡ m0 (origin a)
  store-Writes m0 m c g same a h = store-target c g m a h ∙ same (origin a) (origin-outside c g a h)

  run-done :
      (cs : List Copy)
      → All (Agrees target origin) cs
      → (m0 m : Memory) → Same m0 m
      → (a : ℕ) → m a ≡ m0 (origin a)
      → run cs m a ≡ m0 (origin a)
  unfolding run
  run-done [] g m0 m same a e = e
  run-done (c ∷ cs) g m0 m same a e =
      run-done cs g.1 m0 (store c m) (store-Same m0 m c g.0 same) a (elim (dec_writes a c) [
        | yes h ↦ store-Writes m0 m c g.0 same a h
        | no h ↦ store-away c m a h ∙ e
      ])

  run-written :
      {c : Copy} {cs : List Copy}
      → Elem c cs
      → All (Agrees target origin) cs
      → (m0 m : Memory) → Same m0 m
      → (a : ℕ) → Writes a c
      → run cs m a ≡ m0 (origin a)
  unfolding run
  run-written (here {x = d} {xs = cs} e) g m0 m same a h =
      run-done cs g.1 m0 (store d m) (store-Same m0 m d g.0 same) a
        (store-Writes m0 m d g.0 same a (subst (Writes a) e h))
  run-written (there {x = d} n) g m0 m same a h =
      run-written n g.1 m0 (store d m) (store-Same m0 m d g.0 same) a h

  -- A byte that some copy writes ends as the first memory's byte at its origin.
  pub run-target :
      {c : Copy} {cs : List Copy}
      → Elem c cs
      → All (Agrees target origin) cs
      → (m : Memory) (a : ℕ) → Writes a c
      → run cs m a ≡ m (origin a)
  run-target n g m a h = run-written n g m m (λ x e. refl) a h
