-- ===== src/Kernel/Fused/Run/Discipline.antt =====
-- What programs must keep to so that every interleaving of them leaves the bytes that are meant: a
-- byte is read only if no program writes it, or after a wait for a value that is published only
-- after it was written.
use group_free_collectives.Base.{ℕ, ◌+◌, ◌-◌, ◌<◌, ◌≡◌, ◌≢◌, ◌⊎◌, List, ◌∷◌, ◌++◌}
use group_free_collectives.Base.Membership.{Elem}
use group_free_collectives.Kernel.Memory.{Memory, Copy, Writes}
use group_free_collectives.Kernel.Fused.Run.{Access, transfer, release, acquire}

-- Some copy among the accesses writes the byte at `a`.
abbrev pub Wrote : ℕ → List Access → Type 0
Wrote a ops = (c : Copy) × Elem (transfer c) ops × Writes a c

module _ (g n : ℕ) (ranks : ℕ → ℕ) (progs : ℕ → ℕ → List Access) where
  -- No program writes the byte at `a`.
  abbrev pub Pristine : ℕ → Type 0
  Pristine a = (j q : ℕ) → j < g → q < n → ¬ Wrote a (progs j q)

  -- After `pre`, member i knows that the byte at `s` was written.
  abbrev pub Fed : ℕ → List Access → ℕ → Type 0
  Fed i pre s =
      (cell : ℕ) × (value : ℕ) × Elem (acquire cell value) pre
      × ((j q : ℕ) (before after : List Access)
          → j < g
          → q < n
          → progs j q ≡ before ++ release (ranks i) cell value ∷ after
          → Wrote s before)

  module _ (m0 : Memory) (pad0 : ℕ → ℕ → ℕ) (Meant : ℕ → ℕ → Type 0) where
    -- Where a copy gets the byte `v` from: input, or a byte that another program left.
    abbrev pub Supplied : ℕ → List Access → ℕ → ℕ → Type 0
    Supplied i pre s v = (Pristine s × (m0 s ≡ v)) ⊎ (Meant s v × Fed i pre s)

    pub record IsDisciplined : Type 0 where
      pub feeds :
          (i p : ℕ) (pre post : List Access) (c : Copy) (a v : ℕ)
          → i < g
          → p < n
          → progs i p ≡ pre ++ transfer c ∷ post
          → Writes a c
          → Meant a v
          → Supplied i pre (c.src + (a - c.dst)) v
      pub fresh :
          (i p cell value : ℕ)
          → i < g
          → p < n
          → Elem (acquire cell value) (progs i p)
          → pad0 (ranks i) cell ≢ value

    -- Nothing that is waited for is missing or overwritten, and who publishes it never waits.
    pub record IsServed : Type 0 where
      pub server :
          (i p cell value : ℕ)
          → i < g
          → p < n
          → Elem (acquire cell value) (progs i p)
          → (j : ℕ) × (q : ℕ) × (j < g)
            × (q < n)
            × Elem (release (ranks i) cell value) (progs j q)
            × ((cell' value' : ℕ) → ¬ Elem (acquire cell' value') (progs j q))
      pub single :
          (i p j q rank cell value value' : ℕ)
          → i < g
          → p < n
          → j < g
          → q < n
          → Elem (release rank cell value) (progs i p)
          → Elem (release rank cell value') (progs j q)
          → value ≡ value'
