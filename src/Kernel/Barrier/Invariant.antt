-- ===== src/Kernel/Barrier/Invariant.antt =====
-- What every reachable world of barrier programs satisfies, stated by three counters per edge end:
-- how often its counter was bumped, how many tokens it has published, how many waits it has passed.
use group_free_collectives.Base.{ℕ, suc, ◌+◌, ◌%◌, ◌^◌, ◌≤◌, ◌<◌, ◌≡◌, ◌≢◌}
use group_free_collectives.Kernel.Barrier.{
  Pc, ready, loaded, bumped, waiting, spinning, passed, cell, World,
}

abbrev pub bumps : Pc → ℕ
bumps ready = 0
bumps (loaded _) = 0
bumps _ = 1

abbrev pub sends : Pc → ℕ
sends ready = 0
sends (loaded _) = 0
sends (bumped _) = 0
sends _ = 1

abbrev pub passes : Pc → ℕ
passes passed = 1
passes _ = 0

abbrev pub bumped_count : World → ℕ → ℕ → ℕ
bumped_count w r p = w.rounds r p + bumps (w.pc r p)

abbrev pub sent : World → ℕ → ℕ → ℕ
sent w r p = w.rounds r p + sends (w.pc r p)

abbrev pub passed_count : World → ℕ → ℕ → ℕ
passed_count w r p = w.rounds r p + passes (w.pc r p)

-- The local variables of a program in the barrier number n of its edge.
abbrev pub Locals : ℕ → Pc → Type 0
Locals n (loaded seq) = seq ≡ n % 2 ^ 64
Locals n (bumped slot) = slot ≡ n % 2
Locals n (waiting slot) = slot ≡ n % 2
Locals n (spinning slot) = slot ≡ n % 2
Locals n _ = Unit

module _ (world_size : ℕ) (token : ℕ → ℕ → ℕ → ℕ) where
  -- Both ends of an edge issue its barriers in one order, so with one sequence of tokens. No token
  -- is the value of an untouched cell, nor that of the barrier before the last.
  pub record IsOrdered : Type 0 where
    pub same : (r p n : ℕ) → r < world_size → p < world_size → token r p n ≡ token p r n
    pub nonzero : (r p n : ℕ) → token r p n ≢ 0
    pub changes : (r p n : ℕ) → token r p (suc (suc n)) ≢ token r p n

  -- The cells that r has of p's buffer keep the last two tokens that r has sent.
  pub record Cells (buf : ℕ → ℕ → ℕ) (count : ℕ → ℕ → ℕ) : Type 0 where
    pub full :
        (r p n : ℕ)
        → r < world_size
        → p < world_size
        → n < count r p
        → count r p ≤ n + 2
        → buf p (cell world_size (n % 2) r) ≡ token r p n
    pub fresh :
        (r p n : ℕ)
        → r < world_size
        → p < world_size
        → count r p ≤ n
        → n < 2
        → buf p (cell world_size n r) ≡ 0

  pub record Inv (w : World) : Type 0 where
    pub counter :
        (r p : ℕ)
        → r < world_size
        → p < world_size
        → w.mem.edge_seq r p ≡ bumped_count w r p % 2 ^ 64
    pub locals : (r p : ℕ) → r < world_size → p < world_size → Locals (w.rounds r p) (w.pc r p)
    pub waited : (r p : ℕ) → r < world_size → p < world_size → passed_count w r p ≤ sent w p r
    pub cells : Cells w.mem.signal_buf (sent w)
