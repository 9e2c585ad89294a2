-- ===== src/Kernel/Barrier.antt =====
-- gfc/kernels/barrier.py: the program of one edge, a shared access at a time, and the ranks of a
-- world that run such programs in any order. `signal_buf` of rank q holds 2 slots of `world_size`
-- cells; the cell of rank r in slot s is word `s * world_size + r`.
pub mod Invariant
pub mod Cells
pub mod Moves
pub mod Reachable
pub mod Safety
pub mod Progress
pub mod Order
pub mod Refinement
use group_free_collectives.Base.{
  ℕ, suc, ◌+◌, ◌*◌, ◌%◌, ◌^◌, ◌<◌, ◌≡◌, ◌≢◌, List, map, bit_and, ltb, Outcome, ok, check,
  assertion_error, ◌>>◌, range,
}
use group_free_collectives.Kernel.Family.{set2}

-- Whose counters and cells: first the rank that owns the memory.
pub record Signals : Type 0 where
  pub edge_seq : ℕ → ℕ → ℕ
  pub signal_buf : ℕ → ℕ → ℕ

-- The arguments of the kernel, and the peer that a program has read from the group's row.
pub record EdgeArgs : Type 0 where
  pub token : ℕ
  pub self_global_rank : ℕ
  pub peer : ℕ
  pub world_size : ℕ
  pub timeout_ns : ℕ

-- Where a program stands, with the local variables that are live there.
pub data Pc : Type 0 where
  ready : Pc
  loaded : (seq : ℕ) → Pc
  bumped : (slot : ℕ) → Pc
  waiting : (slot : ℕ) → Pc  -- before the first load of the spin
  spinning : (slot : ℕ) → Pc  -- inside the loop
  passed : Pc
  trapped : Pc

abbrev pub cell : ℕ → ℕ → ℕ → ℕ
cell world_size slot rank = slot * world_size + rank

-- `ld_acquire_sys_u64(read_ptr)`.
abbrev pub observed : EdgeArgs → Signals → ℕ → ℕ
observed a m slot = m.signal_buf a.self_global_rank (cell a.world_size slot a.peer)

abbrev pub store_seq : EdgeArgs → Signals → ℕ → Signals
store_seq a m seq = record m {
  edge_seq = set2 m.edge_seq a.self_global_rank a.peer ((seq + 1) % 2 ^ 64);
}

-- `st_release_sys_u64(write_ptr, token)`.
abbrev pub store_token : EdgeArgs → Signals → ℕ → Signals
store_token a m slot = record m {
  signal_buf = set2 m.signal_buf a.peer (cell a.world_size slot a.self_global_rank) a.token;
}

-- One access of a program. The clock is the environment's: with a timeout, any round of the loop
-- may find it expired, whatever that round has observed.
pub data Move (a : EdgeArgs) (m : Signals) : Pc → Signals → Pc → Type 0 where
  load_seq : Move a m ready m (loaded (m.edge_seq a.self_global_rank a.peer))
  bump : {seq : ℕ} → Move a m (loaded seq) (store_seq a m seq) (bumped (bit_and seq 1))
  publish : {slot : ℕ} → Move a m (bumped slot) (store_token a m slot) (waiting slot)
  first_seen : {slot : ℕ} → observed a m slot ≡ a.token → Move a m (waiting slot) m passed
  first_missed :
      {slot : ℕ} → observed a m slot ≢ a.token → Move a m (waiting slot) m (spinning slot)
  seen : {slot : ℕ} → observed a m slot ≡ a.token → Move a m (spinning slot) m passed
  missed : {slot : ℕ} → observed a m slot ≢ a.token → Move a m (spinning slot) m (spinning slot)
  expired : {slot : ℕ} → 0 < a.timeout_ns → Move a m (spinning slot) m trapped

-- The grid of a launch: a program for each entry of the group's row, which is device memory and
-- holds the group's ranks.
unfoldable pub launch_barrier : EdgeArgs → (ℕ → ℕ) → ℕ → Outcome (List EdgeArgs)
launch_barrier a group_ranks_row group_size =
    check (ltb 0 group_size) assertion_error
    >> ok (map (λ pid. record a { peer = group_ranks_row pid }) (range group_size))

-- `pc r p` is the program of rank r for peer p, in the barrier number `rounds r p` of their edge.
pub record World : Type 0 where
  pub mem : Signals
  pub pc : ℕ → ℕ → Pc
  pub rounds : ℕ → ℕ → ℕ

-- The zeroed grids and counters of a fresh boot.
abbrev pub boot : World
boot = record {
  mem = record { edge_seq = λ _ _. 0; signal_buf = λ _ _. 0 };
  pc = λ _ _. ready;
  rounds = λ _ _. 0;
}

-- `token r p n` is the token that rank r passes to its barrier number n with p in the group.
module _ (world_size timeout_ns : ℕ) (token : ℕ → ℕ → ℕ → ℕ) where
  abbrev pub edge_args : World → ℕ → ℕ → EdgeArgs
  edge_args w r p = record {
    token = token r p (w.rounds r p);
    self_global_rank = r;
    peer = p;
    world_size = world_size;
    timeout_ns = timeout_ns;
  }

  -- A program makes an access, or a rank whose program has passed launches the next one. When the
  -- stream gets to it is left open.
  pub data Step (w : World) : World → Type 0 where
    access :
        (r p : ℕ) {m : Signals} {c : Pc}
        → r < world_size
        → p < world_size
        → Move (edge_args w r p) w.mem (w.pc r p) m c
        → Step w (record { mem = m; pc = set2 w.pc r p c; rounds = w.rounds })
    launch :
        (r p : ℕ)
        → w.pc r p ≡ passed
        → Step w (record {
          mem = w.mem;
          pc = set2 w.pc r p ready;
          rounds = set2 w.rounds r p (suc (w.rounds r p));
        })

  pub data Reach : World → Type 0 where
    start : Reach boot
    later : {v w : World} → Reach v → Step v w → Reach w
