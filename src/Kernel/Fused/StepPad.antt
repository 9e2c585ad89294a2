-- ===== src/Kernel/Fused/StepPad.antt =====
-- The cells of the step grid that a fused launch touches.
use native.Mathlib.Nat.{add-mul}
use group_free_collectives.Base.{
  ℕ, ◌+◌, ◌-◌, ◌*◌, ◌/◌, ◌%◌, ◌≤◌, ◌<◌, ◌≡◌, refl, sym, ap, ◌∙◌, min, arith, cdiv, cdiv-le, le-cdiv,
  parts-lt, parts-div, parts-mod, ok, assertion_error, value_error, check, >>=-ok, ok-injective,
  subst, ltb, leb,
}
use group_free_collectives.Config.{SymmetricCollectiveConfig, fused_max_chunks_per_channel}
use group_free_collectives.Buffer.{allocate_symm_regions}
use group_free_collectives.Kernel.Fused.{FusedArgs, n_chunks, step_cell}
use group_free_collectives.Kernel.Fused.Launch.{FusedCall, fused_args, partition_of}

cell-row :
    (a : FusedArgs) (ch k r : ℕ) → step_cell a ch k r ≡ (ch * a.max_chunks + k) * a.world_size + r
unfolding step_cell
cell-row a ch k r = ap (λ (x : ℕ). x + r) (sym (add-mul (ch * a.max_chunks) k a.world_size))

-- Two cells of the grid are the same word only if channel, chunk and rank are the same.
pub step_cell-injective :
    (a : FusedArgs) (ch k r ch' k' r' : ℕ)
    → k < a.max_chunks
    → k' < a.max_chunks
    → r < a.world_size
    → r' < a.world_size
    → step_cell a ch k r ≡ step_cell a ch' k' r'
    → (ch ≡ ch') × (k ≡ k') × (r ≡ r')
step_cell-injective a ch k r ch' k' r' kb kb' rb rb' e = (
  sym (parts-div ch k a.max_chunks kb)
      ∙ ap (λ (x : ℕ). x / a.max_chunks) row-eq
      ∙ parts-div ch' k' a.max_chunks kb',
  sym (parts-mod ch k a.max_chunks kb)
      ∙ ap (λ (x : ℕ). x % a.max_chunks) row-eq
      ∙ parts-mod ch' k' a.max_chunks kb',
  sym (parts-mod _ r a.world_size rb)
      ∙ ap (λ (x : ℕ). x % a.world_size) cells
      ∙ parts-mod _ r' a.world_size rb',
)
  where
    cells :
        (ch * a.max_chunks + k) * a.world_size + r ≡ (ch' * a.max_chunks + k') * a.world_size + r'
    cells = sym (cell-row a ch k r) ∙ e ∙ cell-row a ch' k' r'

    row-eq : ch * a.max_chunks + k ≡ ch' * a.max_chunks + k'
    row-eq =
        sym (parts-div _ r a.world_size rb)
        ∙ ap (λ (x : ℕ). x / a.world_size) cells
        ∙ parts-div _ r' a.world_size rb'

pub n_chunks-le :
    (a : FusedArgs) (ch : ℕ)
    → 0 < a.chunk_bytes
    → n_chunks a ch ≤ cdiv a.partition_bytes a.chunk_bytes
n_chunks-le a ch pos =
    cdiv-le (min a.partition_bytes (a.slice_bytes - ch * a.partition_bytes)) a.chunk_bytes
      (cdiv a.partition_bytes a.chunk_bytes) pos
      (omega (arith, le-cdiv a.partition_bytes a.chunk_bytes pos))

-- What a launch that its checks accept hands the kernels.
pub args-bounds :
    (c : FusedCall) {a : FusedArgs}
    → fused_args c ≡ ok a
    → (0 < a.chunk_bytes)
      × (cdiv a.partition_bytes a.chunk_bytes ≤ a.max_chunks)
      × (a.max_chunks ≡ c.max_chunks_per_channel)
      × (a.world_size ≡ c.world_size)
      × (a.num_channels ≡ c.num_channels)
unfolding fused_args
args-bounds c h =
    let (u1, e1, h1) = >>=-ok (check (ltb 0 c.slice_bytes) assertion_error) _ h in
    let (u2, e2, h2) = >>=-ok (check (ltb 0 c.group_size) assertion_error) _ h1 in
    let (u3, e3, h3) = >>=-ok (check (ltb 0 c.num_channels) assertion_error) _ h2 in
    let (u4, e4, h4) = >>=-ok (check (ltb 0 c.chunk_bytes) assertion_error) _ h3 in
    let (u5, e5, h5) =
      >>=-ok
        (check
          (leb (cdiv (partition_of c.slice_bytes c.num_channels c.alignment) c.chunk_bytes)
            c.max_chunks_per_channel)
          value_error)
        _ h4 in
    subst
      (λ a.
        (0 < a.chunk_bytes)
        × (cdiv a.partition_bytes a.chunk_bytes ≤ a.max_chunks)
        × (a.max_chunks ≡ c.max_chunks_per_channel)
        × (a.world_size ≡ c.world_size)
        × (a.num_channels ≡ c.num_channels))
      (ok-injective h5) (ground arith, ground arith, refl, refl, refl)

-- Every cell that an accepted launch publishes or awaits lies inside the grid that was allocated.
pub step_cell-in_bounds :
    (config : SymmetricCollectiveConfig) (world : ℕ) (c : FusedCall) {a : FusedArgs} (ch k r : ℕ)
    → fused_args c ≡ ok a
    → c.world_size ≡ world
    → c.max_chunks_per_channel ≡ fused_max_chunks_per_channel config
    → c.num_channels ≤ config.fused_num_channels
    → ch < a.num_channels
    → k < n_chunks a ch
    → r < world
    → step_cell a ch k r < (allocate_symm_regions config world).step_pad
unfolding allocate_symm_regions
step_cell-in_bounds config world c {a} ch k r h world-eq chunks-eq few ch_lt k_lt r_lt =
    let (pos, bound, max-eq, w-eq, n-eq) = args-bounds c h in
    let k_max : k < a.max_chunks = omega (arith, n_chunks-le a ch pos) in
    let row_lt : ch * a.max_chunks + k < config.fused_num_channels * a.max_chunks =
      parts-lt ch k a.max_chunks config.fused_num_channels (omega arith) k_max in
    let cell_lt : (ch * a.max_chunks + k) * a.world_size + r
        < config.fused_num_channels * a.max_chunks * a.world_size =
      parts-lt (ch * a.max_chunks + k) r a.world_size (config.fused_num_channels * a.max_chunks)
        row_lt (omega arith) in
    subst (λ (x : ℕ). step_cell a ch k r < config.fused_num_channels * x * world)
      (max-eq ∙ chunks-eq)
      (subst (λ (x : ℕ). step_cell a ch k r < config.fused_num_channels * a.max_chunks * x)
        (w-eq ∙ world-eq) (omega (arith, cell-row a ch k r, cell_lt)))
