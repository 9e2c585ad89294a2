-- ===== src/Examples/Fleets.antt =====
-- Two members' fused launches, from the call to the end of their runs.
use group_free_collectives.Base.{
  ℕ, ◌+◌, ◌*◌, ◌%◌, ◌≡◌, refl, arith, align_up, ok, List, IsPowerOfTwo,
}
use group_free_collectives.Kernel.Memory.{Memory}
use group_free_collectives.Kernel.Width.{
  gcd, gcd_rounds, base_alignment, vec_width_bytes, next_pow2,
}
use group_free_collectives.Kernel.Fused.{FusedArgs, step_value}
use group_free_collectives.Kernel.Fused.Launch.{FusedCall, fused_args, pick_vec_bytes}
use group_free_collectives.Kernel.Fused.Run.{Access, Launched, start, launched}
use group_free_collectives.Kernel.Fused.Run.Length.{remaining}
use group_free_collectives.Kernel.Fused.Fleet.{IsPlaced, IsFresh}
use group_free_collectives.Kernel.Fused.Fleet.Staging.{gathers, exchanges}
use group_free_collectives.Kernel.Fused.Fleet.Delivers.{Delivers}
use group_free_collectives.Kernel.Fused.Fleet.Launches.{width_for}
use group_free_collectives.Kernel.Fused.Fleet.Outcome.{
  gather_grids, exchange_grids, Runs, Ended, all_gather_fused-Delivers, all_gather_fused-Completes,
  all2all_fused-Delivers, all2all_fused-Completes,
}

abbrev small_call : FusedCall
small_call = record {
  input_ptr = 10_000;
  output_ptr = 50_000;
  comm_buf_offset = 0;
  self_global_rank = 1;
  self_local_index = 0;
  slice_bytes = 6;
  group_size = 2;
  world_size = 4;
  max_chunks_per_channel = 8;
  num_channels = 1;
  chunk_bytes = 4;
  step_base = 99;
  alignment = 8;
}

abbrev small_args : FusedArgs
small_args = record {
  input = 10_000;
  output = 50_000;
  comm_buf_offset = 0;
  self_global_rank = 1;
  self_local_index = 0;
  slice_bytes = 6;
  partition_bytes = 8;
  chunk_bytes = 4;
  step_base = 99;
  world_size = 4;
  max_chunks = 8;
  group_size = 2;
  group_lanes = 2;
  num_channels = 1;
  block_elts = 4096;
  vec_bytes = 1;
}

small_accepted : fused_args small_call ≡ ok small_args
unfolding fused_args pick_vec_bytes base_alignment vec_width_bytes gcd gcd_rounds next_pow2 align_up
small_accepted = refl

abbrev ins : ℕ → ℕ
ins i = 10_000 + i * 1000

abbrev outs : ℕ → ℕ
outs i = 50_000 + i * 1000

abbrev ranks : ℕ → ℕ
ranks i = i + 1

abbrev cb_ptrs : ℕ → ℕ
cb_ptrs r = 100_000 + r * 1000

abbrev blank : ℕ → ℕ → ℕ
blank r x = 0

abbrev bytes : Memory
bytes x = x % 251

abbrev small_widths : ℕ → ℕ
small_widths = width_for small_call ins outs

small-IsFresh : IsFresh small_args ins outs small_widths ranks cb_ptrs blank
unfolding step_value
small-IsFresh i j channel k hi hj hk e = absurd (omega arith)

gather-IsPlaced : IsPlaced small_args ins outs small_widths ranks cb_ptrs 6
gather-IsPlaced = record {
  distinct = λ i j hi hj e. omega arith;
  in_world = λ i hi. omega arith;
  windows = λ i j y z hi hj hy hz e. omega arith;
  outputs = λ i j y z hi hj hy hz e. omega arith;
  window_output = λ i j y z hi hj hy hz e. absurd (omega arith);
  input_window = λ i j y z hi hj hy hz e. absurd (omega arith);
  input_output = λ i j y z hi hj hy hz e. absurd (omega arith);
}

exchange-IsPlaced : IsPlaced small_args ins outs small_widths ranks cb_ptrs 12
exchange-IsPlaced = record {
  distinct = λ i j hi hj e. omega arith;
  in_world = λ i hi. omega arith;
  windows = λ i j y z hi hj hy hz e. omega arith;
  outputs = λ i j y z hi hj hy hz e. omega arith;
  window_output = λ i j y z hi hj hy hz e. absurd (omega arith);
  input_window = λ i j y z hi hj hy hz e. absurd (omega arith);
  input_output = λ i j y z hi hj hy hz e. absurd (omega arith);
}

abbrev eight : IsPowerOfTwo 8
eight = (3, refl)

abbrev gather_programs : ℕ → ℕ → List Access
gather_programs = gather_grids small_call small_accepted eight ins outs ranks cb_ptrs bytes blank

gather_run :
    (v : Launched) × Runs small_call small_accepted eight ins outs ranks cb_ptrs bytes blank
      gather_programs
      (0 + remaining 2 2 (launched gather_programs bytes blank))
      v
    × Ended small_call small_accepted eight ins outs ranks cb_ptrs bytes blank v
gather_run =
    all_gather_fused-Completes small_call small_accepted eight ins outs ranks cb_ptrs bytes blank
      small-IsFresh gather-IsPlaced start

all_gather_fused-Completes_example :
    (v : Launched) × Runs small_call small_accepted eight ins outs ranks cb_ptrs bytes blank
      gather_programs
      (0 + remaining 2 2 (launched gather_programs bytes blank))
      v
    × Ended small_call small_accepted eight ins outs ranks cb_ptrs bytes blank v
all_gather_fused-Completes_example =
    all_gather_fused-Completes small_call small_accepted eight ins outs ranks cb_ptrs bytes blank
      small-IsFresh gather-IsPlaced start

all_gather_fused-Delivers_example :
    Delivers small_args ins outs small_widths ranks cb_ptrs 6
      (gathers small_args ins outs small_widths ranks cb_ptrs)
      (λ t. 0)
      bytes
      gather_run.0.mem
all_gather_fused-Delivers_example =
    all_gather_fused-Delivers small_call small_accepted eight ins outs ranks cb_ptrs bytes blank
      small-IsFresh gather-IsPlaced gather_run.1 gather_run.2

abbrev exchange_programs : ℕ → ℕ → List Access
exchange_programs =
    exchange_grids small_call small_accepted eight ins outs ranks cb_ptrs bytes blank

exchange_run :
    (v : Launched) × Runs small_call small_accepted eight ins outs ranks cb_ptrs bytes blank
      exchange_programs
      (0 + remaining 2 2 (launched exchange_programs bytes blank))
      v
    × Ended small_call small_accepted eight ins outs ranks cb_ptrs bytes blank v
exchange_run =
    all2all_fused-Completes small_call small_accepted eight ins outs ranks cb_ptrs bytes blank
      small-IsFresh exchange-IsPlaced start

all2all_fused-Completes_example :
    (v : Launched) × Runs small_call small_accepted eight ins outs ranks cb_ptrs bytes blank
      exchange_programs
      (0 + remaining 2 2 (launched exchange_programs bytes blank))
      v
    × Ended small_call small_accepted eight ins outs ranks cb_ptrs bytes blank v
all2all_fused-Completes_example =
    all2all_fused-Completes small_call small_accepted eight ins outs ranks cb_ptrs bytes blank
      small-IsFresh exchange-IsPlaced start

all2all_fused-Delivers_example :
    Delivers small_args ins outs small_widths ranks cb_ptrs 12
      (exchanges small_args ins outs small_widths ranks cb_ptrs)
      (λ t. t * 6)
      bytes
      exchange_run.0.mem
all2all_fused-Delivers_example =
    all2all_fused-Delivers small_call small_accepted eight ins outs ranks cb_ptrs bytes blank
      small-IsFresh exchange-IsPlaced exchange_run.1 exchange_run.2
