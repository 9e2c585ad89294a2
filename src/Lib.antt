-- ===== src/Lib.antt =====
-- gfc: group-free symmetric collectives, verified.
--
-- The program moves tensors between the GPUs of one node without a process group per subgroup.
-- A runtime (gfc/runtime.py) is made once per rank from a configuration (gfc/config.py) and the
-- environment's overrides (gfc/env.py). It keeps a registry of groups and a counter of epochs per
-- group (gfc/group.py). A collective checks its arguments, chooses a data path, by an autotune table
-- (gfc/autotune.py) if there is one, reserves epochs, and enqueues on its stream the staging of the
-- input, a barrier on a token hashed from session, group and epoch, kernels that pull from the peers'
-- buffers (gfc/kernels), and a last barrier after which the buffers may be used again.
--
-- Which file models which part:
--   Base        Python's exceptions as values, lists and dictionaries, bit operations, rounding.
--   Config      gfc/config.py: the record and `__post_init__`; Config/Env: the overrides of
--               gfc/env.py as gfc/runtime.py applies them.
--   Hash        gfc/group.py: `_splitmix64`, `stable_hash64`, `compute_token`.
--   Group       gfc/group.py: `GroupDescriptor`; Group/Epochs: `_EpochManager`.
--   Autotune    gfc/autotune.py: the rules, their checks and the choice of a policy.
--   Buffer      gfc/buffer.py: the sizes of the symmetric regions.
--   Kernel      Memory: a byte memory and copies run one after another; Grid: the persistent loop;
--               Pull: gfc/kernels/all_gather.py, all2all.py, copy_pull.py; Width:
--               gfc/kernels/_common.py; CopyEngine, Tma, Fused, Barrier: the files of those names;
--               Agreement, Raw, Fuel: what relates or bounds them.
--   Probe       gfc/tma_probe.py: the probe over a world; Probe/Wiring: what its answer tells.
--   Runtime     gfc/runtime.py. Init: the constructor; State: what it fixes, what its methods
--               change, and their effects; Registry: `register_group`, `unregister_group`,
--               `shutdown`, with their cycles in Registry/Cycle and Registry/Down, and the ways that a
--               registration ends in Registry/Registers; Layout: the
--               chunking; Paths: the data paths; Collectives: `barrier`, `all_gather`, `all2all`, the
--               dispatch and its guard, with Collectives/EndToEnd from a call to the bytes it moves
--               (Collectives/Chunked and Layout/Chunks: chunk by chunk);
--               PointToPoint: the p2p calls, with PointToPoint/Joint and PointToPoint/RoundTrip: the
--               work of both ranks on one memory, their barriers passed together.
--   Examples    the theorems at concrete inputs, and values of the definitions.
--
-- How code becomes definitions. A kernel launch is the list of the copies that its programs make,
-- program by program; a method is a function from the state to an outcome and a state, so what it
-- did before it raised stays done. The work enqueued is a log, the newest entry first. A descriptor
-- is an object on a heap behind a handle, so a stale handle is told from a live one. The lock makes
-- each method one step.
--
-- The barrier kernel is a step relation instead: each rank's programs, one shared access at a time, in
-- any order, on counters that wrap at 2 ^ 64. When a stream starts the next launch is left open, and
-- so is the clock: with a timeout, any round of the spin may find it expired. Barriers that are
-- two apart on an edge share a cell, so their tokens are asked to differ; tokens are hashes, and
-- Hash/Tokens is about how far they do. The accesses of all programs are in one order, where the
-- kernel uses release stores and acquire loads.
--
-- The fused kernels are run in Kernel/Fused/Run the same way: the programs of all members of a group,
-- each a list of accesses, take one access at a time in any order. Fused/Fleet is about the launches of
-- one call by all members, on one memory in which the tables of peer pointers name every window.
--
-- Bounds and fuel. Integers are natural numbers: the sources check that configured values, sizes
-- and ranks are not negative, and hashes are reduced modulo 2 ^ 64 where the source masks them.
-- `persistent` runs on the number of work items, since each round advances by a positive stride;
-- `double_until` on the bound, since each round at least doubles a power of two; `gcd_rounds` on its
-- second number, since remainders fall; `layout_loop` on the room left, as the source counts it.
--
-- Outside the model: torch's streams, allocator and process groups; the driver's `cudaMemcpyAsync`
-- (a parameter, its error code); what a device makes of the probe's kernel (a parameter); the
-- gathered objects of the debug checks (a parameter); inline PTX, logging, parsing of the
-- environment and of JSON. The copies of a kernel are run in program order, except in
-- Kernel/Fused/Run. A chunk's staging is logged where the loop enqueues it; that it runs beside the
-- kernel of the chunk before is not followed.
pub mod Base
pub mod Config
pub mod Hash
pub mod Group
pub mod Kernel
pub mod Autotune
pub mod Buffer
pub mod Probe
pub mod Runtime
pub mod Examples
