-- ===== src/Runtime/Layout.antt =====
-- The chunking of the pipelined path: `_effective_pipeline_chunks` and `_chunk_layout` of
-- gfc/runtime.py.
pub mod Laws
pub mod Chunks
use group_free_collectives.Base.{
  ℕ, zero, suc, ◌+◌, ◌-◌, ◌*◌, ◌/◌, min, max, Bool, true, false, ◌||◌, Option, none, some, List, [],
  ◌∷◌, ltb, leb, ◌==◌, if◌then◌else◌, cdiv, align_up, Outcome, ok, require, ◌>>◌,
}
use group_free_collectives.Config.{SymmetricCollectiveConfig}
use group_free_collectives.Runtime.State.{Setup}

abbrev pub or_else : Option ℕ → ℕ → ℕ
or_else none d = d
or_else (some n) d = n

unfoldable pub effective_pipeline_chunks : Setup → ℕ → Option ℕ → ℕ
effective_pipeline_chunks rt axis_bytes override =
    let target = min (or_else override rt.config.pipeline_chunks) rt.config.max_pipeline_chunks in
    let min_chunk = rt.config.pipeline_min_chunk_bytes in
    let max_by_size = max 1 (axis_bytes / min_chunk) in
    if rt.tma_enabled || rt.copy_engine_enabled
    then 1
    else if leb target 1
    then 1
    else if ltb axis_bytes (2 * min_chunk)
    then 1
    else max 1 (min target max_by_size)

-- `while off < axis_bytes and len(layout) < chunks`, with `room` entries left to append: the
-- entries, and `off` after the loop.
unfoldable pub layout_loop : ℕ → ℕ → ℕ → ℕ → List (ℕ × ℕ) × ℕ
layout_loop zero nominal axis_bytes off = ([], off)
layout_loop (suc room) nominal axis_bytes off =
    let size = min nominal (axis_bytes - off) in
    let rest = layout_loop room nominal axis_bytes (off + size) in
    if ltb off axis_bytes then ((off, size) ∷ rest.0, rest.1) else ([], off)

-- `layout[-1] = (last_off, last_size + extra)`.
unfoldable pub grow_last : ℕ → List (ℕ × ℕ) → List (ℕ × ℕ)
grow_last extra [] = []
grow_last extra ((off, size) ∷ []) = (off, size + extra) ∷ []
grow_last extra (a ∷ b ∷ rest) = a ∷ grow_last extra (b ∷ rest)

unfoldable pub chunk_layout : ℕ → ℕ → ℕ → Outcome (List (ℕ × ℕ))
chunk_layout axis_bytes chunks align = do
  require (leb 1 chunks)
  let nominal = align_up (cdiv axis_bytes chunks) align
  let found = layout_loop chunks nominal axis_bytes 0
  ok (
      if chunks == 1 || axis_bytes == 0
      then (0, axis_bytes) ∷ []
      else if ltb found.1 axis_bytes
      then grow_last (axis_bytes - found.1) found.0
      else found.0)
