-- ===== src/Runtime/Registry.antt =====
-- Group registration, its inverse and the shutdown of gfc/runtime.py.
pub mod Laws
pub mod Cycle
pub mod Down
pub mod Registers
use group_free_collectives.Base.{
  ℕ, zero, suc, ◌+◌, ◌≤◌, Bool, true, false, not, ◌&&◌, Option, none, some, List, [], ◌∷◌, map,
  length, ltb, leb, ◌==◌, if◌then◌else◌, contains, lookup, insert, remove, Outcome, ok, err,
  runtime_error, check,
}
use group_free_collectives.Hash.{group_hash}
use group_free_collectives.Group.{GroupDescriptor, descriptor_check}
use group_free_collectives.Runtime.State.{
  Setup, State, Act, Op, free_row, zero_grids, pure, lift, demand, enqueue, ◌>>=◌, ◌>>◌,
}

abbrev pub list_eqb : List ℕ → List ℕ → Bool
list_eqb [] [] = true
list_eqb (x ∷ xs) (y ∷ ys) = x == y && list_eqb xs ys
list_eqb [] (y ∷ ys) = false
list_eqb (x ∷ xs) [] = false

-- `len(set(rt)) == len(rt)`.
abbrev pub all_distinct : List ℕ → Bool
all_distinct [] = true
all_distinct (x ∷ xs) = not (contains xs x) && all_distinct xs

abbrev pub all_below : ℕ → List ℕ → Bool
all_below n [] = true
all_below n (x ∷ xs) = ltb x n && all_below n xs

-- `rt.index(r) if r in rt else -1`.
unfoldable pub index_of : ℕ → List ℕ → Option ℕ
index_of r [] = none
index_of r (x ∷ xs) =
    let rest = index_of r xs in
    if x == r then some 0 else elim rest [ none ↦ none | some i ↦ some (suc i) ]

-- `_dbg_verify_group_consistency`, over the objects gathered.
unfoldable pub all_agree : ℕ → List ℕ → List (ℕ × List ℕ) → Bool
all_agree gid ranks [] = true
all_agree gid ranks ((g, rs) ∷ rest) = g == gid && (list_eqb rs ranks && all_agree gid ranks rest)

unfoldable pub dbg_verify_group_consistency : Setup → ℕ → List ℕ → Outcome (Unit {0})
unfolding all_agree
dbg_verify_group_consistency rt gid ranks =
    check (all_agree gid ranks (rt.world_gather gid ranks)) runtime_error

abbrev pub or_hash : Option ℕ → List ℕ → ℕ
or_hash none ranks = group_hash ranks
or_hash (some gid) ranks = gid

-- The descriptor that a registration makes; only a member has a device rank list.
unfoldable pub new_descriptor : Setup → ℕ → List ℕ → GroupDescriptor
unfolding index_of
new_descriptor rt gid ranks =
    let local_index = index_of rt.rank ranks in
    record {
      group_id = gid;
      ranks = ranks;
      local_index = local_index;
      size = length ranks;
      ranks_dev = elim local_index [ none ↦ none | some i ↦ some ranks ];
    }

-- The object behind a handle.
abbrev pub deref : ℕ → State → Option GroupDescriptor
deref h s = lookup h s.heap

-- `self._registered[gid] = desc`, the object being new.
abbrev pub add_descriptor : ℕ → GroupDescriptor → Act ℕ
add_descriptor gid d s = (
  ok s.next_handle,
  record s {
    registered = insert gid s.next_handle s.registered;
    heap = insert s.next_handle d s.heap;
    next_handle = suc s.next_handle;
  },
)

abbrev pub same_ranks : Option GroupDescriptor → List ℕ → Bool
same_ranks none ranks = false
same_ranks (some d) ranks = list_eqb d.ranks ranks

-- The part under the lock where the id is new, and the cross-check after it.
unfoldable pub register_new : Setup → ℕ → List ℕ → Act ℕ
unfolding new_descriptor descriptor_check dbg_verify_group_consistency
register_new rt gid ranks = do
  let desc = new_descriptor rt gid ranks
  lift (descriptor_check desc)
  h ← add_descriptor gid desc
  lift (
      if rt.config.enable_debug_checks && length ranks == rt.world_size
      then dbg_verify_group_consistency rt gid ranks
      else ok tt)
  pure h

-- `register_group`: the handle of the descriptor.
unfoldable pub register_group : Setup → List ℕ → Option ℕ → Act ℕ
unfolding register_new
register_group rt ranks group_id = do
  demand (ltb 0 (length ranks) && leb (length ranks) rt.config.max_group_size)
  demand (all_distinct ranks)
  demand (all_below rt.world_size ranks)
  let gid = or_hash group_id ranks
  λ s. elim (lookup gid s.registered) [
    | none ↦ register_new rt gid ranks s
    | some h ↦ (demand (same_ranks (deref h s) ranks) >>= λ _. pure h) s
  ]

abbrev pub clear_row : GroupDescriptor → GroupDescriptor
clear_row d = record d { ranks_dev = none }

-- `unregister_group` of the descriptor `d` behind handle `h`.
unfoldable pub evict : ℕ → GroupDescriptor → State → State
evict h d s =
    let freed : List Op = elim d.ranks_dev [ none ↦ s.ops | some row ↦ free_row row ∷ s.ops ] in
    record s {
      registered = remove d.group_id s.registered;
      heap = insert h (clear_row d) s.heap;
      ops = freed;
    }

abbrev pub is_handle : Option ℕ → ℕ → Bool
is_handle none h = false
is_handle (some j) h = j == h

unfoldable pub unregister_group : ℕ → Act (Unit {0})
unfolding evict
unregister_group h s = elim (deref h s) [
  | none ↦ (ok tt, s)
  | some d ↦ (ok tt, if is_handle (lookup d.group_id s.registered) h then evict h d s else s)
]

-- `object.__setattr__(desc, "ranks_dev", None)` for each registered descriptor.
unfoldable pub clear_registered :
    List (ℕ × ℕ) → List (ℕ × GroupDescriptor) → List (ℕ × GroupDescriptor)
clear_registered [] heap = heap
clear_registered ((gid, h) ∷ rest) heap =
    clear_registered rest
      (elim (lookup h heap) [ none ↦ heap | some d ↦ insert h (clear_row d) heap ])

unfoldable pub shutdown : Act (Unit {0})
unfolding clear_registered
shutdown s =
    let down : State = record s {
      registered = [];
      heap = clear_registered s.registered s.heap;
      ops = zero_grids ∷ s.ops;
      is_shutdown = true;
    } in
    (ok tt, if s.is_shutdown then s else down)
