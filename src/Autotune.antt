-- ===== src/Autotune.antt =====
-- gfc/autotune.py: the policy table. A rule's JSON object is a record: "*" is `any_collective` or
-- `none`, an absent `max_bytes` is `none`, and its numbers are not negative. Reading the file is
-- not modelled; `from_json` starts with the version and the rules of the parsed object. A rule that
-- names no path has path `none`; `policy_for` is on the rules of a table, whose construction refuses
-- an empty path string, so that it does not test for one.
pub mod Laws
use Prim.Native.String.{String}
use group_free_collectives.Base.{
  ℕ, ◌≤◌, Bool, true, false, not, ◌&&◌, ◌||◌, max, Option, none, some, List, [], ◌∷◌, ltb, leb,
  ◌==◌, if◌then◌else◌, Outcome, ok, err, value_error,
}

pub data Collective : Type 0 where
  allgather : Collective
  all2all : Collective

pub data CollectivePattern : Type 0 where
  any_collective : CollectivePattern
  only : Collective → CollectivePattern
  unknown_collective : String → CollectivePattern

-- `_KNOWN_PATHS`, and any other string.
pub data DataPath : Type 0 where
  vec_pull : DataPath
  fused : DataPath
  tma : DataPath
  copy_engine : DataPath
  pipelined : DataPath
  unknown_path : String → DataPath

pub record Knobs : Type 0 where
  pub fused_num_channels : Option ℕ
  pub fused_chunk_size : Option ℕ
  pub copy_sms : Option ℕ
  pub pipeline_chunks : Option ℕ

pub record Rule : Type 0 where
  pub collective : CollectivePattern
  pub group_size : Option ℕ
  pub min_bytes : ℕ
  pub max_bytes : Option ℕ
  pub path : Option DataPath
  pub knobs : Knobs

pub record Policy : Type 0 where
  pub path : DataPath
  pub knobs : Knobs

abbrev pub known_path : DataPath → Bool
known_path (unknown_path s) = false
known_path _ = true

abbrev pub path_accepted : Rule → Bool
path_accepted r = elim r.path [ none ↦ true | some p ↦ known_path p ]

-- `AutotuneTable.__init__`.
unfoldable pub table_init : List Rule → Outcome (List Rule)
table_init [] = ok []
table_init (r ∷ rules) =
    let rest = table_init rules in
    if path_accepted r then elim rest [ ok rs ↦ ok (r ∷ rs) | err e ↦ err e ] else err value_error

-- `AutotuneTable.from_json`, past `json.load`.
unfoldable pub from_json : ℕ → List Rule → Outcome (List Rule)
unfolding table_init
from_json version rules = if version == 1 then table_init rules else err value_error

abbrev pub is_fused : Option DataPath → Bool
is_fused (some fused) = true
is_fused _ = false

abbrev pub get_knob : Option ℕ → ℕ → ℕ
get_knob none d = d
get_knob (some n) d = n

-- `max_fused_num_channels`, from the maximum so far.
unfoldable pub max_channels_from : ℕ → List Rule → ℕ
max_channels_from mx [] = mx
max_channels_from mx (r ∷ rules) =
    max_channels_from
      (if is_fused r.path then max mx (get_knob r.knobs.fused_num_channels 0) else mx) rules

unfoldable pub max_fused_num_channels : List Rule → ℕ
unfolding max_channels_from
max_fused_num_channels rules = max_channels_from 0 rules

abbrev pub same_collective : Collective → Collective → Bool
same_collective allgather allgather = true
same_collective all2all all2all = true
same_collective allgather all2all = false
same_collective all2all allgather = false

abbrev pub collective_matches : CollectivePattern → Collective → Bool
collective_matches any_collective c = true
collective_matches (only p) c = same_collective p c
collective_matches (unknown_collective s) c = false

abbrev pub size_matches : Option ℕ → ℕ → Bool
size_matches none n = true
size_matches (some g) n = g == n

abbrev pub below_max : ℕ → Option ℕ → Bool
below_max n none = true
below_max n (some m) = leb n m

-- The three tests of the loop that `continue`.
unfoldable pub rule_matches : Rule → Collective → ℕ → ℕ → Bool
rule_matches r c group_size slice_bytes =
    collective_matches r.collective c
    && (size_matches r.group_size group_size
        && (leb r.min_bytes slice_bytes && below_max slice_bytes r.max_bytes))

unfoldable pub policy_for : List Rule → Collective → ℕ → ℕ → Option Policy
policy_for [] c group_size slice_bytes = none
policy_for (r ∷ rules) c group_size slice_bytes =
    let rest = policy_for rules c group_size slice_bytes in
    if rule_matches r c group_size slice_bytes
    then elim r.path [ none ↦ rest | some p ↦ some (record { path = p; knobs = r.knobs }) ]
    else rest
