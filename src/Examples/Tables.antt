-- ===== src/Examples/Tables.antt =====
-- The autotune table.
use group_free_collectives.Base.{◌≡◌, refl, none, some, List, [], ◌∷◌, ok}
use group_free_collectives.Autotune.{
  all2all, any_collective, only, vec_pull, fused, Knobs, Rule, Policy, table_init, rule_matches,
  policy_for,
}
use group_free_collectives.Autotune.Laws.{FirstMatch, policy_for-first}

abbrev no_knobs : Knobs
no_knobs = record {
  fused_num_channels = none;
  fused_chunk_size = none;
  copy_sms = none;
  pipeline_chunks = none;
}

abbrev large_all2all : Rule
large_all2all = record {
  collective = only all2all;
  group_size = some 4;
  min_bytes = 1024;
  max_bytes = none;
  path = some fused;
  knobs = record no_knobs { fused_num_channels = some 16 };
}

abbrev catch_all : Rule
catch_all = record {
  collective = any_collective;
  group_size = none;
  min_bytes = 0;
  max_bytes = none;
  path = some vec_pull;
  knobs = no_knobs;
}

abbrev table : List Rule
table = large_all2all ∷ catch_all ∷ []

abbrev pull_policy : Policy
pull_policy = record { path = vec_pull; knobs = no_knobs }

small_all2all : policy_for table all2all 4 512 ≡ some pull_policy
unfolding policy_for rule_matches
small_all2all = refl

policy_for-first_example : FirstMatch all2all 4 512 table pull_policy
policy_for-first_example = policy_for-first all2all 4 512 table pull_policy small_all2all

table_accepted : table_init table ≡ ok table
unfolding table_init
table_accepted = refl
