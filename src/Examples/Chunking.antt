-- ===== src/Examples/Chunking.antt =====
-- A collective whose slices are cut in two chunks.
use group_free_collectives.Base.{
  ◌≡◌, refl, inl, inr, arith, none, some, [], ◌∷◌, ok, lookup, insert, align_up,
}
use group_free_collectives.Config.{SymmetricCollectiveConfig, default_config, post_init}
use group_free_collectives.Config.Laws.{IsValid, post_init-ok_iff}
use group_free_collectives.Autotune.{allgather, all2all}
use group_free_collectives.Group.Epochs.{peek, next_many, next_for_barrier}
use group_free_collectives.Kernel.Pull.{launch_all_gather_pull, launch_all2all_pull}
use group_free_collectives.Runtime.State.{Setup, State}
use group_free_collectives.Runtime.Layout.{effective_pipeline_chunks, chunk_layout, layout_loop}
use group_free_collectives.Runtime.Paths.{
  pipelined_shot, take_many, take_epoch, each_chunk, launch_chunk,
}
use group_free_collectives.Runtime.Collectives.{all_gather, all2all_method}
use group_free_collectives.Runtime.Collectives.Unchunked.{call_of, handed_over}
use group_free_collectives.Runtime.Collectives.Chunked.{Pipelines}
use group_free_collectives.Runtime.Collectives.EndToEnd.{all_gather-Pipelines, all2all-Pipelines}
use group_free_collectives.Examples.Runtimes.{rt, pair, with_pair, tensor, pair_accepted}

abbrev small_chunks : SymmetricCollectiveConfig
small_chunks = record default_config { pipeline_min_chunk_bytes = 128 }

small_chunks-IsValid : IsValid small_chunks
small_chunks-IsValid = (post_init-ok_iff small_chunks).0 (unfold post_init in refl)

abbrev chunking : Setup
chunking = record rt { config = small_chunks }

abbrev gathered : State
gathered = (all_gather chunking (tensor 640 64) (tensor 1280 2048) pair (some 2) with_pair).1

gather_returns :
    all_gather chunking (tensor 640 64) (tensor 1280 2048) pair (some 2) with_pair
    ≡ (ok tt, gathered)
unfolding all_gather pipelined_shot take_many take_epoch each_chunk launch_chunk next_many
    next_for_barrier peek lookup insert launch_all_gather_pull effective_pipeline_chunks
    chunk_layout layout_loop align_up
gather_returns = refl

all_gather-Pipelines_example :
    Pipelines chunking
      (call_of chunking allgather (tensor 640 64) (tensor 1280 2048) pair 640 (1 ∷ 2 ∷ []))
      (handed_over chunking (tensor 640 64) (tensor 1280 2048) with_pair)
      gathered
unfolding effective_pipeline_chunks
all_gather-Pipelines_example =
    all_gather-Pipelines chunking (tensor 640 64) (tensor 1280 2048) pair (some 2) pair_accepted
      refl (omega arith) (omega arith) refl refl refl small_chunks-IsValid
      (λ i lt. inr (omega arith)) (λ i lt. inl (omega arith)) gather_returns

abbrev exchanged : State
exchanged =
    (all2all_method chunking (tensor 1280 64) (tensor 1280 2048) pair none (some 2) with_pair).1

exchange_returns :
    all2all_method chunking (tensor 1280 64) (tensor 1280 2048) pair none (some 2) with_pair
    ≡ (ok tt, exchanged)
unfolding all2all_method pipelined_shot take_many take_epoch each_chunk launch_chunk next_many
    next_for_barrier peek lookup insert launch_all2all_pull effective_pipeline_chunks chunk_layout
    layout_loop align_up
exchange_returns = refl

all2all-Pipelines_example :
    Pipelines chunking
      (call_of chunking all2all (tensor 1280 64) (tensor 1280 2048) pair 640 (1 ∷ 2 ∷ []))
      (handed_over chunking (tensor 1280 64) (tensor 1280 2048) with_pair)
      exchanged
unfolding effective_pipeline_chunks
all2all-Pipelines_example =
    all2all-Pipelines chunking (tensor 1280 64) (tensor 1280 2048) pair none (some 2) 640
      pair_accepted refl refl (omega arith) refl refl refl small_chunks-IsValid
      (λ i lt. inr (omega arith)) (λ i lt. inl (omega arith)) exchange_returns
