-- ===== src/Examples/Agreements.antt =====
-- Three data paths of one collective, on two ranks and slices of 32 bytes.
use group_free_collectives.Base.{
  ℕ, ◌+◌, ◌*◌, ◌≡◌, refl, inr, arith, none, List, [], ◌∷◌, row_of, ok,
}
use group_free_collectives.Kernel.Memory.{Copy, run}
use group_free_collectives.Kernel.Pull.{
  default_block_bytes, ring_shape, all_gather_pull_kernel, all2all_pull_kernel,
  launch_all_gather_pull, launch_all2all_pull,
}
use group_free_collectives.Kernel.CopyEngine.{
  launch_all_gather_copy_engine, launch_all2all_copy_engine, swizzled_indices, enqueue_each,
  enqueue_then, cuda_memcpy_async,
}
use group_free_collectives.Kernel.Pull.{ring_index}
use group_free_collectives.Kernel.Tma.{
  all_gather_tma_kernel, all2all_tma_kernel, launch_all_gather_tma, launch_all2all_tma,
}
use group_free_collectives.Kernel.Agreement.{all_gather-agree, all2all-agree}

abbrev bases : ℕ → ℕ
bases r = 1000 + r * 100

abbrev ranks : List ℕ
ranks = 1 ∷ 2 ∷ []

abbrev accepts : Copy → ℕ
accepts c = 0

abbrev gather_pulled : List Copy
gather_pulled =
    all_gather_pull_kernel (row_of ranks) bases 0 0 0 32 32 2
      (ring_shape 32 2 16 4 default_block_bytes)

abbrev gather_tiled : List Copy
gather_tiled = all_gather_tma_kernel (row_of ranks) bases 0 0 0 32 2 16 4 4

gather_pull : launch_all_gather_pull (row_of ranks) bases 0 0 0 32 2 16 4 none ≡ ok gather_pulled
unfolding launch_all_gather_pull
gather_pull = refl

gather_tma : launch_all_gather_tma (row_of ranks) bases 0 0 0 32 2 4 16 ≡ ok gather_tiled
unfolding launch_all_gather_tma
gather_tma = refl

gather_engine : (launch_all_gather_copy_engine accepts bases 0 ranks 0 0 32).1 ≡ ok tt
unfolding launch_all_gather_copy_engine swizzled_indices enqueue_each enqueue_then cuda_memcpy_async
    ring_index
gather_engine = refl

all_gather-agree_example :
    (run gather_tiled (λ a. a) 40 ≡ run gather_pulled (λ a. a) 40)
    × (run (launch_all_gather_copy_engine accepts bases 0 ranks 0 0 32).0 (λ a. a) 40
        ≡ run gather_pulled (λ a. a) 40)
all_gather-agree_example =
    all_gather-agree accepts bases ranks 0 0 0 32 16 4 16 (omega arith) (omega arith) (omega arith)
      gather_pull gather_tma gather_engine (λ i lt. inr (omega arith)) (λ a. a) 40

abbrev exchange_pulled : List Copy
exchange_pulled =
    all2all_pull_kernel (row_of ranks) bases 0 0 1 32 32 32 2
      (ring_shape 32 2 16 4 default_block_bytes)

abbrev exchange_tiled : List Copy
exchange_tiled = all2all_tma_kernel (row_of ranks) bases 0 0 1 32 2 16 4 4

exchange_pull :
    launch_all2all_pull (row_of ranks) bases 0 0 1 32 2 16 4 none none none ≡ ok exchange_pulled
unfolding launch_all2all_pull
exchange_pull = refl

exchange_tma : launch_all2all_tma (row_of ranks) bases 0 0 1 32 2 4 16 ≡ ok exchange_tiled
unfolding launch_all2all_tma
exchange_tma = refl

exchange_engine : (launch_all2all_copy_engine accepts bases 0 ranks 0 1 32).1 ≡ ok tt
unfolding launch_all2all_copy_engine swizzled_indices enqueue_each enqueue_then cuda_memcpy_async
    ring_index
exchange_engine = refl

all2all-agree_example :
    (run exchange_tiled (λ a. a) 40 ≡ run exchange_pulled (λ a. a) 40)
    × (run (launch_all2all_copy_engine accepts bases 0 ranks 0 1 32).0 (λ a. a) 40
        ≡ run exchange_pulled (λ a. a) 40)
all2all-agree_example =
    all2all-agree accepts bases ranks 0 0 1 32 16 4 16 (omega arith) (omega arith) (omega arith)
      exchange_pull exchange_tma exchange_engine (λ i lt. inr (omega arith)) (λ a. a) 40
