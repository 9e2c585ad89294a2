-- ===== src/Examples/Kernels.antt =====
-- The pull kernels, the widths and the copy engine.
use group_free_collectives.Base.{
  true, [], ◌∷◌, ℕ, ◌+◌, ◌*◌, ◌≡◌, refl, inl, inr, arith, none, List, ok,
}
use group_free_collectives.Kernel.Memory.{Copy}
use group_free_collectives.Kernel.Strided.{Moves}
use group_free_collectives.Kernel.Pull.{
  dtype_for_vec, default_block_bytes, ring_shape, pull_copy_kernel, all_gather_pull_kernel,
  all2all_pull_kernel, launch_all_gather_pull, launch_all2all_pull, launch_pull_copy,
}
use group_free_collectives.Kernel.Pull.Laws.{
  gather_src, exchange_src, launch_all_gather_pull-Moves, launch_all2all_pull-Moves,
}
use group_free_collectives.Kernel.Width.{gcd, gcd_rounds, vec_width_bytes, vec_for}

abbrev ranks : ℕ → ℕ
ranks i = i + 1

abbrev bases : ℕ → ℕ
bases r = 1000 + r * 100

abbrev gathered : List Copy
gathered =
    all_gather_pull_kernel ranks bases 0 0 0 20 20 2 (ring_shape 20 2 4 1 default_block_bytes)

gather_launch : launch_all_gather_pull ranks bases 0 0 0 20 2 4 1 none ≡ ok gathered
unfolding launch_all_gather_pull
gather_launch = refl

launch_all_gather_pull-Moves_example : Moves (gather_src ranks bases 0) 0 20 20 2 gathered
launch_all_gather_pull-Moves_example =
    launch_all_gather_pull-Moves ranks bases 0 0 0 20 2 4 1 none gather_launch
      (inl (unfold dtype_for_vec in refl)) (λ i h. inr (omega arith))

abbrev exchanged : List Copy
exchanged =
    all2all_pull_kernel ranks bases 0 0 1 20 20 20 2 (ring_shape 20 2 16 2 default_block_bytes)

exchange_launch : launch_all2all_pull ranks bases 0 0 1 20 2 16 2 none none none ≡ ok exchanged
unfolding launch_all2all_pull
exchange_launch = refl

launch_all2all_pull-Moves_example : Moves (exchange_src ranks bases 0 1 20) 0 20 20 2 exchanged
launch_all2all_pull-Moves_example =
    launch_all2all_pull-Moves ranks bases 0 0 1 20 2 16 2 none none none exchange_launch
      (inr (omega arith)) (λ i h. inr (omega arith))

abbrev one_copy : List Copy
one_copy =
    pull_copy_kernel 500 0 21
      (record { elt_bytes = 4; block_elts = 16384; has_tail = true; grid = 1 })

copy_launch : launch_pull_copy 500 0 21 4 3 ≡ ok one_copy
unfolding launch_pull_copy
copy_launch = refl

-- A width need not divide every alignment that it was picked for.
width_of_24 : vec_width_bytes (24 ∷ []) ≡ 16
unfolding vec_width_bytes
width_of_24 = refl

width_values : vec_for (1024 ∷ 4096 ∷ []) 40 ≡ 8
unfolding vec_for gcd gcd_rounds
width_values = refl
