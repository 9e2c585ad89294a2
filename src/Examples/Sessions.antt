-- ===== src/Examples/Sessions.antt =====
-- Whole calls: collectives that return, the two ends of a put and of a get, and the life of a group.
use group_free_collectives.Base.{
  ◌≡◌, refl, inl, inr, arith, none, some, [], ◌∷◌, lookup, insert, ok,
}
use group_free_collectives.Group.Epochs.{peek, next_pair_for_collective}
use group_free_collectives.Kernel.Pull.{
  launch_all_gather_pull, launch_all2all_pull, launch_pull_copy,
}
use group_free_collectives.Kernel.Width.{vec_for, gcd, gcd_rounds}
use group_free_collectives.Runtime.State.{Setup, State}
use group_free_collectives.Runtime.Registry.{register_group, unregister_group, shutdown}
use group_free_collectives.Runtime.Registry.Cycle.{Restored, unregister-register}
use group_free_collectives.Runtime.Registry.Down.{
  IsDown, Refused, shutdown-IsDown, released-Refused,
}
use group_free_collectives.Runtime.Layout.{effective_pipeline_chunks}
use group_free_collectives.Runtime.Paths.{one_shot, take_pair, launch_pull}
use group_free_collectives.Autotune.{allgather, all2all}
use group_free_collectives.Runtime.Collectives.{all_gather, all2all_method, barrier}
use group_free_collectives.Runtime.Collectives.Delivers.{Delivers}
use group_free_collectives.Runtime.Collectives.Unchunked.{call_of, handed_over}
use group_free_collectives.Runtime.Collectives.EndToEnd.{all_gather-Delivers, all2all-Delivers}
use group_free_collectives.Runtime.PointToPoint.{
  p2p_put, p2p_put_recv, p2p_get, p2p_get_serve, p2p_copy,
}
use group_free_collectives.Runtime.PointToPoint.RoundTrip.{
  Carries, p2p_put_roundtrip, p2p_get_roundtrip,
}
use group_free_collectives.Examples.Runtimes.{
  rt, empty, pair, with_pair, tensor, pair_accepted, pair_registered, with_pair-IsRegistry,
}

abbrev gathered : State
gathered = (all_gather rt (tensor 640 64) (tensor 1280 2048) pair none with_pair).1

gather_returns :
    all_gather rt (tensor 640 64) (tensor 1280 2048) pair none with_pair ≡ (ok tt, gathered)
unfolding all_gather one_shot take_pair next_pair_for_collective peek lookup insert launch_pull
    launch_all_gather_pull effective_pipeline_chunks
gather_returns = refl

all_gather-Delivers_example :
    Delivers rt
      (call_of rt allgather (tensor 640 64) (tensor 1280 2048) pair 640 (1 ∷ 2 ∷ []))
      (handed_over rt (tensor 640 64) (tensor 1280 2048) with_pair)
      gathered
unfolding effective_pipeline_chunks
all_gather-Delivers_example =
    all_gather-Delivers rt (tensor 640 64) (tensor 1280 2048) pair none pair_accepted refl
      (omega arith) (omega arith) refl refl refl (λ i lt. inr (omega arith)) gather_returns

abbrev exchanged : State
exchanged = (all2all_method rt (tensor 1280 64) (tensor 1280 2048) pair none none with_pair).1

exchange_returns :
    all2all_method rt (tensor 1280 64) (tensor 1280 2048) pair none none with_pair
    ≡ (ok tt, exchanged)
unfolding all2all_method one_shot take_pair next_pair_for_collective peek lookup insert launch_pull
    launch_all2all_pull effective_pipeline_chunks
exchange_returns = refl

all2all-Delivers_example :
    Delivers rt
      (call_of rt all2all (tensor 1280 64) (tensor 1280 2048) pair 640 (1 ∷ 2 ∷ []))
      (handed_over rt (tensor 1280 64) (tensor 1280 2048) with_pair)
      exchanged
unfolding effective_pipeline_chunks
all2all-Delivers_example =
    all2all-Delivers rt (tensor 1280 64) (tensor 1280 2048) pair none none 640 pair_accepted refl
      refl (omega arith) refl refl refl (λ i lt. inr (omega arith)) exchange_returns

-- Ranks 1 and 2 in one address space.
abbrev first : Setup
first = record rt { comm_local_ptr = 1_004_096 }

abbrev second : Setup
second = record rt { rank = 2; comm_local_ptr = 2_004_096 }

put_sent :
    p2p_put first 2 (tensor 640 64) none empty
    ≡ (ok tt, (p2p_put first 2 (tensor 640 64) none empty).1)
unfolding p2p_put p2p_copy take_pair next_pair_for_collective peek lookup insert register_group
    launch_pull_copy vec_for gcd gcd_rounds
put_sent = refl

put_received :
    p2p_put_recv second 1 (tensor 640 2048) none empty
    ≡ (ok tt, (p2p_put_recv second 1 (tensor 640 2048) none empty).1)
unfolding p2p_put_recv take_pair next_pair_for_collective peek lookup insert register_group
put_received = refl

get_served :
    p2p_get_serve first 2 (tensor 640 64) none empty
    ≡ (ok tt, (p2p_get_serve first 2 (tensor 640 64) none empty).1)
unfolding p2p_get_serve take_pair next_pair_for_collective peek lookup insert register_group
get_served = refl

get_pulled :
    p2p_get second 1 (tensor 640 2048) none empty
    ≡ (ok tt, (p2p_get second 1 (tensor 640 2048) none empty).1)
unfolding p2p_get p2p_copy take_pair next_pair_for_collective peek lookup insert register_group
    launch_pull_copy vec_for gcd gcd_rounds
get_pulled = refl

p2p_put_roundtrip_example :
    Carries 64 2048 640 empty
      (p2p_put first 2 (tensor 640 64) none empty).1
      empty
      (p2p_put_recv second 1 (tensor 640 2048) none empty).1
p2p_put_roundtrip_example =
    p2p_put_roundtrip first second (tensor 640 64) (tensor 640 2048) none refl empty empty refl
      (omega arith) (inl (omega arith)) put_sent put_received

p2p_get_roundtrip_example :
    Carries 64 2048 640 empty
      (p2p_get_serve first 2 (tensor 640 64) none empty).1
      empty
      (p2p_get second 1 (tensor 640 2048) none empty).1
p2p_get_roundtrip_example =
    p2p_get_roundtrip first second (tensor 640 64) (tensor 640 2048) none refl empty empty refl
      (omega arith) (inr (omega arith)) get_served get_pulled

unregister-register_example : Restored 0 empty (unregister_group 0 with_pair).1
unregister-register_example =
    unregister-register rt (1 ∷ 2 ∷ []) (some 9) empty (unfold lookup in refl) pair_registered

shutdown-IsDown_example : IsDown with_pair (shutdown with_pair).1
shutdown-IsDown_example = shutdown-IsDown with_pair with_pair-IsRegistry refl

released-Refused_example :
    Refused with_pair (barrier rt (record pair { ranks_dev = none }) with_pair)
    × Refused with_pair (
        all_gather rt
          (tensor 640 64)
          (tensor 1280 2048)
          (record pair { ranks_dev = none })
          none
          with_pair)
released-Refused_example =
    released-Refused rt with_pair (record pair { ranks_dev = none }) (tensor 640 64)
      (tensor 1280 2048) none refl
