-- ===== src/Examples/Hashing.antt =====
-- Values of the hash, and the theorems about it at concrete words.
use group_free_collectives.Base.{ℕ, ◌≡◌, ◌⊎◌, refl, ◌∷◌, [], arith}
use group_free_collectives.Hash.{int, ints, splitmix64, stable_hash64, compute_token, group_hash}
use group_free_collectives.Hash.Mix.{splitmix64-injective}
use group_free_collectives.Hash.Tokens.{compute_token-injective}

group_hash_value : group_hash (0 ∷ 1 ∷ 3 ∷ []) ≡ 0x43c36f28a000df66
unfolding group_hash splitmix64
group_hash_value = refl

stable_hash64_values : stable_hash64 (int 5 ∷ ints (7 ∷ 9 ∷ []) ∷ []) ≡ 0x45db2d4750eff7cd
unfolding stable_hash64 splitmix64
stable_hash64_values = refl

abbrev nonce : ℕ
nonce = 7

abbrev epoch : ℕ
epoch = 3

compute_token-injective_example : (epoch ≡ epoch) ⊎ (compute_token nonce 5 epoch ≡ 1)
compute_token-injective_example =
    compute_token-injective nonce 5 epoch epoch (omega arith) (omega arith) refl

splitmix64-injective_example : nonce ≡ nonce
splitmix64-injective_example = splitmix64-injective nonce nonce (omega arith) (omega arith) refl
