-- ===== src/Hash/Tokens.antt =====
-- Tokens and group ids: their range, and which of them can collide.
use group_free_collectives.Base.{
  ℕ, ◌^◌, ◌<◌, ◌≡◌, ◌⊎◌, arith, List, [], ◌∷◌, ◌++◌, bit_and, bit_xor, bit_xor-cancel,
  bit_xor-cancel_right, bit_xor-lt,
}
use group_free_collectives.Hash.{
  u64_mask, splitmix64, int, fold_ints, fold_bytes, stable_hash64, compute_token, group_tag,
  group_hash,
}
use group_free_collectives.Hash.Mix.{mask64, splitmix64-lt, splitmix64-injective}

-- A word and an integer, mixed: one round of the hash.
abbrev round : ℕ → ℕ → ℕ
round h v = splitmix64 (bit_xor h (bit_and v u64_mask))

mixed-lt : (h v : ℕ) → h < 2 ^ 64 → bit_xor h (bit_and v u64_mask) < 2 ^ 64
mixed-lt h v p = bit_xor-lt 64 h (bit_and v u64_mask) p (omega (arith, mask64 v))

-- A round determines its word, and its integer modulo 2 ^ 64.
round-injective_word : (h h' v : ℕ) → h < 2 ^ 64 → h' < 2 ^ 64 → round h v ≡ round h' v → h ≡ h'
round-injective_word h h' v p q e =
    bit_xor-cancel_right (bit_and v u64_mask) h h'
      (splitmix64-injective _ _ (mixed-lt h v p) (mixed-lt h' v q) e)

round-injective_int :
    (h v w : ℕ) → h < 2 ^ 64 → v < 2 ^ 64 → w < 2 ^ 64 → round h v ≡ round h w → v ≡ w
round-injective_int h v w p q r e = omega (
  arith,
  mask64 v,
  mask64 w,
  bit_xor-cancel h (bit_and v u64_mask) (bit_and w u64_mask)
      (splitmix64-injective _ _ (mixed-lt h v p) (mixed-lt h w p) e),
)

hash3-lt : (n g e : ℕ) → stable_hash64 (int n ∷ int g ∷ int e ∷ []) < 2 ^ 64
unfolding stable_hash64
hash3-lt n g e = splitmix64-lt _

-- The hash of three integers determines the last, given the others.
hash3-injective :
    (n g e f : ℕ)
    → e < 2 ^ 64
    → f < 2 ^ 64
    → stable_hash64 (int n ∷ int g ∷ int e ∷ []) ≡ stable_hash64 (int n ∷ int g ∷ int f ∷ [])
    → e ≡ f
unfolding stable_hash64
hash3-injective n g e f p q h = round-injective_int _ e f (splitmix64-lt _) p q h

-- A token is a 64-bit word and never 0, the value of a cell that nobody has written.
pub compute_token_bounds : (n g e : ℕ) → (0 < compute_token n g e) × (compute_token n g e < 2 ^ 64)
unfolding compute_token
compute_token_bounds n g e = ground (arith, hash3-lt n g e)

-- Two 64-bit epochs of one group in one session never share a token, unless that token is 1 (the
-- hashes 0 and 1 both become 1).
pub compute_token-injective :
    (n g e f : ℕ)
    → e < 2 ^ 64
    → f < 2 ^ 64
    → compute_token n g e ≡ compute_token n g f
    → (e ≡ f) ⊎ (compute_token n g e ≡ 1)
unfolding compute_token
compute_token-injective n g e f p q h = ground (arith, hash3-injective n g e f p q)

fold_ints-lt : (h : ℕ) (vs : List ℕ) → h < 2 ^ 64 → fold_ints h vs < 2 ^ 64
unfolding fold_ints
fold_ints-lt h [] p = p
fold_ints-lt h (v ∷ vs) p = fold_ints-lt (round h v) vs (splitmix64-lt _)

fold_ints-injective_word :
    (h h' : ℕ) (vs : List ℕ) → h < 2 ^ 64 → h' < 2 ^ 64 → fold_ints h vs ≡ fold_ints h' vs → h ≡ h'
unfolding fold_ints
fold_ints-injective_word h h' [] p q e = e
fold_ints-injective_word h h' (v ∷ vs) p q e =
    round-injective_word h h' v p q
      (fold_ints-injective_word (round h v) (round h' v) vs (splitmix64-lt _) (splitmix64-lt _) e)

fold_ints-injective :
    (h : ℕ) (before : List ℕ) (v w : ℕ) (after : List ℕ)
    → h < 2 ^ 64
    → v < 2 ^ 64
    → w < 2 ^ 64
    → fold_ints h (before ++ v ∷ after) ≡ fold_ints h (before ++ w ∷ after)
    → v ≡ w
unfolding fold_ints
fold_ints-injective h [] v w after p q r e =
    round-injective_int h v w p q r
      (fold_ints-injective_word (round h v) (round h w) after (splitmix64-lt _) (splitmix64-lt _) e)
fold_ints-injective h (b ∷ before) v w after p q r e =
    fold_ints-injective (round h b) before v w after (splitmix64-lt _) q r e

tag_word : ℕ
unfolding fold_bytes
tag_word = fold_bytes 0xCBF29CE484222325 group_tag

tag_word-lt : tag_word < 2 ^ 64
unfolding tag_word
tag_word-lt = splitmix64-lt _

-- Two ordered rank lists that differ at exactly one place, in 64-bit ranks, have different group
-- ids.
pub group_hash-injective :
    (before : List ℕ) (v w : ℕ) (after : List ℕ)
    → v < 2 ^ 64
    → w < 2 ^ 64
    → group_hash (before ++ v ∷ after) ≡ group_hash (before ++ w ∷ after)
    → v ≡ w
unfolding group_hash tag_word
group_hash-injective before v w after p q e =
    fold_ints-injective tag_word before v w after tag_word-lt p q e
