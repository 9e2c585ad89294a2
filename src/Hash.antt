-- ===== src/Hash.antt =====
-- gfc/group.py: the 64-bit hash of group ids and tokens. Python integers that enter it are
-- non-negative (ranks, epochs, nonces, hashes); bytes and texts enter as their byte values.
pub mod Mix
pub mod Tokens
use group_free_collectives.Base.{
  ℕ, ◌+◌, ◌*◌, ◌/◌, ◌^◌, ◌-◌, List, [], ◌∷◌, bit_and, bit_xor, ◌==◌, if◌then◌else◌,
}

abbrev pub u64_mask : ℕ
u64_mask = 2 ^ 64 - 1

-- `x ^ (x >> k)`.
abbrev pub xor_shift : ℕ → ℕ → ℕ
xor_shift k x = bit_xor x (x / 2 ^ k)

unfoldable pub splitmix64 : ℕ → ℕ
splitmix64 x0 =
    let x1 = bit_and (x0 + 0x9E3779B97F4A7C15) u64_mask in
    let x2 = bit_and (xor_shift 30 x1 * 0xBF58476D1CE4E5B9) u64_mask in
    let x3 = bit_and (xor_shift 27 x2 * 0x94D049BB133111EB) u64_mask in
    bit_and (xor_shift 31 x3) u64_mask

-- What `stable_hash64` takes; `bytes` also stands for a `str`, by its encoding.
pub data Chunk : Type 0 where
  bytes : List ℕ → Chunk
  ints : List ℕ → Chunk
  int : ℕ → Chunk

unfoldable pub fold_bytes : ℕ → List ℕ → ℕ
fold_bytes h [] = h
fold_bytes h (b ∷ rest) = fold_bytes (splitmix64 (bit_xor h b)) rest

unfoldable pub fold_ints : ℕ → List ℕ → ℕ
fold_ints h [] = h
fold_ints h (v ∷ rest) = fold_ints (splitmix64 (bit_xor h (bit_and v u64_mask))) rest

unfoldable pub fold_chunk : ℕ → Chunk → ℕ
unfolding fold_bytes fold_ints
fold_chunk h (bytes bs) = fold_bytes h bs
fold_chunk h (ints vs) = fold_ints h vs
fold_chunk h (int v) = splitmix64 (bit_xor h (bit_and v u64_mask))

unfoldable pub fold_chunks : ℕ → List Chunk → ℕ
unfolding fold_chunk
fold_chunks h [] = h
fold_chunks h (c ∷ rest) = fold_chunks (fold_chunk h c) rest

unfoldable pub stable_hash64 : List Chunk → ℕ
unfolding fold_chunks
stable_hash64 chunks = fold_chunks 0xCBF29CE484222325 chunks

unfoldable pub compute_token : ℕ → ℕ → ℕ → ℕ
compute_token session_nonce group_id epoch =
    let h = stable_hash64 (int session_nonce ∷ int group_id ∷ int epoch ∷ []) in
    if h == 0 then 1 else h

-- `b"gfc-group-v1"`.
abbrev pub group_tag : List ℕ
group_tag = b'g' ∷ b'f' ∷ b'c' ∷ b'-' ∷ b'g' ∷ b'r' ∷ b'o' ∷ b'u' ∷ b'p' ∷ b'-' ∷ b'v' ∷ b'1' ∷ []

-- The id of a group that is registered without one.
unfoldable pub group_hash : List ℕ → ℕ
unfolding stable_hash64
group_hash ranks = stable_hash64 (bytes group_tag ∷ ints ranks ∷ [])
