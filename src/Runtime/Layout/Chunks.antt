-- ===== src/Runtime/Layout/Chunks.antt =====
-- Copies chunk by chunk: lists that each bring one chunk of every piece together bring the pieces.
use group_free_collectives.Base.{
  ℕ, ◌+◌, ◌-◌, ◌*◌, ◌%◌, ◌≤◌, ◌<◌, ◌≡◌, ◌≢◌, sym, ap, subst, ◌∙◌, inl, inr, List, [], ◌∷◌, ◌++◌,
  arith, dec_lt, parts-mod, parts-lt,
}
use group_free_collectives.Base.Membership.{concat_map}
use group_free_collectives.Kernel.Memory.{Memory, Copy, run, run_empty, run-append}
use group_free_collectives.Kernel.Strided.{Apart, Moves}
use group_free_collectives.Runtime.Layout.Laws.{Covers}

-- The lists one after another.
abbrev pub joined : List (List Copy) → List Copy
joined = concat_map (λ cs. cs)

-- Pieces from an equal source.
pub Moves-source :
    {f h : ℕ → ℕ} {dst stride n g : ℕ} {cs : List Copy}
    → ((i : ℕ) → f i ≡ h i)
    → Moves f dst stride n g cs
    → Moves h dst stride n g cs
Moves-source same mv = record {
  pieces = λ m i b p q. mv.pieces m i b p q ∙ ap (λ (x : ℕ). m (x + b)) (same i);
  frame = mv.frame;
}

-- The bytes of two places in a row of pieces differ where their offsets differ.
offset_unique :
    (dst stride i b i' b' : ℕ)
    → b < stride
    → b' < stride
    → dst + i * stride + b ≡ dst + i' * stride + b'
    → b ≡ b'
offset_unique dst stride i b i' b' p q e =
    sym (parts-mod i b stride p)
    ∙ ap (λ (x : ℕ). x % stride) (let h : i * stride + b ≡ i' * stride + b' = omega arith in h)
    ∙ parts-mod i' b' stride q

module _ (src_of : ℕ → ℕ) (dst stride g : ℕ) where
  -- The copies bring the bytes from `off` to `off + n` of each piece, and change no other byte.
  abbrev pub ChunkMoves : ℕ → ℕ → List Copy → Type 0
  ChunkMoves off n = Moves (λ i. src_of i + off) (dst + off) stride n g

  -- One list of copies for each chunk of a layout.
  abbrev pub EachMoves : List (ℕ × ℕ) → List (List Copy) → Type 0
  EachMoves [] [] = Unit {0}
  EachMoves ((off, n) ∷ layout) (cs ∷ rounds) = ChunkMoves off n cs × EachMoves layout rounds
  EachMoves [] (cs ∷ rounds) = ⊥
  EachMoves (a ∷ layout) [] = ⊥

  -- The copies bring the bytes of each piece from `off` on, and change no other byte.
  record Brings (off : ℕ) (cs : List Copy) : Type 0 where
    pieces :
        (m : Memory) (i b : ℕ)
        → i < g
        → off ≤ b
        → b < stride
        → run cs m (dst + i * stride + b) ≡ m (src_of i + b)
    frame :
        (m : Memory) (a : ℕ)
        → ((i b : ℕ) → i < g → off ≤ b → b < stride → a ≢ dst + i * stride + b)
        → run cs m a ≡ m a

  module _ (apart : (i : ℕ) → i < g → Apart (src_of i) stride dst (g * stride)) where
    -- A byte of a source is no target of a chunk.
    source_away :
        (i b i' b' : ℕ)
        → i < g
        → b < stride
        → i' < g
        → b' < stride
        → src_of i + b ≢ dst + i' * stride + b'
    source_away i b i' b' p q p' q' e = elim (apart i p) [
      | inl before ↦ absurd (omega arith)
      | inr after ↦ absurd (omega (arith, parts-lt i' b' stride g p' q'))
    ]

    module _ (off n : ℕ) (cs tail : List Copy) (fits : off + n ≤ stride)
        (chunk : ChunkMoves off n cs) (rest : Brings (off + n) tail) where
      run_both : (m : Memory) (a : ℕ) → run (cs ++ tail) m a ≡ run tail (run cs m) a
      run_both m a = ap (λ f. f a) (run-append cs tail m)

      -- A byte of the chunk arrives, and the rest leaves it.
      early :
          (m : Memory) (i b : ℕ)
          → i < g
          → off ≤ b
          → b < off + n
          → run tail (run cs m) (dst + i * stride + b) ≡ m (src_of i + b)
      early m i b p low high =
          rest.frame (run cs m) (dst + i * stride + b) (λ i' b' p' low' high' e.
            absurd (omega (arith, offset_unique dst stride i b i' b' (omega arith) high' e)))
          ∙ ap (run cs m)
              (let h : dst + i * stride + b ≡ dst + off + i * stride + (b - off) = omega arith in h)
          ∙ chunk.pieces m i (b - off) p (omega arith)
          ∙ ap m (let h : src_of i + off + (b - off) ≡ src_of i + b = omega arith in h)

      -- The chunk leaves the bytes that the rest reads.
      late :
          (m : Memory) (i b : ℕ)
          → i < g
          → off + n ≤ b
          → b < stride
          → run tail (run cs m) (dst + i * stride + b) ≡ m (src_of i + b)
      late m i b p low high =
          rest.pieces (run cs m) i b p low high
          ∙ chunk.frame m (src_of i + b) (λ i' b' p' q' e.
            source_away i b i' (off + b') p high p' (omega arith)
              (let h : src_of i + b ≡ dst + i' * stride + (off + b') = omega (arith, e) in h))

      chunk-Brings : Brings off (cs ++ tail)
      chunk-Brings = record {
        pieces = λ m i b p low high. run_both m (dst + i * stride + b) ∙ elim (dec_lt b (off + n)) [
          | yes below ↦ early m i b p low below
          | no past ↦ late m i b p (omega arith) high
        ];
        frame = λ m a h.
            run_both m a
            ∙ rest.frame (run cs m) a (λ i b p low high. h i b p (omega arith) high)
            ∙ chunk.frame m a (λ i b p q e.
              h i (off + b) p (omega arith) (omega arith)
                (let at : a ≡ dst + i * stride + (off + b) = omega (arith, e) in at));
      }

    each-Brings :
        (align off : ℕ) (layout : List (ℕ × ℕ)) (rounds : List (List Copy))
        → Covers align stride off layout
        → EachMoves layout rounds
        → Brings off (joined rounds)
    each-Brings align off [] [] end h = record {
      pieces = λ m i b p low high. absurd (omega arith);
      frame = λ m a away. run_empty m a;
    }
    each-Brings align off ((o, n) ∷ layout) (cs ∷ rounds) (at, mult, n_pos, fits, rest) (h, hs) =
        subst (λ (x : ℕ). Brings x (cs ++ joined rounds)) at
          (chunk-Brings o n cs (joined rounds) fits h
            (each-Brings align (o + n) layout rounds rest hs))
    each-Brings align off [] (cs ∷ rounds) end h = absurd h
    each-Brings align off (a ∷ layout) [] covers h = absurd h

    -- The chunks of a layout together bring the whole pieces, and change no other byte.
    pub EachMoves-Moves :
        (align : ℕ) (layout : List (ℕ × ℕ)) (rounds : List (List Copy))
        → Covers align stride 0 layout
        → EachMoves layout rounds
        → Moves src_of dst stride stride g (joined rounds)
    EachMoves-Moves align layout rounds covers h =
        let all = each-Brings align 0 layout rounds covers h in
        record {
          pieces = λ m i b p q. all.pieces m i b p (omega arith) q;
          frame = λ m a away. all.frame m a (λ i b p low q. away i b p q);
        }
