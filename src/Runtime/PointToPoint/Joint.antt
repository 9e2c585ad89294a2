-- ===== src/Runtime/PointToPoint/Joint.antt =====
-- The work of two ranks on one memory: each rank's copies in its own order, one at a time, in any
-- interleaving with the other's, and a barrier of one only together with the same barrier of the
-- other.
use group_free_collectives.Base.{ℕ, ◌≡◌, refl, sym, ap, subst, ◌∙◌, List, [], ◌∷◌, ◌++◌, map}
use group_free_collectives.Kernel.Memory.{Memory, Copy, run, run_nothing, run_cons, store}
use group_free_collectives.Runtime.State.{
  Op, ingest, stage, barrier_launch, kernel, fused_kernel, fork, on_copy_stream, join, free_row,
  zero_grids,
}

pub data Event : Type 0 where
  moves : Copy → Event
  meets : (token : ℕ) → Event

-- The events of a log, the oldest first.
unfoldable pub events : List Op → List Event
events [] = []
events (stage cs ∷ ops) = events ops ++ map moves cs
events (kernel cs ∷ ops) = events ops ++ map moves cs
events (on_copy_stream cs ∷ ops) = events ops ++ map moves cs
events (barrier_launch row size token ∷ ops) = events ops ++ meets token ∷ []
events (fused_kernel ps ∷ ops) = events ops
events (ingest ps ∷ ops) = events ops
events (fork ∷ ops) = events ops
events (join ∷ ops) = events ops
events (free_row row ∷ ops) = events ops
events (zero_grids ∷ ops) = events ops

abbrev pub tokens : List Event → List ℕ
tokens [] = []
tokens (moves c ∷ xs) = tokens xs
tokens (meets t ∷ xs) = t ∷ tokens xs

-- A run of both to their ends, from a memory to a memory.
pub data Joint : Memory → List Event → List Event → Memory → Type 0 where
  ended : {m m' : Memory} {xs ys : List Event} → xs ≡ [] → ys ≡ [] → m' ≡ m → Joint m xs ys m'
  one_moves :
      {m m' : Memory} {xs ys : List Event} (c : Copy) (rest : List Event)
      → xs ≡ moves c ∷ rest
      → Joint (store c m) rest ys m'
      → Joint m xs ys m'
  other_moves :
      {m m' : Memory} {xs ys : List Event} (c : Copy) (rest : List Event)
      → ys ≡ moves c ∷ rest
      → Joint (store c m) xs rest m'
      → Joint m xs ys m'
  both_meet :
      {m m' : Memory} {xs ys : List Event} (token : ℕ) (rest rest' : List Event)
      → xs ≡ meets token ∷ rest
      → ys ≡ meets token ∷ rest'
      → Joint m rest rest' m'
      → Joint m xs ys m'

moves-injective : {c d : Copy} → moves c ≡ moves d → c ≡ d
moves-injective e = cc

head-eq : {x y : Event} {xs ys : List Event} → x ∷ xs ≡ y ∷ ys → (x ≡ y) × (xs ≡ ys)
head-eq e = (cc, cc)

recast :
    {m n m' : Memory} {xs xs' ys ys' : List Event}
    → m ≡ n
    → xs ≡ xs'
    → ys ≡ ys'
    → Joint m xs ys m'
    → Joint n xs' ys' m'
recast {m} {n} {m'} {xs} {xs'} {ys} {ys'} a e f j =
    subst (λ x. Joint x xs' ys' m') a
      (subst (λ zs. Joint m zs ys' m') e (subst (λ zs. Joint m xs zs m') f j))

after-move : (m : Memory) {c d : Copy} → moves c ≡ moves d → store d m ≡ store c m
after-move m e = ap (λ x. store x m) (sym (moves-injective e))

-- At a barrier of both, they pass it.
pub Joint-met :
    {m m' : Memory} {t u : ℕ} {xs ys : List Event}
    → Joint m (meets t ∷ xs) (meets u ∷ ys) m'
    → Joint m xs ys m'
Joint-met (ended e f g) = absurd (cc)
Joint-met (one_moves c rest e j) = absurd (cc)
Joint-met (other_moves c rest e j) = absurd (cc)
Joint-met (both_meet token rest rest' e f j) = recast refl (sym (head-eq e).1) (sym (head-eq f).1) j

one-step :
    {m m' : Memory} {c : Copy} {u : ℕ} {xs ys : List Event}
    → Joint m (moves c ∷ xs) (meets u ∷ ys) m'
    → Joint (store c m) xs (meets u ∷ ys) m'
one-step (ended e f g) = absurd (cc)
one-step (one_moves c rest e j) = recast (after-move _ (head-eq e).0) (sym (head-eq e).1) refl j
one-step (other_moves c rest e j) = absurd (cc)
one-step (both_meet token rest rest' e f j) = absurd (cc)

other-step :
    {m m' : Memory} {c : Copy} {t : ℕ} {xs ys : List Event}
    → Joint m (meets t ∷ xs) (moves c ∷ ys) m'
    → Joint (store c m) (meets t ∷ xs) ys m'
other-step (ended e f g) = absurd (cc)
other-step (one_moves c rest e j) = absurd (cc)
other-step (other_moves c rest e j) = recast (after-move _ (head-eq e).0) refl (sym (head-eq e).1) j
other-step (both_meet token rest rest' e f j) = absurd (cc)

last-step :
    {m m' : Memory} {c : Copy} {ys : List Event}
    → Joint m [] (moves c ∷ ys) m'
    → Joint (store c m) [] ys m'
last-step (ended e f g) = absurd (cc)
last-step (one_moves c rest e j) = absurd (cc)
last-step (other_moves c rest e j) = recast (after-move _ (head-eq e).0) refl (sym (head-eq e).1) j
last-step (both_meet token rest rest' e f j) = absurd (cc)

-- Where the other waits at a barrier, the copies of the one come next.
pub Joint-one :
    (cs : List Copy) {m m' : Memory} {u : ℕ} {xs ys : List Event}
    → Joint m (map moves cs ++ xs) (meets u ∷ ys) m'
    → Joint (run cs m) xs (meets u ∷ ys) m'
Joint-one [] {m} j = recast (sym (run_nothing m)) refl refl j
Joint-one (c ∷ cs) {m} j = recast (sym (run_cons c cs m)) refl refl (Joint-one cs (one-step j))

pub Joint-other :
    (cs : List Copy) {m m' : Memory} {t : ℕ} {xs ys : List Event}
    → Joint m (meets t ∷ xs) (map moves cs ++ ys) m'
    → Joint (run cs m) (meets t ∷ xs) ys m'
Joint-other [] {m} j = recast (sym (run_nothing m)) refl refl j
Joint-other (c ∷ cs) {m} j =
    recast (sym (run_cons c cs m)) refl refl (Joint-other cs (other-step j))

-- Where both have ended, the memory is left.
pub Joint-done : {m m' : Memory} → Joint m [] [] m' → m' ≡ m
Joint-done (ended e f g) = g
Joint-done (one_moves c rest e j) = absurd (cc)
Joint-done (other_moves c rest e j) = absurd (cc)
Joint-done (both_meet token rest rest' e f j) = absurd (cc)

-- Where the one has ended, a copy of the other is left.
pub Joint-last : {c : Copy} {m m' : Memory} → Joint m [] (moves c ∷ []) m' → m' ≡ store c m
Joint-last j = Joint-done (last-step j)

-- The same, the other way: what runs there are.
pub one-Joint :
    (cs : List Copy) {m m' : Memory} {xs ys : List Event}
    → Joint (run cs m) xs ys m'
    → Joint m (map moves cs ++ xs) ys m'
one-Joint [] {m} j = recast (run_nothing m) refl refl j
one-Joint (c ∷ cs) {m} j = one_moves c _ refl (one-Joint cs (recast (run_cons c cs m) refl refl j))

pub other-Joint :
    (cs : List Copy) {m m' : Memory} {xs ys : List Event}
    → Joint (run cs m) xs ys m'
    → Joint m xs (map moves cs ++ ys) m'
other-Joint [] {m} j = recast (run_nothing m) refl refl j
other-Joint (c ∷ cs) {m} j =
    other_moves c _ refl (other-Joint cs (recast (run_cons c cs m) refl refl j))

pub tokens-moves : (cs : List Copy) (xs : List Event) → tokens (map moves cs ++ xs) ≡ tokens xs
tokens-moves [] xs = refl
tokens-moves (c ∷ cs) xs = tokens-moves cs xs

two_tokens : {t t' u u' : ℕ} → t ∷ t' ∷ [] ≡ u ∷ u' ∷ [] → (t ≡ u) × (t' ≡ u')
two_tokens e = (cc, cc)

-- The two ends of a put, and of a get.
abbrev pub put_sent : ℕ → ℕ → Copy → List Copy → List Event
put_sent t t' c cs = moves c ∷ meets t ∷ (map moves cs ++ meets t' ∷ [])

abbrev pub put_received : ℕ → ℕ → Copy → List Event
put_received u u' c = meets u ∷ meets u' ∷ moves c ∷ []

abbrev pub get_sent : ℕ → ℕ → Copy → List Event
get_sent t t' c = moves c ∷ meets t ∷ meets t' ∷ []

abbrev pub get_received : ℕ → ℕ → List Copy → List Event
get_received u u' cs = meets u ∷ (map moves cs ++ meets u' ∷ [])

module _ (t t' u u' : ℕ) (c d : Copy) (cs : List Copy) (m : Memory) where
  pub put-Joint :
      {m' : Memory}
      → Joint m (put_sent t t' c cs) (put_received u u' d) m'
      → m' ≡ store d (run cs (store c m))
  put-Joint j = Joint-last (Joint-met (Joint-one cs (Joint-met (one-step j))))

  pub get-Joint :
      {m' : Memory} → Joint m (get_sent t t' c) (get_received u u' cs) m' → m' ≡ run cs (store c m)
  get-Joint j = Joint-done (Joint-met (Joint-other cs (Joint-met (one-step j))))

  pub Joint-put :
      tokens (put_sent t t' c cs) ≡ tokens (put_received u u' d)
      → (m' : Memory) × Joint m (put_sent t t' c cs) (put_received u u' d) m'
  Joint-put e =
      let (same, same') =
        two_tokens (ap (λ ts. t ∷ ts) (sym (tokens-moves cs (meets t' ∷ []))) ∙ e) in
      (
        store d (run cs (store c m)),
        one_moves c _ refl (
            both_meet u _ _ (ap (λ x. meets x ∷ (map moves cs ++ meets t' ∷ [])) same) refl (
              one-Joint cs (
                both_meet u' _ _ (ap (λ x. meets x ∷ []) same') refl
                  (other_moves d [] refl (ended refl refl refl))))),
      )

  pub Joint-get :
      tokens (get_sent t t' c) ≡ tokens (get_received u u' cs)
      → (m' : Memory) × Joint m (get_sent t t' c) (get_received u u' cs) m'
  Joint-get e =
      let (same, same') = two_tokens (e ∙ ap (λ ts. u ∷ ts) (tokens-moves cs (meets u' ∷ []))) in
      (
        run cs (store c m),
        one_moves c _ refl (
            both_meet u _ _ (ap (λ x. meets x ∷ meets t' ∷ []) same) refl (
              other-Joint cs
                (both_meet u' _ _ (ap (λ x. meets x ∷ []) same') refl (ended refl refl refl)))),
      )
