-- ===== src/Base/Lists.antt =====
-- Lists measured and indexed by native numbers, under the library's names.
use Prim.Native.Nat.{ℕ, zero, suc, ◌+◌, ◌<◌, ◌≤◌}
use mathlib.Core.Path.{◌≡◌, refl, ap, sym, ◌∙◌}
use mathlib.Core.Logic.{◌⊎◌, inl, inr}
use mathlib.Core.Bool.{Bool, true, false, ◌||◌}
use mathlib.Core.List.{List, [], ◌∷◌, ◌++◌, map}
use mathlib.Core.Option.{Option, none, some}
use native.Mathlib.Omega.{arith}
use group_free_collectives.Base.Tests.{◌==◌, if◌then◌else◌}

module _ {ℓ} {A : Type ℓ} where
  abbrev pub length : List A → ℕ
  length [] = 0
  length (x ∷ xs) = suc (length xs)

  abbrev pub get_elem? : List A → ℕ → Option A
  get_elem? [] i = none
  get_elem? (x ∷ xs) zero = some x
  get_elem? (x ∷ xs) (suc i) = get_elem? xs i

  abbrev pub get_or : List A → ℕ → A → A
  get_or [] i d = d
  get_or (x ∷ xs) zero d = x
  get_or (x ∷ xs) (suc i) d = get_or xs i d

  -- A predicate at every element, as a tuple.
  abbrev pub All {κ} : (A → Type κ) → List A → Type κ
  All P [] = Unit
  All P (x ∷ xs) = P x × All P xs

  pub length-append : (xs ys : List A) → length (xs ++ ys) ≡ length xs + length ys
  length-append [] ys = omega arith
  length-append (x ∷ xs) ys = omega (arith, length-append xs ys)

-- The address `row_ptr` of a group's rank list stands for the list.
abbrev pub row_of : List ℕ → ℕ → ℕ
row_of row i = get_or row i 0

-- `start, start + 1, …`, `count` of them.
abbrev pub range_from : ℕ → ℕ → List ℕ
range_from start zero = []
range_from start (suc count) = start ∷ range_from (suc start) count

abbrev pub range : ℕ → List ℕ
range = range_from 0

pub length-range_from : (count start : ℕ) → length (range_from start count) ≡ count
length-range_from zero start = refl
length-range_from (suc count) start = ap suc (length-range_from count (suc start))

pub get_or-map_range {ℓ} :
    {A : Type ℓ} (f : ℕ → A) (d : A) (count start i : ℕ)
    → i < count
    → get_or (map f (range_from start count)) i d ≡ f (start + i)
get_or-map_range f d zero start i lt = absurd (omega arith)
get_or-map_range f d (suc count) start zero lt = ap f (omega arith)
get_or-map_range f d (suc count) start (suc i) lt =
    get_or-map_range f d count (suc start) i (omega arith) ∙ ap f (omega arith)

pub get_or-map_past {ℓ} :
    {A : Type ℓ} (f : ℕ → A) (d : A) (count start i : ℕ)
    → count ≤ i
    → get_or (map f (range_from start count)) i d ≡ d
get_or-map_past f d zero start i le = refl
get_or-map_past f d (suc count) start zero le = absurd (omega arith)
get_or-map_past f d (suc count) start (suc i) le =
    get_or-map_past f d count (suc start) i (omega arith)

abbrev pub contains : List ℕ → ℕ → Bool
contains [] a = false
contains (x ∷ xs) a = x == a || contains xs a

-- A dictionary with integer keys, as an association list; the newest binding stands first.
module _ {ℓ} {V : Type ℓ} where
  unfoldable pub lookup : ℕ → List (ℕ × V) → Option V
  lookup k [] = none
  lookup k ((j, v) ∷ m) = if j == k then some v else lookup k m

  unfoldable pub insert : ℕ → V → List (ℕ × V) → List (ℕ × V)
  insert k v m = (k, v) ∷ m

  unfoldable pub remove : ℕ → List (ℕ × V) → List (ℕ × V)
  remove k [] = []
  remove k ((j, v) ∷ m) = let rest = remove k m in if j == k then rest else (j, v) ∷ rest

  pub lookup-insert :
      (k j : ℕ) (v : V) (m : List (ℕ × V))
      → lookup j (insert k v m) ≡ (if k == j then some v else lookup j m)
  unfolding lookup insert
  lookup-insert k j v m = refl

  pub lookup-remove :
      (k j : ℕ) (m : List (ℕ × V)) → lookup j (remove k m) ≡ (if k == j then none else lookup j m)
  unfolding lookup remove
  lookup-remove k j [] = ground arith
  lookup-remove k j ((i, v) ∷ m) = ground (arith, lookup-remove k j m)

module _ {ℓ} {V : Type ℓ} (k j : ℕ) (m : List (ℕ × V)) where
  pub lookup-insert_same : (v : V) → (k == j) ≡ true → lookup j (insert k v m) ≡ some v
  unfolding lookup insert
  lookup-insert_same v h = rw h refl

  pub lookup-insert_other : (v : V) → (k == j) ≡ false → lookup j (insert k v m) ≡ lookup j m
  unfolding lookup insert
  lookup-insert_other v h = rw h refl

  -- What a binding found after an insertion is.
  pub insert-some :
      (v : V) {x : V}
      → lookup j (insert k v m) ≡ some x
      → (((k == j) ≡ true) × (some v ≡ some x)) ⊎ (((k == j) ≡ false) × (lookup j m ≡ some x))
  unfolding lookup insert
  insert-some v {x} h = go (k == j) refl h
    where
      go :
          (b : Bool)
          → (k == j) ≡ b
          → (if b then some v else lookup j m) ≡ some x
          → (((k == j) ≡ true) × (some v ≡ some x)) ⊎ (((k == j) ≡ false) × (lookup j m ≡ some x))
      go true e h = inl (e, h)
      go false e h = inr (e, h)

  -- A binding found after a removal was there, under another key.
  pub remove-some :
      {x : V} → lookup j (remove k m) ≡ some x → ((k == j) ≡ false) × (lookup j m ≡ some x)
  remove-some {x} h = go (k == j) refl (sym (lookup-remove k j m) ∙ h)
    where
      go :
          (b : Bool)
          → (k == j) ≡ b
          → (if b then none else lookup j m) ≡ some x
          → ((k == j) ≡ false) × (lookup j m ≡ some x)
      go true e h = absurd (cc)
      go false e h = (e, h)

pub lookup-empty {ℓ} : {V : Type ℓ} (k : ℕ) → lookup {V = V} k [] ≡ none
unfolding lookup
lookup-empty k = refl

pub ruleset dict_laws = (lookup-insert, lookup-remove, lookup-empty)
