-- ===== src/Base/Membership.antt =====
-- Membership by recursion, which keeps its witness; ranges, and maps whose results are joined.
use Prim.Native.Nat.{ℕ, zero, suc, ◌+◌, ◌≤◌, ◌<◌}
use mathlib.Core.Path.{◌≡◌, refl, ap, subst, sym, ◌∙◌}
use mathlib.Core.Logic.{◌⊎◌, inl, inr}
use mathlib.Core.List.{List, [], ◌∷◌, ◌++◌, map, append_assoc}
use mathlib.Core.Bool.{Bool, true, false}
use native.Mathlib.Omega.{arith}
use native.Mathlib.Decide.{ℕ_discrete}
use group_free_collectives.Base.Lists.{All, range_from, range}
use group_free_collectives.Base.Tests.{if◌then◌else◌}

pub data Elem {ℓ} {A : Type ℓ} (a : A) : List A → Type ℓ where
  here : {x : A} {xs : List A} → a ≡ x → Elem a (x ∷ xs)
  there : {x : A} {xs : List A} → Elem a xs → Elem a (x ∷ xs)

module _ {ℓ} {A : Type ℓ} where
  pub Elem-append_left : {a : A} {xs : List A} (ys : List A) → Elem a xs → Elem a (xs ++ ys)
  Elem-append_left ys (here e) = here e
  Elem-append_left ys (there m) = there (Elem-append_left ys m)

  pub Elem-append_right : {a : A} (xs : List A) {ys : List A} → Elem a ys → Elem a (xs ++ ys)
  Elem-append_right [] m = m
  Elem-append_right (x ∷ xs) m = there (Elem-append_right xs m)

  pub singleton-Elem : {a x : A} → Elem a (x ∷ []) → a ≡ x
  singleton-Elem (here e) = e
  singleton-Elem (there m) = elim m [ ]

  pub append-Elem : {a : A} (xs ys : List A) → Elem a (xs ++ ys) → Elem a xs ⊎ Elem a ys
  append-Elem [] ys m = inr m
  append-Elem (x ∷ xs) ys (here e) = inl (here e)
  append-Elem (x ∷ xs) ys (there m) = elim (append-Elem xs ys m) [
    | inl l ↦ inl (there l)
    | inr r ↦ inr r
  ]

  -- What stands at a place of two joined lists, in the first or in the second.
  pub append-split :
      (xs ys pre post : List A) (x : A)
      → xs ++ ys ≡ pre ++ x ∷ post
      → ((post' : List A) × (xs ≡ pre ++ x ∷ post'))
        ⊎ ((pre' : List A) × (pre ≡ xs ++ pre') × (ys ≡ pre' ++ x ∷ post))
  append-split [] ys pre post x e = inr (pre, refl, e)
  append-split (z ∷ xs) ys [] post x e = inl (xs, cc)
  append-split (z ∷ xs) ys (y ∷ pre) post x e = elim (append-split xs ys pre post x (cc)) [
    | inl (post', e') ↦ inl (post', cc)
    | inr (pre', e1, e2) ↦ inr (pre', cc, e2)
  ]

  -- A member stands somewhere.
  pub Elem-split :
      {x : A} {xs : List A} → Elem x xs → (pre : List A) × (post : List A) × (xs ≡ pre ++ x ∷ post)
  Elem-split (here {xs = xs} e) = ([], xs, ap (λ z. z ∷ xs) (sym e))
  Elem-split (there {x = y} m) =
      let (pre, post, e) = Elem-split m in (y ∷ pre, post, ap (λ l. y ∷ l) e)

  pub All-append {κ} : (P : A → Type κ) (xs ys : List A) → All P xs → All P ys → All P (xs ++ ys)
  All-append P [] ys p q = q
  All-append P (x ∷ xs) ys p q = (p.0, All-append P xs ys p.1 q)

  pub All-Elem {κ} : (P : A → Type κ) (xs : List A) → ((a : A) → Elem a xs → P a) → All P xs
  All-Elem P [] h = tt
  All-Elem P (x ∷ xs) h = (h x (here refl), All-Elem P xs (λ a m. h a (there m)))

  pub All-imp {κ μ} :
      (P : A → Type κ) (Q : A → Type μ)
      → ((x : A) → P x → Q x)
      → (xs : List A) → All P xs
      → All Q xs
  All-imp P Q h [] all = tt
  All-imp P Q h (x ∷ xs) all = (h x all.0, All-imp P Q h xs all.1)

  pub elem-All {κ} : (P : A → Type κ) {a : A} {xs : List A} → Elem a xs → All P xs → P a
  elem-All P (here e) h = subst P (sym e) h.0
  elem-All P (there m) h = elem-All P m h.1

-- `[y for x in xs for y in f(x)]`.
abbrev pub concat_map {ℓ κ} : {A : Type ℓ} {B : Type κ} → (A → List B) → List A → List B
concat_map f [] = []
concat_map f (x ∷ xs) = f x ++ concat_map f xs

module _ {ℓ κ} {A : Type ℓ} {B : Type κ} (f : A → List B) where
  pub Elem-concat_map :
      {x : A} {b : B} {xs : List A} → Elem x xs → Elem b (f x) → Elem b (concat_map f xs)
  Elem-concat_map {b = b} (here {xs = xs} e) m =
      Elem-append_left (concat_map f xs) (subst (λ z. Elem b (f z)) e m)
  Elem-concat_map (there {x = y} n) m = Elem-append_right (f y) (Elem-concat_map n m)

  -- What stands at a place of the joined lists, within one of them.
  pub concat_map-split :
      (xs : List A) (pre post : List B) (b : B)
      → concat_map f xs ≡ pre ++ b ∷ post
      → (x : A) × (inner : List B) × (outer : List B) × (rest : List B) × Elem x xs
        × (pre ≡ outer ++ inner)
        × (f x ≡ inner ++ b ∷ rest)
  concat_map-split [] [] post b e = absurd (cc)
  concat_map-split [] (y ∷ pre) post b e = absurd (cc)
  concat_map-split (x ∷ xs) pre post b e =
      elim (append-split (f x) (concat_map f xs) pre post b e) [
        | inl (rest, e') ↦ (x, pre, [], rest, here refl, refl, e')
        | inr (pre', e1, e2) ↦
            let (y, inner, outer, rest, m, e3, e4) = concat_map-split xs pre' post b e2 in
            (
              y,
              inner,
              f x ++ outer,
              rest,
              there m,
              e1 ∙ ap (λ l. f x ++ l) e3 ∙ sym (append_assoc (f x) outer inner),
              e4,
            )
      ]

  pub concat_map-append :
      (xs ys : List A) → concat_map f (xs ++ ys) ≡ concat_map f xs ++ concat_map f ys
  concat_map-append [] ys = refl
  concat_map-append (x ∷ xs) ys =
      ap (λ l. f x ++ l) (concat_map-append xs ys)
      ∙ sym (append_assoc (f x) (concat_map f xs) (concat_map f ys))

  pub concat_map-Elem :
      {b : B} (xs : List A) → Elem b (concat_map f xs) → (x : A) × Elem x xs × Elem b (f x)
  concat_map-Elem [] m = elim m [ ]
  concat_map-Elem (x ∷ xs) m = elim (append-Elem (f x) (concat_map f xs) m) [
    | inl l ↦ (x, here refl, l)
    | inr r ↦ let (y, n, e) = concat_map-Elem xs r in (y, there n, e)
  ]

  pub All-concat_map {μ} :
      (P : B → Type μ) (xs : List A) → ((x : A) → Elem x xs → All P (f x)) → All P (concat_map f xs)
  All-concat_map P [] h = tt
  All-concat_map P (x ∷ xs) h =
      All-append P (f x) (concat_map f xs) (h x (here refl))
        (All-concat_map P xs (λ a m. h a (there m)))

pub concat_map-concat_map {ℓ κ μ} :
    {A : Type ℓ} {B : Type κ} {C : Type μ} (f : B → List C) (h : A → List B) (xs : List A)
    → concat_map f (concat_map h xs) ≡ concat_map (λ x. concat_map f (h x)) xs
concat_map-concat_map f h [] = refl
concat_map-concat_map f h (x ∷ xs) =
    concat_map-append f (h x) (concat_map h xs)
    ∙ ap (λ l. concat_map f (h x) ++ l) (concat_map-concat_map f h xs)

module _ {ℓ κ} {A : Type ℓ} {B : Type κ} (f : A → B) where
  pub Elem-map : {x : A} {xs : List A} → Elem x xs → Elem (f x) (map f xs)
  Elem-map (here e) = here (ap f e)
  Elem-map (there m) = there (Elem-map m)

  pub map-Elem : {y : B} (xs : List A) → Elem y (map f xs) → (x : A) × Elem x xs × (y ≡ f x)
  map-Elem [] m = elim m [ ]
  map-Elem (x ∷ xs) (here e) = (x, here refl, e)
  map-Elem (x ∷ xs) (there m) = let (z, n, e) = map-Elem xs m in (z, there n, e)

pub Elem-range_from :
    (count start i : ℕ) → start ≤ i → i < start + count → Elem i (range_from start count)
Elem-range_from zero start i p q = absurd (omega arith)
Elem-range_from (suc count) start i p q = elim (ℕ_discrete i start) [
  | yes e ↦ here e
  | no ne ↦ there (Elem-range_from count (suc start) i (omega arith) (omega arith))
]

pub Elem-range : (n i : ℕ) → i < n → Elem i (range n)
Elem-range n i h = Elem-range_from n 0 i (omega arith) (omega arith)

range_from-bounds :
    (count start : ℕ) {i : ℕ} → Elem i (range_from start count) → (start ≤ i) × (i < start + count)
range_from-bounds zero start m = elim m [ ]
range_from-bounds (suc count) start (here e) = omega arith
range_from-bounds (suc count) start (there m) = omega (arith, range_from-bounds count (suc start) m)

pub range-lt : (n : ℕ) {i : ℕ} → Elem i (range n) → i < n
range-lt n m = omega (arith, range_from-bounds n 0 m)

-- A masked lane: one item, or none.
module _ {ℓ} {A : Type ℓ} (x : A) where
  pub All-if {κ} : (P : A → Type κ) (b : Bool) → (b ≡ true → P x) → All P (if b then x ∷ [] else [])
  All-if P true h = (h refl, tt)
  All-if P false h = tt

  pub if-Elem : (b : Bool) {y : A} → Elem y (if b then x ∷ [] else []) → (b ≡ true) × (y ≡ x)
  if-Elem true (here e) = (refl, e)
  if-Elem true (there m) = elim m [ ]
  if-Elem false m = elim m [ ]

  pub Elem-if : (b : Bool) → b ≡ true → Elem x (if b then x ∷ [] else [])
  Elem-if true h = here refl
  Elem-if false h = absurd (cc)

-- A guarded list: all of it, or none.
module _ {ℓ} {A : Type ℓ} (xs : List A) where
  pub All-when {κ} :
      (P : A → Type κ) (b : Bool) → (b ≡ true → All P xs) → All P (if b then xs else [])
  All-when P true h = h refl
  All-when P false h = tt

  pub Elem-when : {x : A} (b : Bool) → b ≡ true → Elem x xs → Elem x (if b then xs else [])
  Elem-when true h m = m
  Elem-when false h m = absurd (cc)
