-- ===== src/Base/Sorting.antt =====
-- `array.sort(compare)`: a stable sort by a comparator; `lt` of the comparator is a negative number.
use Prim.Native.Nat.{suc, Ordering}
use mathlib.Core.Path.{◌≡◌, refl, ap, ◌∙◌}
use mathlib.Core.Logic.{◌⊎◌, ◌≢◌, inl, inr}
use mathlib.Core.List.{List, [], ◌∷◌, Perm, Memᴰ}
use mathlib.Core.List.Perm
use native.Mathlib.Omega.{arith}
use edgemneme.Base.Lists.{length, All}

-- `first || second` on comparator results
abbrev pub or_else : Ordering → Ordering → Ordering
or_else Ordering.lt o = Ordering.lt
or_else Ordering.eq o = o
or_else Ordering.gt o = Ordering.gt

-- Any two elements are related by `R`.
abbrev pub Apart {ℓ κ} : {A : Type ℓ} → (A → A → Type κ) → List A → Type κ
Apart R [] = Unit
Apart R (x ∷ xs) = All (R x) xs × Apart R xs

module _ {ℓ} {A : Type ℓ} (cmp : A → A → Ordering) where
  pub insert : A → List A → List A
  insert x [] = x ∷ []
  insert x (y ∷ ys) = elim (cmp x y) [ Ordering.gt ↦ y ∷ insert x ys | _ ↦ x ∷ y ∷ ys ]

  unfoldable pub sort : List A → List A
  unfolding insert
  sort [] = []
  sort (x ∷ xs) = insert x (sort xs)

  Ordering-cases : (o : Ordering) → (o ≡ Ordering.gt) ⊎ (o ≢ Ordering.gt)
  Ordering-cases Ordering.lt = inr (λ e. cc)
  Ordering-cases Ordering.eq = inr (λ e. cc)
  Ordering-cases Ordering.gt = inl refl

  insert-gt : (x y : A) (ys : List A) → cmp x y ≡ Ordering.gt → insert x (y ∷ ys) ≡ y ∷ insert x ys
  unfolding insert
  insert-gt x y ys h = rw (h, insert)

  insert-ne-gt : (x y : A) (ys : List A) → cmp x y ≢ Ordering.gt → insert x (y ∷ ys) ≡ x ∷ y ∷ ys
  unfolding insert
  insert-ne-gt x y ys h = ground arith

  insert-perm : (x : A) (ys : List A) → Perm (insert x ys) (x ∷ ys)
  unfolding insert
  insert-perm x [] = Perm.refl (x ∷ [])
  insert-perm x (y ∷ ys) = elim (Ordering-cases (cmp x y)) [
    | inl later ↦
        rw (insert-gt x y ys later) (Perm.trans (Perm.cons y (insert-perm x ys)) (Perm.swap x y ys))
    | inr here ↦ rw (insert-ne-gt x y ys here) (Perm.refl _)
  ]

  -- Sorting only reorders.
  pub sort-perm : (xs : List A) → Perm (sort xs) xs
  unfolding sort
  sort-perm [] = Perm.refl []
  sort-perm (x ∷ xs) = Perm.trans (insert-perm x (sort xs)) (Perm.cons x (sort-perm xs))

  length-insert : (x : A) (ys : List A) → length (insert x ys) ≡ suc (length ys)
  unfolding insert
  length-insert x [] = refl
  length-insert x (y ∷ ys) = ground (arith, length-insert x ys)

  pub length-sort : (xs : List A) → length (sort xs) ≡ length xs
  unfolding sort
  length-sort [] = refl
  length-sort (x ∷ xs) = length-insert x (sort xs) ∙ ap suc (length-sort xs)

  module _ {κ} (P : A → Type κ) where
    All-insert : (x : A) (ys : List A) → P x → All P ys → All P (insert x ys)
    unfolding insert
    All-insert x [] p h = (p, tt)
    All-insert x (y ∷ ys) p (q, h) = elim (Ordering-cases (cmp x y)) [
      | inl later ↦ rw (insert-gt x y ys later) (q, All-insert x ys p h)
      | inr here ↦ rw (insert-ne-gt x y ys here) (p, (q, h))
    ]

    pub All-sort : (xs : List A) → All P xs → All P (sort xs)
    unfolding sort
    All-sort [] h = tt
    All-sort (x ∷ xs) (p, h) = All-insert x (sort xs) p (All-sort xs h)

  -- Elements that are pairwise apart stay so.
  module _ {κ} (R : A → A → Type κ) (flip : (a b : A) → R a b → R b a) where
    insert-Apart : (x : A) (ys : List A) → All (R x) ys → Apart R ys → Apart R (insert x ys)
    unfolding insert
    insert-Apart x [] h k = (tt, tt)
    insert-Apart x (y ∷ ys) (h, hs) (k, ks) = elim (Ordering-cases (cmp x y)) [
      | inl later ↦
          rw (insert-gt x y ys later)
            (All-insert (R y) x ys (flip x y h) k, insert-Apart x ys hs ks)
      | inr here ↦ rw (insert-ne-gt x y ys here) ((h, hs), (k, ks))
    ]

    pub sort-Apart : (xs : List A) → Apart R xs → Apart R (sort xs)
    unfolding sort
    sort-Apart [] h = tt
    sort-Apart (x ∷ xs) (h, hs) = insert-Apart x (sort xs) (All-sort (R x) xs h) (sort-Apart xs hs)

  Memᴰ-insert_self : (x : A) (ys : List A) → Memᴰ x (insert x ys)
  unfolding insert
  Memᴰ-insert_self x [] = Memᴰ.head refl
  Memᴰ-insert_self x (y ∷ ys) = elim (Ordering-cases (cmp x y)) [
    | inl later ↦ rw (insert-gt x y ys later) (Memᴰ.tail (Memᴰ-insert_self x ys))
    | inr here ↦ rw (insert-ne-gt x y ys here) (Memᴰ.head refl)
  ]

  Memᴰ-insert : {a : A} (x : A) (ys : List A) → Memᴰ a ys → Memᴰ a (insert x ys)
  unfolding insert
  Memᴰ-insert x [] m = elim m [ ]
  Memᴰ-insert x (y ∷ ys) (Memᴰ.head e) = elim (Ordering-cases (cmp x y)) [
    | inl later ↦ rw (insert-gt x y ys later) (Memᴰ.head e)
    | inr here ↦ rw (insert-ne-gt x y ys here) (Memᴰ.tail (Memᴰ.head e))
  ]
  Memᴰ-insert x (y ∷ ys) (Memᴰ.tail m) = elim (Ordering-cases (cmp x y)) [
    | inl later ↦ rw (insert-gt x y ys later) (Memᴰ.tail (Memᴰ-insert x ys m))
    | inr here ↦ rw (insert-ne-gt x y ys here) (Memᴰ.tail (Memᴰ.tail m))
  ]

  -- Nothing is lost.
  pub Memᴰ-sort : {a : A} (xs : List A) → Memᴰ a xs → Memᴰ a (sort xs)
  unfolding sort
  Memᴰ-sort [] m = elim m [ ]
  Memᴰ-sort (x ∷ xs) (Memᴰ.head e) = rw e (Memᴰ-insert_self x (sort xs))
  Memᴰ-sort (x ∷ xs) (Memᴰ.tail m) = Memᴰ-insert x (sort xs) (Memᴰ-sort xs m)

  -- No element stands before one that the comparator puts first.
  abbrev pub IsSorted : List A → Type 0
  IsSorted [] = Unit
  IsSorted (x ∷ xs) = All (λ y. cmp x y ≢ Ordering.gt) xs × IsSorted xs

  -- What a comparator must satisfy for the sort to order by it.
  pub record IsComparator : Type ℓ where
    pub flip : (a b : A) → cmp a b ≡ Ordering.gt → cmp b a ≢ Ordering.gt
    pub chain : (a b c : A) → cmp a b ≢ Ordering.gt → cmp b c ≢ Ordering.gt → cmp a c ≢ Ordering.gt

  module _ (c : IsComparator) where
    open c use {flip, chain}

    All-ne-gt :
        (x y : A) (ys : List A)
        → cmp x y ≢ Ordering.gt
        → All (λ z. cmp y z ≢ Ordering.gt) ys
        → All (λ z. cmp x z ≢ Ordering.gt) ys
    All-ne-gt x y [] h k = tt
    All-ne-gt x y (z ∷ zs) h (k, ks) = (chain x y z h k, All-ne-gt x y zs h ks)

    insert-IsSorted : (x : A) (ys : List A) → IsSorted ys → IsSorted (insert x ys)
    unfolding insert
    insert-IsSorted x [] h = (tt, tt)
    insert-IsSorted x (y ∷ ys) (k, h) = elim (Ordering-cases (cmp x y)) [
      | inl later ↦
          rw (insert-gt x y ys later) (
            All-insert (λ z. cmp y z ≢ Ordering.gt) x ys (flip x y later) k,
            insert-IsSorted x ys h,
          )
      | inr here ↦ rw (insert-ne-gt x y ys here) ((here, All-ne-gt x y ys here k), (k, h))
    ]

    -- With a consistent comparator the result is in its order.
    pub sort-IsSorted : (xs : List A) → IsSorted (sort xs)
    unfolding sort
    sort-IsSorted [] = tt
    sort-IsSorted (x ∷ xs) = insert-IsSorted x (sort xs) (sort-IsSorted xs)
