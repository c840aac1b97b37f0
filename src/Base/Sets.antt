-- ===== src/Base/Sets.antt =====
-- `new Set(values)`, and `.sort()` of strings by their UTF-16 code units.
use Prim.Native.Nat.{ℕ, ◌+◌, ◌-◌, ◌/◌, ◌%◌, compare, Ordering}
use mathlib.Core.Path.{sym, subst}
use mathlib.Core.Logic.{◌≢◌, ◌⊎◌, inl, inr}
use mathlib.Core.List.{List, [], ◌∷◌, ◌++◌, Memᴰ}
use edgemneme.Base.Tests.{leb, if◌then◌else◌, Bool-cases}
use edgemneme.Base.Lists.{All, All-imp, All-of_Memᴰ}
use edgemneme.Base.Texts.{Text, includes, includes-Memᴰ, Memᴰ-includes}
use edgemneme.Base.Sorting.{sort, All-sort, Apart, sort-Apart, Memᴰ-sort}

-- The first occurrences, in order: `seen` is what the set holds.
unique_from : List Text → List Text → List Text
unique_from seen [] = []
unique_from seen (x ∷ xs) =
    let rest = unique_from (if includes seen x then seen else x ∷ seen) xs in
    if includes seen x then rest else x ∷ rest

-- `[...new Set(values)]`
unfoldable pub unique : List Text → List Text
unfolding unique_from includes
unique values = unique_from [] values

abbrev pub utf16_units : Text → List ℕ
utf16_units [] = []
utf16_units (c ∷ s) =
    (if leb c 0xffff
      then c ∷ []
      else (0xd800 + (c - 0x10000) / 0x400) ∷ (0xdc00 + (c - 0x10000) % 0x400) ∷ [])
    ++ utf16_units s

unfoldable pub lexicographic : List ℕ → List ℕ → Ordering
lexicographic [] [] = Ordering.eq
lexicographic [] (b ∷ bs) = Ordering.lt
lexicographic (a ∷ as') [] = Ordering.gt
lexicographic (a ∷ as') (b ∷ bs) =
    let rest = lexicographic as' bs in
    elim (compare a b) [
      | Ordering.lt ↦ Ordering.lt
      | Ordering.gt ↦ Ordering.gt
      | Ordering.eq ↦ rest
    ]

unfoldable pub compare_text : Text → Text → Ordering
unfolding lexicographic
compare_text a b = lexicographic (utf16_units a) (utf16_units b)

-- `[...new Set(values)].sort()`
unfoldable pub sorted_set : List Text → List Text
unfolding unique compare_text sort
sorted_set values = sort compare_text (unique values)

module _ {κ} (P : Text → Type κ) where
  unique_from-All : (seen xs : List Text) → All P xs → All P (unique_from seen xs)
  unfolding unique_from
  unique_from-All seen [] h = tt
  unique_from-All seen (x ∷ xs) (p, h) = elim (Bool-cases (includes seen x)) [
    | inl old ↦ rw old (unique_from-All seen xs h)
    | inr new ↦ rw new (p, unique_from-All (x ∷ seen) xs h)
  ]

  pub sorted_set-All : (xs : List Text) → All P xs → All P (sorted_set xs)
  unfolding sorted_set
  sorted_set-All xs h = All-sort compare_text P (unique xs) (unique_from-All [] xs h)

found_later :
    (x y : Text) (seen rest : List Text)
    → Memᴰ y (x ∷ seen) ⊎ Memᴰ y rest
    → Memᴰ y seen ⊎ Memᴰ y (x ∷ rest)
found_later x y seen rest (inl (Memᴰ.head e)) = inr (Memᴰ.head e)
found_later x y seen rest (inl (Memᴰ.tail i)) = inl i
found_later x y seen rest (inr i) = inr (Memᴰ.tail i)

unique_from-complete :
    (seen xs : List Text) (y : Text) → Memᴰ y xs → Memᴰ y seen ⊎ Memᴰ y (unique_from seen xs)
unfolding unique_from
unique_from-complete seen [] y i = elim i [ ]
unique_from-complete seen (x ∷ xs) y (Memᴰ.head e) = elim (Bool-cases (includes seen x)) [
  | inl old ↦ rw old (inl (subst (λ z. Memᴰ z seen) (sym e) (includes-Memᴰ seen x old)))
  | inr new ↦ rw new (inr (Memᴰ.head e))
]
unique_from-complete seen (x ∷ xs) y (Memᴰ.tail i) = elim (Bool-cases (includes seen x)) [
  | inl old ↦ rw old (unique_from-complete seen xs y i)
  | inr new ↦
      rw new
        (found_later x y seen (unique_from (x ∷ seen) xs) (unique_from-complete (x ∷ seen) xs y i))
]

unique_from-new : (seen xs : List Text) → All (λ x. ¬ Memᴰ x seen) (unique_from seen xs)
unfolding unique_from
unique_from-new seen [] = tt
unique_from-new seen (x ∷ xs) = elim (Bool-cases (includes seen x)) [
  | inl old ↦ rw old (unique_from-new seen xs)
  | inr new ↦ rw new (
    λ i. cc (Memᴰ-includes seen x i, new),
    All-imp (λ y. ¬ Memᴰ y (x ∷ seen)) (λ y. ¬ Memᴰ y seen) (λ y n i. n (Memᴰ.tail i))
        (unique_from (x ∷ seen) xs) (unique_from-new (x ∷ seen) xs),
  )
]

unique_from-Apart : (seen xs : List Text) → Apart (λ a b. a ≢ b) (unique_from seen xs)
unfolding unique_from
unique_from-Apart seen [] = tt
unique_from-Apart seen (x ∷ xs) = elim (Bool-cases (includes seen x)) [
  | inl old ↦ rw old (unique_from-Apart seen xs)
  | inr new ↦ rw new (
    All-imp (λ y. ¬ Memᴰ y (x ∷ seen)) (λ y. x ≢ y) (λ y n e. n (Memᴰ.head (sym e)))
        (unique_from (x ∷ seen) xs) (unique_from-new (x ∷ seen) xs),
    unique_from-Apart (x ∷ seen) xs,
  )
]

-- The texts of the second list are those of the first, each once.
abbrev pub IsSetOf : List Text → List Text → Type 0
IsSetOf xs ids = All (λ x. Memᴰ x ids) xs × All (λ id. Memᴰ id xs) ids × Apart (λ a b. a ≢ b) ids

found_in_unique :
    (xs : List Text) (x : Text)
    → Memᴰ x [] ⊎ Memᴰ x (unique xs)
    → Memᴰ x (sort compare_text (unique xs))
found_in_unique xs x (inl i) = elim i [ ]
found_in_unique xs x (inr i) = Memᴰ-sort compare_text (unique xs) i

pub sorted_set-IsSetOf : (xs : List Text) → IsSetOf xs (sorted_set xs)
unfolding sorted_set unique
sorted_set-IsSetOf xs = (
  All-of_Memᴰ (λ x. Memᴰ x (sort compare_text (unique xs))) xs
      (λ x i. found_in_unique xs x (unique_from-complete [] xs x i)),
  sorted_set-All (λ id. Memᴰ id xs) xs (All-of_Memᴰ (λ id. Memᴰ id xs) xs (λ id i. i)),
  sort-Apart compare_text (λ a b. a ≢ b) (λ a b n e. n (sym e)) (unique xs)
      (unique_from-Apart [] xs),
)
