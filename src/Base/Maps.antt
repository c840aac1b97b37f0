-- ===== src/Base/Maps.antt =====
-- `Map<string, V>` in insertion order, as an association list.
use mathlib.Core.Path.{◌≡◌, refl, subst}
use mathlib.Core.Logic.{◌≢◌, inl, inr}
use mathlib.Core.Bool.{false}
use mathlib.Core.Option.{Option, none, some}
use mathlib.Core.List.{List, [], ◌∷◌, map, Memᴰ}
use native.Mathlib.Omega.{arith}
use edgemneme.Base.Tests.{if◌then◌else◌, Bool-cases}
use edgemneme.Base.Lists.{All, All-imp, All-zip}
use edgemneme.Base.Sorting.{Apart}
use edgemneme.Base.Texts.{Text, text_eq, text_eq_iff, text_eq_self}

ne_of_text_eq : (a b : Text) → text_eq a b ≡ false → a ≢ b
ne_of_text_eq a b h e = ground (arith, text_eq_iff a b)

text_eq-false : (a b : Text) → a ≢ b → text_eq a b ≡ false
text_eq-false a b h = ground (arith, text_eq_iff a b)

module _ {ℓ} {V : Type ℓ} where
  -- `map.get(key)`
  unfoldable pub map_get : Text → List (Text × V) → Option V
  map_get key [] = none
  map_get key ((k, v) ∷ m) = if text_eq k key then some v else map_get key m

  -- `map.set(key, value)`: a key that is present keeps its place.
  unfoldable pub map_set : Text → V → List (Text × V) → List (Text × V)
  map_set key value [] = (key, value) ∷ []
  map_set key value ((k, v) ∷ m) =
      if text_eq k key then (k, value) ∷ m else (k, v) ∷ map_set key value m

  -- `[...map.values()]`
  abbrev pub map_values : List (Text × V) → List V
  map_values m = map (λ e. e.1) m

  -- No key occurs twice.
  abbrev pub HasDistinctKeys : List (Text × V) → Type 0
  HasDistinctKeys m = Apart (λ (a b : Text × V). a.0 ≢ b.0) m

  pub map_get-map_set :
      (k j : Text) (v : V) (m : List (Text × V))
      → map_get j (map_set k v m) ≡ (if text_eq k j then some v else map_get j m)
  unfolding map_get map_set
  map_get-map_set k j v [] = refl
  map_get-map_set k j v ((i, w) ∷ m) =
      ground (arith, text_eq_iff k j, text_eq_iff i k, text_eq_iff i j, map_get-map_set k j v m)

  module _ {κ} (P : Text × V → Type κ) where
    pub All-map_set :
        (k : Text) (v : V) (m : List (Text × V)) → P (k, v) → All P m → All P (map_set k v m)
    unfolding map_set
    All-map_set k v [] p h = (p, tt)
    All-map_set k v ((i, w) ∷ m) p (q, h) = elim (Bool-cases (text_eq i k)) [
      | inl same ↦ rw same (rw ((text_eq_iff i k).0 same) p, h)
      | inr other ↦ rw other (q, All-map_set k v m p h)
    ]

  pub map_set-HasDistinctKeys :
      (k : Text) (v : V) (m : List (Text × V)) → HasDistinctKeys m → HasDistinctKeys (map_set k v m)
  unfolding map_set
  map_set-HasDistinctKeys k v [] h = (tt, tt)
  map_set-HasDistinctKeys k v ((i, w) ∷ m) (p, h) = elim (Bool-cases (text_eq i k)) [
    | inl same ↦ rw same (p, h)
    | inr other ↦ rw other (
      All-map_set (λ b. i ≢ b.0) k v m (ne_of_text_eq i k other) p,
      map_set-HasDistinctKeys k v m h,
    )
  ]

  -- With distinct keys, each entry is the one that its key finds.
  pub map_get-entries :
      (m : List (Text × V)) → HasDistinctKeys m → All (λ e. map_get e.0 m ≡ some e.1) m
  unfolding map_get
  map_get-entries [] h = tt
  map_get-entries ((i, w) ∷ m) (p, h) = (
    rw (text_eq_self i),
    All-imp (λ (e : Text × V). (i ≢ e.0) × (map_get e.0 m ≡ some e.1))
        (λ (e : Text × V). map_get e.0 ((i, w) ∷ m) ≡ some e.1)
        (λ e q. rw (text_eq-false i e.0 q.0) q.1) m
        (All-zip (λ (e : Text × V). i ≢ e.0) (λ (e : Text × V). map_get e.0 m ≡ some e.1) m p
          (map_get-entries m h)),
  )

  module _ {κ} (P : Text × V → Type κ) where
    pub All-map_get :
        (k : Text) (v : V) (m : List (Text × V)) → All P m → map_get k m ≡ some v → P (k, v)
    unfolding map_get
    All-map_get k v [] h e = cc
    All-map_get k v ((i, w) ∷ m) (p, h) e = elim (Bool-cases (text_eq i k)) [
      | inl same ↦
          let j : i ≡ k = (text_eq_iff i k).0 same in
          let x : w ≡ v = ground arith in
          subst (λ (t : V). P (k, t)) x (subst (λ (t : Text). P (t, w)) j p)
      | inr other ↦ All-map_get k v m h (ground arith)
    ]

  pub map_get-Memᴰ :
      (k : Text) (v : V) (m : List (Text × V)) → map_get k m ≡ some v → Memᴰ v (map_values m)
  unfolding map_get
  map_get-Memᴰ k v [] e = cc
  map_get-Memᴰ k v ((i, w) ∷ m) e = elim (Bool-cases (text_eq i k)) [
    | inl same ↦ let x : v ≡ w = ground arith in Memᴰ.head x
    | inr other ↦ Memᴰ.tail (map_get-Memᴰ k v m (ground arith))
  ]
