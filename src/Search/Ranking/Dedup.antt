-- ===== src/Search/Ranking/Dedup.antt =====
-- src/search/ranking.ts: one candidate for each memory, of its newest version.
use mathlib.Core.List.{Memᴰ}
use native.Mathlib.Nat.{le_trans}
use edgemneme.Base.{
  ℕ, ◌≤◌, ◌≡◌, refl, sym, ◌∙◌, ◌≢◌, inl, inr, true, false, some, List, [], ◌∷◌, Text, arith,
  Bool-cases, Option-cases, All, All-imp, All-map, Apart, map_get, map_values, HasDistinctKeys,
  map_get-map_set, All-map_set, map_set-HasDistinctKeys, map_get-Memᴰ, All-map_get, text_eq,
  text_eq_iff, text_eq_self, sort-Apart, All-sort, Memᴰ-sort,
}
use edgemneme.Search.Types.{ValidatedSearchCandidate}
use edgemneme.Search.Platform.{Platform}
use edgemneme.Search.Ranking.{
  replaces, keep_one, keep_best, deduplicate_candidates, compare_candidates,
}

module _ (p : Platform) where
  open p use {Number}

  abbrev Best : Type 0
  Best = List (Text × ValidatedSearchCandidate Number)

  replaced-le :
      (c v : ValidatedSearchCandidate Number)
      → replaces p c (some v) ≡ true
      → v.memory_version ≤ c.memory_version
  replaced-le c v h = ground arith

  kept-le :
      (c v : ValidatedSearchCandidate Number)
      → replaces p c (some v) ≡ false
      → c.memory_version ≤ v.memory_version
  kept-le c v h = ground arith

  All-trivial : (cs : List (ValidatedSearchCandidate Number)) → All (λ c. Unit {0}) cs
  All-trivial [] = tt
  All-trivial (c ∷ cs) = (tt, All-trivial cs)

  Apart-one :
      (e : Text × ValidatedSearchCandidate Number) (m : Best)
      → e.0 ≡ e.1.memory_id
      → All (λ b. e.0 ≢ b.0) m
      → All (λ b. (b.0 ≡ b.1.memory_id) × Unit {0}) m
      → All (λ v. e.1.memory_id ≢ v.memory_id) (map_values m)
  Apart-one e [] q h k = tt
  Apart-one e (x ∷ m) q (h, hs) ((k, u), ks) = ((λ z. h (q ∙ z ∙ sym k)), Apart-one e m q hs ks)

  Apart-values :
      (m : Best)
      → HasDistinctKeys m
      → All (λ e. (e.0 ≡ e.1.memory_id) × Unit {0}) m
      → Apart (λ (a b : ValidatedSearchCandidate Number). a.memory_id ≢ b.memory_id) (map_values m)
  Apart-values [] h k = tt
  Apart-values (x ∷ m) (h, hs) ((k, u), ks) = (Apart-one x m k h ks, Apart-values m hs ks)

  -- An entry of the map stands under its memory, and satisfies what every candidate satisfies.
  record Keeps {κ} (P : ValidatedSearchCandidate Number → Type κ) (m : Best) : Type κ where
    distinct : HasDistinctKeys m
    kept : All (λ e. (e.0 ≡ e.1.memory_id) × P e.1) m

  keep_one-Keeps {κ} :
      (P : ValidatedSearchCandidate Number → Type κ) (m : Best)
      (c : ValidatedSearchCandidate Number)
      → P c
      → Keeps P m
      → Keeps P (keep_one p m c)
  unfolding keep_one
  keep_one-Keeps P m c q k = elim (Bool-cases (replaces p c (map_get c.memory_id m))) [
    | inl better ↦ rw better (record {
      distinct = map_set-HasDistinctKeys c.memory_id c m k.distinct;
      kept = All-map_set (λ e. (e.0 ≡ e.1.memory_id) × P e.1) c.memory_id c m (refl, q) k.kept;
    })
    | inr worse ↦ rw worse k
  ]

  keep_best-Keeps {κ} :
      (P : ValidatedSearchCandidate Number → Type κ) (m : Best)
      (candidates : List (ValidatedSearchCandidate Number))
      → All P candidates
      → Keeps P m
      → Keeps P (keep_best p m candidates)
  unfolding keep_best
  keep_best-Keeps P m [] h k = k
  keep_best-Keeps P m (c ∷ candidates) (q, h) k =
      keep_best-Keeps P (keep_one p m c) candidates h (keep_one-Keeps P m c q k)

  -- The memory of `key` is in the map with version `n` or a newer one.
  abbrev Covers : Text → ℕ → Best → Type 0
  Covers key n m =
      (v : ValidatedSearchCandidate Number) × (map_get key m ≡ some v) × (n ≤ v.memory_version)

  keep_one-Covers :
      (key : Text) (n : ℕ) (m : Best) (c : ValidatedSearchCandidate Number)
      → Covers key n m
      → Covers key n (keep_one p m c)
  unfolding keep_one
  keep_one-Covers key n m c (v, found, newer) =
      elim (Bool-cases (replaces p c (map_get c.memory_id m))) [
        | inr worse ↦ rw worse (v, found, newer)
        | inl better ↦ rw better (elim (Bool-cases (text_eq c.memory_id key)) [
          | inr other ↦ (v, map_get-map_set c.memory_id key c m ∙ (rw other found), newer)
          | inl same ↦
              let here : map_get c.memory_id m ≡ some v = rw ((text_eq_iff _ _).0 same) found in
              (
                c,
                map_get-map_set c.memory_id key c m ∙ (rw same),
                le_trans newer (replaced-le c v (rw here at better)),
              )
        ])
      ]

  keep_best-Covers :
      (key : Text) (n : ℕ) (m : Best) (candidates : List (ValidatedSearchCandidate Number))
      → Covers key n m
      → Covers key n (keep_best p m candidates)
  unfolding keep_best
  keep_best-Covers key n m [] h = h
  keep_best-Covers key n m (c ∷ candidates) h =
      keep_best-Covers key n (keep_one p m c) candidates (keep_one-Covers key n m c h)

  keep_one-Covers_self :
      (m : Best) (c : ValidatedSearchCandidate Number)
      → Covers c.memory_id c.memory_version (keep_one p m c)
  unfolding keep_one
  keep_one-Covers_self m c = elim (Bool-cases (replaces p c (map_get c.memory_id m))) [
    | inl better ↦ rw better (
      c,
      map_get-map_set c.memory_id c.memory_id c m ∙ (rw (text_eq_self c.memory_id)),
      omega arith,
    )
    | inr worse ↦ elim (Option-cases (map_get c.memory_id m)) [
      | inl missing ↦ absurd (cc (rw missing at worse))
      | inr (v, found) ↦ rw worse (v, found, kept-le c v (rw found at worse))
    ]
  ]

  keep_best-Covers_all :
      (c : ValidatedSearchCandidate Number) (m : Best)
      (candidates : List (ValidatedSearchCandidate Number))
      → Memᴰ c candidates
      → Covers c.memory_id c.memory_version (keep_best p m candidates)
  unfolding keep_best
  keep_best-Covers_all c m [] i = elim i [ ]
  keep_best-Covers_all c m (d ∷ candidates) (Memᴰ.head e) = rw e (
      keep_best-Covers d.memory_id d.memory_version (keep_one p m d) candidates
        (keep_one-Covers_self m d))
  keep_best-Covers_all c m (d ∷ candidates) (Memᴰ.tail i) =
      keep_best-Covers_all c (keep_one p m d) candidates i

  empty-Keeps {κ} : (P : ValidatedSearchCandidate Number → Type κ) → Keeps P []
  empty-Keeps P = record { distinct = tt; kept = tt }

  -- What holds of every candidate holds of every one that is kept.
  pub deduplicate_candidates-All {κ} :
      (P : ValidatedSearchCandidate Number → Type κ)
      (candidates : List (ValidatedSearchCandidate Number))
      → All P candidates
      → All P (deduplicate_candidates p candidates)
  unfolding deduplicate_candidates
  deduplicate_candidates-All P candidates h =
      let k = keep_best-Keeps P [] candidates h (empty-Keeps P) in
      All-sort (compare_candidates p) P _ (
        All-map P (λ (e : Text × ValidatedSearchCandidate Number). e.1) (keep_best p [] candidates)
          (All-imp _ (λ (e : Text × ValidatedSearchCandidate Number). P e.1) (λ e q. q.1) _ k.kept))

  -- No memory is kept twice.
  pub deduplicate_candidates-Apart :
      (candidates : List (ValidatedSearchCandidate Number))
      → Apart (λ a b. a.memory_id ≢ b.memory_id) (deduplicate_candidates p candidates)
  unfolding deduplicate_candidates
  deduplicate_candidates-Apart candidates =
      let k =
        keep_best-Keeps (λ c. Unit {0}) [] candidates (All-trivial candidates) (empty-Keeps _) in
      sort-Apart (compare_candidates p) _ (λ a b n e. n (sym e)) _
        (Apart-values (keep_best p [] candidates) k.distinct k.kept)

  -- Every candidate's memory is kept, with the candidate's version or a newer one.
  pub deduplicate_candidates-newest :
      (candidates : List (ValidatedSearchCandidate Number)) (c : ValidatedSearchCandidate Number)
      → Memᴰ c candidates
      → (v : ValidatedSearchCandidate Number) × Memᴰ v (deduplicate_candidates p candidates)
        × (v.memory_id ≡ c.memory_id)
        × (c.memory_version ≤ v.memory_version)
  unfolding deduplicate_candidates
  deduplicate_candidates-newest candidates c i =
      let (v, found, newer) = keep_best-Covers_all c [] candidates i in
      let k =
        keep_best-Keeps (λ c. Unit {0}) [] candidates (All-trivial candidates) (empty-Keeps _) in
      (
        v,
        Memᴰ-sort (compare_candidates p) _
            (map_get-Memᴰ c.memory_id v (keep_best p [] candidates) found),
        sym
            (All-map_get
              (λ (e : Text × ValidatedSearchCandidate Number). (e.0 ≡ e.1.memory_id) × Unit {0})
              c.memory_id v (keep_best p [] candidates) k.kept found).0,
        newer,
      )
