-- ===== src/Search/Diversity/Selection.antt =====
-- src/search/ranking.ts: the diversified selection takes different candidates, up to the limit.
use mathlib.Core.List.{Perm}
use mathlib.Core.List.Perm
use edgemneme.Base.{
  ℕ, zero, suc, ◌+◌, ◌≤◌, ◌<◌, min, ◌≡◌, refl, ap, subst, inl, inr, Bool, true, false, ◌&&◌, some,
  List, [], ◌∷◌, ◌++◌, map, ok, arith, ltb, if◌then◌else◌, append_assoc, Bool-cases, length,
  length-append, get_elem?, sort, sort-perm, length-sort, All, All-append, All-sort,
}
use edgemneme.Search.Types.{ValidatedSearchCandidate}
use edgemneme.Search.Platform.{Platform}
use edgemneme.Search.Ranking.{compare_candidates}
use edgemneme.Search.Diversity.{
  Best, consider, best_from, best_index, remove_at, push_chosen, mmr_from, select_with_mmr,
}

module _ (p : Platform) where
  open p use {Number, is_finite, lt, of_ℕ, maximum, negative_infinity}

  abbrev Candidates : Type 0
  Candidates = List (ValidatedSearchCandidate Number)

  choose-lt :
      (b : Bool) (n : ℕ) (x y : Best p) → x.index < n → y.index < n → (if b then x else y).index < n
  choose-lt true n x y h k = h
  choose-lt false n x y h k = k

  consider-lt :
      (score_of : ValidatedSearchCandidate Number → Number) (remaining : Candidates) (best : Best p)
      (index n : ℕ) (c : ValidatedSearchCandidate Number)
      → best.index < n
      → index < n
      → (consider p score_of remaining best index c).index < n
  unfolding consider
  consider-lt score_of remaining best index n c h k = choose-lt _ n _ best k h

  best_from-lt :
      (score_of : ValidatedSearchCandidate Number → Number) (remaining : Candidates) (best : Best p)
      (index n : ℕ) (candidates : Candidates)
      → best.index < n
      → index + length candidates ≤ n
      → (best_from p score_of remaining best index candidates).index < n
  unfolding best_from
  best_from-lt score_of remaining best index n [] h k = h
  best_from-lt score_of remaining best index n (c ∷ candidates) h k =
      best_from-lt score_of remaining (consider p score_of remaining best index c) (index + 1) n
        candidates (consider-lt score_of remaining best index n c h (omega arith)) (omega arith)

  best_index-lt :
      (lambda maximal : Number) (selected remaining : Candidates)
      → 0 < length remaining
      → best_index p lambda maximal selected remaining < length remaining
  unfolding best_index
  best_index-lt lambda maximal selected remaining h =
      best_from-lt _ remaining _ 0 (length remaining) remaining h (omega arith)

  taken :
      (i : ℕ) (xs : Candidates)
      → i < length xs
      → (x : ValidatedSearchCandidate Number) × (get_elem? xs i ≡ some x)
        × Perm (x ∷ remove_at p i xs) xs
        × (length (remove_at p i xs) + 1 ≡ length xs)
  taken i [] h = elim h [ ]
  taken zero (x ∷ xs) h = (x, refl, Perm.refl (x ∷ xs), omega arith)
  taken (suc i) (x ∷ xs) h =
      let (y, found, perm, shorter) = taken i xs (omega arith) in
      (y, found, Perm.trans (Perm.swap x y (remove_at p i xs)) (Perm.cons x perm), omega arith)

  -- What the loop returns: as many as asked for, and with the rest all of them.
  record Selects (limit : ℕ) (selected remaining result : Candidates) : Type 0 where
    counted : length result ≡ min limit (length selected + length remaining)
    rest : Candidates
    complete : Perm (result ++ rest) (selected ++ remaining)

  mmr_from-Selects :
      (fuel limit : ℕ) (lambda maximal : Number) (selected remaining : Candidates)
      → length remaining ≤ fuel
      → length selected ≤ limit
      → Selects limit selected remaining (mmr_from p fuel limit lambda maximal selected remaining)
  unfolding mmr_from
  mmr_from-Selects zero limit lambda maximal selected [] h k = record {
    counted = omega arith;
    rest = [];
    complete = Perm.refl _;
  }
  mmr_from-Selects zero limit lambda maximal selected (x ∷ remaining) h k = absurd (omega arith)
  mmr_from-Selects (suc fuel) limit lambda maximal selected remaining h k =
      elim (Bool-cases (ltb (length selected) limit && ltb 0 (length remaining))) [
        | inr done ↦
            rw done (record { counted = ground arith; rest = remaining; complete = Perm.refl _ })
        | inl more ↦
            let i = best_index p lambda maximal selected remaining in
            let (x, found, perm, shorter) =
              taken i remaining (best_index-lt lambda maximal selected remaining (ground arith)) in
            let longer = length-append selected (x ∷ []) in
            let s =
              mmr_from-Selects fuel limit lambda maximal (selected ++ x ∷ [])
                (remove_at p i remaining) (omega arith) (ground (arith, longer)) in
            rw more (
              rw found (record {
                counted = omega (arith, s.counted, longer);
                rest = s.rest;
                complete = Perm.trans s.complete (
                    rw (append_assoc selected (x ∷ []) (remove_at p i remaining))
                      (Perm.append_left selected perm));
              }))
      ]

  -- A selection has as many candidates as the limit allows, and with some rest it is a rearrangement
  -- of all the candidates: none is invented, and none is taken twice.
  pub select_with_mmr_complete :
      (candidates selected : Candidates) (options_limit : ℕ) (lambda : Number)
      → select_with_mmr p candidates options_limit lambda ≡ ok selected
      → (length selected ≡ min options_limit (length candidates))
        × (rest : Candidates) × Perm (selected ++ rest) candidates
  unfolding select_with_mmr
  select_with_mmr_complete candidates selected options_limit lambda h =
      let sorted = sort (compare_candidates p) candidates in
      let same = length-sort (compare_candidates p) candidates in
      let maximal =
        maximum
          (of_ℕ 0 ∷ map (λ (c : ValidatedSearchCandidate Number). c.retrieval_score) sorted) in
      let result =
        mmr_from p (length candidates) (min options_limit (length candidates)) lambda maximal []
          sorted in
      let e : result ≡ selected = ground arith in
      let s =
        mmr_from-Selects (length candidates) (min options_limit (length candidates)) lambda maximal
          [] sorted (omega (arith, same)) (omega arith) in
      (
        omega (arith, s.counted, same, ap length e),
        s.rest,
        subst (λ (t : Candidates). Perm (t ++ s.rest) candidates) e
            (Perm.trans s.complete (sort-perm (compare_candidates p) candidates)),
      )

  module _ {κ} (P : ValidatedSearchCandidate Number → Type κ) where
    All-remove_at : (i : ℕ) (xs : Candidates) → All P xs → All P (remove_at p i xs)
    All-remove_at i [] h = tt
    All-remove_at zero (x ∷ xs) (q, h) = h
    All-remove_at (suc i) (x ∷ xs) (q, h) = (q, All-remove_at i xs h)

    All-push_chosen :
        (selected xs : Candidates) (i : ℕ)
        → All P selected
        → All P xs
        → All P (push_chosen p selected (get_elem? xs i))
    All-push_chosen selected [] i h k = h
    All-push_chosen selected (x ∷ xs) zero h (q, k) = All-append P selected (x ∷ []) h (q, tt)
    All-push_chosen selected (x ∷ xs) (suc i) h (q, k) = All-push_chosen selected xs i h k

    mmr_from-All :
        (fuel limit : ℕ) (lambda maximal : Number) (selected remaining : Candidates)
        → All P selected
        → All P remaining
        → All P (mmr_from p fuel limit lambda maximal selected remaining)
    unfolding mmr_from
    mmr_from-All zero limit lambda maximal selected remaining h k = h
    mmr_from-All (suc fuel) limit lambda maximal selected remaining h k =
        let i = best_index p lambda maximal selected remaining in
        elim (Bool-cases (ltb (length selected) limit && ltb 0 (length remaining))) [
          | inr done ↦ rw done h
          | inl more ↦ rw more (
              mmr_from-All fuel limit lambda maximal
                (push_chosen p selected (get_elem? remaining i)) (remove_at p i remaining)
                (All-push_chosen selected remaining i h k) (All-remove_at i remaining k))
        ]

    -- What holds of every candidate holds of every one that is selected.
    pub select_with_mmr-All :
        (candidates selected : Candidates) (options_limit : ℕ) (lambda : Number)
        → select_with_mmr p candidates options_limit lambda ≡ ok selected
        → All P candidates
        → All P selected
    unfolding select_with_mmr
    select_with_mmr-All candidates selected options_limit lambda h k =
        let sorted = sort (compare_candidates p) candidates in
        let maximal =
          maximum
            (of_ℕ 0 ∷ map (λ (c : ValidatedSearchCandidate Number). c.retrieval_score) sorted) in
        let result =
          mmr_from p (length candidates) (min options_limit (length candidates)) lambda maximal []
            sorted in
        let e : result ≡ selected = ground arith in
        subst (All P) e (
          mmr_from-All (length candidates) (min options_limit (length candidates)) lambda maximal []
            sorted tt (All-sort (compare_candidates p) P candidates k))
