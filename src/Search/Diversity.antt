-- ===== src/Search/Diversity.antt =====
-- src/search/ranking.ts: similarity of candidates, and the diversified selection.
pub mod Selection
mod Tests
use edgemneme.Base.{
  ℕ, zero, suc, ◌+◌, ◌-◌, min, Ordering, Bool, true, false, not, ◌&&◌, ◌||◌, Option, none, some,
  List, [], ◌∷◌, ◌++◌, map, Result, ok, err, ◌>>=◌, ◌>>◌, throw_if, Text, codes, ltb, ◌==◌,
  if◌then◌else◌, is_empty, length, get_elem?, includes, text_eq, map_get, map_set, map_values, sort,
  or_else, compare, filter, unique,
}
use edgemneme.Search.Types.{ValidatedSearchCandidate, RecallHit, RecallSet, FusedRecallHit}
use edgemneme.Search.Platform.{Platform, descending}
use edgemneme.Search.Planning.{SearchError, rrf_constant_invalid, weight_invalid, lambda_invalid}
use edgemneme.Search.Ranking.{compare_candidates}

module _ (p : Platform) where
  open p use {
    Number, lt, number_eq, is_finite, of_ℕ, add, sub, mul, div, sqrt, maximum, minimum,
    negative_infinity, locale_compare, nfkc, to_lower_case, word_tokens,
  }

  -- The three running sums of `cosineSimilarity`, over vectors of equal length.
  cosine_sums : Number → Number → Number → List Number → List Number → Number × Number × Number
  cosine_sums dot left_norm right_norm (l ∷ left) (r ∷ right) =
      cosine_sums (add dot (mul l r)) (add left_norm (mul l l)) (add right_norm (mul r r)) left
        right
  cosine_sums dot left_norm right_norm left right = (dot, left_norm, right_norm)

  pub cosine_similarity : List Number → List Number → Number
  unfolding cosine_sums
  cosine_similarity left right =
      let (dot, left_norm, right_norm) = cosine_sums (of_ℕ 0) (of_ℕ 0) (of_ℕ 0) left right in
      let cosine = div dot (sqrt (mul left_norm right_norm)) in
      if number_eq left_norm (of_ℕ 0) || number_eq right_norm (of_ℕ 0)
      then of_ℕ 0
      else maximum (sub (of_ℕ 0) (of_ℕ 1) ∷ minimum (of_ℕ 1 ∷ cosine ∷ []) ∷ [])

  abbrev token_set : Text → List Text
  token_set value = unique (word_tokens (to_lower_case (nfkc value)))

  pub lexical_similarity : Text → Text → Number
  lexical_similarity left right =
      let left_tokens = token_set left in
      let right_tokens = token_set right in
      let intersection = length (filter (λ token. includes right_tokens token) left_tokens) in
      if is_empty left_tokens || is_empty right_tokens
      then of_ℕ 0
      else div (of_ℕ intersection) (of_ℕ (length left_tokens + length right_tokens - intersection))

  abbrev similarity_of : Option (List Number) → Option (List Number) → Number → Number
  similarity_of (some l) (some r) otherwise =
      if not (is_empty l) && length l == length r then cosine_similarity l r else otherwise
  similarity_of _ _ otherwise = otherwise

  pub candidate_similarity :
      ValidatedSearchCandidate Number → ValidatedSearchCandidate Number → Number
  unfolding cosine_similarity lexical_similarity
  candidate_similarity left right =
      similarity_of left.embedding right.embedding
        (lexical_similarity left.chunk_content right.chunk_content)

  -- `bestIndex` and `bestScore` of the inner loop of `selectWithMmr`.
  pub record Best : Type 0 where
    pub index : ℕ
    pub score : Number

  abbrev pub mmr_score :
      Number
      → Number
      → List (ValidatedSearchCandidate Number)
      → ValidatedSearchCandidate Number
      → Number
  mmr_score lambda maximum_retrieval_score selected candidate =
      let similarities = map (candidate_similarity candidate) selected in
      let redundancy = if is_empty selected then of_ℕ 0 else maximum similarities in
      let relevance =
        if number_eq maximum_retrieval_score (of_ℕ 0)
        then of_ℕ 0
        else div candidate.retrieval_score maximum_retrieval_score in
      sub (mul lambda relevance) (mul (sub (of_ℕ 1) lambda) redundancy)

  abbrev precedes :
      ValidatedSearchCandidate Number → Option (ValidatedSearchCandidate Number) → Bool
  precedes candidate none = false
  precedes candidate (some current) = elim (locale_compare candidate.memory_id current.memory_id) [
    | Ordering.lt ↦ true
    | _ ↦ false
  ]

  consider :
      (ValidatedSearchCandidate Number → Number)
      → List (ValidatedSearchCandidate Number)
      → Best
      → ℕ
      → ValidatedSearchCandidate Number
      → Best
  consider score_of remaining best index candidate =
      let score = score_of candidate in
      if lt best.score score
        || (number_eq score best.score && precedes candidate (get_elem? remaining best.index))
      then record { index = index; score = score }
      else best

  -- `for (const [index, candidate] of remaining.entries())`
  best_from :
      (ValidatedSearchCandidate Number → Number)
      → List (ValidatedSearchCandidate Number)
      → Best
      → ℕ
      → List (ValidatedSearchCandidate Number)
      → Best
  unfolding consider
  best_from score_of remaining best index [] = best
  best_from score_of remaining best index (candidate ∷ candidates) =
      best_from score_of remaining (consider score_of remaining best index candidate) (index + 1)
        candidates

  best_index :
      Number
      → Number
      → List (ValidatedSearchCandidate Number)
      → List (ValidatedSearchCandidate Number)
      → ℕ
  unfolding best_from
  best_index lambda maximum_retrieval_score selected remaining =
      (best_from (mmr_score lambda maximum_retrieval_score selected) remaining
        (record { index = 0; score = negative_infinity }) 0 remaining).index

  -- `remaining.splice(index, 1)`
  abbrev pub remove_at :
      ℕ → List (ValidatedSearchCandidate Number) → List (ValidatedSearchCandidate Number)
  remove_at index [] = []
  remove_at zero (x ∷ xs) = xs
  remove_at (suc index) (x ∷ xs) = x ∷ remove_at index xs

  abbrev pub push_chosen :
      List (ValidatedSearchCandidate Number)
      → Option (ValidatedSearchCandidate Number)
      → List (ValidatedSearchCandidate Number)
  push_chosen selected none = selected
  push_chosen selected (some chosen) = selected ++ chosen ∷ []

  -- The `while` loop; each round takes one candidate out of `remaining`.
  mmr_from :
      ℕ
      → ℕ
      → Number
      → Number
      → List (ValidatedSearchCandidate Number)
      → List (ValidatedSearchCandidate Number)
      → List (ValidatedSearchCandidate Number)
  unfolding best_index
  mmr_from zero limit lambda maximum_retrieval_score selected remaining = selected
  mmr_from (suc fuel) limit lambda maximum_retrieval_score selected remaining =
      let index = best_index lambda maximum_retrieval_score selected remaining in
      let next =
        mmr_from fuel limit lambda maximum_retrieval_score
          (push_chosen selected (get_elem? remaining index)) (remove_at index remaining) in
      if ltb (length selected) limit && ltb 0 (length remaining) then next else selected

  -- The limit is a natural number in every call; lambda is 0.7 where a call leaves it out.
  unfoldable pub select_with_mmr :
      List (ValidatedSearchCandidate Number)
      → ℕ
      → Number
      → Result SearchError (List (ValidatedSearchCandidate Number))
  unfolding mmr_from compare_candidates
  select_with_mmr candidates options_limit lambda = do
    let limit = min options_limit (length candidates)
    throw_if (not (is_finite lambda) || lt lambda (of_ℕ 0) || lt (of_ℕ 1) lambda) lambda_invalid
    let remaining = sort (compare_candidates p) candidates
    let scores = map (λ (c : ValidatedSearchCandidate Number). c.retrieval_score) remaining
    ok (mmr_from (length candidates) limit lambda (maximum (of_ℕ 0 ∷ scores)) [] remaining)
