-- ===== src/Search/Ranking.antt =====
-- src/search/ranking.ts: rank fusion, and one revision per memory.
pub mod Fusion
pub mod Dedup
mod Tests
use edgemneme.Base.{
  ℕ, zero, suc, ◌+◌, ◌-◌, min, Ordering, Bool, true, false, not, ◌&&◌, ◌||◌, Option, none, some,
  List, [], ◌∷◌, ◌++◌, map, Result, ok, err, ◌>>=◌, ◌>>◌, throw_if, Text, codes, ltb, ◌==◌,
  if◌then◌else◌, is_empty, length, get_elem?, includes, text_eq, map_get, map_set, map_values, sort,
  or_else, compare, filter, unique,
}
use edgemneme.Search.Types.{ValidatedSearchCandidate, RecallHit, RecallSet, FusedRecallHit}
use edgemneme.Search.Platform.{Platform, descending}
use edgemneme.Search.Planning.{SearchError, rrf_constant_invalid, weight_invalid, lambda_invalid}

-- The four parts joined by NUL characters.
unfoldable pub identity_text : Text → Text → Text → Text → Text
identity_text project memory revision chunk = project ++ 0 ∷ memory ++ 0 ∷ revision ++ 0 ∷ chunk

module _ {Number : Type 0} where
  abbrev pub recall_identity : RecallHit Number → Text
  recall_identity h = identity_text h.project_id h.memory_id h.revision_id h.chunk_id

module _ (p : Platform) where
  open p use {
    Number, lt, number_eq, is_finite, of_ℕ, add, sub, mul, div, sqrt, maximum, minimum,
    negative_infinity, locale_compare, nfkc, to_lower_case, word_tokens,
  }

  -- What the loop over one channel's hits changes: the map of fused hits and the seen identities.
  pub record Fusing : Type 0 where
    pub fused : List (Text × FusedRecallHit Number)
    pub seen_in_channel : List Text

  -- weight / (rrfConstant + index + 1)
  abbrev pub contribution : RecallSet Number → Number → ℕ → Number
  contribution set rrf_constant index =
      div set.weight (add (add rrf_constant (of_ℕ index)) (of_ℕ 1))

  abbrev pub merge_hit :
      RecallSet Number
      → RecallHit Number
      → Number
      → Option (FusedRecallHit Number)
      → FusedRecallHit Number
  merge_hit set hit share none = record {
    hit = hit;
    retrieval_score = share;
    channels = set.channel ∷ [];
  }
  merge_hit set hit share (some existing) = record existing {
    retrieval_score = add existing.retrieval_score share;
    channels =
        if not (includes existing.channels set.channel)
        then existing.channels ++ set.channel ∷ []
        else existing.channels;
  }

  fuse_hit : RecallSet Number → Text → Number → Fusing → ℕ → RecallHit Number → Fusing
  fuse_hit set active_generation rrf_constant s index hit =
      let key = recall_identity hit in
      let merged = merge_hit set hit (contribution set rrf_constant index) (map_get key s.fused) in
      if not (text_eq hit.index_generation active_generation)
      then s
      else (if includes s.seen_in_channel key then s else record {
        fused = map_set key merged s.fused;
        seen_in_channel = key ∷ s.seen_in_channel;
      })

  -- `recallSet.hits.forEach((hit, index) => …)`
  fuse_hits : RecallSet Number → Text → Number → Fusing → ℕ → List (RecallHit Number) → Fusing
  unfolding fuse_hit
  fuse_hits set active_generation rrf_constant s index [] = s
  fuse_hits set active_generation rrf_constant s index (hit ∷ hits) =
      fuse_hits set active_generation rrf_constant
        (fuse_hit set active_generation rrf_constant s index hit) (index + 1) hits

  fuse_sets :
      List (RecallSet Number)
      → Text
      → Number
      → List (Text × FusedRecallHit Number)
      → Result SearchError (List (Text × FusedRecallHit Number))
  unfolding fuse_hits
  fuse_sets [] active_generation rrf_constant fused = ok fused
  fuse_sets (set ∷ recall_sets) active_generation rrf_constant fused =
      let start : Fusing = record { fused = fused; seen_in_channel = [] } in
      let next = fuse_hits set active_generation rrf_constant start 0 set.hits in
      let rest = fuse_sets recall_sets active_generation rrf_constant next.fused in
      if not (is_finite set.weight) || not (lt (of_ℕ 0) set.weight)
      then err weight_invalid
      else rest

  unfoldable pub compare_fused : FusedRecallHit Number → FusedRecallHit Number → Ordering
  compare_fused left right = or_else (descending p left.retrieval_score right.retrieval_score) (
      or_else (locale_compare left.hit.memory_id right.hit.memory_id) (
        or_else (locale_compare left.hit.revision_id right.hit.revision_id)
          (locale_compare left.hit.chunk_id right.hit.chunk_id)))

  unfoldable pub fuse_reciprocal_ranks :
      List (RecallSet Number) → Text → Number → Result SearchError (List (FusedRecallHit Number))
  unfolding fuse_sets compare_fused
  fuse_reciprocal_ranks recall_sets active_generation rrf_constant = do
    throw_if (not (is_finite rrf_constant) || lt rrf_constant (of_ℕ 1)) rrf_constant_invalid
    fused ← fuse_sets recall_sets active_generation rrf_constant []
    ok (sort compare_fused (map_values fused))

  unfoldable pub compare_candidates :
      ValidatedSearchCandidate Number → ValidatedSearchCandidate Number → Ordering
  compare_candidates left right =
      or_else (descending p left.retrieval_score right.retrieval_score) (
        or_else (compare right.memory_version left.memory_version)
          (locale_compare left.memory_id right.memory_id))

  abbrev pub replaces :
      ValidatedSearchCandidate Number → Option (ValidatedSearchCandidate Number) → Bool
  replaces candidate none = true
  replaces candidate (some existing) =
      ltb existing.memory_version candidate.memory_version
      || (candidate.memory_version == existing.memory_version
          && lt existing.retrieval_score candidate.retrieval_score)

  -- One round of the loop of `deduplicateCandidates` over the map by memory.
  keep_one :
      List (Text × ValidatedSearchCandidate Number)
      → ValidatedSearchCandidate Number
      → List (Text × ValidatedSearchCandidate Number)
  keep_one by_memory candidate =
      if replaces candidate (map_get candidate.memory_id by_memory)
      then map_set candidate.memory_id candidate by_memory
      else by_memory

  keep_best :
      List (Text × ValidatedSearchCandidate Number)
      → List (ValidatedSearchCandidate Number)
      → List (Text × ValidatedSearchCandidate Number)
  unfolding keep_one
  keep_best by_memory [] = by_memory
  keep_best by_memory (candidate ∷ candidates) = keep_best (keep_one by_memory candidate) candidates

  unfoldable pub deduplicate_candidates :
      List (ValidatedSearchCandidate Number) → List (ValidatedSearchCandidate Number)
  unfolding keep_best compare_candidates
  deduplicate_candidates candidates = sort compare_candidates (map_values (keep_best [] candidates))
