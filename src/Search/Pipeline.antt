-- ===== src/Search/Pipeline.antt =====
-- src/search/pipeline.ts: the search from the query to the packed context. The recall providers, the
-- head validator and the reranker are the interfaces of src/search/types.ts, taken as functions.
pub mod Stages
pub mod Candidates
pub mod Outcomes
pub mod Answers
pub mod Bounds
mod Tests
use edgemneme.Base.{
  ℕ, ◌+◌, ◌-◌, min, Ordering, Bool, true, false, not, ◌&&◌, ◌||◌, Option, none, some, List, [], ◌∷◌,
  ◌++◌, map, Result, ok, err, ◌>>=◌, ◌>>◌, throw_if, Text, codes, ltb, if◌then◌else◌, is_empty,
  length, filter, trim, map_get, map_set, map_values, sort, or_else, max_safe_integer,
}
use edgemneme.Search.Types.{
  HardFilterPlan, ValidatedSearchCandidate, SearchResultMemory, RecallHit, RecallSet,
  FusedRecallHit,
}
use edgemneme.Search.Platform.{Platform, descending}
use edgemneme.Search.Planning.{
  SearchError, limit_invalid, token_budget_invalid, minimum_relevance_invalid,
  snapshot_version_invalid, HardFilterInput, or_default, passes_hard_filters,
}
use edgemneme.Search.Lexical.{normalize_lexical_query}
use edgemneme.Search.Ranking.{
  identity_text, recall_identity, fuse_reciprocal_ranks, deduplicate_candidates,
}
use edgemneme.Search.Diversity.{select_with_mmr}
use edgemneme.Search.Budget.{pack_memories, build_context_pack}

pub data AbstentionReason : Type 0 where
  no_recall no_current_head_match no_evidence_backed_match low_relevance : AbstentionReason
  context_budget_exceeded : AbstentionReason

pub record ExactReference : Type 0 where
  pub type : Text
  pub value : Text

pub record RecallInput : Type 0 where
  pub query : Text
  pub lexical_query : Option Text
  pub exact_references : List ExactReference
  pub filters : HardFilterPlan
  pub limit : ℕ

abbrev pub recall_limit : ℕ
recall_limit = 20

abbrev pub rerank_limit : ℕ
rerank_limit = 20

abbrev pub max_result_limit : ℕ
max_result_limit = 10

abbrev pub max_context_tokens : ℕ
max_context_tokens = 8000

-- A negative or fractional limit fails as 0 does, so a natural number stands for the argument.
unfoldable pub normalize_result_limit : Option ℕ → Result SearchError ℕ
normalize_result_limit none = ok 5
normalize_result_limit (some value) =
    if ltb max_safe_integer value || ltb value 1
    then err limit_invalid
    else ok (min value max_result_limit)

unfoldable pub normalize_token_budget : Option ℕ → Result SearchError ℕ
normalize_token_budget none = ok 2500
normalize_token_budget (some value) =
    if ltb max_safe_integer value || ltb value 1
    then err token_budget_invalid
    else ok (min value max_context_tokens)

unfoldable pub require_snapshot_version : ℕ → Result SearchError ℕ
require_snapshot_version value =
    if ltb max_safe_integer value then err snapshot_version_invalid else ok value

module _ (p : Platform) where
  open p use {Number, lt, is_finite, of_ℕ, of_thousandths, nfkc, locale_compare}

  abbrev pub RecallProvider : Type 0
  RecallProvider = RecallInput → Result SearchError (List (RecallHit Number))

  pub record HeadValidationInput : Type 0 where
    pub project_id : Text
    pub principal_id : Text
    pub snapshot_version : ℕ
    pub filters : HardFilterPlan
    pub candidates : List (FusedRecallHit Number)

  pub record RerankedCandidate : Type 0 where
    pub candidate : ValidatedSearchCandidate Number
    pub relevance : Number

  pub record SearchPipelineDependencies : Type 0 where
    pub exact : Option RecallProvider
    pub lexical : Option RecallProvider
    pub semantic : Option RecallProvider
    pub validate : HeadValidationInput → Result SearchError (List (ValidatedSearchCandidate Number))
    pub rerank :
        Text → List (ValidatedSearchCandidate Number) → Result SearchError (List RerankedCandidate)
    -- `detectExactReferences` of src/search/exact.ts
    pub detect_exact_references : Text → List ExactReference

  pub record SearchPipelineInput : Type 0 where
    pub filter_input : HardFilterInput
    pub principal_id : Text
    pub snapshot_version : ℕ
    pub query : Text
    pub index_generation : Text
    pub limit : Option ℕ
    pub minimum_relevance : Option Number
    pub maximum_context_tokens : Option ℕ
    pub now : Option Text

  pub record SearchPipelineResult : Type 0 where
    pub snapshot_version : ℕ
    pub index_generation : Text
    pub abstained : Bool
    pub abstention_reason : Option AbstentionReason
    pub memories : List (SearchResultMemory Number)
    pub context_pack : Text

  unfoldable pub normalize_minimum_relevance : Option Number → Result SearchError Number
  normalize_minimum_relevance value =
      let normalized = or_default value (of_thousandths 350) in
      if not (is_finite normalized) || lt normalized (of_ℕ 0) || lt (of_ℕ 1) normalized
      then err minimum_relevance_invalid
      else ok normalized

  abbrev pub candidate_identity : ValidatedSearchCandidate Number → Text
  candidate_identity c = identity_text c.project_id c.memory_id c.revision_id c.chunk_id

  unfoldable pub abstain : SearchPipelineInput → AbstentionReason → SearchPipelineResult
  abstain input abstention_reason = record {
    snapshot_version = input.snapshot_version;
    index_generation = input.index_generation;
    abstained = true;
    abstention_reason = some abstention_reason;
    memories = [];
    context_pack = [];
  }

  -- One recall task, if the provider is there and the query has something for it.
  abbrev pub recall_channel :
      Option RecallProvider
      → Bool
      → Text
      → Number
      → RecallInput
      → Result SearchError (List (RecallSet Number))
  recall_channel none wanted channel weight recall_input = ok []
  recall_channel (some recall) false channel weight recall_input = ok []
  recall_channel (some recall) true channel weight recall_input = do
    hits ← recall recall_input
    ok (record { channel = channel; weight = weight; hits = hits } ∷ [])

  abbrev pub is_some {ℓ} : {A : Type ℓ} → Option A → Bool
  is_some none = false
  is_some (some a) = true

  -- `new Map(candidates.map((candidate) => [identity(candidate), candidate]))`
  abbrev pub index_by {ℓ} : {A : Type ℓ} → (A → Text) → List (Text × A) → List A → List (Text × A)
  index_by identity m [] = m
  index_by identity m (x ∷ xs) = index_by identity (map_set (identity x) x m) xs

  abbrev pub with_recall_score :
      ValidatedSearchCandidate Number
      → Option (FusedRecallHit Number)
      → List (ValidatedSearchCandidate Number)
  with_recall_score candidate none = []
  with_recall_score candidate (some recall) =
      record candidate { retrieval_score = recall.retrieval_score } ∷ []

  -- The candidates that pass the filters and were recalled, with their fused scores.
  unfoldable pub current_candidates :
      HardFilterPlan
      → List (Text × FusedRecallHit Number)
      → List (ValidatedSearchCandidate Number)
      → List (ValidatedSearchCandidate Number)
  current_candidates filters recalled [] = []
  current_candidates filters recalled (candidate ∷ authoritative) =
      let rest = current_candidates filters recalled authoritative in
      if passes_hard_filters p candidate filters
      then with_recall_score candidate (map_get (candidate_identity candidate) recalled) ++ rest
      else rest

  abbrev pub Relevant : Type 0
  Relevant = ValidatedSearchCandidate Number × Number

  abbrev pub improves : Number → Option Relevant → Bool
  improves relevance none = true
  improves relevance (some existing) = lt existing.1 relevance

  abbrev pub set_relevance :
      Number
      → Text
      → Number
      → Option (ValidatedSearchCandidate Number)
      → List (Text × Relevant)
      → List (Text × Relevant)
  set_relevance minimum_relevance identity relevance none m = m
  set_relevance minimum_relevance identity relevance (some candidate) m =
      if is_finite relevance
        && not (lt relevance minimum_relevance)
        && improves relevance (map_get identity m)
      then map_set identity (candidate, relevance) m
      else m

  -- The loop over the reranked items.
  unfoldable pub relevance_by_identity :
      Number
      → List (Text × ValidatedSearchCandidate Number)
      → List (Text × Relevant)
      → List RerankedCandidate
      → List (Text × Relevant)
  relevance_by_identity minimum_relevance diversified m [] = m
  relevance_by_identity minimum_relevance diversified m (item ∷ reranked) =
      let identity = candidate_identity item.candidate in
      relevance_by_identity minimum_relevance diversified
        (set_relevance minimum_relevance identity item.relevance (map_get identity diversified) m)
        reranked

  unfoldable pub compare_relevant : Relevant → Relevant → Ordering
  compare_relevant left right = or_else (descending p left.1 right.1) (
      or_else (descending p left.0.retrieval_score right.0.retrieval_score)
        (locale_compare left.0.memory_id right.0.memory_id))
