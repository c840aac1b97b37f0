-- ===== src/Search/Pipeline/Stages.antt =====
-- src/search/pipeline.ts: `SearchPipeline.search`, stage by stage. The recall tasks run one after the
-- other; where several fail, the error is the first one's.
use edgemneme.Base.{
  ℕ, min, false, not, Option, none, some, List, [], ◌∷◌, ◌++◌, Result, ok, ◌>>=◌, Text, codes,
  is_empty, length, filter, trim, map_values, sort,
}
use edgemneme.Search.Types.{
  HardFilterPlan, ValidatedSearchCandidate, SearchResultMemory, RecallSet, FusedRecallHit,
}
use edgemneme.Search.Platform.{Platform}
use edgemneme.Search.Planning.{SearchError, HardFilterInput, require_identifier, plan_hard_filters}
use edgemneme.Search.Lexical.{normalize_lexical_query}
use edgemneme.Search.Ranking.{recall_identity, fuse_reciprocal_ranks, deduplicate_candidates}
use edgemneme.Search.Diversity.{select_with_mmr}
use edgemneme.Search.Budget.{pack_memories, build_context_pack}
use edgemneme.Search.Pipeline.{
  no_recall, no_current_head_match, no_evidence_backed_match, low_relevance,
  context_budget_exceeded, RecallInput, recall_limit, rerank_limit, normalize_result_limit,
  normalize_token_budget, require_snapshot_version, RerankedCandidate, SearchPipelineDependencies,
  SearchPipelineInput, SearchPipelineResult, normalize_minimum_relevance, candidate_identity,
  abstain, recall_channel, is_some, index_by, current_candidates, relevance_by_identity,
  compare_relevant, Relevant,
}

-- The arguments of a search after their checks.
pub record SearchRequest (Number : Type 0) : Type 0 where
  pub query : Text
  pub principal_id : Text
  pub snapshot_version : ℕ
  pub result_limit : ℕ
  pub token_budget : ℕ
  pub minimum_relevance : Number
  pub filters : HardFilterPlan

-- `input.now ?? input.validAt`
abbrev pub first_given : Option Text → Option Text → Option Text
first_given none valid_at = valid_at
first_given (some now) valid_at = some now

module _ (p : Platform) where
  open p use {Number, of_ℕ, of_thousandths, nfkc}

  abbrev pub filter_input_of : SearchPipelineInput p → HardFilterInput
  filter_input_of input = record input.filter_input {
    valid_at = first_given input.now input.filter_input.valid_at;
    index_generation = some input.index_generation;
  }

  unfoldable pub prepare_request : SearchPipelineInput p → Result SearchError (SearchRequest Number)
  prepare_request input = do
    principal_id ← require_identifier input.principal_id 512
    snapshot_version ← require_snapshot_version input.snapshot_version
    result_limit ← normalize_result_limit input.limit
    token_budget ← normalize_token_budget input.maximum_context_tokens
    minimum_relevance ← normalize_minimum_relevance p input.minimum_relevance
    filters ← plan_hard_filters p (filter_input_of input)
    ok (record {
      query = trim (nfkc input.query);
      principal_id = principal_id;
      snapshot_version = snapshot_version;
      result_limit = result_limit;
      token_budget = token_budget;
      minimum_relevance = minimum_relevance;
      filters = filters;
    })

  unfoldable pub run_recall :
      SearchPipelineDependencies p
      → Text
      → HardFilterPlan
      → Result SearchError (List (RecallSet Number))
  run_recall dependencies query filters = do
    let exact_references = dependencies.detect_exact_references query
    let lexical = normalize_lexical_query p query
    let recall_input : RecallInput = record {
      query = query;
      lexical_query = lexical.fts_query;
      exact_references = exact_references;
      filters = filters;
      limit = recall_limit;
    }
    exact ←
        recall_channel p dependencies.exact (not (is_empty exact_references)) (codes "exact")
          (of_ℕ 4) recall_input
    words ←
        recall_channel p dependencies.lexical (is_some p lexical.fts_query) (codes "lexical")
          (of_ℕ 1) recall_input
    semantic ←
        recall_channel p dependencies.semantic (not (is_empty query)) (codes "semantic") (of_ℕ 1)
          recall_input
    ok (exact ++ (words ++ semantic))

  unfoldable pub evidence_backed :
      List (ValidatedSearchCandidate Number) → List (ValidatedSearchCandidate Number)
  evidence_backed current =
      filter (λ (c : ValidatedSearchCandidate Number). not (is_empty c.evidence_ids))
        (deduplicate_candidates p current)

  -- The reranked candidates that are relevant enough, most relevant first.
  unfoldable pub relevant_candidates :
      Number
      → List (ValidatedSearchCandidate Number)
      → List (RerankedCandidate p)
      → List (Relevant p)
  relevant_candidates minimum_relevance diversified reranked = sort (compare_relevant p) (
      map_values (
        relevance_by_identity p minimum_relevance (index_by p (candidate_identity p) [] diversified)
          [] reranked))

  -- The result that is not an abstention, or the abstention if nothing was packed.
  abbrev pub conclude :
      SearchPipelineInput p → List (SearchResultMemory Number) → SearchPipelineResult p
  conclude input [] = abstain p input context_budget_exceeded
  conclude input (memory ∷ memories) = record {
    snapshot_version = input.snapshot_version;
    index_generation = input.index_generation;
    abstained = false;
    abstention_reason = none;
    memories = memory ∷ memories;
    context_pack = build_context_pack (memory ∷ memories);
  }

  abbrev pub pack_answer :
      SearchPipelineInput p → SearchRequest Number → List (Relevant p) → SearchPipelineResult p
  pack_answer input request [] = abstain p input low_relevance
  pack_answer input request (item ∷ relevant) =
      conclude input (pack_memories request.result_limit request.token_budget (item ∷ relevant))

  abbrev pub answer_from_evidence :
      SearchPipelineDependencies p
      → SearchPipelineInput p
      → SearchRequest Number
      → List (ValidatedSearchCandidate Number)
      → Result SearchError (SearchPipelineResult p)
  answer_from_evidence dependencies input request [] = ok (abstain p input no_evidence_backed_match)
  answer_from_evidence dependencies input request (c ∷ backed) = do
    diversified ←
        select_with_mmr p (c ∷ backed) (min rerank_limit (length (c ∷ backed))) (of_thousandths 700)
    reranked ← dependencies.rerank request.query diversified
    ok (
        pack_answer input request
          (relevant_candidates request.minimum_relevance diversified reranked))

  abbrev pub answer_from_current :
      SearchPipelineDependencies p
      → SearchPipelineInput p
      → SearchRequest Number
      → List (ValidatedSearchCandidate Number)
      → Result SearchError (SearchPipelineResult p)
  answer_from_current dependencies input request [] = ok (abstain p input no_current_head_match)
  answer_from_current dependencies input request (c ∷ current) =
      answer_from_evidence dependencies input request (evidence_backed (c ∷ current))

  abbrev pub answer_from_fused :
      SearchPipelineDependencies p
      → SearchPipelineInput p
      → SearchRequest Number
      → List (FusedRecallHit Number)
      → Result SearchError (SearchPipelineResult p)
  answer_from_fused dependencies input request [] = ok (abstain p input no_recall)
  answer_from_fused dependencies input request (hit ∷ fused) = do
    authoritative ← dependencies.validate (record {
      project_id = request.filters.project_id;
      principal_id = request.principal_id;
      snapshot_version = request.snapshot_version;
      filters = request.filters;
      candidates = hit ∷ fused;
    })
    let recalled =
        index_by p (λ (h : FusedRecallHit Number). recall_identity h.hit) [] (hit ∷ fused)
    answer_from_current dependencies input request
        (current_candidates p request.filters recalled authoritative)

  unfoldable pub search :
      SearchPipelineDependencies p
      → SearchPipelineInput p
      → Result SearchError (SearchPipelineResult p)
  search dependencies input = do
    request ← prepare_request input
    recall_sets ← run_recall dependencies request.query request.filters
    fused ← fuse_reciprocal_ranks p recall_sets input.index_generation (of_ℕ 60)
    answer_from_fused dependencies input request fused
