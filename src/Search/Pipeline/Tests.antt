-- ===== src/Search/Pipeline/Tests.antt =====
-- src/search/pipeline.ts: a search from the query to the packed context, and the theorems at it.
use edgemneme.Base.{
  ℕ, ◌≤◌, ◌≡◌, refl, false, none, some, [], ◌∷◌, codes, ok, map, All, includes, text_eq, trim,
  utf16_length, utf8_length, has_control, is_white_space, sorted_set, map_get, map_set, sort,
  unique,
}
use edgemneme.Search.Types.{ValidatedSearchCandidate, RecallHit}
use edgemneme.Search.Platform.Sample.{sample_platform}
use edgemneme.Search.Budget.{
  estimate_tokens, build_context_pack, join, pack_memories, fit_memory_to_context_budget,
  truncate_to_token_budget, without_embedding, render_context_citation, render_context_entry,
}
use edgemneme.Search.Planning.{
  require_identifier, plan_hard_filters, require_vectorize_indexed_string, normalize_enum_values,
  normalize_enum_value, is_timestamp, has_date_prefix, as_index_generation, passes_hard_filters,
}
use edgemneme.Search.Lexical.{
  collapse_spaces, normalize_lexical_query, quote_fts_token, slice_start,
}
use edgemneme.Search.Ranking.{
  compare_candidates, compare_fused, deduplicate_candidates, fuse_reciprocal_ranks, identity_text,
}
use edgemneme.Search.Diversity.{select_with_mmr}
use edgemneme.Search.Pipeline.{
  SearchPipelineDependencies, SearchPipelineInput, SearchPipelineResult, require_snapshot_version,
  normalize_result_limit, normalize_token_budget, normalize_minimum_relevance, abstain,
  compare_relevant, current_candidates, relevance_by_identity,
}
use edgemneme.Search.Pipeline.Stages.{
  SearchRequest, prepare_request, run_recall, evidence_backed, relevant_candidates, search,
}
use edgemneme.Search.Pipeline.Answers.{IsGrounded, search-IsGrounded}
use edgemneme.Search.Pipeline.Bounds.{IsCoherent, search-IsCoherent, search-within, Fits}

abbrev decision : ValidatedSearchCandidate ℕ
decision = record {
  project_id = codes "p";
  memory_id = codes "m1";
  revision_id = codes "r1";
  memory_version = 1;
  chunk_id = codes "chunk-0";
  chunk_content = codes "Queues carry the sync jobs.";
  content_sha256 = codes "00";
  kind = codes "decision";
  memory_class = codes "semantic";
  scope = codes "project";
  scope_id = codes "p";
  status = codes "active";
  valid_from = none;
  valid_until = none;
  evidence_ids = codes "e1" ∷ [];
  retrieval_score = 0;
  embedding = none;
  index_generation = codes "g1";
}

abbrev recalled_decision : RecallHit ℕ
recalled_decision = record {
  project_id = codes "p";
  memory_id = codes "m1";
  revision_id = codes "r1";
  chunk_id = codes "chunk-0";
  index_generation = codes "g1";
  source_score = none;
  channel = none;
}

abbrev services : SearchPipelineDependencies sample_platform
services = record {
  exact = none;
  lexical = some (λ recall_input. ok (recalled_decision ∷ []));
  semantic = none;
  validate = λ request. ok (decision ∷ []);
  rerank = λ query candidates. ok (map (λ c. record { candidate = c; relevance = 900 }) candidates);
  detect_exact_references = λ query. [];
}

abbrev question : SearchPipelineInput sample_platform
question = record {
  filter_input = record {
    project_id = codes "p";
    authorized_repository_ids = none;
    statuses = none;
    kinds = none;
    memory_classes = none;
    scope = none;
    valid_at = none;
    index_generation = none;
  };
  principal_id = codes "u";
  snapshot_version = 3;
  query = codes "queues";
  index_generation = codes "g1";
  limit = none;
  minimum_relevance = none;
  maximum_context_tokens = some 60;
  now = none;
}

abbrev answer : SearchPipelineResult sample_platform
answer = record {
  snapshot_version = 3;
  index_generation = codes "g1";
  abstained = false;
  abstention_reason = none;
  memories =
      record {
        project_id = codes "p";
        memory_id = codes "m1";
        revision_id = codes "r1";
        memory_version = 1;
        chunk_id = codes "chunk-0";
        content_sha256 = codes "00";
        kind = codes "decision";
        memory_class = codes "semantic";
        scope = codes "project";
        scope_id = codes "p";
        status = codes "active";
        valid_from = none;
        valid_until = none;
        evidence_ids = codes "e1" ∷ [];
        retrieval_score = 16;
        index_generation = codes "g1";
        excerpt = codes "Queues carry the sync jobs.";
        excerpt_truncated = false;
        relevance = 900;
      }
      ∷ [];
  context_pack =
      codes "[memory:m1] [revision:r1] [chunk:chunk-0] [evidence:e1] Queues carry the sync jobs.";
}

answered : search sample_platform services question ≡ ok answer
unfolding search prepare_request require_identifier trim utf16_length require_snapshot_version
    normalize_result_limit normalize_token_budget normalize_minimum_relevance plan_hard_filters
    require_vectorize_indexed_string utf8_length normalize_enum_values normalize_enum_value includes
    text_eq is_timestamp has_date_prefix map_get map_set sorted_set unique sort has_control
    is_white_space build_context_pack join pack_memories fit_memory_to_context_budget
    truncate_to_token_budget without_embedding estimate_tokens render_context_citation
    render_context_entry select_with_mmr collapse_spaces normalize_lexical_query quote_fts_token
    slice_start evidence_backed relevant_candidates run_recall abstain compare_relevant
    current_candidates relevance_by_identity as_index_generation passes_hard_filters
    compare_candidates compare_fused deduplicate_candidates fuse_reciprocal_ranks identity_text
answered = refl

search-IsGrounded_example :
    (q : SearchRequest ℕ) × (prepare_request sample_platform question ≡ ok q)
    × All (IsGrounded sample_platform services question q) answer.memories
search-IsGrounded_example = search-IsGrounded sample_platform services question answer answered

search-within_example :
    (q : SearchRequest ℕ) × (prepare_request sample_platform question ≡ ok q)
    × ((1 ≤ q.result_limit) × (q.result_limit ≤ 10))
    × ((1 ≤ q.token_budget) × (q.token_budget ≤ 8000))
    × Fits sample_platform q.result_limit q.token_budget answer
search-within_example = search-within sample_platform services question answer answered

search-IsCoherent_example : IsCoherent sample_platform question answer
search-IsCoherent_example = search-IsCoherent sample_platform services question answer answered
