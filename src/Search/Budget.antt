-- ===== src/Search/Budget.antt =====
-- src/search/pipeline.ts: token estimates, excerpts and the packing of memories into a context.
pub mod Estimate
pub mod Truncate
pub mod Packing
pub mod Context
pub mod Selection
mod Tests
use edgemneme.Base.{
  ℕ, zero, suc, ◌+◌, ◌-◌, ◌*◌, ◌/◌, max, Bool, true, false, not, ◌&&◌, Option, none, some, List, [],
  ◌∷◌, ◌++◌, map, Text, codes, leb, ltb, ◌==◌, if◌then◌else◌, length, take, is_empty, text_eq,
}
use edgemneme.Search.Types.{ValidatedSearchCandidate, SearchResultMemory}

unfoldable pub utf8_byte_length : Option ℕ → ℕ
utf8_byte_length none = 0
utf8_byte_length (some code_point) =
    if leb code_point 0x7f
    then 1
    else (if leb code_point 0x7ff then 2 else (if leb code_point 0xffff then 3 else 4))

-- The variables of the loop of `estimateTokens`; `Math.ceil(n / 4)` is (n + 3) / 4.
pub record TokenCount : Type 0 where
  pub estimated_tokens : ℕ
  pub ascii_run_length : ℕ

abbrev pub ceil_quarter : ℕ → ℕ
ceil_quarter n = (n + 3) / 4

count_code_point : TokenCount → ℕ → TokenCount
unfolding utf8_byte_length
count_code_point t value =
    if leb value 0x7f then record t { ascii_run_length = t.ascii_run_length + 1 } else record {
      estimated_tokens =
          t.estimated_tokens + (ceil_quarter t.ascii_run_length + utf8_byte_length (some value));
      ascii_run_length = 0;
    }

estimate_from : TokenCount → Text → ℕ
unfolding count_code_point
estimate_from t [] = max 1 (t.estimated_tokens + ceil_quarter t.ascii_run_length)
estimate_from t (code_point ∷ content) = estimate_from (count_code_point t code_point) content

unfoldable pub estimate_tokens : Text → ℕ
unfolding estimate_from
estimate_tokens content =
    estimate_from (record { estimated_tokens = 0; ascii_run_length = 0 }) content

-- The loop of `truncateToTokenBudget`; each round brings `lower` and `upper` closer.
bisect : ℕ → Text → ℕ → ℕ → ℕ → ℕ
bisect zero code_points token_budget lower upper = lower
bisect (suc fuel) code_points token_budget lower upper =
    let midpoint = (lower + upper + 1) / 2 in
    let right = bisect fuel code_points token_budget midpoint upper in
    let left = bisect fuel code_points token_budget lower (midpoint - 1) in
    if ltb lower upper
    then (if leb (estimate_tokens (take midpoint code_points)) token_budget then right else left)
    else lower

unfoldable pub truncate_to_token_budget : Text → ℕ → Text
unfolding bisect
truncate_to_token_budget content token_budget =
    if leb (estimate_tokens content) token_budget
    then content
    else take (bisect (length content) content token_budget 0 (length content)) content

-- What a citation names of a candidate or of a memory.
pub record Citation : Type 0 where
  pub memory_id : Text
  pub revision_id : Text
  pub chunk_id : Text
  pub evidence_ids : List Text

-- `texts.join(separator)`
unfoldable pub join : Text → List Text → Text
join separator [] = []
join separator (x ∷ []) = x
join separator (x ∷ y ∷ xs) = x ++ (separator ++ join separator (y ∷ xs))

unfoldable pub render_context_citation : Citation → Text
unfolding join
render_context_citation memory =
    codes "[memory:"
    ++ (memory.memory_id
        ++ (codes "] [revision:"
            ++ (memory.revision_id
                ++ (codes "] [chunk:"
                    ++ (memory.chunk_id
                        ++ (codes "] "
                            ++ join (codes " ") (
                                map (λ id. codes "[evidence:" ++ (id ++ codes "]"))
                                  memory.evidence_ids)))))))

module _ {Number : Type 0} where
  abbrev pub candidate_citation : ValidatedSearchCandidate Number → Citation
  candidate_citation c = record {
    memory_id = c.memory_id;
    revision_id = c.revision_id;
    chunk_id = c.chunk_id;
    evidence_ids = c.evidence_ids;
  }

  abbrev pub memory_citation : SearchResultMemory Number → Citation
  memory_citation m = record {
    memory_id = m.memory_id;
    revision_id = m.revision_id;
    chunk_id = m.chunk_id;
    evidence_ids = m.evidence_ids;
  }

  unfoldable pub render_context_entry : SearchResultMemory Number → Text
  render_context_entry memory =
      (render_context_citation (memory_citation memory) ++ codes " ") ++ memory.excerpt

  unfoldable pub build_context_pack : List (SearchResultMemory Number) → Text
  build_context_pack memories = join (10 ∷ 10 ∷ []) (map render_context_entry memories)

  unfoldable pub without_embedding :
      ValidatedSearchCandidate Number → Text → Bool → Number → SearchResultMemory Number
  without_embedding c excerpt excerpt_truncated relevance = record {
    project_id = c.project_id;
    memory_id = c.memory_id;
    revision_id = c.revision_id;
    memory_version = c.memory_version;
    chunk_id = c.chunk_id;
    content_sha256 = c.content_sha256;
    kind = c.kind;
    memory_class = c.memory_class;
    scope = c.scope;
    scope_id = c.scope_id;
    status = c.status;
    valid_from = c.valid_from;
    valid_until = c.valid_until;
    evidence_ids = c.evidence_ids;
    retrieval_score = c.retrieval_score;
    index_generation = c.index_generation;
    excerpt = excerpt;
    excerpt_truncated = excerpt_truncated;
    relevance = relevance;
  }

  abbrev citation_prefix : ValidatedSearchCandidate Number → Text
  citation_prefix c = render_context_citation (candidate_citation c) ++ codes " "

  -- A budget below the citation's is 0 here and not positive there: both return null.
  unfoldable pub fit_memory_to_context_budget :
      ValidatedSearchCandidate Number → Number → ℕ → Option (SearchResultMemory Number × ℕ)
  fit_memory_to_context_budget candidate relevance token_budget =
      let excerpt_budget = token_budget - estimate_tokens (citation_prefix candidate) in
      let excerpt = truncate_to_token_budget candidate.chunk_content excerpt_budget in
      let truncated = not (text_eq excerpt candidate.chunk_content) in
      let memory = without_embedding candidate excerpt truncated relevance in
      let estimated_tokens = estimate_tokens (render_context_entry memory) in
      if ltb excerpt_budget 1
      then none
      else (if is_empty excerpt
          then none
          else (if leb estimated_tokens token_budget
              then some (memory, estimated_tokens)
              else none))

  abbrev separator_tokens : List (SearchResultMemory Number) → ℕ
  separator_tokens [] = 0
  separator_tokens (m ∷ ms) = estimate_tokens (10 ∷ 10 ∷ [])

  -- The loop of `search` over the relevant candidates, each with its relevance.
  pub pack_from :
      ℕ
      → ℕ
      → List (SearchResultMemory Number)
      → ℕ
      → List (ValidatedSearchCandidate Number × Number)
      → List (SearchResultMemory Number)
  pack_from result_limit token_budget memories consumed_tokens [] = memories
  pack_from result_limit token_budget memories consumed_tokens ((candidate, relevance) ∷ relevant) =
      elim (length memories == result_limit) [
        | true ↦ memories
        | false ↦
            elim (fit_memory_to_context_budget candidate relevance
              (token_budget - consumed_tokens - separator_tokens memories)) [
                | none ↦ pack_from result_limit token_budget memories consumed_tokens relevant
                | some (memory, estimated_tokens) ↦
                    pack_from result_limit token_budget (memories ++ memory ∷ [])
                      (consumed_tokens + (separator_tokens memories + estimated_tokens)) relevant
              ]
      ]

  unfoldable pub pack_memories :
      ℕ → ℕ → List (ValidatedSearchCandidate Number × Number) → List (SearchResultMemory Number)
  unfolding pack_from
  pack_memories result_limit token_budget relevant =
      pack_from result_limit token_budget [] 0 relevant
