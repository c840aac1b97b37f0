-- ===== src/Search/Pipeline/Bounds.antt =====
-- src/search/pipeline.ts: how large an answer is, and when it is an abstention.
use edgemneme.Base.{
  ℕ, ◌≤◌, ◌≡◌, refl, ◌↔◌, true, false, Option, none, some, List, [], ◌∷◌, length, ok, arith,
}
use edgemneme.Search.Types.{SearchResultMemory}
use edgemneme.Search.Platform.{Platform}
use edgemneme.Search.Budget.{estimate_tokens, join, build_context_pack}
use edgemneme.Search.Budget.Context.{pack_memories-within}
use edgemneme.Search.Pipeline.{
  normalize_result_limit, normalize_token_budget, AbstentionReason, context_budget_exceeded,
  abstain, SearchPipelineDependencies, SearchPipelineInput, SearchPipelineResult,
}
use edgemneme.Search.Pipeline.Stages.{SearchRequest, prepare_request, conclude, search}
use edgemneme.Search.Pipeline.Outcomes.{Outcome, search-Outcome}

normalize_result_limit-bounds :
    (o : Option ℕ) (n : ℕ) → normalize_result_limit o ≡ ok n → (1 ≤ n) × (n ≤ 10)
unfolding normalize_result_limit
normalize_result_limit-bounds none n h = ground arith
normalize_result_limit-bounds (some v) n h = ground arith

normalize_token_budget-bounds :
    (o : Option ℕ) (n : ℕ) → normalize_token_budget o ≡ ok n → (1 ≤ n) × (n ≤ 8000)
unfolding normalize_token_budget
normalize_token_budget-bounds none n h = ground arith
normalize_token_budget-bounds (some v) n h = ground arith

module _ (p : Platform) where
  open p use {Number}

  prepare_request-parts :
      (input : SearchPipelineInput p) (q : SearchRequest Number)
      → prepare_request p input ≡ ok q
      → (normalize_result_limit input.limit ≡ ok q.result_limit)
        × (normalize_token_budget input.maximum_context_tokens ≡ ok q.token_budget)
  unfolding prepare_request
  prepare_request-parts input q h = ground arith

  -- An answer is no larger than the request asks for.
  abbrev pub Fits : ℕ → ℕ → SearchPipelineResult p → Type 0
  Fits limit budget r = (length r.memories ≤ limit) × (estimate_tokens r.context_pack ≤ budget)

  conclude-Fits :
      (input : SearchPipelineInput p) (limit budget : ℕ) (ms : List (SearchResultMemory Number))
      → 1 ≤ budget
      → (length ms ≤ limit) × (estimate_tokens (build_context_pack ms) ≤ budget)
      → Fits limit budget (conclude p input ms)
  unfolding abstain estimate_tokens
  conclude-Fits input limit budget [] k h = (omega arith, k)
  conclude-Fits input limit budget (m ∷ ms) k h = h

  Outcome-Fits :
      (dependencies : SearchPipelineDependencies p) (input : SearchPipelineInput p)
      (q : SearchRequest Number) (r : SearchPipelineResult p)
      → 1 ≤ q.token_budget
      → Outcome p dependencies input q r
      → Fits q.result_limit q.token_budget r
  unfolding abstain estimate_tokens
  Outcome-Fits dependencies input q _ k (Outcome.abstained reason) = (omega arith, k)
  Outcome-Fits dependencies input q _ k (Outcome.packed sources relevant h) =
      conclude-Fits input q.result_limit q.token_budget _ k
        (pack_memories-within q.result_limit q.token_budget relevant k)

  -- An answer holds at most as many memories as the request's limit, which is from 1 to 10, and its
  -- context pack is estimated to cost at most the request's budget, which is from 1 to 8000 tokens.
  pub search-within :
      (dependencies : SearchPipelineDependencies p) (input : SearchPipelineInput p)
      (r : SearchPipelineResult p)
      → search p dependencies input ≡ ok r
      → (q : SearchRequest Number) × (prepare_request p input ≡ ok q)
        × ((1 ≤ q.result_limit) × (q.result_limit ≤ 10))
        × ((1 ≤ q.token_budget) × (q.token_budget ≤ 8000))
        × Fits q.result_limit q.token_budget r
  search-within dependencies input r e =
      let (q, prepared, outcome) = search-Outcome p dependencies input r e in
      let (limit, budget) = prepare_request-parts input q prepared in
      let spend = normalize_token_budget-bounds _ q.token_budget budget in
      (
        q,
        prepared,
        normalize_result_limit-bounds _ q.result_limit limit,
        spend,
        Outcome-Fits dependencies input q r spend.0 outcome,
      )

  -- What a result says of itself: it abstains exactly when it has no memories, it has a reason exactly
  -- when it abstains, its context pack is that of its memories, and it names the request's versions.
  pub record IsCoherent (input : SearchPipelineInput p) (r : SearchPipelineResult p) : Type 0 where
    pub empty : (r.abstained ≡ true) ↔ (r.memories ≡ [])
    pub explained : (r.abstained ≡ false) ↔ (r.abstention_reason ≡ none)
    pub rendered : r.context_pack ≡ build_context_pack r.memories
    pub versioned :
        (r.snapshot_version ≡ input.snapshot_version)
        × (r.index_generation ≡ input.index_generation)

  abstain-IsCoherent :
      (input : SearchPipelineInput p) (reason : AbstentionReason)
      → IsCoherent input (abstain p input reason)
  unfolding abstain build_context_pack join
  abstain-IsCoherent input reason = record {
    empty = (λ h. refl, λ h. refl);
    explained = ground arith;
    rendered = refl;
    versioned = (refl, refl);
  }

  conclude-IsCoherent :
      (input : SearchPipelineInput p) (ms : List (SearchResultMemory Number))
      → IsCoherent input (conclude p input ms)
  conclude-IsCoherent input [] = abstain-IsCoherent input context_budget_exceeded
  conclude-IsCoherent input (m ∷ ms) = record {
    empty = ground arith;
    explained = (λ h. refl, λ h. refl);
    rendered = refl;
    versioned = (refl, refl);
  }

  Outcome-IsCoherent :
      (dependencies : SearchPipelineDependencies p) (input : SearchPipelineInput p)
      (q : SearchRequest Number) (r : SearchPipelineResult p)
      → Outcome p dependencies input q r
      → IsCoherent input r
  Outcome-IsCoherent dependencies input q _ (Outcome.abstained reason) =
      abstain-IsCoherent input reason
  Outcome-IsCoherent dependencies input q _ (Outcome.packed sources relevant h) =
      conclude-IsCoherent input _

  -- A result abstains exactly when it has no memories, gives a reason exactly when it abstains, its
  -- context pack is the one made of its memories, and it names the input's snapshot and generation.
  pub search-IsCoherent :
      (dependencies : SearchPipelineDependencies p) (input : SearchPipelineInput p)
      (r : SearchPipelineResult p)
      → search p dependencies input ≡ ok r
      → IsCoherent input r
  search-IsCoherent dependencies input r e =
      let (q, prepared, outcome) = search-Outcome p dependencies input r e in
      Outcome-IsCoherent dependencies input q r outcome
