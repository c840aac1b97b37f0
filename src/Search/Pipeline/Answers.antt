-- ===== src/Search/Pipeline/Answers.antt =====
-- src/search/pipeline.ts: what each memory of an answer rests on.
use mathlib.Core.List.{Memᴰ}
use edgemneme.Base.{ℕ, ◌≡◌, ◌≢◌, true, false, List, [], ◌∷◌, ok, All, All-imp}
use edgemneme.Search.Types.{ValidatedSearchCandidate, SearchResultMemory}
use edgemneme.Search.Platform.{Platform}
use edgemneme.Search.Planning.Laws.{IsAdmitted, passes_hard_filters_iff}
use edgemneme.Search.Budget.{pack_memories}
use edgemneme.Search.Budget.Packing.{IsFit}
use edgemneme.Search.Budget.Selection.{pack_from-All}
use edgemneme.Search.Pipeline.{
  abstain, SearchPipelineDependencies, SearchPipelineInput, SearchPipelineResult, Relevant,
}
use edgemneme.Search.Pipeline.Stages.{SearchRequest, conclude, prepare_request, search}
use edgemneme.Search.Pipeline.Outcomes.{Sources, Supported, Outcome, search-Outcome}
use edgemneme.Search.Pipeline.Candidates.{IsRecalled, IsReranked}

module _ (p : Platform) where
  open p use {Number, lt, is_finite, of_ℕ, of_thousandths}

  conclude-All :
      (input : SearchPipelineInput p) (P : SearchResultMemory Number → Type 0)
      (ms : List (SearchResultMemory Number))
      → All P ms
      → All P (conclude p input ms).memories
  unfolding abstain
  conclude-All input P [] h = tt
  conclude-All input P (m ∷ ms) h = h

  module _ (dependencies : SearchPipelineDependencies p) (input : SearchPipelineInput p)
      (q : SearchRequest Number) where
    -- A memory is an excerpt of a candidate that the validator returned for a fused hit, that the filters
    -- admit, that has evidence, and that was submitted to the reranker; its relevance is what the reranker
    -- gave to the candidate, is finite and is not below the minimum.
    pub record IsGrounded (m : SearchResultMemory Number) : Type 0 where
      pub sources : Sources p dependencies input q
      pub candidate : ValidatedSearchCandidate Number
      pub recalled : IsRecalled p sources.fused sources.authoritative candidate
      pub admitted : IsAdmitted p candidate q.filters
      pub cited : candidate.evidence_ids ≢ []
      pub submitted : Memᴰ candidate sources.diversified
      pub relevance : Number
      pub reranked : IsReranked p sources.reranked (candidate, relevance)
      pub finite : is_finite relevance ≡ true
      pub enough : lt relevance q.minimum_relevance ≡ false
      pub fits : (b : ℕ) × (e : ℕ) × IsFit candidate relevance b m e

    IsFit-IsGrounded :
        (sources : Sources p dependencies input q) (x : Relevant p)
        → Supported p dependencies input q sources x
        → (b : ℕ) (m : SearchResultMemory Number) (e : ℕ) → IsFit x.0 x.1 b m e
        → IsGrounded m
    IsFit-IsGrounded sources x ((((passes, recalled), cited), submitted), finite, enough, reranked)
          b m e fit =
        record {
          sources = sources;
          candidate = x.0;
          recalled = recalled;
          admitted = (passes_hard_filters_iff p x.0 q.filters).0 passes;
          cited = cited;
          submitted = submitted;
          relevance = x.1;
          reranked = reranked;
          finite = finite;
          enough = enough;
          fits = (b, e, fit);
        }

    Outcome-IsGrounded :
        (r : SearchPipelineResult p) → Outcome p dependencies input q r → All IsGrounded r.memories
    unfolding abstain pack_memories
    Outcome-IsGrounded _ (Outcome.abstained reason) = tt
    Outcome-IsGrounded _ (Outcome.packed sources relevant h) =
        conclude-All input IsGrounded (pack_memories q.result_limit q.token_budget relevant) (
          pack_from-All q.result_limit q.token_budget IsGrounded [] 0 relevant tt (
            All-imp (Supported p dependencies input q sources)
              (λ (y : Relevant p).
                (b : ℕ) (m : SearchResultMemory Number) (e : ℕ)
                → IsFit y.0 y.1 b m e
                → IsGrounded m)
              (IsFit-IsGrounded sources) relevant h))

  -- Whatever the providers, the validator and the reranker return: each memory of an answer is an
  -- excerpt, within a budget, of a candidate that the validator returned for the fused hits, with nothing
  -- changed but its score, which is that of the fused hit of its identity. The request's filters admit it,
  -- it has evidence, it was submitted to the reranker, and its relevance is what the reranker gave to its
  -- identity, finite and not below the request's minimum.
  pub search-IsGrounded :
      (dependencies : SearchPipelineDependencies p) (input : SearchPipelineInput p)
      (r : SearchPipelineResult p)
      → search p dependencies input ≡ ok r
      → (q : SearchRequest Number) × (prepare_request p input ≡ ok q)
        × All (IsGrounded dependencies input q) r.memories
  search-IsGrounded dependencies input r e =
      let (q, prepared, outcome) = search-Outcome p dependencies input r e in
      (q, prepared, Outcome-IsGrounded dependencies input q r outcome)
