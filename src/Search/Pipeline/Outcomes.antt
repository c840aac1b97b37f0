-- ===== src/Search/Pipeline/Outcomes.antt =====
-- src/search/pipeline.ts: the ways in which a search that returns can end.
use mathlib.Core.List.{Memᴰ}
use edgemneme.Base.{
  ◌≡◌, min, List, [], ◌∷◌, length, ok, >>=-eq-ok, ok-injective, subst, All, All-zip, All-of_Memᴰ,
}
use edgemneme.Search.Types.{ValidatedSearchCandidate, RecallSet, FusedRecallHit}
use edgemneme.Search.Platform.{Platform}
use edgemneme.Search.Diversity.{select_with_mmr}
use edgemneme.Search.Diversity.Selection.{select_with_mmr-All}
use edgemneme.Search.Ranking.{fuse_reciprocal_ranks}
use edgemneme.Search.Budget.{pack_memories}
use edgemneme.Search.Pipeline.{
  rerank_limit, AbstentionReason, no_recall, no_current_head_match, no_evidence_backed_match,
  low_relevance, abstain, SearchPipelineDependencies, SearchPipelineInput, SearchPipelineResult,
  Relevant, RerankedCandidate,
}
use edgemneme.Search.Pipeline.Stages.{
  SearchRequest, evidence_backed, relevant_candidates, conclude, pack_answer, answer_from_evidence,
  answer_from_current, answer_from_fused, prepare_request, run_recall, search,
}
use edgemneme.Search.Pipeline.Candidates.{
  Scored, Current, Usable, relevant_candidates-All, current_candidates-All, evidence_backed-All,
}

module _ (p : Platform) where
  open p use {Number, lt, is_finite, of_ℕ, of_thousandths}

  module _ (dependencies : SearchPipelineDependencies p) (input : SearchPipelineInput p)
      (q : SearchRequest Number) where
    -- What the providers, the validator and the reranker returned in a search.
    pub record Sources : Type 0 where
      pub recall_sets : List (RecallSet Number)
      pub recalled : run_recall p dependencies q.query q.filters ≡ ok recall_sets
      pub fused : List (FusedRecallHit Number)
      pub ranked : fuse_reciprocal_ranks p recall_sets input.index_generation (of_ℕ 60) ≡ ok fused
      pub authoritative : List (ValidatedSearchCandidate Number)
      pub validated :
          dependencies.validate (record {
            project_id = q.filters.project_id;
            principal_id = q.principal_id;
            snapshot_version = q.snapshot_version;
            filters = q.filters;
            candidates = fused;
          })
          ≡ ok authoritative
      pub diversified : List (ValidatedSearchCandidate Number)
      pub reranked : List (RerankedCandidate p)
      pub scored : dependencies.rerank q.query diversified ≡ ok reranked

    -- A candidate that is usable and was submitted to the reranker, with what this gave it.
    abbrev pub Supported : Sources → Relevant p → Type 0
    Supported sources =
        Scored p
          (λ c.
            Usable p q.filters sources.fused sources.authoritative c × Memᴰ c sources.diversified)
          sources.reranked q.minimum_relevance

    -- A search abstains, or it packs candidates that are usable and relevant enough.
    pub data Outcome : SearchPipelineResult p → Type 0 where
      abstained : (reason : AbstentionReason) → Outcome (abstain p input reason)
      packed :
          (sources : Sources) (relevant : List (Relevant p))
          → All (Supported sources) relevant
          → Outcome (conclude p input (pack_memories q.result_limit q.token_budget relevant))

    pack_answer-Outcome :
        (sources : Sources) (relevant : List (Relevant p))
        → All (Supported sources) relevant
        → Outcome (pack_answer p input q relevant)
    pack_answer-Outcome sources [] h = Outcome.abstained low_relevance
    pack_answer-Outcome sources (x ∷ relevant) h = Outcome.packed sources (x ∷ relevant) h

    module _ (recall_sets : List (RecallSet Number))
        (recalled : run_recall p dependencies q.query q.filters ≡ ok recall_sets)
        (fused : List (FusedRecallHit Number))
        (ranked : fuse_reciprocal_ranks p recall_sets input.index_generation (of_ℕ 60) ≡ ok fused)
        (authoritative : List (ValidatedSearchCandidate Number))
        (validated : dependencies.validate (record {
          project_id = q.filters.project_id;
          principal_id = q.principal_id;
          snapshot_version = q.snapshot_version;
          filters = q.filters;
          candidates = fused;
        })
          ≡ ok authoritative) where
      answer_from_evidence-Outcome :
          (backed : List (ValidatedSearchCandidate Number)) (r : SearchPipelineResult p)
          → All (Usable p q.filters fused authoritative) backed
          → answer_from_evidence p dependencies input q backed ≡ ok r
          → Outcome r
      answer_from_evidence-Outcome [] r h e =
          subst Outcome (ok-injective e) (Outcome.abstained no_evidence_backed_match)
      answer_from_evidence-Outcome (c ∷ backed) r h e =
          let (diversified, selected, e1) =
            >>=-eq-ok
              (select_with_mmr p (c ∷ backed) (min rerank_limit (length (c ∷ backed)))
                (of_thousandths 700))
              _ e in
          let (reranked, scored, e2) = >>=-eq-ok (dependencies.rerank q.query diversified) _ e1 in
          let sources : Sources = record {
            recall_sets = recall_sets;
            recalled = recalled;
            fused = fused;
            ranked = ranked;
            authoritative = authoritative;
            validated = validated;
            diversified = diversified;
            reranked = reranked;
            scored = scored;
          } in
          let usable =
            select_with_mmr-All p (Usable p q.filters fused authoritative) (c ∷ backed) diversified
              _ _ selected h in
          let submitted =
            All-zip (Usable p q.filters fused authoritative) (λ x. Memᴰ x diversified) diversified
              usable (All-of_Memᴰ (λ x. Memᴰ x diversified) diversified (λ x i. i)) in
          subst Outcome (ok-injective e2) (
            pack_answer-Outcome sources
              (relevant_candidates p q.minimum_relevance diversified reranked)
              (relevant_candidates-All p
                (λ x. Usable p q.filters fused authoritative x × Memᴰ x diversified)
                q.minimum_relevance diversified reranked submitted))

      answer_from_current-Outcome :
          (current : List (ValidatedSearchCandidate Number)) (r : SearchPipelineResult p)
          → All (Current p q.filters fused authoritative) current
          → answer_from_current p dependencies input q current ≡ ok r
          → Outcome r
      answer_from_current-Outcome [] r h e =
          subst Outcome (ok-injective e) (Outcome.abstained no_current_head_match)
      answer_from_current-Outcome (c ∷ current) r h e =
          answer_from_evidence-Outcome (evidence_backed p (c ∷ current)) r
            (evidence_backed-All p q.filters fused authoritative (c ∷ current) h) e

    answer_from_fused-Outcome :
        (recall_sets : List (RecallSet Number))
        → run_recall p dependencies q.query q.filters ≡ ok recall_sets
        → (fused : List (FusedRecallHit Number))
        → fuse_reciprocal_ranks p recall_sets input.index_generation (of_ℕ 60) ≡ ok fused
        → (r : SearchPipelineResult p) → answer_from_fused p dependencies input q fused ≡ ok r
        → Outcome r
    answer_from_fused-Outcome sets recalled [] ranked r e =
        subst Outcome (ok-injective e) (Outcome.abstained no_recall)
    answer_from_fused-Outcome sets recalled (hit ∷ fused) ranked r e =
        let (authoritative, validated, e1) = >>=-eq-ok (dependencies.validate _) _ e in
        answer_from_current-Outcome sets recalled (hit ∷ fused) ranked authoritative validated _ r
          (current_candidates-All p q.filters (hit ∷ fused) authoritative) e1

  pub search-Outcome :
      (dependencies : SearchPipelineDependencies p) (input : SearchPipelineInput p)
      (r : SearchPipelineResult p)
      → search p dependencies input ≡ ok r
      → (q : SearchRequest Number) × (prepare_request p input ≡ ok q)
        × Outcome dependencies input q r
  unfolding search
  search-Outcome dependencies input r e =
      let (q, prepared, e1) = >>=-eq-ok (prepare_request p input) _ e in
      let (sets, recalled, e2) = >>=-eq-ok (run_recall p dependencies q.query q.filters) _ e1 in
      let (fused, ranked, e3) =
        >>=-eq-ok (fuse_reciprocal_ranks p sets input.index_generation (of_ℕ 60)) _ e2 in
      (q, prepared, answer_from_fused-Outcome dependencies input q sets recalled fused ranked r e3)
