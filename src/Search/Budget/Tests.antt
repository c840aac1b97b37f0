-- ===== src/Search/Budget/Tests.antt =====
-- src/search/pipeline.ts: tests of the budget, and the theorems at concrete inputs.
use edgemneme.Base.{
  ℕ, ◌≤◌, ◌≡◌, refl, ◌↔◌, [], ◌∷◌, none, some, codes, arith, length, take, text_eq, true, All,
}
use edgemneme.Search.Types.{ValidatedSearchCandidate, SearchResultMemory}
use edgemneme.Search.Budget.{
  estimate_tokens, truncate_to_token_budget, render_context_citation, render_context_entry,
  citation_prefix, without_embedding, fit_memory_to_context_budget, build_context_pack,
  pack_memories,
}
use edgemneme.Search.Budget.Truncate.{IsLongest, truncate_to_token_budget-IsLongest}
use edgemneme.Search.Budget.Packing.{
  IsFit, fit_memory_to_context_budget-IsFit, fit_memory_to_context_budget_total,
}
use edgemneme.Search.Budget.Context.{pack_memories-within}
use edgemneme.Search.Budget.Selection.{pack_memories-eq-nil_iff}

abbrev sample : ValidatedSearchCandidate ℕ
sample = record {
  project_id = codes "p";
  memory_id = codes "m1";
  revision_id = codes "r1";
  memory_version = 1;
  chunk_id = codes "chunk-0";
  chunk_content = codes "Use pnpm, not npm, in this repository.";
  content_sha256 = codes "00";
  kind = codes "convention";
  memory_class = codes "semantic";
  scope = codes "project";
  scope_id = codes "p";
  status = codes "active";
  valid_from = none;
  valid_until = none;
  evidence_ids = codes "e1" ∷ [];
  retrieval_score = 5;
  embedding = none;
  index_generation = codes "g1";
}

estimate_tests :
    (estimate_tokens (codes "abcde") ≡ 2)
    × (estimate_tokens [] ≡ 1)
    × (estimate_tokens (0x4f60 ∷ b'a' ∷ []) ≡ 4)
unfolding estimate_tokens
estimate_tests = (refl, refl, refl)

prefix_cost : estimate_tokens (citation_prefix sample) ≡ 14
unfolding estimate_tokens render_context_citation
prefix_cost = refl

shortened : SearchResultMemory ℕ
unfolding without_embedding
shortened = without_embedding sample (codes "Use pnpm, no") true 7

fitted_test : fit_memory_to_context_budget sample 7 17 ≡ some (shortened, 17)
unfolding fit_memory_to_context_budget estimate_tokens render_context_citation render_context_entry
    truncate_to_token_budget without_embedding text_eq shortened
fitted_test = refl

truncate_to_token_budget-IsLongest_example :
    (r : ℕ) × (truncate_to_token_budget (codes "pnpm install") 2 ≡ take r (codes "pnpm install"))
    × IsLongest (codes "pnpm install") 2 r
truncate_to_token_budget-IsLongest_example =
    truncate_to_token_budget-IsLongest (codes "pnpm install") 2 (omega arith)

fit_memory_to_context_budget-IsFit_example : IsFit sample 7 17 shortened 17
fit_memory_to_context_budget-IsFit_example =
    fit_memory_to_context_budget-IsFit sample 7 17 shortened 17 fitted_test

fit_memory_to_context_budget_total_example :
    (m : SearchResultMemory ℕ) × (e : ℕ) × (fit_memory_to_context_budget sample 7 20 ≡ some (m, e))
unfolding estimate_tokens render_context_citation
fit_memory_to_context_budget_total_example =
    fit_memory_to_context_budget_total sample 7 20 b'U'
      (codes "se pnpm, not npm, in this repository.") refl (omega arith)

pack_memories-within_example :
    (length (pack_memories 5 40 ((sample, 7) ∷ (sample, 3) ∷ [])) ≤ 5)
    × (estimate_tokens (build_context_pack (pack_memories 5 40 ((sample, 7) ∷ (sample, 3) ∷ [])))
        ≤ 40)
pack_memories-within_example =
    pack_memories-within 5 40 ((sample, 7) ∷ (sample, 3) ∷ []) (omega arith)

pack_memories-eq-nil_iff_example :
    (pack_memories 5 3 ((sample, 7) ∷ []) ≡ [])
    ↔ All
        (λ (x : ValidatedSearchCandidate ℕ × ℕ). fit_memory_to_context_budget x.0 x.1 3 ≡ none)
        ((sample, 7) ∷ [])
pack_memories-eq-nil_iff_example = pack_memories-eq-nil_iff 5 3 ((sample, 7) ∷ []) (omega arith)
