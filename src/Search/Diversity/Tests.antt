-- ===== src/Search/Diversity/Tests.antt =====
-- src/search/ranking.ts: a diversified selection, and the theorem at it.
use mathlib.Core.List.{Perm}
use edgemneme.Base.{
  ℕ, ◌≡◌, refl, none, List, [], ◌∷◌, ◌++◌, min, Text, codes, ok, length, text_eq, includes, unique,
  sort,
}
use edgemneme.Search.Types.{ValidatedSearchCandidate}
use edgemneme.Search.Platform.Sample.{sample_platform}
use edgemneme.Search.Ranking.{compare_candidates}
use edgemneme.Search.Diversity.{candidate_similarity, select_with_mmr}
use edgemneme.Search.Diversity.Selection.{select_with_mmr_complete}

abbrev about : Text → Text → ℕ → ValidatedSearchCandidate ℕ
about memory_id chunk_content retrieval_score = record {
  project_id = codes "p";
  memory_id = memory_id;
  revision_id = codes "r1";
  memory_version = 1;
  chunk_id = codes "chunk-0";
  chunk_content = chunk_content;
  content_sha256 = codes "00";
  kind = codes "fact";
  memory_class = codes "semantic";
  scope = codes "project";
  scope_id = codes "p";
  status = codes "active";
  valid_from = none;
  valid_until = none;
  evidence_ids = [];
  retrieval_score = retrieval_score;
  embedding = none;
  index_generation = codes "g1";
}

-- m1 and m2 say the same; m3 scores lower and says something else.
abbrev candidates : List (ValidatedSearchCandidate ℕ)
candidates =
    about (codes "m1") (codes "a") 90
    ∷ about (codes "m2") (codes "a") 80
    ∷ about (codes "m3") (codes "b") 70
    ∷ []

abbrev chosen : List (ValidatedSearchCandidate ℕ)
chosen = about (codes "m1") (codes "a") 90 ∷ about (codes "m3") (codes "b") 70 ∷ []

diverse_test : select_with_mmr sample_platform candidates 2 700 ≡ ok chosen
unfolding select_with_mmr text_eq includes unique sort compare_candidates candidate_similarity
diverse_test = refl

select_with_mmr_complete_example :
    (length chosen ≡ min 2 3)
    × (rest : List (ValidatedSearchCandidate ℕ)) × Perm (chosen ++ rest) candidates
select_with_mmr_complete_example =
    select_with_mmr_complete sample_platform candidates chosen 2 700 diverse_test
