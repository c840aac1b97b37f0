-- ===== src/Search/Ranking/Tests.antt =====
-- src/search/ranking.ts: tests of fusing and of removing duplicates, and the theorems at concrete inputs.
use mathlib.Core.List.{Memᴰ}
use edgemneme.Base.{
  ℕ, ◌≤◌, ◌≡◌, refl, ◌≢◌, none, some, List, [], ◌∷◌, Text, codes, ok, includes, text_eq, map_get,
  map_set, sort, All, Apart,
}
use edgemneme.Search.Types.{ValidatedSearchCandidate, RecallHit, RecallSet, FusedRecallHit}
use edgemneme.Search.Platform.Sample.{sample_platform}
use edgemneme.Search.Ranking.{
  identity_text, recall_identity, compare_candidates, compare_fused, deduplicate_candidates,
  fuse_reciprocal_ranks,
}
use edgemneme.Search.Ranking.Dedup.{deduplicate_candidates-Apart, deduplicate_candidates-newest}
use edgemneme.Search.Ranking.Fusion.{first_rank, add_share, fused_score}
use edgemneme.Search.Ranking.Fusion.Fused.{
  IsScored, fuse_reciprocal_ranks-score, fuse_reciprocal_ranks_complete,
}

abbrev at_version : ℕ → Text → ℕ → ValidatedSearchCandidate ℕ
at_version memory_version revision_id retrieval_score = record {
  project_id = codes "p";
  memory_id = codes "m1";
  revision_id = revision_id;
  memory_version = memory_version;
  chunk_id = codes "chunk-0";
  chunk_content = codes "Use pnpm.";
  content_sha256 = codes "00";
  kind = codes "convention";
  memory_class = codes "semantic";
  scope = codes "project";
  scope_id = codes "p";
  status = codes "active";
  valid_from = none;
  valid_until = none;
  evidence_ids = codes "e1" ∷ [];
  retrieval_score = retrieval_score;
  embedding = none;
  index_generation = codes "g1";
}

abbrev revisions : List (ValidatedSearchCandidate ℕ)
revisions = at_version 1 (codes "r1") 9 ∷ at_version 2 (codes "r2") 3 ∷ []

newest_test : deduplicate_candidates sample_platform revisions ≡ at_version 2 (codes "r2") 3 ∷ []
unfolding deduplicate_candidates text_eq map_get map_set sort compare_candidates
newest_test = refl

deduplicate_candidates-Apart_example :
    Apart
      (λ (a b : ValidatedSearchCandidate ℕ). a.memory_id ≢ b.memory_id)
      (deduplicate_candidates sample_platform revisions)
deduplicate_candidates-Apart_example = deduplicate_candidates-Apart sample_platform revisions

deduplicate_candidates-newest_example :
    (v : ValidatedSearchCandidate ℕ) × Memᴰ v (deduplicate_candidates sample_platform revisions)
    × (v.memory_id ≡ codes "m1")
    × (1 ≤ v.memory_version)
deduplicate_candidates-newest_example =
    deduplicate_candidates-newest sample_platform revisions (at_version 1 (codes "r1") 9)
      (Memᴰ.head refl)

abbrev hit_of : Text → Text → RecallHit ℕ
hit_of memory_id index_generation = record {
  project_id = codes "p";
  memory_id = memory_id;
  revision_id = codes "r1";
  chunk_id = codes "chunk-0";
  index_generation = index_generation;
  source_score = none;
  channel = none;
}

-- Two channels recall m1, one of them twice; m2 is of an old generation.
abbrev channels : List (RecallSet ℕ)
channels =
    record {
      channel = codes "exact";
      weight = 4000;
      hits = hit_of (codes "m1") (codes "g1") ∷ hit_of (codes "m1") (codes "g1") ∷ [];
    }
    ∷ record {
      channel = codes "lexical";
      weight = 1000;
      hits = hit_of (codes "m2") (codes "g0") ∷ hit_of (codes "m1") (codes "g1") ∷ [];
    }
    ∷ []

abbrev fused_hits : List (FusedRecallHit ℕ)
fused_hits =
    record {
      hit = hit_of (codes "m1") (codes "g1");
      retrieval_score = 81;
      channels = codes "exact" ∷ codes "lexical" ∷ [];
    }
    ∷ []

fused_test : fuse_reciprocal_ranks sample_platform channels (codes "g1") 60000 ≡ ok fused_hits
unfolding fuse_reciprocal_ranks text_eq includes map_get map_set sort compare_fused identity_text
fused_test = refl

score_test :
    fused_score sample_platform
      (codes "g1")
      60000
      (recall_identity (hit_of (codes "m1") (codes "g1")))
      none
      channels
    ≡ some 81
unfolding fused_score first_rank add_share text_eq identity_text
score_test = refl

fuse_reciprocal_ranks-score_example :
    All (IsScored sample_platform (codes "g1") 60000 channels) fused_hits
fuse_reciprocal_ranks-score_example =
    fuse_reciprocal_ranks-score sample_platform (codes "g1") 60000 channels fused_hits fused_test

fuse_reciprocal_ranks_complete_example :
    (f : FusedRecallHit ℕ) × Memᴰ f fused_hits
    × (recall_identity f.hit ≡ recall_identity (hit_of (codes "m1") (codes "g1")))
    × (f.retrieval_score ≡ 81)
fuse_reciprocal_ranks_complete_example =
    fuse_reciprocal_ranks_complete sample_platform (codes "g1") 60000 channels fused_hits
      (recall_identity (hit_of (codes "m1") (codes "g1"))) 81 fused_test score_test
