-- ===== src/Search/Planning/Tests.antt =====
-- src/search/planning.ts: tests of the filters, and the theorems at concrete inputs.
use edgemneme.Base.{
  ℕ, ◌≡◌, refl, ◌↔◌, true, none, some, [], ◌∷◌, codes, ok, includes, text_eq, trim, utf16_length,
  utf8_length, has_control, sorted_set,
}
use edgemneme.Search.Types.{HardFilterPlan, ValidatedSearchCandidate}
use edgemneme.Search.Platform.Sample.{sample_platform}
use edgemneme.Search.Planning.{
  HardFilterInput, plan_hard_filters, passes_hard_filters, is_timestamp, require_identifier,
  require_vectorize_indexed_string, as_index_generation, normalize_enum_values,
  normalize_enum_value, normalize_authorized_repository_ids, has_date_prefix,
}
use edgemneme.Search.Planning.Laws.{IsAdmitted, passes_hard_filters_iff}
use edgemneme.Search.Planning.Plan.{IsPlan, plan_hard_filters-IsPlan}

abbrev request : HardFilterInput
request = record {
  project_id = codes " p ";
  authorized_repository_ids = some (codes "r2" ∷ codes "r1" ∷ codes "r2" ∷ []);
  statuses = none;
  kinds = some (codes "fact" ∷ []);
  memory_classes = none;
  scope = none;
  valid_at = none;
  index_generation = some (codes "g1");
}

abbrev plan : HardFilterPlan
plan = record {
  project_id = codes "p";
  authorized_repository_ids = some (codes "r1" ∷ codes "r2" ∷ []);
  statuses = codes "active" ∷ [];
  kinds = some (codes "fact" ∷ []);
  memory_classes = none;
  scope = none;
  valid_at = codes "2026-01-01T00:00:00.000Z";
  index_generation = codes "g1";
}

planned : plan_hard_filters sample_platform request ≡ ok plan
unfolding plan_hard_filters require_identifier require_vectorize_indexed_string as_index_generation
    normalize_enum_values normalize_enum_value normalize_authorized_repository_ids is_timestamp
    has_date_prefix trim utf16_length utf8_length has_control sorted_set includes text_eq
planned = refl

abbrev fact : ValidatedSearchCandidate ℕ
fact = record {
  project_id = codes "p";
  memory_id = codes "m1";
  revision_id = codes "r1";
  memory_version = 1;
  chunk_id = codes "chunk-0";
  chunk_content = codes "The gateway is a Worker.";
  content_sha256 = codes "00";
  kind = codes "fact";
  memory_class = codes "semantic";
  scope = codes "project";
  scope_id = codes "p";
  status = codes "active";
  valid_from = none;
  valid_until = some (codes "2026-01-01T00:00:00.000000Z");
  evidence_ids = codes "e1" ∷ [];
  retrieval_score = 5;
  embedding = none;
  index_generation = codes "g1";
}

fact_passes : passes_hard_filters sample_platform fact plan ≡ true
unfolding passes_hard_filters is_timestamp has_date_prefix includes text_eq
fact_passes = refl

passes_hard_filters_iff_example :
    (passes_hard_filters sample_platform fact plan ≡ true) ↔ IsAdmitted sample_platform fact plan
passes_hard_filters_iff_example = passes_hard_filters_iff sample_platform fact plan

plan_hard_filters-IsPlan_example : IsPlan sample_platform request plan
plan_hard_filters-IsPlan_example = plan_hard_filters-IsPlan sample_platform request plan planned
