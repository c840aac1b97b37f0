-- ===== src/Quality/ScopeOptions/Tests.antt =====
-- src/quality/scope-options.ts: options for two repositories, and the theorems at them.
use edgemneme.Base.{
  ℕ, zero, suc, ◌≡◌, refl, true, some, List, [], ◌∷◌, ok, err, Text, codes, trim, utf16_length,
  includes, text_eq, unique, compare_text, sort, map_get, map_set, is_white_space, All,
}
use edgemneme.Quality.ScopeOptions.{
  ModelScopeOption, TrustedScopeEvidence, ScopeOption, OptionScope, multi_repository_evidence,
  ScopeProposal, ResolvedModelScopeOption, too_few_repositories, require_identifier,
  register_repositories, validate_evidence, group_by_repository, add_option, add_repository_options,
  add_multi_repository_option, add_authority_option, offer_options, build_candidate_scope_options,
  check_citations, cited_repositories, resolve_model_scope_option, to_model_scope_options,
}
use edgemneme.Quality.ScopeOptions.Offers.{IsOffered, build_candidate_scope_options-IsOffered}
use edgemneme.Quality.ScopeOptions.Proposals.{
  IsResolved, resolve_model_scope_option-IsResolved, IsContained,
  resolve_model_scope_option-IsContained,
}
use edgemneme.Quality.ScopeOptions.Shown.{AllShown, to_model_scope_options-AllShown}

abbrev evidence_in : Text → Text → TrustedScopeEvidence
evidence_in evidence_id repository_id = record {
  evidence_id = evidence_id;
  repository_id = some repository_id;
  source_type = codes "file";
  ref = some (codes "main");
  authority = codes "ordinary";
}

abbrev evidence : List TrustedScopeEvidence
evidence = evidence_in (codes "e1") (codes "r1") ∷ evidence_in (codes "e2") (codes "r2") ∷ []

abbrev registered : List Text
registered = codes "r1" ∷ codes "r2" ∷ []

-- Enough for the tests: the n-th identifier has n letters.
abbrev uuid : ℕ → Text
uuid zero = []
uuid (suc n) = b'u' ∷ uuid n

abbrev proposal : List Text → ScopeProposal
proposal evidence_ids = record {
  option_id = codes "scope-option-uuuu";
  evidence_ids = evidence_ids;
}

abbrev resolved : ResolvedModelScopeOption
resolved = record {
  option_id = codes "scope-option-uuuu";
  scope = OptionScope.project;
  scope_id = codes "p";
  evidence_ids = codes "e2" ∷ codes "e1" ∷ [];
  authority = multi_repository_evidence;
  requires_maintainer_review = true;
}

abbrev options : List ScopeOption
options =
    offer_options uuid
      ((codes "e1", evidence_in (codes "e1") (codes "r1"))
        ∷ (codes "e2", evidence_in (codes "e2") (codes "r2"))
        ∷ [])
      (codes "p")

built : build_candidate_scope_options uuid (codes "p") registered evidence ≡ ok options
unfolding build_candidate_scope_options require_identifier register_repositories validate_evidence
    trim utf16_length includes text_eq map_get map_set is_white_space
built = refl

accepted :
    resolve_model_scope_option options (proposal (codes "e2" ∷ codes "e1" ∷ [])) ≡ ok resolved
unfolding resolve_model_scope_option offer_options group_by_repository add_option
    add_repository_options add_multi_repository_option add_authority_option require_identifier
    check_citations cited_repositories trim utf16_length includes text_eq unique compare_text sort
    map_get map_set is_white_space
accepted = refl

one_repository :
    resolve_model_scope_option options (proposal (codes "e1" ∷ [])) ≡ err too_few_repositories
unfolding resolve_model_scope_option offer_options group_by_repository add_option
    add_repository_options add_multi_repository_option add_authority_option require_identifier
    check_citations cited_repositories trim utf16_length includes text_eq unique compare_text sort
    map_get map_set is_white_space
one_repository = refl

build_candidate_scope_options-IsOffered_example :
    All (IsOffered (codes "p") registered evidence) options
build_candidate_scope_options-IsOffered_example =
    build_candidate_scope_options-IsOffered uuid (codes "p") registered evidence options built

resolve_model_scope_option-IsResolved_example :
    IsResolved options (proposal (codes "e2" ∷ codes "e1" ∷ [])) resolved
resolve_model_scope_option-IsResolved_example =
    resolve_model_scope_option-IsResolved options (proposal (codes "e2" ∷ codes "e1" ∷ [])) resolved
      accepted

resolve_model_scope_option-IsContained_example :
    IsContained (codes "p") registered evidence resolved
resolve_model_scope_option-IsContained_example =
    resolve_model_scope_option-IsContained uuid (codes "p") registered evidence options
      (proposal (codes "e2" ∷ codes "e1" ∷ [])) resolved built accepted

to_model_scope_options-AllShown_example :
    (shown : List ModelScopeOption) × (to_model_scope_options options ≡ ok shown)
    × AllShown (codes "p") registered evidence options shown
to_model_scope_options-AllShown_example =
    to_model_scope_options-AllShown uuid (codes "p") registered evidence options built
