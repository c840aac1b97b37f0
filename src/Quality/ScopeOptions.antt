-- ===== src/Quality/ScopeOptions.antt =====
-- src/quality/scope-options.ts: the scopes that the server offers to a model, and the check of the one
-- that the model proposes. The entry of the WeakMap of an option stands in the option's record: it is
-- `none` for an object that the server did not make. An authority of evidence is its text.
pub mod Offers
pub mod Proposals
pub mod Shown
mod Tests
use edgemneme.Base.{
  ℕ, ◌+◌, Bool, true, false, not, ◌&&◌, ◌||◌, Option, none, some, List, [], ◌∷◌, ◌++◌, map, Result,
  ok, err, ◌>>=◌, ◌>>◌, throw_if, map_result, Text, codes, ltb, leb, ◌==◌, if◌then◌else◌, is_empty,
  length, filter, any, all, find, includes, text_eq, trim, utf16_length, unique, compare_text, sort,
  map_get, map_set, map_values,
}

pub data ScopeError : Type 0 where
  identifier_not_canonical repositories_not_unique authority_unsupported : ScopeError
  repository_unregistered ref_without_repository evidence_not_unique : ScopeError
  cites_nothing cites_too_much citations_not_unique : ScopeError
  option_not_offered option_not_from_server citation_not_bound too_few_repositories : ScopeError

abbrev pub scope_evidence_authorities : List Text
scope_evidence_authorities =
    codes "ordinary" ∷ codes "trusted_maintainer_project_decision" ∷ codes "project_policy" ∷ []

pub record TrustedScopeEvidence : Type 0 where
  pub evidence_id : Text
  pub repository_id : Option Text
  pub source_type : Text
  pub ref : Option Text
  pub authority : Text

pub data ScopeOptionAuthority : Type 0 where
  repository_evidence advisory_generalization multi_repository_evidence : ScopeOptionAuthority
  trusted_maintainer_project_decision project_policy : ScopeOptionAuthority

pub data OptionScope : Type 0 where
  project repository : OptionScope

abbrev pub EvidenceById : Type 0
EvidenceById = List (Text × TrustedScopeEvidence)

pub record ScopeOption : Type 0 where
  pub option_id : Text
  pub scope : OptionScope
  pub scope_id : Text
  pub evidence_ids : List Text
  pub authority : ScopeOptionAuthority
  pub requires_maintainer_review : Bool
  pub metadata : Option EvidenceById

unfoldable pub require_identifier : Text → ℕ → Result ScopeError (Unit {0})
require_identifier value maximum_length =
    throw_if
      (is_empty value
        || ltb maximum_length (utf16_length value)
        || not (text_eq (trim value) value)
        || any (λ c. c == 0) value)
      identifier_not_canonical

unfoldable pub register_repositories : List Text → List Text → Result ScopeError (List Text)
register_repositories registered [] = ok registered
register_repositories registered (repository_id ∷ ids) = do
  require_identifier repository_id 512
  throw_if (includes registered repository_id) repositories_not_unique
  register_repositories (registered ++ repository_id ∷ []) ids

abbrev check_repository : List Text → Option Text → Result ScopeError (Unit {0})
check_repository registered none = ok tt
check_repository registered (some repository_id) = do
  require_identifier repository_id 512
  throw_if (not (includes registered repository_id)) repository_unregistered

abbrev check_ref : Option Text → Option Text → Result ScopeError (Unit {0})
check_ref repository_id none = ok tt
check_ref none (some ref) = do require_identifier ref 2048; err ref_without_repository
check_ref (some repository_id) (some ref) = require_identifier ref 2048

abbrev has_entry : Option TrustedScopeEvidence → Bool
has_entry none = false
has_entry (some e) = true

-- The loop of `validateEvidence`.
unfoldable pub validate_evidence :
    List Text → EvidenceById → List TrustedScopeEvidence → Result ScopeError EvidenceById
validate_evidence registered evidence_by_id [] = ok evidence_by_id
validate_evidence registered evidence_by_id (item ∷ evidence) = do
  require_identifier item.evidence_id 512
  require_identifier item.source_type 128
  throw_if (not (includes scope_evidence_authorities item.authority)) authority_unsupported
  check_repository registered item.repository_id
  check_ref item.repository_id item.ref
  throw_if (has_entry (map_get item.evidence_id evidence_by_id)) evidence_not_unique
  validate_evidence registered (map_set item.evidence_id item evidence_by_id) evidence

abbrev pub or_empty {ℓ} : {A : Type ℓ} → Option (List A) → List A
or_empty none = []
or_empty (some xs) = xs

abbrev pub RepositoryEvidence : Type 0
RepositoryEvidence = List (Text × List TrustedScopeEvidence)

abbrev pub group_one : Option Text → TrustedScopeEvidence → RepositoryEvidence → RepositoryEvidence
group_one none item m = m
group_one (some repository_id) item m =
    map_set repository_id (or_empty (map_get repository_id m) ++ item ∷ []) m

unfoldable pub group_by_repository :
    RepositoryEvidence → List TrustedScopeEvidence → RepositoryEvidence
group_by_repository m [] = m
group_by_repository m (item ∷ evidence) =
    group_by_repository (group_one item.repository_id item m) evidence

abbrev pub is_project : OptionScope → Bool
is_project OptionScope.project = true
is_project OptionScope.repository = false

abbrev pub has_repository : Option Text → Bool
has_repository none = false
has_repository (some r) = true

-- `random_uuid n` is what the n-th call of `crypto.randomUUID()` returns.
module _ (random_uuid : ℕ → Text) (evidence_by_id : EvidenceById) (project_id : Text) where
  unfoldable pub add_option :
      OptionScope
      → Text
      → List TrustedScopeEvidence
      → ScopeOptionAuthority
      → List ScopeOption
      → List ScopeOption
  add_option scope scope_id evidence authority options =
      options
      ++ record {
        option_id = codes "scope-option-" ++ random_uuid (length options);
        scope = scope;
        scope_id = scope_id;
        evidence_ids = map (λ (item : TrustedScopeEvidence). item.evidence_id) evidence;
        authority = authority;
        requires_maintainer_review = is_project scope;
        metadata = some evidence_by_id;
      }
        ∷ []

  unfoldable pub add_repository_options :
      RepositoryEvidence → List Text → List ScopeOption → List ScopeOption
  add_repository_options m [] options = options
  add_repository_options m (repository_id ∷ ids) options =
      let scoped_evidence = or_empty (map_get repository_id m) in
      add_repository_options m ids (
        add_option OptionScope.project project_id scoped_evidence advisory_generalization (
          add_option OptionScope.repository repository_id scoped_evidence repository_evidence
            options))

  unfoldable pub add_multi_repository_option :
      RepositoryEvidence → List TrustedScopeEvidence → List ScopeOption → List ScopeOption
  add_multi_repository_option m trusted options =
      let cross =
        filter (λ (item : TrustedScopeEvidence). has_repository item.repository_id) trusted in
      if leb 2 (length m)
      then add_option OptionScope.project project_id cross multi_repository_evidence options
      else options

  unfoldable pub add_authority_option :
      Text → ScopeOptionAuthority → List TrustedScopeEvidence → List ScopeOption → List ScopeOption
  add_authority_option name authority trusted options =
      let authoritative =
        filter (λ (item : TrustedScopeEvidence). text_eq item.authority name) trusted in
      if ltb 0 (length authoritative)
      then add_option OptionScope.project project_id authoritative authority options
      else options

  unfoldable pub offer_options : List ScopeOption
  offer_options =
      let trusted = map_values evidence_by_id in
      let m = group_by_repository [] trusted in
      add_authority_option (codes "project_policy") project_policy trusted (
        add_authority_option (codes "trusted_maintainer_project_decision")
          trusted_maintainer_project_decision trusted
          (add_multi_repository_option m trusted (
            add_repository_options m
              (sort compare_text (map (λ (e : Text × List TrustedScopeEvidence). e.0) m)) [])))

unfoldable pub build_candidate_scope_options :
    (ℕ → Text) → Text → List Text → List TrustedScopeEvidence → Result ScopeError (List ScopeOption)
build_candidate_scope_options random_uuid project_id registered_repository_ids evidence = do
  require_identifier project_id 512
  registered ← register_repositories [] registered_repository_ids
  evidence_by_id ← validate_evidence registered [] evidence
  ok (offer_options random_uuid evidence_by_id project_id)

pub record ScopeProposal : Type 0 where
  pub option_id : Text
  pub evidence_ids : List Text

pub record ResolvedModelScopeOption : Type 0 where
  pub option_id : Text
  pub scope : OptionScope
  pub scope_id : Text
  pub evidence_ids : List Text
  pub authority : ScopeOptionAuthority
  pub requires_maintainer_review : Bool

unfoldable pub check_citations : List Text → List Text → Result ScopeError (List Text)
check_citations cited [] = ok cited
check_citations cited (evidence_id ∷ ids) = do
  require_identifier evidence_id 512
  throw_if (includes cited evidence_id) citations_not_unique
  check_citations (cited ++ evidence_id ∷ []) ids

abbrev pub or_throw {ℓ} : {A : Type ℓ} → Option A → ScopeError → Result ScopeError A
or_throw none e = err e
or_throw (some a) e = ok a

abbrev pub require_server_option : ScopeOption → Result ScopeError EvidenceById
require_server_option option = or_throw option.metadata option_not_from_server

abbrev pub repository_of : Option TrustedScopeEvidence → List Text
repository_of none = []
repository_of (some item) = elim item.repository_id [ none ↦ [] | some r ↦ r ∷ [] ]

unfoldable pub cited_repositories : EvidenceById → List Text → List Text
cited_repositories evidence_by_id [] = []
cited_repositories evidence_by_id (evidence_id ∷ ids) =
    repository_of (map_get evidence_id evidence_by_id) ++ cited_repositories evidence_by_id ids

abbrev pub is_multi_repository : ScopeOptionAuthority → Bool
is_multi_repository multi_repository_evidence = true
is_multi_repository _ = false

unfoldable pub resolve_model_scope_option :
    List ScopeOption → ScopeProposal → Result ScopeError ResolvedModelScopeOption
resolve_model_scope_option options proposal = do
  require_identifier proposal.option_id 128
  throw_if (is_empty proposal.evidence_ids) cites_nothing
  throw_if (ltb 50 (length proposal.evidence_ids)) cites_too_much
  cited ← check_citations [] proposal.evidence_ids
  selected ←
      or_throw
        (find (λ (option : ScopeOption). text_eq option.option_id proposal.option_id) options)
        option_not_offered
  evidence_by_id ← require_server_option selected
  throw_if (not (all (λ id. includes selected.evidence_ids id) cited)) citation_not_bound
  throw_if
      (is_multi_repository selected.authority
        && ltb (length (unique (cited_repositories evidence_by_id cited))) 2)
      too_few_repositories
  ok (record {
    option_id = selected.option_id;
    scope = selected.scope;
    scope_id = selected.scope_id;
    evidence_ids = proposal.evidence_ids;
    authority = selected.authority;
    requires_maintainer_review = selected.requires_maintainer_review;
  })

pub record ModelScopeOption : Type 0 where
  pub option_id : Text
  pub scope : OptionScope
  pub authority : ScopeOptionAuthority
  pub requires_maintainer_review : Bool
  pub evidence_source_ids : List Text
  pub selection_guidance : Text

abbrev project_guidance : ScopeOptionAuthority → Text
project_guidance advisory_generalization =
    codes
      "Choose only when the claim is repository-independent and explicitly reusable across every repository in the project; formal maintainer review is required."
project_guidance multi_repository_evidence =
    codes
      "Choose only when citations from at least two repositories support the same repository-independent claim; formal maintainer review is required."
project_guidance _ =
    codes
      "Choose only for an explicitly project-wide decision or policy; formal maintainer review is required."

unfoldable pub selection_guidance : OptionScope → ScopeOptionAuthority → Text
selection_guidance OptionScope.repository authority =
    codes
      "Choose for code facts, paths, symbols, behavior, or rules specific to the evidence repository."
selection_guidance OptionScope.project authority = project_guidance authority

abbrev pub shown_option : ScopeOption → ModelScopeOption
shown_option option = record {
  option_id = option.option_id;
  scope = option.scope;
  authority = option.authority;
  requires_maintainer_review = option.requires_maintainer_review;
  evidence_source_ids = option.evidence_ids;
  selection_guidance = selection_guidance option.scope option.authority;
}

unfoldable pub to_model_scope_options : List ScopeOption → Result ScopeError (List ModelScopeOption)
to_model_scope_options options =
    map_result (λ option. require_server_option option >>= λ metadata. ok (shown_option option))
      options
