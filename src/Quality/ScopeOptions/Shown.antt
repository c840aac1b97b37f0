-- ===== src/Quality/ScopeOptions/Shown.antt =====
-- src/quality/scope-options.ts: what a model is shown of the options.
use mathlib.Core.List.{Memᴰ}
use edgemneme.Base.{◌≡◌, ℕ, refl, List, [], ◌∷◌, map, ok, Text, All}
use edgemneme.Quality.ScopeOptions.{
  TrustedScopeEvidence, OptionScope, ScopeOption, ModelScopeOption, is_project, selection_guidance,
  build_candidate_scope_options, shown_option, to_model_scope_options,
}
use edgemneme.Quality.ScopeOptions.Offers.{
  Cites, CitesOf, IsOffered, Scoped, build_candidate_scope_options-IsOffered,
}

module _ (project_id : Text) (registered : List Text) (evidence : List TrustedScopeEvidence) where
  -- A model is shown the option's identifier, scope, authority and evidence. The evidence was given, that a
  -- maintainer reviews is said exactly of the project's scope, and an option for a repository has only
  -- evidence of one that is registered.
  pub record IsShown (o : ScopeOption) (m : ModelScopeOption) : Type 0 where
    pub named : m.option_id ≡ o.option_id
    pub scoped : m.scope ≡ o.scope
    pub authorized : m.authority ≡ o.authority
    pub cited : m.evidence_source_ids ≡ o.evidence_ids
    pub known : All (Cites project_id registered evidence) m.evidence_source_ids
    pub reviewed : m.requires_maintainer_review ≡ is_project m.scope
    pub guided : m.selection_guidance ≡ selection_guidance m.scope m.authority
    pub of_repository :
        m.scope ≡ OptionScope.repository
        → (repository_id : Text) × Memᴰ repository_id registered
          × All (CitesOf project_id registered evidence repository_id) m.evidence_source_ids

  -- One for each, in order.
  abbrev pub AllShown : List ScopeOption → List ModelScopeOption → Type 0
  AllShown [] [] = Unit
  AllShown [] (m ∷ ms) = ⊥
  AllShown (o ∷ os) [] = ⊥
  AllShown (o ∷ os) (m ∷ ms) = IsShown o m × AllShown os ms

  repository_of :
      (o : ScopeOption)
      → Scoped project_id registered evidence o.scope o
      → o.scope ≡ OptionScope.repository
      → (repository_id : Text) × Memᴰ repository_id registered
        × All (CitesOf project_id registered evidence repository_id) o.evidence_ids
  repository_of o h e =
      let (known, cites) : Memᴰ o.scope_id registered
          × All (CitesOf project_id registered evidence o.scope_id) o.evidence_ids =
        rw e at h in
      (o.scope_id, known, cites)

  offered-IsShown :
      (o : ScopeOption) → IsOffered project_id registered evidence o → IsShown o (shown_option o)
  offered-IsShown o offered = record {
    named = refl;
    scoped = refl;
    authorized = refl;
    cited = refl;
    known = offered.known;
    reviewed = offered.reviewed;
    guided = refl;
    of_repository = repository_of o offered.scoped;
  }

  shown-AllShown :
      (options : List ScopeOption)
      → All (IsOffered project_id registered evidence) options
      → (to_model_scope_options options ≡ ok (map shown_option options))
        × AllShown options (map shown_option options)
  unfolding to_model_scope_options
  shown-AllShown [] h = (refl, tt)
  shown-AllShown (o ∷ options) (offered, h) =
      let (metadata, made) = offered.made in
      let (rest, shown) = shown-AllShown options h in
      (rw (made, rest), (offered-IsShown o offered, shown))

-- The options that the server offers can all be shown to a model. It is shown one for each, in order, with
-- its identifier, scope, authority and evidence; the evidence was given; a maintainer's review is needed
-- exactly for the scope of the project; and the evidence of an option for a repository is all of one
-- repository, which is registered.
pub to_model_scope_options-AllShown :
    (random_uuid : ℕ → Text) (project_id : Text) (registered : List Text)
    (evidence : List TrustedScopeEvidence) (options : List ScopeOption)
    → build_candidate_scope_options random_uuid project_id registered evidence ≡ ok options
    → (shown : List ModelScopeOption) × (to_model_scope_options options ≡ ok shown)
      × AllShown project_id registered evidence options shown
to_model_scope_options-AllShown random_uuid project_id registered evidence options built =
    let (done, shown) = shown-AllShown project_id registered evidence options (
      build_candidate_scope_options-IsOffered random_uuid project_id registered evidence options
        built) in
    (map shown_option options, done, shown)
