-- ===== src/Search/Planning/Plan.antt =====
-- src/search/planning.ts: what a plan holds when planning succeeds.
use edgemneme.Base.{
  ◌≡◌, sym, ◌∙◌, subst, ◌≢◌, true, false, [], ◌∷◌, ok, ◌>>=◌, codes, arith, trim, has_control,
  >>=-eq-ok,
}
use edgemneme.Contracts.Taxonomy.{memory_kinds, memory_classes, memory_statuses}
use edgemneme.Search.Types.{HardFilterPlan}
use edgemneme.Search.Platform.{Platform}
use edgemneme.Search.Planning.{
  require_vectorize_indexed_string, as_index_generation, normalize_authorized_repository_ids,
  normalize_enum_values, normalize_scope, HardFilterInput, or_default, is_timestamp,
  plan_hard_filters, optional,
}
use edgemneme.Search.Planning.Values.{
  IsIndexed, IsRepositoryId, IsIdentifierSet, IsEnumSet, IsScope, Kept, repository_id,
  require_vectorize_sound, normalize_enum_values_sound, repository_id_sound,
  normalize_authorized_sound, normalize_scope_sound, optional-Kept, as_index_generation_sound,
}

module _ (p : Platform) (input : HardFilterInput) (f : HardFilterPlan) where
  open p use {to_iso_string, now_iso_string}

  -- What a plan consists of, field by field, from the input.
  pub record IsPlan : Type 0 where
    pub project : (f.project_id ≡ trim input.project_id) × IsRepositoryId f.project_id
    pub authorized :
        Kept
          (IsIdentifierSet IsRepositoryId)
          input.authorized_repository_ids
          f.authorized_repository_ids
    pub statuses :
        IsEnumSet memory_statuses (or_default input.statuses (codes "active" ∷ [])) f.statuses
    pub kinds : Kept (IsEnumSet memory_kinds) input.kinds f.kinds
    pub classes : Kept (IsEnumSet memory_classes) input.memory_classes f.memory_classes
    pub scope : Kept IsScope input.scope f.scope
    pub timed :
        (is_timestamp p (or_default input.valid_at now_iso_string) ≡ true)
        × (f.valid_at ≡ to_iso_string (or_default input.valid_at now_iso_string))
    pub generation :
        (f.index_generation ≡ or_default input.index_generation (codes "unconfigured"))
        × (f.index_generation ≢ [])
        × IsIndexed f.index_generation
        × (has_control f.index_generation ≡ false)

  plan-parts :
      plan_hard_filters p input ≡ ok f
      → (repository_id input.project_id ≡ ok f.project_id)
        × (optional normalize_authorized_repository_ids input.authorized_repository_ids
            ≡ ok f.authorized_repository_ids)
        × (normalize_enum_values (or_default input.statuses (codes "active" ∷ [])) memory_statuses
            ≡ ok f.statuses)
        × (optional (λ values. normalize_enum_values values memory_kinds) input.kinds ≡ ok f.kinds)
        × (optional (λ values. normalize_enum_values values memory_classes) input.memory_classes
            ≡ ok f.memory_classes)
        × (optional normalize_scope input.scope ≡ ok f.scope)
        × ((is_timestamp p (or_default input.valid_at now_iso_string) ≡ true)
            × (f.valid_at ≡ to_iso_string (or_default input.valid_at now_iso_string)))
        × ((require_vectorize_indexed_string
                (or_default input.index_generation (codes "unconfigured"))
              >>= as_index_generation)
            ≡ ok f.index_generation)
  unfolding plan_hard_filters
  plan-parts h = ground arith

  -- When planning succeeds, each field of the plan is what the input asks for. The project is trimmed; of
  -- the repositories and of the scope's identifiers the plan has the trimmed ones, each once, and of the
  -- statuses, kinds and classes the given ones, each once; a filter that is missing stays missing, but the
  -- statuses default to "active". The instant is the given one or the present one, in ISO form. The
  -- generation is the given one or "unconfigured". All are well formed: identifiers are not empty and of
  -- bounded length, values are of their enumerations, where they are counted there are from 1 to 50, and
  -- the instant is a timestamp.
  pub plan_hard_filters-IsPlan : plan_hard_filters p input ≡ ok f → IsPlan
  plan_hard_filters-IsPlan h =
      let (project, authorized, statuses, kinds, classes, scope, timed, generation) =
        plan-parts h in
      let (g, bounded, opaque) =
        >>=-eq-ok (require_vectorize_indexed_string _) as_index_generation generation in
      let (given, indexed) = require_vectorize_sound _ g bounded in
      let (same, nonempty, printable) = as_index_generation_sound g f.index_generation opaque in
      record {
        project = repository_id_sound input.project_id f.project_id project;
        authorized =
            optional-Kept _ (IsIdentifierSet IsRepositoryId) normalize_authorized_sound
              input.authorized_repository_ids f.authorized_repository_ids authorized;
        statuses = normalize_enum_values_sound memory_statuses _ f.statuses statuses;
        kinds =
            optional-Kept _ (IsEnumSet memory_kinds) (normalize_enum_values_sound memory_kinds)
              input.kinds f.kinds kinds;
        classes =
            optional-Kept _ (IsEnumSet memory_classes) (normalize_enum_values_sound memory_classes)
              input.memory_classes f.memory_classes classes;
        scope = optional-Kept _ IsScope normalize_scope_sound input.scope f.scope scope;
        timed = timed;
        generation = (same ∙ given, nonempty, subst IsIndexed (sym same) indexed, printable);
      }
