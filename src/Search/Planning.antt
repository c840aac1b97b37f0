-- ===== src/Search/Planning.antt =====
-- src/search/planning.ts, with asIndexGeneration of src/search/ranking.ts and
-- requireVectorizeIndexedString of src/search/vector-metadata.ts: the hard filters of a search.
pub mod Laws
pub mod Values
pub mod Plan
mod Tests
use edgemneme.Base.{
  ℕ, Bool, true, false, not, ◌&&◌, ◌||◌, Option, none, some, List, [], ◌∷◌, Result, ok, err, ◌>>=◌,
  ◌>>◌, throw_if, map_result, Text, codes, ltb, leb, ◌==◌, if◌then◌else◌, is_empty, length,
  includes, text_eq, trim, utf16_length, utf8_length, has_control, is_digit, sorted_set,
}
use edgemneme.Contracts.Taxonomy.{memory_kinds, memory_classes, memory_scopes, memory_statuses}
use edgemneme.Search.Types.{SearchScopeFilter, HardFilterPlan, ValidatedSearchCandidate}
use edgemneme.Search.Platform.{Platform}

-- The errors that planning and the pipeline's argument checks throw.
pub data SearchError : Type 0 where
  identifier_invalid too_many_identifiers value_count_invalid unsupported_value : SearchError
  indexed_string_too_long index_generation_invalid valid_at_invalid : SearchError
  rrf_constant_invalid weight_invalid lambda_invalid : SearchError
  limit_invalid token_budget_invalid minimum_relevance_invalid snapshot_version_invalid :
      SearchError
  dependency_failed generation_metadata_invalid : SearchError

abbrev pub max_filter_values : ℕ
max_filter_values = 50

unfoldable pub require_identifier : Text → ℕ → Result SearchError Text
require_identifier value maximum_length =
    let normalized = trim value in
    if is_empty normalized || ltb maximum_length (utf16_length normalized)
    then err identifier_invalid
    else ok normalized

unfoldable pub require_vectorize_indexed_string : Text → Result SearchError Text
require_vectorize_indexed_string value =
    if ltb 64 (utf8_length value) then err indexed_string_too_long else ok value

unfoldable pub as_index_generation : Text → Result SearchError Text
as_index_generation value =
    if is_empty value || is_empty (trim value) || ltb 256 (utf16_length value) || has_control value
    then err index_generation_invalid
    else ok value

unfoldable pub normalize_identifiers : List Text → Bool → ℕ → Result SearchError (List Text)
normalize_identifiers values allow_empty maximum_identifier_length = do
  throw_if
      (ltb (length values) (if allow_empty then 0 else 1) || ltb max_filter_values (length values))
      too_many_identifiers
  ids ← map_result (λ value. require_identifier value maximum_identifier_length) values
  ok (sorted_set ids)

unfoldable pub normalize_authorized_repository_ids : List Text → Result SearchError (List Text)
normalize_authorized_repository_ids values = do
  ids ←
      map_result
        (λ value. require_identifier value 512 >>= λ id. require_vectorize_indexed_string id) values
  ok (sorted_set ids)

unfoldable pub normalize_enum_value : Text → List Text → Result SearchError Text
normalize_enum_value value allowed =
    if not (includes allowed value) then err unsupported_value else ok value

unfoldable pub normalize_enum_values : List Text → List Text → Result SearchError (List Text)
normalize_enum_values values allowed = do
  throw_if (is_empty values || ltb max_filter_values (length values)) value_count_invalid
  found ← map_result (λ value. normalize_enum_value value allowed) values
  ok (sorted_set found)

-- `value === undefined ? undefined : f(value)`
abbrev pub optional {ℓ κ} :
    {A : Type ℓ} {B : Type κ}
    → (A → Result SearchError B)
    → Option A
    → Result SearchError (Option B)
optional f none = ok none
optional f (some a) = f a >>= λ b. ok (some b)

abbrev pub or_default {ℓ} : {A : Type ℓ} → Option A → A → A
or_default none d = d
or_default (some a) d = a

-- `/^\d{4}-\d{2}-\d{2}T/iu.test(value)`
unfoldable pub has_date_prefix : Text → Bool
has_date_prefix (a ∷ b ∷ c ∷ d ∷ e ∷ f ∷ g ∷ h ∷ i ∷ j ∷ k ∷ s) =
    is_digit a
    && is_digit b
    && is_digit c
    && is_digit d
    && e == b'-'
    && is_digit f
    && is_digit g
    && h == b'-'
    && is_digit i
    && is_digit j
    && (k == b'T' || k == b't')
has_date_prefix _ = false

unfoldable pub normalize_scope : SearchScopeFilter → Result SearchError SearchScopeFilter
normalize_scope scope = do
  type ← normalize_enum_value scope.type memory_scopes
  ids ← normalize_identifiers scope.ids false 2048
  ok (record { type = type; ids = ids })

-- A missing field is `none`.
pub record HardFilterInput : Type 0 where
  pub project_id : Text
  pub authorized_repository_ids : Option (List Text)
  pub statuses : Option (List Text)
  pub kinds : Option (List Text)
  pub memory_classes : Option (List Text)
  pub scope : Option SearchScopeFilter
  pub valid_at : Option Text
  pub index_generation : Option Text

module _ (p : Platform) where
  open p use {Number, lt, is_finite, date_parse, to_iso_string, now_iso_string}

  unfoldable pub is_timestamp : Text → Bool
  is_timestamp value = has_date_prefix value && is_finite (date_parse value)

  unfoldable pub plan_hard_filters : HardFilterInput → Result SearchError HardFilterPlan
  plan_hard_filters input = do
    identifier ← require_identifier input.project_id 512
    project_id ← require_vectorize_indexed_string identifier
    authorized ← optional normalize_authorized_repository_ids input.authorized_repository_ids
    statuses ←
        normalize_enum_values (or_default input.statuses (codes "active" ∷ [])) memory_statuses
    kinds ← optional (λ values. normalize_enum_values values memory_kinds) input.kinds
    classes ← optional (λ values. normalize_enum_values values memory_classes) input.memory_classes
    let valid_at = or_default input.valid_at now_iso_string
    throw_if (not (is_timestamp valid_at)) valid_at_invalid
    scope ← optional normalize_scope input.scope
    indexed ←
        require_vectorize_indexed_string (or_default input.index_generation (codes "unconfigured"))
    generation ← as_index_generation indexed
    ok (record {
      project_id = project_id;
      authorized_repository_ids = authorized;
      statuses = statuses;
      kinds = kinds;
      memory_classes = classes;
      scope = scope;
      valid_at = to_iso_string valid_at;
      index_generation = generation;
    })

  -- `filter === undefined || filter.includes(value)`
  abbrev pub admits : Option (List Text) → Text → Bool
  admits none value = true
  admits (some values) value = includes values value

  abbrev pub in_scope : Option SearchScopeFilter → ValidatedSearchCandidate Number → Bool
  in_scope none c = true
  in_scope (some s) c = text_eq c.scope s.type && includes s.ids c.scope_id

  abbrev pub begun : Option Text → Number → Bool
  begun none valid_at = true
  begun (some t) valid_at = is_timestamp t && not (lt valid_at (date_parse t))

  abbrev pub not_over : Option Text → Number → Bool
  not_over none valid_at = true
  not_over (some t) valid_at = is_timestamp t && lt valid_at (date_parse t)

  unfoldable pub passes_hard_filters : ValidatedSearchCandidate Number → HardFilterPlan → Bool
  passes_hard_filters candidate filters =
      let valid_at = date_parse filters.valid_at in
      let not_yet = not (begun candidate.valid_from valid_at) in
      if not (text_eq candidate.project_id filters.project_id)
        || not (text_eq candidate.index_generation filters.index_generation)
        || not (includes filters.statuses candidate.status)
      then false
      else (if not (admits filters.kinds candidate.kind)
          then false
          else (if not (admits filters.memory_classes candidate.memory_class)
              then false
              else (if not (in_scope filters.scope candidate)
                  then false
                  else (if not_yet then false else not_over candidate.valid_until valid_at))))
