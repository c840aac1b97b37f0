-- ===== src/Search/Filtering.antt =====
-- src/search/vector-filtering.ts: batches of filter values that fit into a part of a vector filter.
-- `json_stringify` is `JSON.stringify` of an array of strings.
pub mod Batches
mod Tests
use edgemneme.Base.{
  ℕ, ◌-◌, Bool, true, false, List, [], ◌∷◌, ◌++◌, Result, ok, err, Text, leb, is_empty, utf8_length,
}

pub data FilterError : Type 0 where
  value_too_large empty_filter : FilterError

-- A string constraint: the string itself, or the strings of `$in`.
pub data StringFilter : Type 0 where
  equals : Text → StringFilter
  one_of : List Text → StringFilter

unfoldable pub compact_string_filter : List Text → Result FilterError StringFilter
compact_string_filter [] = err empty_filter
compact_string_filter (value ∷ []) = ok (equals value)
compact_string_filter (value ∷ next ∷ values) = ok (one_of (value ∷ next ∷ values))

module _ (json_stringify : List Text → Text) where
  abbrev pub serialized_array_contribution : List Text → ℕ
  serialized_array_contribution values = utf8_length (json_stringify values) - 2

  abbrev finish_batches : List (List Text) → List Text → List (List Text)
  finish_batches batches [] = batches
  finish_batches batches (value ∷ batch) = batches ++ (value ∷ batch) ∷ []

  -- The loop over the values.
  unfoldable pub batch_from :
      ℕ → List (List Text) → List Text → List Text → Result FilterError (List (List Text))
  batch_from budget batches batch [] = ok (finish_batches batches batch)
  batch_from budget batches batch (value ∷ values) =
      elim (leb (serialized_array_contribution (batch ++ value ∷ [])) budget) [
        | true ↦ batch_from budget batches (batch ++ value ∷ []) values
        | false ↦ elim (is_empty batch) [
          | true ↦ err value_too_large
          | false ↦ elim (leb (serialized_array_contribution (value ∷ [])) budget) [
            | true ↦ batch_from budget (batches ++ batch ∷ []) (value ∷ []) values
            | false ↦ err value_too_large
          ]
        ]
      ]

  unfoldable pub batch_string_values : List Text → ℕ → Result FilterError (List (List Text))
  batch_string_values values budget = batch_from budget [] [] values
