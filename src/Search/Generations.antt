-- ===== src/Search/Generations.antt =====
-- src/search/ranking.ts: the metadata of an index generation.
pub mod Laws
mod Tests
use edgemneme.Base.{
  ℕ, Bool, true, false, not, ◌||◌, List, [], Result, ok, err, ◌>>=◌, ◌>>◌, throw_if, Text, codes,
  ltb, is_empty, text_eq, trim, max_safe_integer,
}
use edgemneme.Search.Planning.{SearchError, generation_metadata_invalid, as_index_generation}

pub record IndexGenerationMetadata : Type 0 where
  pub id : Text
  pub embedding_model : Text
  pub embedding_dimensions : ℕ
  pub distance_metric : Text
  pub instruction_version : Text
  pub chunk_schema_version : Text
  pub reranker_model : Text

abbrev pub is_blank : Text → Bool
is_blank value = is_empty (trim value)

-- A negative or fractional number of dimensions fails as 0 does.
unfoldable pub define_index_generation_metadata :
    IndexGenerationMetadata → Result SearchError IndexGenerationMetadata
define_index_generation_metadata metadata = do
  throw_if
      (ltb metadata.embedding_dimensions 1
        || ltb max_safe_integer metadata.embedding_dimensions
        || not (text_eq metadata.distance_metric (codes "cosine"))
        || is_blank metadata.embedding_model
        || is_blank metadata.instruction_version
        || is_blank metadata.chunk_schema_version
        || is_blank metadata.reranker_model)
      generation_metadata_invalid
  id ← as_index_generation metadata.id
  ok (record metadata { id = id })
