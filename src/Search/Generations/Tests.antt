-- ===== src/Search/Generations/Tests.antt =====
-- src/search/ranking.ts: metadata that is accepted.
use edgemneme.Base.{◌≡◌, refl, ok, codes, text_eq, trim, is_white_space, utf16_length, has_control}
use edgemneme.Search.Planning.{as_index_generation}
use edgemneme.Search.Generations.{IndexGenerationMetadata, define_index_generation_metadata}

abbrev generation : IndexGenerationMetadata
generation = record {
  id = codes "g1";
  embedding_model = codes "m";
  embedding_dimensions = 1024;
  distance_metric = codes "cosine";
  instruction_version = codes "1";
  chunk_schema_version = codes "1";
  reranker_model = codes "r";
}

accepted : define_index_generation_metadata generation ≡ ok generation
unfolding define_index_generation_metadata as_index_generation text_eq trim is_white_space
    utf16_length has_control
accepted = refl
