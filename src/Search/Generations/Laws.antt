-- ===== src/Search/Generations/Laws.antt =====
-- src/search/ranking.ts: what the metadata of an index generation holds once it is accepted.
use edgemneme.Base.{
  ℕ, ◌≤◌, ◌≡◌, sym, ◌∙◌, ap, Bool, true, false, not, ◌||◌, ok, throw_if, throw_if-eq-ok, >>=-eq-ok,
  ok-injective, Text, codes, arith, ltb, text_eq, text_eq_iff, utf16_length, has_control,
  max_safe_integer,
}
use edgemneme.Search.Planning.{generation_metadata_invalid, as_index_generation}
use edgemneme.Search.Generations.{
  IndexGenerationMetadata, is_blank, define_index_generation_metadata,
}

pub record IsGeneration (m : IndexGenerationMetadata) : Type 0 where
  pub dimensions : (1 ≤ m.embedding_dimensions) × (m.embedding_dimensions ≤ 9007199254740991)
  pub metric : m.distance_metric ≡ codes "cosine"
  pub named :
      (is_blank m.embedding_model ≡ false)
      × (is_blank m.instruction_version ≡ false)
      × (is_blank m.chunk_schema_version ≡ false)
      × (is_blank m.reranker_model ≡ false)
  pub opaque : (is_blank m.id ≡ false) × (utf16_length m.id ≤ 256) × (has_control m.id ≡ false)

as_index_generation-inv :
    (v r : Text)
    → as_index_generation v ≡ ok r
    → (v ≡ r) × (is_blank v ≡ false) × (utf16_length v ≤ 256) × (has_control v ≡ false)
unfolding as_index_generation
as_index_generation-inv v r h = ground arith

tests-false :
    (n : ℕ) (a b c d e : Bool)
    → (ltb n 1 || ltb max_safe_integer n || not a || b || c || d || e) ≡ false
    → ((1 ≤ n) × (n ≤ 9007199254740991))
      × (a ≡ true)
      × (b ≡ false)
      × (c ≡ false)
      × (d ≡ false)
      × (e ≡ false)
tests-false n a b c d e h = ground arith

-- Metadata that is accepted is returned as it is, with a number of dimensions from 1 to the safe integers,
-- the cosine metric, names that are not blank, and an identifier that is not blank, at most 256 UTF-16
-- units long and free of control characters.
pub define_index_generation_metadata-IsGeneration :
    (m r : IndexGenerationMetadata)
    → define_index_generation_metadata m ≡ ok r
    → (r ≡ m) × IsGeneration m
unfolding define_index_generation_metadata
define_index_generation_metadata-IsGeneration m r h =
    let (u, checked, h1) = >>=-eq-ok (throw_if _ generation_metadata_invalid) _ h in
    let (id, named, h2) = >>=-eq-ok (as_index_generation m.id) _ h1 in
    let (same, filled, short, printable) = as_index_generation-inv m.id id named in
    let (size, metric, model, instruction, schema, reranker) =
      tests-false m.embedding_dimensions (text_eq m.distance_metric (codes "cosine"))
        (is_blank m.embedding_model) (is_blank m.instruction_version)
        (is_blank m.chunk_schema_version) (is_blank m.reranker_model)
        (throw_if-eq-ok _ generation_metadata_invalid u checked) in
    (
      sym (ok-injective h2) ∙ ap (λ (t : Text). record m { id = t }) (sym same),
      record {
        dimensions = size;
        metric = (text_eq_iff _ _).0 metric;
        named = (model, instruction, schema, reranker);
        opaque = (filled, short, printable);
      },
    )
