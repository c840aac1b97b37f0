-- ===== src/Search/Chunking/Tests.antt =====
-- src/search/chunking.ts: tests, and the theorems at concrete inputs.
use edgemneme.Base.{
  ℕ, ◌≤◌, ◌≡◌, refl, ◌≢◌, ◌↔◌, List, [], ◌∷◌, ok, err, Text, codes, get_elem?, All, concat, some,
  text_eq, is_canonical_decimal, decimal_value, max_safe_integer,
}
use edgemneme.Search.Chunking.{
  chunk_index, chunk_memory_content, select_authoritative_memory_chunk, not_canonical,
  no_such_chunk, empty_content,
}
use edgemneme.Search.Chunking.Laws.{
  IsChunk, IsGreedy, chunk_memory_content-joins, chunk_memory_content_iff,
}
use edgemneme.Search.Chunking.Lookup.{chunk_id_of, select_authoritative_memory_chunk_iff}

abbrev note : Text
note = codes "Use pnpm, not npm."

note_ne_nil : note ≢ []
note_ne_nil e = cc

chunk_tests :
    (chunk_memory_content note ≡ ok (note ∷ [])) × (chunk_memory_content [] ≡ err empty_content)
unfolding chunk_memory_content
chunk_tests = (refl, refl)

select_tests :
    (select_authoritative_memory_chunk note (codes "chunk-0") ≡ ok note)
    × (select_authoritative_memory_chunk note (codes "chunk-00") ≡ err not_canonical)
    × (select_authoritative_memory_chunk note (codes "chunk-7") ≡ err no_such_chunk)
unfolding select_authoritative_memory_chunk chunk_memory_content chunk_index text_eq
    is_canonical_decimal decimal_value
select_tests = (refl, refl, refl)

chunk_memory_content-joins_example :
    (ks : List Text) × (chunk_memory_content note ≡ ok ks) × (concat ks ≡ note) × All IsChunk ks
chunk_memory_content-joins_example = chunk_memory_content-joins note note_ne_nil

chunk_memory_content_iff_example :
    (chunk_memory_content note ≡ ok (note ∷ []))
    ↔ ((concat (note ∷ []) ≡ note) × All IsChunk (note ∷ []) × IsGreedy (note ∷ []))
chunk_memory_content_iff_example = chunk_memory_content_iff note (note ∷ []) note_ne_nil

select_authoritative_memory_chunk_iff_example :
    (select_authoritative_memory_chunk note (codes "chunk-0") ≡ ok note) ↔ (
      (i : ℕ) × (ks : List Text) × (i ≤ max_safe_integer)
      × (codes "chunk-0" ≡ chunk_id_of i)
      × (chunk_memory_content note ≡ ok ks)
      × (get_elem? ks i ≡ some note))
select_authoritative_memory_chunk_iff_example =
    select_authoritative_memory_chunk_iff note (codes "chunk-0") note
