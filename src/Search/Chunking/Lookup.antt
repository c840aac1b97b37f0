-- ===== src/Search/Chunking/Lookup.antt =====
-- src/search/chunking.ts: finding the chunk that a recalled identifier names.
use edgemneme.Base.{
  ℕ, ◌≤◌, ◌≡◌, sym, ◌∙◌, ap, ◌↔◌, inl, inr, Option, none, some, List, ◌++◌, ok, err, Text, arith,
  Bool-cases, Option-cases, get_elem?, take, drop, take-append-drop, text_eq, text_eq_iff, decimal,
  decimal_value, is_canonical_decimal, decimal-canonical, decimal_value-decimal,
  decimal-decimal_value, >>=-eq-ok, Result, max_safe_integer,
}
use edgemneme.Search.Chunking.{
  chunk_prefix, chunk_index, chunk_memory_content, or_throw, ChunkError, not_canonical,
  no_such_chunk, select_authoritative_memory_chunk,
}

-- The identifier under which the chunk at `index` is recalled.
abbrev pub chunk_id_of : ℕ → Text
chunk_id_of index = chunk_prefix ++ decimal index

chunk_index-chunk_id_of : (i : ℕ) → i ≤ max_safe_integer → chunk_index (chunk_id_of i) ≡ some i
unfolding chunk_index text_eq
chunk_index-chunk_id_of i h = rw (decimal-canonical i, decimal_value-decimal i) (ground arith)

chunk_index_sound :
    (id : Text) (i : ℕ) → chunk_index id ≡ some i → (id ≡ chunk_id_of i) × (i ≤ max_safe_integer)
unfolding chunk_index
chunk_index_sound id i h = elim (Bool-cases (text_eq (take 6 id) chunk_prefix)) [
  | inr other ↦ ground arith
  | inl same ↦ elim (Bool-cases (is_canonical_decimal (drop 6 id))) [
    | inr other ↦ ground arith
    | inl canonical ↦
        let v : decimal_value (drop 6 id) ≡ i = ground arith in
        (
          sym (take-append-drop 6 id)
              ∙ ap (λ t. t ++ drop 6 id) ((text_eq_iff _ _).0 same)
              ∙ ap (λ t. chunk_prefix ++ t)
                  (sym (decimal-decimal_value (drop 6 id) canonical) ∙ ap decimal v),
          ground arith,
        )
  ]
]

or_throw-eq-ok : (o : Option Text) (e : ChunkError) (k : Text) → or_throw o e ≡ ok k → o ≡ some k
or_throw-eq-ok (some a) e k h = cc
or_throw-eq-ok none e k h = cc

none-ne-ok : {k : Text} → ◌≡◌ {A = Result ChunkError Text} (err not_canonical) (ok k) → ⊥
none-ne-ok e = cc

-- Selecting succeeds with `k` exactly when the identifier is "chunk-" before the plain decimal of
-- a safe index, the content is divided into chunks, and `k` is the chunk at that index.
pub select_authoritative_memory_chunk_iff :
    (content id k : Text)
    → (select_authoritative_memory_chunk content id ≡ ok k) ↔ (
        (i : ℕ) × (ks : List Text) × (i ≤ max_safe_integer)
        × (id ≡ chunk_id_of i)
        × (chunk_memory_content content ≡ ok ks)
        × (get_elem? ks i ≡ some k))
unfolding select_authoritative_memory_chunk
select_authoritative_memory_chunk_iff content id k = (
  λ e. elim (Option-cases (chunk_index id)) [
    | inl missing ↦ absurd (none-ne-ok (rw (missing, select_authoritative_memory_chunk) at e))
    | inr (i, found) ↦
        let (ks, divided, picked) =
          >>=-eq-ok (chunk_memory_content content) _
            (rw (found, select_authoritative_memory_chunk) at e) in
        let (named, safe) = chunk_index_sound id i found in
        (i, ks, safe, named, divided, or_throw-eq-ok (get_elem? ks i) no_such_chunk k picked)
  ],
  λ (i, ks, safe, named, divided, picked). rw named (
      rw (chunk_index-chunk_id_of i safe, select_authoritative_memory_chunk)
        (rw divided (rw picked))),
)
