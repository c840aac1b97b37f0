-- ===== src/Search/Chunking.antt =====
-- src/search/chunking.ts: dividing a memory's content into chunks, and finding a recalled chunk.
pub mod Laws
pub mod Lookup
mod Tests
use edgemneme.Base.{
  ℕ, ◌+◌, ◌-◌, ◌^◌, Bool, true, false, not, ◌&&◌, Option, none, some, List, [], ◌∷◌, ◌++◌, Result,
  ok, err, ◌>>=◌, ◌>>◌, throw_if, Text, codes, leb, ltb, if◌then◌else◌, is_empty, get_elem?,
  is_canonical_decimal, decimal_value, text_eq, take, drop, max_safe_integer,
}

abbrev pub max_memory_chunk_estimated_tokens : ℕ
max_memory_chunk_estimated_tokens = 4000

-- The errors that the two functions throw.
pub data ChunkError : Type 0 where
  empty_content : ChunkError
  not_canonical : ChunkError
  no_such_chunk : ChunkError

-- A code point of a string is always defined, so the source's `undefined` test is not taken.
unfoldable pub utf8_byte_length : ℕ → ℕ
utf8_byte_length value =
    if leb value 0x7f
    then 1
    else (if leb value 0x7ff then 2 else (if leb value 0xffff then 3 else 4))

-- The variables of the loop over the code points.
pub record ChunkState : Type 0 where
  pub chunks : List Text
  pub chunk : Text
  pub estimated_tokens : ℕ

-- `if (chunk !== "" && …) { chunks.push(chunk); … }`
flush_full : ChunkState → ℕ → ChunkState
flush_full s token_cost =
    if not (is_empty s.chunk)
      && ltb max_memory_chunk_estimated_tokens (s.estimated_tokens + token_cost)
    then record s { chunks = s.chunks ++ s.chunk ∷ []; chunk = []; estimated_tokens = 0 }
    else s

-- One round of the loop.
add_code_point : ChunkState → ℕ → ChunkState
unfolding flush_full utf8_byte_length
add_code_point s code_point =
    let token_cost = utf8_byte_length code_point in
    let t = flush_full s token_cost in
    record t {
      chunk = t.chunk ++ code_point ∷ [];
      estimated_tokens = t.estimated_tokens + token_cost;
    }

-- The last chunk is pushed after the loop.
finish_chunks : ChunkState → List Text
finish_chunks s = if not (is_empty s.chunk) then s.chunks ++ s.chunk ∷ [] else s.chunks

chunk_from : ChunkState → Text → List Text
unfolding add_code_point finish_chunks
chunk_from s [] = finish_chunks s
chunk_from s (code_point ∷ content) = chunk_from (add_code_point s code_point) content

unfoldable pub chunk_memory_content : Text → Result ChunkError (List Text)
unfolding chunk_from
chunk_memory_content content = do
  throw_if (is_empty content) empty_content
  ok (chunk_from (record { chunks = []; chunk = []; estimated_tokens = 0 }) content)

abbrev pub chunk_prefix : Text
chunk_prefix = codes "chunk-"

-- The pattern `^chunk-(0|[1-9][0-9]*)$` and `Number(match[1])`, if that is a safe integer.
unfoldable pub chunk_index : Text → Option ℕ
chunk_index chunk_id =
    let digits = drop 6 chunk_id in
    if text_eq (take 6 chunk_id) chunk_prefix
      && is_canonical_decimal digits
      && leb (decimal_value digits) max_safe_integer
    then some (decimal_value digits)
    else none

abbrev or_throw : Option Text → ChunkError → Result ChunkError Text
or_throw (some a) e = ok a
or_throw none e = err e

unfoldable pub select_authoritative_memory_chunk : Text → Text → Result ChunkError Text
select_authoritative_memory_chunk content chunk_id = elim (chunk_index chunk_id) [
  | none ↦ err not_canonical
  | some index ↦
      chunk_memory_content content >>= λ chunks. or_throw (get_elem? chunks index) no_such_chunk
]
