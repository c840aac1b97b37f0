-- ===== src/Quality/SensitiveContent/Values.antt =====
-- src/quality/sensitive-content.ts: the inspection of a value with all that it holds. A value is a
-- string, an object or something else; an object is its place in the heap, which lists for each object
-- its keys and values. Objects may be shared, and may hold themselves. `serialize` is
-- `JSON.stringify`, `none` where it throws or gives no string.
use edgemneme.Base.{
  ℕ, zero, suc, ◌+◌, Bool, Option, none, some, List, [], ◌∷◌, ◌++◌, map, Text, codes, ◌==◌,
  if◌then◌else◌, length, any, get_elem?, join_lines,
}
use edgemneme.Quality.SensitiveContent.{
  CandidateInspection, accepted, tombstone, Patterns, sensitive, too_large,
  inspect_candidate_content, inspect_model_input, memory_model_input_max_bytes,
}
use edgemneme.Quality.SensitiveContent.Keys.{has_sensitive_semantic_key}

pub data JsValue : Type 0 where
  string : Text → JsValue
  object : ℕ → JsValue
  other : JsValue

abbrev pub Entries : Type 0
Entries = List (Text × JsValue)

abbrev pub Heap : Type 0
Heap = List Entries

-- `Object.entries(current)`
unfoldable pub entries_of : Heap → ℕ → Entries
entries_of heap address = elim (get_elem? heap address) [ none ↦ [] | some entries ↦ entries ]

abbrev pub values_of : Entries → List JsValue
values_of entries = map (λ (entry : Text × JsValue). entry.1) entries

-- Pushed one after the other; the top of the stack is the first of the list.
unfoldable pub push_all : List JsValue → List JsValue → List JsValue
push_all [] pending = pending
push_all (value ∷ values) pending = push_all values (value ∷ pending)

abbrev pub has_seen : List ℕ → ℕ → Bool
has_seen seen address = any (λ a. a == address) seen

-- The rounds that suffice: one for the value, and one for each value in the heap.
unfoldable pub heap_size : Heap → ℕ
heap_size [] = 0
heap_size (entries ∷ heap) = length entries + heap_size heap

-- The loop of `inspectMemoryModelValue`, which keeps no account of the objects it has seen.
unfoldable pub collect_strings : ℕ → Heap → List Text → List JsValue → Option (List Text)
unfolding push_all entries_of
collect_strings zero heap found pending = none
collect_strings (suc fuel) heap found [] = some found
collect_strings (suc fuel) heap found (other ∷ pending) = collect_strings fuel heap found pending
collect_strings (suc fuel) heap found (string content ∷ pending) =
    collect_strings fuel heap (found ++ content ∷ []) pending
collect_strings (suc fuel) heap found (object address ∷ pending) =
    collect_strings fuel heap found (push_all (values_of (entries_of heap address)) pending)

module _ (p : Patterns) where
  abbrev pub has_sensitive_key : Entries → Bool
  has_sensitive_key entries =
      any (λ (entry : Text × JsValue). has_sensitive_semantic_key p.to_lower_case entry.0) entries

  -- The loop of `inspectPersistedValue`; `none` is that the fuel ran out.
  unfoldable pub inspect_pending : ℕ → ℕ → Heap → List ℕ → List JsValue → Option CandidateInspection
  unfolding push_all entries_of
  inspect_pending zero max_bytes heap seen pending = none
  inspect_pending (suc fuel) max_bytes heap seen [] = some accepted
  inspect_pending (suc fuel) max_bytes heap seen (other ∷ pending) =
      inspect_pending fuel max_bytes heap seen pending
  inspect_pending (suc fuel) max_bytes heap seen (string content ∷ pending) =
      let rest = inspect_pending fuel max_bytes heap seen pending in
      elim (inspect_candidate_content p max_bytes content) [
        | tombstone reason detector ↦ some (tombstone reason detector)
        | accepted ↦ rest
      ]
  inspect_pending (suc fuel) max_bytes heap seen (object address ∷ pending) =
      let rest =
        inspect_pending fuel max_bytes heap (address ∷ seen)
          (push_all (values_of (entries_of heap address)) pending) in
      if has_seen seen address
      then some too_large
      else if has_sensitive_key (entries_of heap address)
      then some (sensitive (codes "sensitive-field-name"))
      else rest

  unfoldable pub inspect_memory_model_input : Text → CandidateInspection
  unfolding inspect_model_input
  inspect_memory_model_input content = inspect_model_input p memory_model_input_max_bytes content

module _ (p : Patterns) (serialize : Heap → JsValue → Option Text) where
  abbrev pub serialized : Heap → JsValue → Option Text
  serialized heap (string content) = some content
  serialized heap value = serialize heap value

  unfoldable pub inspect_persisted_value : ℕ → Heap → JsValue → Option CandidateInspection
  unfolding inspect_pending heap_size
  inspect_persisted_value max_bytes heap value = elim (serialized heap value) [
    | none ↦ some too_large
    | some content ↦ elim (inspect_candidate_content p max_bytes content) [
      | tombstone reason detector ↦ some (tombstone reason detector)
      | accepted ↦ inspect_pending p (2 + heap_size heap) max_bytes heap [] (value ∷ [])
    ]
  ]

  unfoldable pub inspect_memory_model_value : ℕ → Heap → JsValue → Option CandidateInspection
  unfolding inspect_persisted_value collect_strings inspect_memory_model_input
  inspect_memory_model_value max_bytes heap value =
      elim (inspect_persisted_value max_bytes heap value) [
        | none ↦ none
        | some (tombstone reason detector) ↦ some (tombstone reason detector)
        | some accepted ↦ elim (collect_strings (2 + heap_size heap) heap [] (value ∷ [])) [
          | none ↦ none
          | some strings ↦ some (inspect_memory_model_input p (join_lines strings))
        ]
      ]
