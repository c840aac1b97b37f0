-- ===== src/Quality/SensitiveContent/ModelValues.antt =====
-- src/quality/sensitive-content.ts: what a value that is accepted for a model holds, and that its
-- inspection ends.
use edgemneme.Base.{
  ℕ, ◌+◌, ◌≡◌, ◌≢◌, inl, inr, refl, Option, none, some, List, [], ◌∷◌, Text, arith, Option-cases,
  join_lines,
}
use edgemneme.Quality.SensitiveContent.{
  CandidateInspection, accepted, tombstone, Patterns, inspect_model_input,
}
use edgemneme.Quality.SensitiveContent.Values.{
  JsValue, Heap, heap_size, inspect_pending, inspect_persisted_value, inspect_memory_model_input,
  inspect_memory_model_value,
}
use edgemneme.Quality.SensitiveContent.Rounds.{inspect_value-ne-none}
use edgemneme.Quality.SensitiveContent.Kept.{HoldsKept, inspect_pending-HoldsKept}
use edgemneme.Quality.SensitiveContent.Strings.{HoldsAmong, Collects, collect_strings-Collects}

module _ (p : Patterns) (serialize : Heap → JsValue → Option Text) where
  persisted_pending :
      (max_bytes : ℕ) (heap : Heap) (value : JsValue)
      → inspect_persisted_value p serialize max_bytes heap value ≡ some accepted
      → inspect_pending p (2 + heap_size heap) max_bytes heap [] (value ∷ []) ≡ some accepted
  unfolding inspect_persisted_value
  persisted_pending max_bytes heap value e = ground arith

  inspect_persisted_value-ne-none :
      (max_bytes : ℕ) (heap : Heap) (value : JsValue)
      → inspect_persisted_value p serialize max_bytes heap value ≢ none
  unfolding inspect_persisted_value
  inspect_persisted_value-ne-none max_bytes heap value e =
      ground (arith, inspect_value-ne-none p max_bytes heap value)

  -- What the inspection of an accepted value says: each string in the value, at any depth, is accepted by
  -- itself, no object in it has a key that names a secret, and the text that joins some strings, with all
  -- those of the value among them, is accepted as the input of a model.
  pub record IsFit (max_bytes : ℕ) (heap : Heap) (value : JsValue) : Type 0 where
    pub kept : HoldsKept p max_bytes heap value
    pub strings : List Text
    pub complete : HoldsAmong heap strings value
    pub joined : inspect_model_input p 16384 (join_lines strings) ≡ accepted

  -- A value that is accepted for a model is fit for it: each string in the value, at any depth, is
  -- accepted by itself, no object in it has a key that names a secret, and a text that joins all the
  -- strings in it is accepted as the input of a model.
  pub inspect_memory_model_value-IsFit :
      (max_bytes : ℕ) (heap : Heap) (value : JsValue)
      → inspect_memory_model_value p serialize max_bytes heap value ≡ some accepted
      → IsFit max_bytes heap value
  unfolding inspect_memory_model_value inspect_memory_model_input Collects
  inspect_memory_model_value-IsFit max_bytes heap value e =
      let persisted : inspect_persisted_value p serialize max_bytes heap value ≡ some accepted =
        ground arith in
      let pending = persisted_pending max_bytes heap value persisted in
      let (strings, q, old, held) =
        collect_strings-Collects p (2 + heap_size heap) max_bytes heap [] [] (value ∷ []) pending in
      record {
        kept =
            (inspect_pending-HoldsKept p (2 + heap_size heap) max_bytes heap [] (value ∷ [])
              pending).0;
        strings = strings;
        complete = held.0;
        joined = ground arith;
      }

  -- The inspection of a value for a model ends, whatever the objects share or hold: the first loop stops
  -- at an object that it meets again, and the second one, which does not remember the objects, has no
  -- more rounds than the first one had when it accepted.
  pub inspect_memory_model_value_total :
      (max_bytes : ℕ) (heap : Heap) (value : JsValue)
      → (inspection : CandidateInspection) × (inspect_memory_model_value p serialize max_bytes heap
            value
          ≡ some inspection)
  unfolding inspect_memory_model_value Collects
  inspect_memory_model_value_total max_bytes heap value =
      elim (Option-cases (inspect_persisted_value p serialize max_bytes heap value)) [
        | inl e ↦ absurd (inspect_persisted_value-ne-none max_bytes heap value e)
        | inr (tombstone reason detector, e) ↦
            (tombstone reason detector, rw (e, inspect_memory_model_value) refl)
        | inr (accepted, e) ↦
            let (strings, q, old, held) =
              collect_strings-Collects p (2 + heap_size heap) max_bytes heap [] [] (value ∷ [])
                (persisted_pending max_bytes heap value e) in
            (
              inspect_memory_model_input p (join_lines strings),
              rw (e, inspect_memory_model_value) (rw q refl),
            )
      ]
