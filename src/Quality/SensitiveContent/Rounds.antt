-- ===== src/Quality/SensitiveContent/Rounds.antt =====
-- src/quality/sensitive-content.ts: the inspection of a value ends, also where objects are shared or
-- hold themselves.
use edgemneme.Base.{
  ℕ, zero, suc, ◌+◌, ◌≤◌, ◌<◌, ◌≡◌, ◌≢◌, inl, inr, refl, false, none, List, [], ◌∷◌, arith,
  if◌then◌else◌, length, Bool-cases,
}
use edgemneme.Quality.SensitiveContent.{Patterns}
use edgemneme.Quality.SensitiveContent.Values.{
  JsValue, Entries, Heap, entries_of, values_of, push_all, has_seen, heap_size, has_sensitive_key,
  inspect_pending,
}

length-values_of : (entries : Entries) → length (values_of entries) ≡ length entries
length-values_of [] = refl
length-values_of (entry ∷ entries) = omega (arith, length-values_of entries)

length-push_all :
    (values pending : List JsValue)
    → length (push_all values pending) ≡ length values + length pending
unfolding push_all
length-push_all [] pending = omega arith
length-push_all (value ∷ values) pending = omega (arith, length-push_all values (value ∷ pending))

-- The values in the objects of a part of the heap, from a place on, that have not been seen.
unseen_size : ℕ → Heap → List ℕ → ℕ
unseen_size i [] seen = 0
unseen_size i (entries ∷ heap) seen =
    (if has_seen seen i then 0 else length entries) + unseen_size (suc i) heap seen

unseen_size-le :
    (a i : ℕ) (heap : Heap) (seen : List ℕ)
    → unseen_size i heap (a ∷ seen) ≤ unseen_size i heap seen
unfolding unseen_size
unseen_size-le a i [] seen = omega arith
unseen_size-le a i (entries ∷ heap) seen = ground (arith, unseen_size-le a (suc i) heap seen)

-- An object that is seen for the first time takes its values away.
unseen_size-cons :
    (a i k : ℕ) (heap : Heap) (seen : List ℕ)
    → a ≡ i + k
    → has_seen seen a ≡ false
    → unseen_size i heap (a ∷ seen) + length (entries_of heap k) ≤ unseen_size i heap seen
unfolding unseen_size entries_of
unseen_size-cons a i k [] seen e h = omega arith
unseen_size-cons a i zero (entries ∷ heap) seen e h =
    let same : a ≡ i = omega arith in
    let h' = rw same at h in ground (arith, unseen_size-le a (suc i) heap seen)
unseen_size-cons a i (suc k) (entries ∷ heap) seen e h =
    ground (arith, unseen_size-cons a (suc i) k heap seen)

unseen_size-nil : (i : ℕ) (heap : Heap) → unseen_size i heap [] ≡ heap_size heap
unfolding unseen_size heap_size
unseen_size-nil i [] = refl
unseen_size-nil i (entries ∷ heap) = omega (arith, unseen_size-nil (suc i) heap)

module _ (p : Patterns) where
  inspect_pending-ne-none :
      (fuel max_bytes : ℕ) (heap : Heap) (seen : List ℕ) (pending : List JsValue)
      → length pending + unseen_size 0 heap seen < fuel
      → inspect_pending p fuel max_bytes heap seen pending ≢ none
  unfolding inspect_pending
  inspect_pending-ne-none zero max_bytes heap seen pending h = absurd (omega arith)
  inspect_pending-ne-none (suc fuel) max_bytes heap seen [] h = λ e. cc
  inspect_pending-ne-none (suc fuel) max_bytes heap seen (JsValue.other ∷ pending) h =
      inspect_pending-ne-none fuel max_bytes heap seen pending (omega arith)
  inspect_pending-ne-none (suc fuel) max_bytes heap seen (JsValue.string content ∷ pending) h =
      λ e. ground (arith, inspect_pending-ne-none fuel max_bytes heap seen pending)
  inspect_pending-ne-none (suc fuel) max_bytes heap seen (JsValue.object address ∷ pending) h =
      elim (Bool-cases (has_seen seen address)) [
        | inl old ↦ rw old (λ e. cc)
        | inr new ↦ rw new (elim (Bool-cases (has_sensitive_key p (entries_of heap address))) [
          | inl secret ↦ rw secret (λ e. cc)
          | inr plain ↦ rw plain (
              inspect_pending-ne-none fuel max_bytes heap (address ∷ seen)
                (push_all (values_of (entries_of heap address)) pending)
                (omega (
                  arith,
                  length-push_all (values_of (entries_of heap address)) pending,
                  length-values_of (entries_of heap address),
                  unseen_size-cons address 0 address heap seen (omega arith) new,
                )))
        ])
      ]

  -- From one value, with nothing seen, the rounds given suffice.
  pub inspect_value-ne-none :
      (max_bytes : ℕ) (heap : Heap) (value : JsValue)
      → inspect_pending p (2 + heap_size heap) max_bytes heap [] (value ∷ []) ≢ none
  inspect_value-ne-none max_bytes heap value =
      inspect_pending-ne-none (2 + heap_size heap) max_bytes heap [] (value ∷ [])
        (omega (arith, unseen_size-nil 0 heap))
