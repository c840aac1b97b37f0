-- ===== src/Github/Scheduling/Batches.antt =====
-- src/github/sync-scheduling.ts: the batches are the items, in order.
use edgemneme.Base.{
  ℕ, zero, suc, ◌+◌, ◌≤◌, ◌≡◌, refl, sym, ◌∙◌, ap, subst, inl, inr, ◌||◌, List, [], ◌∷◌, ◌++◌, ok,
  throw_if, throw_if-eq-ok, >>=-eq-ok, ok-injective, arith, ltb, length, take, drop, concat,
  length-take, length-drop, take-append-drop, All, Bool-cases,
}
use edgemneme.Github.Scheduling.{batches_from, batch_size_invalid, chunk_workflow_batch}

module _ {ℓ} {A : Type ℓ} where
  drop-nil : (n : ℕ) → drop {A = A} n [] ≡ []
  drop-nil zero = refl
  drop-nil (suc n) = refl

  drop-add : (m n : ℕ) (xs : List A) → drop (m + n) xs ≡ drop n (drop m xs)
  drop-add zero n xs = let e : 0 + n ≡ n = omega arith in ap (λ k. drop k xs) e
  drop-add (suc m) n [] =
      let e : suc m + n ≡ suc (m + n) = omega arith in ap (λ k. drop k []) e ∙ sym (drop-nil n)
  drop-add (suc m) n (x ∷ xs) =
      let e : suc m + n ≡ suc (m + n) = omega arith in ap (λ k. drop k (x ∷ xs)) e ∙ drop-add m n xs

  drop-of_le : (n : ℕ) (xs : List A) → length xs ≤ n → drop n xs ≡ []
  drop-of_le zero [] h = refl
  drop-of_le zero (x ∷ xs) h = absurd (omega arith)
  drop-of_le (suc n) [] h = refl
  drop-of_le (suc n) (x ∷ xs) h = drop-of_le n xs (omega arith)

  abbrev pub IsBatch : ℕ → List A → Type 0
  IsBatch size batch = (1 ≤ length batch) × (length batch ≤ size)

  batches_from-lem :
      (fuel : ℕ) (items : List A) (size offset : ℕ)
      → 1 ≤ size
      → length items ≤ offset + fuel
      → (concat (batches_from fuel items size offset) ≡ drop offset items)
        × All (IsBatch size) (batches_from fuel items size offset)
  unfolding batches_from
  batches_from-lem zero items size offset h k = (sym (drop-of_le offset items (omega arith)), tt)
  batches_from-lem (suc fuel) items size offset h k =
      elim (Bool-cases (ltb offset (length items))) [
        | inr done ↦ rw done (sym (drop-of_le offset items (ground arith)), tt)
        | inl more ↦
            let (joined, sized) =
              batches_from-lem fuel items size (offset + size) h (omega arith) in
            let a = length-take size (drop offset items) in
            let b = length-drop offset items in
            rw more (
              ap (λ t. take size (drop offset items) ++ t) (joined ∙ drop-add offset size items)
                  ∙ take-append-drop size (drop offset items),
              ((ground (arith, a, b), ground (arith, a, b)), sized),
            )
      ]

  -- When the batch size is accepted, which is from 1 to 100, the batches joined are the items in their
  -- order, and each batch has from 1 item to the batch size.
  pub chunk_workflow_batch-joins :
      (items : List A) (size : ℕ) (batches : List (List A))
      → chunk_workflow_batch items size ≡ ok batches
      → ((1 ≤ size) × (size ≤ 100)) × (concat batches ≡ items) × All (IsBatch size) batches
  unfolding chunk_workflow_batch
  chunk_workflow_batch-joins items size batches h =
      let (u, checked, h1) =
        >>=-eq-ok (throw_if (ltb size 1 || ltb 100 size) batch_size_invalid) _ h in
      let accepted = throw_if-eq-ok (ltb size 1 || ltb 100 size) batch_size_invalid u checked in
      let small : 1 ≤ size = ground arith in
      let (joined, sized) = batches_from-lem (length items) items size 0 small (omega arith) in
      (
        (small, ground arith),
        subst (λ (t : List (List A)). concat t ≡ items) (ok-injective h1) joined,
        subst (All (IsBatch size)) (ok-injective h1) sized,
      )
