-- ===== src/Search/Filtering/Batches.antt =====
-- src/search/vector-filtering.ts: the batches are the values, in order, and each of them fits.
use edgemneme.Base.{
  ℕ, ◌≤◌, ◌≡◌, ◌≢◌, refl, sym, ◌∙◌, ap, subst, inl, inr, List, [], ◌∷◌, ◌++◌, append-nil,
  append_assoc, ok, ok-injective, Text, leb, leb→le, is_empty, ne_nil_of_is_empty, concat,
  concat-append, All, All-append, Bool-cases,
}
use edgemneme.Search.Filtering.{
  serialized_array_contribution, finish_batches, batch_from, batch_string_values,
}

module _ (json_stringify : List Text → Text) (budget : ℕ) where
  -- A batch has a value, and its part of the filter is within the budget.
  abbrev pub Fits : List Text → Type 0
  Fits batch = (batch ≢ []) × (serialized_array_contribution json_stringify batch ≤ budget)

  -- What holds of the batch that is being filled.
  Filled : List Text → Type 0
  Filled batch = batch ≢ [] → serialized_array_contribution json_stringify batch ≤ budget

  finished :
      (batches : List (List Text)) (batch : List Text)
      → All Fits batches
      → Filled batch
      → (concat (finish_batches json_stringify batches batch) ≡ concat batches ++ batch)
        × All Fits (finish_batches json_stringify batches batch)
  unfolding Filled
  finished batches [] h k = (sym (append-nil (concat batches)), h)
  finished batches (v ∷ batch) h k =
      let some_value : v ∷ batch ≢ [] = λ e. cc in
      (
        concat-append batches ((v ∷ batch) ∷ [])
            ∙ ap (λ t. concat batches ++ t) (append-nil (v ∷ batch)),
        All-append Fits batches ((v ∷ batch) ∷ []) h ((some_value, k some_value), tt),
      )

  moved :
      (xs ys : List Text) (v : Text) (zs : List Text)
      → (xs ++ (ys ++ v ∷ [])) ++ zs ≡ (xs ++ ys) ++ v ∷ zs
  moved xs ys v zs =
      append_assoc xs (ys ++ v ∷ []) zs
      ∙ ap (λ t. xs ++ t) (append_assoc ys (v ∷ []) zs)
      ∙ sym (append_assoc xs ys (v ∷ zs))

  batch_from-lem :
      (batches : List (List Text)) (batch values : List Text) (result : List (List Text))
      → All Fits batches
      → Filled batch
      → batch_from json_stringify budget batches batch values ≡ ok result
      → (concat result ≡ (concat batches ++ batch) ++ values) × All Fits result
  unfolding batch_from Filled
  batch_from-lem batches batch [] result h k e =
      let (joined, fits) = finished batches batch h k in
      (
        ap concat (sym (ok-injective e)) ∙ joined ∙ sym (append-nil (concat batches ++ batch)),
        subst (All Fits) (ok-injective e) fits,
      )
  batch_from-lem batches batch (v ∷ values) result h k e =
      elim (Bool-cases
        (leb (serialized_array_contribution json_stringify (batch ++ v ∷ [])) budget)) [
          | inl room ↦
              let (joined, fits) =
                batch_from-lem batches (batch ++ v ∷ []) values result h (λ n. leb→le _ _ room)
                  (rw (room, batch_from) at e) in
              (joined ∙ moved (concat batches) batch v values, fits)
          | inr full ↦ elim (Bool-cases (is_empty batch)) [
            | inl nothing ↦ cc (rw (nothing, batch_from) at (rw (full, batch_from) at e))
            | inr something ↦
                elim (Bool-cases
                  (leb (serialized_array_contribution json_stringify (v ∷ [])) budget)) [
                    | inr large ↦ cc (
                        rw (large, batch_from) at
                          (rw (something, batch_from) at (rw (full, batch_from) at e)))
                    | inl small ↦
                        let n = ne_nil_of_is_empty batch something in
                        let (joined, fits) =
                          batch_from-lem (batches ++ batch ∷ []) (v ∷ []) values result
                            (All-append Fits batches (batch ∷ []) h ((n, k n), tt))
                            (λ m. leb→le _ _ small)
                            (rw (small, batch_from) at
                              (rw (something, batch_from) at (rw (full, batch_from) at e))) in
                        (
                          joined
                              ∙ append_assoc (concat (batches ++ batch ∷ [])) (v ∷ []) values
                              ∙ ap (λ t. t ++ v ∷ values)
                                  (concat-append batches (batch ∷ [])
                                    ∙ ap (λ t. concat batches ++ t) (append-nil batch)),
                          fits,
                        )
                  ]
          ]
        ]

  -- When batching succeeds, the batches joined are the values in their order, and each batch has a value
  -- and takes at most the budget in the filter, whatever the serialisation.
  pub batch_string_values-joins :
      (values : List Text) (result : List (List Text))
      → batch_string_values json_stringify values budget ≡ ok result
      → (concat result ≡ values) × All Fits result
  unfolding batch_string_values Filled
  batch_string_values-joins values result e =
      batch_from-lem [] [] values result tt (λ n. absurd (n refl)) e
