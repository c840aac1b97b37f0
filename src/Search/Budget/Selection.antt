-- ===== src/Search/Budget/Selection.antt =====
-- src/search/pipeline.ts: which memories are packed, and when none is.
use edgemneme.Base.{
  ℕ, ◌+◌, ◌-◌, ◌≤◌, ◌≡◌, refl, ◌∙◌, sym, ◌≢◌, ◌↔◌, inl, inr, false, none, some, List, [], ◌∷◌, ◌++◌,
  arith, ◌==◌, Bool-cases, Option-cases, length, All, All-append,
}
use edgemneme.Search.Types.{ValidatedSearchCandidate, SearchResultMemory}
use edgemneme.Search.Budget.{
  fit_memory_to_context_budget, separator_tokens, pack_from, pack_memories,
}
use edgemneme.Search.Budget.Packing.{IsFit, fit_memory_to_context_budget-IsFit}
use edgemneme.Search.Budget.Context.{cons_ne_nil, pack_from_full, pack_from_skip, pack_from_add}

none_ne_some {ℓ} : {A : Type ℓ} {x : A} → none ≢ some x
none_ne_some e = cc

whole : (budget : ℕ) → budget - 0 - 0 ≡ budget
whole budget = omega arith

module _ {Number : Type 0} where
  module _ (limit budget : ℕ) where
    -- What holds of every fitted memory holds of all that are packed.
    pub pack_from-All :
        (P : SearchResultMemory Number → Type 0) (memories : List (SearchResultMemory Number))
        (used : ℕ) (relevant : List (ValidatedSearchCandidate Number × Number))
        → All P memories
        → All
            (λ x. (b : ℕ) (m : SearchResultMemory Number) (e : ℕ) → IsFit x.0 x.1 b m e → P m)
            relevant
        → All P (pack_from limit budget memories used relevant)
    unfolding pack_from
    pack_from-All P memories used [] h k = h
    pack_from-All P memories used (x ∷ relevant) h (k, ks) =
        elim (Bool-cases (length memories == limit)) [
          | inl full ↦ rw (pack_from_full limit budget memories used x relevant full) h
          | inr room ↦
              elim (Option-cases (
                fit_memory_to_context_budget x.0 x.1 (budget - used - separator_tokens memories))) [
                  | inl unfit ↦
                      rw (pack_from_skip limit budget memories used x relevant room unfit)
                        (pack_from-All P memories used relevant h ks)
                  | inr ((m, e), fit) ↦
                      let f = fit_memory_to_context_budget-IsFit x.0 x.1 _ m e fit in
                      rw (pack_from_add limit budget memories used x relevant m e room fit) (
                        pack_from-All P (memories ++ m ∷ [])
                          (used + (separator_tokens memories + e)) relevant
                          (All-append P memories (m ∷ []) h (k _ m e f, tt)) ks)
                ]
        ]

    pack_from_ne_nil :
        (k : SearchResultMemory Number) (ms : List (SearchResultMemory Number)) (used : ℕ)
        (relevant : List (ValidatedSearchCandidate Number × Number))
        → pack_from limit budget (k ∷ ms) used relevant ≢ []
    unfolding pack_from
    pack_from_ne_nil k ms used [] z = cons_ne_nil z
    pack_from_ne_nil k ms used (x ∷ relevant) z = elim (Bool-cases (length (k ∷ ms) == limit)) [
      | inl full ↦ cons_ne_nil (sym (pack_from_full limit budget (k ∷ ms) used x relevant full) ∙ z)
      | inr room ↦
          elim (Option-cases
            (fit_memory_to_context_budget x.0 x.1 (budget - used - separator_tokens (k ∷ ms)))) [
              | inl unfit ↦
                  pack_from_ne_nil k ms used relevant
                    (sym (pack_from_skip limit budget (k ∷ ms) used x relevant room unfit) ∙ z)
              | inr ((m, e), fit) ↦
                  pack_from_ne_nil k (ms ++ m ∷ []) (used + (separator_tokens (k ∷ ms) + e))
                    relevant
                    (sym (pack_from_add limit budget (k ∷ ms) used x relevant m e room fit) ∙ z)
            ]
    ]

    pack_from-eq-nil_iff :
        (relevant : List (ValidatedSearchCandidate Number × Number))
        → (0 == limit) ≡ false
        → (pack_from limit budget [] 0 relevant ≡ [])
          ↔ All (λ x. fit_memory_to_context_budget x.0 x.1 budget ≡ none) relevant
    unfolding pack_from
    pack_from-eq-nil_iff [] room = (λ e. tt, λ h. refl)
    pack_from-eq-nil_iff (x ∷ relevant) room =
        elim (Option-cases (fit_memory_to_context_budget x.0 x.1 budget)) [
          | inl unfit ↦
              let skip =
                pack_from_skip limit budget [] 0 x relevant room (rw (whole budget) unfit) in
              let (to, from) = pack_from-eq-nil_iff relevant room in
              (λ z. (unfit, to (sym skip ∙ z)), λ (u, h). skip ∙ from h)
          | inr ((m, e), fit) ↦
              let add =
                pack_from_add limit budget [] 0 x relevant m e room (rw (whole budget) fit) in
              (
                λ z. absurd (pack_from_ne_nil m [] _ relevant (sym add ∙ z)),
                λ (u, h). absurd (none_ne_some (sym u ∙ fit)),
              )
        ]

  -- With room for a memory, nothing is packed exactly when no candidate fits into the whole budget.
  pub pack_memories-eq-nil_iff :
      (limit budget : ℕ) (relevant : List (ValidatedSearchCandidate Number × Number))
      → 1 ≤ limit
      → (pack_memories limit budget relevant ≡ [])
        ↔ All (λ x. fit_memory_to_context_budget x.0 x.1 budget ≡ none) relevant
  unfolding pack_memories
  pack_memories-eq-nil_iff limit budget relevant h =
      pack_from-eq-nil_iff limit budget relevant (ground arith)
