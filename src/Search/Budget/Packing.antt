-- ===== src/Search/Budget/Packing.antt =====
-- src/search/pipeline.ts: fitting one memory, and packing memories until the budget is used.
use edgemneme.Base.{
  ℕ, zero, suc, ◌+◌, ◌-◌, ◌≤◌, ◌≡◌, refl, ap, ◌∙◌, sym, ◌≢◌, ◌↔◌, ◌⊎◌, inl, inr, true, false, not,
  none, some, [], ◌∷◌, Text, arith, leb, ltb, if◌then◌else◌, Bool-cases, length, take, leb→le,
  le→leb, ltb-false, is_empty, ne_nil_of_is_empty, text_eq, text_eq_iff, subst, some_inj,
}
use edgemneme.Search.Types.{ValidatedSearchCandidate, SearchResultMemory}
use edgemneme.Search.Budget.{
  estimate_tokens, truncate_to_token_budget, render_context_entry, without_embedding,
  citation_prefix, fit_memory_to_context_budget,
}
use edgemneme.Search.Budget.Estimate.{estimate_tokens_pos, estimate_tokens-append-le}
use edgemneme.Search.Budget.Truncate.{truncate_to_token_budget-IsLongest}

take-nonempty : (a : ℕ) (s : Text) (r : ℕ) → 1 ≤ r → is_empty (take r (a ∷ s)) ≡ false
take-nonempty a s zero h = absurd (omega arith)
take-nonempty a s (suc r) h = refl

module _ {Number : Type 0} where
  -- What a memory that is fitted into `b` tokens is: the candidate's, with an excerpt that is a
  -- nonempty beginning of the chunk, marked when it is shortened, and within the budget as rendered.
  pub record IsFit (c : ValidatedSearchCandidate Number) (relevance : Number) (b : ℕ)
      (m : SearchResultMemory Number) (e : ℕ) : Type 0 where
    pub counted : e ≡ estimate_tokens (render_context_entry m)
    pub within : e ≤ b
    pub nonempty : m.excerpt ≢ []
    pub beginning : (n : ℕ) × (m.excerpt ≡ take n c.chunk_content)
    pub flagged : (m.excerpt_truncated ≡ false) ↔ (m.excerpt ≡ c.chunk_content)
    pub same : m ≡ without_embedding c m.excerpt m.excerpt_truncated relevance

  module _ (c : ValidatedSearchCandidate Number) (relevance : Number) (b : ℕ) where
    excerpt_budget : ℕ
    excerpt_budget = b - estimate_tokens (citation_prefix c)

    cut : Text
    cut = truncate_to_token_budget c.chunk_content excerpt_budget

    fitted : SearchResultMemory Number
    fitted = without_embedding c cut (not (text_eq cut c.chunk_content)) relevance

    -- The three tests, made one after the other.
    fit-eq : fit_memory_to_context_budget c relevance b ≡ (
        if ltb excerpt_budget 1
        then none
        else (if is_empty cut
            then none
            else (if leb (estimate_tokens (render_context_entry fitted)) b
                then some (fitted, estimate_tokens (render_context_entry fitted))
                else none)))
    unfolding fit_memory_to_context_budget excerpt_budget cut fitted
    fit-eq = refl

    flag_iff : (s t : Text) → (not (text_eq s t) ≡ false) ↔ (s ≡ t)
    flag_iff s t = ground (arith, text_eq_iff s t)

    fitted-IsFit :
        ltb excerpt_budget 1 ≡ false
        → is_empty cut ≡ false
        → leb (estimate_tokens (render_context_entry fitted)) b ≡ true
        → IsFit c relevance b fitted (estimate_tokens (render_context_entry fitted))
    unfolding fitted without_embedding cut
    fitted-IsFit p q r =
        let (n, e, longest) =
          truncate_to_token_budget-IsLongest c.chunk_content excerpt_budget (ground arith) in
        record {
          counted = refl;
          within = leb→le _ _ r;
          nonempty = ne_nil_of_is_empty cut q;
          beginning = (n, e);
          flagged = flag_iff cut c.chunk_content;
          same = refl;
        }

    -- The rendered memory costs at most its citation and its excerpt.
    estimate-entry-le :
        estimate_tokens (render_context_entry fitted)
        ≤ estimate_tokens (citation_prefix c) + estimate_tokens cut
    unfolding render_context_entry fitted without_embedding
    estimate-entry-le = estimate_tokens-append-le (citation_prefix c) cut

    fit-cases :
        (fit_memory_to_context_budget c relevance b ≡ none)
        ⊎ ((ltb excerpt_budget 1 ≡ false)
            × (is_empty cut ≡ false)
            × (leb (estimate_tokens (render_context_entry fitted)) b ≡ true)
            × (fit_memory_to_context_budget c relevance b
                ≡ some (fitted, estimate_tokens (render_context_entry fitted))))
    fit-cases = elim (Bool-cases (ltb excerpt_budget 1)) [
      | inl small ↦ inl (fit-eq ∙ (rw small))
      | inr room ↦ elim (Bool-cases (is_empty cut)) [
        | inl nothing ↦ inl (fit-eq ∙ (rw (room, nothing)))
        | inr something ↦
            elim (Bool-cases (leb (estimate_tokens (render_context_entry fitted)) b)) [
              | inl fits ↦ inr (room, something, fits, fit-eq ∙ (rw (room, something, fits)))
              | inr over ↦ inl (fit-eq ∙ (rw (room, something, over)))
            ]
      ]
    ]

    fit-of-room :
        (first : ℕ) (rest : Text)
        → c.chunk_content ≡ first ∷ rest
        → estimate_tokens (citation_prefix c) + estimate_tokens (first ∷ []) ≤ b
        → fit_memory_to_context_budget c relevance b
          ≡ some (fitted, estimate_tokens (render_context_entry fitted))
    unfolding excerpt_budget cut
    fit-of-room first rest q h =
        let room : 1 ≤ b - estimate_tokens (citation_prefix c) =
          omega (arith, estimate_tokens_pos (first ∷ [])) in
        let (r, e, v) = truncate_to_token_budget-IsLongest c.chunk_content excerpt_budget room in
        let one : 1 ≤ r =
          v.longest 1 (omega (arith, ap length q))
            (omega (arith, ap (λ t. estimate_tokens (take 1 t)) q)) in
        let something : is_empty cut ≡ false =
          ap is_empty (e ∙ ap (take r) q) ∙ take-nonempty first rest r one in
        let fits : estimate_tokens (render_context_entry fitted) ≤ b =
          omega (arith, estimate-entry-le, ap estimate_tokens e, v.fits) in
        fit-eq ∙ (rw (ltb-false excerpt_budget 1 room, something, le→leb _ _ fits))

  -- A memory that is returned is the candidate with a nonempty beginning of its chunk as excerpt,
  -- marked as truncated exactly when that is not the whole chunk; the returned cost is the estimate of
  -- its rendered entry, and is within the budget.
  pub fit_memory_to_context_budget-IsFit :
      (c : ValidatedSearchCandidate Number) (relevance : Number) (b : ℕ)
      (m : SearchResultMemory Number) (e : ℕ)
      → fit_memory_to_context_budget c relevance b ≡ some (m, e)
      → IsFit c relevance b m e
  fit_memory_to_context_budget-IsFit c relevance b m e h = elim (fit-cases c relevance b) [
    | inl nothing ↦ absurd (cc (h, nothing))
    | inr (room, something, fits, found) ↦
        let p : ◌≡◌ {A = SearchResultMemory Number × ℕ}
            (fitted c relevance b, estimate_tokens (render_context_entry (fitted c relevance b)))
            (m, e) =
          some_inj (sym found ∙ h) in
        subst (λ (x : SearchResultMemory Number × ℕ). IsFit c relevance b x.0 x.1) p
          (fitted-IsFit c relevance b room something fits)
  ]

  -- A memory is returned as soon as the citation and the first code point of the chunk fit.
  pub fit_memory_to_context_budget_total :
      (c : ValidatedSearchCandidate Number) (relevance : Number) (b first : ℕ) (rest : Text)
      → c.chunk_content ≡ first ∷ rest
      → estimate_tokens (citation_prefix c) + estimate_tokens (first ∷ []) ≤ b
      → (m : SearchResultMemory Number) × (e : ℕ) × (fit_memory_to_context_budget c relevance b
          ≡ some (m, e))
  fit_memory_to_context_budget_total c relevance b first rest q h =
      (fitted c relevance b, _, fit-of-room c relevance b first rest q h)
