-- ===== src/Search/Budget/Context.antt =====
-- src/search/pipeline.ts: the packed context stays within the limits, and holds what fits.
use edgemneme.Base.{
  ℕ, ◌+◌, ◌-◌, ◌≤◌, ◌≡◌, refl, ap, ◌∙◌, sym, ◌≢◌, ◌⊎◌, inl, inr, true, false, none, some, List, [],
  ◌∷◌, ◌++◌, map, Text, arith, ◌==◌, Bool-cases, Option-cases, length, append_assoc, length-append,
}
use edgemneme.Search.Types.{ValidatedSearchCandidate, SearchResultMemory}
use edgemneme.Search.Budget.{
  estimate_tokens, render_context_entry, fit_memory_to_context_budget, join, build_context_pack,
  separator_tokens, pack_from, pack_memories,
}
use edgemneme.Search.Budget.Estimate.{estimate_tokens_pos, estimate_tokens-append-le}
use edgemneme.Search.Budget.Packing.{IsFit, fit_memory_to_context_budget-IsFit}

join-snoc :
    (sep : Text) (a : Text) (xs : List Text) (x : Text)
    → join sep ((a ∷ xs) ++ x ∷ []) ≡ join sep (a ∷ xs) ++ (sep ++ x)
unfolding join
join-snoc sep a [] x = refl
join-snoc sep a (b ∷ xs) x =
    ap (λ t. a ++ (sep ++ t)) (join-snoc sep b xs x)
    ∙ ap (λ t. a ++ t) (sym (append_assoc sep (join sep (b ∷ xs)) (sep ++ x)))
    ∙ sym (append_assoc a (sep ++ join sep (b ∷ xs)) (sep ++ x))

estimate-join-snoc :
    (sep : Text) (a : Text) (xs : List Text) (x : Text)
    → estimate_tokens (join sep ((a ∷ xs) ++ x ∷ []))
      ≤ estimate_tokens (join sep (a ∷ xs)) + (estimate_tokens sep + estimate_tokens x)
estimate-join-snoc sep a xs x = omega (
  arith,
  ap estimate_tokens (join-snoc sep a xs x),
  estimate_tokens-append-le (join sep (a ∷ xs)) (sep ++ x),
  estimate_tokens-append-le sep x,
)

join_one : (x : Text) → join (10 ∷ 10 ∷ []) (x ∷ []) ≡ x
unfolding join
join_one x = refl

pub cons_ne_nil {ℓ} : {A : Type ℓ} {x : A} {xs : List A} → x ∷ xs ≢ []
cons_ne_nil e = cc

estimate-empty : estimate_tokens (join (10 ∷ 10 ∷ []) []) ≡ 1
unfolding estimate_tokens join
estimate-empty = refl

module _ {Number : Type 0} where
  map-snoc :
      (ms : List (SearchResultMemory Number)) (m : SearchResultMemory Number)
      → map render_context_entry (ms ++ m ∷ [])
        ≡ map render_context_entry ms ++ render_context_entry m ∷ []
  map-snoc [] m = refl
  map-snoc (k ∷ ms) m = ap (λ t. render_context_entry k ∷ t) (map-snoc ms m)

  -- The loop's state: the memories cost at most `used` tokens when they are joined.
  record Packs (result_limit token_budget : ℕ) (memories : List (SearchResultMemory Number))
      (used : ℕ) : Type 0 where
    counted : length memories ≤ result_limit
    spent : used ≤ token_budget
    covered : (memories ≡ []) ⊎ (estimate_tokens (build_context_pack memories) ≤ used)

  -- Adding a memory that fits into what is left keeps the state's bounds.
  covered-snoc :
      (memories : List (SearchResultMemory Number)) (m : SearchResultMemory Number) (used : ℕ)
      → (memories ≡ []) ⊎ (estimate_tokens (build_context_pack memories) ≤ used)
      → estimate_tokens (build_context_pack (memories ++ m ∷ []))
        ≤ used + (separator_tokens memories + estimate_tokens (render_context_entry m))
  unfolding build_context_pack
  covered-snoc [] m used h = omega (arith, ap estimate_tokens (join_one (render_context_entry m)))
  covered-snoc (k ∷ ms) m used (inl e) = absurd (cons_ne_nil e)
  covered-snoc (k ∷ ms) m used (inr h) = omega (
    arith,
    estimate-join-snoc (10 ∷ 10 ∷ []) (render_context_entry k) (map render_context_entry ms)
        (render_context_entry m),
    ap (λ t. estimate_tokens (join (10 ∷ 10 ∷ []) t)) (map-snoc (k ∷ ms) m),
  )

  module _ (limit budget : ℕ) where
    pub pack_from_full :
        (memories : List (SearchResultMemory Number)) (used : ℕ)
        (x : ValidatedSearchCandidate Number × Number)
        (relevant : List (ValidatedSearchCandidate Number × Number))
        → (length memories == limit) ≡ true
        → pack_from limit budget memories used (x ∷ relevant) ≡ memories
    unfolding pack_from
    pack_from_full memories used x relevant full = rw (full, pack_from)

    pub pack_from_skip :
        (memories : List (SearchResultMemory Number)) (used : ℕ)
        (x : ValidatedSearchCandidate Number × Number)
        (relevant : List (ValidatedSearchCandidate Number × Number))
        → (length memories == limit) ≡ false
        → fit_memory_to_context_budget x.0 x.1 (budget - used - separator_tokens memories) ≡ none
        → pack_from limit budget memories used (x ∷ relevant)
          ≡ pack_from limit budget memories used relevant
    unfolding pack_from
    pack_from_skip memories used x relevant room unfit =
        rw (room, pack_from) (rw (unfit, pack_from))

    pub pack_from_add :
        (memories : List (SearchResultMemory Number)) (used : ℕ)
        (x : ValidatedSearchCandidate Number × Number)
        (relevant : List (ValidatedSearchCandidate Number × Number)) (m : SearchResultMemory Number)
        (e : ℕ)
        → (length memories == limit) ≡ false
        → fit_memory_to_context_budget x.0 x.1 (budget - used - separator_tokens memories)
          ≡ some (m, e)
        → pack_from limit budget memories used (x ∷ relevant)
          ≡ pack_from limit budget
              (memories ++ m ∷ [])
              (used + (separator_tokens memories + e))
              relevant
    unfolding pack_from
    pack_from_add memories used x relevant m e room fit = rw (room, pack_from) (rw (fit, pack_from))

    Packs-add :
        (memories : List (SearchResultMemory Number)) (used : ℕ)
        (x : ValidatedSearchCandidate Number × Number) (m : SearchResultMemory Number) (e : ℕ)
        → (length memories == limit) ≡ false
        → IsFit x.0 x.1 (budget - used - separator_tokens memories) m e
        → Packs limit budget memories used
        → Packs limit budget (memories ++ m ∷ []) (used + (separator_tokens memories + e))
    Packs-add memories used x m e room fit v =
        let pos : 1 ≤ e =
          omega (arith, fit.counted, estimate_tokens_pos (render_context_entry m)) in
        record {
          counted = ground (arith, length-append memories (m ∷ []));
          spent = omega (arith, fit.within);
          covered = inr (omega (arith, covered-snoc memories m used v.covered, fit.counted));
        }

    pack_from-Packs :
        (memories : List (SearchResultMemory Number)) (used : ℕ)
        (relevant : List (ValidatedSearchCandidate Number × Number))
        → Packs limit budget memories used
        → (final : ℕ) × Packs limit budget (pack_from limit budget memories used relevant) final
    unfolding pack_from
    pack_from-Packs memories used [] v = (used, v)
    pack_from-Packs memories used (x ∷ relevant) v = elim (Bool-cases (length memories == limit)) [
      | inl full ↦ (used, rw (pack_from_full memories used x relevant full) v)
      | inr room ↦
          elim (Option-cases
            (fit_memory_to_context_budget x.0 x.1 (budget - used - separator_tokens memories))) [
              | inl unfit ↦
                  rw (pack_from_skip memories used x relevant room unfit)
                    (pack_from-Packs memories used relevant v)
              | inr ((m, e), fit) ↦
                  let f = fit_memory_to_context_budget-IsFit x.0 x.1 _ m e fit in
                  rw (pack_from_add memories used x relevant m e room fit) (
                    pack_from-Packs (memories ++ m ∷ []) (used + (separator_tokens memories + e))
                      relevant (Packs-add memories used x m e room f v))
            ]
    ]

  -- The packed memories are at most as many as the limit allows, and the context pack made of them
  -- costs at most the token budget, which is at least 1.
  pub pack_memories-within :
      (limit budget : ℕ) (relevant : List (ValidatedSearchCandidate Number × Number))
      → 1 ≤ budget
      → (length (pack_memories limit budget relevant) ≤ limit)
        × (estimate_tokens (build_context_pack (pack_memories limit budget relevant)) ≤ budget)
  unfolding pack_memories build_context_pack
  pack_memories-within limit budget relevant h =
      let (final, v) =
        pack_from-Packs limit budget [] 0 relevant
          (record { counted = omega arith; spent = omega arith; covered = inl refl }) in
      (
        v.counted,
        elim v.covered [
          | inl nothing ↦
              omega
                (arith, ap (λ ms. estimate_tokens (build_context_pack ms)) nothing, estimate-empty)
          | inr cost ↦ omega (arith, cost, v.spent)
        ],
      )
