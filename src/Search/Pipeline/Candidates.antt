-- ===== src/Search/Pipeline/Candidates.antt =====
-- src/search/pipeline.ts: what the stages of a search keep of the candidates.
use mathlib.Core.List.{Memᴰ}
use edgemneme.Base.{
  ◌≡◌, sym, All-Memᴰ, All-of_Memᴰ, refl, ◌≢◌, inl, inr, true, false, not, ◌&&◌, none, some, Option,
  List, [], ◌∷◌, Text, arith, is_empty, ne_nil_of_is_empty, filter, map_get, map_set, All,
  All-append, All-map, All-map_set, All-map_get, All-sort, Bool-cases,
}
use edgemneme.Search.Types.{
  SearchScopeFilter, HardFilterPlan, ValidatedSearchCandidate, FusedRecallHit,
}
use edgemneme.Search.Platform.{Platform}
use edgemneme.Search.Planning.{passes_hard_filters}
use edgemneme.Search.Planning.Laws.{InScope, passes_hard_filters_iff}
use edgemneme.Search.Ranking.{recall_identity, deduplicate_candidates}
use edgemneme.Search.Ranking.Dedup.{deduplicate_candidates-All}
use edgemneme.Search.Pipeline.{
  RerankedCandidate, candidate_identity, index_by, with_recall_score, current_candidates,
  set_relevance, relevance_by_identity, compare_relevant, Relevant, improves,
}
use edgemneme.Search.Pipeline.Stages.{evidence_backed, relevant_candidates}

module _ (p : Platform) where
  open p use {Number, lt, is_finite, of_thousandths}

  index_by-All {ℓ κ} :
      {A : Type ℓ} (P : Text × A → Type κ) (identity : A → Text) (m : List (Text × A)) (xs : List A)
      → All P m
      → All (λ x. P (identity x, x)) xs
      → All P (index_by p identity m xs)
  index_by-All P identity m [] h k = h
  index_by-All P identity m (x ∷ xs) h (q, k) =
      index_by-All P identity (map_set (identity x) x m) xs (All-map_set P (identity x) x m q h) k

  -- What an index finds is of the list, and has the identity that was asked for.
  map_get-index_by {ℓ} :
      {A : Type ℓ} (identity : A → Text) (xs : List A) (key : Text) (x : A)
      → map_get key (index_by p identity [] xs) ≡ some x
      → Memᴰ x xs × (identity x ≡ key)
  map_get-index_by identity xs key x =
      All-map_get (λ e. Memᴰ e.1 xs × (identity e.1 ≡ e.0)) key x (index_by p identity [] xs)
        (index_by-All (λ e. Memᴰ e.1 xs × (identity e.1 ≡ e.0)) identity [] xs tt
          (All-of_Memᴰ (λ a. Memᴰ a xs × (identity a ≡ identity a)) xs (λ a i. (i, refl))))

  -- A relevance is what the reranker gave to the candidate of this identity.
  pub record IsReranked (reranked : List (RerankedCandidate p)) (x : Relevant p) : Type 0 where
    pub item : RerankedCandidate p
    pub present : Memᴰ item reranked
    pub named : candidate_identity p item.candidate ≡ candidate_identity p x.0
    pub given : item.relevance ≡ x.1

  module _ (P : ValidatedSearchCandidate Number → Type 0)
      (all_reranked : List (RerankedCandidate p)) (minimum : Number) where
    -- A candidate that satisfies `P`, with a relevance of the reranker's that is finite and not below the
    -- minimum.
    abbrev pub Scored : Relevant p → Type 0
    Scored x = P x.0 × (is_finite x.1 ≡ true) × (lt x.1 minimum ≡ false) × IsReranked all_reranked x

    set_relevance-All :
        (item : RerankedCandidate p) (o : Option (ValidatedSearchCandidate Number))
        (m : List (Text × Relevant p))
        → Memᴰ item all_reranked
        → ((c : ValidatedSearchCandidate Number)
            → o ≡ some c
            → P c × (candidate_identity p c ≡ candidate_identity p item.candidate))
        → All (λ e. Scored e.1) m
        → All
            (λ e. Scored e.1)
            (set_relevance p minimum (candidate_identity p item.candidate) item.relevance o m)
    set_relevance-All item none m i q h = h
    set_relevance-All item (some c) m i q h =
        let identity = candidate_identity p item.candidate in
        let (holds, same) = q c refl in
        elim (Bool-cases (
          is_finite item.relevance
          && not (lt item.relevance minimum)
          && improves p item.relevance (map_get identity m))) [
            | inr kept ↦ rw kept h
            | inl better ↦
                let reranked : IsReranked all_reranked (c, item.relevance) = record {
                  item = item;
                  present = i;
                  named = sym same;
                  given = refl;
                } in
                rw better (
                  All-map_set (λ (e : Text × Relevant p). Scored e.1) identity (c, item.relevance) m
                    (holds, ground arith, ground arith, reranked) h)
          ]

    relevance_by_identity-All :
        (diversified : List (Text × ValidatedSearchCandidate Number)) (m : List (Text × Relevant p))
        (reranked : List (RerankedCandidate p))
        → ((key : Text) (c : ValidatedSearchCandidate Number)
            → map_get key diversified ≡ some c
            → P c × (candidate_identity p c ≡ key))
        → All (λ item. Memᴰ item all_reranked) reranked
        → All (λ e. Scored e.1) m
        → All (λ e. Scored e.1) (relevance_by_identity p minimum diversified m reranked)
    unfolding relevance_by_identity
    relevance_by_identity-All diversified m [] h i k = k
    relevance_by_identity-All diversified m (item ∷ reranked) h (i, is) k =
        let identity = candidate_identity p item.candidate in
        relevance_by_identity-All diversified
          (set_relevance p minimum identity item.relevance (map_get identity diversified) m)
          reranked h is (set_relevance-All item (map_get identity diversified) m i (h identity) k)

  pub relevant_candidates-All :
      (P : ValidatedSearchCandidate Number → Type 0) (minimum : Number)
      (diversified : List (ValidatedSearchCandidate Number)) (reranked : List (RerankedCandidate p))
      → All P diversified
      → All (Scored P reranked minimum) (relevant_candidates p minimum diversified reranked)
  unfolding relevant_candidates
  relevant_candidates-All P minimum diversified reranked h =
      let indexed = index_by p (candidate_identity p) [] diversified in
      All-sort (compare_relevant p) (Scored P reranked minimum) _ (
        All-map (Scored P reranked minimum) (λ (e : Text × Relevant p). e.1)
          (relevance_by_identity p minimum indexed [] reranked)
          (relevance_by_identity-All P reranked minimum indexed [] reranked
            (λ key c e.
              let (i, same) = map_get-index_by (candidate_identity p) diversified key c e in
              (All-Memᴰ P diversified h i, same))
            (All-of_Memᴰ (λ a. Memᴰ a reranked) reranked (λ a i. i)) tt))

  abbrev pub Passes : HardFilterPlan → ValidatedSearchCandidate Number → Type 0
  Passes f c = passes_hard_filters p c f ≡ true

  rescored-InScope :
      (o : Option SearchScopeFilter) (c : ValidatedSearchCandidate Number) (score : Number)
      → InScope p o c
      → InScope p o (record c { retrieval_score = score })
  rescored-InScope none c score h = tt
  rescored-InScope (some s) c score h = h

  -- The filters do not look at the score.
  rescored-Passes :
      (f : HardFilterPlan) (c : ValidatedSearchCandidate Number) (score : Number)
      → Passes f c
      → Passes f (record c { retrieval_score = score })
  rescored-Passes f c score h =
      let q = (passes_hard_filters_iff p c f).0 h in
      (passes_hard_filters_iff p (record c { retrieval_score = score }) f).1 (record {
        project = q.project;
        generation = q.generation;
        status = q.status;
        kind = q.kind;
        memory_class = q.memory_class;
        scope = rescored-InScope f.scope c score q.scope;
        begun = q.begun;
        not_over = q.not_over;
      })

  -- A candidate is one that the validator returned, with the score of the fused hit of its identity.
  pub record IsRecalled (fused : List (FusedRecallHit Number))
      (authoritative : List (ValidatedSearchCandidate Number)) (c : ValidatedSearchCandidate Number)
      : Type 0 where
    pub validated : ValidatedSearchCandidate Number
    pub returned : Memᴰ validated authoritative
    pub hit : FusedRecallHit Number
    pub found : Memᴰ hit fused
    pub named : recall_identity hit.hit ≡ candidate_identity p validated
    pub scored : c ≡ record validated { retrieval_score = hit.retrieval_score }

  module _ (f : HardFilterPlan) (fused : List (FusedRecallHit Number))
      (all_authoritative : List (ValidatedSearchCandidate Number)) where
    abbrev pub Current : ValidatedSearchCandidate Number → Type 0
    Current c = Passes f c × IsRecalled fused all_authoritative c

    with_recall_score-All :
        (c : ValidatedSearchCandidate Number) (o : Option (FusedRecallHit Number))
        → Passes f c
        → Memᴰ c all_authoritative
        → ((hit : FusedRecallHit Number)
            → o ≡ some hit
            → Memᴰ hit fused × (recall_identity hit.hit ≡ candidate_identity p c))
        → All Current (with_recall_score p c o)
    with_recall_score-All c none h i q = tt
    with_recall_score-All c (some hit) h i q =
        let (found, same) = q hit refl in
        let recalled : IsRecalled fused all_authoritative
            (record c { retrieval_score = hit.retrieval_score }) =
          record {
            validated = c;
            returned = i;
            hit = hit;
            found = found;
            named = same;
            scored = refl;
          } in
        ((rescored-Passes f c hit.retrieval_score h, recalled), tt)

    authoritative-All :
        (authoritative : List (ValidatedSearchCandidate Number))
        → All (λ c. Memᴰ c all_authoritative) authoritative
        → All Current (
            current_candidates p f
              (index_by p (λ (h : FusedRecallHit Number). recall_identity h.hit) [] fused)
              authoritative)
    unfolding current_candidates
    authoritative-All [] is = tt
    authoritative-All (c ∷ authoritative) (i, is) =
        let identity = λ (h : FusedRecallHit Number). recall_identity h.hit in
        let recalled = index_by p identity [] fused in
        elim (Bool-cases (passes_hard_filters p c f)) [
          | inr fails ↦ rw fails (authoritative-All authoritative is)
          | inl passes ↦ rw passes (
              All-append Current _ _
                (with_recall_score-All c (map_get (candidate_identity p c) recalled) passes i
                  (map_get-index_by identity fused (candidate_identity p c)))
                (authoritative-All authoritative is))
        ]

    pub current_candidates-All : All Current (
        current_candidates p f
          (index_by p (λ (h : FusedRecallHit Number). recall_identity h.hit) [] fused)
          all_authoritative)
    current_candidates-All =
        authoritative-All all_authoritative
          (All-of_Memᴰ (λ a. Memᴰ a all_authoritative) all_authoritative (λ a i. i))

    -- A candidate that passes the filters, was recalled and validated, and has evidence.
    abbrev pub Usable : ValidatedSearchCandidate Number → Type 0
    Usable c = Current c × (c.evidence_ids ≢ [])

    backed-All :
        (cs : List (ValidatedSearchCandidate Number))
        → All Current cs
        → All Usable
            (filter (λ (c : ValidatedSearchCandidate Number). not (is_empty c.evidence_ids)) cs)
    backed-All [] h = tt
    backed-All (c ∷ cs) (q, h) = elim (Bool-cases (is_empty c.evidence_ids)) [
      | inl bare ↦ rw bare (backed-All cs h)
      | inr cited ↦ rw cited ((q, ne_nil_of_is_empty c.evidence_ids cited), backed-All cs h)
    ]

    pub evidence_backed-All :
        (cs : List (ValidatedSearchCandidate Number))
        → All Current cs
        → All Usable (evidence_backed p cs)
    unfolding evidence_backed
    evidence_backed-All cs h =
        backed-All (deduplicate_candidates p cs) (deduplicate_candidates-All p Current cs h)
