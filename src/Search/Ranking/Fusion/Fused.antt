-- ===== src/Search/Ranking/Fusion/Fused.antt =====
-- src/search/ranking.ts: the fused hits are those that some channel recalls, with their scores.
use mathlib.Core.List.{Memᴰ}
use edgemneme.Base.{
  ℕ, ◌+◌, ◌≡◌, refl, sym, ◌∙◌, ap, subst, inl, inr, none, some, List, [], ◌∷◌, ok, arith, Text,
  Bool-cases, Option-cases, includes, text_eq, text_eq_iff, map_get, map_values, HasDistinctKeys,
  map_set-HasDistinctKeys, All-map_set, map_get-entries, All, All-imp, All-map, All-zip, All-sort,
  sort, Memᴰ-sort, All-map_get, map_get-Memᴰ, Result-cases, ok-injective,
}
use edgemneme.Search.Types.{RecallHit, RecallSet, FusedRecallHit}
use edgemneme.Search.Platform.{Platform}
use edgemneme.Search.Ranking.{
  recall_identity, Fusing, contribution, merge_hit, fuse_hit, fuse_hits, fuse_sets, compare_fused,
  fuse_reciprocal_ranks,
}
use edgemneme.Search.Ranking.Fusion.{fused_score, score_at, fused_sets-score}

module _ (p : Platform) (active_generation : Text) (rrf_constant : p.Number) where
  open p use {Number}

  abbrev Entries : Type 0
  Entries = List (Text × FusedRecallHit Number)

  -- An entry stands under its hit's identity, and the hit is of the active generation.
  abbrev IsEntry : Text × FusedRecallHit Number → Type 0
  IsEntry e = (e.0 ≡ recall_identity e.1.hit) × (e.1.hit.index_generation ≡ active_generation)

  record IsFused (m : Entries) : Type 0 where
    distinct : HasDistinctKeys m
    entries : All IsEntry m

  merge-IsEntry :
      (set : RecallSet Number) (hit : RecallHit Number) (share : Number) (m : Entries)
      → hit.index_generation ≡ active_generation
      → All IsEntry m
      → IsEntry (recall_identity hit, merge_hit p set hit share (map_get (recall_identity hit) m))
  merge-IsEntry set hit share m g h = elim (Option-cases (map_get (recall_identity hit) m)) [
    | inl missing ↦ rw missing (refl, g)
    | inr (f, found) ↦
        let (same, active) = All-map_get IsEntry (recall_identity hit) f m h found in
        rw found (same, active)
  ]

  fuse_hit-IsFused :
      (set : RecallSet Number) (s : Fusing p) (index : ℕ) (hit : RecallHit Number)
      → IsFused s.fused
      → IsFused (fuse_hit p set active_generation rrf_constant s index hit).fused
  unfolding fuse_hit
  fuse_hit-IsFused set s index hit v =
      let own = recall_identity hit in
      let share = contribution p set rrf_constant index in
      elim (Bool-cases (text_eq hit.index_generation active_generation)) [
        | inr other ↦ rw other v
        | inl active ↦ elim (Bool-cases (includes s.seen_in_channel own)) [
          | inl seen ↦ rw (active, seen) v
          | inr new ↦
              let g = (text_eq_iff hit.index_generation active_generation).0 active in
              rw (active, new)
                (record {
                  distinct = map_set-HasDistinctKeys own _ s.fused v.distinct;
                  entries =
                      All-map_set IsEntry own _ s.fused
                        (merge-IsEntry set hit share s.fused g v.entries) v.entries;
                })
        ]
      ]

  fuse_hits-IsFused :
      (set : RecallSet Number) (s : Fusing p) (index : ℕ) (hits : List (RecallHit Number))
      → IsFused s.fused
      → IsFused (fuse_hits p set active_generation rrf_constant s index hits).fused
  unfolding fuse_hits
  fuse_hits-IsFused set s index [] v = v
  fuse_hits-IsFused set s index (hit ∷ hits) v =
      fuse_hits-IsFused set (fuse_hit p set active_generation rrf_constant s index hit) (index + 1)
        hits (fuse_hit-IsFused set s index hit v)

  fuse_sets-IsFused :
      (fused : Entries) (sets : List (RecallSet Number)) (result : Entries)
      → fuse_sets p sets active_generation rrf_constant fused ≡ ok result
      → IsFused fused
      → IsFused result
  unfolding fuse_sets
  fuse_sets-IsFused fused [] result h v = subst IsFused (ok-injective h) v
  fuse_sets-IsFused fused (set ∷ sets) result h v =
      let start : Fusing p = record { fused = fused; seen_in_channel = [] } in
      let next = (fuse_hits p set active_generation rrf_constant start 0 set.hits).fused in
      let rest : fuse_sets p sets active_generation rrf_constant next ≡ ok result = ground arith in
      fuse_sets-IsFused next sets result rest (fuse_hits-IsFused set start 0 set.hits v)

  score-some :
      (key : Text) (f : FusedRecallHit Number) (m : Entries)
      → map_get key m ≡ some f
      → score_at p active_generation rrf_constant key m ≡ some f.retrieval_score
  unfolding score_at
  score-some key f m h = rw (h, score_at)

  score-inv :
      (key : Text) (x : Number) (m : Entries)
      → score_at p active_generation rrf_constant key m ≡ some x
      → (f : FusedRecallHit Number) × (map_get key m ≡ some f) × (f.retrieval_score ≡ x)
  unfolding score_at
  score-inv key x m h = elim (Option-cases (map_get key m)) [
    | inl missing ↦ absurd (ground arith)
    | inr (f, found) ↦ (f, found, ground arith)
  ]

  empty-IsFused : IsFused []
  empty-IsFused = record { distinct = tt; entries = tt }

  -- The map that is sorted, if fusing succeeds.
  fused_map :
      (sets : List (RecallSet Number)) (result : List (FusedRecallHit Number))
      → fuse_reciprocal_ranks p sets active_generation rrf_constant ≡ ok result
      → (m : Entries) × (fuse_sets p sets active_generation rrf_constant [] ≡ ok m)
        × (sort (compare_fused p) (map_values m) ≡ result)
  unfolding fuse_reciprocal_ranks
  fused_map sets result h =
      elim (Result-cases (fuse_sets p sets active_generation rrf_constant [])) [
        | inl (m, done) ↦ (m, done, ground arith)
        | inr (e, failed) ↦ absurd (ground arith)
      ]

  abbrev pub IsScored : List (RecallSet Number) → FusedRecallHit Number → Type 0
  IsScored sets f =
      (f.hit.index_generation ≡ active_generation)
      × (fused_score p active_generation rrf_constant (recall_identity f.hit) none sets
          ≡ some f.retrieval_score)

  -- A fused hit is of the active generation, and its score is the sum of the shares of the channels
  -- that recall it, each counted once, at the first rank there.
  pub fuse_reciprocal_ranks-score :
      (sets : List (RecallSet Number)) (result : List (FusedRecallHit Number))
      → fuse_reciprocal_ranks p sets active_generation rrf_constant ≡ ok result
      → All (IsScored sets) result
  unfolding score_at map_get
  fuse_reciprocal_ranks-score sets result h =
      let (m, done, e) = fused_map sets result h in
      let v = fuse_sets-IsFused [] sets m done empty-IsFused in
      subst (All (IsScored sets)) e (
        All-sort (compare_fused p) (IsScored sets) (map_values m) (
          All-map (IsScored sets) (λ (x : Text × FusedRecallHit Number). x.1) m
            (All-imp _ (λ (x : Text × FusedRecallHit Number). IsScored sets x.1)
              (λ x q. (
                q.0.1,
                ap (λ k. fused_score p active_generation rrf_constant k none sets) (sym q.0.0)
                    ∙ sym (fused_sets-score p active_generation rrf_constant x.0 [] sets m done)
                    ∙ score-some x.0 x.1 m q.1,
              ))
              m
              (All-zip IsEntry (λ (x : Text × FusedRecallHit Number). map_get x.0 m ≡ some x.1) m
                v.entries (map_get-entries m v.distinct)))))

  -- Each identity that some channel recalls in the active generation is among the fused hits.
  pub fuse_reciprocal_ranks_complete :
      (sets : List (RecallSet Number)) (result : List (FusedRecallHit Number)) (key : Text)
      (x : Number)
      → fuse_reciprocal_ranks p sets active_generation rrf_constant ≡ ok result
      → fused_score p active_generation rrf_constant key none sets ≡ some x
      → (f : FusedRecallHit Number) × Memᴰ f result
        × (recall_identity f.hit ≡ key)
        × (f.retrieval_score ≡ x)
  unfolding score_at map_get
  fuse_reciprocal_ranks_complete sets result key x h q =
      let (m, done, e) = fused_map sets result h in
      let v = fuse_sets-IsFused [] sets m done empty-IsFused in
      let (f, found, same) =
        score-inv key x m
          (fused_sets-score p active_generation rrf_constant key [] sets m done ∙ q) in
      (
        f,
        subst (Memᴰ f) e (Memᴰ-sort (compare_fused p) (map_values m) (map_get-Memᴰ key f m found)),
        sym (All-map_get IsEntry key f m v.entries found).0,
        same,
      )
