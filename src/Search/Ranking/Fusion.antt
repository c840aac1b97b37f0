-- ===== src/Search/Ranking/Fusion.antt =====
-- src/search/ranking.ts: a fused score is the sum of the shares of the channels that recall the hit.
pub mod Fused
use mathlib.Core.List.{Memᴰ}
use edgemneme.Base.{
  ℕ, ◌+◌, ◌≡◌, refl, sym, ◌∙◌, ap, subst, inl, inr, Bool, true, false, not, ◌||◌, Option, none,
  some, List, [], ◌∷◌, map, ok, err, arith, Text, if◌then◌else◌, Bool-cases, Option-cases, includes,
  text_eq, text_eq_iff, map_get, map_set, map_get-map_set, map_values, HasDistinctKeys,
  map_set-HasDistinctKeys, All-map_set, map_get-entries, All, All-imp, All-map, All-zip, All-sort,
  sort, Memᴰ-sort, All-map_get, map_get-Memᴰ, Result-cases, ok-injective,
}
use edgemneme.Search.Types.{RecallHit, RecallSet, FusedRecallHit}
use edgemneme.Search.Platform.{Platform}
use edgemneme.Search.Ranking.{
  recall_identity, Fusing, contribution, merge_hit, fuse_hit, fuse_hits, fuse_sets, compare_fused,
  fuse_reciprocal_ranks,
}

module _ (p : Platform) (active_generation : Text) (rrf_constant : p.Number) where
  open p use {Number, add, is_finite, lt, of_ℕ}

  -- The place at which a channel first recalls a hit of the active generation with this identity.
  unfoldable pub first_rank : Text → ℕ → List (RecallHit Number) → Option ℕ
  first_rank key index [] = none
  first_rank key index (hit ∷ hits) =
      let later = first_rank key (index + 1) hits in
      if text_eq hit.index_generation active_generation
      then (if text_eq (recall_identity hit) key then some index else later)
      else later

  -- The score before, and the share that a channel adds if it recalls the hit.
  unfoldable pub add_share : RecallSet Number → Option Number → Option ℕ → Option Number
  add_share set score none = score
  add_share set none (some index) = some (contribution p set rrf_constant index)
  add_share set (some score) (some index) = some (add score (contribution p set rrf_constant index))

  -- The sum of the shares, channel by channel; `none` if no channel recalls the hit.
  unfoldable pub fused_score : Text → Option Number → List (RecallSet Number) → Option Number
  fused_score key score [] = score
  fused_score key score (set ∷ sets) =
      fused_score key (add_share set score (first_rank key 0 set.hits)) sets

  score_at : Text → List (Text × FusedRecallHit Number) → Option Number
  score_at key m = elim (map_get key m) [ none ↦ none | some f ↦ some f.retrieval_score ]

  score-map_set :
      (k j : Text) (f : FusedRecallHit Number) (m : List (Text × FusedRecallHit Number))
      → score_at j (map_set k f m) ≡ (if text_eq k j then some f.retrieval_score else score_at j m)
  unfolding score_at
  score-map_set k j f m = ground (arith, map_get-map_set k j f m)

  merge-score :
      (set : RecallSet Number) (hit : RecallHit Number) (index : ℕ)
      (m : List (Text × FusedRecallHit Number)) (key : Text)
      → some
          (merge_hit p set hit
            (contribution p set rrf_constant index)
            (map_get key m)).retrieval_score
        ≡ add_share set (score_at key m) (some index)
  unfolding score_at add_share
  merge-score set hit index m key = ground arith

  -- One channel: an identity that it has not seen gets its share once, at its first rank.
  fuse_hits-score :
      (set : RecallSet Number) (key : Text) (s : Fusing p) (index : ℕ)
      (hits : List (RecallHit Number))
      → score_at key (fuse_hits p set active_generation rrf_constant s index hits).fused ≡ (
          if includes s.seen_in_channel key
          then score_at key s.fused
          else add_share set (score_at key s.fused) (first_rank key index hits))
  unfolding fuse_hits first_rank fuse_hit add_share includes
  fuse_hits-score set key s index [] = ground arith
  fuse_hits-score set key s index (hit ∷ hits) =
      let next = fuse_hit p set active_generation rrf_constant s index hit in
      let ih = fuse_hits-score set key next (index + 1) hits in
      let own = recall_identity hit in
      let merged =
        merge_hit p set hit (contribution p set rrf_constant index) (map_get own s.fused) in
      ground (
        arith,
        ih,
        score-map_set own key merged s.fused,
        merge-score set hit index s.fused own,
        text_eq_iff own key,
      )

  fused_sets-score :
      (key : Text) (fused : List (Text × FusedRecallHit Number)) (sets : List (RecallSet Number))
      (result : List (Text × FusedRecallHit Number))
      → fuse_sets p sets active_generation rrf_constant fused ≡ ok result
      → score_at key result ≡ fused_score key (score_at key fused) sets
  unfolding fuse_sets fused_score add_share includes
  fused_sets-score key fused [] result h = ground arith
  fused_sets-score key fused (set ∷ sets) result h =
      let start : Fusing p = record { fused = fused; seen_in_channel = [] } in
      let next = (fuse_hits p set active_generation rrf_constant start 0 set.hits).fused in
      let rest : fuse_sets p sets active_generation rrf_constant next ≡ ok result = ground arith in
      fused_sets-score key next sets result rest
      ∙ ap (λ s. fused_score key s sets) (fuse_hits-score set key start 0 set.hits)
