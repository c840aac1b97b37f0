-- ===== src/Search/Types.antt =====
-- src/search/types.ts: the records that the stages of a search pass on. `Number` is the type of the
-- floating-point scores; an enumeration of strings is its text.
use edgemneme.Base.{ℕ, Bool, Option, List, Text}

pub record SearchScopeFilter : Type 0 where
  pub type : Text
  pub ids : List Text

-- `currentHeadsOnly` and `excludeExpired` are the constant `true` in the source's type.
pub record HardFilterPlan : Type 0 where
  pub project_id : Text
  pub authorized_repository_ids : Option (List Text)
  pub statuses : List Text
  pub kinds : Option (List Text)
  pub memory_classes : Option (List Text)
  pub scope : Option SearchScopeFilter
  pub valid_at : Text
  pub index_generation : Text

pub record ValidatedSearchCandidate (Number : Type 0) : Type 0 where
  pub project_id : Text
  pub memory_id : Text
  pub revision_id : Text
  pub memory_version : ℕ
  pub chunk_id : Text
  pub chunk_content : Text
  pub content_sha256 : Text
  pub kind : Text
  pub memory_class : Text
  pub scope : Text
  pub scope_id : Text
  pub status : Text
  pub valid_from : Option Text
  pub valid_until : Option Text
  pub evidence_ids : List Text
  pub retrieval_score : Number
  pub embedding : Option (List Number)
  pub index_generation : Text

pub record SearchResultMemory (Number : Type 0) : Type 0 where
  pub project_id : Text
  pub memory_id : Text
  pub revision_id : Text
  pub memory_version : ℕ
  pub chunk_id : Text
  pub content_sha256 : Text
  pub kind : Text
  pub memory_class : Text
  pub scope : Text
  pub scope_id : Text
  pub status : Text
  pub valid_from : Option Text
  pub valid_until : Option Text
  pub evidence_ids : List Text
  pub retrieval_score : Number
  pub index_generation : Text
  pub excerpt : Text
  pub excerpt_truncated : Bool
  pub relevance : Number

pub record RecallHit (Number : Type 0) : Type 0 where
  pub project_id : Text
  pub memory_id : Text
  pub revision_id : Text
  pub chunk_id : Text
  pub index_generation : Text
  pub source_score : Option Number
  pub channel : Option Text

pub record RecallSet (Number : Type 0) : Type 0 where
  pub channel : Text
  pub weight : Number
  pub hits : List (RecallHit Number)

-- The interface extends `RecallHit`: the fields of `hit` are the fused hit's.
pub record FusedRecallHit (Number : Type 0) : Type 0 where
  pub hit : RecallHit Number
  pub retrieval_score : Number
  pub channels : List Text
