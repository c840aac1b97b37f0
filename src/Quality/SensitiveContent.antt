-- ===== src/Quality/SensitiveContent.antt =====
-- src/quality/sensitive-content.ts: what text may be kept or sent to a model. The matches of the regular
-- expressions are fields of `Patterns`, as are the functions of the language on Unicode.
pub mod Numbers
pub mod Keys
pub mod Values
pub mod Rounds
pub mod Kept
pub mod Strings
pub mod ModelValues
mod Tests
use edgemneme.Base.{
  ℕ, zero, suc, ◌+◌, ◌-◌, ◌*◌, Bool, true, false, not, ◌&&◌, ◌||◌, Option, none, some, List, [],
  ◌∷◌, ◌++◌, map, reverse, Text, codes, ltb, leb, ◌==◌, if◌then◌else◌, length, any, all, filter,
  find, is_empty, trim, text_eq, utf8_length, split, is_digit, is_upper, is_hex,
}
use edgemneme.Quality.SensitiveContent.Keys.{has_sensitive_semantic_key}
use edgemneme.Quality.SensitiveContent.Numbers.{
  digits_of, has_two_digits, passes_luhn_checksum, is_chinese_mobile_number,
  is_north_american_phone_number, has_valid_resident_id_birth_date, has_valid_resident_id_checksum,
}

pub data TombstoneReason : Type 0 where
  sensitive_content content_too_large : TombstoneReason

pub data CandidateInspection : Type 0 where
  accepted : CandidateInspection
  tombstone : TombstoneReason → Option Text → CandidateInspection

-- `detector_test name` is the test of the pattern of DETECTORS with this name. A field whose name ends in
-- `_candidates` gives the matches that the code looks at, in order.
pub record Patterns : Type 0 where
  pub normalize_nfkc : Text → Text
  pub to_lower_case : Text → Text
  pub detector_test : Text → Text → Bool
  pub assigned_names : Text → List Text
  pub payment_card_candidates : Text → List Text
  pub has_international_phone : Text → Bool
  pub has_formatted_phone : Text → Bool
  pub has_formatted_local_phone : Text → Bool
  pub labeled_phone_candidates : Text → List Text
  pub contiguous_phone_candidates : Text → List (Text × ℕ)
  pub has_technical_numeric_context : Text → ℕ → Bool
  pub resident_id_candidates : Text → List Text
  pub token_candidates : Text → List Text
  pub entropy_at_least : List ℕ → ℕ → Bool
  pub has_chat_marker : Text → Bool
  pub has_instruction : Text → Bool
  pub has_system_role : Text → Bool
  pub role_markers : Text → List Text
  pub is_timestamped_log_line : Text → Bool
  pub is_log_line : Text → Bool

abbrev pub detector_names : List Text
detector_names =
    codes "private-key"
    ∷ codes "github-token"
    ∷ codes "provider-token"
    ∷ codes "aws-access-key"
    ∷ codes "assigned-secret"
    ∷ codes "credentialed-connection-string"
    ∷ codes "bearer-token"
    ∷ codes "email-address"
    ∷ codes "us-ssn"
    ∷ []

abbrev pub sensitive : Text → CandidateInspection
sensitive detector = tombstone sensitive_content (some detector)

abbrev pub too_large : CandidateInspection
too_large = tombstone content_too_large none

-- `counts.set(character, (counts.get(character) ?? 0) + 1)`, in a map of characters.
abbrev pub count_character : ℕ → List (ℕ × ℕ) → List (ℕ × ℕ)
count_character c [] = (c, 1) ∷ []
count_character c ((d, n) ∷ counts) =
    let rest = count_character c counts in if c == d then (d, n + 1) ∷ counts else (d, n) ∷ rest

abbrev pub count_characters : List (ℕ × ℕ) → Text → List ℕ
count_characters counts [] = map (λ (entry : ℕ × ℕ). entry.1) counts
count_characters counts (c ∷ s) = count_characters (count_character c counts) s

abbrev pub upper_case : Text → Text
upper_case identifier = map (λ c. if c == b'x' then b'X' else c) identifier

-- `content.replace(/\r\n?/gu, "\n")`
unfoldable pub with_line_feeds : Text → Text
with_line_feeds [] = []
with_line_feeds (c ∷ []) = (if c == 13 then 10 else c) ∷ []
with_line_feeds (c ∷ next ∷ s) =
    let after_pair = 10 ∷ with_line_feeds s in
    let after_one = (if c == 13 then 10 else c) ∷ with_line_feeds (next ∷ s) in
    if c == 13 && next == 10 then after_pair else after_one

abbrev pub memory_model_input_max_bytes : ℕ
memory_model_input_max_bytes = 16384

module _ (p : Patterns) where
  unfoldable pub contains_sensitive_assignment : Text → Bool
  contains_sensitive_assignment content =
      any (has_sensitive_semantic_key p.to_lower_case) (p.assigned_names content)

  unfoldable pub contains_payment_card_number : Text → Bool
  contains_payment_card_number content =
      any
        (λ candidate.
          has_two_digits (digits_of candidate) && passes_luhn_checksum (digits_of candidate))
        (p.payment_card_candidates content)

  unfoldable pub contains_phone_number : Text → Bool
  contains_phone_number content =
      if p.has_international_phone content
      then true
      else if p.has_formatted_phone content
      then true
      else if p.has_formatted_local_phone content
      then true
      else if any
          (λ candidate.
            leb 7 (length (digits_of candidate)) && leb (length (digits_of candidate)) 15)
          (p.labeled_phone_candidates content)
      then true
      else any
          (λ (candidate : Text × ℕ).
            not (p.has_technical_numeric_context content candidate.1)
            && (is_chinese_mobile_number candidate.0 || is_north_american_phone_number candidate.0))
          (p.contiguous_phone_candidates content)

  unfoldable pub contains_chinese_resident_id : Text → Bool
  contains_chinese_resident_id content =
      any
        (λ candidate.
          has_valid_resident_id_birth_date (upper_case candidate)
          && has_valid_resident_id_checksum (upper_case candidate))
        (p.resident_id_candidates content)

  unfoldable pub has_high_entropy_token : Text → Bool
  has_high_entropy_token content =
      any
        (λ candidate.
          if all is_hex candidate || all is_digit candidate
          then false
          else p.entropy_at_least (count_characters [] candidate) (length candidate))
        (p.token_candidates content)

  abbrev pub structured_pii_detectors : List (Text × (Text → Bool))
  structured_pii_detectors =
      (codes "payment-card", contains_payment_card_number)
      ∷ (codes "phone-number", contains_phone_number)
      ∷ (codes "cn-resident-id", contains_chinese_resident_id)
      ∷ []

  unfoldable pub inspect_candidate_content_representation : ℕ → Text → CandidateInspection
  inspect_candidate_content_representation max_bytes content =
      if ltb max_bytes (utf8_length content)
      then too_large
      else if contains_sensitive_assignment content
      then sensitive (codes "assigned-secret")
      else elim (find (λ name. p.detector_test name content) detector_names) [
        | some name ↦ sensitive name
        | none ↦
            elim (find (λ (detector : Text × (Text → Bool)). detector.1 content)
              structured_pii_detectors) [
                | some detector ↦ sensitive detector.0
                | none ↦
                    if has_high_entropy_token content
                    then sensitive (codes "high-entropy-token")
                    else accepted
              ]
      ]

  unfoldable pub inspect_candidate_content : ℕ → Text → CandidateInspection
  unfolding inspect_candidate_content_representation
  inspect_candidate_content max_bytes content =
      elim (inspect_candidate_content_representation max_bytes content) [
        | tombstone reason detector ↦ tombstone reason detector
        | accepted ↦
            if text_eq (p.normalize_nfkc content) content
            then accepted
            else inspect_candidate_content_representation max_bytes (p.normalize_nfkc content)
      ]

  unfoldable pub looks_like_prompt_transcript : Text → Bool
  unfolding with_line_feeds
  looks_like_prompt_transcript content =
      let normalized = with_line_feeds content in
      p.has_chat_marker normalized
      || p.has_instruction normalized
      || p.has_system_role normalized
      || leb 2 (length (p.role_markers normalized))

  unfoldable pub looks_like_raw_log : Text → Bool
  unfolding with_line_feeds split trim
  looks_like_raw_log content =
      let lines = split 10 (with_line_feeds content) in
      if any p.is_timestamped_log_line lines
      then true
      else let log_lines = length (filter p.is_log_line lines) in
        let nonempty_lines = length (filter (λ line. not (is_empty (trim line))) lines) in
        leb 3 log_lines && leb nonempty_lines (log_lines * 2)

  unfoldable pub inspect_model_input : ℕ → Text → CandidateInspection
  unfolding inspect_candidate_content looks_like_prompt_transcript looks_like_raw_log
  inspect_model_input max_bytes content = elim (inspect_candidate_content max_bytes content) [
    | tombstone reason detector ↦ tombstone reason detector
    | accepted ↦
        let normalized = p.normalize_nfkc content in
        if looks_like_prompt_transcript content || looks_like_prompt_transcript normalized
        then sensitive (codes "prompt-transcript")
        else if looks_like_raw_log content || looks_like_raw_log normalized
        then sensitive (codes "raw-log")
        else accepted
  ]

  unfoldable pub inspect_sensitive_path : Text → CandidateInspection
  unfolding inspect_candidate_content
  inspect_sensitive_path path =
      if has_sensitive_semantic_key p.to_lower_case path
      then sensitive (codes "sensitive-path")
      else inspect_candidate_content 4096 path
