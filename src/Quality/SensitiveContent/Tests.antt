-- ===== src/Quality/SensitiveContent/Tests.antt =====
-- src/quality/sensitive-content.ts: tests, and the theorems at a concrete value.
use edgemneme.Base.{
  ℕ, ◌+◌, ◌≡◌, refl, Bool, true, false, Option, some, [], ◌∷◌, map, Text, codes, if◌then◌else◌,
  utf8_length, text_eq, ends_with, is_upper,
}
use edgemneme.Quality.SensitiveContent.{
  CandidateInspection, accepted, Patterns, sensitive, too_large, contains_sensitive_assignment,
  contains_payment_card_number, contains_phone_number, contains_chinese_resident_id,
  has_high_entropy_token,
}
use edgemneme.Quality.SensitiveContent.Keys.{has_sensitive_semantic_key}
use edgemneme.Quality.SensitiveContent.Numbers.{
  passes_luhn_checksum, is_chinese_mobile_number, is_north_american_phone_number,
  has_valid_resident_id_birth_date, has_valid_resident_id_checksum,
}
use edgemneme.Quality.SensitiveContent.Values.{JsValue, Heap, inspect_memory_model_value}
use edgemneme.Quality.SensitiveContent.ModelValues.{
  IsFit, inspect_memory_model_value-IsFit, inspect_memory_model_value_total,
}

luhn_test : passes_luhn_checksum (codes "4111111111111111") ≡ true
unfolding passes_luhn_checksum
luhn_test = refl

luhn_wrong_test : passes_luhn_checksum (codes "4111111111111112") ≡ false
unfolding passes_luhn_checksum
luhn_wrong_test = refl

resident_test : has_valid_resident_id_checksum (codes "11010519491231002X") ≡ true
unfolding has_valid_resident_id_checksum
resident_test = refl

leap_day_test : has_valid_resident_id_birth_date (codes "110105200002290021") ≡ true
unfolding has_valid_resident_id_birth_date
leap_day_test = refl

no_leap_day_test : has_valid_resident_id_birth_date (codes "110105190002290021") ≡ false
unfolding has_valid_resident_id_birth_date
no_leap_day_test = refl

phone_test : is_north_american_phone_number (codes "12125550123") ≡ true
unfolding is_north_american_phone_number
phone_test = refl

service_test : is_north_american_phone_number (codes "2115550123") ≡ false
unfolding is_north_american_phone_number
service_test = refl

mobile_test : is_chinese_mobile_number (codes "13800138000") ≡ true
unfolding is_chinese_mobile_number
mobile_test = refl

abbrev lower : Text → Text
lower value = map (λ c. if is_upper c then c + 32 else c) value

abbrev key_test : Text → Bool
key_test key = has_sensitive_semantic_key lower key

camel_test : key_test (codes "userApiKey") ≡ true
unfolding has_sensitive_semantic_key text_eq ends_with
camel_test = refl

plural_test : key_test (codes "max_tokens") ≡ false
unfolding has_sensitive_semantic_key text_eq ends_with
plural_test = refl

-- No pattern matches: what the code decides by itself is left.
abbrev patterns : Patterns
patterns = record {
  normalize_nfkc = λ content. content;
  to_lower_case = lower;
  detector_test = λ name content. false;
  assigned_names = λ content. [];
  payment_card_candidates = λ content. [];
  has_international_phone = λ content. false;
  has_formatted_phone = λ content. false;
  has_formatted_local_phone = λ content. false;
  labeled_phone_candidates = λ content. [];
  contiguous_phone_candidates = λ content. [];
  has_technical_numeric_context = λ content offset. false;
  resident_id_candidates = λ content. [];
  token_candidates = λ content. [];
  entropy_at_least = λ counts size. false;
  has_chat_marker = λ content. false;
  has_instruction = λ content. false;
  has_system_role = λ content. false;
  role_markers = λ content. [];
  is_timestamped_log_line = λ line. false;
  is_log_line = λ line. false;
}

abbrev heap : Heap
heap =
    ((codes "title", JsValue.string (codes "a")) ∷ [])
    ∷ ((codes "inner", JsValue.object 0) ∷ (codes "note", JsValue.string (codes "b")) ∷ [])
    ∷ ((codes "itself", JsValue.object 2) ∷ [])
    ∷ ((codes "password", JsValue.other) ∷ [])
    ∷ []

abbrev inspected : ℕ → Option CandidateInspection
inspected address =
    inspect_memory_model_value patterns (λ h v. some []) 100 heap (JsValue.object address)

accepted_test : inspected 1 ≡ some accepted
unfolding inspect_memory_model_value utf8_length contains_sensitive_assignment
    contains_payment_card_number contains_phone_number contains_chinese_resident_id
    has_high_entropy_token text_eq has_sensitive_semantic_key ends_with
accepted_test = refl

-- An object that holds itself.
cycle_test : inspected 2 ≡ some too_large
unfolding inspect_memory_model_value utf8_length contains_sensitive_assignment
    contains_payment_card_number contains_phone_number contains_chinese_resident_id
    has_high_entropy_token text_eq has_sensitive_semantic_key ends_with
cycle_test = refl

password_test : inspected 3 ≡ some (sensitive (codes "sensitive-field-name"))
unfolding inspect_memory_model_value utf8_length contains_sensitive_assignment
    contains_payment_card_number contains_phone_number contains_chinese_resident_id
    has_high_entropy_token text_eq has_sensitive_semantic_key ends_with
password_test = refl

inspect_memory_model_value-IsFit_example :
    IsFit patterns (λ h v. some []) 100 heap (JsValue.object 1)
inspect_memory_model_value-IsFit_example =
    inspect_memory_model_value-IsFit patterns (λ h v. some []) 100 heap (JsValue.object 1)
      accepted_test

inspect_memory_model_value_total_example :
    (inspection : CandidateInspection) × (inspected 2 ≡ some inspection)
inspect_memory_model_value_total_example =
    inspect_memory_model_value_total patterns (λ h v. some []) 100 heap (JsValue.object 2)
