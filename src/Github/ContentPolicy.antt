-- ===== src/Github/ContentPolicy.antt =====
-- src/github/content-policy.ts: which blobs of a repository are text, and why the others are not.
-- `to_lower_case` is the language's, and `decode` is the strict decoding of UTF-8, `none` where it throws.
pub mod Tables
pub mod Paths
pub mod Bytes
pub mod StrictText
pub mod Decisions
mod Tests
use edgemneme.Base.{
  ℕ, zero, suc, ◌+◌, ◌*◌, ◌^◌, ◌-◌, max, Bool, true, false, not, ◌&&◌, ◌||◌, Option, none, some,
  List, [], ◌∷◌, Text, ltb, leb, ◌==◌, if◌then◌else◌, length, any, includes, is_prefix, split,
  filter_nonempty, max_safe_integer,
}
use edgemneme.Github.ContentPolicy.Tables.{
  github_blob_transport_limit_bytes, generated_directory_names, binary_signatures,
}
use edgemneme.Github.ContentPolicy.Paths.{
  normalize_path, is_minified_or_generated_file, has_binary_extension, is_lockfile,
}

pub data BinaryReason : Type 0 where
  known_binary_extension known_binary_format nul_byte excessive_control_bytes : BinaryReason

pub data GeneratedReason : Type 0 where
  generated_path minified_path large_lockfile : GeneratedReason

pub data PartialReason : Type 0 where
  transport_limit_exceeded declared_size_mismatch invalid_declared_size : PartialReason
  invalid_utf8 ambiguous_control_bytes : PartialReason

-- The length of the blob is `none` where the field is absent.
pub data ExcludedClassification : Type 0 where
  binary_excluded : BinaryReason → Option ℕ → ExcludedClassification
  generated_excluded : GeneratedReason → Option ℕ → ExcludedClassification

pub data Classification : Type 0 where
  text : ℕ → Text → Classification
  excluded : ExcludedClassification → Classification
  partial : PartialReason → Option ℕ → Classification

pub data PathDecision : Type 0 where
  inspect : PathDecision
  exclude : ExcludedClassification → PathDecision
  partial : PartialReason → Option ℕ → PathDecision

-- A number that a caller declares as a size: a natural number, or one that is negative, not finite
-- or not whole.
pub data DeclaredSize : Type 0 where
  natural : ℕ → DeclaredSize
  other : DeclaredSize

unfoldable pub is_valid_byte_length : DeclaredSize → Bool
is_valid_byte_length (natural value) = leb value max_safe_integer
is_valid_byte_length other = false

abbrev pub exceeds_limit : DeclaredSize → Bool
exceeds_limit (natural value) = ltb github_blob_transport_limit_bytes value
exceeds_limit other = false

abbrev pub is_large : Option DeclaredSize → Bool
unfolding is_valid_byte_length
is_large none = false
is_large (some size) = is_valid_byte_length size && exceeds_limit size

-- The classification that the path alone gives.
unfoldable pub classify_excluded_path : Text → Option DeclaredSize → Option ExcludedClassification
unfolding is_valid_byte_length
classify_excluded_path normalized_path byte_length =
    if any (includes generated_directory_names) (filter_nonempty (split b'/' normalized_path))
    then some (ExcludedClassification.generated_excluded generated_path none)
    else if is_minified_or_generated_file normalized_path
    then some (ExcludedClassification.generated_excluded minified_path none)
    else if has_binary_extension normalized_path
    then some (ExcludedClassification.binary_excluded known_binary_extension none)
    else if is_large byte_length && is_lockfile normalized_path
    then some (ExcludedClassification.generated_excluded large_lockfile none)
    else none

unfoldable pub classify_size : Option DeclaredSize → PathDecision
classify_size none = PathDecision.inspect
classify_size (some size) =
    if not (is_valid_byte_length size)
    then PathDecision.partial invalid_declared_size none
    else if exceeds_limit size
    then PathDecision.partial transport_limit_exceeded none
    else PathDecision.inspect

-- `{ ...excluded, byteLength }`
abbrev pub with_byte_length : ExcludedClassification → ℕ → ExcludedClassification
with_byte_length (ExcludedClassification.binary_excluded reason _) n =
    ExcludedClassification.binary_excluded reason (some n)
with_byte_length (ExcludedClassification.generated_excluded reason _) n =
    ExcludedClassification.generated_excluded reason (some n)

unfoldable pub starts_with : List ℕ → List ℕ → Bool
starts_with bytes signature =
    if ltb (length bytes) (length signature) then false else is_prefix signature bytes

abbrev pub is_control_byte : ℕ → Bool
is_control_byte byte =
    (ltb byte 0x20 && not (byte == 0x09) && not (byte == 0x0a) && not (byte == 0x0d))
    || byte == 0x7f

unfoldable pub count_control_bytes : List ℕ → ℕ
count_control_bytes [] = 0
count_control_bytes (byte ∷ bytes) =
    (if is_control_byte byte then 1 else 0) + count_control_bytes bytes

-- `count / Math.max(byteLength, 1) > 0.05`: for a quotient of two numbers below 2 ^ 53 that is not
-- equal to 1 / 20, its rounding and that of 1 / 20 are on the same sides.
abbrev pub exceeds_ratio : ℕ → ℕ → Bool
exceeds_ratio count byte_length = ltb (max byte_length 1) (20 * count)

-- The declared size is present and is not that of the bytes.
unfoldable pub check_declared : Option DeclaredSize → ℕ → Option PartialReason
check_declared none byte_length = none
check_declared (some other) byte_length = some invalid_declared_size
check_declared (some (natural size)) byte_length =
    if not (leb size max_safe_integer)
    then some invalid_declared_size
    else if not (size == byte_length)
    then some declared_size_mismatch
    else none

module _ (decode : List ℕ → Option Text) where
  unfoldable pub decode_strictly : List ℕ → Classification
  decode_strictly bytes = elim (decode bytes) [
    | none ↦ Classification.partial invalid_utf8 (some (length bytes))
    | some decoded ↦ Classification.text (length bytes) decoded
  ]

  unfoldable pub classify_content : List ℕ → Classification
  unfolding decode_strictly starts_with count_control_bytes
  classify_content bytes =
      let byte_length = length bytes in
      let control_byte_count = count_control_bytes bytes in
      if any (starts_with bytes) binary_signatures
      then Classification.excluded
          (ExcludedClassification.binary_excluded known_binary_format (some byte_length))
      else if any (λ byte. byte == 0) bytes
      then Classification.excluded
          (ExcludedClassification.binary_excluded nul_byte (some byte_length))
      else if exceeds_ratio control_byte_count byte_length
      then Classification.excluded
          (ExcludedClassification.binary_excluded excessive_control_bytes (some byte_length))
      else if ltb 0 control_byte_count
      then Classification.partial ambiguous_control_bytes (some byte_length)
      else decode_strictly bytes

  unfoldable pub classify_bytes : List ℕ → Option DeclaredSize → Classification
  unfolding classify_content check_declared
  classify_bytes bytes declared_byte_length =
      if ltb github_blob_transport_limit_bytes (length bytes)
      then Classification.partial transport_limit_exceeded (some (length bytes))
      else elim (check_declared declared_byte_length (length bytes)) [
        | some reason ↦ Classification.partial reason (some (length bytes))
        | none ↦ classify_content bytes
      ]

module _ (to_lower_case : Text → Text) where
  unfoldable pub classify_github_blob_path : Text → Option DeclaredSize → PathDecision
  unfolding classify_size
  classify_github_blob_path path byte_length =
      elim (classify_excluded_path (normalize_path to_lower_case path) byte_length) [
        | some exclusion ↦ PathDecision.exclude exclusion
        | none ↦ classify_size byte_length
      ]

module _ (to_lower_case : Text → Text) (decode : List ℕ → Option Text) where
  unfoldable pub classify_github_blob_bytes : Text → List ℕ → Option DeclaredSize → Classification
  unfolding classify_bytes
  classify_github_blob_bytes path bytes declared_byte_length =
      elim (classify_excluded_path (normalize_path to_lower_case path)
        (some (natural (length bytes)))) [
          | some exclusion ↦ Classification.excluded (with_byte_length exclusion (length bytes))
          | none ↦ classify_bytes decode bytes declared_byte_length
        ]
