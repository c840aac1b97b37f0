-- ===== src/Github/ContentPolicy/Decisions.antt =====
-- src/github/content-policy.ts: the decision on a path foretells the classification of the bytes.
use edgemneme.Base.{
  ℕ, ◌≤◌, ◌≡◌, ◌≢◌, inl, inr, refl, true, false, Option, none, some, List, Text, arith, ltb, leb,
  ◌==◌, length, any, Bool-cases, Option-cases, max_safe_integer,
}
use edgemneme.Github.ContentPolicy.{
  known_binary_extension, PartialReason, transport_limit_exceeded, ExcludedClassification,
  Classification, PathDecision, DeclaredSize, natural, with_byte_length, classify_excluded_path,
  classify_size, check_declared, decode_strictly, classify_content, classify_bytes,
  classify_github_blob_path, classify_github_blob_bytes, starts_with, exceeds_ratio,
  count_control_bytes, is_valid_byte_length,
}
use edgemneme.Github.ContentPolicy.Paths.{normalize_path}
use edgemneme.Github.ContentPolicy.Tables.{binary_signatures}

-- What the content alone may give: text, or a reason that names the content or the declared size.
abbrev pub IsContentResult : Classification → Type 0
IsContentResult (Classification.text n t) = Unit
IsContentResult (Classification.excluded (ExcludedClassification.binary_excluded reason n)) =
    reason ≢ known_binary_extension
IsContentResult (Classification.excluded (ExcludedClassification.generated_excluded reason n)) = ⊥
IsContentResult (Classification.partial reason n) = reason ≢ transport_limit_exceeded

-- The classification of `n` bytes that a decision on their path leaves open.
abbrev pub Admits : ℕ → PathDecision → Classification → Type 0
Admits n PathDecision.inspect result = IsContentResult result
Admits n (PathDecision.exclude exclusion) result =
    result ≡ Classification.excluded (with_byte_length exclusion n)
Admits n (PathDecision.partial reason unmeasured) result =
    result ≡ Classification.partial reason (some n)

module _ (decode : List ℕ → Option Text) where
  decode_strictly-IsContentResult :
      (bytes : List ℕ) → IsContentResult (decode_strictly decode bytes)
  unfolding decode_strictly
  decode_strictly-IsContentResult bytes = elim (Option-cases (decode bytes)) [
    | inl e ↦ rw (e, decode_strictly) (λ h. cc)
    | inr (t, e) ↦ rw (e, decode_strictly) tt
  ]

  classify_content-IsContentResult :
      (bytes : List ℕ) → IsContentResult (classify_content decode bytes)
  unfolding classify_content
  classify_content-IsContentResult bytes =
      elim (Bool-cases (any (starts_with bytes) binary_signatures)) [
        | inl signed ↦ rw signed (λ h. cc)
        | inr unsigned ↦ rw unsigned (elim (Bool-cases (any (λ byte. byte == 0) bytes)) [
          | inl nul ↦ rw nul (λ h. cc)
          | inr later ↦
              rw later
                (elim (Bool-cases (exceeds_ratio (count_control_bytes bytes) (length bytes))) [
                  | inl many ↦ rw many (λ h. cc)
                  | inr few ↦ rw few (elim (Bool-cases (ltb 0 (count_control_bytes bytes))) [
                    | inl some_left ↦ rw some_left (λ h. cc)
                    | inr clean ↦ rw clean (decode_strictly-IsContentResult bytes)
                  ])
                ])
        ])
      ]

  long-partial :
      (bytes : List ℕ) (declared : Option DeclaredSize)
      → ltb 65536 (length bytes) ≡ true
      → classify_bytes decode bytes declared
        ≡ Classification.partial transport_limit_exceeded (some (length bytes))
  unfolding classify_bytes
  long-partial bytes declared long = rw long

  check_declared-ne :
      (declared : Option DeclaredSize) (n : ℕ) (reason : PartialReason)
      → check_declared declared n ≡ some reason
      → reason ≢ transport_limit_exceeded
  unfolding check_declared
  check_declared-ne none n reason h e = cc
  check_declared-ne (some DeclaredSize.other) n reason h e = cc
  check_declared-ne (some (natural m)) n reason h e = ground arith

  short-IsContentResult :
      (bytes : List ℕ) (declared : Option DeclaredSize)
      → ltb 65536 (length bytes) ≡ false
      → IsContentResult (classify_bytes decode bytes declared)
  unfolding classify_bytes
  short-IsContentResult bytes declared short =
      elim (Option-cases (check_declared declared (length bytes))) [
        | inl fits ↦ rw (short, fits) (classify_content-IsContentResult bytes)
        | inr (reason, e) ↦ rw (short, e) (check_declared-ne declared (length bytes) reason e)
      ]

  classify_size-Admits :
      (bytes : List ℕ) (declared : Option DeclaredSize)
      → length bytes ≤ max_safe_integer
      → Admits
          (length bytes)
          (classify_size (some (natural (length bytes))))
          (classify_bytes decode bytes declared)
  unfolding classify_size is_valid_byte_length
  classify_size-Admits bytes declared h =
      let valid : leb (length bytes) max_safe_integer ≡ true = ground arith in
      elim (Bool-cases (ltb 65536 (length bytes))) [
        | inl long ↦ rw (valid, long) (long-partial bytes declared long)
        | inr short ↦ rw (valid, short) (short-IsContentResult bytes declared short)
      ]

module _ (to_lower_case : Text → Text) (decode : List ℕ → Option Text) where
  -- What the code does on an excluded path, and on another.
  excluded_path :
      (path : Text) (bytes : List ℕ) (declared : Option DeclaredSize) (e : ExcludedClassification)
      → classify_excluded_path (normalize_path to_lower_case path) (some (natural (length bytes)))
        ≡ some e
      → (classify_github_blob_path to_lower_case path (some (natural (length bytes)))
          ≡ PathDecision.exclude e)
        × (classify_github_blob_bytes to_lower_case decode path bytes declared
            ≡ Classification.excluded (with_byte_length e (length bytes)))
  unfolding classify_github_blob_path classify_github_blob_bytes
  excluded_path path bytes declared e h =
      (rw (h, classify_github_blob_path), rw (h, classify_github_blob_bytes))

  kept_path :
      (path : Text) (bytes : List ℕ) (declared : Option DeclaredSize)
      → classify_excluded_path (normalize_path to_lower_case path) (some (natural (length bytes)))
        ≡ none
      → (classify_github_blob_path to_lower_case path (some (natural (length bytes)))
          ≡ classify_size (some (natural (length bytes))))
        × (classify_github_blob_bytes to_lower_case decode path bytes declared
            ≡ classify_bytes decode bytes declared)
  unfolding classify_github_blob_path classify_github_blob_bytes
  kept_path path bytes declared h =
      (rw (h, classify_github_blob_path), rw (h, classify_github_blob_bytes))

  -- When the path is first decided with the length of the blob, which is a safe integer, the bytes are
  -- classified as decided: an excluded path gives its disposition and reason, with the length; a
  -- partial decision gives a partial result with its reason; and after a decision to inspect, the
  -- result is not a generated file, a known binary extension or a blob over the limit. The size that is
  -- declared with the bytes does not matter.
  pub classify_github_blob_bytes-Admits :
      (path : Text) (bytes : List ℕ) (declared : Option DeclaredSize)
      → length bytes ≤ max_safe_integer
      → Admits
          (length bytes)
          (classify_github_blob_path to_lower_case path (some (natural (length bytes))))
          (classify_github_blob_bytes to_lower_case decode path bytes declared)
  classify_github_blob_bytes-Admits path bytes declared h' =
      elim (Option-cases (
        classify_excluded_path (normalize_path to_lower_case path)
          (some (natural (length bytes))))) [
            | inl h ↦
                let (decided, classified) = kept_path path bytes declared h in
                rw (decided, classified) (classify_size-Admits decode bytes declared h')
            | inr (e, h) ↦
                let (decided, classified) = excluded_path path bytes declared e h in
                rw (decided, classified) refl
          ]
