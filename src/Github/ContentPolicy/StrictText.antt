-- ===== src/Github/ContentPolicy/StrictText.antt =====
-- src/github/content-policy.ts: when a blob is text.
use edgemneme.Base.{
  ℕ, ◌≤◌, ◌≡◌, ◌↔◌, inl, inr, sym, ◌∙◌, Option, none, some, List, Text, arith, ltb, length, any,
  All, Bool-cases, Option-cases,
}
use edgemneme.Github.ContentPolicy.{
  Classification, DeclaredSize, natural, classify_excluded_path, starts_with, count_control_bytes,
  check_declared, decode_strictly, classify_content, classify_bytes, classify_github_blob_bytes,
}
use edgemneme.Github.ContentPolicy.Paths.{normalize_path}
use edgemneme.Github.ContentPolicy.Tables.{binary_signatures}
use edgemneme.Github.ContentPolicy.Bytes.{
  IsPlainByte, IsUnsigned, IsDeclared, check_declared-none, IsDeclared-check_declared,
  any-IsUnsigned, IsUnsigned-any, count-All, All-count, All-nonzero, classify_excluded_path_short,
}

module _ (decode : List ℕ → Option Text) where
  IsContent : List ℕ → ℕ → Text → Type 0
  IsContent bytes n t =
      (n ≡ length bytes)
      × IsUnsigned binary_signatures bytes
      × All IsPlainByte bytes
      × (decode bytes ≡ some t)

  decode_strictly-text :
      (bytes : List ℕ) (n : ℕ) (t : Text)
      → decode_strictly decode bytes ≡ Classification.text n t
      → (n ≡ length bytes) × (decode bytes ≡ some t)
  unfolding decode_strictly
  decode_strictly-text bytes n t h = elim (Option-cases (decode bytes)) [
    | inl e ↦ let h' = rw (e, decode_strictly) at h in cc
    | inr (s, e) ↦ let h' = rw (e, decode_strictly) at h in (cc, cc)
  ]

  classify_content-text :
      (bytes : List ℕ) (n : ℕ) (t : Text)
      → classify_content decode bytes ≡ Classification.text n t
      → IsContent bytes n t
  unfolding classify_content IsContent
  classify_content-text bytes n t h =
      elim (Bool-cases (any (starts_with bytes) binary_signatures)) [
        | inl signed ↦ ground arith
        | inr unsigned ↦
            let none_counted : count_control_bytes bytes ≡ 0 = ground arith in
            let strict : decode_strictly decode bytes ≡ Classification.text n t = ground arith in
            let (measured, decoded) = decode_strictly-text bytes n t strict in
            (
              measured,
              any-IsUnsigned binary_signatures bytes unsigned,
              count-All bytes none_counted,
              decoded,
            )
      ]

  content_is_text :
      (bytes : List ℕ) (n : ℕ) (t : Text)
      → IsContent bytes n t
      → classify_content decode bytes ≡ Classification.text n t
  unfolding classify_content IsContent
  content_is_text bytes n t (measured, unsigned, plain, decoded) =
      rw
        (
          IsUnsigned-any binary_signatures bytes unsigned,
          All-nonzero bytes plain,
          All-count bytes plain,
        )
        (rw (decoded, decode_strictly, measured) (ground arith))

  classify_bytes-text :
      (bytes : List ℕ) (declared : Option DeclaredSize) (n : ℕ) (t : Text)
      → classify_bytes decode bytes declared ≡ Classification.text n t
      → (length bytes ≤ 65536)
        × (check_declared declared (length bytes) ≡ none)
        × (classify_content decode bytes ≡ Classification.text n t)
  unfolding classify_bytes
  classify_bytes-text bytes declared n t h = elim (Bool-cases (ltb 65536 (length bytes))) [
    | inl long ↦ ground arith
    | inr short ↦ (ground arith, ground arith, ground arith)
  ]

  bytes_are_text :
      (bytes : List ℕ) (declared : Option DeclaredSize) (n : ℕ) (t : Text)
      → length bytes ≤ 65536
      → check_declared declared (length bytes) ≡ none
      → classify_content decode bytes ≡ Classification.text n t
      → classify_bytes decode bytes declared ≡ Classification.text n t
  unfolding classify_bytes
  bytes_are_text bytes declared n t short honest h = ground arith

module _ (to_lower_case : Text → Text) (decode : List ℕ → Option Text) where
  -- What a blob of text is: its path is not excluded, it is within the limit, it has the declared size
  -- if there is one, it begins with no signature, its bytes are plain, and they decode to the text.
  pub record IsStrictText (path : Text) (bytes : List ℕ) (declared : Option DeclaredSize) (n : ℕ)
      (t : Text) : Type 0 where
    pub kept : classify_excluded_path (normalize_path to_lower_case path) none ≡ none
    pub measured : n ≡ length bytes
    pub short : length bytes ≤ 65536
    pub honest : IsDeclared declared (length bytes)
    pub unsigned : IsUnsigned binary_signatures bytes
    pub plain : All IsPlainByte bytes
    pub decoded : decode bytes ≡ some t

  classify_github_blob_bytes-kept :
      (path : Text) (bytes : List ℕ) (declared : Option DeclaredSize) (n : ℕ) (t : Text)
      → classify_github_blob_bytes to_lower_case decode path bytes declared
        ≡ Classification.text n t
      → (classify_excluded_path (normalize_path to_lower_case path) (some (natural (length bytes)))
          ≡ none)
        × (classify_bytes decode bytes declared ≡ Classification.text n t)
  unfolding classify_github_blob_bytes
  classify_github_blob_bytes-kept path bytes declared n t h = ground arith

  kept_as_text :
      (path : Text) (bytes : List ℕ) (declared : Option DeclaredSize) (n : ℕ) (t : Text)
      → classify_excluded_path (normalize_path to_lower_case path) (some (natural (length bytes)))
        ≡ none
      → classify_bytes decode bytes declared ≡ Classification.text n t
      → classify_github_blob_bytes to_lower_case decode path bytes declared
        ≡ Classification.text n t
  unfolding classify_github_blob_bytes
  kept_as_text path bytes declared n t kept h = ground arith

  -- A blob is classified as text exactly when its path is not excluded, it has at most 65536 bytes, the
  -- declared size, if there is one, is its length, it begins with no known signature, it has no NUL and
  -- no control character but tabs and line ends, and its bytes decode to the text that is returned.
  pub classify_github_blob_bytes-text_iff :
      (path : Text) (bytes : List ℕ) (declared : Option DeclaredSize) (n : ℕ) (t : Text)
      → (classify_github_blob_bytes to_lower_case decode path bytes declared
          ≡ Classification.text n t)
        ↔ IsStrictText path bytes declared n t
  unfolding IsContent
  classify_github_blob_bytes-text_iff path bytes declared n t = (
    λ h.
        let (outside, classified) = classify_github_blob_bytes-kept path bytes declared n t h in
        let (short, honest, content) = classify_bytes-text decode bytes declared n t classified in
        let (measured, unsigned, plain, decoded) = classify_content-text decode bytes n t content in
        record {
          kept = sym (classify_excluded_path_short _ _ short) ∙ outside;
          measured = measured;
          short = short;
          honest = check_declared-none declared _ honest;
          unsigned = unsigned;
          plain = plain;
          decoded = decoded;
        },
    λ s. kept_as_text path bytes declared n t (classify_excluded_path_short _ _ s.short ∙ s.kept) (
        bytes_are_text decode bytes declared n t s.short
          (IsDeclared-check_declared declared _ s.short s.honest)
          (content_is_text decode bytes n t (s.measured, s.unsigned, s.plain, s.decoded))),
  )
