-- ===== src/Github/ContentPolicy/Tests.antt =====
-- src/github/content-policy.ts: tests, and the theorems at concrete inputs.
use edgemneme.Base.{
  ℕ, ◌≡◌, refl, Option, none, some, List, ◌∷◌, Text, codes, arith, split, filter_nonempty, includes,
  text_eq, is_prefix, ends_with, from_last,
}
use edgemneme.Github.ContentPolicy.{
  ExcludedClassification, generated_path, minified_path, large_lockfile, known_binary_extension,
  known_binary_format, transport_limit_exceeded, declared_size_mismatch, ambiguous_control_bytes,
  excessive_control_bytes, Classification, PathDecision, natural, classify_excluded_path,
  DeclaredSize, classify_github_blob_path, classify_github_blob_bytes, starts_with,
  count_control_bytes,
}
use edgemneme.Github.ContentPolicy.Paths.{
  normalize_path, basename, has_generated_word, is_minified_or_generated_file, has_binary_extension,
  is_lockfile,
}
use edgemneme.Github.ContentPolicy.Decisions.{Admits, classify_github_blob_bytes-Admits}
use edgemneme.Github.ContentPolicy.StrictText.{IsStrictText, classify_github_blob_bytes-text_iff}

-- Enough for the tests: lower-case paths, and ASCII.
abbrev same : Text → Text
same path = path

abbrev ascii : List ℕ → Option Text
ascii bytes = some bytes

path_of : Option DeclaredSize → Text → PathDecision
unfolding classify_github_blob_path classify_excluded_path normalize_path split filter_nonempty
    includes text_eq is_minified_or_generated_file basename ends_with has_binary_extension
    is_lockfile
path_of size path = classify_github_blob_path same path size

generated_test :
    path_of none (codes "src/dist/a.ts")
    ≡ PathDecision.exclude (ExcludedClassification.generated_excluded generated_path none)
unfolding path_of
generated_test = refl

minified_test :
    path_of none (codes "lib/app.min.js")
    ≡ PathDecision.exclude (ExcludedClassification.generated_excluded minified_path none)
unfolding path_of
minified_test = refl

word_test :
    path_of none (codes "api_generated.ts")
    ≡ PathDecision.exclude (ExcludedClassification.generated_excluded minified_path none)
unfolding path_of has_generated_word is_prefix
word_test = refl

binary_test :
    path_of none (codes "docs\\logo.png")
    ≡ PathDecision.exclude (ExcludedClassification.binary_excluded known_binary_extension none)
unfolding path_of has_generated_word is_prefix from_last
binary_test = refl

lockfile_test :
    path_of (some (natural 65537)) (codes "yarn.lock")
    ≡ PathDecision.exclude (ExcludedClassification.generated_excluded large_lockfile none)
unfolding path_of has_generated_word is_prefix from_last
lockfile_test = refl

limit_test :
    path_of (some (natural 65537)) (codes "regenerated.ts")
    ≡ PathDecision.partial transport_limit_exceeded none
unfolding path_of has_generated_word is_prefix from_last
limit_test = refl

classified : Text → List ℕ → Option DeclaredSize → Classification
unfolding classify_github_blob_bytes classify_excluded_path normalize_path split filter_nonempty
    includes text_eq is_minified_or_generated_file basename ends_with has_binary_extension
    is_lockfile has_generated_word is_prefix from_last starts_with count_control_bytes
classified path bytes declared = classify_github_blob_bytes same ascii path bytes declared

text_test :
    classified (codes "README.md") (codes "hi") (some (natural 2))
    ≡ Classification.text 2 (codes "hi")
unfolding classified
text_test = refl

signature_test :
    classified (codes "a") (codes "%PDF-1") none
    ≡ Classification.excluded (ExcludedClassification.binary_excluded known_binary_format (some 6))
unfolding classified
signature_test = refl

mismatch_test :
    classified (codes "a") (codes "hi") (some (natural 3))
    ≡ Classification.partial declared_size_mismatch (some 2)
unfolding classified
mismatch_test = refl

-- One control byte in twenty is ambiguous, and one in nineteen is too many.
ambiguous_test :
    classified (codes "a") (7 ∷ codes "0123456789012345678") none
    ≡ Classification.partial ambiguous_control_bytes (some 20)
unfolding classified
ambiguous_test = refl

control_test :
    classified (codes "a") (7 ∷ codes "012345678901234567") none
    ≡ Classification.excluded
        (ExcludedClassification.binary_excluded excessive_control_bytes (some 19))
unfolding classified
control_test = refl

classify_github_blob_bytes-text_iff_example :
    IsStrictText same ascii (codes "README.md") (codes "hi") (some (natural 2)) 2 (codes "hi")
unfolding classified
classify_github_blob_bytes-text_iff_example =
    (classify_github_blob_bytes-text_iff same ascii (codes "README.md") (codes "hi")
        (some (natural 2)) 2 (codes "hi")).0
      text_test

classify_github_blob_bytes-Admits_example :
    Admits 2
      (PathDecision.exclude (ExcludedClassification.generated_excluded generated_path none))
      (classify_github_blob_bytes same ascii (codes "dist/a") (codes "hi") none)
unfolding path_of
classify_github_blob_bytes-Admits_example =
    classify_github_blob_bytes-Admits same ascii (codes "dist/a") (codes "hi") none (omega arith)
