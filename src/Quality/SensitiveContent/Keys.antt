-- ===== src/Quality/SensitiveContent/Keys.antt =====
-- src/quality/sensitive-content.ts: names that say that a value is a secret.
use edgemneme.Base.{
  Bool, false, ◌&&◌, ◌||◌, List, [], ◌∷◌, ◌++◌, map, Text, codes, if◌then◌else◌, any, is_digit,
  text_eq, ends_with, split, filter_nonempty, is_lower, is_upper,
}

-- `value.replace(/([a-z0-9])([A-Z])/gu, "$1_$2")`; the first argument is whether a small letter or a
-- digit stands before.
unfoldable pub separate_words : Bool → Text → Text
separate_words after_small [] = []
separate_words after_small (c ∷ s) =
    let rest = c ∷ separate_words (is_lower c || is_digit c) s in
    if after_small && is_upper c then b'_' ∷ rest else rest

-- `split(/[^a-z0-9]+/u).filter(Boolean)`
unfoldable pub tokens_of : Text → List Text
unfolding split filter_nonempty
tokens_of normalized =
    filter_nonempty
      (split b'_' (map (λ c. if is_lower c || is_digit c then c else b'_') normalized))

unfoldable pub is_sensitive_token : Text → Bool
is_sensitive_token token =
    text_eq token (codes "password")
    || text_eq token (codes "secret")
    || text_eq token (codes "token")
    || ends_with token (codes "password")
    || ends_with token (codes "secret")
    || ends_with token (codes "token")
    || ends_with token (codes "apikey")
    || ends_with token (codes "accesstoken")

abbrev pub is_sensitive_pair : Text → Bool
is_sensitive_pair pair = text_eq pair (codes "api_key") || text_eq pair (codes "access_token")

unfoldable pub has_sensitive_pair : List Text → Bool
has_sensitive_pair [] = false
has_sensitive_pair (token ∷ []) = false
has_sensitive_pair (token ∷ next ∷ tokens) =
    is_sensitive_pair (token ++ b'_' ∷ next) || has_sensitive_pair (next ∷ tokens)

module _ (to_lower_case : Text → Text) where
  unfoldable pub has_sensitive_semantic_key : Text → Bool
  unfolding separate_words tokens_of is_sensitive_token has_sensitive_pair
  has_sensitive_semantic_key value =
      let tokens = tokens_of (to_lower_case (separate_words false value)) in
      any is_sensitive_token tokens || has_sensitive_pair tokens
