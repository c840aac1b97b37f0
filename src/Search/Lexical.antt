-- ===== src/Search/Lexical.antt =====
-- src/search/lexical.ts: the full-text query made of a search's words.
use edgemneme.Base.{
  ℕ, zero, suc, ◌+◌, ◌-◌, ◌/◌, Bool, false, Option, none, some, List, [], ◌∷◌, ◌++◌, map, Text,
  codes, leb, ◌==◌, if◌then◌else◌, is_empty, length, includes, is_white_space, trim,
}
use edgemneme.Search.Platform.{Platform}
use edgemneme.Search.Budget.{join}

pub record NormalizedLexicalQuery : Type 0 where
  pub normalized_text : Text
  pub tokens : List Text
  pub fts_query : Option Text

abbrev pub max_tokens : ℕ
max_tokens = 20

abbrev pub max_token_length : ℕ
max_token_length = 128

-- `s.slice(0, n)` in UTF-16 units; a pair that is cut leaves its first surrogate.
unfoldable pub slice_start : ℕ → Text → Text
slice_start zero s = []
slice_start (suc n) [] = []
slice_start (suc zero) (c ∷ s) = (if leb c 0xffff then c else 0xd800 + (c - 0x10000) / 0x400) ∷ []
slice_start (suc (suc n)) (c ∷ s) =
    let one = slice_start (suc n) s in
    let two = slice_start n s in if leb c 0xffff then c ∷ one else c ∷ two

-- `s.replace(/\s+/gu, " ")`; `in_space` says that the run before was replaced already.
unfoldable pub collapse_spaces : Bool → Text → Text
collapse_spaces in_space [] = []
collapse_spaces in_space (c ∷ s) =
    let rest = collapse_spaces (is_white_space c) s in
    if is_white_space c then (if in_space then rest else 32 ∷ rest) else c ∷ rest

-- `token.replaceAll('"', '""')`
abbrev pub double_quotes : Text → Text
double_quotes [] = []
double_quotes (c ∷ s) = if c == b'"' then b'"' ∷ b'"' ∷ double_quotes s else c ∷ double_quotes s

unfoldable pub quote_fts_token : Text → Text
quote_fts_token token = b'"' ∷ double_quotes token ++ b'"' ∷ []

-- The loop over the matches: `tokens` and `seen` hold the same texts.
pub collect_tokens : List Text → List Text → List Text
unfolding slice_start
collect_tokens tokens [] = tokens
collect_tokens tokens (match ∷ matches) =
    let token = slice_start max_token_length match in
    let skipped = collect_tokens tokens matches in
    let longer = collect_tokens (tokens ++ token ∷ []) matches in
    if includes tokens token
    then skipped
    else (if length tokens + 1 == max_tokens then tokens ++ token ∷ [] else longer)

module _ (p : Platform) where
  open p use {nfkc, to_lower_case, word_tokens}

  unfoldable pub normalize_lexical_query : Text → NormalizedLexicalQuery
  unfolding collect_tokens quote_fts_token collapse_spaces
  normalize_lexical_query query =
      let normalized_text = to_lower_case (collapse_spaces false (trim (nfkc query))) in
      let tokens = collect_tokens [] (word_tokens normalized_text) in
      record {
        normalized_text = normalized_text;
        tokens = tokens;
        fts_query =
            if is_empty tokens
            then none
            else some (join (codes " AND ") (map quote_fts_token tokens));
      }
