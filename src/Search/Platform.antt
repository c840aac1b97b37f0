-- ===== src/Search/Platform.antt =====
-- What the search library takes from the JavaScript runtime: floating-point numbers, dates, Unicode
-- tables and collation. They are parameters of the model.
pub mod Sample
use edgemneme.Base.{ℕ, Bool, List, Text, Ordering, if◌then◌else◌}

pub record Platform : Type 1 where
  pub Number : Type 0
  -- `a < b`, `a === b`, `Number.isFinite`, and the arithmetic
  pub lt : Number → Number → Bool
  pub number_eq : Number → Number → Bool
  pub is_finite : Number → Bool
  pub of_ℕ : ℕ → Number
  pub add : Number → Number → Number
  pub sub : Number → Number → Number
  pub mul : Number → Number → Number
  pub div : Number → Number → Number
  pub sqrt : Number → Number
  -- `Math.max(...)`, `Math.min(...)`, `Number.NEGATIVE_INFINITY` and a decimal literal in thousandths
  pub maximum : List Number → Number
  pub minimum : List Number → Number
  pub negative_infinity : Number
  pub of_thousandths : ℕ → Number
  -- `a.localeCompare(b)`
  pub locale_compare : Text → Text → Ordering
  -- `Date.parse(s)`, `new Date(s).toISOString()`, `new Date().toISOString()`
  pub date_parse : Text → Number
  pub to_iso_string : Text → Text
  pub now_iso_string : Text
  -- `s.normalize("NFKC")`, `s.toLowerCase()`
  pub nfkc : Text → Text
  pub to_lower_case : Text → Text
  -- the matches of `/[\p{L}\p{N}_]+/gu`
  pub word_tokens : Text → List Text

module _ (p : Platform) where
  open p use {Number, lt}

  -- The sign of `right - left`, as a comparator that sorts by a number in descending order.
  abbrev pub descending : Number → Number → Ordering
  descending left right =
      if lt right left then Ordering.lt else (if lt left right then Ordering.gt else Ordering.eq)
