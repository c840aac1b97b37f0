-- ===== src/Search/Platform/Sample.antt =====
-- A runtime for the tests: numbers are counts of thousandths, dates are read as their length, texts stay as they are.
use edgemneme.Base.{
  ℕ, ◌+◌, ◌-◌, ◌*◌, ◌/◌, true, [], ◌∷◌, codes, ltb, ◌==◌, max, min, length, compare_text,
}
use mathlib.Core.List.{foldr}
use edgemneme.Search.Platform.{Platform}

abbrev pub sample_platform : Platform
sample_platform = record {
  Number = ℕ;
  lt = ltb;
  number_eq = ◌==◌;
  is_finite = λ x. true;
  of_ℕ = λ n. n * 1000;
  add = ◌+◌;
  sub = ◌-◌;
  mul = λ a b. a * b / 1000;
  div = λ a b. a * 1000 / b;
  sqrt = λ x. x;
  maximum = foldr max 0;
  minimum = foldr min 1000000;
  negative_infinity = 0;
  of_thousandths = λ n. n;
  locale_compare = compare_text;
  date_parse = length;
  to_iso_string = λ s. s;
  now_iso_string = codes "2026-01-01T00:00:00.000Z";
  nfkc = λ s. s;
  to_lower_case = λ s. s;
  word_tokens = λ s. s ∷ [];
}
