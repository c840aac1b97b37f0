-- ===== src/Base/Decimal.antt =====
-- Decimal numerals as the language prints and reads them: `${n}`, and `Number(s)` on digits.
use Prim.Native.Nat.{ℕ, zero, suc, ◌+◌, ◌-◌, ◌*◌, ◌/◌, ◌%◌, ◌<◌}
use mathlib.Core.Path.{◌≡◌, refl, sym, ◌∙◌, ap}
use mathlib.Core.Bool.{Bool, true, false, ◌&&◌, ◌||◌}
use mathlib.Core.Logic.{inl, inr}
use mathlib.Core.List.{[], ◌∷◌, ◌++◌, append_assoc, append-nil}
use native.Mathlib.Omega.{arith}
use edgemneme.Base.Tests.{leb, ltb, if◌then◌else◌, Bool-cases}
use edgemneme.Base.Texts.{Text}
use edgemneme.Base.Lists.{all}

abbrev pub is_digit : ℕ → Bool
is_digit c = leb b'0' c && leb c b'9'

abbrev pub is_lower : ℕ → Bool
is_lower c = leb b'a' c && leb c b'z'

abbrev pub is_upper : ℕ → Bool
is_upper c = leb b'A' c && leb c b'Z'

abbrev pub is_hex : ℕ → Bool
is_hex c = is_digit c || (leb b'a' c && leb c b'f') || (leb b'A' c && leb c b'F')

-- `Number.MAX_SAFE_INTEGER`
abbrev pub max_safe_integer : ℕ
max_safe_integer = 9007199254740991

-- The digits of a number before `rest`, most significant first; the fuel bounds their count.
digits_before : ℕ → ℕ → Text → Text
digits_before zero n rest = rest
digits_before (suc fuel) n rest =
    let longer = digits_before fuel (n / 10) ((b'0' + n % 10) ∷ rest) in
    if ltb n 10 then (b'0' + n) ∷ rest else longer

unfoldable pub decimal : ℕ → Text
unfolding digits_before
decimal n = digits_before (suc n) n []

value_from : ℕ → Text → ℕ
value_from acc [] = acc
value_from acc (c ∷ s) = value_from (acc * 10 + (c - b'0')) s

unfoldable pub decimal_value : Text → ℕ
unfolding value_from
decimal_value s = value_from 0 s

-- The pattern `0|[1-9][0-9]*`, anchored at both ends.
unfoldable pub is_canonical_decimal : Text → Bool
is_canonical_decimal [] = false
is_canonical_decimal (c ∷ []) = is_digit c
is_canonical_decimal (c ∷ d ∷ s) = leb b'1' c && leb c b'9' && all is_digit (d ∷ s)

digits_before_value :
    (fuel n : ℕ) (rest : Text)
    → n < fuel
    → value_from 0 (digits_before fuel n rest) ≡ value_from n rest
unfolding digits_before value_from
digits_before_value zero n rest h = absurd (omega arith)
digits_before_value (suc fuel) n rest h = elim (Bool-cases (ltb n 10)) [
  | inl small ↦ rw small (ap (λ v. value_from v rest) (omega arith))
  | inr big ↦ rw big (
      digits_before_value fuel (n / 10) ((b'0' + n % 10) ∷ rest) (ground arith)
      ∙ ap (λ v. value_from v rest) (omega arith))
]

-- Reading a printed number gives it back.
pub decimal_value-decimal : (n : ℕ) → decimal_value (decimal n) ≡ n
unfolding decimal decimal_value value_from
decimal_value-decimal n = digits_before_value (suc n) n [] (omega arith)

digits_before_canonical :
    (fuel n : ℕ) (rest : Text)
    → n < fuel
    → 0 < n
    → all is_digit rest ≡ true
    → is_canonical_decimal (digits_before fuel n rest) ≡ true
unfolding digits_before is_canonical_decimal
digits_before_canonical zero n rest h p d = absurd (omega arith)
digits_before_canonical (suc fuel) n [] h p d = elim (Bool-cases (ltb n 10)) [
  | inl small ↦ ground arith
  | inr big ↦
      rw big (digits_before_canonical fuel (n / 10) _ (ground arith) (ground arith) (ground arith))
]
digits_before_canonical (suc fuel) n (r ∷ rest) h p d = elim (Bool-cases (ltb n 10)) [
  | inl small ↦ ground arith
  | inr big ↦
      rw big (digits_before_canonical fuel (n / 10) _ (ground arith) (ground arith) (ground arith))
]

-- A printed number has the canonical form.
pub decimal-canonical : (n : ℕ) → is_canonical_decimal (decimal n) ≡ true
unfolding decimal is_canonical_decimal
decimal-canonical zero = refl
decimal-canonical (suc n) =
    digits_before_canonical (suc (suc n)) (suc n) [] (omega arith) (omega arith) refl

-- The digits stand before the rest, and fuel above the number does not matter.
digits_before-append :
    (fuel n : ℕ) (rest : Text) → digits_before fuel n rest ≡ digits_before fuel n [] ++ rest
unfolding digits_before
digits_before-append zero n rest = refl
digits_before-append (suc fuel) n rest = elim (Bool-cases (ltb n 10)) [
  | inl small ↦ rw small
  | inr big ↦ rw big (
      digits_before-append fuel (n / 10) ((b'0' + n % 10) ∷ rest)
      ∙ sym (append_assoc (digits_before fuel (n / 10) []) ((b'0' + n % 10) ∷ []) rest)
      ∙ ap (λ t. t ++ rest) (sym (digits_before-append fuel (n / 10) ((b'0' + n % 10) ∷ []))))
]

digits_before_fuel :
    (fuel more n : ℕ) (rest : Text)
    → n < fuel
    → n < more
    → digits_before fuel n rest ≡ digits_before more n rest
unfolding digits_before
digits_before_fuel zero more n rest h k = absurd (omega arith)
digits_before_fuel (suc fuel) zero n rest h k = absurd (omega arith)
digits_before_fuel (suc fuel) (suc more) n rest h k = elim (Bool-cases (ltb n 10)) [
  | inl small ↦ rw small
  | inr big ↦ rw big (digits_before_fuel fuel more (n / 10) _ (ground arith) (ground arith))
]

decimal_step : (n d : ℕ) → 0 < n → d < 10 → decimal (n * 10 + d) ≡ decimal n ++ (b'0' + d) ∷ []
unfolding decimal digits_before
decimal_step n d h k =
    let big : ltb (n * 10 + d) 10 ≡ false = ground arith in
    let q : (n * 10 + d) / 10 ≡ n = omega arith in
    let r : (n * 10 + d) % 10 ≡ d = omega arith in
    rw big (
      rw (q, r)
        (digits_before-append (n * 10 + d) n ((b'0' + d) ∷ [])
          ∙ ap (λ t. t ++ (b'0' + d) ∷ [])
              (digits_before_fuel (n * 10 + d) (suc n) n [] (omega arith) (omega arith))))

decimal-value_from :
    (acc : ℕ) (s : Text)
    → 0 < acc
    → all is_digit s ≡ true
    → decimal (value_from acc s) ≡ decimal acc ++ s
unfolding value_from
decimal-value_from acc [] h d = sym (append-nil _)
decimal-value_from acc (c ∷ s) h d =
    let e : b'0' + (c - b'0') ≡ c = ground arith in
    decimal-value_from (acc * 10 + (c - b'0')) s (omega arith) (ground arith)
    ∙ ap (λ t. t ++ s) (decimal_step acc (c - b'0') h (ground arith))
    ∙ append_assoc (decimal acc) _ s
    ∙ ap (λ x. decimal acc ++ x ∷ s) e

decimal_digit : (c : ℕ) → is_digit c ≡ true → decimal (0 + (c - b'0')) ≡ c ∷ []
unfolding decimal digits_before
decimal_digit c h = ground arith

-- Printing what a canonical numeral stands for gives the numeral back.
pub decimal-decimal_value :
    (s : Text) → is_canonical_decimal s ≡ true → decimal (decimal_value s) ≡ s
unfolding is_canonical_decimal decimal_value value_from
decimal-decimal_value [] h = cc
decimal-decimal_value (c ∷ []) h = decimal_digit c h
decimal-decimal_value (c ∷ d ∷ s) h =
    decimal-value_from (0 * 10 + (c - b'0')) (d ∷ s) (ground arith) (ground arith)
    ∙ ap (λ t. t ++ d ∷ s) (decimal_digit c (ground arith))
