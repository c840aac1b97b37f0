-- ===== src/Quality/SensitiveContent/Numbers.antt =====
-- src/quality/sensitive-content.ts: the checks of numbers that identify a person or an account.
use edgemneme.Base.{
  ℕ, ◌+◌, ◌-◌, ◌*◌, ◌%◌, Bool, true, false, not, ◌&&◌, ◌||◌, Option, none, some, List, [], ◌∷◌,
  Text, codes, ltb, leb, ◌==◌, if◌then◌else◌, length, any, all, filter, take, drop, get_elem?,
  is_digit, decimal_value, text_eq,
}

-- `value.slice(first, last)`
abbrev pub slice : ℕ → ℕ → Text → Text
slice first last value = take (last - first) (drop first value)

-- `candidate.replace(/[^0-9]/gu, "")`
abbrev pub digits_of : Text → Text
digits_of candidate = filter is_digit candidate

-- `new Set(digits).size > 1`
abbrev pub has_two_digits : Text → Bool
has_two_digits [] = false
has_two_digits (c ∷ s) = any (λ d. not (d == c)) s

-- What a digit adds to the sum, doubled or not.
unfoldable pub luhn_share : Bool → ℕ → ℕ
luhn_share doubled digit =
    if doubled then (if ltb 9 (digit * 2) then digit * 2 - 9 else digit * 2) else digit

unfoldable pub luhn_sum : ℕ → ℕ → Text → ℕ
unfolding luhn_share
luhn_sum parity index [] = 0
luhn_sum parity index (c ∷ s) =
    luhn_share (index % 2 == parity) (c - b'0') + luhn_sum parity (index + 1) s

unfoldable pub passes_luhn_checksum : Text → Bool
unfolding luhn_sum
passes_luhn_checksum digits =
    if ltb (length digits) 13 || ltb 19 (length digits)
    then false
    else luhn_sum (length digits % 2) 0 digits % 10 == 0

unfoldable pub is_chinese_mobile_number : Text → Bool
is_chinese_mobile_number [] = false
is_chinese_mobile_number (c ∷ []) = false
is_chinese_mobile_number (c ∷ d ∷ s) =
    c == b'1' && (leb b'3' d && leb d b'9') && all is_digit s && length s == 9

abbrev pub is_area_digit : Option ℕ → Bool
is_area_digit none = false
is_area_digit (some c) = leb b'2' c && leb c b'9'

abbrev pub national_number : Text → Text
national_number [] = []
national_number (c ∷ s) = if length (c ∷ s) == 11 && c == b'1' then s else c ∷ s

-- `/^[2-9][0-9]{2}[2-9][0-9]{6}$/u`
abbrev pub has_national_form : Text → Bool
has_national_form s =
    length s == 10
    && all is_digit s
    && is_area_digit (get_elem? s 0)
    && is_area_digit (get_elem? s 3)

unfoldable pub is_north_american_phone_number : Text → Bool
unfolding text_eq
is_north_american_phone_number digits =
    let national = national_number digits in
    if not (has_national_form national)
    then false
    else not (text_eq (slice 1 3 national) (codes "11"))
      && not (text_eq (slice 4 6 national) (codes "11"))

abbrev pub is_leap_year : ℕ → Bool
is_leap_year year = year % 4 == 0 && (not (year % 100 == 0) || year % 400 == 0)

abbrev pub days_in_month : ℕ → ℕ → ℕ
days_in_month year month =
    if month == 2
    then (if is_leap_year year then 29 else 28)
    else if month == 4 || month == 6 || month == 9 || month == 11
    then 30
    else 31

-- `Date.UTC` carries a day past the end of the month over, so the date read back is another one.
unfoldable pub has_valid_resident_id_birth_date : Text → Bool
unfolding decimal_value
has_valid_resident_id_birth_date identifier =
    let year = decimal_value (slice 6 10 identifier) in
    let month = decimal_value (slice 10 12 identifier) in
    let day = decimal_value (slice 12 14 identifier) in
    if ltb year 1800 || ltb 2099 year || ltb month 1 || ltb 12 month || ltb day 1 || ltb 31 day
    then false
    else leb day (days_in_month year month)

abbrev pub resident_id_weights : List ℕ
resident_id_weights = 7 ∷ 9 ∷ 10 ∷ 5 ∷ 8 ∷ 4 ∷ 2 ∷ 1 ∷ 6 ∷ 3 ∷ 7 ∷ 9 ∷ 10 ∷ 5 ∷ 8 ∷ 4 ∷ 2 ∷ []

abbrev pub resident_id_check_characters : Text
resident_id_check_characters = codes "10X98765432"

unfoldable pub weighted_sum : List ℕ → Text → ℕ
weighted_sum [] s = 0
weighted_sum (weight ∷ weights) [] = 0
weighted_sum (weight ∷ weights) (c ∷ s) = (c - b'0') * weight + weighted_sum weights s

abbrev pub same_character : Option ℕ → Option ℕ → Bool
same_character (some c) (some d) = c == d
same_character none none = true
same_character a b = false

unfoldable pub has_valid_resident_id_checksum : Text → Bool
unfolding weighted_sum
has_valid_resident_id_checksum identifier =
    same_character (get_elem? identifier 17)
      (get_elem? resident_id_check_characters (weighted_sum resident_id_weights identifier % 11))
