-- ===== src/Github/LinkPagination/Characters.antt =====
-- src/github/link-pagination.ts: the characters of the header, and the tests written as patterns.
use edgemneme.Base.{
  ℕ, String, Bool, true, false, not, ◌&&◌, ◌||◌, Option, none, some, [], ◌∷◌, Text, codes, leb,
  ◌==◌, if◌then◌else◌, any, all, is_digit, is_empty, decimal_value, is_lower, is_upper, is_hex,
  max_safe_integer,
}

abbrev pub is_one_of : String → ℕ → Bool
is_one_of characters c = any (λ d. c == d) (codes characters)

-- `/^[!#$%&'*+\-.^_`|~0-9A-Za-z]$/u`
unfoldable pub is_http_token_character : ℕ → Bool
is_http_token_character c = is_one_of "!#$%&'*+-.^_`|~" c || is_digit c || is_upper c || is_lower c

unfoldable pub is_quoted_text_character : ℕ → Bool → Bool
is_quoted_text_character code_point true =
    code_point == 9
    || (leb 32 code_point && leb code_point 126)
    || (leb 128 code_point && leb code_point 255)
is_quoted_text_character code_point false =
    code_point == 9
    || code_point == 32
    || code_point == 33
    || (leb 35 code_point && leb code_point 91)
    || (leb 93 code_point && leb code_point 126)
    || (leb 128 code_point && leb code_point 255)

-- `/^[A-Za-z0-9\-._~!$&'()*+,;=:%@/?#\[\]]+$/u`, of one character
unfoldable pub is_uri_character : ℕ → Bool
is_uri_character c = is_upper c || is_lower c || is_digit c || is_one_of "-._~!$&'()*+,;=:%@/?#[]" c

-- Whether two hexadecimal digits stand here.
abbrev pub begins_with_hex : Text → Bool
begins_with_hex [] = false
begins_with_hex (a ∷ []) = false
begins_with_hex (a ∷ b ∷ s) = is_hex a && is_hex b

-- Each percent sign is followed by two hexadecimal digits.
unfoldable pub has_valid_escapes : Text → Bool
has_valid_escapes [] = true
has_valid_escapes (c ∷ s) = (if c == b'%' then begins_with_hex s else true) && has_valid_escapes s

unfoldable pub is_uri_reference : Text → Bool
unfolding is_uri_character has_valid_escapes
is_uri_reference value =
    if is_empty value
    then true
    else if not (all is_uri_character value)
    then false
    else has_valid_escapes value

-- `/^[a-z][a-z0-9.-]*$/u`
unfoldable pub is_registered_relation : Text → Bool
is_registered_relation [] = false
is_registered_relation (c ∷ s) =
    is_lower c && all (λ d. is_lower d || is_digit d || d == b'.' || d == b'-') s

-- `/^[1-9][0-9]*$/u`
abbrev pub is_positive_numeral : Text → Bool
is_positive_numeral [] = false
is_positive_numeral (c ∷ s) = leb b'1' c && leb c b'9' && all is_digit s

-- A numeral above the safe integers is rounded to a number that is not safe either.
unfoldable pub parse_positive_safe_integer : Text → Option ℕ
unfolding decimal_value
parse_positive_safe_integer value =
    if not (is_positive_numeral value)
    then none
    else if leb (decimal_value value) max_safe_integer
    then some (decimal_value value)
    else none
