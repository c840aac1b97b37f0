-- ===== src/Github/LinkPagination.antt =====
-- src/github/link-pagination.ts: the next page that a Link header names. An offset into the header is
-- the part of it that is left to read. `Urls` is what the code takes from `URL`.
pub mod Characters
pub mod Lengths
pub mod Termination
pub mod NextPage
mod Tests
use edgemneme.Base.{
  ℕ, zero, suc, ◌+◌, Bool, true, false, not, ◌&&◌, ◌||◌, Option, none, some, List, [], ◌∷◌, ◌++◌,
  map, Result, ok, err, ◌>>=◌, ◌>>◌, throw_if, Text, codes, ltb, leb, ◌==◌, if◌then◌else◌, length,
  any, is_empty, includes, text_eq, trim, utf16_length, split, filter_nonempty, is_upper,
}
use edgemneme.Github.LinkPagination.Characters.{
  is_http_token_character, is_quoted_text_character, is_uri_reference, is_registered_relation,
  parse_positive_safe_integer,
}

-- `unfinished` is no error of the code: it is that a loop's fuel ran out.
pub data LinkError : Type 0 where
  invalid_pagination unfinished : LinkError

-- `new_url_from base target` is `new URL(target, base)`; both are `none` where the constructor throws.
-- `page` is `searchParams.get("page")`.
pub record Urls : Type 1 where
  pub Url : Type 0
  pub new_url : Text → Option Url
  pub new_url_from : Url → Text → Option Url
  pub protocol : Url → Text
  pub page : Url → Option Text

pub record ParsedLink : Type 0 where
  pub target : Text
  pub relations : List Text

abbrev pub max_link_header_characters : ℕ
max_link_header_characters = 32768

abbrev pub invalid {ℓ} : {A : Type ℓ} → Result LinkError A
invalid = err invalid_pagination

unfoldable pub skip_optional_whitespace : Text → Text
skip_optional_whitespace [] = []
skip_optional_whitespace (c ∷ s) = if c == 32 || c == 9 then skip_optional_whitespace s else c ∷ s

-- The text before the first place of a character, and the text after it.
unfoldable pub cut_at : ℕ → Text → Option (Text × Text)
cut_at mark [] = none
cut_at mark (c ∷ s) =
    let rest = cut_at mark s in
    if c == mark
    then some ([], s)
    else elim rest [ none ↦ none | some (before, after) ↦ some (c ∷ before, after) ]

-- The token characters at the start, and what is left.
unfoldable pub take_token : Text → Text × Text
take_token [] = ([], [])
take_token (c ∷ s) =
    let rest = take_token s in
    if is_http_token_character c then (c ∷ rest.0, rest.1) else ([], c ∷ s)

-- A token that is not empty.
unfoldable pub read_token : Text → Result LinkError (Text × Text)
unfolding take_token
read_token s = if is_empty (take_token s).0 then invalid else ok (take_token s)

-- After the opening quote: the value, and what is left after the closing quote.
unfoldable pub read_quoted_string : Text → Text → Result LinkError (Text × Text)
read_quoted_string result [] = invalid
read_quoted_string result (c ∷ []) = if c == 34 then ok (result, []) else invalid
read_quoted_string result (c ∷ next ∷ s) =
    let plain = read_quoted_string (result ++ c ∷ []) (next ∷ s) in
    let escaped = read_quoted_string (result ++ next ∷ []) s in
    if c == 34
    then ok (result, next ∷ s)
    else if c == 92
    then (if not (is_quoted_text_character next true) then invalid else escaped)
    else if not (is_quoted_text_character c false)
    then invalid
    else plain

-- What stands after `=`.
unfoldable pub read_parameter_value : Text → Result LinkError (Text × Text)
unfolding read_token read_quoted_string
read_parameter_value [] = invalid
read_parameter_value (c ∷ s) = if c == 34 then read_quoted_string [] s else read_token (c ∷ s)

-- `toLowerCase` of a token, whose characters are ASCII.
abbrev pub lower_case : Text → Text
lower_case name = map (λ c. if is_upper c then c + 32 else c) name

pub record Parameter : Type 0 where
  pub name : Text
  pub value : Option Text

unfoldable pub read_assigned : Text → Text → Result LinkError (Parameter × Text)
unfolding read_parameter_value skip_optional_whitespace
read_assigned name [] = ok (record { name = name; value = none }, [])
read_assigned name (c ∷ s) =
    if not (c == b'=') then ok (record { name = name; value = none }, c ∷ s) else do
      (value, rest) ← read_parameter_value (skip_optional_whitespace s)
      ok (record { name = name; value = some value }, rest)

-- What stands after `;`.
unfoldable pub read_parameter : Text → Result LinkError (Parameter × Text)
unfolding read_token read_assigned skip_optional_whitespace
read_parameter s = do
  (name, rest) ← read_token (skip_optional_whitespace s)
  read_assigned (lower_case name) (skip_optional_whitespace rest)

abbrev pub collect_relations : (Text → Bool) → List Text → List Text → Result LinkError (List Text)
collect_relations is_relation relations [] = ok relations
collect_relations is_relation relations (relation ∷ rest) =
    if not (is_relation relation)
    then invalid
    else if includes relations relation
    then invalid
    else collect_relations is_relation (relations ++ relation ∷ []) rest

-- After a link, the end of the header or a comma and `more` links.
unfoldable pub after_link :
    (Text → Result LinkError (List ParsedLink))
    → ParsedLink
    → Text
    → Result LinkError (List ParsedLink)
unfolding skip_optional_whitespace
after_link more link [] = ok (link ∷ [])
after_link more link (mark ∷ rest) =
    if not (mark == b',')
    then invalid
    else if is_empty (skip_optional_whitespace rest)
    then invalid
    else more rest >>= λ links. ok (link ∷ links)

abbrev pub is_next : Option ℕ → Option ℕ → Bool
is_next (some current_page) (some candidate_page) = candidate_page == current_page + 1
is_next current_page candidate_page = false

module _ (u : Urls) where
  unfoldable pub is_absolute_relation_uri : Text → Bool
  is_absolute_relation_uri value =
      if not (is_uri_reference value)
      then false
      else elim (u.new_url value) [ none ↦ false | some url ↦ not (is_empty (u.protocol url)) ]

  abbrev pub is_relation : Text → Bool
  is_relation relation = is_registered_relation relation || is_absolute_relation_uri relation

  -- A trimmed value has a piece between any two runs of spaces, so `split(/ +/u)` has no empty piece.
  unfoldable pub parse_relation_types : Text → Result LinkError (List Text)
  unfolding trim
  parse_relation_types value =
      if is_empty value || not (text_eq (trim value) value) || any (λ c. c == 9) value
      then invalid
      else collect_relations is_relation [] (filter_nonempty (split 32 value))

  -- The relations after a parameter, which are `none` before a parameter `rel`.
  unfoldable pub add_parameter :
      Option (List Text) → Parameter → Result LinkError (Option (List Text))
  unfolding parse_relation_types
  add_parameter relations parameter =
      if not (text_eq parameter.name (codes "rel")) then ok relations else elim relations [
        | some given ↦ invalid
        | none ↦ elim parameter.value [
          | none ↦ invalid
          | some value ↦ parse_relation_types value >>= λ parsed. ok (some parsed)
        ]
      ]

  abbrev pub or_no_relations : Option (List Text) → List Text
  or_no_relations none = []
  or_no_relations (some relations) = relations

  -- The parameters of a link; each round reads at least a semicolon.
  unfoldable pub read_parameters :
      ℕ → Option (List Text) → Text → Result LinkError (List Text × Text)
  unfolding read_parameter add_parameter
  read_parameters zero relations s = err unfinished
  read_parameters (suc fuel) relations [] = ok (or_no_relations relations, [])
  read_parameters (suc fuel) relations (c ∷ s) =
      if not (c == b';') then ok (or_no_relations relations, c ∷ s) else do
        (parameter, rest) ← read_parameter s
        relations' ← add_parameter relations parameter
        read_parameters fuel relations' (skip_optional_whitespace rest)

  unfoldable pub read_target : Text → Result LinkError (Text × Text)
  unfolding cut_at
  read_target [] = invalid
  read_target (c ∷ s) = if not (c == b'<') then invalid else elim (cut_at b'>' s) [
    | none ↦ invalid
    | some (target, rest) ↦ if not (is_uri_reference target) then invalid else ok (target, rest)
  ]

  unfoldable pub read_link : Text → Result LinkError (ParsedLink × Text)
  unfolding read_target read_parameters skip_optional_whitespace
  read_link s = do
    (target, rest) ← read_target (skip_optional_whitespace s)
    let parameters = skip_optional_whitespace rest
    (relations, left) ← read_parameters (suc (length parameters)) none parameters
    ok (record { target = target; relations = relations }, left)

  unfoldable pub parse_links : ℕ → Text → Result LinkError (List ParsedLink)
  unfolding read_link skip_optional_whitespace after_link
  parse_links zero s = err unfinished
  parse_links (suc fuel) [] = invalid
  parse_links (suc fuel) (c ∷ s) = do
    (link, left) ← read_link (c ∷ s)
    after_link (parse_links fuel) link (skip_optional_whitespace left)

  unfoldable pub parse_link_header : Text → Result LinkError (List ParsedLink)
  unfolding parse_links
  parse_link_header value = parse_links (suc (length value)) value

  abbrev pub page_of : u.Url → Option ℕ
  unfolding parse_positive_safe_integer
  page_of url = elim (u.page url) [
    | none ↦ parse_positive_safe_integer (codes "1")
    | some page ↦ parse_positive_safe_integer page
  ]

  unfoldable pub check_candidate : u.Url → Text → Result LinkError u.Url
  check_candidate current_url target = elim (u.new_url_from current_url target) [
    | none ↦ invalid
    | some candidate ↦
        if not (is_next (page_of current_url) (page_of candidate)) then invalid else ok candidate
  ]

  unfoldable pub consider_link : u.Url → Option u.Url → ParsedLink → Result LinkError (Option u.Url)
  unfolding check_candidate
  consider_link current_url next_url parsed =
      if not (includes parsed.relations (codes "next")) then ok next_url else elim next_url [
        | some found ↦ invalid
        | none ↦ check_candidate current_url parsed.target >>= λ candidate. ok (some candidate)
      ]

  unfoldable pub find_next :
      u.Url → Option u.Url → List ParsedLink → Result LinkError (Option u.Url)
  unfolding consider_link
  find_next current_url next_url [] = ok next_url
  find_next current_url next_url (parsed ∷ links) =
      consider_link current_url next_url parsed >>= λ next_url'.
      find_next current_url next_url' links

  unfoldable pub parse_next_page_link : Option Text → u.Url → Result LinkError (Option u.Url)
  unfolding parse_link_header find_next
  parse_next_page_link none current_url = ok none
  parse_next_page_link (some link) current_url =
      if is_empty (trim link)
      then ok none
      else if ltb max_link_header_characters (utf16_length link)
      then invalid
      else parse_link_header link >>= λ links. find_next current_url none links
