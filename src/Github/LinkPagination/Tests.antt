-- ===== src/Github/LinkPagination/Tests.antt =====
-- src/github/link-pagination.ts: tests, and the theorems at concrete inputs.
use edgemneme.Base.{
  ◌≤◌, is_empty, ◌≡◌, ◌⊎◌, ◌↔◌, refl, false, Option, none, some, List, [], ◌∷◌, ok, err, Text,
  codes, arith, filter, trim, includes, text_eq, split, filter_nonempty, decimal_value,
  utf16_length,
}
use edgemneme.Github.LinkPagination.{
  Urls, ParsedLink, invalid_pagination, read_quoted_string, read_link, parse_links,
  parse_link_header, parse_next_page_link,
}
use edgemneme.Github.LinkPagination.Characters.{
  is_http_token_character, is_quoted_text_character, is_uri_reference, is_registered_relation,
  parse_positive_safe_integer,
}
use edgemneme.Github.LinkPagination.Termination.{parse_next_page_link_total}
use edgemneme.Github.LinkPagination.NextPage.{has_next, IsNextOf, parse_next_page_link_iff}

-- Enough for the tests: an address is its page.
abbrev pages : Urls
pages = record {
  Url = Text;
  new_url = λ value. some value;
  new_url_from = λ base target. some target;
  protocol = λ url. codes "https:";
  page = λ url. some url;
}

abbrev header : Text
header = codes "<2>; rel=\"next\", <9>; title=a ; rel=\"last\""

abbrev links : List ParsedLink
links =
    record { target = codes "2"; relations = codes "next" ∷ [] }
    ∷ record { target = codes "9"; relations = codes "last" ∷ [] }
    ∷ []

parsed_test : parse_link_header pages header ≡ ok links
unfolding parse_link_header parse_links read_link is_uri_reference is_http_token_character
    is_quoted_text_character text_eq filter_nonempty split is_registered_relation includes
parsed_test = refl

next_test : parse_next_page_link pages (some header) (codes "1") ≡ ok (some (codes "2"))
unfolding utf16_length parse_next_page_link parse_positive_safe_integer decimal_value trim
    parse_link_header parse_links read_link is_uri_reference is_http_token_character
    is_quoted_text_character text_eq filter_nonempty split is_registered_relation includes
next_test = refl

skipped_page_test : parse_next_page_link pages (some header) (codes "2") ≡ err invalid_pagination
unfolding utf16_length parse_next_page_link parse_positive_safe_integer decimal_value trim
    parse_link_header parse_links read_link is_uri_reference is_http_token_character
    is_quoted_text_character text_eq filter_nonempty split is_registered_relation includes
skipped_page_test = refl

blank_test : parse_next_page_link pages (some (codes "  ")) (codes "2") ≡ ok none
unfolding parse_next_page_link trim
blank_test = refl

-- A quoted value with an escaped quote, and a second `rel`, which is refused.
escaped_test : read_quoted_string [] (codes "a\\\"b\";") ≡ ok (codes "a\"b", codes ";")
unfolding read_quoted_string is_quoted_text_character
escaped_test = refl

repeated_test : parse_link_header pages (codes "<2>;rel=next;rel=last") ≡ err invalid_pagination
unfolding parse_link_header parse_links read_link is_uri_reference is_http_token_character
    is_quoted_text_character text_eq filter_nonempty split is_registered_relation includes
repeated_test = refl

written_test : (is_empty (trim header) ≡ false) × (utf16_length header ≤ 32768)
unfolding trim utf16_length
written_test = (refl, omega arith)

parse_next_page_link_iff_example :
    (parse_next_page_link pages (some header) (codes "1") ≡ ok (some (codes "2")))
    ↔ IsNextOf pages (codes "1") (filter has_next links) (some (codes "2"))
parse_next_page_link_iff_example =
    parse_next_page_link_iff pages header links (codes "1") (some (codes "2")) written_test.0
      written_test.1 parsed_test

parse_next_page_link_total_example :
    ((next_url : Option Text) × (parse_next_page_link pages (some header) (codes "1")
        ≡ ok next_url))
    ⊎ (parse_next_page_link pages (some header) (codes "1") ≡ err invalid_pagination)
parse_next_page_link_total_example = parse_next_page_link_total pages (some header) (codes "1")
