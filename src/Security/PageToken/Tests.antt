-- ===== src/Security/PageToken/Tests.antt =====
-- src/security/page-token.ts: tests, and the theorems at concrete inputs.
use edgemneme.Base.{
  ℕ, ◌≤◌, ◌≡◌, refl, ◌↔◌, some, List, ◌++◌, ok, err, Text, text_eq, codes, length, if◌then◌else◌,
  split, add_to_first, arith,
}
use edgemneme.Security.Crypto.{
  encode_base64_url, decode_base64_url, strip_padding, pad, repeat, difference_from,
  constant_time_equal,
}
use edgemneme.Security.PageToken.{
  PageTokenPayload, PageTokenContext, JsonValue, text, number, other_value, PageTokenRuntime,
  key_too_short, page_token_invalid, validate_key, validate_timestamp, require_two, collapse,
  is_canonical_timestamp, check_body, check_parsed, read_parts, create_page_token, read_page_token,
}
use edgemneme.Security.PageToken.Laws.{IsSigned, IsCurrent}
use edgemneme.Security.PageToken.Acceptance.{read_page_token_iff}
use edgemneme.Security.PageToken.RoundTrip.{IsReadBack, read-create_page_token}

abbrev page : PageTokenPayload
page = record {
  project_id = codes "p1";
  query_digest = codes "d1";
  snapshot_version = 7;
  last_sort_key = codes "k1";
  valid_at = codes "t1";
  expires_at = 900;
}

abbrev at_800 : PageTokenContext
at_800 = record { project_id = codes "p1"; query_digest = codes "d1"; now_epoch_seconds = 800 }

abbrev at_901 : PageTokenContext
at_901 = record { project_id = codes "p1"; query_digest = codes "d1"; now_epoch_seconds = 901 }

abbrev fields_of_page : Text → JsonValue
fields_of_page name =
    if text_eq name (codes "v")
    then number 2
    else if text_eq name (codes "p")
    then text (codes "p1")
    else if text_eq name (codes "q")
    then text (codes "d1")
    else if text_eq name (codes "s")
    then number 7
    else if text_eq name (codes "c")
    then text (codes "k1")
    else if text_eq name (codes "t")
    then text (codes "t1")
    else if text_eq name (codes "e")
    then number 900
    else other_value

-- A runtime whose bytes are their own base64, and whose signatures are the body and "sign".
abbrev toy : PageTokenRuntime Text
toy = record {
  btoa = λ bytes. bytes;
  atob = λ s. some (strip_padding s);
  sign = λ key body. body ++ codes "sign";
  write_json = λ fields. codes "body";
  parse_json = λ body. some fields_of_page;
  date_parse = λ s. some s;
  to_iso_string = λ s. s;
}

abbrev long_key : List ℕ
long_key = repeat 32 7

created : create_page_token toy page long_key ≡ ok (codes "body.bodysign")
unfolding create_page_token validate_key validate_timestamp is_canonical_timestamp encode_base64_url
    strip_padding text_eq
created = refl

accepted : read_page_token toy (codes "body.bodysign") long_key at_800 ≡ ok page
unfolding read_page_token validate_key require_two collapse read_parts check_parsed check_body
    is_canonical_timestamp decode_base64_url constant_time_equal difference_from pad strip_padding
    split add_to_first text_eq
accepted = refl

expired : read_page_token toy (codes "body.bodysign") long_key at_901 ≡ err page_token_invalid
unfolding read_page_token validate_key require_two collapse read_parts check_parsed check_body
    is_canonical_timestamp decode_base64_url constant_time_equal difference_from pad strip_padding
    split add_to_first text_eq
expired = refl

altered : read_page_token toy (codes "body.bodysigm") long_key at_800 ≡ err page_token_invalid
unfolding read_page_token validate_key require_two collapse read_parts check_parsed check_body
    is_canonical_timestamp decode_base64_url constant_time_equal difference_from pad strip_padding
    split add_to_first text_eq
altered = refl

short_key : create_page_token toy page (codes "key") ≡ err key_too_short
unfolding create_page_token validate_key
short_key = refl

read_page_token_iff_example :
    (read_page_token toy (codes "body.bodysign") long_key at_800 ≡ ok page) ↔ (
      (32 ≤ length long_key)
      × IsSigned toy (codes "body.bodysign") long_key page
      × IsCurrent toy at_800 page)
read_page_token_iff_example = read_page_token_iff toy (codes "body.bodysign") long_key at_800 page

page-IsReadBack : IsReadBack toy page long_key
unfolding strip_padding text_eq
page-IsReadBack = record {
  body_base64 = record {
    digits = codes "body";
    padding = 0;
    writes = refl;
    alphabet = refl;
    short = omega arith;
    aligned = refl;
    nonempty = refl;
    reads = refl;
  };
  signature_base64 = record {
    digits = codes "bodysign";
    padding = 0;
    writes = refl;
    alphabet = refl;
    short = omega arith;
    aligned = refl;
    nonempty = refl;
    reads = refl;
  };
  parsed = fields_of_page;
  parses = refl;
  holds = record {
    version = refl;
    project_id = refl;
    query_digest = refl;
    snapshot_version = refl;
    last_sort_key = refl;
    valid_at = refl;
    expires_at = refl;
  };
}

read-create_page_token_example :
    read_page_token toy (codes "body.bodysign") long_key at_800 ≡ ok page
read-create_page_token_example =
    read-create_page_token toy page long_key at_800 (codes "body.bodysign") page-IsReadBack refl
      refl (omega arith) (omega arith) (omega arith) created
