-- ===== src/Security/PageToken.antt =====
-- src/security/page-token.ts: the signed tokens of the pages of a listing. `sign` is the HMAC of a body
-- under a key, `write_json` and `parse_json` are `JSON.stringify` and `JSON.parse` with their UTF-8
-- encodings, and `date_parse` and `to_iso_string` are those of Date; a call that throws, or a date that is not
-- finite, is `none`.
pub mod Laws
pub mod Acceptance
pub mod RoundTrip
mod Tests
use edgemneme.Base.{
  ℕ, suc, ◌+◌, Bool, true, false, not, ◌&&◌, ◌||◌, Option, none, some, List, [], ◌∷◌, ◌++◌, Result,
  ok, err, throw_if, ◌>>=◌, ◌>>◌, Text, text_eq, codes, ltb, leb, ◌==◌, length, is_empty, split,
  max_safe_integer,
}
use edgemneme.Security.Crypto.{encode_base64_url, decode_base64_url, constant_time_equal}

pub data PageTokenError : Type 0 where
  key_too_short timestamp_not_canonical thrown malformed_token signature_mismatch : PageTokenError
  context_mismatch page_token_invalid : PageTokenError

pub record PageTokenPayload : Type 0 where
  pub project_id : Text
  pub query_digest : Text
  pub snapshot_version : ℕ
  pub last_sort_key : Text
  pub valid_at : Text
  pub expires_at : ℕ

pub record PageTokenContext : Type 0 where
  pub project_id : Text
  pub query_digest : Text
  pub now_epoch_seconds : ℕ

abbrev pub page_token_version : ℕ
page_token_version = 2

-- A value in a parsed object: a text, a natural number, or anything else, a missing one included.
pub data JsonValue : Type 0 where
  text : Text → JsonValue
  number : ℕ → JsonValue
  other_value : JsonValue

-- What the code takes from the runtime.
pub record PageTokenRuntime (Moment : Type 0) : Type 0 where
  pub btoa : List ℕ → Text
  pub atob : Text → Option (List ℕ)
  pub sign : List ℕ → List ℕ → List ℕ
  pub write_json : List (Text × JsonValue) → List ℕ
  pub parse_json : List ℕ → Option (Text → JsonValue)
  pub date_parse : Text → Option Moment
  pub to_iso_string : Moment → Text

abbrev pub or_throw : {A : Type 0} → Option A → Result PageTokenError A
or_throw none = err thrown
or_throw (some value) = ok value

unfoldable pub validate_key : List ℕ → Result PageTokenError (Unit {0})
validate_key key = throw_if (ltb (length key) 32) key_too_short

-- `parts.length !== 2 || !parts[0] || !parts[1]`
unfoldable pub require_two : List Text → Result PageTokenError (Text × Text)
require_two (head ∷ tail ∷ []) =
    throw_if (is_empty head || is_empty tail) malformed_token >> ok (head, tail)
require_two _ = err malformed_token

-- `} catch { throw new EdgeMnemeError("PAGE_TOKEN_INVALID", ...) }`
unfoldable pub collapse : {A : Type 0} → Result PageTokenError A → Result PageTokenError A
collapse (ok value) = ok value
collapse (err failure) = err page_token_invalid

module _ {Moment : Type 0} (runtime : PageTokenRuntime Moment) where
  abbrev pub iso_is : Text → Option Moment → Bool
  iso_is value none = false
  iso_is value (some moment) = text_eq (runtime.to_iso_string moment) value

  unfoldable pub is_canonical_timestamp : Text → Bool
  is_canonical_timestamp value = iso_is value (runtime.date_parse value)

  unfoldable pub validate_timestamp : Text → Result PageTokenError (Unit {0})
  unfolding is_canonical_timestamp
  validate_timestamp value = throw_if (not (is_canonical_timestamp value)) timestamp_not_canonical

  abbrev pub body_of : PageTokenPayload → List (Text × JsonValue)
  body_of payload =
      (codes "v", number page_token_version)
      ∷ (codes "p", text payload.project_id)
      ∷ (codes "q", text payload.query_digest)
      ∷ (codes "s", number payload.snapshot_version)
      ∷ (codes "c", text payload.last_sort_key)
      ∷ (codes "t", text payload.valid_at)
      ∷ (codes "e", number payload.expires_at)
      ∷ []

  unfoldable pub create_page_token : PageTokenPayload → List ℕ → Result PageTokenError Text
  unfolding validate_key validate_timestamp encode_base64_url
  create_page_token payload key =
      validate_key key
      >> validate_timestamp payload.valid_at
      >> let body = runtime.write_json (body_of payload) in
        ok (
          encode_base64_url runtime.btoa body
          ++ (b'.' ∷ encode_base64_url runtime.btoa (runtime.sign key body)))

  -- The condition under which the values of a body are taken.
  abbrev pub is_current : PageTokenContext → ℕ → PageTokenPayload → Bool
  is_current context version payload =
      version == page_token_version
      && text_eq payload.project_id context.project_id
      && text_eq payload.query_digest context.query_digest
      && leb payload.snapshot_version max_safe_integer
      && is_canonical_timestamp payload.valid_at
      && leb payload.expires_at max_safe_integer
      && leb context.now_epoch_seconds payload.expires_at

  unfoldable pub check_body :
      PageTokenContext
      → JsonValue
      → JsonValue
      → JsonValue
      → JsonValue
      → JsonValue
      → JsonValue
      → JsonValue
      → Result PageTokenError PageTokenPayload
  unfolding is_canonical_timestamp
  check_body context (number v) (text p) (text q) (number s) (text c) (text t) (number e) =
      let payload : PageTokenPayload = record {
        project_id = p;
        query_digest = q;
        snapshot_version = s;
        last_sort_key = c;
        valid_at = t;
        expires_at = e;
      } in
      throw_if (not (is_current context v payload)) context_mismatch >> ok payload
  check_body context _ _ _ _ _ _ _ = err context_mismatch

  unfoldable pub check_parsed :
      PageTokenContext → (Text → JsonValue) → Result PageTokenError PageTokenPayload
  unfolding check_body
  check_parsed context parsed =
      check_body context (parsed (codes "v")) (parsed (codes "p")) (parsed (codes "q"))
        (parsed (codes "s")) (parsed (codes "c")) (parsed (codes "t")) (parsed (codes "e"))

  -- The body of the `try`, from the two parts of the token.
  unfoldable pub read_parts :
      List ℕ → PageTokenContext → Text × Text → Result PageTokenError PageTokenPayload
  unfolding decode_base64_url constant_time_equal check_parsed
  read_parts key context (head, tail) = or_throw (decode_base64_url runtime.atob head) >>= λ body.
      or_throw (decode_base64_url runtime.atob tail) >>= λ supplied.
      throw_if (not (constant_time_equal supplied (runtime.sign key body))) signature_mismatch
      >>= λ matched. or_throw (runtime.parse_json body) >>= λ parsed. check_parsed context parsed

  unfoldable pub read_page_token :
      Text → List ℕ → PageTokenContext → Result PageTokenError PageTokenPayload
  unfolding validate_key require_two read_parts collapse split
  read_page_token token key context = collapse (
      validate_key key >>= λ valid.
      require_two (split b'.' token) >>= λ parts. read_parts key context parts)
