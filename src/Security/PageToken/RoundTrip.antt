-- ===== src/Security/PageToken/RoundTrip.antt =====
-- src/security/page-token.ts: a token that is created is accepted.
use edgemneme.Base.{
  ℕ, ◌≤◌, ◌≡◌, refl, sym, ◌∙◌, ap, true, false, not, some, List, [], ◌∷◌, ◌++◌, ok, ok-injective,
  >>=-eq-ok, throw_if-eq-ok, ◌>>◌, Text, arith, ltb, ◌==◌, length, all, split, add_to_first,
}
use edgemneme.Security.Crypto.{is_url_character, encode_base64_url}
use edgemneme.Security.Crypto.Base64.{IsBase64, decode-encode, encode-url_characters}
use edgemneme.Security.PageToken.{
  PageTokenPayload, PageTokenContext, JsonValue, PageTokenRuntime, validate_key, validate_timestamp,
  is_canonical_timestamp, body_of, create_page_token, read_page_token,
}
use edgemneme.Security.PageToken.Laws.{HasPayload}
use edgemneme.Security.PageToken.Acceptance.{read_page_token-ok}

split-none : (s : Text) → all is_url_character s ≡ true → split b'.' s ≡ s ∷ []
unfolding split add_to_first
split-none [] h = refl
split-none (c ∷ s) h =
    let rest = split-none s (ground arith) in
    let other : (c == b'.') ≡ false = ground arith in rw (rest, other)

split-two :
    (a b : Text)
    → all is_url_character a ≡ true
    → all is_url_character b ≡ true
    → split b'.' (a ++ (b'.' ∷ b)) ≡ a ∷ b ∷ []
unfolding split add_to_first
split-two [] b h k = rw (split-none b k)
split-two (c ∷ a) b h k =
    let rest = split-two a b (ground arith) k in
    let other : (c == b'.') ≡ false = ground arith in rw (rest, other)

module _ {Moment : Type 0} (runtime : PageTokenRuntime Moment) where
  -- What the runtime is documented to do with a payload and a key: the base64 of the body and of its
  -- signature is read back, and parsing the text of the body gives an object with the values of the payload.
  pub record IsReadBack (payload : PageTokenPayload) (key : List ℕ) : Type 0 where
    pub body_base64 :
        IsBase64 runtime.btoa runtime.atob (runtime.write_json (body_of runtime payload))
    pub signature_base64 :
        IsBase64 runtime.btoa runtime.atob
          (runtime.sign key (runtime.write_json (body_of runtime payload)))
    pub parsed : Text → JsonValue
    pub parses : runtime.parse_json (runtime.write_json (body_of runtime payload)) ≡ some parsed
    pub holds : HasPayload runtime parsed payload

  created-inv :
      (payload : PageTokenPayload) (key : List ℕ) (token : Text)
      → create_page_token runtime payload key ≡ ok token
      → (32 ≤ length key)
        × (is_canonical_timestamp runtime payload.valid_at ≡ true)
        × (encode_base64_url runtime.btoa (runtime.write_json (body_of runtime payload))
              ++ (b'.'
                  ∷ encode_base64_url runtime.btoa
                      (runtime.sign key (runtime.write_json (body_of runtime payload))))
            ≡ token)
  unfolding create_page_token validate_key validate_timestamp
  created-inv payload key token h =
      let (unit, long, h1) =
        >>=-eq-ok (validate_key key >> validate_timestamp runtime payload.valid_at) _ h in
      let (other, first, second) = >>=-eq-ok (validate_key key) _ long in
      let short = throw_if-eq-ok (ltb (length key) 32) _ other first in
      let valid =
        throw_if-eq-ok (not (is_canonical_timestamp runtime payload.valid_at)) _ unit second in
      (ground arith, ground arith, ok-injective h1)

  -- A token that is created for a payload, and read with the same key, gives this payload back, provided
  -- the runtime reads back what it writes for this payload and key, the context has the payload's project
  -- and query and is not later than its end, and the payload's numbers are safe integers.
  pub read-create_page_token :
      (payload : PageTokenPayload) (key : List ℕ) (context : PageTokenContext) (token : Text)
      → IsReadBack payload key
      → payload.project_id ≡ context.project_id
      → payload.query_digest ≡ context.query_digest
      → payload.snapshot_version ≤ 9007199254740991
      → payload.expires_at ≤ 9007199254740991
      → context.now_epoch_seconds ≤ payload.expires_at
      → create_page_token runtime payload key ≡ ok token
      → read_page_token runtime token key context ≡ ok payload
  read-create_page_token payload key context token documented project digest snapshot safe unexpired
        h =
      let (long, valid, same) = created-inv payload key token h in
      let body = runtime.write_json (body_of runtime payload) in
      read_page_token-ok runtime token key context payload long
        record {
          head = encode_base64_url runtime.btoa body;
          tail = encode_base64_url runtime.btoa (runtime.sign key body);
          body = body;
          parsed = documented.parsed;
          parts =
              ap (split b'.') (sym same)
              ∙ split-two _ _ (encode-url_characters body documented.body_base64)
                  (encode-url_characters (runtime.sign key body) documented.signature_base64);
          decodes = decode-encode body documented.body_base64;
          signs = decode-encode (runtime.sign key body) documented.signature_base64;
          parses = documented.parses;
          holds = documented.holds;
        }
        record {
          project_id = project;
          query_digest = digest;
          snapshot_version = snapshot;
          valid_at = valid;
          expires_at = safe;
          unexpired = unexpired;
        }
