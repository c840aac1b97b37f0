-- ===== src/Security/PageToken/Acceptance.antt =====
-- src/security/page-token.ts: every token that is signed and current is accepted.
use edgemneme.Base.{
  ℕ, ◌≤◌, ◌≡◌, refl, ◌↔◌, true, false, Option, some, List, [], ◌∷◌, ok, Text, text_eq_iff, arith,
  ltb, length, is_empty,
}
use edgemneme.Security.Crypto.{decode_base64_url}
use edgemneme.Security.Crypto.Laws.{constant_time_equal_iff}
use edgemneme.Security.PageToken.{
  PageTokenPayload, PageTokenContext, JsonValue, PageTokenRuntime, validate_key, require_two,
  collapse, is_current, check_body, check_parsed, read_parts, read_page_token,
}
use edgemneme.Security.PageToken.Laws.{HasPayload, IsCurrent, IsSigned, read_page_token-IsSigned}

-- What is decoded is not empty.
decoded-nonempty :
    (atob : Text → Option (List ℕ)) (s : Text) (bytes : List ℕ)
    → decode_base64_url atob s ≡ some bytes
    → is_empty s ≡ false
unfolding decode_base64_url
decoded-nonempty atob [] bytes h = cc
decoded-nonempty atob (c ∷ s) bytes h = refl

require_two-ok :
    (head tail : Text)
    → is_empty head ≡ false
    → is_empty tail ≡ false
    → require_two (head ∷ tail ∷ []) ≡ ok (head, tail)
unfolding require_two
require_two-ok head tail h k = rw (h, k)

module _ {Moment : Type 0} (runtime : PageTokenRuntime Moment) where
  is_current-true :
      (context : PageTokenContext) (payload : PageTokenPayload)
      → IsCurrent runtime context payload
      → is_current runtime context 2 payload ≡ true
  is_current-true context payload current =
      let project = (text_eq_iff payload.project_id context.project_id).1 current.project_id in
      let digest = (text_eq_iff payload.query_digest context.query_digest).1 current.query_digest in
      let valid = current.valid_at in
      let snapshot = current.snapshot_version in
      let expires = current.expires_at in
      let unexpired = current.unexpired in rw (project, digest, valid) (ground arith)

  check_parsed-ok :
      (context : PageTokenContext) (parsed : Text → JsonValue) (payload : PageTokenPayload)
      → HasPayload runtime parsed payload
      → IsCurrent runtime context payload
      → check_parsed runtime context parsed ≡ ok payload
  unfolding check_parsed check_body
  check_parsed-ok context parsed payload holds current = rw (
    holds.version,
    holds.project_id,
    holds.query_digest,
    holds.snapshot_version,
    holds.last_sort_key,
    holds.valid_at,
    holds.expires_at,
    check_body,
    is_current-true context payload current,
  )

  pub read_page_token-ok :
      (token : Text) (key : List ℕ) (context : PageTokenContext) (payload : PageTokenPayload)
      → 32 ≤ length key
      → IsSigned runtime token key payload
      → IsCurrent runtime context payload
      → read_page_token runtime token key context ≡ ok payload
  unfolding read_page_token read_parts validate_key collapse
  read_page_token-ok token key context payload long signed current =
      let enough : ltb (length key) 32 ≡ false = ground arith in
      let equal =
        (constant_time_equal_iff (runtime.sign key signed.body) (runtime.sign key signed.body)).1
          refl in
      rw (
        enough,
        signed.parts,
        require_two-ok signed.head signed.tail
            (decoded-nonempty runtime.atob signed.head signed.body signed.decodes)
            (decoded-nonempty runtime.atob signed.tail _ signed.signs),
        signed.decodes,
        signed.signs,
        equal,
        signed.parses,
        check_parsed-ok context signed.parsed payload signed.holds current,
      )

  -- A token is accepted exactly if the key has at least 32 bytes, the token consists of a body and the
  -- signature of exactly this body under the key, the body is of version 2 and holds the payload that is
  -- returned, and the payload is for the project and the query of the context, has safe numbers and a
  -- canonical time, and has not expired.
  pub read_page_token_iff :
      (token : Text) (key : List ℕ) (context : PageTokenContext) (payload : PageTokenPayload)
      → (read_page_token runtime token key context ≡ ok payload) ↔ (
          (32 ≤ length key)
          × IsSigned runtime token key payload
          × IsCurrent runtime context payload)
  read_page_token_iff token key context payload = (
    read_page_token-IsSigned runtime token key context payload,
    λ (long, signed, current). read_page_token-ok token key context payload long signed current,
  )
