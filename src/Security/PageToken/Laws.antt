-- ===== src/Security/PageToken/Laws.antt =====
-- src/security/page-token.ts: the tokens that are accepted.
use edgemneme.Base.{
  ℕ, ◌≤◌, ◌≡◌, refl, ◌∙◌, ap, ap₂, subst, Bool, true, false, not, ◌&&◌, ◌||◌, Option, none, some,
  List, [], ◌∷◌, Result, ok, err, ok-injective, throw_if, throw_if-eq-ok, >>=-eq-ok, Text, text_eq,
  text_eq_iff, codes, arith, ltb, leb, ◌==◌, length, is_empty, split, max_safe_integer,
}
use edgemneme.Security.Crypto.{decode_base64_url, constant_time_equal}
use edgemneme.Security.Crypto.Laws.{constant_time_equal_iff}
use edgemneme.Security.PageToken.{
  PageTokenError, PageTokenPayload, PageTokenContext, JsonValue, text, number, PageTokenRuntime,
  or_throw, validate_key, require_two, collapse, is_canonical_timestamp, is_current, check_body,
  check_parsed, read_parts, read_page_token,
}

and-inv : (a b : Bool) → (a && b) ≡ true → (a ≡ true) × (b ≡ true)
and-inv true b h = (refl, h)
and-inv false b h = cc

or_throw-eq-ok : {A : Type 0} (o : Option A) (a : A) → or_throw o ≡ ok a → o ≡ some a
or_throw-eq-ok none a h = cc
or_throw-eq-ok (some x) a h = ap some (ok-injective h)

collapse-eq-ok : {A : Type 0} (r : Result PageTokenError A) (a : A) → collapse r ≡ ok a → r ≡ ok a
unfolding collapse
collapse-eq-ok (ok x) a h = h
collapse-eq-ok (err e) a h = cc

require_two-eq-ok :
    (parts : List Text) (head tail : Text)
    → require_two parts ≡ ok (head, tail)
    → parts ≡ head ∷ tail ∷ []
unfolding require_two
require_two-eq-ok [] head tail h = cc
require_two-eq-ok (a ∷ []) head tail h = cc
require_two-eq-ok (a ∷ b ∷ c ∷ rest) head tail h = cc
require_two-eq-ok (a ∷ b ∷ []) head tail h =
    let (unit, valid, same) = >>=-eq-ok (throw_if (is_empty a || is_empty b) _) _ h in
    let pair = ok-injective same in
    ap₂ (λ x y. x ∷ y ∷ []) (ap (λ q. q.0) pair) (ap (λ q. q.1) pair)

module _ {Moment : Type 0} (runtime : PageTokenRuntime Moment) where
  -- The values of a body, as far as they are read, are those of the payload, of this version.
  pub record HasPayload (parsed : Text → JsonValue) (payload : PageTokenPayload) : Type 0 where
    pub version : parsed (codes "v") ≡ number 2
    pub project_id : parsed (codes "p") ≡ text payload.project_id
    pub query_digest : parsed (codes "q") ≡ text payload.query_digest
    pub snapshot_version : parsed (codes "s") ≡ number payload.snapshot_version
    pub last_sort_key : parsed (codes "c") ≡ text payload.last_sort_key
    pub valid_at : parsed (codes "t") ≡ text payload.valid_at
    pub expires_at : parsed (codes "e") ≡ number payload.expires_at

  -- The payload is for the project and the query of the context, and has not expired.
  pub record IsCurrent (context : PageTokenContext) (payload : PageTokenPayload) : Type 0 where
    pub project_id : payload.project_id ≡ context.project_id
    pub query_digest : payload.query_digest ≡ context.query_digest
    pub snapshot_version : payload.snapshot_version ≤ 9007199254740991
    pub valid_at : is_canonical_timestamp runtime payload.valid_at ≡ true
    pub expires_at : payload.expires_at ≤ 9007199254740991
    pub unexpired : context.now_epoch_seconds ≤ payload.expires_at

  -- The token is two parts: a body, and the signature of this body under the key.
  pub record IsSigned (token : Text) (key : List ℕ) (payload : PageTokenPayload) : Type 0 where
    pub head : Text
    pub tail : Text
    pub body : List ℕ
    pub parsed : Text → JsonValue
    pub parts : split b'.' token ≡ head ∷ tail ∷ []
    pub decodes : decode_base64_url runtime.atob head ≡ some body
    pub signs : decode_base64_url runtime.atob tail ≡ some (runtime.sign key body)
    pub parses : runtime.parse_json body ≡ some parsed
    pub holds : HasPayload parsed payload

  is_current-inv :
      (context : PageTokenContext) (v : ℕ) (payload : PageTokenPayload)
      → is_current runtime context v payload ≡ true
      → (v ≡ 2) × IsCurrent context payload
  is_current-inv context v payload h =
      let (h1, unexpired) = and-inv _ (leb context.now_epoch_seconds payload.expires_at) h in
      let (h2, safe) = and-inv _ (leb payload.expires_at max_safe_integer) h1 in
      let (h3, valid) = and-inv _ (is_canonical_timestamp runtime payload.valid_at) h2 in
      let (h4, snapshot) = and-inv _ (leb payload.snapshot_version max_safe_integer) h3 in
      let (h5, digest) = and-inv _ (text_eq payload.query_digest context.query_digest) h4 in
      let (version, project) =
        and-inv (v == 2) (text_eq payload.project_id context.project_id) h5 in
      (
        ground arith,
        record {
          project_id = (text_eq_iff payload.project_id context.project_id).0 project;
          query_digest = (text_eq_iff payload.query_digest context.query_digest).0 digest;
          snapshot_version = ground arith;
          valid_at = valid;
          expires_at = ground arith;
          unexpired = ground arith;
        },
      )

  check_body-eq-ok :
      (context : PageTokenContext) (v p q s c t e : JsonValue) (payload : PageTokenPayload)
      → check_body runtime context v p q s c t e ≡ ok payload
      → (v ≡ number 2)
        × (p ≡ text payload.project_id)
        × (q ≡ text payload.query_digest)
        × (s ≡ number payload.snapshot_version)
        × (c ≡ text payload.last_sort_key)
        × (t ≡ text payload.valid_at)
        × (e ≡ number payload.expires_at)
        × IsCurrent context payload
  unfolding check_body
  check_body-eq-ok context (number v) (text p) (text q) (number s) (text c) (text t) (number e)
        payload h =
      let read : PageTokenPayload = record {
        project_id = p;
        query_digest = q;
        snapshot_version = s;
        last_sort_key = c;
        valid_at = t;
        expires_at = e;
      } in
      let (unit, passed, same) =
        >>=-eq-ok (throw_if (not (is_current runtime context v read)) _) _ h in
      let (version, current) =
        is_current-inv context v read (ground (arith, throw_if-eq-ok _ _ unit passed)) in
      let equal = ok-injective same in
      (
        ap number version,
        ap (λ (x : PageTokenPayload). text x.project_id) equal,
        ap (λ (x : PageTokenPayload). text x.query_digest) equal,
        ap (λ (x : PageTokenPayload). number x.snapshot_version) equal,
        ap (λ (x : PageTokenPayload). text x.last_sort_key) equal,
        ap (λ (x : PageTokenPayload). text x.valid_at) equal,
        ap (λ (x : PageTokenPayload). number x.expires_at) equal,
        subst (IsCurrent context) equal current,
      )
  check_body-eq-ok context _ _ _ _ _ _ _ payload h = cc

  check_parsed-eq-ok :
      (context : PageTokenContext) (parsed : Text → JsonValue) (payload : PageTokenPayload)
      → check_parsed runtime context parsed ≡ ok payload
      → HasPayload parsed payload × IsCurrent context payload
  unfolding check_parsed
  check_parsed-eq-ok context parsed payload h =
      let (v, p, q, s, c, t, e, current) =
        check_body-eq-ok context (parsed (codes "v")) (parsed (codes "p")) (parsed (codes "q"))
          (parsed (codes "s")) (parsed (codes "c")) (parsed (codes "t")) (parsed (codes "e"))
          payload h in
      (
        record {
          version = v;
          project_id = p;
          query_digest = q;
          snapshot_version = s;
          last_sort_key = c;
          valid_at = t;
          expires_at = e;
        },
        current,
      )

  -- A token that is accepted consists of a body and the signature of exactly this body under the key,
  -- which has at least 32 bytes; the body is of version 2 and holds the payload that is returned; and the
  -- payload is for the project and the query of the context, has safe numbers and a canonical time, and
  -- has not expired.
  pub read_page_token-IsSigned :
      (token : Text) (key : List ℕ) (context : PageTokenContext) (payload : PageTokenPayload)
      → read_page_token runtime token key context ≡ ok payload
      → (32 ≤ length key) × IsSigned token key payload × IsCurrent context payload
  unfolding read_page_token read_parts validate_key
  read_page_token-IsSigned token key context payload h =
      let (unit, long, h1) = >>=-eq-ok (validate_key key) _ (collapse-eq-ok _ payload h) in
      let ((head, tail), two, h2) = >>=-eq-ok (require_two (split b'.' token)) _ h1 in
      let (body, first, h3) = >>=-eq-ok (or_throw (decode_base64_url runtime.atob head)) _ h2 in
      let (supplied, second, h4) =
        >>=-eq-ok (or_throw (decode_base64_url runtime.atob tail)) _ h3 in
      let (matched, same, h5) =
        >>=-eq-ok (throw_if (not (constant_time_equal supplied (runtime.sign key body))) _) _ h4 in
      let (parsed, parses, h6) = >>=-eq-ok (or_throw (runtime.parse_json body)) _ h5 in
      let (holds, current) = check_parsed-eq-ok context parsed payload h6 in
      let equal : constant_time_equal supplied (runtime.sign key body) ≡ true =
        ground (arith, throw_if-eq-ok _ _ matched same) in
      let short = throw_if-eq-ok (ltb (length key) 32) _ unit long in
      (
        ground arith,
        record {
          head = head;
          tail = tail;
          body = body;
          parsed = parsed;
          parts = require_two-eq-ok (split b'.' token) head tail two;
          decodes = or_throw-eq-ok _ body first;
          signs =
              or_throw-eq-ok _ supplied second
              ∙ ap some ((constant_time_equal_iff supplied (runtime.sign key body)).0 equal);
          parses = or_throw-eq-ok _ parsed parses;
          holds = holds;
        },
        current,
      )
