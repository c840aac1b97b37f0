-- ===== src/Github/LinkPagination/Termination.antt =====
-- src/github/link-pagination.ts: the loops of the parser end on every header.
use edgemneme.Base.{
  ℕ, zero, suc, ◌≤◌, ◌<◌, ◌≡◌, ◌≢◌, ◌⊎◌, inl, inr, refl, ap, Bool, Option, none, some, List, [],
  ◌∷◌, ◌++◌, Result, ok, err, ◌>>=◌, >>=-eq-ok, Text, arith, ◌==◌, length, is_empty, text_eq,
  Bool-cases, Option-cases, trim, split, filter_nonempty, includes, codes, ltb, utf16_length,
}
use edgemneme.Github.LinkPagination.{
  LinkError, invalid_pagination, unfinished, Urls, ParsedLink, Parameter, skip_optional_whitespace,
  cut_at, read_token, read_quoted_string, read_parameter_value, read_assigned, read_parameter,
  lower_case, add_parameter, read_parameters, read_target, read_link, after_link, parse_links,
  parse_link_header, check_candidate, consider_link, find_next, parse_next_page_link,
  collect_relations, parse_relation_types, is_relation,
}
use edgemneme.Github.LinkPagination.Lengths.{length-skip, length-cut_at, length-read_parameter}

-- What a reader returns is a value or the error of the code.
abbrev pub Ends {ℓ} : {A : Type ℓ} → Result LinkError A → Type ℓ
Ends m = m ≢ err unfinished

Ends-bind {ℓ κ} :
    {A : Type ℓ} {B : Type κ} (m : Result LinkError A) (f : A → Result LinkError B)
    → Ends m
    → ((a : A) → m ≡ ok a → Ends (f a))
    → Ends (m >>= f)
Ends-bind (ok a) f h k = k a refl
Ends-bind (err e) f h k = λ q. h (cc)

read_token-Ends : (s : Text) → Ends (read_token s)
unfolding read_token
read_token-Ends s h = ground arith

read_quoted_string-Ends : (result s : Text) → Ends (read_quoted_string result s)
unfolding read_quoted_string
read_quoted_string-Ends result [] h = cc
read_quoted_string-Ends result (c ∷ []) h = ground arith
read_quoted_string-Ends result (c ∷ next ∷ s) h = ground (
  arith,
  read_quoted_string-Ends (result ++ c ∷ []) (next ∷ s),
  read_quoted_string-Ends (result ++ next ∷ []) s,
)

read_parameter_value-Ends : (s : Text) → Ends (read_parameter_value s)
unfolding read_parameter_value
read_parameter_value-Ends [] h = cc
read_parameter_value-Ends (c ∷ s) h =
    ground (arith, read_quoted_string-Ends [] s, read_token-Ends (c ∷ s))

read_assigned-Ends : (name s : Text) → Ends (read_assigned name s)
unfolding read_assigned
read_assigned-Ends name [] h = cc
read_assigned-Ends name (c ∷ s) h =
    ground (arith, read_parameter_value-Ends (skip_optional_whitespace s))

read_parameter-Ends : (s : Text) → Ends (read_parameter s)
unfolding read_parameter
read_parameter-Ends s =
    Ends-bind (read_token (skip_optional_whitespace s)) _ (read_token-Ends _)
      (λ (name, rest) e. read_assigned-Ends (lower_case name) (skip_optional_whitespace rest))

after_link-Ends :
    (more : Text → Result LinkError (List ParsedLink)) (link : ParsedLink) (t : Text)
    → ((mark : ℕ) (rest : Text) → t ≡ mark ∷ rest → Ends (more rest))
    → Ends (after_link more link t)
unfolding after_link
after_link-Ends more link [] h = λ q. cc
after_link-Ends more link (mark ∷ rest) h = λ q. ground (arith, h mark rest refl)

value_or_invalid {ℓ} :
    {A : Type ℓ} (m : Result LinkError A)
    → Ends m
    → ((a : A) × (m ≡ ok a)) ⊎ (m ≡ err invalid_pagination)
value_or_invalid (ok a) h = inl (a, refl)
value_or_invalid (err invalid_pagination) h = inr refl
value_or_invalid (err unfinished) h = absurd (h refl)

module _ (u : Urls) where
  collect_relations-Ends :
      (test : Text → Bool) (relations rest : List Text)
      → Ends (collect_relations test relations rest)
  collect_relations-Ends test relations [] h = cc
  collect_relations-Ends test relations (relation ∷ rest) h =
      ground (arith, collect_relations-Ends test (relations ++ relation ∷ []) rest)

  parse_relation_types-Ends : (value : Text) → Ends (parse_relation_types u value)
  unfolding parse_relation_types
  parse_relation_types-Ends value h =
      ground (arith, collect_relations-Ends (is_relation u) [] (filter_nonempty (split 32 value)))

  add_parameter-Ends :
      (relations : Option (List Text)) (parameter : Parameter)
      → Ends (add_parameter u relations parameter)
  unfolding add_parameter
  add_parameter-Ends (some given) parameter = λ h. ground arith
  add_parameter-Ends none parameter = elim (Bool-cases (text_eq parameter.name (codes "rel"))) [
    | inr other ↦ rw other (λ h. cc)
    | inl rel ↦ rw rel (elim (Option-cases parameter.value) [
      | inl e ↦ rw e (λ h. cc)
      | inr (value, e) ↦ rw e (
          Ends-bind (parse_relation_types u value) _ (parse_relation_types-Ends value)
            (λ r q h. cc))
    ])
  ]

  read_parameters-Ends :
      (fuel : ℕ) (relations : Option (List Text)) (s : Text)
      → length s < fuel
      → Ends (read_parameters u fuel relations s)
  unfolding read_parameters
  read_parameters-Ends zero relations s h = absurd (omega arith)
  read_parameters-Ends (suc fuel) relations [] h = λ q. cc
  read_parameters-Ends (suc fuel) relations (c ∷ s) h = elim (Bool-cases (c == b';')) [
    | inr other ↦ rw other (λ q. cc)
    | inl parameter ↦ rw parameter (
        Ends-bind (read_parameter s) _ (read_parameter-Ends s) (λ (given, rest) e.
          Ends-bind (add_parameter u relations given) _ (add_parameter-Ends relations given)
            (λ relations' e'.
              read_parameters-Ends fuel relations' (skip_optional_whitespace rest)
                (omega (arith, length-skip rest, length-read_parameter s given rest e)))))
  ]

  read_target-Ends : (s : Text) → Ends (read_target u s)
  unfolding read_target
  read_target-Ends [] h = cc
  read_target-Ends (c ∷ s) h = ground arith

  read_link-Ends : (s : Text) → Ends (read_link u s)
  unfolding read_link
  read_link-Ends s =
      Ends-bind (read_target u (skip_optional_whitespace s)) _
        (read_target-Ends (skip_optional_whitespace s))
        (λ (target, rest) e.
          Ends-bind
            (read_parameters u (suc (length (skip_optional_whitespace rest))) none
              (skip_optional_whitespace rest))
            _
            (read_parameters-Ends (suc (length (skip_optional_whitespace rest))) none
              (skip_optional_whitespace rest) (omega arith))
            (λ r q h. cc))

  length-read_parameters :
      (fuel : ℕ) (relations : Option (List Text)) (s : Text) (found : List Text) (rest : Text)
      → read_parameters u fuel relations s ≡ ok (found, rest)
      → length rest ≤ length s
  unfolding read_parameters
  length-read_parameters zero relations s found rest h = cc
  length-read_parameters (suc fuel) relations [] found rest h = ground arith
  length-read_parameters (suc fuel) relations (c ∷ s) found rest h = elim (Bool-cases (c == b';')) [
    | inr other ↦ ground arith
    | inl semicolon ↦
        let h' = rw semicolon at h in
        let ((given, after), e, f) = >>=-eq-ok (read_parameter s) _ h' in
        let (relations', g, k) = >>=-eq-ok (add_parameter u relations given) _ f in
        omega (
          arith,
          length-skip after,
          length-read_parameter s given after e,
          length-read_parameters fuel relations' (skip_optional_whitespace after) found rest k,
        )
  ]

  length-read_target :
      (s target rest : Text) → read_target u s ≡ ok (target, rest) → length rest < length s
  unfolding read_target
  length-read_target [] target rest h = cc
  length-read_target (c ∷ s) target rest h = elim (Option-cases (cut_at b'>' s)) [
    | inl e ↦ ground arith
    | inr ((before, after), e) ↦ ground (arith, length-cut_at b'>' s before after e)
  ]

  length-read_link :
      (s : Text) (link : ParsedLink) (left : Text)
      → read_link u s ≡ ok (link, left)
      → length left < length s
  unfolding read_link
  length-read_link s link left h =
      let ((target, rest), e, f) = >>=-eq-ok (read_target u (skip_optional_whitespace s)) _ h in
      let ((relations, left'), g, k) =
        >>=-eq-ok
          (read_parameters u (suc (length (skip_optional_whitespace rest))) none
            (skip_optional_whitespace rest))
          _ f in
      let same : left' ≡ left = ground arith in
      omega (
        arith,
        ap length same,
        length-skip s,
        length-read_target (skip_optional_whitespace s) target rest e,
        length-skip rest,
        length-read_parameters (suc (length (skip_optional_whitespace rest))) none
            (skip_optional_whitespace rest) relations left' g,
      )

  parse_links-Ends : (fuel : ℕ) (s : Text) → length s < fuel → Ends (parse_links u fuel s)
  unfolding parse_links
  parse_links-Ends zero s h = absurd (omega arith)
  parse_links-Ends (suc fuel) [] h = λ q. cc
  parse_links-Ends (suc fuel) (c ∷ s) h =
      Ends-bind (read_link u (c ∷ s)) _ (read_link-Ends (c ∷ s)) (λ (link, left) e.
        after_link-Ends (parse_links u fuel) link (skip_optional_whitespace left) (λ mark rest q.
          parse_links-Ends fuel rest
            (omega (arith, length-skip left, length-read_link (c ∷ s) link left e, ap length q))))

  pub parse_link_header-Ends : (value : Text) → Ends (parse_link_header u value)
  unfolding parse_link_header
  parse_link_header-Ends value = parse_links-Ends (suc (length value)) value (omega arith)

  check_candidate-Ends :
      (current_url : u.Url) (target : Text) → Ends (check_candidate u current_url target)
  unfolding check_candidate
  check_candidate-Ends current_url target h = ground arith

  consider_link-Ends :
      (current_url : u.Url) (next_url : Option u.Url) (parsed : ParsedLink)
      → Ends (consider_link u current_url next_url parsed)
  unfolding consider_link
  consider_link-Ends current_url (some found) parsed = λ h. ground arith
  consider_link-Ends current_url none parsed =
      elim (Bool-cases (includes parsed.relations (codes "next"))) [
        | inr other ↦ rw other (λ h. cc)
        | inl next ↦ rw next (
            Ends-bind (check_candidate u current_url parsed.target) _
              (check_candidate-Ends current_url parsed.target) (λ r q h. cc))
      ]

  find_next-Ends :
      (current_url : u.Url) (next_url : Option u.Url) (links : List ParsedLink)
      → Ends (find_next u current_url next_url links)
  unfolding find_next
  find_next-Ends current_url next_url [] = λ h. cc
  find_next-Ends current_url next_url (parsed ∷ links) =
      Ends-bind (consider_link u current_url next_url parsed) _
        (consider_link-Ends current_url next_url parsed)
        (λ next_url' e. find_next-Ends current_url next_url' links)

  parse_next_page_link-Ends :
      (link : Option Text) (current_url : u.Url) → Ends (parse_next_page_link u link current_url)
  unfolding parse_next_page_link
  parse_next_page_link-Ends none current_url = λ h. cc
  parse_next_page_link-Ends (some link) current_url = elim (Bool-cases (is_empty (trim link))) [
    | inl blank ↦ rw blank (λ h. cc)
    | inr written ↦ rw written (elim (Bool-cases (ltb 32768 (utf16_length link))) [
      | inl long ↦ rw long (λ h. cc)
      | inr short ↦ rw short (
          Ends-bind (parse_link_header u link) _ (parse_link_header-Ends link)
            (λ links e. find_next-Ends current_url none links))
    ])
  ]

  -- On every header the loops of the parser end, with the fuel that they get: the code returns no page or
  -- a page, or it throws that the header is invalid.
  pub parse_next_page_link_total :
      (link : Option Text) (current_url : u.Url)
      → ((next_url : Option u.Url) × (parse_next_page_link u link current_url ≡ ok next_url))
        ⊎ (parse_next_page_link u link current_url ≡ err invalid_pagination)
  parse_next_page_link_total link current_url =
      value_or_invalid (parse_next_page_link u link current_url)
        (parse_next_page_link-Ends link current_url)
