-- ===== src/Github/LinkPagination/NextPage.antt =====
-- src/github/link-pagination.ts: the page that the links of a header lead to.
use edgemneme.Base.{
  ℕ, ◌+◌, ◌≤◌, ◌≡◌, ◌↔◌, inl, inr, refl, ap, Bool, true, false, Option, none, some, List, [], ◌∷◌,
  ok, >>=-eq-ok, Text, arith, is_empty, filter, Bool-cases, Option-cases, trim, includes, codes,
  ltb, utf16_length,
}
use edgemneme.Github.LinkPagination.{
  Urls, ParsedLink, page_of, is_next, parse_link_header, check_candidate, consider_link, find_next,
  parse_next_page_link,
}

abbrev pub has_next : ParsedLink → Bool
has_next link = includes link.relations (codes "next")

module _ (u : Urls) where
  -- The target stands for this address, whose page follows that of the current one.
  abbrev pub IsNextPage : u.Url → Text → u.Url → Type 0
  IsNextPage current_url target candidate =
      (u.new_url_from current_url target ≡ some candidate)
      × (p : ℕ) × (page_of u current_url ≡ some p)
      × (page_of u candidate ≡ some (p + 1))

  -- What is returned for the links with the relation "next": nothing if there is none, the next page if
  -- there is one; more are an error.
  abbrev pub IsNextOf : u.Url → List ParsedLink → Option u.Url → Type 0
  IsNextOf current_url [] next_url = next_url ≡ none
  IsNextOf current_url (link ∷ []) next_url =
      (candidate : u.Url) × (next_url ≡ some candidate)
      × IsNextPage current_url link.target candidate
  IsNextOf current_url (link ∷ other ∷ links) next_url = ⊥

  is_next-true : (a b : Option ℕ) → is_next a b ≡ true → (p : ℕ) × (a ≡ some p) × (b ≡ some (p + 1))
  is_next-true none none h = cc
  is_next-true none (some q) h = cc
  is_next-true (some p) none h = cc
  is_next-true (some p) (some q) h = (p, refl, ap some (ground arith))

  check_candidate_iff :
      (current_url : u.Url) (target : Text) (candidate : u.Url)
      → (check_candidate u current_url target ≡ ok candidate)
        ↔ IsNextPage current_url target candidate
  unfolding check_candidate
  check_candidate_iff current_url target candidate = (
    λ h. elim (Option-cases (u.new_url_from current_url target)) [
      | inl e ↦ absurd (ground arith)
      | inr (found, e) ↦
          let h' = rw (e, check_candidate) at h in
          let follows : is_next (page_of u current_url) (page_of u found) ≡ true = ground arith in
          let same : found ≡ candidate = ground arith in
          let (p, c, d) = is_next-true (page_of u current_url) (page_of u found) follows in
          (rw (← same) e, p, c, rw (← same) d)
    ],
    λ (e, p, c, d).
        let follows : is_next (page_of u current_url) (page_of u candidate) ≡ true =
          rw (c, d) (ground arith) in
        rw (e, check_candidate) (rw follows refl),
  )

  found_next :
      (current_url found : u.Url) (links : List ParsedLink) (next_url : Option u.Url)
      → (find_next u current_url (some found) links ≡ ok next_url)
        ↔ ((filter has_next links ≡ []) × (next_url ≡ some found))
  unfolding find_next consider_link
  found_next current_url found [] next_url = (λ h. (refl, cc), λ (e, f). rw f refl)
  found_next current_url found (link ∷ links) next_url = elim (Bool-cases (has_next link)) [
    | inl next ↦ rw next (λ h. absurd (ground arith), λ (e, f). cc)
    | inr other ↦ rw other (found_next current_url found links next_url)
  ]

  IsNextOf-one :
      (current_url : u.Url) (link : ParsedLink) (links : List ParsedLink) (next_url : Option u.Url)
      → IsNextOf current_url (link ∷ links) next_url
      → (links ≡ [])
        × (candidate : u.Url) × (next_url ≡ some candidate)
        × IsNextPage current_url link.target candidate
  IsNextOf-one current_url link [] next_url (candidate, e, h) = (refl, candidate, e, h)
  IsNextOf-one current_url link (other ∷ links) next_url h = elim h [ ]

  consider_other :
      (current_url : u.Url) (next_url : Option u.Url) (link : ParsedLink)
      → has_next link ≡ false
      → consider_link u current_url next_url link ≡ ok next_url
  unfolding consider_link
  consider_other current_url next_url link other = rw other

  consider_first :
      (current_url : u.Url) (link : ParsedLink) (next_url : Option u.Url)
      → has_next link ≡ true
      → (consider_link u current_url none link ≡ ok next_url) ↔ (
          (candidate : u.Url) × (next_url ≡ some candidate)
          × IsNextPage current_url link.target candidate)
  unfolding consider_link
  consider_first current_url link next_url next = rw next (
    λ h.
        let (candidate, c, d) = >>=-eq-ok (check_candidate u current_url link.target) _ h in
        (candidate, cc, (check_candidate_iff current_url link.target candidate).0 c),
    λ (candidate, e, h).
        let c = (check_candidate_iff current_url link.target candidate).1 h in rw (c, e) refl,
  )

  first_next :
      (current_url : u.Url) (link : ParsedLink) (links : List ParsedLink) (next_url : Option u.Url)
      → has_next link ≡ true
      → (find_next u current_url none (link ∷ links) ≡ ok next_url)
        ↔ IsNextOf current_url (link ∷ filter has_next links) next_url
  unfolding find_next
  first_next current_url link links next_url next = (
    λ h.
        let (v, e, f) = >>=-eq-ok (consider_link u current_url none link) _ h in
        let (candidate, q, page) = (consider_first current_url link v next).0 e in
        let f' = rw q at f in
        let (rest, done) = (found_next current_url candidate links next_url).0 f' in
        rw rest (candidate, done, page),
    λ h.
        let (rest, candidate, done, page) =
          IsNextOf-one current_url link (filter has_next links) next_url h in
        let e = (consider_first current_url link (some candidate) next).1 (candidate, refl, page) in
        rw e ((found_next current_url candidate links next_url).1 (rest, done)),
  )

  find_next-nil :
      (current_url : u.Url) (next_url : Option u.Url)
      → (find_next u current_url none [] ≡ ok next_url) ↔ (next_url ≡ none)
  unfolding find_next
  find_next-nil current_url next_url = (λ h. cc, λ h. rw h refl)

  find_next-other :
      (current_url : u.Url) (link : ParsedLink) (links : List ParsedLink)
      → has_next link ≡ false
      → find_next u current_url none (link ∷ links) ≡ find_next u current_url none links
  unfolding find_next
  find_next-other current_url link links other =
      rw (consider_other current_url none link other) refl

  find_next_iff :
      (current_url : u.Url) (links : List ParsedLink) (next_url : Option u.Url)
      → (find_next u current_url none links ≡ ok next_url)
        ↔ IsNextOf current_url (filter has_next links) next_url
  find_next_iff current_url [] next_url = find_next-nil current_url next_url
  find_next_iff current_url (link ∷ links) next_url = elim (Bool-cases (has_next link)) [
    | inr other ↦
        rw (other, find_next-other current_url link links other)
          (find_next_iff current_url links next_url)
    | inl next ↦ rw next (first_next current_url link links next_url next)
  ]

  -- For a header that is not blank, has at most 32768 characters and is parsed into these links, the code
  -- returns no page exactly when no link has the relation "next", and a page exactly when one link has
  -- it, its target resolves to that page, and the page's number is that of the current page and one more.
  pub parse_next_page_link_iff :
      (header : Text) (links : List ParsedLink) (current_url : u.Url) (next_url : Option u.Url)
      → is_empty (trim header) ≡ false
      → utf16_length header ≤ 32768
      → parse_link_header u header ≡ ok links
      → (parse_next_page_link u (some header) current_url ≡ ok next_url)
        ↔ IsNextOf current_url (filter has_next links) next_url
  unfolding parse_next_page_link
  parse_next_page_link_iff header links current_url next_url written short parsed =
      let within : ltb 32768 (utf16_length header) ≡ false = ground arith in
      rw (written, within, parsed) (find_next_iff current_url links next_url)
