-- ===== src/Github/Retention/Quota.antt =====
-- src/github/tree-manifest-retention.ts: which of the scanned manifests are selected.
use edgemneme.Base.{
  ℕ, ◌+◌, ◌-◌, ◌*◌, ◌≤◌, ◌<◌, ◌≡◌, ◌⊎◌, inl, inr, refl, sym, ◌∙◌, ap, subst, Bool, true, false,
  ◌&&◌, Option, none, some, List, [], ◌∷◌, ◌++◌, append-nil, append_assoc, Result, ok, >>=-eq-ok,
  throw_if, throw_if-eq-ok, Text, arith, ltb, ◌==◌, if◌then◌else◌, length, length-append, filter,
  min, text_eq, text_eq_iff, map_get, map_set, map_get-map_set, Bool-cases, ok-injective,
}
use edgemneme.Github.Retention.Candidates.{
  RetentionError, reconciliation_required, RetentionLane, RetentionCandidate, ManifestPlace,
  Selection, count_of, add_candidate, pass_candidate, is_selected, select_candidates, start,
  read_retention_candidate_page, read_wrapped, load_retention_candidates,
}

abbrev pub is_eligible_in : Text → RetentionCandidate → Bool
is_eligible_in project_id row = row.eligible == 1 && text_eq row.project_id project_id

-- The eligible rows of a project among these.
abbrev pub eligible_count : Text → List RetentionCandidate → ℕ
eligible_count project_id rows = length (filter (is_eligible_in project_id) rows)

-- The eligible rows, of each project the first two; `before` are rows that stand before these.
unfoldable pub within_quota :
    List RetentionCandidate → List RetentionCandidate → List RetentionCandidate
within_quota before [] = []
within_quota before (row ∷ rows) =
    let rest = within_quota (before ++ row ∷ []) rows in
    if row.eligible == 1 && ltb (eligible_count row.project_id before) 2 then row ∷ rest else rest

abbrev pub last_of : Option RetentionCandidate → List RetentionCandidate → Option RetentionCandidate
last_of cursor [] = cursor
last_of cursor (row ∷ rows) = last_of (some row) rows

eligible_count-snoc :
    (p : Text) (before : List RetentionCandidate) (row : RetentionCandidate)
    → eligible_count p (before ++ row ∷ [])
      ≡ eligible_count p before + (if is_eligible_in p row then 1 else 0)
eligible_count-snoc p [] row = ground arith
eligible_count-snoc p (b ∷ before) row = elim (Bool-cases (is_eligible_in p b)) [
  | inl e ↦ rw e (omega (arith, eligible_count-snoc p before row))
  | inr e ↦ rw e (eligible_count-snoc p before row)
]

-- The counts are those of the rows passed, and stop at two.
abbrev Counts : List RetentionCandidate → Selection → Type 0
Counts before s = (p : Text) → count_of p s.project_counts ≡ min 2 (eligible_count p before)

Counts-pass :
    (before : List RetentionCandidate) (s : Selection) (row : RetentionCandidate)
    → Counts before s
    → is_selected row s ≡ false
    → Counts (before ++ row ∷ []) (pass_candidate row s)
Counts-pass before s row h e p =
    ground
      (arith, h p, h row.project_id, eligible_count-snoc p before row, text_eq_iff row.project_id p)

count_of-map_set :
    (k p : Text) (n : ℕ) (counts : List (Text × ℕ))
    → count_of p (map_set k n counts) ≡ (if text_eq k p then n else count_of p counts)
count_of-map_set k p n counts = elim (Bool-cases (text_eq k p)) [
  | inl e ↦ rw (map_get-map_set k p n counts) (rw e refl)
  | inr e ↦ rw (map_get-map_set k p n counts) (rw e refl)
]

Counts-add :
    (before : List RetentionCandidate) (s : Selection) (row : RetentionCandidate)
    → Counts before s
    → is_selected row s ≡ true
    → Counts (before ++ row ∷ []) (add_candidate row s)
Counts-add before s row h e p = ground (
  arith,
  h p,
  h row.project_id,
  count_of-map_set row.project_id p (count_of row.project_id s.project_counts + 1) s.project_counts,
  eligible_count-snoc p before row,
  text_eq_iff row.project_id p,
)

-- What the loop selects of these rows: it stops after `passed`, or takes them all.
pub record IsSelection (max_candidates : ℕ) (before : List RetentionCandidate) (s : Selection)
    (scanned : List RetentionCandidate) (r : Selection) : Type 0 where
  pub passed : List RetentionCandidate
  pub left : List RetentionCandidate
  pub parts : scanned ≡ passed ++ left
  pub selected : r.candidates ≡ s.candidates ++ within_quota before passed
  pub cursor : r.cursor_candidate ≡ last_of s.cursor_candidate passed
  pub bounded : length r.candidates ≤ max_candidates
  pub ended : (left ≡ []) ⊎ (length r.candidates ≡ max_candidates)

is_selected-within :
    (before : List RetentionCandidate) (s : Selection) (row : RetentionCandidate)
    → Counts before s
    → is_selected row s ≡ (row.eligible == 1 && ltb (eligible_count row.project_id before) 2)
is_selected-within before s row h = ground (arith, h row.project_id)

within_quota-skip :
    (before : List RetentionCandidate) (s : Selection) (row : RetentionCandidate)
    (rows : List RetentionCandidate)
    → Counts before s
    → is_selected row s ≡ false
    → within_quota before (row ∷ rows) ≡ within_quota (before ++ row ∷ []) rows
unfolding within_quota
within_quota-skip before s row rows h e =
    let e' : (row.eligible == 1 && ltb (eligible_count row.project_id before) 2) ≡ false =
      sym (is_selected-within before s row h) ∙ e in
    rw e' refl

within_quota-take :
    (before : List RetentionCandidate) (s : Selection) (row : RetentionCandidate)
    (rows : List RetentionCandidate)
    → Counts before s
    → is_selected row s ≡ true
    → within_quota before (row ∷ rows) ≡ row ∷ within_quota (before ++ row ∷ []) rows
unfolding within_quota
within_quota-take before s row rows h e =
    let e' : (row.eligible == 1 && ltb (eligible_count row.project_id before) 2) ≡ true =
      sym (is_selected-within before s row h) ∙ e in
    rw e' refl

pass-IsSelection :
    (max_candidates : ℕ) (before : List RetentionCandidate) (s : Selection)
    (row : RetentionCandidate) (scanned : List RetentionCandidate) (r : Selection)
    → Counts before s
    → is_selected row s ≡ false
    → IsSelection max_candidates (before ++ row ∷ []) (pass_candidate row s) scanned r
    → IsSelection max_candidates before s (row ∷ scanned) r
pass-IsSelection max_candidates before s row scanned r h e q = record {
  passed = row ∷ q.passed;
  left = q.left;
  parts = ap (λ rows. row ∷ rows) q.parts;
  selected =
      q.selected
      ∙ ap (λ rows. s.candidates ++ rows) (sym (within_quota-skip before s row q.passed h e));
  cursor = q.cursor;
  bounded = q.bounded;
  ended = q.ended;
}

add-IsSelection :
    (max_candidates : ℕ) (before : List RetentionCandidate) (s : Selection)
    (row : RetentionCandidate) (scanned : List RetentionCandidate) (r : Selection)
    → Counts before s
    → is_selected row s ≡ true
    → IsSelection max_candidates (before ++ row ∷ []) (add_candidate row s) scanned r
    → IsSelection max_candidates before s (row ∷ scanned) r
add-IsSelection max_candidates before s row scanned r h e q = record {
  passed = row ∷ q.passed;
  left = q.left;
  parts = ap (λ rows. row ∷ rows) q.parts;
  selected =
      q.selected
      ∙ append_assoc s.candidates (row ∷ []) (within_quota (before ++ row ∷ []) q.passed)
      ∙ ap (λ rows. s.candidates ++ rows) (sym (within_quota-take before s row q.passed h e));
  cursor = q.cursor;
  bounded = q.bounded;
  ended = q.ended;
}

Counts-start : Counts [] start
unfolding map_get
Counts-start p = refl

stop-IsSelection :
    (max_candidates : ℕ) (before : List RetentionCandidate) (s : Selection)
    (row : RetentionCandidate) (scanned : List RetentionCandidate)
    → Counts before s
    → is_selected row s ≡ true
    → length (s.candidates ++ row ∷ []) ≡ max_candidates
    → IsSelection max_candidates before s (row ∷ scanned) (add_candidate row s)
unfolding within_quota
stop-IsSelection max_candidates before s row scanned h e full = record {
  passed = row ∷ [];
  left = scanned;
  parts = refl;
  selected = ap (λ rows. s.candidates ++ rows) (sym (within_quota-take before s row [] h e));
  cursor = refl;
  bounded = omega (arith, full);
  ended = inr full;
}

select_candidates-IsSelection :
    (max_candidates : ℕ) (before : List RetentionCandidate) (s : Selection)
    (scanned : List RetentionCandidate)
    → Counts before s
    → length s.candidates < max_candidates
    → IsSelection max_candidates before s scanned (select_candidates max_candidates s scanned)
unfolding select_candidates within_quota
select_candidates-IsSelection max_candidates before s [] h k = record {
  passed = [];
  left = [];
  parts = refl;
  selected = sym (append-nil s.candidates);
  cursor = refl;
  bounded = omega arith;
  ended = inl refl;
}
select_candidates-IsSelection max_candidates before s (row ∷ scanned) h k =
    elim (Bool-cases (is_selected row s)) [
      | inr e ↦ rw e (
          pass-IsSelection max_candidates before s row scanned _ h e (
            select_candidates-IsSelection max_candidates (before ++ row ∷ []) (pass_candidate row s)
              scanned (Counts-pass before s row h e) k))
      | inl e ↦ rw e (elim (Bool-cases (length (s.candidates ++ row ∷ []) == max_candidates)) [
        | inl full ↦
            rw full (stop-IsSelection max_candidates before s row scanned h e (ground arith))
        | inr more ↦ rw more (
            add-IsSelection max_candidates before s row scanned _ h e (
              select_candidates-IsSelection max_candidates (before ++ row ∷ [])
                (add_candidate row s) scanned (Counts-add before s row h e)
                (ground (arith, length-append s.candidates (row ∷ [])))))
      ])
    ]

module _
    (read_page : RetentionLane
      → ManifestPlace
      → Option ManifestPlace
      → ℕ
      → Result RetentionError (List RetentionCandidate)) where
  -- What is selected of the rows that are read from the cursor on, and from the beginning to the cursor.
  pub record IsLoaded (lane : RetentionLane) (cursor : ManifestPlace) (max_candidates : ℕ)
      (r : Selection) : Type 0 where
    pub after_cursor : List RetentionCandidate
    pub wrapped : List RetentionCandidate
    pub read :
        read_retention_candidate_page read_page lane cursor none (min 100 (max_candidates * 4))
        ≡ ok after_cursor
    pub read_rest :
        read_wrapped read_page lane cursor (min 100 (max_candidates * 4) - length after_cursor)
        ≡ ok wrapped
    pub within : length (after_cursor ++ wrapped) ≤ min 100 (max_candidates * 4)
    pub selection : IsSelection max_candidates [] start (after_cursor ++ wrapped) r

  -- For a maximum of at least one, the candidates that are loaded are, of the rows read after the cursor and
  -- then from the beginning up to it, at most 100 and at most four times the maximum, the eligible ones in
  -- order, of each project the first two; the scan ends at the maximum or with the rows, and the new
  -- cursor is the last row that it passed, eligible or not.
  pub load_retention_candidates-IsLoaded :
      (lane : RetentionLane) (cursor : ManifestPlace) (max_candidates : ℕ) (r : Selection)
      → 1 ≤ max_candidates
      → load_retention_candidates read_page lane cursor max_candidates ≡ ok r
      → IsLoaded lane cursor max_candidates r
  unfolding load_retention_candidates
  load_retention_candidates-IsLoaded lane cursor max_candidates r h e =
      let limit : ℕ = min 100 (max_candidates * 4) in
      let (after_cursor, a, e') =
        >>=-eq-ok (read_retention_candidate_page read_page lane cursor none limit) _ e in
      let (wrapped, b, e'') =
        >>=-eq-ok (read_wrapped read_page lane cursor (limit - length after_cursor)) _ e' in
      let (u, c, done) =
        >>=-eq-ok (throw_if (ltb limit (length (after_cursor ++ wrapped))) reconciliation_required)
          _ e'' in
      let fits = throw_if-eq-ok (ltb limit (length (after_cursor ++ wrapped))) _ u c in
      record {
        after_cursor = after_cursor;
        wrapped = wrapped;
        read = a;
        read_rest = b;
        within = ground arith;
        selection =
            subst (IsSelection max_candidates [] start (after_cursor ++ wrapped))
              (ok-injective done)
              (select_candidates-IsSelection max_candidates [] start (after_cursor ++ wrapped)
                Counts-start h);
      }
