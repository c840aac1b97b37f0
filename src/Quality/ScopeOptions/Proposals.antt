-- ===== src/Quality/ScopeOptions/Proposals.antt =====
-- src/quality/scope-options.ts: what a model's proposal can reach.
use mathlib.Core.List.{Memᴰ}
use edgemneme.Base.{
  ℕ, ◌≤◌, ◌≡◌, ◌≢◌, refl, sym, ◌∙◌, ap, subst, inl, inr, Bool, true, false, not, ◌&&◌, Option, none,
  some, List, [], ◌∷◌, ◌++◌, append-nil, append_assoc, ok, throw_if, throw_if-eq-ok, >>=-eq-ok,
  ok-injective, some_inj, Text, arith, ltb, length, is_empty, all, find, includes, includes-Memᴰ,
  Memᴰ-includes, text_eq, text_eq_iff, unique, Apart, All, All-imp, All-Memᴰ, Bool-cases,
  Memᴰ-append_left, Memᴰ-snoc,
}
use edgemneme.Quality.ScopeOptions.{
  ScopeError, cites_nothing, cites_too_much, citation_not_bound, too_few_repositories,
  option_not_from_server, TrustedScopeEvidence, OptionScope, EvidenceById, ScopeOption,
  ScopeProposal, ResolvedModelScopeOption, option_not_offered, require_identifier, check_citations,
  or_throw, require_server_option, cited_repositories, is_project, is_multi_repository,
  resolve_model_scope_option, build_candidate_scope_options,
}
use edgemneme.Quality.ScopeOptions.Offers.{
  Cites, CitesOf, IsOffered, Scoped, build_candidate_scope_options-IsOffered,
}

check_citations-eq :
    (acc ids cited : List Text) → check_citations acc ids ≡ ok cited → acc ++ ids ≡ cited
unfolding check_citations
check_citations-eq acc [] cited h = append-nil acc ∙ ok-injective h
check_citations-eq acc (x ∷ ids) cited h =
    let rest : check_citations (acc ++ x ∷ []) ids ≡ ok cited = ground arith in
    sym (append_assoc acc (x ∷ []) ids) ∙ check_citations-eq (acc ++ x ∷ []) ids cited rest

check_citations-new :
    (acc ids cited : List Text)
    → check_citations acc ids ≡ ok cited
    → All (λ x. ¬ Memᴰ x acc) ids × Apart (λ a b. a ≢ b) ids
unfolding check_citations
check_citations-new acc [] cited h = (tt, tt)
check_citations-new acc (x ∷ ids) cited h =
    let fresh : includes acc x ≡ false = ground arith in
    let rest : check_citations (acc ++ x ∷ []) ids ≡ ok cited = ground arith in
    let (new, apart) = check_citations-new (acc ++ x ∷ []) ids cited rest in
    (
      (
        λ i. absurd (cc (Memᴰ-includes acc x i, fresh)),
        All-imp (λ y. ¬ Memᴰ y (acc ++ x ∷ [])) (λ y. ¬ Memᴰ y acc)
            (λ y n i. n (Memᴰ-append_left y acc (x ∷ []) i)) ids new,
      ),
      (
        All-imp (λ y. ¬ Memᴰ y (acc ++ x ∷ [])) (λ y. x ≢ y)
            (λ y n e. n (subst (λ t. Memᴰ t (acc ++ x ∷ [])) e (Memᴰ-snoc x acc))) ids new,
        apart,
      ),
    )

find-Memᴰ {ℓ} :
    {A : Type ℓ} (test : A → Bool) (xs : List A) (x : A)
    → find test xs ≡ some x
    → Memᴰ x xs × (test x ≡ true)
find-Memᴰ test [] x h = cc
find-Memᴰ test (y ∷ xs) x h = elim (Bool-cases (test y)) [
  | inl found ↦
      let e : y ≡ x = some_inj (rw found at h) in
      (Memᴰ.head (sym e), subst (λ z. test z ≡ true) e found)
  | inr missed ↦ let (i, t) = find-Memᴰ test xs x (rw missed at h) in (Memᴰ.tail i, t)
]

all-All :
    (allowed ids : List Text)
    → all (λ id. includes allowed id) ids ≡ true
    → All (λ id. Memᴰ id allowed) ids
all-All allowed [] h = tt
all-All allowed (x ∷ ids) h =
    (includes-Memᴰ allowed x (ground arith), all-All allowed ids (ground arith))

-- What a proposal that is accepted consists of.
pub record IsResolved (options : List ScopeOption) (proposal : ScopeProposal)
    (r : ResolvedModelScopeOption) : Type 0 where
  pub selected : ScopeOption
  pub offered : Memᴰ selected options
  pub named : selected.option_id ≡ proposal.option_id
  pub scoped : (r.scope ≡ selected.scope) × (r.scope_id ≡ selected.scope_id)
  pub reviewed : r.requires_maintainer_review ≡ selected.requires_maintainer_review
  pub cited : r.evidence_ids ≡ proposal.evidence_ids
  pub counted : (1 ≤ length r.evidence_ids) × (length r.evidence_ids ≤ 50)
  pub distinct : Apart (λ a b. a ≢ b) r.evidence_ids
  pub bound : All (λ id. Memᴰ id selected.evidence_ids) r.evidence_ids
  pub evidence_by_id : EvidenceById
  pub made : selected.metadata ≡ some evidence_by_id
  pub spread :
      is_multi_repository selected.authority ≡ true
      → 2 ≤ length (unique (cited_repositories evidence_by_id r.evidence_ids))

or_throw-eq-ok {ℓ} :
    {A : Type ℓ} (o : Option A) (e : ScopeError) (a : A) → or_throw o e ≡ ok a → o ≡ some a
or_throw-eq-ok none e a h = cc
or_throw-eq-ok (some b) e a h = ap some (ok-injective h)

length-pos : (xs : List Text) → is_empty xs ≡ false → 1 ≤ length xs
length-pos [] h = cc
length-pos (x ∷ xs) h = omega arith

ltb-false-le : (m n : ℕ) → ltb m n ≡ false → n ≤ m
ltb-false-le m n h = ground arith

not-false : (b : Bool) → not b ≡ false → b ≡ true
not-false b h = ground arith

module _ (project_id : Text) (registered : List Text) (evidence : List TrustedScopeEvidence)
    (o : ScopeOption) where
  Scoped-project :
      o.scope ≡ OptionScope.project
      → Scoped project_id registered evidence o.scope o
      → o.scope_id ≡ project_id
  Scoped-project e h = rw e at h

  Scoped-repository :
      o.scope ≡ OptionScope.repository
      → Scoped project_id registered evidence o.scope o
      → Memᴰ o.scope_id registered
        × All (CitesOf project_id registered evidence o.scope_id) o.evidence_ids
  Scoped-repository e h = rw e at h

spread_le : (b : Bool) (n : ℕ) → (b && ltb n 2) ≡ false → b ≡ true → 2 ≤ n
spread_le b n h k = ground arith

-- A proposal that is accepted names an offered option that the server made, keeps its scope and its
-- need of a review, and cites from 1 to 50 different pieces of the option's own evidence, of at least
-- two repositories where the option stands for several.
pub resolve_model_scope_option-IsResolved :
    (options : List ScopeOption) (proposal : ScopeProposal) (r : ResolvedModelScopeOption)
    → resolve_model_scope_option options proposal ≡ ok r
    → IsResolved options proposal r
unfolding resolve_model_scope_option
resolve_model_scope_option-IsResolved options proposal r h =
    let (u0, canonical, h0) = >>=-eq-ok (require_identifier proposal.option_id 128) _ h in
    let (u1, some_cited, h1) =
      >>=-eq-ok (throw_if (is_empty proposal.evidence_ids) cites_nothing) _ h0 in
    let (u2, few_cited, h2) =
      >>=-eq-ok (throw_if (ltb 50 (length proposal.evidence_ids)) cites_too_much) _ h1 in
    let (cited, checked, h3) = >>=-eq-ok (check_citations [] proposal.evidence_ids) _ h2 in
    let (selected, found, h4) =
      >>=-eq-ok
        (or_throw (find (λ (o : ScopeOption). text_eq o.option_id proposal.option_id) options)
          option_not_offered)
        _ h3 in
    let (by_id, made, h5) = >>=-eq-ok (require_server_option selected) _ h4 in
    let (u6, bound, h6) =
      >>=-eq-ok
        (throw_if (not (all (λ id. includes selected.evidence_ids id) cited)) citation_not_bound) _
        h5 in
    let (u7, spread, h7) =
      >>=-eq-ok
        (throw_if
          (is_multi_repository selected.authority
            && ltb (length (unique (cited_repositories by_id cited))) 2)
          too_few_repositories)
        _ h6 in
    let same = check_citations-eq [] proposal.evidence_ids cited checked in
    let (here, name) =
      find-Memᴰ (λ (o : ScopeOption). text_eq o.option_id proposal.option_id) options selected
        (or_throw-eq-ok _ option_not_offered selected found) in
    subst (IsResolved options proposal) (ok-injective h7) (record {
      selected = selected;
      offered = here;
      named = (text_eq_iff _ _).0 name;
      scoped = (refl, refl);
      reviewed = refl;
      cited = refl;
      counted = (
        length-pos proposal.evidence_ids (throw_if-eq-ok _ cites_nothing u1 some_cited),
        ltb-false-le 50 (length proposal.evidence_ids)
            (throw_if-eq-ok _ cites_too_much u2 few_cited),
      );
      distinct = (check_citations-new [] proposal.evidence_ids cited checked).1;
      bound = subst (All (λ id. Memᴰ id selected.evidence_ids)) (sym same) (
          all-All selected.evidence_ids cited
            (not-false _ (throw_if-eq-ok _ citation_not_bound u6 bound)));
      evidence_by_id = by_id;
      made = or_throw-eq-ok selected.metadata option_not_from_server by_id made;
      spread =
          subst
            (λ ids.
              is_multi_repository selected.authority ≡ true
              → 2 ≤ length (unique (cited_repositories by_id ids)))
            (sym same) (spread_le _ _ (throw_if-eq-ok _ too_few_repositories u7 spread));
    })

-- What a proposal that is accepted can reach.
pub record IsContained (project_id : Text) (registered : List Text)
    (evidence : List TrustedScopeEvidence) (r : ResolvedModelScopeOption) : Type 0 where
  pub reviewed : r.requires_maintainer_review ≡ is_project r.scope
  pub known : All (Cites project_id registered evidence) r.evidence_ids
  pub scope_of_project : r.scope ≡ OptionScope.project → r.scope_id ≡ project_id
  pub scope_of_repository :
      r.scope ≡ OptionScope.repository
      → Memᴰ r.scope_id registered
        × All (CitesOf project_id registered evidence r.scope_id) r.evidence_ids

-- When the options are the server's, an accepted proposal needs a maintainer's review exactly when its
-- scope is the project, cites only given evidence, and reaches the project, or a registered repository
-- of which all the cited evidence is.
pub resolve_model_scope_option-IsContained :
    (random_uuid : ℕ → Text) (project_id : Text) (registered : List Text)
    (evidence : List TrustedScopeEvidence) (options : List ScopeOption) (proposal : ScopeProposal)
    (r : ResolvedModelScopeOption)
    → build_candidate_scope_options random_uuid project_id registered evidence ≡ ok options
    → resolve_model_scope_option options proposal ≡ ok r
    → IsContained project_id registered evidence r
resolve_model_scope_option-IsContained random_uuid project_id registered evidence options proposal r
      built resolved =
    let v = resolve_model_scope_option-IsResolved options proposal r resolved in
    let o =
      All-Memᴰ (IsOffered project_id registered evidence) options
        (build_candidate_scope_options-IsOffered random_uuid project_id registered evidence options
          built)
        v.offered in
    record {
      reviewed = v.reviewed ∙ o.reviewed ∙ ap is_project (sym v.scoped.0);
      known =
          All-imp (λ id. Memᴰ id v.selected.evidence_ids) (Cites project_id registered evidence)
            (λ id i.
              All-Memᴰ (Cites project_id registered evidence) v.selected.evidence_ids o.known i)
            r.evidence_ids v.bound;
      scope_of_project = λ e.
          v.scoped.1
          ∙ Scoped-project project_id registered evidence v.selected (sym v.scoped.0 ∙ e) o.scoped;
      scope_of_repository = λ e.
          let (i, q) =
            Scoped-repository project_id registered evidence v.selected (sym v.scoped.0 ∙ e)
              o.scoped in
          (
            subst (λ t. Memᴰ t registered) (sym v.scoped.1) i,
            All-imp (λ id. Memᴰ id v.selected.evidence_ids)
                (CitesOf project_id registered evidence r.scope_id)
                (λ id m.
                  subst (λ t. CitesOf project_id registered evidence t id) (sym v.scoped.1)
                    (All-Memᴰ (CitesOf project_id registered evidence v.selected.scope_id)
                      v.selected.evidence_ids q m))
                r.evidence_ids v.bound,
          );
    }
