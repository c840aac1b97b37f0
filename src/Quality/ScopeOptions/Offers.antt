-- ===== src/Quality/ScopeOptions/Offers.antt =====
-- src/quality/scope-options.ts: what the options that the server offers stand for.
use mathlib.Core.List.{Memᴰ}
use edgemneme.Base.{
  ℕ, ◌≡◌, refl, sym, ◌∙◌, subst, inl, inr, Bool, true, Option, none, some, List, [], ◌∷◌, ◌++◌,
  append-nil, append_assoc, map, ok, >>=-eq-ok, ok-injective, some_inj, Text, arith, leb, ltb,
  length, filter, includes, includes-Memᴰ, text_eq, compare_text, map_get, map_set, map_values, All,
  All-append, All-imp, All-map, All-map_set, All-map_get, All-sort, All-of_Memᴰ, Bool-cases,
  Option-cases,
}
use edgemneme.Quality.ScopeOptions.{
  TrustedScopeEvidence, OptionScope, ScopeOptionAuthority, multi_repository_evidence,
  project_policy, trusted_maintainer_project_decision, advisory_generalization, repository_evidence,
  EvidenceById, ScopeOption, require_identifier, register_repositories, check_repository,
  validate_evidence, or_empty, RepositoryEvidence, group_one, group_by_repository, is_project,
  has_repository, add_option, add_repository_options, add_multi_repository_option,
  add_authority_option, offer_options, build_candidate_scope_options,
}

register_repositories-eq :
    (acc ids registered : List Text)
    → register_repositories acc ids ≡ ok registered
    → acc ++ ids ≡ registered
unfolding register_repositories
register_repositories-eq acc [] registered h = append-nil acc ∙ ok-injective h
register_repositories-eq acc (x ∷ ids) registered h =
    let rest : register_repositories (acc ++ x ∷ []) ids ≡ ok registered = ground arith in
    sym (append_assoc acc (x ∷ []) ids)
    ∙ register_repositories-eq (acc ++ x ∷ []) ids registered rest

module _ (project_id : Text) (registered : List Text) (evidence : List TrustedScopeEvidence) where
  -- A citation of some evidence, and of evidence of a repository.
  abbrev pub Cites : Text → Type 0
  Cites id = (item : TrustedScopeEvidence) × Memᴰ item evidence × (item.evidence_id ≡ id)

  abbrev pub CitesOf : Text → Text → Type 0
  CitesOf repository_id id =
      (item : TrustedScopeEvidence) × Memᴰ item evidence
      × (item.evidence_id ≡ id)
      × (item.repository_id ≡ some repository_id)

  -- A project option is for the project; a repository option is for a registered repository, and all its
  -- evidence is of that repository.
  abbrev pub Scoped : OptionScope → ScopeOption → Type 0
  Scoped OptionScope.project o = o.scope_id ≡ project_id
  Scoped OptionScope.repository o =
      Memᴰ o.scope_id registered × All (CitesOf o.scope_id) o.evidence_ids

  pub record IsOffered (o : ScopeOption) : Type 0 where
    pub reviewed : o.requires_maintainer_review ≡ is_project o.scope
    pub known : All Cites o.evidence_ids
    pub scoped : Scoped o.scope o
    pub made : (m : EvidenceById) × (o.metadata ≡ some m)

  -- Evidence that was given, of a registered repository if it is of one.
  abbrev Good : TrustedScopeEvidence → Type 0
  Good item = Memᴰ item evidence × ((r : Text) → item.repository_id ≡ some r → Memᴰ r registered)

  validate-parts :
      (by_id m : EvidenceById) (item : TrustedScopeEvidence) (items : List TrustedScopeEvidence)
      → validate_evidence registered by_id (item ∷ items) ≡ ok m
      → (check_repository registered item.repository_id ≡ ok tt)
        × (validate_evidence registered (map_set item.evidence_id item by_id) items ≡ ok m)
  unfolding validate_evidence
  validate-parts by_id m item items h = ground arith

  check_repository-Memᴰ :
      (o : Option Text) (r : Text)
      → check_repository registered o ≡ ok tt
      → o ≡ some r
      → Memᴰ r registered
  check_repository-Memᴰ none r h e = cc
  check_repository-Memᴰ (some s) r h e =
      includes-Memᴰ registered r
        (subst (λ t. includes registered t ≡ true) (some_inj e) (ground arith))

  validate_evidence-All :
      (by_id m : EvidenceById) (items : List TrustedScopeEvidence)
      → validate_evidence registered by_id items ≡ ok m
      → All (λ i. Memᴰ i evidence) items
      → All (λ e. Good e.1) by_id
      → All (λ e. Good e.1) m
  unfolding validate_evidence
  validate_evidence-All by_id m [] h given k =
      subst (All (λ (e : Text × TrustedScopeEvidence). Good e.1)) (ok-injective h) k
  validate_evidence-All by_id m (item ∷ items) h (here, given) k =
      let (checked, rest) = validate-parts by_id m item items h in
      validate_evidence-All (map_set item.evidence_id item by_id) m items rest given (
        All-map_set (λ (e : Text × TrustedScopeEvidence). Good e.1) item.evidence_id item by_id
          (here, λ r e. check_repository-Memᴰ item.repository_id r checked e) k)

  abbrev OfRepository : Text → TrustedScopeEvidence → Type 0
  OfRepository r item = Good item × (item.repository_id ≡ some r)

  abbrev Grouped : Text × List TrustedScopeEvidence → Type 0
  Grouped e = Memᴰ e.0 registered × All (OfRepository e.0) e.1

  or_empty-All :
      (r : Text) (m : RepositoryEvidence)
      → All Grouped m
      → All (OfRepository r) (or_empty (map_get r m))
  or_empty-All r m h = elim (Option-cases (map_get r m)) [
    | inl missing ↦ rw missing tt
    | inr (items, found) ↦ rw found (All-map_get Grouped r items m h found).1
  ]

  group_one-All :
      (o : Option Text) (item : TrustedScopeEvidence) (m : RepositoryEvidence)
      → item.repository_id ≡ o
      → Good item
      → All Grouped m
      → All Grouped (group_one o item m)
  group_one-All none item m e q h = h
  group_one-All (some r) item m e q h =
      All-map_set Grouped r (or_empty (map_get r m) ++ item ∷ []) m
        (
          q.1 r e,
          All-append (OfRepository r) (or_empty (map_get r m)) (item ∷ []) (or_empty-All r m h)
              ((q, e), tt),
        )
        h

  group_by_repository-All :
      (m : RepositoryEvidence) (items : List TrustedScopeEvidence)
      → All Good items
      → All Grouped m
      → All Grouped (group_by_repository m items)
  unfolding group_by_repository
  group_by_repository-All m [] q h = h
  group_by_repository-All m (item ∷ items) (q, qs) h =
      group_by_repository-All (group_one item.repository_id item m) items qs
        (group_one-All item.repository_id item m refl q h)

  ids-Cites :
      (items : List TrustedScopeEvidence)
      → All Good items
      → All Cites (map (λ (i : TrustedScopeEvidence). i.evidence_id) items)
  ids-Cites [] h = tt
  ids-Cites (i ∷ items) (q, h) = ((i, q.0, refl), ids-Cites items h)

  ids-CitesOf :
      (r : Text) (items : List TrustedScopeEvidence)
      → All (OfRepository r) items
      → All (CitesOf r) (map (λ (i : TrustedScopeEvidence). i.evidence_id) items)
  ids-CitesOf r [] h = tt
  ids-CitesOf r (i ∷ items) (q, h) = ((i, q.0.0, refl, q.1), ids-CitesOf r items h)

  filter-Good :
      (test : TrustedScopeEvidence → Bool) (items : List TrustedScopeEvidence)
      → All Good items
      → All Good (filter test items)
  filter-Good test [] h = tt
  filter-Good test (i ∷ items) (q, h) = elim (Bool-cases (test i)) [
    | inl kept ↦ rw kept (q, filter-Good test items h)
    | inr dropped ↦ rw dropped (filter-Good test items h)
  ]

  module _ (random_uuid : ℕ → Text) (by_id : EvidenceById) where
    add_project-All :
        (items : List TrustedScopeEvidence) (authority : ScopeOptionAuthority)
        (options : List ScopeOption)
        → All Good items
        → All IsOffered options
        → All IsOffered (
            add_option random_uuid by_id project_id OptionScope.project project_id items authority
              options)
    unfolding add_option
    add_project-All items authority options q h = All-append IsOffered options _ h (
      record { reviewed = refl; known = ids-Cites items q; scoped = refl; made = (by_id, refl) },
      tt,
    )

    add_repository-All :
        (r : Text) (items : List TrustedScopeEvidence) (options : List ScopeOption)
        → Memᴰ r registered
        → All (OfRepository r) items
        → All IsOffered options
        → All IsOffered (
            add_option random_uuid by_id project_id OptionScope.repository r items
              repository_evidence options)
    unfolding add_option
    add_repository-All r items options i q h = All-append IsOffered options _ h (
      record {
        reviewed = refl;
        known = ids-Cites items (All-imp (OfRepository r) Good (λ j g. g.0) items q);
        scoped = (i, ids-CitesOf r items q);
        made = (by_id, refl);
      },
      tt,
    )

    add_repository_options-All :
        (m : RepositoryEvidence) (keys : List Text) (options : List ScopeOption)
        → All Grouped m
        → All (λ r. Memᴰ r registered) keys
        → All IsOffered options
        → All IsOffered (add_repository_options random_uuid by_id project_id m keys options)
    unfolding add_repository_options
    add_repository_options-All m [] options g k h = h
    add_repository_options-All m (r ∷ keys) options g (i, k) h =
        let items = or_empty (map_get r m) in
        let q = or_empty-All r m g in
        add_repository_options-All m keys
          (add_option random_uuid by_id project_id OptionScope.project project_id items
            advisory_generalization
            (add_option random_uuid by_id project_id OptionScope.repository r items
              repository_evidence options))
          g k
          (add_project-All items advisory_generalization _
            (All-imp (OfRepository r) Good (λ j x. x.0) items q)
            (add_repository-All r items options i q h))

    add_multi_repository_option-All :
        (m : RepositoryEvidence) (trusted : List TrustedScopeEvidence) (options : List ScopeOption)
        → All Good trusted
        → All IsOffered options
        → All IsOffered (add_multi_repository_option random_uuid by_id project_id m trusted options)
    unfolding add_multi_repository_option
    add_multi_repository_option-All m trusted options q h = elim (Bool-cases (leb 2 (length m))) [
      | inr few ↦ rw few h
      | inl many ↦ rw many (
          add_project-All _ multi_repository_evidence options
            (filter-Good (λ (i : TrustedScopeEvidence). has_repository i.repository_id) trusted q)
            h)
    ]

    add_authority_option-All :
        (name : Text) (authority : ScopeOptionAuthority) (trusted : List TrustedScopeEvidence)
        (options : List ScopeOption)
        → All Good trusted
        → All IsOffered options
        → All IsOffered
            (add_authority_option random_uuid by_id project_id name authority trusted options)
    unfolding add_authority_option
    add_authority_option-All name authority trusted options q h =
        let found =
          filter-Good (λ (i : TrustedScopeEvidence). text_eq i.authority name) trusted q in
        elim (Bool-cases (
          ltb 0
            (length (filter (λ (i : TrustedScopeEvidence). text_eq i.authority name) trusted)))) [
              | inr nothing ↦ rw nothing h
              | inl something ↦ rw something (add_project-All _ authority options found h)
            ]

    keys-registered :
        (m : RepositoryEvidence)
        → All Grouped m
        → All (λ r. Memᴰ r registered) (map (λ (e : Text × List TrustedScopeEvidence). e.0) m)
    keys-registered [] h = tt
    keys-registered (e ∷ m) (q, h) = (q.0, keys-registered m h)

    offer_options-All :
        All (λ e. Good e.1) by_id → All IsOffered (offer_options random_uuid by_id project_id)
    unfolding offer_options
    offer_options-All h =
        let trusted = map_values by_id in
        let q = All-map Good (λ (e : Text × TrustedScopeEvidence). e.1) by_id h in
        let m = group_by_repository [] trusted in
        let g = group_by_repository-All [] trusted q tt in
        add_authority_option-All _ project_policy trusted _ q (
          add_authority_option-All _ trusted_maintainer_project_decision trusted _ q (
            add_multi_repository_option-All m trusted _ q (
              add_repository_options-All m _ [] g
                (All-sort compare_text (λ r. Memᴰ r registered) _ (keys-registered m g)) tt)))

-- Each option that is offered is marked as the server's, needs a maintainer's review exactly when its
-- scope is the project, cites only given evidence, and is for the project, or for a registered
-- repository of which all its evidence is.
pub build_candidate_scope_options-IsOffered :
    (random_uuid : ℕ → Text) (project_id : Text) (registered : List Text)
    (evidence : List TrustedScopeEvidence) (options : List ScopeOption)
    → build_candidate_scope_options random_uuid project_id registered evidence ≡ ok options
    → All (IsOffered project_id registered evidence) options
unfolding build_candidate_scope_options
build_candidate_scope_options-IsOffered random_uuid project_id registered evidence options h =
    let (u, named, h1) = >>=-eq-ok (require_identifier project_id 512) _ h in
    let (ids, unique, h2) = >>=-eq-ok (register_repositories [] registered) _ h1 in
    let same = register_repositories-eq [] registered ids unique in
    let (by_id, valid, h3) = >>=-eq-ok (validate_evidence ids [] evidence) _ h2 in
    let good =
      validate_evidence-All project_id registered evidence [] by_id evidence
        (subst (λ r. validate_evidence r [] evidence ≡ ok by_id) (sym same) valid)
        (All-of_Memᴰ (λ i. Memᴰ i evidence) evidence (λ i given. given)) tt in
    subst (All (IsOffered project_id registered evidence)) (ok-injective h3)
      (offer_options-All project_id registered evidence random_uuid by_id good)
