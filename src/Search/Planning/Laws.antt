-- ===== src/Search/Planning/Laws.antt =====
-- src/search/planning.ts: which candidates pass the hard filters.
use mathlib.Core.List.{Memᴰ}
use edgemneme.Base.{
  ◌≡◌, refl, ◌↔◌, Bool, true, false, not, ◌||◌, Option, none, some, List, Text, arith, includes,
  includes-Memᴰ, Memᴰ-includes, text_eq, text_eq_iff, and-true, true_and, if◌then◌else◌,
}
use edgemneme.Search.Types.{SearchScopeFilter, HardFilterPlan, ValidatedSearchCandidate}
use edgemneme.Search.Platform.{Platform}
use edgemneme.Search.Planning.{is_timestamp, passes_hard_filters, admits, in_scope, begun, not_over}

-- An absent filter admits every value, a present one its members.
abbrev pub Within : Option (List Text) → Text → Type 0
Within none v = Unit
Within (some values) v = Memᴰ v values

module _ (p : Platform) where
  open p use {Number, lt, date_parse}

  abbrev pub InScope : Option SearchScopeFilter → ValidatedSearchCandidate Number → Type 0
  InScope none c = Unit
  InScope (some s) c = (c.scope ≡ s.type) × Memᴰ c.scope_id s.ids

  -- The validity interval is made of timestamps, if any, and holds the instant.
  abbrev pub Begun : Option Text → Number → Type 0
  Begun none t = Unit
  Begun (some from) t = (is_timestamp p from ≡ true) × (lt t (date_parse from) ≡ false)

  abbrev pub NotOver : Option Text → Number → Type 0
  NotOver none t = Unit
  NotOver (some until) t = (is_timestamp p until ≡ true) × (lt t (date_parse until) ≡ true)

  pub record IsAdmitted (c : ValidatedSearchCandidate Number) (f : HardFilterPlan) : Type 0 where
    pub project : c.project_id ≡ f.project_id
    pub generation : c.index_generation ≡ f.index_generation
    pub status : Memᴰ c.status f.statuses
    pub kind : Within f.kinds c.kind
    pub memory_class : Within f.memory_classes c.memory_class
    pub scope : InScope f.scope c
    pub begun : Begun c.valid_from (date_parse f.valid_at)
    pub not_over : NotOver c.valid_until (date_parse f.valid_at)

  admits-Within : (o : Option (List Text)) (v : Text) → admits p o v ≡ true → Within o v
  admits-Within none v h = tt
  admits-Within (some values) v h = includes-Memᴰ values v h

  Within-admits : (o : Option (List Text)) (v : Text) → Within o v → admits p o v ≡ true
  Within-admits none v h = refl
  Within-admits (some values) v h = Memᴰ-includes values v h

  in_scope-InScope :
      (o : Option SearchScopeFilter) (c : ValidatedSearchCandidate Number)
      → in_scope p o c ≡ true
      → InScope o c
  in_scope-InScope none c h = tt
  in_scope-InScope (some s) c h =
      let (a, b) = and-true (text_eq c.scope s.type) (includes s.ids c.scope_id) h in
      ((text_eq_iff _ _).0 a, includes-Memᴰ s.ids c.scope_id b)

  InScope-in_scope :
      (o : Option SearchScopeFilter) (c : ValidatedSearchCandidate Number)
      → InScope o c
      → in_scope p o c ≡ true
  InScope-in_scope none c h = refl
  InScope-in_scope (some s) c (a, b) =
      true_and ((text_eq_iff _ _).1 a) (Memᴰ-includes s.ids c.scope_id b)

  begun_iff : (o : Option Text) (t : Number) → (begun p o t ≡ true) ↔ Begun o t
  begun_iff none t = ((λ h. tt), (λ h. refl))
  begun_iff (some from) t = ground arith

  not_over_iff : (o : Option Text) (t : Number) → (not_over p o t ≡ true) ↔ NotOver o t
  not_over_iff none t = ((λ h. tt), (λ h. refl))
  not_over_iff (some until) t = ground arith

  -- The seven tests, each of which can refuse.
  abbrev Tests : ValidatedSearchCandidate Number → HardFilterPlan → Type 0
  Tests c f =
      (text_eq c.project_id f.project_id ≡ true)
      × (text_eq c.index_generation f.index_generation ≡ true)
      × (includes f.statuses c.status ≡ true)
      × (admits p f.kinds c.kind ≡ true)
      × (admits p f.memory_classes c.memory_class ≡ true)
      × (in_scope p f.scope c ≡ true)
      × (begun p c.valid_from (date_parse f.valid_at) ≡ true)
      × (not_over p c.valid_until (date_parse f.valid_at) ≡ true)

  ladder :
      (a b c d e g h k : Bool)
      → ((if not a || not b || not c
            then false
            else (if not d
                then false
                else (if not e
                    then false
                    else (if not g then false else (if not h then false else k)))))
          ≡ true)
        ↔ ((a ≡ true)
            × (b ≡ true)
            × (c ≡ true)
            × (d ≡ true)
            × (e ≡ true)
            × (g ≡ true)
            × (h ≡ true)
            × (k ≡ true))
  ladder a b c d e g h k = ground arith

  passes-Tests_iff :
      (c : ValidatedSearchCandidate Number) (f : HardFilterPlan)
      → (passes_hard_filters p c f ≡ true) ↔ Tests c f
  unfolding passes_hard_filters
  passes-Tests_iff c f = ladder _ _ _ _ _ _ _ _

  -- A candidate passes exactly when it is of the plan's project, generation and statuses, meets each
  -- filter that is present, and its validity interval holds the plan's instant.
  pub passes_hard_filters_iff :
      (c : ValidatedSearchCandidate Number) (f : HardFilterPlan)
      → (passes_hard_filters p c f ≡ true) ↔ IsAdmitted c f
  passes_hard_filters_iff c f = (
    λ h.
        let (a, b, s, k, m, i, v, w) = (passes-Tests_iff c f).0 h in
        record {
          project = (text_eq_iff _ _).0 a;
          generation = (text_eq_iff _ _).0 b;
          status = includes-Memᴰ f.statuses c.status s;
          kind = admits-Within f.kinds c.kind k;
          memory_class = admits-Within f.memory_classes c.memory_class m;
          scope = in_scope-InScope f.scope c i;
          begun = (begun_iff c.valid_from _).0 v;
          not_over = (not_over_iff c.valid_until _).0 w;
        },
    λ q. (passes-Tests_iff c f).1 (
      (text_eq_iff _ _).1 q.project,
      (text_eq_iff _ _).1 q.generation,
      Memᴰ-includes f.statuses c.status q.status,
      Within-admits f.kinds c.kind q.kind,
      Within-admits f.memory_classes c.memory_class q.memory_class,
      InScope-in_scope f.scope c q.scope,
      (begun_iff c.valid_from _).1 q.begun,
      (not_over_iff c.valid_until _).1 q.not_over,
    ),
  )
