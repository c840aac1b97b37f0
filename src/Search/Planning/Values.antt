-- ===== src/Search/Planning/Values.antt =====
-- src/search/planning.ts: what the checks of the values of a plan let through.
use mathlib.Core.List.{Memᴰ}
use edgemneme.Base.{
  ℕ, ◌≤◌, ◌≡◌, sym, ◌∙◌, subst, ◌≢◌, inl, inr, false, Option, none, some, List, [], ◌∷◌, ok, ◌>>=◌,
  map_result, map, ap, ap₂, refl, ltb, ◌||◌, length, throw_if, throw_if-eq-ok, ok-injective,
  IsSetOf, sorted_set-IsSetOf, Text, arith, includes, includes-Memᴰ, is_empty, trim, utf16_length,
  utf8_length, has_control, sorted_set, sorted_set-All, All, Bool-cases, Result-cases,
  ne_nil_of_is_empty, >>=-eq-ok, map_result-All, Result,
}
use edgemneme.Contracts.Taxonomy.{memory_scopes}
use edgemneme.Search.Types.{SearchScopeFilter}
use edgemneme.Search.Planning.{
  SearchError, too_many_identifiers, value_count_invalid, require_identifier,
  require_vectorize_indexed_string, as_index_generation, normalize_identifiers,
  normalize_authorized_repository_ids, normalize_enum_value, normalize_enum_values, normalize_scope,
  optional,
}

-- A trimmed text that is not empty and not longer than `n` UTF-16 units.
abbrev pub IsIdentifier : ℕ → Text → Type 0
IsIdentifier n v = (v ≢ []) × (utf16_length v ≤ n)

abbrev pub IsIndexed : Text → Type 0
IsIndexed v = utf8_length v ≤ 64

-- A value that is given is kept, in the sense of `R`, and one that is missing stays so.
abbrev pub Kept : {A B : Type 0} → (A → B → Type 0) → Option A → Option B → Type 0
Kept R none none = Unit
Kept R (some a) (some b) = R a b
Kept R none (some b) = ⊥
Kept R (some a) none = ⊥

-- From 1 to 50 values.
abbrev pub IsCounted : List Text → Type 0
IsCounted values = (1 ≤ length values) × (length values ≤ 50)

-- The values, each once; all of them are of the enumeration.
abbrev pub IsEnumSet : List Text → List Text → List Text → Type 0
IsEnumSet allowed values ids = IsCounted values × IsSetOf values ids × All (λ r. Memᴰ r allowed) ids

map_result-map {ℓ κ} :
    {A : Type ℓ} {B : Type κ} (f : A → Result SearchError B) (g : A → B)
    → ((a : A) (b : B) → f a ≡ ok b → b ≡ g a)
    → (xs : List A) (ys : List B) → map_result f xs ≡ ok ys
    → ys ≡ map g xs
map_result-map f g h [] ys e = sym (ok-injective e)
map_result-map f g h (x ∷ xs) ys e =
    let (y, here, later) = >>=-eq-ok (f x) (λ y. map_result f xs >>= λ zs. ok (y ∷ zs)) e in
    let (zs, rest, done) = >>=-eq-ok (map_result f xs) (λ zs. ok (y ∷ zs)) later in
    sym (ok-injective done) ∙ ap₂ (λ b bs. b ∷ bs) (h x y here) (map_result-map f g h xs zs rest)

map_self : (xs : List Text) → map (λ x. x) xs ≡ xs
map_self [] = refl
map_self (x ∷ xs) = ap (λ ys. x ∷ ys) (map_self xs)

length-pos : (xs : List Text) → is_empty xs ≡ false → 1 ≤ length xs
length-pos [] h = cc
length-pos (x ∷ xs) h = omega arith

require_identifier_sound :
    (v : Text) (n : ℕ) (r : Text) → require_identifier v n ≡ ok r → (r ≡ trim v) × IsIdentifier n r
unfolding require_identifier
require_identifier_sound v n r h = elim (Bool-cases (is_empty (trim v))) [
  | inl nothing ↦ ground arith
  | inr something ↦
      let e : trim v ≡ r = ground arith in
      (sym e, (subst (λ t. t ≢ []) e (ne_nil_of_is_empty (trim v) something), ground arith))
]

pub require_vectorize_sound :
    (v r : Text) → require_vectorize_indexed_string v ≡ ok r → (r ≡ v) × IsIndexed r
unfolding require_vectorize_indexed_string
require_vectorize_sound v r h = ground arith

normalize_enum_value_sound :
    (allowed : List Text) (v r : Text)
    → normalize_enum_value v allowed ≡ ok r
    → (r ≡ v) × Memᴰ r allowed
unfolding normalize_enum_value
normalize_enum_value_sound allowed v r h = elim (Bool-cases (includes allowed v)) [
  | inl found ↦
      let e : v ≡ r = ground arith in
      (sym e, subst (λ t. Memᴰ t allowed) e (includes-Memᴰ allowed v found))
  | inr missing ↦ absurd (ground arith)
]

pub normalize_enum_values_sound :
    (allowed values rs : List Text)
    → normalize_enum_values values allowed ≡ ok rs
    → IsEnumSet allowed values rs
unfolding normalize_enum_values
normalize_enum_values_sound allowed values rs h =
    let (unit, counted, h1) =
      >>=-eq-ok (throw_if (is_empty values || ltb 50 (length values)) value_count_invalid) _ h in
    let (found, mapped, done) =
      >>=-eq-ok (map_result (λ value. normalize_enum_value value allowed) values) _ h1 in
    let passed = throw_if-eq-ok _ value_count_invalid unit counted in
    let same =
      map_result-map _ (λ v. v) (λ v r e. (normalize_enum_value_sound allowed v r e).0) values found
        mapped
      ∙ map_self values in
    (
      (length-pos values (ground arith), ground arith),
      subst (λ ids. IsSetOf values ids) (ok-injective done)
          (subst (λ vs. IsSetOf vs (sorted_set found)) same (sorted_set-IsSetOf found)),
      subst (All (λ r. Memᴰ r allowed)) (ok-injective done) (
          sorted_set-All (λ r. Memᴰ r allowed) found
            (map_result-All _ (λ r. Memᴰ r allowed)
              (λ v r e. (normalize_enum_value_sound allowed v r e).1) values found mapped)),
    )

-- What is made of identifiers by trimming them, each once; all of them satisfy `P`.
abbrev pub IsIdentifierSet : (Text → Type 0) → List Text → List Text → Type 0
IsIdentifierSet P values ids = IsSetOf (map trim values) ids × All P ids

trimmed_set :
    (P : Text → Type 0) (f : Text → Result SearchError Text)
    → ((v r : Text) → f v ≡ ok r → (r ≡ trim v) × P r)
    → (values found : List Text) → map_result f values ≡ ok found
    → IsIdentifierSet P values (sorted_set found)
trimmed_set P f h values found mapped =
    let same = map_result-map f trim (λ v r e. (h v r e).0) values found mapped in
    (
      subst (λ vs. IsSetOf vs (sorted_set found)) same (sorted_set-IsSetOf found),
      sorted_set-All P found (map_result-All f P (λ v r e. (h v r e).1) values found mapped),
    )

normalize_identifiers_sound :
    (values : List Text) (n : ℕ) (rs : List Text)
    → normalize_identifiers values false n ≡ ok rs
    → IsCounted values × IsIdentifierSet (IsIdentifier n) values rs
unfolding normalize_identifiers
normalize_identifiers_sound values n rs h =
    let (unit, counted, h1) =
      >>=-eq-ok (throw_if (ltb (length values) 1 || ltb 50 (length values)) too_many_identifiers) _
        h in
    let (found, mapped, done) =
      >>=-eq-ok (map_result (λ value. require_identifier value n) values) _ h1 in
    let passed = throw_if-eq-ok _ too_many_identifiers unit counted in
    (
      (ground arith, ground arith),
      subst (IsIdentifierSet (IsIdentifier n) values) (ok-injective done) (
          trimmed_set (IsIdentifier n) _ (λ v r e. require_identifier_sound v n r e) values found
            mapped),
    )

abbrev pub IsRepositoryId : Text → Type 0
IsRepositoryId v = IsIdentifier 512 v × IsIndexed v

abbrev pub repository_id : Text → Result SearchError Text
repository_id value = require_identifier value 512 >>= λ id. require_vectorize_indexed_string id

pub repository_id_sound : (v r : Text) → repository_id v ≡ ok r → (r ≡ trim v) × IsRepositoryId r
repository_id_sound v r h =
    let (i, p, q) = >>=-eq-ok (require_identifier v 512) require_vectorize_indexed_string h in
    let (same, short) = require_vectorize_sound i r q in
    let (trimmed, identifier) = require_identifier_sound v 512 i p in
    (same ∙ trimmed, (subst (IsIdentifier 512) (sym same) identifier, short))

pub normalize_authorized_sound :
    (values rs : List Text)
    → normalize_authorized_repository_ids values ≡ ok rs
    → IsIdentifierSet IsRepositoryId values rs
unfolding normalize_authorized_repository_ids
normalize_authorized_sound values rs h =
    let (found, mapped, done) = >>=-eq-ok (map_result repository_id values) _ h in
    subst (IsIdentifierSet IsRepositoryId values) (ok-injective done)
      (trimmed_set IsRepositoryId repository_id repository_id_sound values found mapped)

-- The scope's type is of the enumeration, and its identifiers are trimmed, each once.
pub record IsScope (given planned : SearchScopeFilter) : Type 0 where
  pub type : planned.type ≡ given.type
  pub known : Memᴰ planned.type memory_scopes
  pub counted : IsCounted given.ids
  pub ids : IsIdentifierSet (IsIdentifier 2048) given.ids planned.ids

pub normalize_scope_sound : (s r : SearchScopeFilter) → normalize_scope s ≡ ok r → IsScope s r
unfolding normalize_scope
normalize_scope_sound s r h =
    let typed : normalize_enum_value s.type memory_scopes ≡ ok r.type = ground arith in
    let named : normalize_identifiers s.ids false 2048 ≡ ok r.ids = ground arith in
    let (same, known) = normalize_enum_value_sound memory_scopes s.type r.type typed in
    let (counted, ids) = normalize_identifiers_sound s.ids 2048 r.ids named in
    record { type = same; known = known; counted = counted; ids = ids }

pub optional-Kept :
    {A B : Type 0} (f : A → Result SearchError B) (R : A → B → Type 0)
    → ((a : A) (b : B) → f a ≡ ok b → R a b)
    → (o : Option A) (r : Option B) → optional f o ≡ ok r
    → Kept R o r
optional-Kept f R h none none e = tt
optional-Kept f R h none (some b) e = cc
optional-Kept f R h (some a) none e = elim (Result-cases (f a)) [
  | inl (b, done) ↦ absurd (ground arith)
  | inr (x, failed) ↦ absurd (ground arith)
]
optional-Kept f R h (some a) (some b) e = h a b (ground arith)

pub as_index_generation_sound :
    (v r : Text) → as_index_generation v ≡ ok r → (r ≡ v) × (r ≢ []) × (has_control r ≡ false)
unfolding as_index_generation
as_index_generation_sound v r h = elim (Bool-cases (is_empty v)) [
  | inl nothing ↦ absurd (ground arith)
  | inr something ↦
      let e : v ≡ r = ground arith in
      (sym e, subst (λ t. t ≢ []) e (ne_nil_of_is_empty v something), ground arith)
]
