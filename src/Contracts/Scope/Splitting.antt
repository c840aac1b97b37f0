-- ===== src/Contracts/Scope/Splitting.antt =====
-- src/contracts/scope.ts: the pattern of a scope identifier finds its parts, and nothing else.
use edgemneme.Base.{
  ℕ, ◌≡◌, refl, sym, ◌∙◌, ap, ap₂, inl, inr, true, false, some, List, [], ◌∷◌, ◌++◌, Text, arith,
  ◌==◌, is_empty, text_eq, text_eq_iff, text_eq_self, All, Bool-cases,
}
use edgemneme.Contracts.Scope.{
  prepend, split_at_colons, match_parts, match_scope_id, write_scope_id,
}

abbrev pub HasNoColon : Text → Type 0
HasNoColon t = All (λ c. (c == b':') ≡ false) t

split_at_colons_one : (a : Text) → HasNoColon a → split_at_colons a ≡ a ∷ []
unfolding split_at_colons
split_at_colons_one [] h = refl
split_at_colons_one (c ∷ a) (q, h) = rw (q, split_at_colons_one a h)

split_at_colons_more :
    (a s : Text) → HasNoColon a → split_at_colons (a ++ b':' ∷ s) ≡ a ∷ split_at_colons s
unfolding split_at_colons
split_at_colons_more [] s h = refl
split_at_colons_more (c ∷ a) s (q, h) = rw (q, split_at_colons_more a s h)

-- The parts with colons between them.
unsplit : List Text → Text
unsplit [] = []
unsplit (a ∷ []) = a
unsplit (a ∷ b ∷ parts) = a ++ b':' ∷ unsplit (b ∷ parts)

unsplit-prepend : (c : ℕ) (parts : List Text) → unsplit (prepend c parts) ≡ c ∷ unsplit parts
unfolding unsplit
unsplit-prepend c [] = refl
unsplit-prepend c (a ∷ []) = refl
unsplit-prepend c (a ∷ b ∷ parts) = refl

unsplit-nil-prepend :
    (c : ℕ) (parts : List Text) → unsplit ([] ∷ prepend c parts) ≡ b':' ∷ unsplit (prepend c parts)
unfolding unsplit
unsplit-nil-prepend c [] = refl
unsplit-nil-prepend c (a ∷ parts) = refl

unsplit-cons : (s : Text) → unsplit ([] ∷ split_at_colons s) ≡ b':' ∷ unsplit (split_at_colons s)
unfolding unsplit split_at_colons
unsplit-cons [] = refl
unsplit-cons (c ∷ s) = elim (Bool-cases (c == b':')) [
  | inl colon ↦ rw colon
  | inr other ↦ rw other (unsplit-nil-prepend c (split_at_colons s))
]

unsplit-split : (s : Text) → unsplit (split_at_colons s) ≡ s
unfolding unsplit split_at_colons
unsplit-split [] = refl
unsplit-split (c ∷ s) = elim (Bool-cases (c == b':')) [
  | inl colon ↦
      let e : b':' ≡ c = ground arith in
      rw colon (unsplit-cons s ∙ ap₂ (λ x y. x ∷ y) e (unsplit-split s))
  | inr other ↦ rw other (unsplit-prepend c (split_at_colons s) ∙ ap (λ t. c ∷ t) (unsplit-split s))
]

match_parts-inv :
    (first second : Text) (parts : List Text) (x y : Text)
    → match_parts first second parts ≡ some (x, y)
    → parts ≡ first ∷ x ∷ second ∷ y ∷ []
match_parts-inv first second (a ∷ v ∷ b ∷ w ∷ []) x y h =
    let e : text_eq a first ≡ true = ground arith in
    let f : text_eq b second ≡ true = ground arith in
    let g : v ≡ x = ground arith in
    let i : w ≡ y = ground arith in cc ((text_eq_iff a first).0 e, (text_eq_iff b second).0 f, g, i)
match_parts-inv first second [] x y h = cc
match_parts-inv first second (a ∷ []) x y h = cc
match_parts-inv first second (a ∷ v ∷ []) x y h = cc
match_parts-inv first second (a ∷ v ∷ b ∷ []) x y h = cc
match_parts-inv first second (a ∷ v ∷ b ∷ w ∷ z ∷ parts) x y h = cc

-- A matched text is the two words and the two groups, with colons between them.
pub match_scope_id-write :
    (first second s x y : Text)
    → match_scope_id first second s ≡ some (x, y)
    → write_scope_id first second x y ≡ s
unfolding match_scope_id write_scope_id unsplit
match_scope_id-write first second s x y h =
    sym (ap unsplit (match_parts-inv first second (split_at_colons s) x y h)) ∙ unsplit-split s

pub write-match_scope_id :
    (first second x y : Text)
    → HasNoColon first
    → HasNoColon second
    → HasNoColon x
    → HasNoColon y
    → is_empty x ≡ false
    → is_empty y ≡ false
    → match_scope_id first second (write_scope_id first second x y) ≡ some (x, y)
unfolding match_scope_id write_scope_id
write-match_scope_id first second x y hf hs hx hy nx ny = rw (
  split_at_colons_more first (x ++ b':' ∷ (second ++ b':' ∷ y)) hf,
  split_at_colons_more x (second ++ b':' ∷ y) hx,
  split_at_colons_more second y hs,
  split_at_colons_one y hy,
  text_eq_self first,
  text_eq_self second,
  nx,
  ny,
)
