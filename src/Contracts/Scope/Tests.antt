-- ===== src/Contracts/Scope/Tests.antt =====
-- src/contracts/scope.ts: a codec that satisfies the hypotheses, and the theorems at it.
use edgemneme.Base.{
  ◌+◌, ◌-◌, ◌≡◌, refl, ap, ap₂, ◌↔◌, true, false, Option, some, some_inj, [], ◌∷◌, map, ok, Text,
  codes, arith, is_empty, text_eq, trim, is_white_space, subst,
}
use edgemneme.Contracts.Scope.{
  RefScopeIdParts, WorktreeScopeIdParts, split_at_colons, match_scope_id, write_scope_id,
  encode_scope_component, decode_scope_component, create_scope_id, parse_scope_id,
  create_ref_scope_id, parse_ref_scope_id, ScopeRows, is_formal_scope_entity_valid,
}
use edgemneme.Contracts.Scope.Splitting.{HasNoColon}
use edgemneme.Contracts.Scope.RoundTrip.{
  IsUriCodec, parse_ref_scope_id_iff, is_formal_scope_entity_valid-ref_iff,
}

-- Each code point is moved past the colon, and back.
abbrev shift : Text → Option Text
shift v = some (map (λ c. c + 100) v)

abbrev unshift : Text → Option Text
unshift e = some (map (λ c. c - 100) e)

map-unshift : (v : Text) → map (λ c. c - 100) (map (λ c. c + 100) v) ≡ v
map-unshift [] = refl
map-unshift (c ∷ v) =
    let e : c + 100 - 100 ≡ c = omega arith in ap₂ (λ x y. x ∷ y) e (map-unshift v)

shifted-HasNoColon : (v : Text) → HasNoColon (map (λ c. c + 100) v)
shifted-HasNoColon [] = tt
shifted-HasNoColon (c ∷ v) = (ground arith, shifted-HasNoColon v)

shifted_keeps : (v : Text) → is_empty v ≡ false → is_empty (map (λ c. c + 100) v) ≡ false
shifted_keeps [] h = cc
shifted_keeps (c ∷ v) h = refl

shift-IsUriCodec : IsUriCodec shift unshift
shift-IsUriCodec = record {
  inverts = λ v e h. subst (λ t. unshift t ≡ some v) (some_inj h) (ap some (map-unshift v));
  escapes = λ v e h. subst HasNoColon (some_inj h) (shifted-HasNoColon v);
  keeps = λ v e h k. subst (λ t. is_empty t ≡ false) (some_inj h) (shifted_keeps v k);
}

abbrev main_ref : RefScopeIdParts
main_ref = record { repository_id = codes "a:b"; ref = codes "main" }

abbrev main_id : Text
unfolding write_scope_id
main_id =
    write_scope_id (codes "repository") (codes "ref") (map (λ c. c + 100) (codes "a:b"))
      (map (λ c. c + 100) (codes "main"))

written : create_ref_scope_id shift unshift (codes "a:b") (codes "main") ≡ ok main_id
unfolding create_ref_scope_id create_scope_id encode_scope_component trim is_white_space text_eq
    write_scope_id
written = refl

read : parse_ref_scope_id shift unshift main_id ≡ some main_ref
unfolding parse_ref_scope_id parse_scope_id decode_scope_component encode_scope_component
    match_scope_id split_at_colons trim is_white_space text_eq write_scope_id
read = refl

abbrev worktree : WorktreeScopeIdParts
worktree = record { session_id = codes "s"; worktree_id = codes "w" }

abbrev rows : ScopeRows shift unshift
rows = record {
  cursor = λ project_id repository_id ref. text_eq ref (codes "main");
  worktree = λ project_id session_id worktree_id. true;
  repository = λ project_id repository_id. true;
  session = λ project_id session_id. false;
}

parse_ref_scope_id_iff_example :
    (parse_ref_scope_id shift unshift main_id ≡ some main_ref)
    ↔ (create_ref_scope_id shift unshift (codes "a:b") (codes "main") ≡ ok main_id)
parse_ref_scope_id_iff_example =
    parse_ref_scope_id_iff shift unshift shift-IsUriCodec main_id main_ref

is_formal_scope_entity_valid-ref_iff_example :
    (is_formal_scope_entity_valid shift unshift rows (codes "p") (codes "ref") main_id ≡ true) ↔ (
      (parts : RefScopeIdParts) × (create_ref_scope_id shift unshift parts.repository_id parts.ref
        ≡ ok main_id)
      × (rows.cursor (codes "p") parts.repository_id parts.ref ≡ true))
is_formal_scope_entity_valid-ref_iff_example =
    is_formal_scope_entity_valid-ref_iff shift unshift shift-IsUriCodec rows (codes "p") main_id
