-- ===== src/Contracts/Scope/RoundTrip.antt =====
-- src/contracts/scope.ts: writing and reading scope identifiers undo each other.
use edgemneme.Base.{
  ◌≡◌, refl, sym, ◌∙◌, ap, subst, ◌↔◌, inl, inr, true, false, Option, none, some, some_inj, ok,
  >>=-eq-ok, ok-injective, Text, codes, arith, is_empty, text_eq, text_eq_iff, text_eq_self,
  Bool-cases, Option-cases, Result-cases,
}
use edgemneme.Contracts.Scope.{
  RefScopeIdParts, WorktreeScopeIdParts, match_scope_id, same_text, both, encode_scope_component,
  decode_scope_component, create_scope_id, parse_scope_id, create_ref_scope_id, ref_parts,
  parse_ref_scope_id, create_worktree_scope_id, worktree_parts, parse_worktree_scope_id, ScopeRows,
  ref_present, is_formal_scope_entity_valid,
}
use edgemneme.Contracts.Scope.Splitting.{HasNoColon, match_scope_id-write, write-match_scope_id}

-- What `encodeURIComponent` and `decodeURIComponent` are documented to do: a text that is encoded is
-- decoded to itself, its encoding has no colon, and the encoding of a text that is not empty is not.
pub record IsUriCodec (encode decode : Text → Option Text) : Type 0 where
  pub inverts : (v e : Text) → encode v ≡ some e → decode e ≡ some v
  pub escapes : (v e : Text) → encode v ≡ some e → HasNoColon e
  pub keeps : (v e : Text) → encode v ≡ some e → is_empty v ≡ false → is_empty e ≡ false

module _ (encode decode : Text → Option Text) where
  encoded-inv :
      (v e : Text)
      → encode_scope_component encode decode v ≡ ok e
      → (encode v ≡ some e) × (is_empty v ≡ false)
  unfolding encode_scope_component
  encoded-inv v e h = elim (Option-cases (encode v)) [
    | inl thrown ↦ absurd (ground arith)
    | inr (w, found) ↦ (ground arith, ground arith)
  ]

  decoded-inv :
      (v d : Text)
      → decode_scope_component encode decode v ≡ some d
      → encode_scope_component encode decode d ≡ ok v
  unfolding decode_scope_component
  decoded-inv v d h = elim (Option-cases (decode v)) [
    | inl thrown ↦ cc (rw (thrown, decode_scope_component) at h)
    | inr (w, found) ↦
        let k : same_text v w (encode_scope_component encode decode w) ≡ some d =
          rw (found, decode_scope_component) at h in
        elim (Result-cases (encode_scope_component encode decode w)) [
          | inr (x, failed) ↦ cc (rw failed at k)
          | inl (e, done) ↦
              let l : same_text v w (ok e) ≡ some d = rw done at k in
              elim (Bool-cases (text_eq e v)) [
                | inr other ↦ cc (rw other at l)
                | inl same ↦
                    let i : w ≡ d = some_inj (rw same at l) in
                    subst (λ t. encode_scope_component encode decode t ≡ ok v) i
                      (done ∙ ap ok ((text_eq_iff e v).0 same))
              ]
        ]
  ]

  decoded_of_encoded :
      IsUriCodec encode decode
      → (v e : Text) → encode_scope_component encode decode v ≡ ok e
      → decode_scope_component encode decode e ≡ some v
  unfolding decode_scope_component
  decoded_of_encoded codec v e h =
      rw (codec.inverts v e (encoded-inv v e h).0, decode_scope_component) (rw (h, text_eq_self e))

  both-inv : (o u : Option Text) (a b : Text) → both o u ≡ some (a, b) → (o ≡ some a) × (u ≡ some b)
  both-inv none none a b h = cc
  both-inv none (some y) a b h = cc
  both-inv (some x) none a b h = cc
  both-inv (some x) (some y) a b h = (cc, cc)

  -- What is read was written: no hypothesis on the codec is needed, since reading encodes again.
  parse-create :
      (first second s a b : Text)
      → parse_scope_id encode decode first second s ≡ some (a, b)
      → create_scope_id encode decode first second a b ≡ ok s
  unfolding parse_scope_id create_scope_id
  parse-create first second s a b h = elim (Option-cases (match_scope_id first second s)) [
    | inl missing ↦ cc (rw missing at h)
    | inr ((x, y), found) ↦
        let (p, q) =
          both-inv (decode_scope_component encode decode x) (decode_scope_component encode decode y)
            a b (rw found at h) in
        rw (decoded-inv x a p, decoded-inv y b q, match_scope_id-write first second s x y found)
  ]

  create-parse :
      IsUriCodec encode decode
      → (first second s a b : Text) → HasNoColon first
      → HasNoColon second
      → create_scope_id encode decode first second a b ≡ ok s
      → parse_scope_id encode decode first second s ≡ some (a, b)
  unfolding parse_scope_id create_scope_id
  create-parse codec first second s a b hf hs h =
      let (x, ex, h1) = >>=-eq-ok (encode_scope_component encode decode a) _ h in
      let (y, ey, h2) = >>=-eq-ok (encode_scope_component encode decode b) _ h1 in
      let (fx, na) = encoded-inv a x ex in
      let (fy, nb) = encoded-inv b y ey in
      let found =
        write-match_scope_id first second x y hf hs (codec.escapes a x fx) (codec.escapes b y fy)
          (codec.keeps a x fx na) (codec.keeps b y fy nb) in
      rw (
        sym (ok-injective h2),
        found,
        decoded_of_encoded codec a x ex,
        decoded_of_encoded codec b y ey,
      )

  no_colon_in_repository : HasNoColon (codes "repository") × HasNoColon (codes "ref")
  no_colon_in_repository = (ground arith, ground arith)

  no_colon_in_session : HasNoColon (codes "session") × HasNoColon (codes "worktree")
  no_colon_in_session = (ground arith, ground arith)

  ref_parts-inv :
      (o : Option (Text × Text)) (parts : RefScopeIdParts)
      → ref_parts encode decode o ≡ some parts
      → o ≡ some (parts.repository_id, parts.ref)
  ref_parts-inv none parts h = cc
  ref_parts-inv (some (a, b)) parts h =
      ap (λ (q : RefScopeIdParts). some (q.repository_id, q.ref)) (some_inj h)

  worktree_parts-inv :
      (o : Option (Text × Text)) (parts : WorktreeScopeIdParts)
      → worktree_parts encode decode o ≡ some parts
      → o ≡ some (parts.session_id, parts.worktree_id)
  worktree_parts-inv none parts h = cc
  worktree_parts-inv (some (a, b)) parts h =
      ap (λ (q : WorktreeScopeIdParts). some (q.session_id, q.worktree_id)) (some_inj h)

  -- When the codec is as documented, a text is read as a repository and a ref exactly when these
  -- are written as that text, so that writing and reading undo each other.
  pub parse_ref_scope_id_iff :
      IsUriCodec encode decode
      → (scope_id : Text) (parts : RefScopeIdParts)
      → (parse_ref_scope_id encode decode scope_id ≡ some parts)
        ↔ (create_ref_scope_id encode decode parts.repository_id parts.ref ≡ ok scope_id)
  unfolding parse_ref_scope_id create_ref_scope_id
  parse_ref_scope_id_iff codec s parts = (
    λ h. parse-create (codes "repository") (codes "ref") s _ _ (ref_parts-inv _ parts h),
    λ h. ap (ref_parts encode decode) (
        create-parse codec (codes "repository") (codes "ref") s _ _ no_colon_in_repository.0
          no_colon_in_repository.1 h),
  )

  -- When the codec is as documented, a text is read as a session and a worktree exactly when
  -- these are written as that text, so that writing and reading undo each other.
  pub parse_worktree_scope_id_iff :
      IsUriCodec encode decode
      → (scope_id : Text) (parts : WorktreeScopeIdParts)
      → (parse_worktree_scope_id encode decode scope_id ≡ some parts)
        ↔ (create_worktree_scope_id encode decode parts.session_id parts.worktree_id ≡ ok scope_id)
  unfolding parse_worktree_scope_id create_worktree_scope_id
  parse_worktree_scope_id_iff codec s parts = (
    λ h. parse-create (codes "session") (codes "worktree") s _ _ (worktree_parts-inv _ parts h),
    λ h. ap (worktree_parts encode decode) (
        create-parse codec (codes "session") (codes "worktree") s _ _ no_colon_in_session.0
          no_colon_in_session.1 h),
  )

  ref_present_iff :
      (rows : ScopeRows encode decode) (project_id : Text) (o : Option RefScopeIdParts)
      → (ref_present encode decode rows project_id o ≡ true) ↔ (
          (parts : RefScopeIdParts) × (o ≡ some parts)
          × (rows.cursor project_id parts.repository_id parts.ref ≡ true))
  ref_present_iff rows project_id none = (λ h. cc, λ (parts, e, q). cc)
  ref_present_iff rows project_id (some parts) = (
    λ h. (parts, refl, h),
    λ (other, e, q).
        subst (λ (t : RefScopeIdParts). rows.cursor project_id t.repository_id t.ref ≡ true)
          (sym (some_inj e)) q,
  )

  -- When the codec is as documented, a ref scope is valid exactly when its identifier is the one written
  -- for a repository and a ref that have a cursor in the project.
  pub is_formal_scope_entity_valid-ref_iff :
      IsUriCodec encode decode
      → (rows : ScopeRows encode decode) (project_id scope_id : Text)
      → (is_formal_scope_entity_valid encode decode rows project_id (codes "ref") scope_id ≡ true)
        ↔ ((parts : RefScopeIdParts) × (create_ref_scope_id encode decode parts.repository_id
                parts.ref
              ≡ ok scope_id)
            × (rows.cursor project_id parts.repository_id parts.ref ≡ true))
  unfolding is_formal_scope_entity_valid text_eq
  is_formal_scope_entity_valid-ref_iff codec rows project_id scope_id = (
    λ h.
        let (parts, e, q) =
          (ref_present_iff rows project_id (parse_ref_scope_id encode decode scope_id)).0 h in
        (parts, (parse_ref_scope_id_iff codec scope_id parts).0 e, q),
    λ (parts, e, q).
        (ref_present_iff rows project_id (parse_ref_scope_id encode decode scope_id)).1
          (parts, (parse_ref_scope_id_iff codec scope_id parts).1 e, q),
  )
