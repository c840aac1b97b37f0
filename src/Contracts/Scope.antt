-- ===== src/Contracts/Scope.antt =====
-- src/contracts/scope.ts: the identifiers of ref and worktree scopes, and the check that a scope's entity
-- exists. `encodeURIComponent` and `decodeURIComponent` are parameters, with `none` where they throw; the
-- four queries of the database are functions that say whether the row is present.
pub mod Splitting
pub mod RoundTrip
mod Tests
use edgemneme.Base.{
  ℕ, Bool, true, false, not, ◌&&◌, ◌||◌, Option, none, some, List, [], ◌∷◌, ◌++◌, Result, ok, err,
  ◌>>=◌, Text, codes, ◌==◌, if◌then◌else◌, is_empty, any, text_eq, trim,
}

pub data ScopeIdError : Type 0 where
  component_not_canonical component_not_unicode : ScopeIdError

pub record RefScopeIdParts : Type 0 where
  pub repository_id : Text
  pub ref : Text

pub record WorktreeScopeIdParts : Type 0 where
  pub session_id : Text
  pub worktree_id : Text

abbrev pub prepend : ℕ → List Text → List Text
prepend c [] = (c ∷ []) ∷ []
prepend c (part ∷ parts) = (c ∷ part) ∷ parts

-- The parts of a text between its colons.
unfoldable pub split_at_colons : Text → List Text
split_at_colons [] = [] ∷ []
split_at_colons (c ∷ s) =
    let rest = split_at_colons s in if c == b':' then [] ∷ rest else prepend c rest

abbrev pub match_parts : Text → Text → List Text → Option (Text × Text)
match_parts first second (a ∷ x ∷ b ∷ y ∷ []) =
    if text_eq a first && text_eq b second && not (is_empty x) && not (is_empty y)
    then some (x, y)
    else none
match_parts first second _ = none

-- `/^first:([^:]+):second:([^:]+)$/u.exec(scopeId)`: a group holds no colon, so the four parts between
-- the colons are the two words and the two groups.
unfoldable pub match_scope_id : Text → Text → Text → Option (Text × Text)
match_scope_id first second scope_id = match_parts first second (split_at_colons scope_id)

-- `${first}:${a}:${second}:${b}`
unfoldable pub write_scope_id : Text → Text → Text → Text → Text
write_scope_id first second a b = first ++ b':' ∷ (a ++ b':' ∷ (second ++ b':' ∷ b))

abbrev pub or_not_unicode : Option Text → Result ScopeIdError Text
or_not_unicode none = err component_not_unicode
or_not_unicode (some encoded) = ok encoded

abbrev pub same_text : Text → Text → Result ScopeIdError Text → Option Text
same_text value decoded (err e) = none
same_text value decoded (ok encoded) = if text_eq encoded value then some decoded else none

abbrev pub both : Option Text → Option Text → Option (Text × Text)
both (some a) (some b) = some (a, b)
both _ _ = none

module _ (encode_uri_component decode_uri_component : Text → Option Text) where
  unfoldable pub encode_scope_component : Text → Result ScopeIdError Text
  encode_scope_component value =
      if is_empty value || not (text_eq (trim value) value) || any (λ c. c == 0) value
      then err component_not_canonical
      else or_not_unicode (encode_uri_component value)

  unfoldable pub decode_scope_component : Text → Option Text
  decode_scope_component value = elim (decode_uri_component value) [
    | none ↦ none
    | some decoded ↦ same_text value decoded (encode_scope_component decoded)
  ]

  unfoldable pub create_scope_id : Text → Text → Text → Text → Result ScopeIdError Text
  create_scope_id first second a b = do
    encoded_a ← encode_scope_component a
    encoded_b ← encode_scope_component b
    ok (write_scope_id first second encoded_a encoded_b)

  abbrev pub decode_match : Option (Text × Text) → Option (Text × Text)
  decode_match none = none
  decode_match (some (x, y)) = both (decode_scope_component x) (decode_scope_component y)

  unfoldable pub parse_scope_id : Text → Text → Text → Option (Text × Text)
  parse_scope_id first second scope_id = decode_match (match_scope_id first second scope_id)

  unfoldable pub create_ref_scope_id : Text → Text → Result ScopeIdError Text
  create_ref_scope_id repository_id ref =
      create_scope_id (codes "repository") (codes "ref") repository_id ref

  abbrev pub ref_parts : Option (Text × Text) → Option RefScopeIdParts
  ref_parts none = none
  ref_parts (some (repository_id, ref)) = some (record { repository_id = repository_id; ref = ref })

  unfoldable pub parse_ref_scope_id : Text → Option RefScopeIdParts
  parse_ref_scope_id scope_id =
      ref_parts (parse_scope_id (codes "repository") (codes "ref") scope_id)

  unfoldable pub create_worktree_scope_id : Text → Text → Result ScopeIdError Text
  create_worktree_scope_id session_id worktree_id =
      create_scope_id (codes "session") (codes "worktree") session_id worktree_id

  abbrev pub worktree_parts : Option (Text × Text) → Option WorktreeScopeIdParts
  worktree_parts none = none
  worktree_parts (some (session_id, worktree_id)) =
      some (record { session_id = session_id; worktree_id = worktree_id })

  unfoldable pub parse_worktree_scope_id : Text → Option WorktreeScopeIdParts
  parse_worktree_scope_id scope_id =
      worktree_parts (parse_scope_id (codes "session") (codes "worktree") scope_id)

  -- Whether the database has the row: of a ref's cursor, of a worktree's session, of a repository and of
  -- a session, each within a project.
  pub record ScopeRows : Type 0 where
    pub cursor : Text → Text → Text → Bool
    pub worktree : Text → Text → Text → Bool
    pub repository : Text → Text → Bool
    pub session : Text → Text → Bool

  abbrev pub ref_present : ScopeRows → Text → Option RefScopeIdParts → Bool
  ref_present rows project_id none = false
  ref_present rows project_id (some parts) = rows.cursor project_id parts.repository_id parts.ref

  abbrev pub worktree_present : ScopeRows → Text → Option WorktreeScopeIdParts → Bool
  worktree_present rows project_id none = false
  worktree_present rows project_id (some parts) =
      rows.worktree project_id parts.session_id parts.worktree_id

  unfoldable pub is_formal_scope_entity_valid : ScopeRows → Text → Text → Text → Bool
  is_formal_scope_entity_valid rows project_id scope scope_id =
      if text_eq scope (codes "project")
      then text_eq scope_id project_id
      else (if text_eq scope (codes "ref")
          then ref_present rows project_id (parse_ref_scope_id scope_id)
          else (if text_eq scope (codes "worktree")
              then worktree_present rows project_id (parse_worktree_scope_id scope_id)
              else (if text_eq scope (codes "repository")
                  then rows.repository project_id scope_id
                  else rows.session project_id scope_id)))
