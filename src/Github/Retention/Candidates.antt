-- ===== src/Github/Retention/Candidates.antt =====
-- src/github/tree-manifest-retention.ts: which manifests a run of the retention looks at. `read_page` is
-- the query of readRetentionCandidatePage, from a lane, the place after which it begins and the place
-- where it ends, if it does, and a limit.
use edgemneme.Base.{
  ℕ, ◌+◌, ◌-◌, ◌*◌, min, Bool, true, false, not, ◌&&◌, ◌||◌, Option, none, some, List, [], ◌∷◌,
  ◌++◌, Result, ok, err, ◌>>=◌, ◌>>◌, throw_if, Text, ltb, ◌==◌, if◌then◌else◌, length, is_empty,
  includes, map_get, map_set,
}
use edgemneme.Github.Retention.{ManifestStatus, staging, failed, purging}

pub data RetentionError : Type 0 where
  reconciliation_required : RetentionError

pub data RetentionLane : Type 0 where
  staging_lane failed_lane : RetentionLane

pub record RetentionCandidate : Type 0 where
  pub manifest_id : Text
  pub project_id : Text
  pub status : ManifestStatus
  pub retention_version : ℕ
  pub retention_attempt : ℕ
  pub eligible : ℕ

-- A project and a manifest of it.
pub record ManifestPlace : Type 0 where
  pub project_id : Text
  pub manifest_id : Text

abbrev pub retention_max_per_state : ℕ
retention_max_per_state = 25

abbrev pub retention_project_quota : ℕ
retention_project_quota = 2

abbrev pub retention_scan_multiplier : ℕ
retention_scan_multiplier = 4

abbrev pub retention_max_scan_rows : ℕ
retention_max_scan_rows = 100

-- A number that is not a safe integer is `none`.
unfoldable pub require_bounded_integer : Option ℕ → ℕ → ℕ → Result RetentionError ℕ
require_bounded_integer none minimum maximum = err reconciliation_required
require_bounded_integer (some value) minimum maximum =
    if ltb value minimum || ltb maximum value then err reconciliation_required else ok value

abbrev pub is_of_lane : RetentionLane → ManifestStatus → Bool
is_of_lane staging_lane staging = true
is_of_lane failed_lane failed = true
is_of_lane failed_lane purging = true
is_of_lane lane status = false

-- Each row is of the lane, and no manifest occurs twice.
unfoldable pub check_rows :
    RetentionLane → List Text → List RetentionCandidate → Result RetentionError (Unit {0})
check_rows lane seen [] = ok tt
check_rows lane seen (row ∷ rows) =
    if not (is_of_lane lane row.status)
      || (not (row.eligible == 0) && not (row.eligible == 1))
      || includes seen row.manifest_id
    then err reconciliation_required
    else check_rows lane (row.manifest_id ∷ seen) rows

-- The variables of the loop that selects candidates.
pub record Selection : Type 0 where
  pub project_counts : List (Text × ℕ)
  pub candidates : List RetentionCandidate
  pub cursor_candidate : Option RetentionCandidate

abbrev pub or_zero : Option ℕ → ℕ
or_zero none = 0
or_zero (some count) = count

abbrev pub count_of : Text → List (Text × ℕ) → ℕ
count_of project_id counts = or_zero (map_get project_id counts)

-- The candidate is added to those that are selected.
abbrev pub add_candidate : RetentionCandidate → Selection → Selection
add_candidate candidate s = record {
  project_counts =
      map_set candidate.project_id (count_of candidate.project_id s.project_counts + 1)
        s.project_counts;
  candidates = s.candidates ++ candidate ∷ [];
  cursor_candidate = some candidate;
}

abbrev pub pass_candidate : RetentionCandidate → Selection → Selection
pass_candidate candidate s = record s { cursor_candidate = some candidate }

abbrev pub is_selected : RetentionCandidate → Selection → Bool
is_selected candidate s =
    candidate.eligible == 1
    && ltb (count_of candidate.project_id s.project_counts) retention_project_quota

unfoldable pub select_candidates : ℕ → Selection → List RetentionCandidate → Selection
select_candidates max_candidates s [] = s
select_candidates max_candidates s (candidate ∷ scanned) =
    let passed = select_candidates max_candidates (pass_candidate candidate s) scanned in
    let added = add_candidate candidate s in
    let more = select_candidates max_candidates added scanned in
    if not (is_selected candidate s)
    then passed
    else if length added.candidates == max_candidates
    then added
    else more

abbrev pub start : Selection
start = record { project_counts = []; candidates = []; cursor_candidate = none }

module _
    (read_page : RetentionLane
      → ManifestPlace
      → Option ManifestPlace
      → ℕ
      → Result RetentionError (List RetentionCandidate)) where
  unfoldable pub read_retention_candidate_page :
      RetentionLane
      → ManifestPlace
      → Option ManifestPlace
      → ℕ
      → Result RetentionError (List RetentionCandidate)
  unfolding check_rows
  read_retention_candidate_page lane after upper_bound limit = do
    page ← read_page lane after upper_bound limit
    throw_if (ltb limit (length page)) reconciliation_required
    check_rows lane [] page
    ok page

  abbrev pub no_place : ManifestPlace
  no_place = record { project_id = []; manifest_id = [] }

  -- The rows from the beginning to the cursor, if the page after it leaves room for them.
  unfoldable pub read_wrapped :
      RetentionLane → ManifestPlace → ℕ → Result RetentionError (List RetentionCandidate)
  unfolding read_retention_candidate_page
  read_wrapped lane cursor remaining =
      if ltb 0 remaining && not (is_empty cursor.project_id)
      then read_retention_candidate_page lane no_place (some cursor) remaining
      else ok []

  unfoldable pub load_retention_candidates :
      RetentionLane → ManifestPlace → ℕ → Result RetentionError Selection
  unfolding read_wrapped select_candidates
  load_retention_candidates lane cursor max_candidates = do
    let scan_limit = min retention_max_scan_rows (max_candidates * retention_scan_multiplier)
    after_cursor ← read_retention_candidate_page lane cursor none scan_limit
    wrapped ← read_wrapped lane cursor (scan_limit - length after_cursor)
    throw_if (ltb scan_limit (length (after_cursor ++ wrapped))) reconciliation_required
    ok (select_candidates max_candidates start (after_cursor ++ wrapped))
