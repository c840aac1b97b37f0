-- ===== src/Github/Retention/CandidateTests.antt =====
-- src/github/tree-manifest-retention.ts: tests of the selection, and its theorem at four rows.
use edgemneme.Base.{
  ℕ, ◌≡◌, refl, Option, none, some, List, [], ◌∷◌, Result, ok, err, Text, codes, arith, map_get,
  map_set, text_eq, includes,
}
use edgemneme.Github.Retention.{failed}
use edgemneme.Github.Retention.Candidates.{
  RetentionError, RetentionLane, failed_lane, RetentionCandidate, ManifestPlace, Selection,
  load_retention_candidates, require_bounded_integer,
}
use edgemneme.Github.Retention.Quota.{IsLoaded, load_retention_candidates-IsLoaded}

abbrev row : Text → Text → ℕ → RetentionCandidate
row project_id manifest_id eligible = record {
  manifest_id = manifest_id;
  project_id = project_id;
  status = failed;
  retention_version = 0;
  retention_attempt = 0;
  eligible = eligible;
}

-- Two pages: after the cursor, and up to it.
abbrev pages :
    RetentionLane
    → ManifestPlace
    → Option ManifestPlace
    → ℕ
    → Result RetentionError (List RetentionCandidate)
pages lane after (some upper_bound) limit = ok (row (codes "a") (codes "1") 1 ∷ [])
pages lane after none limit = ok (
    row (codes "p") (codes "2") 1
    ∷ row (codes "p") (codes "3") 0
    ∷ row (codes "p") (codes "4") 1
    ∷ row (codes "p") (codes "5") 1
    ∷ [])

abbrev cursor : ManifestPlace
cursor = record { project_id = codes "b"; manifest_id = codes "0" }

abbrev loaded : Selection
loaded = record {
  project_counts = (codes "p", 2) ∷ (codes "a", 1) ∷ [];
  candidates =
      row (codes "p") (codes "2") 1
      ∷ row (codes "p") (codes "4") 1
      ∷ row (codes "a") (codes "1") 1
      ∷ [];
  cursor_candidate = some (row (codes "a") (codes "1") 1);
}

load_test : load_retention_candidates pages failed_lane cursor 5 ≡ ok loaded
unfolding load_retention_candidates includes text_eq map_get map_set
load_test = refl

bound_test : require_bounded_integer (some 26) 1 25 ≡ err RetentionError.reconciliation_required
unfolding require_bounded_integer
bound_test = refl

load_retention_candidates-IsLoaded_example : IsLoaded pages failed_lane cursor 5 loaded
load_retention_candidates-IsLoaded_example =
    load_retention_candidates-IsLoaded pages failed_lane cursor 5 loaded (omega arith) load_test
