-- ===== src/Github/Retention/Claims.antt =====
-- src/github/tree-manifest-retention.ts: claimFailedManifest, and what maintainGitHubTreeManifestRetention does
-- with a candidate; src/github/tree-manifest-purge.ts: deferFailedPurgeClaim.
use edgemneme.Base.{
  ℕ, ◌+◌, ◌-◌, ◌*◌, ◌^◌, min, Bool, true, false, not, ◌&&◌, ◌||◌, Option, none, some, [], ◌∷◌,
  Result, ok, err, Text, codes, leb, ltb, ◌==◌, if◌then◌else◌, max_safe_integer, decimal,
  join_lines,
}
use edgemneme.Github.Retention.{
  Store, Manifest, ManifestStatus, staging, complete, failed, purging, purged, ManifestPurgeClaim,
  is_not_after, is_purging, is_failed, holds_token, is_unprotected,
}
use edgemneme.Github.Retention.Candidates.{RetentionCandidate}
use edgemneme.Github.Retention.Purging.{PurgeError, PurgeResult, purge_claimed_manifest_entries}

abbrev pub same_status : ManifestStatus → ManifestStatus → Bool
same_status staging staging = true
same_status complete complete = true
same_status failed failed = true
same_status purging purging = true
same_status purged purged = true
same_status a b = false

abbrev pub is_absent_or_due : Option ℕ → ℕ → Bool
is_absent_or_due none now = true
is_absent_or_due (some time) now = leb time now

-- The condition of the statement that claims a manifest; `cutoff` is the time before which it failed.
unfoldable pub may_claim : RetentionCandidate → ℕ → Store → Bool
may_claim candidate cutoff s =
    same_status s.manifest.status candidate.status
    && s.manifest.retention_version == candidate.retention_version
    && s.manifest.retention_attempt == candidate.retention_attempt
    && is_not_after s.manifest.failed_at cutoff
    && is_absent_or_due s.manifest.retention_next_attempt_at s.now
    && (is_failed s.manifest.status || is_not_after s.manifest.purge_lease_until s.now)
    && is_unprotected s

abbrev pub claimed_manifest : ℕ → ℕ → Text → Manifest → Manifest
claimed_manifest now lease token m = record m {
  status = purging;
  retention_version = m.retention_version + 1;
  retention_attempt = m.retention_attempt + 1;
  retention_next_attempt_at = some (now + lease);
  purge_token = some token;
  purge_lease_until = some (now + lease);
}

-- `UPDATE github_tree_manifests SET status = 'purging' …`, with its changes.
unfoldable pub claim_manifest : RetentionCandidate → ℕ → ℕ → Text → Store → Store × ℕ
unfolding may_claim
claim_manifest candidate cutoff lease token s =
    if may_claim candidate cutoff s
    then (record s { manifest = claimed_manifest s.now lease token s.manifest }, 1)
    else (s, 0)

-- A manifest that fails to be purged waits half a day, twice as long after each attempt, and at most a
-- week.
unfoldable pub backoff_milliseconds : ℕ → ℕ
backoff_milliseconds retention_attempt =
    min (43200000 * 2 ^ min (retention_attempt - 1) 10) 604800000

unfoldable pub defer_failed_purge_claim : ManifestPurgeClaim → Store → Store
unfolding backoff_milliseconds
defer_failed_purge_claim claim s =
    if is_purging s.manifest.status
      && holds_token s.manifest.purge_token claim.purge_token
      && s.manifest.retention_version == claim.retention_version
      && s.manifest.retention_attempt == claim.retention_attempt
    then record s {
      manifest = record s.manifest {
        retention_next_attempt_at = some (s.now + backoff_milliseconds claim.retention_attempt);
      };
    }
    else s

-- What a candidate adds to the result of the run.
pub record Tally : Type 0 where
  pub claimed : ℕ
  pub entries_deleted : ℕ
  pub purged : ℕ
  pub errors : ℕ

abbrev pub no_tally : Tally
no_tally = record { claimed = 0; entries_deleted = 0; purged = 0; errors = 0 }

abbrev pub if_changed : ManifestPurgeClaim → Store × ℕ → Store × Option ManifestPurgeClaim
if_changed claim (s, changes) = if not (changes == 1) then (s, none) else (s, some claim)

abbrev pub has_safe_numbers : RetentionCandidate → Bool
has_safe_numbers candidate =
    ltb candidate.retention_version max_safe_integer
    && ltb candidate.retention_attempt max_safe_integer

abbrev pub tally_of : PurgeResult → Tally
tally_of r = record {
  claimed = 1;
  entries_deleted = r.entries_deleted;
  purged = if r.purged then 1 else 0;
  errors = 0;
}

-- `scheduled_at` and `claimed_at` are the texts of two times.
module _ (sha256 : Text → Text) (scheduled_at claimed_at : Text) (cutoff lease : ℕ) where
  unfoldable pub claim_of : RetentionCandidate → ManifestPurgeClaim
  unfolding decimal
  claim_of candidate = record {
    project_id = candidate.project_id;
    manifest_id = candidate.manifest_id;
    purge_token = sha256 (
        join_lines (
          codes "github.tree.manifest.purge"
          ∷ candidate.project_id
          ∷ candidate.manifest_id
          ∷ decimal (candidate.retention_version + 1)
          ∷ scheduled_at
          ∷ claimed_at
          ∷ []));
    retention_version = candidate.retention_version + 1;
    retention_attempt = candidate.retention_attempt + 1;
  }

  unfoldable pub claim_failed_manifest :
      RetentionCandidate → Store → Store × Option ManifestPurgeClaim
  unfolding claim_manifest claim_of
  claim_failed_manifest candidate s =
      if_changed (claim_of candidate)
        (claim_manifest candidate cutoff lease (claim_of candidate).purge_token s)

module _ (others : ℕ → Store → Store) (refused : ℕ → Store → Bool) (max_chunks : ℕ) where
  -- The deferral of a claim whose purge threw; that it is refused is passed over.
  unfoldable pub defer_claim : ManifestPurgeClaim → Store → Store
  unfolding defer_failed_purge_claim
  defer_claim claim s =
      let s' = others (2 * max_chunks + 2) s in
      if refused (2 * max_chunks + 2) s' then s' else defer_failed_purge_claim claim s'

  unfoldable pub after_purge :
      ManifestPurgeClaim → Store × Result PurgeError PurgeResult → Store × Tally
  unfolding defer_claim
  after_purge claim (s, ok r) = (s, tally_of r)
  after_purge claim (s, err e) = (defer_claim claim s, record no_tally { claimed = 1; errors = 1 })

  module _ (sha256 : Text → Text) where
    unfoldable pub after_claim : Store × Option ManifestPurgeClaim → Store × Tally
    unfolding after_purge
    after_claim (s, none) = (s, no_tally)
    after_claim (s, some claim) = after_purge claim (
        purge_claimed_manifest_entries sha256 (λ k. others (k + 1)) (λ k. refused (k + 1)) claim
          max_chunks s)

    module _ (scheduled_at claimed_at : Text) (cutoff lease : ℕ) where
      -- The body of the loop over the failed candidates, on the rows of the candidate's manifest.
      unfoldable pub process_failed_candidate : RetentionCandidate → Store → Store × Tally
      unfolding after_claim claim_failed_manifest
      process_failed_candidate candidate s =
          if not (has_safe_numbers candidate)
          then (s, record no_tally { errors = 1 })
          else let s' = others 0 s in
            if refused 0 s'
            then (s', record no_tally { errors = 1 })
            else after_claim
                (claim_failed_manifest sha256 scheduled_at claimed_at cutoff lease candidate s')
