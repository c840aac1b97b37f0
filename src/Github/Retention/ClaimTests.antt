-- ===== src/Github/Retention/ClaimTests.antt =====
-- src/github/tree-manifest-retention.ts: tests of the claims, and the theorems at a failed manifest.
use edgemneme.Base.{◌≡◌, refl, false, none, some, codes, arith, text_eq, includes}
use edgemneme.Github.Retention.{
  Store, ManifestPurgeClaim, failed, may_purge, select_chunk, run_chunk, run_completion,
}
use edgemneme.Github.Retention.Candidates.{RetentionCandidate}
use edgemneme.Github.Retention.Lifecycle.{Reach}
use edgemneme.Github.Retention.Purging.{
  chunk_event, completion_event, purge_claimed_manifest_entries,
}
use edgemneme.Github.Retention.Claims.{
  claimed_manifest, claim_of, claim_failed_manifest, backoff_milliseconds, process_failed_candidate,
}
use edgemneme.Github.Retention.Exclusive.{claim_failed_manifest-exclusive}
use edgemneme.Github.Retention.Tests.{claimed, store, alone, answered, same}

abbrev failed_store : Store
failed_store = record store {
  manifest = record claimed {
    status = failed;
    retention_version = 0;
    retention_attempt = 0;
    purge_token = none;
    purge_lease_until = none;
  };
}

abbrev candidate : RetentionCandidate
candidate = record {
  manifest_id = codes "m";
  project_id = codes "p";
  status = failed;
  retention_version = 0;
  retention_attempt = 0;
  eligible = 1;
}

backoff_test : backoff_milliseconds 3 ≡ 172800000
unfolding backoff_milliseconds
backoff_test = refl

long_backoff_test : backoff_milliseconds 20 ≡ 604800000
unfolding backoff_milliseconds
long_backoff_test = refl

process_test :
    (process_failed_candidate alone answered 4 same
      (codes "s")
      (codes "c")
      10
      600000
      candidate
      failed_store).1
    ≡ record { claimed = 1; entries_deleted = 2; purged = 1; errors = 0 }
unfolding process_failed_candidate purge_claimed_manifest_entries select_chunk text_eq run_chunk
    includes chunk_event run_completion completion_event
process_test = refl

abbrev old_claim : ManifestPurgeClaim
old_claim = record {
  project_id = codes "p";
  manifest_id = codes "m";
  purge_token = codes "t";
  retention_version = 0;
  retention_attempt = 0;
}

abbrev claimed_store : Store
claimed_store = record failed_store {
  manifest =
      claimed_manifest failed_store.now 600000
        (claim_of same (codes "s") (codes "c") 10 600000 candidate).purge_token
        failed_store.manifest;
}

claim_test :
    claim_failed_manifest same (codes "s") (codes "c") 10 600000 candidate failed_store
    ≡ (claimed_store, some (claim_of same (codes "s") (codes "c") 10 600000 candidate))
unfolding claim_failed_manifest
claim_test = refl

claim_failed_manifest-exclusive_example :
    (claim_failed_manifest same (codes "s2") (codes "c2") 20 300000 candidate claimed_store
      ≡ (claimed_store, none))
    × (may_purge old_claim claimed_store ≡ false)
claim_failed_manifest-exclusive_example =
    claim_failed_manifest-exclusive same (codes "s") (codes "c") (codes "s2") (codes "c2") 10 600000
      20 300000 candidate candidate failed_store claimed_store claimed_store
      (claim_of same (codes "s") (codes "c") 10 600000 candidate) old_claim claim_test Reach.here
      refl (omega arith)
