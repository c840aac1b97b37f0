-- ===== src/Github/Retention/Tests.antt =====
-- src/github/tree-manifest-purge.ts: tests, and the theorems at a manifest with two entries.
use edgemneme.Base.{
  ℕ, Bool, ◌*◌, ◌≤◌, ◌≡◌, ◌⊎◌, refl, true, false, none, some, [], ◌∷◌, ok, Text, codes, includes,
  text_eq,
}
use edgemneme.Github.Retention.{
  Store, Manifest, purging, ManifestPurgeClaim, purged_manifest, select_chunk, run_chunk,
  run_completion,
}
use edgemneme.Github.Retention.Purging.{
  chunk_event, completion_event, purge_claimed_manifest_entries,
}
use edgemneme.Github.Retention.Ends.{IsPurged, purge_claimed_manifest_entries-Ends}

abbrev pub claim : ManifestPurgeClaim
claim = record {
  project_id = codes "p";
  manifest_id = codes "m";
  purge_token = codes "t";
  retention_version = 1;
  retention_attempt = 1;
}

abbrev pub claimed : Manifest
claimed = record {
  status = purging;
  failure_code = some (codes "GITHUB_PARTIAL_SYNC");
  retention_version = 1;
  retention_attempt = 1;
  retention_next_attempt_at = none;
  purge_token = some (codes "t");
  purge_lease_until = some 3000000000;
  failed_at = some 0;
  purged_at = none;
}

abbrev pub store : Store
store = record {
  manifest = claimed;
  entries = codes "a" ∷ codes "b" ∷ [];
  events = [];
  has_head = false;
  has_delta = false;
  is_synthetic = false;
  now = 2600000000;
}

-- Nobody else acts, and no call throws.
abbrev pub alone : ℕ → Store → Store
alone k s = s

abbrev pub answered : ℕ → Store → Bool
answered k s = false

abbrev pub same : Text → Text
same text = text

abbrev after_purge : Store
after_purge = record store {
  manifest = purged_manifest 2600000000 claimed;
  entries = [];
  events = completion_event same claim ∷ chunk_event same claim (codes "a" ∷ codes "b" ∷ []) ∷ [];
}

purge_test :
    purge_claimed_manifest_entries same alone answered claim 4 store
    ≡ (after_purge, ok (record { entries_deleted = 2; purged = true }))
unfolding purge_claimed_manifest_entries select_chunk text_eq run_chunk includes chunk_event
    run_completion completion_event
purge_test = refl

purge_claimed_manifest_entries-Ends_example :
    (2 ≤ 500 * 4) × ((true ≡ false) ⊎ IsPurged claim after_purge)
purge_claimed_manifest_entries-Ends_example =
    purge_claimed_manifest_entries-Ends same alone answered claim 4 store after_purge
      (record { entries_deleted = 2; purged = true }) purge_test
