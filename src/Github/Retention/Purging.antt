-- ===== src/Github/Retention/Purging.antt =====
-- src/github/tree-manifest-purge.ts: purgeClaimedManifestEntries. Between two calls of the database the
-- others act: `others k` is what they do to the rows before the k-th call, and `refused k` is whether that
-- call throws, as a constraint, a trigger or the connection may make it, and then changes nothing.
use edgemneme.Base.{
  ℕ, zero, suc, ◌+◌, Bool, not, ◌||◌, List, [], ◌∷◌, Result, ok, err, none, some, Text, codes, ltb,
  ◌==◌, if◌then◌else◌, length, decimal, join_lines,
}
use edgemneme.Github.Retention.{
  Store, ManifestPurgeClaim, LifecycleEvent, purge_chunk_event, purged_event, delete_chunk_size,
  Changes, select_chunk, run_chunk, run_completion,
}

pub data PurgeError : Type 0 where
  reconciliation_required call_refused : PurgeError

pub record PurgeResult : Type 0 where
  pub entries_deleted : ℕ
  pub purged : Bool

module _ (sha256 : Text → Text) where
  unfoldable pub chunk_event : ManifestPurgeClaim → List Text → LifecycleEvent
  unfolding decimal
  chunk_event claim path_digests =
      let chunk_digest = sha256 (join_lines path_digests) in
      record {
        event_id = sha256 (
            join_lines (
              codes "github.tree.manifest.lifecycle"
              ∷ claim.project_id
              ∷ claim.manifest_id
              ∷ codes "purge_chunk"
              ∷ decimal claim.retention_version
              ∷ chunk_digest
              ∷ []));
        event_type = purge_chunk_event;
        retention_version = claim.retention_version;
        chunk = some (length path_digests, chunk_digest);
        request_digest = sha256 (
            join_lines (
              claim.project_id
              ∷ claim.manifest_id
              ∷ decimal claim.retention_version
              ∷ decimal claim.retention_attempt
              ∷ decimal (length path_digests)
              ∷ chunk_digest
              ∷ []));
      }

  unfoldable pub completion_event : ManifestPurgeClaim → LifecycleEvent
  unfolding decimal
  completion_event claim =
      let purged_retention_version = claim.retention_version + 1 in
      record {
        event_id = sha256 (
            join_lines (
              codes "github.tree.manifest.lifecycle"
              ∷ claim.project_id
              ∷ claim.manifest_id
              ∷ codes "purged"
              ∷ decimal purged_retention_version
              ∷ []));
        event_type = purged_event;
        retention_version = purged_retention_version;
        chunk = none;
        request_digest = sha256 (
            join_lines (
              claim.project_id
              ∷ claim.manifest_id
              ∷ decimal purged_retention_version
              ∷ decimal claim.retention_attempt
              ∷ []));
      }

-- After the loop: the manifest is marked as purged if it has no entries left.
unfoldable pub check_completion : ℕ → Store × Changes → Store × Result PurgeError PurgeResult
check_completion entries_deleted (s, (state_changes, event_changes)) =
    if not (state_changes == event_changes) || ltb 1 state_changes
    then (s, err reconciliation_required)
    else (s, ok (record { entries_deleted = entries_deleted; purged = state_changes == 1 }))

module _ (sha256 : Text → Text) (others : ℕ → Store → Store) (refused : ℕ → Store → Bool)
    (claim : ManifestPurgeClaim) where
  unfoldable pub complete_purge : ℕ → ℕ → Store → Store × Result PurgeError PurgeResult
  unfolding check_completion
  complete_purge call entries_deleted s =
      let s' = others call s in
      if refused call s'
      then (s', err call_refused)
      else check_completion entries_deleted
          (run_completion claim (completion_event sha256 claim) s')

  -- After a chunk: `more` is the next round of the loop.
  unfoldable pub after_chunk :
      (ℕ → Store → Store × Result PurgeError PurgeResult)
      → ℕ
      → ℕ
      → ℕ
      → Store × Changes
      → Store × Result PurgeError PurgeResult
  after_chunk more call entries_deleted size (s, (event_changes, deleted)) =
      if not (event_changes == 1) || not (deleted == size)
      then (s, err reconciliation_required)
      else if ltb deleted delete_chunk_size
      then complete_purge call (entries_deleted + deleted) s
      else more (entries_deleted + deleted) s

  unfoldable pub purge_chunk :
      (ℕ → Store → Store × Result PurgeError PurgeResult)
      → ℕ
      → ℕ
      → List Text
      → Store
      → Store × Result PurgeError PurgeResult
  unfolding after_chunk
  purge_chunk more call entries_deleted [] s = complete_purge call entries_deleted s
  purge_chunk more call entries_deleted (digest ∷ digests) s =
      let path_digests = digest ∷ digests in
      let s' = others call s in
      if refused call s'
      then (s', err call_refused)
      else after_chunk more (call + 1) entries_deleted (length path_digests)
          (run_chunk claim path_digests (chunk_event sha256 claim path_digests) s')

  -- The rounds of the loop that are left.
  unfoldable pub purge_chunks : ℕ → ℕ → ℕ → Store → Store × Result PurgeError PurgeResult
  unfolding purge_chunk complete_purge
  purge_chunks zero call entries_deleted s = complete_purge call entries_deleted s
  purge_chunks (suc left) call entries_deleted s =
      let s' = others call s in
      if refused call s'
      then (s', err call_refused)
      else purge_chunk (purge_chunks left (call + 2)) (call + 1) entries_deleted
          (select_chunk claim s') s'

  unfoldable pub purge_claimed_manifest_entries : ℕ → Store → Store × Result PurgeError PurgeResult
  unfolding purge_chunks
  purge_claimed_manifest_entries max_chunks s = purge_chunks max_chunks 0 0 s
