-- ===== src/Github/Retention/Runs.antt =====
-- src/github/tree-manifest-purge.ts: a purge takes only the steps that its claim allows.
use edgemneme.Base.{
  ℕ, zero, suc, ◌+◌, ◌≡◌, inl, inr, refl, Bool, not, ◌&&◌, ◌||◌, List, [], ◌∷◌, some, join_lines,
  Result, Text, arith, ltb, ◌==◌, length, filter, any, is_empty, nil_of_is_empty, includes, text_eq,
  Bool-cases, and-true,
}
use edgemneme.Github.Retention.{
  Store, ManifestPurgeClaim, LifecycleEvent, Changes, may_purge, select_chunk, insert_chunk_event,
  delete_entries, run_chunk, records_chunk, finish_manifest, insert_purged_event, run_completion,
  is_purged,
}
use edgemneme.Github.Retention.Candidates.{RetentionCandidate}
use edgemneme.Github.Retention.Conditions.{is_purged-true, may_purge-IsHeld, recorded-Records}
use edgemneme.Github.Retention.Work.{Work, Run, Run-one, Run-others, Run-trans}
use edgemneme.Github.Retention.Purging.{
  PurgeError, PurgeResult, chunk_event, completion_event, check_completion, complete_purge,
  after_chunk, purge_chunk, purge_chunks, purge_claimed_manifest_entries,
}

check_completion-store :
    (n : ℕ) (result : Store × Changes) → (check_completion n result).0 ≡ result.0
unfolding check_completion
check_completion-store n (s, (a, b)) = ground arith

module _ {Others : Store → Store → Type 0} {candidate : RetentionCandidate} {cutoff lease : ℕ}
    (claim : ManifestPurgeClaim) where
  insert_chunk_event-Run :
      (path_digests : List Text) (event : LifecycleEvent) (s : Store)
      → Run Others candidate claim cutoff lease s (insert_chunk_event claim path_digests event s).0
  unfolding insert_chunk_event
  insert_chunk_event-Run path_digests event s =
      elim (Bool-cases (
        may_purge claim s
        && length path_digests == length (filter (includes path_digests) s.entries))) [
          | inl e ↦ rw e (
              Run-one (
                Work.note event
                  (inl (may_purge-IsHeld claim s (and-true (may_purge claim s) _ e).0)) refl))
          | inr e ↦ rw e Run.here
        ]

  delete_entries-Run :
      (path_digests : List Text) (event : LifecycleEvent) (digest : Text) (s : Store)
      → event.retention_version ≡ claim.retention_version
      → event.chunk ≡ some (length path_digests, digest)
      → Run Others candidate claim cutoff lease s (delete_entries claim path_digests event s).0
  unfolding delete_entries
  delete_entries-Run path_digests event digest s version chunk =
      elim (Bool-cases (may_purge claim s && any (records_chunk event) s.events)) [
        | inl e ↦
            let (may, recorded) = and-true (may_purge claim s) _ e in
            let records =
              recorded-Records claim (length path_digests) digest event s version chunk recorded in
            rw e (Run-one (Work.remove path_digests (may_purge-IsHeld claim s may) records refl))
        | inr e ↦ rw e Run.here
      ]

  run_chunk-Run :
      (path_digests : List Text) (event : LifecycleEvent) (digest : Text) (s : Store)
      → event.retention_version ≡ claim.retention_version
      → event.chunk ≡ some (length path_digests, digest)
      → Run Others candidate claim cutoff lease s (run_chunk claim path_digests event s).0
  unfolding run_chunk
  run_chunk-Run path_digests event digest s version chunk =
      Run-trans (insert_chunk_event-Run path_digests event s) (
        delete_entries-Run path_digests event digest
          (insert_chunk_event claim path_digests event s).0 version chunk)

  finish_manifest-Run :
      (s : Store) → Run Others candidate claim cutoff lease s (finish_manifest claim s).0
  unfolding finish_manifest
  finish_manifest-Run s = elim (Bool-cases (may_purge claim s && is_empty s.entries)) [
    | inl e ↦
        let (may, empty) = and-true (may_purge claim s) (is_empty s.entries) e in
        rw e (
          Run-one
            (Work.finish (may_purge-IsHeld claim s may) (nil_of_is_empty s.entries empty) refl))
    | inr e ↦ rw e Run.here
  ]

  insert_purged_event-Run :
      (event : LifecycleEvent) (s : Store)
      → Run Others candidate claim cutoff lease s (insert_purged_event claim event s).0
  unfolding insert_purged_event
  insert_purged_event-Run event s =
      elim (Bool-cases (
        is_purged s.manifest.status
        && s.manifest.retention_version == claim.retention_version + 1
        && s.manifest.retention_attempt == claim.retention_attempt
        && not (any (λ (e : LifecycleEvent). text_eq e.event_id event.event_id) s.events))) [
          | inl e ↦ rw e (
              Run-one (
                Work.note event
                  (inr (is_purged-true s.manifest.status (ground arith), ground arith)) refl))
          | inr e ↦ rw e Run.here
        ]

  run_completion-Run :
      (event : LifecycleEvent) (s : Store)
      → Run Others candidate claim cutoff lease s (run_completion claim event s).0
  unfolding run_completion
  run_completion-Run event s =
      Run-trans (finish_manifest-Run s) (insert_purged_event-Run event (finish_manifest claim s).0)

module _ (sha256 : Text → Text) (others : ℕ → Store → Store) (refused : ℕ → Store → Bool)
    {Others : Store → Store → Type 0} (between : (k : ℕ) (s : Store) → Others s (others k s))
    {candidate : RetentionCandidate} {cutoff lease : ℕ} (claim : ManifestPurgeClaim) where
  complete_purge-Run :
      (call n : ℕ) (s : Store)
      → Run Others candidate claim cutoff lease s
          (complete_purge sha256 others refused claim call n s).0
  unfolding complete_purge
  complete_purge-Run call n s = elim (Bool-cases (refused call (others call s))) [
    | inl e ↦ rw e (Run-others (between call s))
    | inr e ↦
        let event = completion_event sha256 claim in
        rw (e, check_completion-store n (run_completion claim event (others call s)))
          (Run-trans (Run-others (between call s)) (run_completion-Run claim event (others call s)))
  ]

  after_chunk-Run :
      (more : ℕ → Store → Store × Result PurgeError PurgeResult)
      → ((n : ℕ) (s : Store) → Run Others candidate claim cutoff lease s (more n s).0)
      → (call n size : ℕ) (s : Store) (result : Store × Changes)
      → Run Others candidate claim cutoff lease s result.0
      → Run Others candidate claim cutoff lease s
          (after_chunk sha256 others refused claim more call n size result).0
  unfolding after_chunk
  after_chunk-Run more continues call n size s (t, (a, deleted)) r =
      elim (Bool-cases (not (a == 1) || not (deleted == size))) [
        | inl e ↦ rw e r
        | inr e ↦ rw e (elim (Bool-cases (ltb deleted 500)) [
          | inl last ↦ rw last (Run-trans r (complete_purge-Run call (n + deleted) t))
          | inr full ↦ rw full (Run-trans r (continues (n + deleted) t))
        ])
      ]

  purge_chunk-Run :
      (more : ℕ → Store → Store × Result PurgeError PurgeResult)
      → ((n : ℕ) (s : Store) → Run Others candidate claim cutoff lease s (more n s).0)
      → (call n : ℕ) (digests : List Text) (s : Store)
      → Run Others candidate claim cutoff lease s
          (purge_chunk sha256 others refused claim more call n digests s).0
  unfolding purge_chunk chunk_event
  purge_chunk-Run more continues call n [] s = complete_purge-Run call n s
  purge_chunk-Run more continues call n (digest ∷ digests) s =
      elim (Bool-cases (refused call (others call s))) [
        | inl e ↦ rw e (Run-others (between call s))
        | inr e ↦ rw e (
            after_chunk-Run more continues (call + 1) n (length (digest ∷ digests)) s
              (run_chunk claim (digest ∷ digests) (chunk_event sha256 claim (digest ∷ digests))
                (others call s))
              (Run-trans (Run-others (between call s)) (
                run_chunk-Run claim (digest ∷ digests) (chunk_event sha256 claim (digest ∷ digests))
                  (sha256 (join_lines (digest ∷ digests))) (others call s) refl refl)))
      ]

  purge_chunks-Run :
      (left call n : ℕ) (s : Store)
      → Run Others candidate claim cutoff lease s
          (purge_chunks sha256 others refused claim left call n s).0
  unfolding purge_chunks
  purge_chunks-Run zero call n s = complete_purge-Run call n s
  purge_chunks-Run (suc left) call n s = elim (Bool-cases (refused call (others call s))) [
    | inl e ↦ rw e (Run-others (between call s))
    | inr e ↦ rw e (
        Run-trans (Run-others (between call s)) (
          purge_chunk-Run (purge_chunks sha256 others refused claim left (call + 2))
            (λ n' s'. purge_chunks-Run left (call + 2) n' s') (call + 1) n
            (select_chunk claim (others call s)) (others call s)))
  ]

  -- Whatever the others do between the calls and whichever calls of the database throw, a purge takes only
  -- the steps that its claim allows.
  pub purge_claimed_manifest_entries-Run :
      (max_chunks : ℕ) (s : Store)
      → Run Others candidate claim cutoff lease s
          (purge_claimed_manifest_entries sha256 others refused claim max_chunks s).0
  unfolding purge_claimed_manifest_entries
  purge_claimed_manifest_entries-Run max_chunks s = purge_chunks-Run max_chunks 0 0 s
