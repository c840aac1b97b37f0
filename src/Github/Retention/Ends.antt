-- ===== src/Github/Retention/Ends.antt =====
-- src/github/tree-manifest-purge.ts: what the result of a purge says.
use edgemneme.Base.{
  ℕ, zero, suc, ◌+◌, ◌*◌, ◌≤◌, ◌≡◌, ◌⊎◌, inl, inr, refl, subst, Bool, true, false, not, ◌&&◌, ◌||◌,
  List, [], ◌∷◌, Result, ok, err, Text, arith, ltb, ◌==◌, length, length-take, is_empty,
  nil_of_is_empty, text_eq, any, Bool-cases, and-true,
}
use edgemneme.Github.Retention.{
  Store, purged, ManifestPurgeClaim, LifecycleEvent, Changes, may_purge, select_chunk, run_chunk,
  finish_manifest, insert_purged_event, run_completion, is_purged,
}
use edgemneme.Github.Retention.Purging.{
  PurgeError, PurgeResult, chunk_event, completion_event, check_completion, complete_purge,
  after_chunk, purge_chunk, purge_chunks, purge_claimed_manifest_entries,
}

-- The rows of a manifest that was purged under this claim.
abbrev pub IsPurged : ManifestPurgeClaim → Store → Type 0
IsPurged claim s =
    (s.manifest.status ≡ purged)
    × (s.entries ≡ [])
    × (s.manifest.retention_version ≡ claim.retention_version + 1)

-- What a result says of the rows that it leaves.
abbrev pub Ends : ManifestPurgeClaim → ℕ → Store × Result PurgeError PurgeResult → Type 0
Ends claim bound (s, err e) = Unit
Ends claim bound (s, ok r) = (r.entries_deleted ≤ bound) × ((r.purged ≡ false) ⊎ IsPurged claim s)

may_purge-version :
    (claim : ManifestPurgeClaim) (s : Store)
    → may_purge claim s ≡ true
    → s.manifest.retention_version ≡ claim.retention_version
unfolding may_purge
may_purge-version claim s h = ground arith

finish_manifest-IsPurged :
    (claim : ManifestPurgeClaim) (s : Store)
    → (finish_manifest claim s).1 ≡ 1
    → IsPurged claim (finish_manifest claim s).0
unfolding finish_manifest
finish_manifest-IsPurged claim s h = elim (Bool-cases (may_purge claim s && is_empty s.entries)) [
  | inr e ↦ absurd (let h' = rw e at h in omega arith)
  | inl e ↦
      let (may, empty) = and-true (may_purge claim s) (is_empty s.entries) e in
      rw e (refl, nil_of_is_empty s.entries empty, omega (arith, may_purge-version claim s may))
]

-- The event changes neither the manifest nor its entries.
insert_purged_event-rows :
    (claim : ManifestPurgeClaim) (event : LifecycleEvent) (s : Store)
    → ((insert_purged_event claim event s).0.manifest ≡ s.manifest)
      × ((insert_purged_event claim event s).0.entries ≡ s.entries)
unfolding insert_purged_event
insert_purged_event-rows claim event s =
    elim (Bool-cases (
      is_purged s.manifest.status
      && s.manifest.retention_version == claim.retention_version + 1
      && s.manifest.retention_attempt == claim.retention_attempt
      && not (any (λ (e : LifecycleEvent). text_eq e.event_id event.event_id) s.events))) [
        | inl e ↦ rw e (refl, refl)
        | inr e ↦ rw e (refl, refl)
      ]

run_completion-IsPurged :
    (claim : ManifestPurgeClaim) (event : LifecycleEvent) (s : Store)
    → (run_completion claim event s).1.0 ≡ 1
    → IsPurged claim (run_completion claim event s).0
unfolding run_completion
run_completion-IsPurged claim event s h =
    let (m, e) = insert_purged_event-rows claim event (finish_manifest claim s).0 in
    let (status, none_left, version) = finish_manifest-IsPurged claim s h in
    rw (m, e) (status, none_left, version)

one_or_other : (test : Bool) (P : Type 0) → (test ≡ true → P) → (test ≡ false) ⊎ P
one_or_other true P h = inr (h refl)
one_or_other false P h = inl refl

check_completion-Ends :
    (claim : ManifestPurgeClaim) (bound n : ℕ) (result : Store × Changes)
    → n ≤ bound
    → (result.1.0 ≡ 1 → IsPurged claim result.0)
    → Ends claim bound (check_completion n result)
unfolding check_completion
check_completion-Ends claim bound n (s, (a, b)) h k = elim (Bool-cases (not (a == b) || ltb 1 a)) [
  | inl e ↦ rw e tt
  | inr e ↦ rw e (h, one_or_other (a == 1) _ (λ p. k (ground arith)))
]

length-select_chunk : (claim : ManifestPurgeClaim) (s : Store) → length (select_chunk claim s) ≤ 500
unfolding select_chunk
length-select_chunk claim s = elim (Bool-cases (may_purge claim s)) [
  | inl e ↦ rw e (omega (arith, length-take 500 s.entries))
  | inr e ↦ rw e (omega arith)
]

module _ (sha256 : Text → Text) (others : ℕ → Store → Store) (refused : ℕ → Store → Bool)
    (claim : ManifestPurgeClaim) where
  complete_purge-Ends :
      (bound call n : ℕ) (s : Store)
      → n ≤ bound
      → Ends claim bound (complete_purge sha256 others refused claim call n s)
  unfolding complete_purge
  complete_purge-Ends bound call n s h = elim (Bool-cases (refused call (others call s))) [
    | inl e ↦ rw e tt
    | inr e ↦ rw e (
        check_completion-Ends claim bound n
          (run_completion claim (completion_event sha256 claim) (others call s)) h
          (run_completion-IsPurged claim (completion_event sha256 claim) (others call s)))
  ]

  after_chunk-Ends :
      (more : ℕ → Store → Store × Result PurgeError PurgeResult) (bound call n size : ℕ)
      (result : Store × Changes)
      → n + size ≤ bound
      → ((m : ℕ) (s : Store) → m ≤ n + size → Ends claim bound (more m s))
      → Ends claim bound (after_chunk sha256 others refused claim more call n size result)
  unfolding after_chunk
  after_chunk-Ends more bound call n size (t, (a, deleted)) h continues =
      elim (Bool-cases (not (a == 1) || not (deleted == size))) [
        | inl e ↦ rw e tt
        | inr e ↦
            let all_deleted : deleted ≡ size = ground arith in
            rw e (elim (Bool-cases (ltb deleted 500)) [
              | inl last ↦ rw last (complete_purge-Ends bound call (n + deleted) t (omega arith))
              | inr full ↦ rw full (continues (n + deleted) t (omega arith))
            ])
      ]

  purge_chunk-Ends :
      (more : ℕ → Store → Store × Result PurgeError PurgeResult) (bound call n : ℕ)
      (digests : List Text) (s : Store)
      → n + length digests ≤ bound
      → ((m : ℕ) (t : Store) → m ≤ n + length digests → Ends claim bound (more m t))
      → Ends claim bound (purge_chunk sha256 others refused claim more call n digests s)
  unfolding purge_chunk
  purge_chunk-Ends more bound call n [] s h continues =
      complete_purge-Ends bound call n s (omega arith)
  purge_chunk-Ends more bound call n (digest ∷ digests) s h continues =
      elim (Bool-cases (refused call (others call s))) [
        | inl e ↦ rw e tt
        | inr e ↦ rw e (
            after_chunk-Ends more bound (call + 1) n (length (digest ∷ digests))
              (run_chunk claim (digest ∷ digests) (chunk_event sha256 claim (digest ∷ digests))
                (others call s))
              h continues)
      ]

  purge_chunks-Ends :
      (left bound call n : ℕ) (s : Store)
      → n + 500 * left ≤ bound
      → Ends claim bound (purge_chunks sha256 others refused claim left call n s)
  unfolding purge_chunks
  purge_chunks-Ends zero bound call n s h = complete_purge-Ends bound call n s (omega arith)
  purge_chunks-Ends (suc left) bound call n s h = elim (Bool-cases (refused call (others call s))) [
    | inl e ↦ rw e tt
    | inr e ↦
        let short = length-select_chunk claim (others call s) in
        rw e (
          purge_chunk-Ends (purge_chunks sha256 others refused claim left (call + 2)) bound
            (call + 1) n (select_chunk claim (others call s)) (others call s) (omega arith)
            (λ m t k. purge_chunks-Ends left bound (call + 2) m t (omega arith)))
  ]

  -- Whatever the others do between the calls of the database, and whichever calls throw: a purge that
  -- returns has counted at most 500 deleted entries for each round of its loop, and either it says that
  -- the manifest is not purged, or the rows that it leaves say that it is purged, no entry is left, and
  -- the retention version is one more than the claim's.
  pub purge_claimed_manifest_entries-Ends :
      (max_chunks : ℕ) (s t : Store) (r : PurgeResult)
      → purge_claimed_manifest_entries sha256 others refused claim max_chunks s ≡ (t, ok r)
      → (r.entries_deleted ≤ 500 * max_chunks) × ((r.purged ≡ false) ⊎ IsPurged claim t)
  unfolding purge_claimed_manifest_entries
  purge_claimed_manifest_entries-Ends max_chunks s t r e =
      subst (Ends claim (500 * max_chunks)) e
        (purge_chunks-Ends max_chunks (500 * max_chunks) 0 0 s (omega arith))
