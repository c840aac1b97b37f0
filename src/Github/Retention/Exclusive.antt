-- ===== src/Github/Retention/Exclusive.antt =====
-- src/github/tree-manifest-retention.ts: a manifest is claimed by one worker at a time.
use edgemneme.Base.{
  ℕ, ◌+◌, ◌≤◌, ◌≡◌, inl, inr, refl, true, false, none, some, Text, arith, Bool-cases,
}
use edgemneme.Github.Retention.{Store, ManifestPurgeClaim, may_purge}
use edgemneme.Github.Retention.Candidates.{RetentionCandidate}
use edgemneme.Github.Retention.Lifecycle.{Reach, Reach-Keeps}
use edgemneme.Github.Retention.Claims.{may_claim, claim_manifest, claim_failed_manifest}

may_claim-version :
    (candidate : RetentionCandidate) (cutoff : ℕ) (s : Store)
    → may_claim candidate cutoff s ≡ true
    → s.manifest.retention_version ≡ candidate.retention_version
unfolding may_claim
may_claim-version candidate cutoff s h = ground arith

may_claim-stale :
    (candidate : RetentionCandidate) (cutoff : ℕ) (s : Store)
    → candidate.retention_version + 1 ≤ s.manifest.retention_version
    → may_claim candidate cutoff s ≡ false
unfolding may_claim
may_claim-stale candidate cutoff s h = ground arith

may_purge-stale :
    (claim : ManifestPurgeClaim) (s : Store)
    → claim.retention_version + 1 ≤ s.manifest.retention_version
    → may_purge claim s ≡ false
unfolding may_purge
may_purge-stale claim s h = ground arith

module _ (sha256 : Text → Text) (scheduled_at claimed_at : Text) (cutoff lease : ℕ) where
  claim_failed_manifest-version :
      (candidate : RetentionCandidate) (s t : Store) (claim : ManifestPurgeClaim)
      → claim_failed_manifest sha256 scheduled_at claimed_at cutoff lease candidate s
        ≡ (t, some claim)
      → t.manifest.retention_version ≡ candidate.retention_version + 1
  unfolding claim_failed_manifest claim_manifest
  claim_failed_manifest-version candidate s t claim h =
      elim (Bool-cases (may_claim candidate cutoff s)) [
        | inl e ↦ let version = may_claim-version candidate cutoff s e in ground (arith, version)
        | inr e ↦ ground arith
      ]

  claim_failed_manifest-stale :
      (candidate : RetentionCandidate) (s : Store)
      → candidate.retention_version + 1 ≤ s.manifest.retention_version
      → claim_failed_manifest sha256 scheduled_at claimed_at cutoff lease candidate s ≡ (s, none)
  unfolding claim_failed_manifest claim_manifest
  claim_failed_manifest-stale candidate s h = rw (may_claim-stale candidate cutoff s h) refl

-- After a claim of a candidate, and whatever steps of the manifest's life follow: nobody claims the same
-- version of the manifest again, with whatever times and lease, and no claim of this version or an
-- earlier one lets its holder purge the manifest.
pub claim_failed_manifest-exclusive :
    (sha256 : Text → Text) (scheduled_at claimed_at scheduled_at' claimed_at' : Text)
    (cutoff lease cutoff' lease' : ℕ) (candidate rival : RetentionCandidate) (s t u : Store)
    (claim old : ManifestPurgeClaim)
    → claim_failed_manifest sha256 scheduled_at claimed_at cutoff lease candidate s
      ≡ (t, some claim)
    → Reach t u
    → rival.retention_version ≡ candidate.retention_version
    → old.retention_version ≤ candidate.retention_version
    → (claim_failed_manifest sha256 scheduled_at' claimed_at' cutoff' lease' rival u ≡ (u, none))
      × (may_purge old u ≡ false)
claim_failed_manifest-exclusive sha256 scheduled_at claimed_at scheduled_at' claimed_at' cutoff
      lease cutoff' lease' candidate rival s t u claim old h r e k =
    let version =
      claim_failed_manifest-version sha256 scheduled_at claimed_at cutoff lease candidate s t claim
        h in
    let later = (Reach-Keeps r).version in
    (
      claim_failed_manifest-stale sha256 scheduled_at' claimed_at' cutoff' lease' rival u
          (omega arith),
      may_purge-stale old u (omega arith),
    )
