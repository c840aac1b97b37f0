-- ===== src/Github/Retention/Work.antt =====
-- src/github/tree-manifest-retention.ts and src/github/tree-manifest-purge.ts: what one worker may do to the rows
-- of a manifest, and what it does among the others.
use mathlib.Core.List.{Memᴰ}
use edgemneme.Base.{
  length, ℕ, ◌+◌, ◌≤◌, ◌<◌, ◌≡◌, ◌⊎◌, false, not, none, some, List, [], ◌∷◌, Text, filter, includes,
}
use edgemneme.Github.Retention.{
  Store, failed, purging, purged, ManifestPurgeClaim, LifecycleEvent, purge_chunk_event,
}
use edgemneme.Github.Retention.Candidates.{RetentionCandidate}

-- No head and no delta names the manifest, and its project is not synthetic.
pub record IsUnprotected (s : Store) : Type 0 where
  pub no_head : s.has_head ≡ false
  pub no_delta : s.has_delta ≡ false
  pub not_synthetic : s.is_synthetic ≡ false

-- The worker whose claim this is may act: the manifest is being purged under this claim, whose lease has not
-- run out; it failed 30 days ago, and nothing protects it.
pub record IsHeld (claim : ManifestPurgeClaim) (s : Store) : Type 0 where
  pub status : s.manifest.status ≡ purging
  pub token : s.manifest.purge_token ≡ some claim.purge_token
  pub version : s.manifest.retention_version ≡ claim.retention_version
  pub attempt : s.manifest.retention_attempt ≡ claim.retention_attempt
  pub leased : (end_time : ℕ) × (s.manifest.purge_lease_until ≡ some end_time) × (s.now < end_time)
  pub retained : (time : ℕ) × (s.manifest.failed_at ≡ some time) × (time + 2592000000 ≤ s.now)
  pub unprotected : IsUnprotected s

-- The lease of whoever purges the manifest has run out.
abbrev pub Lapsed : Store → Type 0
Lapsed s = (end_time : ℕ) × (s.manifest.purge_lease_until ≡ some end_time) × (end_time ≤ s.now)

-- The manifest may be claimed: it has failed, or its purge was left; it is as the candidate says, failed
-- before the cutoff, and is due; and nothing protects it.
pub record IsFree (candidate : RetentionCandidate) (cutoff : ℕ) (s : Store) : Type 0 where
  pub status : (s.manifest.status ≡ failed) ⊎ ((s.manifest.status ≡ purging) × Lapsed s)
  pub version : s.manifest.retention_version ≡ candidate.retention_version
  pub attempt : s.manifest.retention_attempt ≡ candidate.retention_attempt
  pub failed_before : (time : ℕ) × (s.manifest.failed_at ≡ some time) × (time ≤ cutoff)
  pub due :
      (s.manifest.retention_next_attempt_at ≡ none)
      ⊎ ((time : ℕ) × (s.manifest.retention_next_attempt_at ≡ some time) × (time ≤ s.now))
  pub unprotected : IsUnprotected s

-- An event of the claim that says how many entries are deleted is recorded.
pub record Records (claim : ManifestPurgeClaim) (count : ℕ) (s : Store) : Type 0 where
  pub event : LifecycleEvent
  pub recorded : Memᴰ event s.events
  pub of_chunk : event.event_type ≡ purge_chunk_event
  pub version : event.retention_version ≡ claim.retention_version
  pub counted : (chunk_digest : Text) × (event.chunk ≡ some (count, chunk_digest))

-- `seize`: the manifest is claimed. `note`: an event is recorded, of a claim that is held or of the end of the purge. `remove`: entries are deleted, after an event that says
-- how many. `finish`: the
-- manifest is purged. `defer`: its next attempt is put off, for half a day to a week. Each leaves
-- everything else in the rows as it is.
pub data Work (candidate : RetentionCandidate) (claim : ManifestPurgeClaim) (cutoff lease : ℕ)
    (s t : Store) : Type 0 where
  seize :
      IsFree candidate cutoff s
      → t ≡ record s {
        manifest = record s.manifest {
          status = purging;
          retention_version = s.manifest.retention_version + 1;
          retention_attempt = s.manifest.retention_attempt + 1;
          retention_next_attempt_at = some (s.now + lease);
          purge_token = some claim.purge_token;
          purge_lease_until = some (s.now + lease);
        };
      }
      → Work candidate claim cutoff lease s t
  note :
      (event : LifecycleEvent)
      → IsHeld claim s
        ⊎ ((s.manifest.status ≡ purged)
            × (s.manifest.retention_version ≡ claim.retention_version + 1))
      → t ≡ record s { events = event ∷ s.events }
      → Work candidate claim cutoff lease s t
  remove :
      (digests : List Text)
      → IsHeld claim s
      → Records claim (length digests) s
      → t ≡ record s { entries = filter (λ digest. not (includes digests digest)) s.entries }
      → Work candidate claim cutoff lease s t
  finish :
      IsHeld claim s
      → s.entries ≡ []
      → t ≡ record s {
        manifest = record s.manifest {
          status = purged;
          retention_version = s.manifest.retention_version + 1;
          retention_next_attempt_at = none;
          purge_token = none;
          purge_lease_until = none;
          purged_at = some s.now;
        };
      }
      → Work candidate claim cutoff lease s t
  defer :
      (delay : ℕ)
      → 43200000 ≤ delay
      → delay ≤ 604800000
      → s.manifest.status ≡ purging
      → s.manifest.purge_token ≡ some claim.purge_token
      → t ≡ record s {
        manifest = record s.manifest { retention_next_attempt_at = some (s.now + delay) };
      }
      → Work candidate claim cutoff lease s t

-- The rows after the worker's steps, between which the others act: `Others` is what they may do at once.
pub data Run (Others : Store → Store → Type 0) (candidate : RetentionCandidate)
    (claim : ManifestPurgeClaim) (cutoff lease : ℕ) (s : Store) : Store → Type 0 where
  here : Run Others candidate claim cutoff lease s s
  meanwhile :
      {t u : Store}
      → Run Others candidate claim cutoff lease s t
      → Others t u
      → Run Others candidate claim cutoff lease s u
  works :
      {t u : Store}
      → Run Others candidate claim cutoff lease s t
      → Work candidate claim cutoff lease t u
      → Run Others candidate claim cutoff lease s u

module _ {Others : Store → Store → Type 0} {candidate : RetentionCandidate}
    {claim : ManifestPurgeClaim} {cutoff lease : ℕ} where
  pub Run-trans :
      {s t u : Store}
      → Run Others candidate claim cutoff lease s t
      → Run Others candidate claim cutoff lease t u
      → Run Others candidate claim cutoff lease s u
  Run-trans r here = r
  Run-trans r (meanwhile q act) = meanwhile (Run-trans r q) act
  Run-trans r (works q step) = works (Run-trans r q) step

  pub Run-one :
      {s t : Store}
      → Work candidate claim cutoff lease s t
      → Run Others candidate claim cutoff lease s t
  Run-one step = works here step

  pub Run-others : {s t : Store} → Others s t → Run Others candidate claim cutoff lease s t
  Run-others act = meanwhile here act
