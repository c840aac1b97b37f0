-- ===== src/Github/Retention/Processing.antt =====
-- src/github/tree-manifest-retention.ts: what is done with a candidate takes only the steps that the claim
-- allows.
use edgemneme.Base.{
  ℕ, zero, suc, ◌+◌, ◌-◌, ◌*◌, ◌^◌, ◌≤◌, min, ◌≡◌, inl, inr, refl, Bool, true, ◌&&◌, some, Result,
  ok, err, Text, arith, ◌==◌, Bool-cases,
}
use edgemneme.Github.Retention.{Store, ManifestPurgeClaim, is_purging, holds_token}
use edgemneme.Github.Retention.Candidates.{RetentionCandidate, failed_lane, is_of_lane}
use edgemneme.Github.Retention.Conditions.{is_purging-true, holds_token-true, may_claim-IsFree}
use edgemneme.Github.Retention.Work.{Work, Run, Run-one, Run-others, Run-trans}
use edgemneme.Github.Retention.Purging.{PurgeError, PurgeResult, purge_claimed_manifest_entries}
use edgemneme.Github.Retention.Runs.{purge_claimed_manifest_entries-Run}
use edgemneme.Github.Retention.Claims.{
  may_claim, claim_manifest, claim_of, claim_failed_manifest, backoff_milliseconds,
  defer_failed_purge_claim, has_safe_numbers, defer_claim, after_purge, after_claim,
  process_failed_candidate,
}

power_pos : (n : ℕ) → 1 ≤ 2 ^ n
power_pos zero = omega arith
power_pos (suc n) = omega (arith, power_pos n)

backoff_milliseconds-bounds :
    (n : ℕ) → (43200000 ≤ backoff_milliseconds n) × (backoff_milliseconds n ≤ 604800000)
unfolding backoff_milliseconds
backoff_milliseconds-bounds n =
    let positive = power_pos (min (n - 1) 10) in (omega arith, omega arith)

-- What the others do at once, between two calls.
abbrev pub Between : (ℕ → Store → Store) → Store → Store → Type 0
Between others s t = (k : ℕ) × (t ≡ others k s)

module _ {Others : Store → Store → Type 0} {candidate : RetentionCandidate} {cutoff lease : ℕ}
    (claim : ManifestPurgeClaim) where
  defer_failed_purge_claim-Run :
      (s : Store) → Run Others candidate claim cutoff lease s (defer_failed_purge_claim claim s)
  unfolding defer_failed_purge_claim
  defer_failed_purge_claim-Run s =
      elim (Bool-cases (
        is_purging s.manifest.status
        && holds_token s.manifest.purge_token claim.purge_token
        && s.manifest.retention_version == claim.retention_version
        && s.manifest.retention_attempt == claim.retention_attempt)) [
          | inl e ↦
              let (least, most) = backoff_milliseconds-bounds claim.retention_attempt in
              rw e (
                Run-one (
                  Work.defer (backoff_milliseconds claim.retention_attempt) least most
                    (is_purging-true s.manifest.status (ground arith))
                    (holds_token-true s.manifest.purge_token claim.purge_token (ground arith))
                    refl))
          | inr e ↦ rw e Run.here
        ]

module _ (sha256 : Text → Text) (scheduled_at claimed_at : Text) (cutoff lease : ℕ)
    (others : ℕ → Store → Store) (refused : ℕ → Store → Bool) (max_chunks : ℕ)
    (candidate : RetentionCandidate) where
  abbrev own_claim : ManifestPurgeClaim
  own_claim = claim_of sha256 scheduled_at claimed_at cutoff lease candidate

  abbrev OwnRun : Store → Store → Type 0
  OwnRun = Run (Between others) candidate own_claim cutoff lease

  others-Run : (k : ℕ) (s : Store) → OwnRun s (others k s)
  others-Run k s = Run-others (k, refl)

  defer_claim-Run : (s : Store) → OwnRun s (defer_claim others refused max_chunks own_claim s)
  unfolding defer_claim
  defer_claim-Run s =
      let call = 2 * max_chunks + 2 in
      elim (Bool-cases (refused call (others call s))) [
        | inl e ↦ rw e (others-Run call s)
        | inr e ↦
            rw e (
              Run-trans (others-Run call s)
                (defer_failed_purge_claim-Run own_claim (others call s)))
      ]

  after_purge-Run :
      (s : Store) (result : Store × Result PurgeError PurgeResult)
      → OwnRun s result.0
      → OwnRun s (after_purge others refused max_chunks own_claim result).0
  unfolding after_purge
  after_purge-Run s (t, ok r) q = q
  after_purge-Run s (t, err e) q = Run-trans q (defer_claim-Run t)

  after_seizure-Run :
      (s t : Store)
      → OwnRun s t
      → OwnRun s (after_claim others refused max_chunks sha256 (t, some own_claim)).0
  unfolding after_claim
  after_seizure-Run s t q = Run-trans q (
      after_purge-Run t
        (purge_claimed_manifest_entries sha256 (λ k. others (k + 1)) (λ k. refused (k + 1))
          own_claim max_chunks t)
        (purge_claimed_manifest_entries-Run sha256 (λ k. others (k + 1)) (λ k. refused (k + 1))
          (λ k u. (k + 1, refl)) own_claim max_chunks t))

  claimed-Run :
      (s t : Store)
      → is_of_lane failed_lane candidate.status ≡ true
      → OwnRun s t
      → OwnRun s
          (after_claim others refused max_chunks sha256
            (claim_failed_manifest sha256 scheduled_at claimed_at cutoff lease candidate t)).0
  unfolding claim_failed_manifest claim_manifest after_claim
  claimed-Run s t l q = elim (Bool-cases (may_claim candidate cutoff t)) [
    | inr e ↦ rw e q
    | inl e ↦ rw e (
        after_seizure-Run s _
          (Run-trans q (Run-one (Work.seize (may_claim-IsFree candidate cutoff t l e) refl))))
  ]

  pub process_failed_candidate-Run :
      (s : Store)
      → is_of_lane failed_lane candidate.status ≡ true
      → Run
          (Between others)
          candidate
          (claim_of sha256 scheduled_at claimed_at cutoff lease candidate)
          cutoff
          lease
          s
          (process_failed_candidate others refused max_chunks sha256 scheduled_at claimed_at cutoff
            lease candidate s).0
  unfolding process_failed_candidate
  process_failed_candidate-Run s l = elim (Bool-cases (has_safe_numbers candidate)) [
    | inr e ↦ rw e Run.here
    | inl e ↦ rw e (elim (Bool-cases (refused 0 (others 0 s))) [
      | inl e' ↦ rw e' (others-Run 0 s)
      | inr e' ↦ rw e' (claimed-Run s (others 0 s) l (others-Run 0 s))
    ])
  ]
