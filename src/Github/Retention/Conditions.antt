-- ===== src/Github/Retention/Conditions.antt =====
-- src/github/tree-manifest-retention.ts and src/github/tree-manifest-purge.ts: what the conditions of the
-- statements say.
use mathlib.Core.List.{Memᴰ}
use edgemneme.Base.{
  Bool, List, [], ◌∷◌, any, Bool-cases, subst, ℕ, ◌+◌, ◌≤◌, ◌<◌, ◌≡◌, ◌⊎◌, inl, inr, refl, ap, true,
  ◌||◌, Option, none, some, Text, arith, text_eq_iff,
}
use edgemneme.Github.Retention.{
  Store, ManifestStatus, staging, complete, failed, purging, purged, ManifestPurgeClaim, is_after,
  is_not_after, is_retained, is_purging, is_purged, is_failed, holds_token, is_unprotected,
  may_purge, LifecycleEvent, EventType, failed_event, purge_chunk_event, purged_event,
  is_chunk_event, same_chunk, records_chunk,
}
use edgemneme.Github.Retention.Candidates.{RetentionCandidate, failed_lane, is_of_lane}
use edgemneme.Github.Retention.Claims.{same_status, is_absent_or_due, may_claim}
use edgemneme.Github.Retention.Work.{IsUnprotected, IsHeld, IsFree, Lapsed, Records}

pub is_purging-true : (status : ManifestStatus) → is_purging status ≡ true → status ≡ purging
is_purging-true staging h = cc
is_purging-true complete h = cc
is_purging-true failed h = cc
is_purging-true purging h = refl
is_purging-true purged h = cc

pub is_purged-true : (status : ManifestStatus) → is_purged status ≡ true → status ≡ purged
is_purged-true staging h = cc
is_purged-true complete h = cc
is_purged-true failed h = cc
is_purged-true purging h = cc
is_purged-true purged h = refl

pub holds_token-true :
    (o : Option Text) (token : Text) → holds_token o token ≡ true → o ≡ some token
holds_token-true none token h = cc
holds_token-true (some held) token h = ap some ((text_eq_iff held token).0 h)

is_after-true :
    (o : Option ℕ) (now : ℕ) → is_after o now ≡ true → (time : ℕ) × (o ≡ some time) × (now < time)
is_after-true none now h = cc
is_after-true (some time) now h = (time, refl, ground arith)

is_not_after-true :
    (o : Option ℕ) (now : ℕ)
    → is_not_after o now ≡ true
    → (time : ℕ) × (o ≡ some time) × (time ≤ now)
is_not_after-true none now h = cc
is_not_after-true (some time) now h = (time, refl, ground arith)

is_retained-true :
    (o : Option ℕ) (now : ℕ)
    → is_retained o now ≡ true
    → (time : ℕ) × (o ≡ some time) × (time + 2592000000 ≤ now)
is_retained-true none now h = cc
is_retained-true (some time) now h = (time, refl, ground arith)

is_absent_or_due-true :
    (o : Option ℕ) (now : ℕ)
    → is_absent_or_due o now ≡ true
    → (o ≡ none) ⊎ ((time : ℕ) × (o ≡ some time) × (time ≤ now))
is_absent_or_due-true none now h = inl refl
is_absent_or_due-true (some time) now h = inr (time, refl, ground arith)

is_unprotected-true : (s : Store) → is_unprotected s ≡ true → IsUnprotected s
is_unprotected-true s h = record {
  no_head = ground arith;
  no_delta = ground arith;
  not_synthetic = ground arith;
}

pub may_purge-IsHeld :
    (claim : ManifestPurgeClaim) (s : Store) → may_purge claim s ≡ true → IsHeld claim s
unfolding may_purge
may_purge-IsHeld claim s h = record {
  status = is_purging-true s.manifest.status (ground arith);
  token = holds_token-true s.manifest.purge_token claim.purge_token (ground arith);
  version = ground arith;
  attempt = ground arith;
  leased = is_after-true s.manifest.purge_lease_until s.now (ground arith);
  retained = is_retained-true s.manifest.failed_at s.now (ground arith);
  unprotected = is_unprotected-true s (ground arith);
}

failed_or_purging :
    (status candidate_status : ManifestStatus)
    → is_of_lane failed_lane candidate_status ≡ true
    → same_status status candidate_status ≡ true
    → (status ≡ failed) ⊎ (status ≡ purging)
failed_or_purging failed candidate_status l h = inl refl
failed_or_purging purging candidate_status l h = inr refl
failed_or_purging staging staging l h = cc
failed_or_purging staging complete l h = cc
failed_or_purging staging failed l h = cc
failed_or_purging staging purging l h = cc
failed_or_purging staging purged l h = cc
failed_or_purging complete staging l h = cc
failed_or_purging complete complete l h = cc
failed_or_purging complete failed l h = cc
failed_or_purging complete purging l h = cc
failed_or_purging complete purged l h = cc
failed_or_purging purged staging l h = cc
failed_or_purging purged complete l h = cc
failed_or_purging purged failed l h = cc
failed_or_purging purged purging l h = cc
failed_or_purging purged purged l h = cc

left_or_failed :
    (s : Store)
    → (s.manifest.status ≡ failed) ⊎ (s.manifest.status ≡ purging)
    → (is_failed s.manifest.status || is_not_after s.manifest.purge_lease_until s.now) ≡ true
    → (s.manifest.status ≡ failed) ⊎ ((s.manifest.status ≡ purging) × Lapsed s)
left_or_failed s (inl e) h = inl e
left_or_failed s (inr e) h =
    inr (e, is_not_after-true s.manifest.purge_lease_until s.now (rw e at h))

pub may_claim-IsFree :
    (candidate : RetentionCandidate) (cutoff : ℕ) (s : Store)
    → is_of_lane failed_lane candidate.status ≡ true
    → may_claim candidate cutoff s ≡ true
    → IsFree candidate cutoff s
unfolding may_claim
may_claim-IsFree candidate cutoff s l h = record {
  status =
      left_or_failed s (failed_or_purging s.manifest.status candidate.status l (ground arith))
        (ground arith);
  version = ground arith;
  attempt = ground arith;
  failed_before = is_not_after-true s.manifest.failed_at cutoff (ground arith);
  due = is_absent_or_due-true s.manifest.retention_next_attempt_at s.now (ground arith);
  unprotected = is_unprotected-true s (ground arith);
}

any-Memᴰ :
    (test : LifecycleEvent → Bool) (events : List LifecycleEvent)
    → any test events ≡ true
    → (e : LifecycleEvent) × Memᴰ e events × (test e ≡ true)
any-Memᴰ test [] h = cc
any-Memᴰ test (e ∷ events) h = elim (Bool-cases (test e)) [
  | inl found ↦ (e, Memᴰ.head refl, found)
  | inr missed ↦
      let (x, i, holds) = any-Memᴰ test events (rw missed at h) in (x, Memᴰ.tail i, holds)
]

is_chunk_event-true : (type : EventType) → is_chunk_event type ≡ true → type ≡ purge_chunk_event
is_chunk_event-true failed_event h = cc
is_chunk_event-true purge_chunk_event h = refl
is_chunk_event-true purged_event h = cc

same_chunk-true :
    (chunk : Option (ℕ × Text)) (count : ℕ) (digest : Text)
    → same_chunk chunk (some (count, digest)) ≡ true
    → (chunk_digest : Text) × (chunk ≡ some (count, chunk_digest))
same_chunk-true none count digest h = cc
same_chunk-true (some (n, d)) count digest h =
    let same : n ≡ count = ground arith in (d, ap (λ k. some (k, d)) same)

pub recorded-Records :
    (claim : ManifestPurgeClaim) (count : ℕ) (digest : Text) (event : LifecycleEvent) (s : Store)
    → event.retention_version ≡ claim.retention_version
    → event.chunk ≡ some (count, digest)
    → any (records_chunk event) s.events ≡ true
    → Records claim count s
recorded-Records claim count digest event s version chunk h =
    let (recorded, i, holds) = any-Memᴰ (records_chunk event) s.events h in
    let counts : same_chunk recorded.chunk (some (count, digest)) ≡ true =
      subst (λ c. same_chunk recorded.chunk c ≡ true) chunk (ground arith) in
    record {
      event = recorded;
      recorded = i;
      of_chunk = is_chunk_event-true recorded.event_type (ground arith);
      version = ground (arith, version);
      counted = same_chunk-true recorded.chunk count digest counts;
    }
