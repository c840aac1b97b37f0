-- ===== src/Github/Retention.antt =====
-- src/github/tree-manifest-retention.ts and src/github/tree-manifest-purge.ts: the rows of one manifest, and
-- what each statement does to them. Every statement names its manifest by project and identifier, so the
-- rows of other manifests stay as they are. A time is in milliseconds; a comparison with an absent time
-- is false.
pub mod Purging
pub mod Lifecycle
pub mod Work
pub mod Conditions
pub mod Runs
pub mod Ends
pub mod Candidates
pub mod Claims
pub mod Exclusive
pub mod Processing
mod Lives
mod ClaimTests
pub mod Quota
mod CandidateTests
mod Tests
use edgemneme.Base.{
  ℕ, zero, suc, ◌+◌, ◌-◌, ◌*◌, ◌^◌, min, Bool, true, false, not, ◌&&◌, ◌||◌, Option, none, some,
  List, [], ◌∷◌, ◌++◌, Text, ltb, leb, ◌==◌, if◌then◌else◌, length, filter, any, take, is_empty,
  includes, text_eq, codes,
}

pub data ManifestStatus : Type 0 where
  staging complete failed purging purged : ManifestStatus

pub record Manifest : Type 0 where
  pub status : ManifestStatus
  pub failure_code : Option Text
  pub retention_version : ℕ
  pub retention_attempt : ℕ
  pub retention_next_attempt_at : Option ℕ
  pub purge_token : Option Text
  pub purge_lease_until : Option ℕ
  pub failed_at : Option ℕ
  pub purged_at : Option ℕ

pub data EventType : Type 0 where
  failed_event purge_chunk_event purged_event : EventType

-- `chunk` is the number of entries of a chunk, and its digest.
pub record LifecycleEvent : Type 0 where
  pub event_id : Text
  pub event_type : EventType
  pub retention_version : ℕ
  pub chunk : Option (ℕ × Text)
  pub request_digest : Text

-- The entries are the path digests, in order; `has_head` and `has_delta` say whether a head or a delta of a
-- ref names the manifest.
pub record Store : Type 0 where
  pub manifest : Manifest
  pub entries : List Text
  pub events : List LifecycleEvent
  pub has_head : Bool
  pub has_delta : Bool
  pub is_synthetic : Bool
  pub now : ℕ

pub record ManifestPurgeClaim : Type 0 where
  pub project_id : Text
  pub manifest_id : Text
  pub purge_token : Text
  pub retention_version : ℕ
  pub retention_attempt : ℕ

abbrev pub delete_chunk_size : ℕ
delete_chunk_size = 500

abbrev pub failed_retention_milliseconds : ℕ
failed_retention_milliseconds = 2592000000

abbrev pub is_after : Option ℕ → ℕ → Bool
is_after none now = false
is_after (some time) now = ltb now time

abbrev pub is_not_after : Option ℕ → ℕ → Bool
is_not_after none now = false
is_not_after (some time) now = leb time now

-- `julianday('now') >= julianday(failed_at, '+30 days')`
abbrev pub is_retained : Option ℕ → ℕ → Bool
is_retained none now = false
is_retained (some time) now = leb (time + failed_retention_milliseconds) now

abbrev pub is_purging : ManifestStatus → Bool
is_purging purging = true
is_purging status = false

abbrev pub is_failed : ManifestStatus → Bool
is_failed failed = true
is_failed status = false

abbrev pub holds_token : Option Text → Text → Bool
holds_token none token = false
holds_token (some held) token = text_eq held token

-- No head and no delta names the manifest, and its project is not synthetic.
abbrev pub is_unprotected : Store → Bool
is_unprotected s = not s.is_synthetic && not s.has_head && not s.has_delta

-- The condition that the statements of a purge share.
unfoldable pub may_purge : ManifestPurgeClaim → Store → Bool
may_purge claim s =
    is_purging s.manifest.status
    && holds_token s.manifest.purge_token claim.purge_token
    && s.manifest.retention_version == claim.retention_version
    && s.manifest.retention_attempt == claim.retention_attempt
    && is_after s.manifest.purge_lease_until s.now
    && is_retained s.manifest.failed_at s.now
    && is_unprotected s

-- `SELECT entry.path_digest … ORDER BY … LIMIT ?`
unfoldable pub select_chunk : ManifestPurgeClaim → Store → List Text
unfolding may_purge
select_chunk claim s = if may_purge claim s then take delete_chunk_size s.entries else []

-- The entries with these path digests, which are distinct.
abbrev pub selected_entries : List Text → Store → List Text
selected_entries path_digests s = filter (includes path_digests) s.entries

-- What a batch returns: the changes of its two statements.
abbrev pub Changes : Type 0
Changes = ℕ × ℕ

-- `INSERT INTO github_tree_manifest_lifecycle_events …` for a chunk, with its changes.
unfoldable pub insert_chunk_event :
    ManifestPurgeClaim → List Text → LifecycleEvent → Store → Store × ℕ
unfolding may_purge
insert_chunk_event claim path_digests event s =
    if may_purge claim s && length path_digests == length (selected_entries path_digests s)
    then (record s { events = event ∷ s.events }, 1)
    else (s, 0)

abbrev pub same_chunk : Option (ℕ × Text) → Option (ℕ × Text) → Bool
same_chunk (some (m, a)) (some (n, b)) = m == n && text_eq a b
same_chunk a b = false

abbrev pub is_chunk_event : EventType → Bool
is_chunk_event purge_chunk_event = true
is_chunk_event event_type = false

abbrev pub records_chunk : LifecycleEvent → LifecycleEvent → Bool
records_chunk event recorded =
    text_eq recorded.event_id event.event_id
    && is_chunk_event recorded.event_type
    && recorded.retention_version == event.retention_version
    && same_chunk recorded.chunk event.chunk

-- `DELETE FROM github_tree_manifest_entries …`, with its changes.
unfoldable pub delete_entries : ManifestPurgeClaim → List Text → LifecycleEvent → Store → Store × ℕ
unfolding may_purge
delete_entries claim path_digests event s =
    if may_purge claim s && any (records_chunk event) s.events
    then (
      record s { entries = filter (λ digest. not (includes path_digests digest)) s.entries },
      length (selected_entries path_digests s),
    )
    else (s, 0)

-- The two statements run in one transaction.
unfoldable pub run_chunk : ManifestPurgeClaim → List Text → LifecycleEvent → Store → Store × Changes
unfolding insert_chunk_event delete_entries
run_chunk claim path_digests event s =
    let (inserted, event_changes) = insert_chunk_event claim path_digests event s in
    let (deleted, entry_changes) = delete_entries claim path_digests event inserted in
    (deleted, (event_changes, entry_changes))

abbrev pub purged_manifest : ℕ → Manifest → Manifest
purged_manifest now m = record m {
  status = purged;
  retention_version = m.retention_version + 1;
  retention_next_attempt_at = none;
  purge_token = none;
  purge_lease_until = none;
  purged_at = some now;
}

-- `UPDATE github_tree_manifests SET status = 'purged' …`, with its changes.
unfoldable pub finish_manifest : ManifestPurgeClaim → Store → Store × ℕ
unfolding may_purge
finish_manifest claim s =
    if may_purge claim s && is_empty s.entries
    then (record s { manifest = purged_manifest s.now s.manifest }, 1)
    else (s, 0)

abbrev pub is_purged : ManifestStatus → Bool
is_purged purged = true
is_purged status = false

unfoldable pub insert_purged_event : ManifestPurgeClaim → LifecycleEvent → Store → Store × ℕ
insert_purged_event claim event s =
    if is_purged s.manifest.status
      && s.manifest.retention_version == claim.retention_version + 1
      && s.manifest.retention_attempt == claim.retention_attempt
      && not (any (λ (e : LifecycleEvent). text_eq e.event_id event.event_id) s.events)
    then (record s { events = event ∷ s.events }, 1)
    else (s, 0)

unfoldable pub run_completion : ManifestPurgeClaim → LifecycleEvent → Store → Store × Changes
unfolding finish_manifest insert_purged_event
run_completion claim event s =
    let (finished, state_changes) = finish_manifest claim s in
    let (recorded, event_changes) = insert_purged_event claim event finished in
    (recorded, (state_changes, event_changes))
