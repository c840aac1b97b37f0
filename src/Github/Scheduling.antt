-- ===== src/Github/Scheduling.antt =====
-- src/github/sync-scheduling.ts: the slots of the schedule, the identities made from them, the wait for a
-- credential lane, and the batches of workflows. `sha256` and `to_iso_string` (of `new Date(ms)`) are
-- parameters; a 32-bit hash is the natural number of its unsigned value.
pub mod Batches
pub mod Times
mod Tests
use Prim.Native.Nat.{bit_xor}
use edgemneme.Base.{
  ℕ, zero, suc, ◌+◌, ◌*◌, ◌/◌, ◌%◌, ◌^◌, min, Bool, true, false, not, ◌||◌, Option, none, some,
  List, [], ◌∷◌, ◌++◌, Result, ok, err, ◌>>=◌, ◌>>◌, throw_if, Text, codes, ltb, ◌==◌,
  if◌then◌else◌, length, take, drop, max_safe_integer, join_lines,
}

pub data ScheduleError : Type 0 where
  schedule_time_invalid lane_attempt_invalid batch_size_invalid : ScheduleError

abbrev pub github_sync_slot_ms : ℕ
github_sync_slot_ms = 21600000

-- The time is `none` where it is negative or not finite.
unfoldable pub canonical_github_sync_slot : Option ℕ → Result ScheduleError ℕ
canonical_github_sync_slot none = err schedule_time_invalid
canonical_github_sync_slot (some scheduled_time) =
    ok (scheduled_time / github_sync_slot_ms * github_sync_slot_ms)

pub record GithubDispatchIdentity : Type 0 where
  pub dispatch_id : Text
  pub instance_id : Text
  pub scheduled_for : Text
  pub utc_date : Text

pub record GithubRetentionIdentity : Type 0 where
  pub instance_id : Text
  pub scheduled_for : Text
  pub utc_date : Text

pub record RefWorkflowInput : Type 0 where
  pub dispatch_id : Text
  pub project_id : Text
  pub repository_id : Text
  pub ref : Text
  pub scheduled_for : Text
  pub full_reconciliation : Bool

module _ (sha256 : Text → Text) (to_iso_string : ℕ → Text) where
  unfoldable pub github_dispatch_identity :
      Text → Option ℕ → Result ScheduleError GithubDispatchIdentity
  github_dispatch_identity credential_version scheduled_time = do
    slot ← canonical_github_sync_slot scheduled_time
    let scheduled_for = to_iso_string slot
    let dispatch_id =
        sha256 (join_lines (codes "github.sync.dispatch" ∷ credential_version ∷ scheduled_for ∷ []))
    ok (record {
      dispatch_id = dispatch_id;
      instance_id = codes "ghd-" ++ dispatch_id;
      scheduled_for = scheduled_for;
      utc_date = take 10 scheduled_for;
    })

  unfoldable pub github_retention_identity : Option ℕ → Result ScheduleError GithubRetentionIdentity
  github_retention_identity scheduled_time = do
    slot ← canonical_github_sync_slot scheduled_time
    let scheduled_for = to_iso_string slot
    ok (record {
      instance_id =
          codes "ghc-" ++ sha256 (join_lines (codes "github.sync.retention" ∷ scheduled_for ∷ []));
      scheduled_for = scheduled_for;
      utc_date = take 10 scheduled_for;
    })

  -- The item's identifier, and the instance's.
  unfoldable pub github_ref_workflow_identity : RefWorkflowInput → Text × Text
  github_ref_workflow_identity input =
      let mode = if input.full_reconciliation then codes "full" else codes "incremental" in
      let item_id = sha256 (
        join_lines (
          codes "github.sync.dispatch.item"
          ∷ input.dispatch_id
          ∷ input.project_id
          ∷ input.repository_id
          ∷ input.ref
          ∷ input.scheduled_for
          ∷ mode
          ∷ [])) in
      (item_id, codes "ghr-" ++ item_id)

-- The loop over the owner's characters: `hash ^= …; hash = Math.imul(hash, 16777619)`.
unfoldable pub lane_hash : ℕ → Text → ℕ
lane_hash hash [] = hash
lane_hash hash (character ∷ owner_id) =
    lane_hash (bit_xor hash character * 16777619 % 2 ^ 32) owner_id

-- A negative or fractional attempt fails as one above the safe integers does.
unfoldable pub deterministic_lane_wait_ms : Text → ℕ → Result ScheduleError ℕ
deterministic_lane_wait_ms owner_id attempt = do
  throw_if (ltb max_safe_integer attempt) lane_attempt_invalid
  let exponential = min 30000 (250 * 2 ^ min attempt 7)
  ok (exponential + lane_hash 2166136261 owner_id % 401)

module _ {ℓ} {A : Type ℓ} where
  -- `for (let offset = 0; offset < items.length; offset += size)`; each round makes `offset` larger.
  unfoldable pub batches_from : ℕ → List A → ℕ → ℕ → List (List A)
  batches_from zero items size offset = []
  batches_from (suc fuel) items size offset =
      let rest = batches_from fuel items size (offset + size) in
      if ltb offset (length items) then take size (drop offset items) ∷ rest else []

  unfoldable pub chunk_workflow_batch : List A → ℕ → Result ScheduleError (List (List A))
  chunk_workflow_batch items size = do
    throw_if (ltb size 1 || ltb 100 size) batch_size_invalid
    ok (batches_from (length items) items size 0)
