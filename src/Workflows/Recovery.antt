-- ===== src/Workflows/Recovery.antt =====
-- src/workflows/recovery.ts: creating a workflow instance, or reusing or repairing the one that exists.
-- The workflow binding is two functions on a store: `create` gives the failure that it throws, if any, and
-- `status` what `get` and then `status()` report, with `none` where either of them throws.
pub mod Attempts
mod Tests
use edgemneme.Base.{
  ℕ, zero, suc, ◌+◌, Bool, true, false, Option, none, some, List, [], ◌∷◌, ◌++◌, Result, ok, err,
  Text, codes, decimal, ltb, ◌==◌, if◌then◌else◌, includes,
}

abbrev pub terminal_failures : List Text
terminal_failures = codes "errored" ∷ codes "terminated" ∷ []

abbrev pub reusable_statuses : List Text
reusable_statuses =
    codes "queued"
    ∷ codes "running"
    ∷ codes "waiting"
    ∷ codes "waitingForPause"
    ∷ codes "paused"
    ∷ codes "complete"
    ∷ []

-- The identifier of an attempt: the base identifier, or one with the number of the repair.
unfoldable pub attempt_id : Text → ℕ → Text
attempt_id base_id zero = base_id
attempt_id base_id (suc n) = base_id ++ (codes "-repair-" ++ decimal (suc n))

module _ (Store Failure : Type 0) where
  pub data RecoveryError : Type 0 where
    repair_limit_invalid control_plane_status : RecoveryError
    repair_exhausted : Option Failure → RecoveryError

  pub record WorkflowBinding : Type 0 where
    pub create : Text → Store → Store × Option Failure
    pub status : Text → Store → Store × Option Text

  abbrev pub Outcome : Type 0
  Outcome = Store × Result RecoveryError Text

  -- After a failed creation: the status decides whether to repair, to reuse or to give up.
  abbrev pub after_status : Text → (Store → Outcome) → Store × Option Text → Outcome
  after_status id repair_next (store, none) = (store, err control_plane_status)
  after_status id repair_next (store, some status) =
      if includes terminal_failures status
      then repair_next store
      else (if includes reusable_statuses status
          then (store, ok id)
          else (store, err control_plane_status))

  abbrev pub after_create :
      WorkflowBinding → Text → (Option Failure → Store → Outcome) → Store × Option Failure → Outcome
  after_create workflow id repair_next (store, none) = (store, ok id)
  after_create workflow id repair_next (store, some failure) =
      after_status id (repair_next (some failure)) (workflow.status id store)

  -- The loop, with the rounds that are left, the number of the next attempt, and the last failure.
  unfoldable pub ensure_from : WorkflowBinding → Text → ℕ → ℕ → Option Failure → Store → Outcome
  ensure_from workflow base_id zero repair last_failure store =
      (store, err (repair_exhausted last_failure))
  ensure_from workflow base_id (suc rounds) repair last_failure store =
      after_create workflow (attempt_id base_id repair)
        (λ failure next. ensure_from workflow base_id rounds (suc repair) failure next)
        (workflow.create (attempt_id base_id repair) store)

  -- A negative or fractional limit fails as one above 10 does, so a natural number stands for it.
  unfoldable pub ensure_workflow_with_repair : WorkflowBinding → Text → ℕ → Store → Outcome
  ensure_workflow_with_repair workflow base_id maximum_repairs store =
      let attempts = ensure_from workflow base_id (suc maximum_repairs) 0 none store in
      if ltb 10 maximum_repairs then (store, err repair_limit_invalid) else attempts
