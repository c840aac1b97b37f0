-- ===== src/Workflows/Recovery/Tests.antt =====
-- src/workflows/recovery.ts: a control plane that keeps the instances' statuses, and the theorems at it.
use edgemneme.Base.{
  ℕ, ◌+◌, ◌≤◌, ◌≡◌, refl, Option, none, some, List, [], ◌∷◌, ok, err, Text, codes, decimal,
  includes, text_eq, map_get, map_set,
}
use edgemneme.Workflows.Recovery.{
  attempt_id, RecoveryError, WorkflowBinding, ensure_from, ensure_workflow_with_repair,
}
use edgemneme.Workflows.Recovery.Attempts.{
  Failed, Settled, ensure_workflow_with_repair-ok, ensure_workflow_with_repair-exhausted,
}

abbrev Instances : Type 0
Instances = List (Text × Text)

-- An instance that exists is not created again; the failure says so.
abbrev create_instance : Text → Instances → Option Text → Instances × Option Text
create_instance id store none = (map_set id (codes "queued") store, none)
create_instance id store (some status) = (store, some (codes "exists"))

abbrev plane : WorkflowBinding Instances Text
plane = record {
  create = λ id store. create_instance id store (map_get id store);
  status = λ id store. (store, map_get id store);
}

abbrev failed_once : Instances
failed_once = (codes "w", codes "errored") ∷ []

abbrev repaired : Instances
repaired = (codes "w", codes "errored") ∷ (codes "w-repair-1", codes "queued") ∷ []

repair_test :
    ensure_workflow_with_repair Instances Text plane (codes "w") 3 failed_once
    ≡ (repaired, ok (codes "w-repair-1"))
unfolding ensure_workflow_with_repair ensure_from attempt_id decimal includes text_eq map_get
    map_set
repair_test = refl

exhausted_test :
    ensure_workflow_with_repair Instances Text plane (codes "w") 0 failed_once
    ≡ (failed_once, err (RecoveryError.repair_exhausted (some (codes "exists"))))
unfolding ensure_workflow_with_repair ensure_from attempt_id decimal includes text_eq map_get
    map_set
exhausted_test = refl

ensure_workflow_with_repair-ok_example :
    (n : ℕ) × (u : Instances) × (n ≤ 3)
    × Failed plane (codes "w") n u 0 failed_once
    × (codes "w-repair-1" ≡ attempt_id (codes "w") n)
    × Settled plane (codes "w") n u repaired
ensure_workflow_with_repair-ok_example =
    ensure_workflow_with_repair-ok plane (codes "w") 3 failed_once repaired (codes "w-repair-1")
      repair_test

ensure_workflow_with_repair-exhausted_example :
    (0 ≤ 10) × Failed plane (codes "w") (0 + 1) failed_once 0 failed_once
ensure_workflow_with_repair-exhausted_example =
    ensure_workflow_with_repair-exhausted plane (codes "w") 0 failed_once failed_once
      (some (codes "exists")) exhausted_test
