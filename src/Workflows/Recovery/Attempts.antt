-- ===== src/Workflows/Recovery/Attempts.antt =====
-- src/workflows/recovery.ts: which attempts come before a result.
use mathlib.Core.List.{Memᴰ}
use edgemneme.Base.{
  ℕ, zero, suc, ◌+◌, ◌≤◌, ◌≡◌, refl, subst, ◌⊎◌, inl, inr, Option, none, some, ok, err, Text, arith,
  ltb, includes, includes-Memᴰ, Bool-cases,
}
use edgemneme.Workflows.Recovery.{
  terminal_failures, reusable_statuses, attempt_id, RecoveryError, WorkflowBinding, Outcome,
  after_status, after_create, ensure_from, ensure_workflow_with_repair,
}

module _ {Store Failure : Type 0} (workflow : WorkflowBinding Store Failure) (base_id : Text) where
  -- Attempt `k` is not created, and its instance has this status.
  pub record Refused (k : ℕ) (status : Text) (s t : Store) : Type 0 where
    pub failure : Failure
    pub between : Store
    pub thrown : workflow.create (attempt_id base_id k) s ≡ (between, some failure)
    pub reported : workflow.status (attempt_id base_id k) between ≡ (t, some status)

  -- From attempt `k` up to attempt `n`, every instance has failed for good.
  pub data Failed (n : ℕ) (t : Store) : ℕ → Store → Type 0 where
    here : Failed n t n t
    before :
        {k : ℕ} {s u : Store} (status : Text)
        → Memᴰ status terminal_failures
        → Refused k status s u
        → Failed n t (suc k) u
        → Failed n t k s

  -- Attempt `k` is created, or its instance can be reused.
  abbrev pub Settled : ℕ → Store → Store → Type 0
  Settled k s t =
      (workflow.create (attempt_id base_id k) s ≡ (t, none))
      ⊎ ((status : Text) × Memᴰ status reusable_statuses × Refused k status s t)

  -- What a result says of the attempts from `k` on.
  Explained : ℕ → ℕ → Store → Outcome Store Failure → Type 0
  Explained rounds k s (t, ok id) =
      (n : ℕ) × (u : Store) × (n + 1 ≤ k + rounds)
      × Failed n u k s
      × (id ≡ attempt_id base_id n)
      × Settled n u t
  Explained rounds k s (t, err (RecoveryError.repair_exhausted last)) = Failed (k + rounds) t k s
  Explained rounds k s (t, err e) = Unit

  explain-later :
      (rounds k : ℕ) (s u : Store) (status : Text) (r : Outcome Store Failure)
      → Memᴰ status terminal_failures
      → Refused k status s u
      → Explained rounds (suc k) u r
      → Explained (suc rounds) k s r
  unfolding Explained
  explain-later rounds k s u status (t, ok id) i f (n, v, b, failed, e, settled) =
      (n, v, omega arith, Failed.before status i f failed, e, settled)
  explain-later rounds k s u status (t, err (RecoveryError.repair_exhausted last)) i f failed =
      let e : suc k + rounds ≡ k + suc rounds = omega arith in
      subst (λ m. Failed m t k s) e (Failed.before status i f failed)
  explain-later rounds k s u status (t, err RecoveryError.repair_limit_invalid) i f h = tt
  explain-later rounds k s u status (t, err RecoveryError.control_plane_status) i f h = tt

  module _ (rounds k : ℕ) (s : Store) where
    after_status-Explained :
        (u : Store) (failure : Failure)
        → workflow.create (attempt_id base_id k) s ≡ (u, some failure)
        → (later : Store → Outcome Store Failure)
        → ((v : Store) → Explained rounds (suc k) v (later v))
        → (c : Store × Option Text) → workflow.status (attempt_id base_id k) u ≡ c
        → Explained (suc rounds) k s (after_status Store Failure (attempt_id base_id k) later c)
    unfolding Explained
    after_status-Explained u failure thrown later h (t, none) e = tt
    after_status-Explained u failure thrown later h (t, some status) e =
        let refused : Refused k status s t = record {
          failure = failure;
          between = u;
          thrown = thrown;
          reported = e;
        } in
        elim (Bool-cases (includes terminal_failures status)) [
          | inl terminal ↦ rw terminal (
              explain-later rounds k s t status (later t)
                (includes-Memᴰ terminal_failures status terminal) refused (h t))
          | inr open_ ↦ rw open_ (elim (Bool-cases (includes reusable_statuses status)) [
            | inl reusable ↦ rw reusable (
              k,
              s,
              omega arith,
              Failed.here,
              refl,
              inr (status, includes-Memᴰ reusable_statuses status reusable, refused),
            )
            | inr unknown ↦ rw unknown tt
          ])
        ]

    after_create-Explained :
        (later : Option Failure → Store → Outcome Store Failure)
        → ((f : Option Failure) (v : Store) → Explained rounds (suc k) v (later f v))
        → (c : Store × Option Failure) → workflow.create (attempt_id base_id k) s ≡ c
        → Explained
            (suc rounds)
            k
            s
            (after_create Store Failure workflow (attempt_id base_id k) later c)
    unfolding Explained
    after_create-Explained later h (t, none) e = (k, s, omega arith, Failed.here, refl, inl e)
    after_create-Explained later h (u, some failure) e =
        after_status-Explained u failure e (later (some failure)) (λ v. h (some failure) v)
          (workflow.status (attempt_id base_id k) u) refl

  ensure_from-Explained :
      (rounds k : ℕ) (last : Option Failure) (s : Store)
      → Explained rounds k s (ensure_from Store Failure workflow base_id rounds k last s)
  unfolding ensure_from Explained
  ensure_from-Explained zero k last s =
      let e : k ≡ k + 0 = omega arith in subst (λ m. Failed m s k s) e Failed.here
  ensure_from-Explained (suc rounds) k last s =
      after_create-Explained rounds k s
        (λ failure next. ensure_from Store Failure workflow base_id rounds (suc k) failure next)
        (λ f v. ensure_from-Explained rounds (suc k) f v) (workflow.create (attempt_id base_id k) s)
        refl

  -- An identifier that is returned is that of one of the attempts from 0 to the limit; every attempt
  -- before it was refused with an instance that has failed for good, and this one was created, or was
  -- refused with an instance that can be reused.
  pub ensure_workflow_with_repair-ok :
      (maximum_repairs : ℕ) (s t : Store) (id : Text)
      → ensure_workflow_with_repair Store Failure workflow base_id maximum_repairs s ≡ (t, ok id)
      → (n : ℕ) × (u : Store) × (n ≤ maximum_repairs)
        × Failed n u 0 s
        × (id ≡ attempt_id base_id n)
        × Settled n u t
  unfolding ensure_workflow_with_repair Explained
  ensure_workflow_with_repair-ok maximum_repairs s t id h =
      elim (Bool-cases (ltb 10 maximum_repairs)) [
        | inl large ↦ cc (rw large at h)
        | inr small ↦
            let e : ensure_from Store Failure workflow base_id (suc maximum_repairs) 0 none s
                ≡ (t, ok id) =
              rw small at h in
            let (n, u, b, failed, same, settled) =
              subst (λ r. Explained (suc maximum_repairs) 0 s r) e
                (ensure_from-Explained (suc maximum_repairs) 0 none s) in
            (n, u, omega arith, failed, same, settled)
      ]

  -- The repairs are exhausted only when every attempt from 0 to the limit, which is at most 10, was refused
  -- with an instance that has failed for good.
  pub ensure_workflow_with_repair-exhausted :
      (maximum_repairs : ℕ) (s t : Store) (last : Option Failure)
      → ensure_workflow_with_repair Store Failure workflow base_id maximum_repairs s
        ≡ (t, err (RecoveryError.repair_exhausted last))
      → (maximum_repairs ≤ 10) × Failed (maximum_repairs + 1) t 0 s
  unfolding ensure_workflow_with_repair Explained
  ensure_workflow_with_repair-exhausted maximum_repairs s t last h =
      elim (Bool-cases (ltb 10 maximum_repairs)) [
        | inl large ↦ cc (rw large at h)
        | inr small ↦
            let e : ensure_from Store Failure workflow base_id (suc maximum_repairs) 0 none s
                ≡ (t, err (RecoveryError.repair_exhausted last)) =
              rw small at h in
            let f =
              subst (λ r. Explained (suc maximum_repairs) 0 s r) e
                (ensure_from-Explained (suc maximum_repairs) 0 none s) in
            let i : 0 + suc maximum_repairs ≡ maximum_repairs + 1 = omega arith in
            (ground arith, subst (λ m. Failed m t 0 s) i f)
      ]
