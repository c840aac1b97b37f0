-- ===== src/Github/Retention/Lives.antt =====
-- src/github/tree-manifest-retention.ts: the steps of a worker are steps of the manifest's life.
use mathlib.Core.List.{Memᴰ}
use edgemneme.Base.{
  ℕ, ◌≡◌, ◌⊎◌, inl, inr, refl, sym, subst, true, not, List, [], ◌∷◌, Text, filter, includes, All,
  All-imp, Bool, Bool-cases,
}
use edgemneme.Github.Retention.{Store, ManifestPurgeClaim, failed, purging, is_unprotected}
use edgemneme.Github.Retention.Candidates.{RetentionCandidate, failed_lane, is_of_lane}
use edgemneme.Github.Retention.Lifecycle.{Step, Reach, Reach-one, Reach-trans}
use edgemneme.Github.Retention.Work.{
  IsUnprotected, Lapsed, Work, seize, note, remove, finish, defer, Run, here, meanwhile, works,
}
use edgemneme.Github.Retention.Claims.{process_failed_candidate}
use edgemneme.Github.Retention.Processing.{process_failed_candidate-Run}

filter-All :
    (test : Text → Bool) (xs ys : List Text)
    → All (λ x. Memᴰ x ys) xs
    → All (λ x. Memᴰ x ys) (filter test xs)
filter-All test [] ys h = tt
filter-All test (x ∷ xs) ys (m, h) = elim (Bool-cases (test x)) [
  | inl keep ↦ rw keep (m, filter-All test xs ys h)
  | inr leave ↦ rw leave (filter-All test xs ys h)
]

All-self : (xs : List Text) → All (λ x. Memᴰ x xs) xs
All-self [] = tt
All-self (x ∷ xs) = (Memᴰ.head refl, All-imp _ _ (λ y m. Memᴰ.tail m) xs (All-self xs))

unprotected : (s : Store) → IsUnprotected s → is_unprotected s ≡ true
unprotected s h =
    let head = h.no_head in
    let delta = h.no_delta in let synthetic = h.not_synthetic in rw (head, delta, synthetic)

free_status :
    (s : Store)
    → (s.manifest.status ≡ failed) ⊎ ((s.manifest.status ≡ purging) × Lapsed s)
    → (s.manifest.status ≡ failed) ⊎ (s.manifest.status ≡ purging)
free_status s (inl e) = inl e
free_status s (inr (e, lapsed)) = inr e

module _ {candidate : RetentionCandidate} {claim : ManifestPurgeClaim} {cutoff lease : ℕ} where
  -- A step of a worker is a step of the manifest's life.
  Work-Step : (s t : Store) → Work candidate claim cutoff lease s t → Step s t
  Work-Step s t (seize free e) =
      subst (Step s) (sym e)
        (Step.claim (free_status s free.status) (unprotected s free.unprotected) refl refl refl)
  Work-Step s t (note event may e) = subst (Step s) (sym e) (Step.outside refl refl refl)
  Work-Step s t (remove digests held records e) = subst (Step s) (sym e) (
      Step.remove held.status (unprotected s held.unprotected) refl (
        filter-All (λ digest. not (includes digests digest)) s.entries s.entries
          (All-self s.entries)))
  Work-Step s t (finish held none_left e) =
      subst (Step s) (sym e)
        (Step.finish held.status (unprotected s held.unprotected) none_left refl refl none_left)
  Work-Step s t (defer delay least most status token e) =
      subst (Step s) (sym e) (Step.outside refl refl refl)

  Run-Reach :
      {Others : Store → Store → Type 0}
      → ((t u : Store) → Others t u → Reach t u)
      → {s t : Store} → Run Others candidate claim cutoff lease s t
      → Reach s t
  Run-Reach others here = Reach.here
  Run-Reach others (meanwhile r act) = Reach-trans (Run-Reach others r) (others _ _ act)
  Run-Reach others (works r step) =
      Reach-trans (Run-Reach others r) (Reach-one (Work-Step _ _ step))

-- Where the others take only steps of the manifest's life between the calls of the database, the
-- processing of a candidate of the lane of failed manifests does so too, whichever calls throw.
process_failed_candidate-Reach :
    (sha256 : Text → Text) (scheduled_at claimed_at : Text) (cutoff lease : ℕ)
    (others : ℕ → Store → Store) (refused : ℕ → Store → Bool) (max_chunks : ℕ)
    (candidate : RetentionCandidate) (s : Store)
    → ((k : ℕ) (t : Store) → Reach t (others k t))
    → is_of_lane failed_lane candidate.status ≡ true
    → Reach s
        (process_failed_candidate others refused max_chunks sha256 scheduled_at claimed_at cutoff
          lease candidate s).0
process_failed_candidate-Reach sha256 scheduled_at claimed_at cutoff lease others refused max_chunks
      candidate s lifecycle l =
    Run-Reach (λ t u (k, e). subst (Reach t) (sym e) (lifecycle k t))
      (process_failed_candidate-Run sha256 scheduled_at claimed_at cutoff lease others refused
        max_chunks candidate s l)
