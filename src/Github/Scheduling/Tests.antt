-- ===== src/Github/Scheduling/Tests.antt =====
-- src/github/sync-scheduling.ts: tests, and the theorems at concrete inputs.
use edgemneme.Base.{ℕ, ◌≤◌, ◌≡◌, refl, List, [], ◌∷◌, ok, codes, concat, All}
use edgemneme.Github.Scheduling.{
  lane_hash, deterministic_lane_wait_ms, batches_from, chunk_workflow_batch,
}
use edgemneme.Github.Scheduling.Batches.{IsBatch, chunk_workflow_batch-joins}

abbrev pairs : List (List ℕ)
pairs = (1 ∷ 2 ∷ []) ∷ (3 ∷ 4 ∷ []) ∷ (5 ∷ []) ∷ []

batch_test : chunk_workflow_batch (1 ∷ 2 ∷ 3 ∷ 4 ∷ 5 ∷ []) 2 ≡ ok pairs
unfolding chunk_workflow_batch batches_from
batch_test = refl

-- The 32-bit hash of "a" that begins with this offset and this prime.
hash_test : lane_hash 2166136261 (codes "a") ≡ 0xe40c292c
unfolding lane_hash
hash_test = refl

first_wait : deterministic_lane_wait_ms (codes "a") 0 ≡ ok 518
unfolding deterministic_lane_wait_ms lane_hash
first_wait = refl

last_wait : deterministic_lane_wait_ms (codes "a") 9 ≡ ok 30268
unfolding deterministic_lane_wait_ms lane_hash
last_wait = refl

chunk_workflow_batch-joins_example :
    ((1 ≤ 2) × (2 ≤ 100)) × (concat pairs ≡ 1 ∷ 2 ∷ 3 ∷ 4 ∷ 5 ∷ []) × All (IsBatch 2) pairs
chunk_workflow_batch-joins_example =
    chunk_workflow_batch-joins (1 ∷ 2 ∷ 3 ∷ 4 ∷ 5 ∷ []) 2 pairs batch_test
