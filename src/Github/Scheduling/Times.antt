-- ===== src/Github/Scheduling/Times.antt =====
-- src/github/sync-scheduling.ts: slots and waits.
use native.Mathlib.Nat.{pow-le-pow_right}
use edgemneme.Base.{
  ℕ, ◌+◌, ◌*◌, ◌/◌, ◌%◌, ◌^◌, ◌≤◌, ◌<◌, min, ◌≡◌, sym, ap, ◌↔◌, some, ok, throw_if, >>=-eq-ok,
  ok-injective, Text, arith, ltb, max_safe_integer,
}
use edgemneme.Github.Scheduling.{
  canonical_github_sync_slot, lane_hash, lane_attempt_invalid, deterministic_lane_wait_ms,
}

-- The slot of a time is the one multiple of six hours that is not after the time and less than six hours
-- before it.
pub canonical_github_sync_slot_iff :
    (t s : ℕ)
    → (canonical_github_sync_slot (some t) ≡ ok s)
      ↔ ((k : ℕ) × (s ≡ k * 21600000) × (s ≤ t) × (t < s + 21600000))
unfolding canonical_github_sync_slot
canonical_github_sync_slot_iff t s = (
  λ h.
      let e : t / 21600000 * 21600000 ≡ s = ok-injective h in
      (t / 21600000, sym e, omega arith, omega arith),
  λ (k, e, a, b). let q : t / 21600000 * 21600000 ≡ s = omega arith in ap ok q,
)

power_le : (i j : ℕ) → i ≤ j → 2 ^ i ≤ 2 ^ j
power_le i j h = pow-le-pow_right (omega arith) h

wait-eq :
    (owner_id : Text) (attempt w : ℕ)
    → deterministic_lane_wait_ms owner_id attempt ≡ ok w
    → w ≡ min 30000 (250 * 2 ^ min attempt 7) + lane_hash 2166136261 owner_id % 401
unfolding deterministic_lane_wait_ms
wait-eq owner_id attempt w h =
    let (u, checked, h1) =
      >>=-eq-ok (throw_if (ltb max_safe_integer attempt) lane_attempt_invalid) _ h in
    sym (ok-injective h1)

-- A wait for the credential lane is from 250 to 30400 milliseconds, and for the same owner a later
-- attempt does not wait for less time.
pub deterministic_lane_wait_ms-bounds :
    (owner_id : Text) (earlier later v w : ℕ)
    → earlier ≤ later
    → deterministic_lane_wait_ms owner_id earlier ≡ ok v
    → deterministic_lane_wait_ms owner_id later ≡ ok w
    → (250 ≤ v) × (v ≤ w) × (w ≤ 30400)
deterministic_lane_wait_ms-bounds owner_id earlier later v w h a b =
    let e = wait-eq owner_id earlier v a in
    let f = wait-eq owner_id later w b in
    let first : 2 ^ 0 ≤ 2 ^ min earlier 7 = power_le 0 (min earlier 7) (omega arith) in
    let next : 2 ^ min earlier 7 ≤ 2 ^ min later 7 =
      power_le (min earlier 7) (min later 7) (omega arith) in
    let rest : lane_hash 2166136261 owner_id % 401 ≤ 400 = omega arith in
    (omega (arith, e, first), omega (arith, e, f, next), omega (arith, f, rest))
