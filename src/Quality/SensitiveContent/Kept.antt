-- ===== src/Quality/SensitiveContent/Kept.antt =====
-- src/quality/sensitive-content.ts: what an accepted value holds.
use edgemneme.Base.{ℕ, zero, suc, ◌≡◌, false, some, List, [], ◌∷◌, Text, arith, All, All-Memᴰ}
use mathlib.Core.List.{Memᴰ}
use edgemneme.Quality.SensitiveContent.{accepted, Patterns, inspect_candidate_content}
use edgemneme.Quality.SensitiveContent.Values.{
  JsValue, Heap, entries_of, values_of, push_all, has_sensitive_key, inspect_pending,
}

-- The second value is the first, or is held in it at any depth.
pub data Holds (heap : Heap) : JsValue → JsValue → Type 0 where
  itself : {value : JsValue} → Holds heap value value
  inside :
      {address : ℕ} {child value : JsValue}
      → Memᴰ child (values_of (entries_of heap address))
      → Holds heap child value
      → Holds heap (JsValue.object address) value

pub All-push_all :
    (P : JsValue → Type 0) (values pending : List JsValue)
    → All P (push_all values pending)
    → All P values × All P pending
unfolding push_all
All-push_all P [] pending h = (tt, h)
All-push_all P (value ∷ values) pending h =
    let (some_kept, rest) = All-push_all P values (value ∷ pending) h in
    ((rest.0, some_kept), rest.1)

module _ (p : Patterns) where
  -- A string is accepted, and an object has no key that names a secret.
  abbrev pub IsKept : ℕ → Heap → JsValue → Type 0
  IsKept max_bytes heap (JsValue.string content) =
      inspect_candidate_content p max_bytes content ≡ accepted
  IsKept max_bytes heap (JsValue.object address) =
      has_sensitive_key p (entries_of heap address) ≡ false
  IsKept max_bytes heap JsValue.other = Unit

  abbrev pub HoldsKept : ℕ → Heap → JsValue → Type 0
  HoldsKept max_bytes heap outer =
      (value : JsValue) → Holds heap outer value → IsKept max_bytes heap value

  HoldsKept-string :
      (max_bytes : ℕ) (heap : Heap) (content : Text)
      → inspect_candidate_content p max_bytes content ≡ accepted
      → HoldsKept max_bytes heap (JsValue.string content)
  HoldsKept-string max_bytes heap content h _ Holds.itself = h

  HoldsKept-other : (max_bytes : ℕ) (heap : Heap) → HoldsKept max_bytes heap JsValue.other
  HoldsKept-other max_bytes heap _ Holds.itself = tt

  HoldsKept-object :
      (max_bytes : ℕ) (heap : Heap) (address : ℕ)
      → has_sensitive_key p (entries_of heap address) ≡ false
      → All (HoldsKept max_bytes heap) (values_of (entries_of heap address))
      → HoldsKept max_bytes heap (JsValue.object address)
  HoldsKept-object max_bytes heap address h k _ Holds.itself = h
  HoldsKept-object max_bytes heap address h k value (Holds.inside {child = child} m r) =
      All-Memᴰ (HoldsKept max_bytes heap) (values_of (entries_of heap address)) k m value r

  pub inspect_pending-HoldsKept :
      (fuel max_bytes : ℕ) (heap : Heap) (seen : List ℕ) (pending : List JsValue)
      → inspect_pending p fuel max_bytes heap seen pending ≡ some accepted
      → All (HoldsKept max_bytes heap) pending
  unfolding inspect_pending
  inspect_pending-HoldsKept zero max_bytes heap seen pending e = cc
  inspect_pending-HoldsKept (suc fuel) max_bytes heap seen [] e = tt
  inspect_pending-HoldsKept (suc fuel) max_bytes heap seen (JsValue.other ∷ pending) e =
      (HoldsKept-other max_bytes heap, inspect_pending-HoldsKept fuel max_bytes heap seen pending e)
  inspect_pending-HoldsKept (suc fuel) max_bytes heap seen (JsValue.string content ∷ pending) e = (
    HoldsKept-string max_bytes heap content (ground arith),
    inspect_pending-HoldsKept fuel max_bytes heap seen pending (ground arith),
  )
  inspect_pending-HoldsKept (suc fuel) max_bytes heap seen (JsValue.object address ∷ pending) e =
      let plain : has_sensitive_key p (entries_of heap address) ≡ false = ground arith in
      let rest : inspect_pending p fuel max_bytes heap (address ∷ seen)
            (push_all (values_of (entries_of heap address)) pending)
          ≡ some accepted =
        ground arith in
      let (children, later) =
        All-push_all (HoldsKept max_bytes heap) (values_of (entries_of heap address)) pending (
          inspect_pending-HoldsKept fuel max_bytes heap (address ∷ seen)
            (push_all (values_of (entries_of heap address)) pending) rest) in
      (HoldsKept-object max_bytes heap address plain children, later)
