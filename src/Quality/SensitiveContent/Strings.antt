-- ===== src/Quality/SensitiveContent/Strings.antt =====
-- src/quality/sensitive-content.ts: the strings that are collected from an accepted value.
use edgemneme.Base.{
  ℕ, zero, suc, ◌≡◌, refl, subst, some, List, [], ◌∷◌, ◌++◌, Text, arith, All, All-Memᴰ,
  Memᴰ-append_left, Memᴰ-snoc,
}
use mathlib.Core.List.{Memᴰ}
use edgemneme.Quality.SensitiveContent.{accepted, Patterns}
use edgemneme.Quality.SensitiveContent.Values.{
  JsValue, Heap, entries_of, values_of, push_all, inspect_pending, collect_strings,
}
use edgemneme.Quality.SensitiveContent.Kept.{Holds, All-push_all}

-- Each string that is held in the value is among these.
abbrev pub HoldsAmong : Heap → List Text → JsValue → Type 0
HoldsAmong heap strings outer =
    (content : Text) → Holds heap outer (JsValue.string content) → Memᴰ content strings

Held-string :
    (heap : Heap) (strings : List Text) (content : Text)
    → Memᴰ content strings
    → (value : JsValue) → Holds heap (JsValue.string content) value
    → (found : Text) → value ≡ JsValue.string found
    → Memᴰ found strings
Held-string heap strings content m _ Holds.itself found e =
    let same : content ≡ found = cc in subst (λ c. Memᴰ c strings) same m

Held-other :
    (heap : Heap) (strings : List Text) (value : JsValue)
    → Holds heap JsValue.other value
    → (found : Text) → value ≡ JsValue.string found
    → Memᴰ found strings
Held-other heap strings _ Holds.itself found e = cc

Held-object :
    (heap : Heap) (strings : List Text) (address : ℕ)
    → All (HoldsAmong heap strings) (values_of (entries_of heap address))
    → (value : JsValue) → Holds heap (JsValue.object address) value
    → (found : Text) → value ≡ JsValue.string found
    → Memᴰ found strings
Held-object heap strings address k _ Holds.itself found e = cc
Held-object heap strings address k value (Holds.inside {child = child} m r) found e =
    All-Memᴰ (HoldsAmong heap strings) (values_of (entries_of heap address)) k m found
      (subst (Holds heap child) e r)

-- What the loop that accepts a value has looked at, the other loop collects in as many rounds.
unfoldable pub Collects : ℕ → Heap → List Text → List JsValue → Type 0
Collects fuel heap found pending =
    (strings : List Text) × (collect_strings fuel heap found pending ≡ some strings)
    × ((content : Text) → Memᴰ content found → Memᴰ content strings)
    × All (HoldsAmong heap strings) pending

module _ (p : Patterns) where
  pub collect_strings-Collects :
      (fuel max_bytes : ℕ) (heap : Heap) (seen : List ℕ) (found : List Text)
      (pending : List JsValue)
      → inspect_pending p fuel max_bytes heap seen pending ≡ some accepted
      → Collects fuel heap found pending
  unfolding inspect_pending collect_strings Collects
  collect_strings-Collects zero max_bytes heap seen found pending e = cc
  collect_strings-Collects (suc fuel) max_bytes heap seen found [] e =
      (found, refl, λ content m. m, tt)
  collect_strings-Collects (suc fuel) max_bytes heap seen found (JsValue.other ∷ pending) e =
      let (strings, q, old, held) =
        collect_strings-Collects fuel max_bytes heap seen found pending e in
      (strings, q, old, (λ content r. Held-other heap strings _ r content refl, held))
  collect_strings-Collects (suc fuel) max_bytes heap seen found (JsValue.string content ∷ pending)
        e =
      let (strings, q, old, held) =
        collect_strings-Collects fuel max_bytes heap seen (found ++ content ∷ []) pending
          (ground arith) in
      (
        strings,
        q,
        λ other m. old other (Memᴰ-append_left other found (content ∷ []) m),
        (
          λ other r.
              Held-string heap strings content (old content (Memᴰ-snoc content found)) _ r other
                refl,
          held,
        ),
      )
  collect_strings-Collects (suc fuel) max_bytes heap seen found (JsValue.object address ∷ pending)
        e =
      let (strings, q, old, held) =
        collect_strings-Collects fuel max_bytes heap (address ∷ seen) found
          (push_all (values_of (entries_of heap address)) pending) (ground arith) in
      let (children, later) =
        All-push_all (HoldsAmong heap strings) (values_of (entries_of heap address)) pending held in
      (
        strings,
        q,
        old,
        (λ content r. Held-object heap strings address children _ r content refl, later),
      )
