-- ===== src/Base/Substrings.antt =====
-- Prefixes, suffixes and pieces of texts and byte strings.
use Prim.Native.Nat.{ℕ}
use mathlib.Core.Path.{◌≡◌, refl}
use mathlib.Core.Logic.{◌↔◌}
use mathlib.Core.Bool.{Bool, true, false, ◌&&◌}
use mathlib.Core.Option.{Option, none, some}
use mathlib.Core.List.{List, [], ◌∷◌, ◌++◌, reverse}
use native.Mathlib.Omega.{arith}
use edgemneme.Base.Tests.{◌==◌, if◌then◌else◌}
use edgemneme.Base.Lists.{is_empty}
use edgemneme.Base.Texts.{Text}

-- `text.startsWith(prefix)`; also whether the first bytes are these.
unfoldable pub is_prefix : List ℕ → List ℕ → Bool
is_prefix [] s = true
is_prefix (c ∷ p) [] = false
is_prefix (c ∷ p) (d ∷ s) = d == c && is_prefix p s

-- `text.endsWith(suffix)`, the text first
unfoldable pub ends_with : Text → Text → Bool
unfolding is_prefix
ends_with text suffix = is_prefix (reverse suffix) (reverse text)

-- The part of a text from the last place of a code point.
unfoldable pub from_last : ℕ → Text → Option Text
from_last mark [] = none
from_last mark (c ∷ s) = elim (from_last mark s) [
  | some found ↦ some found
  | none ↦ if c == mark then some (c ∷ s) else none
]

unfoldable pub add_to_first : ℕ → List Text → List Text
add_to_first c [] = (c ∷ []) ∷ []
add_to_first c (piece ∷ pieces) = (c ∷ piece) ∷ pieces

-- `text.split(mark)`
unfoldable pub split : ℕ → Text → List Text
unfolding add_to_first
split mark [] = [] ∷ []
split mark (c ∷ s) = let rest = split mark s in if c == mark then [] ∷ rest else add_to_first c rest

-- `array.filter(Boolean)`
unfoldable pub filter_nonempty : List Text → List Text
filter_nonempty [] = []
filter_nonempty (piece ∷ pieces) =
    let rest = filter_nonempty pieces in if is_empty piece then rest else piece ∷ rest

pub is_prefix_iff : (p s : List ℕ) → (is_prefix p s ≡ true) ↔ ((rest : List ℕ) × (s ≡ p ++ rest))
unfolding is_prefix
is_prefix_iff [] s = (λ h. (s, refl), λ h. refl)
is_prefix_iff (c ∷ p) [] = (λ h. cc, λ (rest, e). cc)
is_prefix_iff (c ∷ p) (d ∷ s) = (
  λ h. let (rest, e) = (is_prefix_iff p s).0 (ground arith) in (rest, ground arith),
  λ (rest, e). ground (arith, (is_prefix_iff p s).1 (rest, ground arith)),
)
