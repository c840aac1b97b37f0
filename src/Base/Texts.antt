-- ===== src/Base/Texts.antt =====
-- Source strings as lists of code points, in the order in which `for (const c of s)` yields them;
-- an unpaired surrogate is its own code point.
use Prim.Native.Nat.{ℕ, ◌+◌}
use Prim.Native.Char.{code}
use Prim.Native.String.{String}
use mathlib.Core.Path.{◌≡◌, refl, sym}
use mathlib.Core.Logic.{◌↔◌, inl, inr}
use mathlib.Core.Bool.{Bool, true, false, ◌&&◌, ◌||◌}
use mathlib.Core.List.{List, [], ◌∷◌, ◌++◌, reverse, Memᴰ}
use native.Mathlib.Omega.{arith}
use edgemneme.Base.Tests.{leb, ◌==◌, if◌then◌else◌, Bool-cases}
use edgemneme.Base.Lists.{any}

abbrev pub Text : Type 0
Text = List ℕ

-- A literal.
abbrev pub codes : String → Text
codes String.[] = []
codes (String.◌∷◌ c s) = code c ∷ codes s

-- `left === right`
unfoldable pub text_eq : Text → Text → Bool
text_eq [] [] = true
text_eq [] (b ∷ bs) = false
text_eq (a ∷ as') [] = false
text_eq (a ∷ as') (b ∷ bs) = a == b && text_eq as' bs

pub text_eq_iff : (a b : Text) → (text_eq a b ≡ true) ↔ (a ≡ b)
unfolding text_eq
text_eq_iff [] [] = ground arith
text_eq_iff [] (b ∷ bs) = ground arith
text_eq_iff (a ∷ as') [] = ground arith
text_eq_iff (a ∷ as') (b ∷ bs) = ground (arith, text_eq_iff as' bs)

pub text_eq_self : (a : Text) → text_eq a a ≡ true
text_eq_self a = (text_eq_iff a a).1 refl

-- `lines.join("\n")`
abbrev pub join_lines : List Text → Text
join_lines [] = []
join_lines (line ∷ []) = line
join_lines (line ∷ next ∷ lines) = line ++ 10 ∷ join_lines (next ∷ lines)

-- `values.includes(value)`
unfoldable pub includes : List Text → Text → Bool
includes values value = any (λ v. text_eq v value) values

-- `value.length`, in UTF-16 code units
unfoldable pub utf16_length : Text → ℕ
utf16_length [] = 0
utf16_length (c ∷ s) = (if leb c 0xffff then 1 else 2) + utf16_length s

-- `new TextEncoder().encode(value).byteLength`
unfoldable pub utf8_length : Text → ℕ
utf8_length [] = 0
utf8_length (c ∷ s) =
    (if leb c 0x7f then 1 else (if leb c 0x7ff then 2 else (if leb c 0xffff then 3 else 4)))
    + utf8_length s

-- `/[\u0000-\u001f\u007f]/u.test(value)`
unfoldable pub has_control : Text → Bool
has_control value = any (λ c. leb c 0x1f || c == 0x7f) value

-- The white space and line terminators that `trim` removes.
unfoldable pub is_white_space : ℕ → Bool
is_white_space c =
    (leb 9 c && leb c 13)
    || c == 32
    || c == 0xa0
    || c == 0x1680
    || (leb 0x2000 c && leb c 0x200a)
    || c == 0x2028
    || c == 0x2029
    || c == 0x202f
    || c == 0x205f
    || c == 0x3000
    || c == 0xfeff

unfoldable pub trim_start : Text → Text
trim_start [] = []
trim_start (c ∷ s) = if is_white_space c then trim_start s else c ∷ s

unfoldable pub trim : Text → Text
unfolding trim_start is_white_space
trim s = reverse (trim_start (reverse (trim_start s)))

-- `includes` decides membership.
pub includes-Memᴰ : (values : List Text) (v : Text) → includes values v ≡ true → Memᴰ v values
unfolding includes
includes-Memᴰ [] v h = cc
includes-Memᴰ (x ∷ xs) v h = elim (Bool-cases (text_eq x v)) [
  | inl e ↦ Memᴰ.head (sym ((text_eq_iff x v).0 e))
  | inr n ↦ Memᴰ.tail (includes-Memᴰ xs v (ground arith))
]

pub Memᴰ-includes : (values : List Text) (v : Text) → Memᴰ v values → includes values v ≡ true
unfolding includes
Memᴰ-includes [] v m = elim m [ ]
Memᴰ-includes (x ∷ xs) v (Memᴰ.head e) = ground (arith, text_eq_iff x v)
Memᴰ-includes (x ∷ xs) v (Memᴰ.tail m) = ground (arith, Memᴰ-includes xs v m)
